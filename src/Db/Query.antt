-- ===== src/Db/Query.antt =====
-- src/db/obj3_database_manager.cpp: `get_object`, `query` and `delete_object`
pub mod Results
use clyman.Prelude.{
  ℕ, zero, suc, String, ℤ, pos, ltb_ℤ, Bool, true, false, List, [], ◌∷◌, Option, none, some,
  if◌then◌else◌,
}
use clyman.Outcome.{Outcome}
use clyman.Outcome.Io.{Io, pure, ◌>>=◌, ◌>>◌, when}
use clyman.Floats.{Floats}
use clyman.Constants.{not_found, processing_error}
use clyman.Model.Object.{Object, new_object}
use clyman.Model.DataList.{DataList, add_object}
use clyman.Db.Bson.{oid, Doc}
use clyman.Db.Interface.{DatabaseResponse, new_response}
use clyman.Db.Documents.{build_query_doc}
use clyman.Db.Read.{bson_to_obj3}
use clyman.Db.Core.{
  Cursor, Reply, done, mongo_exception, std_exception, undefined, Mongo, Core, Attempt, of_outcome,
  on_world, ◌>>=!◌, add_failure, set_new_connection, init,
}
use clyman.Db.Manager.{max_retries, after_change}

-- Whether a round failed, and whether it came to a `break`.
pub record End : Type 0 where
  pub failure : Bool
  pub stops : Bool

abbrev pub finished : End
finished = record { failure = false; stops = false }

abbrev pub failed_round : End
failed_round = record { failure = true; stops = false }

abbrev pub left_loop : End
left_loop = record { failure = false; stops = true }

-- A call of the manager's own, beside what the caller gave it to fill.
unfoldable pub on_core : {W L A : Type 0} → Io (Core W) A → Io (L × Core W) A
on_core m (l, c) = let (r, c') = m c in (r, (l, c'))

-- The loop that each of the three methods runs.
unfoldable pub loop : {S : Type 0} → (S → Outcome End × S) → Io S (Unit {0}) → ℕ → Io S (Unit {0})
loop round reset zero = pure tt
loop round reset (suc left) = do
  e ← round
  if e.stops
      then pure tt
      else (when e.failure reset >> (if e.failure then loop round reset left else pure tt))

module _ (fl : Floats) {W : Type 0} (mongo : Mongo fl.Double W) where
  open fl use {Float, Double}
  open mongo use {acquire, parse_oid, find_one, find, delete_one}

  -- The caller's list, and the manager.
  abbrev Filling : Type 0
  Filling = DataList (Object Float) × Core W

  set_num_records : ℤ → Io Filling (Unit {0})
  set_num_records n (l, c) = (Outcome.ok tt, (record l { num_records = n }, c))

  found_one : DataList (Object Float) → Option (Doc Double) → Outcome (DataList (Object Float))
  unfolding add_object
  found_one l none =
      Outcome.ok (record l { err_code = not_found; err_msg = "No results returned from query" })
  found_one l (some d) = elim (bson_to_obj3 fl d (new_object fl)) [
    | Outcome.ok o ↦ Outcome.ok (record (add_object l o) { num_records = pos 1 })
    | Outcome.throw e ↦ Outcome.throw e
    | Outcome.crash ↦ Outcome.crash
  ]

  get_block : DataList (Object Float) → String → Attempt W (DataList (Object Float))
  unfolding found_one
  get_block l db_id = on_world acquire >>=! λ _.
      on_world (find_one (("_id", oid db_id) ∷ [])) >>=! λ r. of_outcome (found_one l r)

  get_catch :
      DataList (Object Float) → Reply (DataList (Object Float)) × Core W → Outcome End × Filling
  unfolding add_failure
  get_catch l (done l', c) = (Outcome.ok finished, (l', c))
  get_catch l (mongo_exception e, c) =
      (Outcome.ok left_loop, (record l { err_code = processing_error; err_msg = e }, c))
  get_catch l (std_exception e, c) = (Outcome.ok failed_round, (l, add_failure c))
  get_catch l (undefined, c) = (Outcome.crash, (l, c))

  -- A key that is no id counts as a failure and ends the loop.
  get_round : Outcome String → Io Filling End
  unfolding get_block get_catch add_failure
  get_round (Outcome.ok db_id) (l, c) = get_catch l (get_block l db_id c)
  get_round (Outcome.throw e) (l, c) = (Outcome.ok left_loop, (l, add_failure c))
  get_round Outcome.crash (l, c) = (Outcome.crash, (l, c))

  unfoldable pub get_object : String → Io (DataList (Object Float) × Core W) (Unit {0})
  unfolding on_core set_num_records loop get_round init set_new_connection
  get_object key = do
    on_core (init mongo)
    set_num_records (pos 0)
    loop (get_round (parse_oid key)) (on_core (set_new_connection mongo)) max_retries

  -- The loop over the results: what was added before an exception, of a document that cannot be read or
  -- of the cursor, stays in the list. The cursor is moved on before `results_processed` is tested.
  unfoldable pub add_results :
      ℤ
      → ℕ
      → DataList (Object Float)
      → List (Doc Double)
      → Reply (Unit {0})
      → Reply (Unit {0}) × DataList (Object Float)
  unfolding add_object
  add_results max_results processed l [] ends = (ends, l)
  add_results max_results processed l (d ∷ ds) ends =
      if ltb_ℤ max_results (pos processed)
      then (done tt, l)
      else elim (bson_to_obj3 fl d (new_object fl)) [
        | Outcome.ok o ↦ add_results max_results (suc processed) (add_object l o) ds ends
        | Outcome.throw e ↦ (std_exception e, l)
        | Outcome.crash ↦ (undefined, l)
      ]

  -- The end of that loop.
  after_results : Core W → Reply (Unit {0}) × DataList (Object Float) → Outcome End × Filling
  unfolding add_failure
  after_results c (done u, l) = (Outcome.ok finished, (l, c))
  after_results c (mongo_exception e, l) = (Outcome.ok left_loop, (record l { err_msg = e }, c))
  after_results c (std_exception e, l) = (Outcome.ok failed_round, (l, add_failure c))
  after_results c (undefined, l) = (Outcome.crash, (l, c))

  query_results :
      ℤ → DataList (Object Float) → Reply (Cursor Double) × Core W → Outcome End × Filling
  unfolding after_results add_failure
  query_results max_results l (done found, c) =
      after_results c (add_results max_results 0 l found.results found.ends)
  query_results max_results l (mongo_exception e, c) =
      (Outcome.ok left_loop, (record l { err_msg = e }, c))
  query_results max_results l (std_exception e, c) = (Outcome.ok failed_round, (l, add_failure c))
  query_results max_results l (undefined, c) = (Outcome.crash, (l, c))

  query_round : Object Float → ℤ → Io Filling End
  query_round o max_results (l, c) =
      query_results max_results l
        ((on_world acquire >>=! λ _. on_world (find (build_query_doc fl o))) c)

  pub object_query : Object Float → ℤ → Io (DataList (Object Float) × Core W) (Unit {0})
  unfolding on_core loop query_round init set_new_connection
  object_query o max_results = do
    on_core (init mongo)
    loop (query_round o max_results) (on_core (set_new_connection mongo)) max_retries

  abbrev Answering : Type 0
  Answering = DatabaseResponse × Core W

  delete_catch : DatabaseResponse → Reply (Option ℕ) × Core W → Outcome End × Answering
  unfolding after_change add_failure
  delete_catch a (done r, c) =
      (Outcome.ok finished, ((after_change (record { response = a; key = "" }) r).response, c))
  delete_catch a (mongo_exception e, c) =
      (Outcome.ok left_loop, (record a { error_message = e }, c))
  delete_catch a (std_exception e, c) = (Outcome.ok failed_round, (a, add_failure c))
  delete_catch a (undefined, c) = (Outcome.crash, (a, c))

  delete_round : Outcome String → Io Answering End
  unfolding delete_catch add_failure
  delete_round (Outcome.ok db_id) (a, c) =
      delete_catch a
        ((on_world acquire >>=! λ _. on_world (delete_one (("_id", oid db_id) ∷ []))) c)
  delete_round (Outcome.throw e) (a, c) = (Outcome.ok left_loop, (a, add_failure c))
  delete_round Outcome.crash (a, c) = (Outcome.crash, (a, c))

  answer : Outcome (Unit {0}) × Answering → Outcome DatabaseResponse × Core W
  answer (Outcome.ok u, (a, c)) = (Outcome.ok a, c)
  answer (Outcome.throw e, (a, c)) = (Outcome.throw e, c)
  answer (Outcome.crash, (a, c)) = (Outcome.crash, c)

  unfoldable pub delete_object : String → Io (Core W) DatabaseResponse
  unfolding on_core loop delete_round answer init set_new_connection
  delete_object key c = answer (
      (on_core (init mongo)
          >> loop (delete_round (parse_oid key)) (on_core (set_new_connection mongo)) max_retries)
        (new_response, c))
