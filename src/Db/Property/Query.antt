-- ===== src/Db/Property/Query.antt =====
-- src/db/property_database_manager.cpp: `get_property`, `property_query` and `delete_property`
pub mod Failures
use clyman.Prelude.{ℕ, suc, String, ℤ, pos, ltb_ℤ, List, [], ◌∷◌, Option, none, some, if◌then◌else◌}
use clyman.Outcome.{Outcome}
use clyman.Outcome.Io.{Io, ◌>>=◌, ◌>>◌}
use clyman.Floats.{Floats}
use clyman.Constants.{processing_error}
use clyman.Model.Property.{Property, new_property}
use clyman.Model.DataList.{DataList, add_object}
use clyman.Db.Bson.{oid, Doc}
use clyman.Db.Interface.{DatabaseResponse, new_response}
use clyman.Db.Core.{
  Cursor, Reply, done, mongo_exception, std_exception, undefined, Mongo, Core, Attempt, of_outcome,
  on_world, ◌>>=!◌, add_failure, set_new_connection, init,
}
use clyman.Db.Manager.{max_retries, refuse, after_change}
use clyman.Db.Query.{End, finished, failed_round, left_loop, on_core, loop}
use clyman.Db.Property.Documents.{build_query_prop_doc}
use clyman.Db.Property.Read.{bson_to_prop}

module _ (fl : Floats) {W : Type 0} (mongo : Mongo fl.Double W) where
  open fl use {Float, Double}
  open mongo use {acquire, parse_oid, find_one, find, delete_one}

  abbrev Props : Type 0
  Props = DataList (Property Float Double)

  abbrev Filling : Type 0
  Filling = Props × Core W

  set_num_records : ℤ → Io Filling (Unit {0})
  set_num_records n (l, c) = (Outcome.ok tt, (record l { num_records = n }, c))

  -- `add_prop` and `set_num_records(1)`, where the document can be read.
  unfoldable pub read_into :
      DataList (Property Float Double)
      → Outcome (Property Float Double)
      → Outcome (DataList (Property Float Double))
  unfolding add_object
  read_into l (Outcome.ok p) = Outcome.ok (record (add_object l p) { num_records = pos 1 })
  read_into l (Outcome.throw e) = Outcome.throw e
  read_into l Outcome.crash = Outcome.crash

  unfoldable pub found_prop :
      DataList (Property Float Double)
      → Option (Doc Double)
      → Outcome (DataList (Property Float Double))
  unfolding read_into
  found_prop l none =
      Outcome.ok
        (record l { err_code = processing_error; err_msg = "No results returned from query" })
  found_prop l (some d) = read_into l (bson_to_prop fl d new_property)

  get_prop_block : Props → String → Attempt W Props
  get_prop_block l db_id = on_world acquire >>=! λ _.
      on_world (find_one (("_id", oid db_id) ∷ [])) >>=! λ r. of_outcome (found_prop l r)

  get_prop_catch : Props → Reply Props × Core W → Outcome End × Filling
  unfolding add_failure
  get_prop_catch l (done l', c) = (Outcome.ok finished, (l', c))
  get_prop_catch l (mongo_exception e, c) = (Outcome.ok left_loop, (record l { err_msg = e }, c))
  get_prop_catch l (std_exception e, c) =
      (Outcome.ok failed_round, (record l { err_msg = e }, add_failure c))
  get_prop_catch l (undefined, c) = (Outcome.crash, (l, c))

  -- A key that is no id ends the loop.
  get_prop_round : Outcome String → Io Filling End
  unfolding get_prop_block get_prop_catch
  get_prop_round (Outcome.ok db_id) (l, c) = get_prop_catch l (get_prop_block l db_id c)
  get_prop_round (Outcome.throw e) (l, c) = (Outcome.ok left_loop, (record l { err_msg = e }, c))
  get_prop_round Outcome.crash (l, c) = (Outcome.crash, (l, c))

  unfoldable pub get_property : String → Io (DataList (Property Float Double) × Core W) (Unit {0})
  unfolding on_core set_num_records loop get_prop_round init set_new_connection
  get_property key = do
    on_core (init mongo)
    set_num_records (pos 0)
    loop (get_prop_round (parse_oid key)) (on_core (set_new_connection mongo)) max_retries

  -- The loop over the results.
  unfoldable pub add_prop_results :
      ℤ
      → ℕ
      → DataList (Property Float Double)
      → List (Doc Double)
      → Reply (Unit {0})
      → Reply (Unit {0}) × DataList (Property Float Double)
  unfolding add_object
  add_prop_results max_results processed l [] ends = (ends, l)
  add_prop_results max_results processed l (d ∷ ds) ends =
      if ltb_ℤ max_results (pos processed)
      then (done tt, l)
      else elim (bson_to_prop fl d new_property) [
        | Outcome.ok p ↦ add_prop_results max_results (suc processed) (add_object l p) ds ends
        | Outcome.throw e ↦ (std_exception e, l)
        | Outcome.crash ↦ (undefined, l)
      ]

  after_prop_results : Core W → Reply (Unit {0}) × Props → Outcome End × Filling
  unfolding add_failure
  after_prop_results c (done u, l) = (Outcome.ok finished, (l, c))
  after_prop_results c (mongo_exception e, l) =
      (Outcome.ok left_loop, (record l { err_msg = e }, c))
  after_prop_results c (std_exception e, l) = (Outcome.ok failed_round, (l, add_failure c))
  after_prop_results c (undefined, l) = (Outcome.crash, (l, c))

  prop_query_results : ℤ → Props → Reply (Cursor Double) × Core W → Outcome End × Filling
  unfolding after_prop_results add_failure
  prop_query_results max_results l (done found, c) =
      after_prop_results c (add_prop_results max_results 0 l found.results found.ends)
  prop_query_results max_results l (mongo_exception e, c) =
      (Outcome.ok left_loop, (record l { err_msg = e }, c))
  prop_query_results max_results l (std_exception e, c) =
      (Outcome.ok failed_round, (l, add_failure c))
  prop_query_results max_results l (undefined, c) = (Outcome.crash, (l, c))

  -- A round; what was added before an exception stays in the list.
  prop_query_round : Property Float Double → ℤ → Io Filling End
  unfolding prop_query_results on_core init
  prop_query_round p max_results = on_core (init mongo) >> λ (l, c).
      prop_query_results max_results l
        ((on_world acquire >>=! λ _. on_world (find (build_query_prop_doc fl p))) c)

  unfoldable pub property_query :
      Property Float Double → ℤ → Io (DataList (Property Float Double) × Core W) (Unit {0})
  unfolding loop on_core prop_query_round set_new_connection
  property_query p max_results =
      loop (prop_query_round p max_results) (on_core (set_new_connection mongo)) max_retries

  abbrev Answering : Type 0
  Answering = DatabaseResponse × Core W

  prop_delete_catch : DatabaseResponse → Reply (Option ℕ) × Core W → Outcome End × Answering
  unfolding after_change add_failure
  prop_delete_catch a (done r, c) =
      (Outcome.ok finished, ((after_change (record { response = a; key = "" }) r).response, c))
  prop_delete_catch a (mongo_exception e, c) =
      (Outcome.ok left_loop, (record a { error_message = e; error_code = processing_error }, c))
  prop_delete_catch a (std_exception e, c) = (Outcome.ok failed_round, (a, add_failure c))
  prop_delete_catch a (undefined, c) = (Outcome.crash, (a, c))

  -- A key that is no id counts as a failure, and the round is repeated.
  prop_delete_round : String → Io Answering End
  unfolding prop_delete_catch on_core init
  prop_delete_round key = on_core (init mongo) >> λ (a, c). prop_delete_catch a (
      (on_world acquire >>=! λ _.
      of_outcome (parse_oid key) >>=! λ db_id. on_world (delete_one (("_id", oid db_id) ∷ [])))
        c)

  prop_answer : Outcome (Unit {0}) × Answering → Outcome DatabaseResponse × Core W
  prop_answer (Outcome.ok u, (a, c)) = (Outcome.ok a, c)
  prop_answer (Outcome.throw e, (a, c)) = (Outcome.throw e, c)
  prop_answer (Outcome.crash, (a, c)) = (Outcome.crash, c)

  pub delete_property : String → Io (Core W) DatabaseResponse
  unfolding prop_answer
  delete_property key c = prop_answer (
      loop (prop_delete_round key) (on_core (set_new_connection mongo)) max_retries
        (new_response, c))
