-- ===== src/Db/Manager/Bounds.antt =====
-- How many documents a transaction sends at most, and how many failures it leaves counted.
use clyman.Prelude.{
  ℕ, zero, suc, ◌+◌, ◌≤◌, String, ◌==◌, nat_eq, Bool, true, false, arith, if◌then◌else◌, ◌&&◌, not,
}
use clyman.Outcome.{Outcome}
use clyman.Outcome.Io.{◌>>◌, when, pure, bind-steps}
use clyman.Floats.{Floats}
use clyman.Constants.{db_insert}
use clyman.Db.Bson.{Doc}
use clyman.Db.Interface.{new_response}
use clyman.Db.Transaction.{Arguments, main_doc, query_doc}
use clyman.Db.Core.{
  Reply, done, mongo_exception, std_exception, undefined, Mongo, Core, bind_attempt-steps,
  of_outcome-Keeps, of_outcome, on_world, return, init, add_failure, set_new_connection,
  set_new_connection-Keeps, init-Keeps,
}
use clyman.Db.Manager.{
  Output, Round, is_update, round, retry, transaction, try_block, catch_block, insert_step,
  update_with,
}

-- The driver with a count of the documents that it was given to insert or to update by.
unfoldable pub counted : {D W : Type 0} → Mongo D W → Mongo D (W × ℕ)
counted mongo = record {
  connect = λ w. let (r, v) = mongo.connect w.0 in (r, (v, w.1));
  acquire = λ w. let (r, v) = mongo.acquire w.0 in (r, (v, w.1));
  parse_oid = mongo.parse_oid;
  insert_one = λ d w. let (r, v) = mongo.insert_one d w.0 in (r, (v, suc w.1));
  update_one = λ q d w. let (r, v) = mongo.update_one q d w.0 in (r, (v, suc w.1));
  find_one = λ q w. let (r, v) = mongo.find_one q w.0 in (r, (v, w.1));
  find = λ q w. let (r, v) = mongo.find q w.0 in (r, (v, w.1));
  delete_one = λ q w. let (r, v) = mongo.delete_one q w.0 in (r, (v, w.1));
}

le_cast : {a b c : ℕ} → a ≤ b → b ≤ c → a ≤ c
le_cast h k = omega arith

module _ (fl : Floats) {W : Type 0} (mongo : Mongo fl.Double W) where
  abbrev Counting : Type 0
  Counting = Core (W × ℕ)

  abbrev Sent : ℕ → Core (W × ℕ) → Type 0
  Sent n c = c.world.1 ≤ n

  insert_step-count :
      (n : ℕ) (o : Output) (d : Doc fl.Double) (c : Counting)
      → Sent n c
      → Sent (suc n) (insert_step fl (counted mongo) o d c).1
  unfolding insert_step counted
  insert_step-count n o d =
      bind_attempt-steps (Sent n) (Sent (suc n)) (Sent (suc n))
        (on_world ((counted mongo).insert_one d)) _ (λ _ p. p) (λ _ p. omega arith) (λ _ _ p. p)

  update_with-count :
      (n : ℕ) (o : Output) (t : ℕ) (a : Arguments fl) (d : Doc fl.Double) (id : Outcome String)
      (c : Counting)
      → Sent n c
      → Sent (suc n) (update_with fl (counted mongo) o t a d id c).1
  unfolding update_with counted
  update_with-count n o t a d (Outcome.ok id) c p =
      bind_attempt-steps (Sent n) (Sent n) (Sent (suc n)) (of_outcome (query_doc fl t a id)) _
        (λ _ q. omega arith) (λ v q. of_outcome-Keeps (Sent n) (query_doc fl t a id) v q)
        (λ q.
          bind_attempt-steps (Sent n) (Sent (suc n)) (Sent (suc n))
            (on_world ((counted mongo).update_one q d)) _ (λ _ r. r) (λ _ r. omega arith)
            (λ _ _ r. r))
        c p
  update_with-count n o t a d (Outcome.throw e) c p = omega arith
  update_with-count n o t a d Outcome.crash c p = omega arith

  branch-count :
      (n : ℕ) (inserts updates : Bool) (t : ℕ) (a : Arguments fl) (o : Output) (d : Doc fl.Double)
      (c : Counting)
      → Sent n c
      → Sent
          (suc n)
          ((if inserts
              then insert_step fl (counted mongo) o d
              else if updates
              then update_with fl (counted mongo) o t a d ((counted mongo).parse_oid o.key)
              else return (o, false))
            c).1
  branch-count n true u t a o d c p = insert_step-count n o d c p
  branch-count n false true t a o d c p =
      update_with-count n o t a d ((counted mongo).parse_oid o.key) c p
  branch-count n false false t a o d c p = omega arith

  try_block-count :
      (n t : ℕ) (a : Arguments fl) (b : Bool) (o : Output) (c : Counting)
      → Sent n c
      → Sent (suc n) (try_block fl (counted mongo) t a b o c).1
  unfolding try_block counted
  try_block-count n t a b o =
      bind_attempt-steps (Sent n) (Sent n) (Sent (suc n)) (on_world (counted mongo).acquire) _
        (λ _ q. omega arith) (λ _ q. q)
        (λ _.
          bind_attempt-steps (Sent n) (Sent n) (Sent (suc n)) (of_outcome (main_doc fl t a b)) _
            (λ _ q. omega arith) (λ v q. of_outcome-Keeps (Sent n) (main_doc fl t a b) v q)
            (λ d. branch-count n (t == db_insert) (is_update t) t a o d))

  catch_block-count :
      (n : ℕ) (o : Output) (r : Reply (Output × Bool)) (c : Counting)
      → Sent n c
      → Sent n (catch_block fl (counted mongo) o (r, c)).1
  unfolding catch_block add_failure
  catch_block-count n o (done (o', b)) c p = p
  catch_block-count n o (mongo_exception e) c p = p
  catch_block-count n o (std_exception e) c p = p
  catch_block-count n o undefined c p = p

  round-count :
      (n t : ℕ) (a : Arguments fl) (b : Bool) (o : Output) (c : Counting)
      → Sent n c
      → Sent (suc n) (round fl (counted mongo) t a b o c).1
  unfolding round
  round-count n t a b o c p =
      let r = try_block fl (counted mongo) t a b o c in
      catch_block-count (suc n) o r.0 r.1 (try_block-count n t a b o c p)

  connection-count :
      (n : ℕ) (b : Bool) (c : Counting)
      → Sent n c
      → Sent n (when b (set_new_connection (counted mongo)) c).1
  unfolding counted
  connection-count n false c p = p
  connection-count n true c p =
      set_new_connection-Keeps (counted mongo) (Sent n) (λ _ q. q) (λ _ q. q) c p

  rest-count :
      (n left t : ℕ) (a : Arguments fl) (b : Bool) (r : Round)
      → ((o : Output) (c : Counting)
          → Sent n c
          → Sent (left + n) (retry fl (counted mongo) left t a b o c).1)
      → (stops success : Bool) (c : Counting) → Sent n c
      → Sent
          (left + n)
          ((if stops
              then pure r.output
              else (when r.failure (set_new_connection (counted mongo))
                  >> (if success
                      then pure r.output
                      else retry fl (counted mongo) left t a b r.output)))
            c).1
  rest-count n left t a b r k true success c p = omega arith
  rest-count n left t a b r k false true c p =
      bind-steps (Sent n) (Sent n) (Sent (left + n))
        (when r.failure (set_new_connection (counted mongo))) (λ _. pure r.output)
        (λ _ q. omega arith) (connection-count n r.failure) (λ _ _ q. omega arith) c p
  rest-count n left t a b r k false false c p =
      bind-steps (Sent n) (Sent n) (Sent (left + n))
        (when r.failure (set_new_connection (counted mongo)))
        (λ _. retry fl (counted mongo) left t a b r.output) (λ _ q. omega arith)
        (connection-count n r.failure) (λ _. k r.output) c p

  retry-count :
      (left n t : ℕ) (a : Arguments fl) (b : Bool) (o : Output) (c : Counting)
      → Sent n c
      → Sent (left + n) (retry fl (counted mongo) left t a b o c).1
  unfolding retry
  retry-count zero n t a b o c p = omega arith
  retry-count (suc left) n t a b o c p =
      bind-steps (Sent n) (Sent (suc n)) (Sent (suc left + n)) (round fl (counted mongo) t a b o) _
        (λ _ q. omega arith) (round-count n t a b o)
        (λ r v q.
          le_cast
            (rest-count (suc n) left t a b r (λ o' c'. retry-count left (suc n) t a b o' c') r.stops
              (r.output.response.success && not r.failure) v q)
            (omega arith))
        c p

  -- A transaction gives the database at most eleven documents to insert or to update by, whatever the
  -- database answers and whether the transaction returns, throws or stops.
  pub transaction_bounded :
      (a : Arguments fl) (key : String) (t : ℕ) (b : Bool) (c : Core (W × ℕ))
      → (transaction fl (counted mongo) a key t b c).1.world.1 ≤ 11 + c.world.1
  unfolding transaction counted
  transaction_bounded a key t b c =
      bind-steps (Sent c.world.1) (Sent c.world.1) (Sent (11 + c.world.1)) (init (counted mongo)) _
        (λ _ q. omega arith) (init-Keeps (counted mongo) (Sent c.world.1) (λ _ q. q) (λ _ q. q))
        (λ _ v q.
          retry-count 11 c.world.1 t a b (record { response = new_response; key = key }) v q)
        c (omega arith)
