-- ===== src/Db/Manager.antt =====
-- src/db/obj3_database_manager.cpp and include/obj3_database_manager.h: `transaction` and the
-- methods that are made of it
pub mod Documents
pub mod Retries
pub mod Bounds
use clyman.Prelude.{
  ℕ, zero, suc, String, ℤ, ◌==◌, nat_eq, Bool, true, false, not, ◌&&◌, ◌||◌, ltb, leb, Option, none,
  some, if◌then◌else◌,
}
use clyman.Outcome.{Outcome}
use clyman.Outcome.Io.{Io, pure, ◌>>=◌, ◌>>◌, when}
use clyman.Floats.{Floats}
use clyman.Constants.{
  not_found, processing_error, db_insert, db_update, db_lock, db_unlock, db_action_insert,
  db_action_update, db_action_remove, db_frame_insert, db_frame_update, db_frame_remove,
}
use clyman.Model.Animation.{AnimationAction, new_action, ObjectFrame, new_object_frame}
use clyman.Model.Object.{Object, new_object}
use clyman.Db.Bson.{Doc}
use clyman.Db.Interface.{DatabaseResponse, new_response}
use clyman.Db.Transaction.{Arguments, main_doc, query_doc}
use clyman.Db.Core.{
  Reply, done, mongo_exception, std_exception, undefined, Mongo, Core, Attempt, return, of_outcome,
  on_world, ◌>>=!◌, add_failure, set_new_connection, init,
}

abbrev pub max_retries : ℕ
max_retries = 11

-- The two things that a transaction writes for its caller.
pub record Output : Type 0 where
  pub response : DatabaseResponse
  pub key : String

-- The end of a round: what is written, whether an exception counted as a failure, and whether the
-- loop is left by `break`.
pub record Round : Type 0 where
  pub output : Output
  pub failure : Bool
  pub stops : Bool

abbrev succeed : Output → Output
succeed o = record o { response = record o.response { success = true } }

abbrev pub say : Output → String → Output
say o text = record o { response = record o.response { error_message = text } }

abbrev pub refuse : Output → String → ℤ → Output
refuse o text code = record o {
  response = record o.response { error_message = text; error_code = code };
}

-- `insert_doc`
unfoldable pub after_insert : Output → ℕ × String → Output
after_insert o (inserted, id) =
    if ltb 0 inserted
    then record (succeed o) { key = id }
    else refuse o "No Documents Inserted into DB" processing_error

-- The result of `update_one` or of `delete_one`.
unfoldable pub after_change : Output → Option ℕ → Output
after_change o none = refuse o "Null Result returned from DB" processing_error
after_change o (some n) =
    if ltb 0 n then succeed o else refuse o "No Documents Modified in DB" not_found

unfoldable pub is_update : ℕ → Bool
is_update transaction_type =
    transaction_type == db_update
    || (transaction_type == db_lock
        || (transaction_type == db_unlock
            || leb db_action_insert transaction_type && leb transaction_type db_frame_remove))

module _ (fl : Floats) {W : Type 0} (mongo : Mongo fl.Double W) where
  open fl use {Float, Double}
  open mongo use {acquire, parse_oid, insert_one, update_one}

  -- What a `try` block leaves: the output, and whether it came to a `break`.
  unfoldable pub insert_step : Output → Doc Double → Attempt W (Output × Bool)
  unfolding after_insert
  insert_step o d = on_world (insert_one d) >>=! λ r. return (after_insert o r, false)

  update_with : Output → ℕ → Arguments fl → Doc Double → Outcome String → Attempt W (Output × Bool)
  unfolding after_change
  update_with o transaction_type a d (Outcome.ok db_id) =
      of_outcome (query_doc fl transaction_type a db_id) >>=! λ q.
      on_world (update_one q d) >>=! λ r. return (after_change o r, false)
  update_with o transaction_type a d (Outcome.throw e) = return (say o e, true)
  update_with o transaction_type a d Outcome.crash = of_outcome Outcome.crash

  try_block : ℕ → Arguments fl → Bool → Output → Attempt W (Output × Bool)
  unfolding is_update insert_step update_with
  try_block transaction_type a is_append_operation o = on_world acquire >>=! λ _.
      of_outcome (main_doc fl transaction_type a is_append_operation) >>=! λ d.
      if transaction_type == db_insert
      then insert_step o d
      else if is_update transaction_type
      then update_with o transaction_type a d (parse_oid o.key)
      else return (o, false)

  catch_block : Output → Reply (Output × Bool) × Core W → Outcome Round × Core W
  unfolding add_failure
  catch_block o (done (o', broken), c) =
      (Outcome.ok (record { output = o'; failure = false; stops = broken }), c)
  catch_block o (mongo_exception e, c) =
      (Outcome.ok (record { output = say o e; failure = false; stops = true }), c)
  catch_block o (std_exception e, c) =
      (Outcome.ok (record { output = say o e; failure = true; stops = false }), add_failure c)
  catch_block o (undefined, c) = (Outcome.crash, c)

  unfoldable pub round : ℕ → Arguments fl → Bool → Output → Io (Core W) Round
  unfolding try_block catch_block
  round transaction_type a is_append_operation o c =
      catch_block o (try_block transaction_type a is_append_operation o c)

  -- The loop, over the retries that are left.
  unfoldable pub retry : ℕ → ℕ → Arguments fl → Bool → Output → Io (Core W) Output
  unfolding round set_new_connection
  retry zero transaction_type a is_append_operation o = pure o
  retry (suc left) transaction_type a is_append_operation o = do
    r ← round transaction_type a is_append_operation o
    if r.stops
        then pure r.output
        else (when r.failure (set_new_connection mongo)
            >> (if r.output.response.success && not r.failure
                then pure r.output
                else retry left transaction_type a is_append_operation r.output))

  -- `transaction`, with all its arguments
  unfoldable pub transaction : Arguments fl → String → ℕ → Bool → Io (Core W) Output
  transaction a key transaction_type is_append_operation =
      init mongo
      >> retry max_retries transaction_type a is_append_operation
          (record { response = new_response; key = key })

  abbrev of_object : Object Float → Arguments fl
  of_object o = record { obj = some o; action = none; aframe = none }

  -- The overload that takes `is_append_operation` and passes on `true`.
  unfoldable pub object_transaction : Object Float → String → ℕ → Bool → Io (Core W) Output
  unfolding transaction
  object_transaction o key transaction_type is_append_operation =
      transaction (of_object o) key transaction_type true

  response_of : Io (Core W) Output → Io (Core W) DatabaseResponse
  response_of m = do o ← m; pure o.response

  unfoldable pub create_object : Object Float → Io (Core W) (DatabaseResponse × String)
  unfolding object_transaction
  create_object o = do r ← object_transaction o "" db_insert true; pure (r.response, r.key)

  unfoldable pub update_object : Object Float → String → Io (Core W) DatabaseResponse
  unfolding object_transaction response_of
  update_object o key = response_of (object_transaction o key db_update true)

  unfoldable pub update_assets : Object Float → String → Bool → Io (Core W) DatabaseResponse
  unfolding object_transaction response_of
  update_assets o key is_append_operation =
      response_of (object_transaction o key db_update is_append_operation)

  unfoldable pub lock_object : String → String → Io (Core W) DatabaseResponse
  unfolding object_transaction response_of
  lock_object object_id device_id =
      response_of
        (object_transaction (record (new_object fl) { owner = device_id }) object_id db_lock true)

  unfoldable pub unlock_object : String → String → Io (Core W) DatabaseResponse
  unfolding object_transaction response_of
  unlock_object object_id device_id =
      response_of
        (object_transaction (record (new_object fl) { owner = device_id }) object_id db_unlock true)

  of_action : AnimationAction (ObjectFrame Float) → Arguments fl
  of_action a = record { obj = none; action = some a; aframe = none }

  of_frame : String → ObjectFrame Float → ℤ → Arguments fl
  of_frame action_name f frame_index = record {
    obj = none;
    action = some (record new_action { name = action_name });
    aframe = some (record f { base = record f.base { frame = frame_index } });
  }

  unfoldable pub create_action :
      String → AnimationAction (ObjectFrame Float) → String → Io (Core W) DatabaseResponse
  unfolding transaction response_of of_action
  create_action parent_key action name =
      response_of
        (transaction (of_action (record action { name = name })) parent_key db_action_insert true)

  unfoldable pub update_action :
      String → AnimationAction (ObjectFrame Float) → String → Io (Core W) DatabaseResponse
  unfolding transaction response_of of_action
  update_action parent_key action name =
      response_of
        (transaction (of_action (record action { name = name })) parent_key db_action_update true)

  unfoldable pub delete_object_action : String → String → Io (Core W) DatabaseResponse
  unfolding transaction response_of of_action
  delete_object_action parent_key name =
      response_of (
        transaction (of_action (record new_action { name = name })) parent_key db_action_remove
          true)

  unfoldable pub create_keyframe :
      String → String → ObjectFrame Float → ℤ → Io (Core W) DatabaseResponse
  unfolding transaction response_of of_frame
  create_keyframe object_key action_name frame frame_index =
      response_of
        (transaction (of_frame action_name frame frame_index) object_key db_frame_insert true)

  unfoldable pub update_keyframe :
      String → String → ObjectFrame Float → ℤ → Io (Core W) DatabaseResponse
  unfolding transaction response_of of_frame
  update_keyframe object_key action_name frame frame_index =
      response_of
        (transaction (of_frame action_name frame frame_index) object_key db_frame_update true)

  unfoldable pub delete_object_keyframe : String → String → ℤ → Io (Core W) DatabaseResponse
  unfolding transaction response_of of_frame
  delete_object_keyframe object_key action_name frame_index = response_of (
      transaction (of_frame action_name (new_object_frame fl) frame_index) object_key
        db_frame_remove true)
