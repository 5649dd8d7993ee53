-- ===== src/Db/Property/Manager.antt =====
-- src/db/property_database_manager.cpp and include/property_database_manager.h: `prop_transaction` and
-- the methods that are made of it
use clyman.Prelude.{
  ℕ, zero, suc, String, ℤ, ◌==◌, nat_eq, Bool, true, false, not, ◌&&◌, none, some, if◌then◌else◌,
}
use clyman.Outcome.{Outcome}
use clyman.Outcome.Io.{Io, pure, ◌>>=◌, ◌>>◌, when}
use clyman.Floats.{Floats}
use clyman.Constants.{
  processing_error, db_insert, db_update, db_action_insert, db_action_update, db_action_remove,
  db_frame_insert, db_frame_update, db_frame_remove,
}
use clyman.Model.Animation.{new_action}
use clyman.Model.Property.{Property, new_property_frame}
use clyman.Db.Bson.{Doc}
use clyman.Db.Interface.{DatabaseResponse, new_response}
use clyman.Db.Core.{
  Reply, done, mongo_exception, std_exception, undefined, Mongo, Core, Attempt, return, of_outcome,
  on_world, ◌>>=!◌, add_failure, set_new_connection, init,
}
use clyman.Db.Manager.{Output, Round, max_retries, say, refuse, after_change, insert_step}
use clyman.Db.Property.Documents.{Frame, Action}
use clyman.Db.Property.Transaction.{PropArguments, prop_main_doc, prop_query_doc, prop_is_update}

module _ (fl : Floats) {W : Type 0} (mongo : Mongo fl.Double W) where
  open fl use {Float, Double}
  open mongo use {acquire, parse_oid, update_one}

  prop_update_with :
      Output → ℕ → PropArguments fl → Doc Double → Outcome String → Attempt W (Output × Bool)
  unfolding after_change
  prop_update_with o transaction_type a d (Outcome.ok db_id) =
      of_outcome (prop_query_doc fl transaction_type a db_id) >>=! λ q.
      on_world (update_one q d) >>=! λ r. return (after_change o r, false)
  prop_update_with o transaction_type a d (Outcome.throw e) =
      return (refuse o e processing_error, true)
  prop_update_with o transaction_type a d Outcome.crash = of_outcome Outcome.crash

  prop_try : ℕ → PropArguments fl → Bool → Output → Attempt W (Output × Bool)
  unfolding prop_is_update insert_step prop_update_with
  prop_try transaction_type a is_append_operation o = on_world acquire >>=! λ _.
      of_outcome (prop_main_doc fl transaction_type a is_append_operation) >>=! λ d.
      if transaction_type == db_insert
      then insert_step fl mongo o d
      else if prop_is_update transaction_type
      then prop_update_with o transaction_type a d (parse_oid o.key)
      else return (o, false)

  prop_catch : Output → Reply (Output × Bool) × Core W → Outcome Round × Core W
  unfolding add_failure
  prop_catch o (done (o', broken), c) =
      (Outcome.ok (record { output = o'; failure = false; stops = broken }), c)
  prop_catch o (mongo_exception e, c) = (
    Outcome.ok (record { output = refuse o e processing_error; failure = false; stops = true }),
    c,
  )
  prop_catch o (std_exception e, c) =
      (Outcome.ok (record { output = say o e; failure = true; stops = false }), add_failure c)
  prop_catch o (undefined, c) = (Outcome.crash, c)

  unfoldable pub prop_round : ℕ → PropArguments fl → Bool → Output → Io (Core W) Round
  unfolding prop_try prop_catch
  prop_round transaction_type a is_append_operation o c =
      prop_catch o (prop_try transaction_type a is_append_operation o c)

  -- The loop, over the retries that are left. Each round begins by `init`.
  unfoldable pub prop_retry : ℕ → ℕ → PropArguments fl → Bool → Output → Io (Core W) Output
  unfolding prop_round set_new_connection init
  prop_retry zero transaction_type a is_append_operation o = pure o
  prop_retry (suc left) transaction_type a is_append_operation o = do
    init mongo
    r ← prop_round transaction_type a is_append_operation o
    if r.stops
        then pure r.output
        else (when r.failure (set_new_connection mongo)
            >> (if r.output.response.success && not r.failure
                then pure r.output
                else prop_retry left transaction_type a is_append_operation r.output))

  -- `prop_transaction`, with all its arguments
  unfoldable pub prop_transaction : PropArguments fl → String → ℕ → Bool → Io (Core W) Output
  unfolding prop_retry
  prop_transaction a key transaction_type is_append_operation =
      prop_retry max_retries transaction_type a is_append_operation
        (record { response = new_response; key = key })

  -- The overload for a property takes `is_append_operation` and passes on `true`.
  property_transaction : Property Float Double → String → ℕ → Bool → Io (Core W) Output
  unfolding prop_transaction
  property_transaction p key transaction_type is_append_operation =
      prop_transaction (record { prop = some p; action = none; aframe = none }) key transaction_type
        true

  prop_response_of : Io (Core W) Output → Io (Core W) DatabaseResponse
  prop_response_of m = do o ← m; pure o.response

  unfoldable pub create_property : Property Float Double → Io (Core W) (DatabaseResponse × String)
  unfolding property_transaction
  create_property p = do r ← property_transaction p "" db_insert true; pure (r.response, r.key)

  unfoldable pub update_property : Property Float Double → String → Io (Core W) DatabaseResponse
  unfolding property_transaction prop_response_of
  update_property p key = prop_response_of (property_transaction p key db_update true)

  on_action : Action fl → PropArguments fl
  on_action action = record { prop = none; action = some action; aframe = none }

  on_frame : String → Frame fl → ℤ → PropArguments fl
  on_frame action_name f frame_index = record {
    prop = none;
    action = some (record new_action { name = action_name });
    aframe = some (record f { base = record f.base { frame = frame_index } });
  }

  unfoldable pub create_prop_action : String → Action fl → String → Io (Core W) DatabaseResponse
  unfolding prop_transaction prop_response_of on_action
  create_prop_action parent_key action name = prop_response_of (
      prop_transaction (on_action (record action { name = name })) parent_key db_action_insert true)

  unfoldable pub update_prop_action : String → Action fl → String → Io (Core W) DatabaseResponse
  unfolding prop_transaction prop_response_of on_action
  update_prop_action parent_key action name = prop_response_of (
      prop_transaction (on_action (record action { name = name })) parent_key db_action_update true)

  unfoldable pub delete_property_action : String → String → Io (Core W) DatabaseResponse
  unfolding prop_transaction prop_response_of on_action
  delete_property_action parent_key name = prop_response_of (
      prop_transaction (on_action (record new_action { name = name })) parent_key db_action_remove
        true)

  unfoldable pub create_prop_keyframe :
      String → String → Frame fl → ℤ → Io (Core W) DatabaseResponse
  unfolding prop_transaction prop_response_of on_frame
  create_prop_keyframe property_key action_name frame frame_index =
      prop_response_of (
        prop_transaction (on_frame action_name frame frame_index) property_key db_frame_insert true)

  unfoldable pub update_prop_keyframe :
      String → String → Frame fl → ℤ → Io (Core W) DatabaseResponse
  unfolding prop_transaction prop_response_of on_frame
  update_prop_keyframe property_key action_name frame frame_index =
      prop_response_of (
        prop_transaction (on_frame action_name frame frame_index) property_key db_frame_update true)

  unfoldable pub delete_property_keyframe : String → String → ℤ → Io (Core W) DatabaseResponse
  unfolding prop_transaction prop_response_of on_frame
  delete_property_keyframe property_key action_name frame_index = prop_response_of (
      prop_transaction (on_frame action_name new_property_frame frame_index) property_key
        db_frame_remove true)
