-- ===== src/Controller/Device.antt =====
-- src/controller/include/object_lock_handler.h and asset_handler.h
pub mod Laws
use clyman.Prelude.{String, ℤ, ◌==◌, int_eq, Bool, true, false, List, [], ◌∷◌, if◌then◌else◌}
use clyman.Outcome.{Outcome}
use clyman.Outcome.Io.{Io, pure, ◌>>=◌, ◌>>◌, try_catch}
use clyman.Floats.{Floats}
use clyman.Constants.{obj_lock, obj_unlock, asset_add, asset_del}
use clyman.Model.Related.{add_asset}
use clyman.Model.Object.{Object, new_object}
use clyman.Db.Interface.{DatabaseManager}
use clyman.Controller.Handler.{
  Handler, Session, Response, init_response, on_db, report, failed, finish_result,
}

module _ (fl : Floats) {W : Type 0} (manager : DatabaseManager fl.Float W) where
  open fl use {Float, Double}
  open manager use {lock_object, unlock_object, update_assets}

  process_lock_message : String → String → Handler fl W (Unit {0})
  unfolding report
  process_lock_message obj_key dev_key = do
    response ← on_db (lock_object obj_key dev_key)
    report response

  process_unlock_message : String → String → Handler fl W (Unit {0})
  unfolding report
  process_unlock_message obj_key dev_key = do
    response ← on_db (unlock_object obj_key dev_key)
    report response

  execute_lock : ℤ → String → String → Handler fl W (Unit {0})
  unfolding process_lock_message process_unlock_message
  execute_lock msg_type object_id device_id =
      if msg_type == obj_lock
      then process_lock_message object_id device_id
      else if msg_type == obj_unlock
      then process_unlock_message object_id device_id
      else pure tt

  unfoldable pub object_lock_request :
      ℤ → String → String → Io (Session (Object Float) Double W) (Response Double)
  unfolding execute_lock failed init_response finish_result
  object_lock_request msg_type object_id device_id = do
    init_response msg_type
    try_catch (execute_lock msg_type object_id device_id) failed
    finish_result fl

  -- An object that holds the one asset and is otherwise new.
  asset_object : String → Object Float
  unfolding new_object add_asset
  asset_object asset_key =
      let o = new_object fl in record o { related = add_asset o.related asset_key }

  process_add_message : String → String → Handler fl W (Unit {0})
  unfolding asset_object report
  process_add_message obj_key asset_key = do
    response ← on_db (update_assets (asset_object asset_key) obj_key true)
    report response

  process_remove_message : String → String → Handler fl W (Unit {0})
  unfolding asset_object report
  process_remove_message obj_key asset_key = do
    response ← on_db (update_assets (asset_object asset_key) obj_key false)
    report response

  execute_asset : ℤ → String → String → Handler fl W (Unit {0})
  unfolding process_add_message process_remove_message
  execute_asset msg_type object_id asset_id =
      if msg_type == asset_add
      then process_add_message object_id asset_id
      else if msg_type == asset_del
      then process_remove_message object_id asset_id
      else pure tt

  unfoldable pub asset_request :
      ℤ → String → String → Io (Session (Object Float) Double W) (Response Double)
  unfolding execute_asset failed init_response finish_result
  asset_request msg_type object_id asset_id = do
    init_response msg_type
    try_catch (execute_asset msg_type object_id asset_id) failed
    finish_result fl
