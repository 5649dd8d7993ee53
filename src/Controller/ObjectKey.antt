-- ===== src/Controller/ObjectKey.antt =====
-- src/controller/include/object_key_handler.h: get and delete by key
pub mod Laws
use clyman.Prelude.{String, ℤ, pos, ◌==◌, int_eq, ltb_ℤ, List, [], ◌∷◌, if◌then◌else◌}
use clyman.Outcome.{Outcome}
use clyman.Outcome.Io.{Io, pure, lift, ◌>>=◌, ◌>>◌, try_catch, when}
use clyman.Floats.{Floats}
use clyman.Constants.{obj_get, obj_del, not_found}
use clyman.Model.Object.{Object, new_object, set_key, set_scene}
use clyman.Model.DataList.{DataList, get_object as nth_object}
use clyman.Db.Interface.{DatabaseManager}
use clyman.Controller.Caught.{mark_missing}
use clyman.Controller.Handler.{
  Handler, Session, Response, set_error_code, init_response, on_db, on_body, on_list, report,
  failed, send_update, finish_result,
}

module _ (fl : Floats) {W : Type 0} (manager : DatabaseManager fl.Float W) where
  open fl use {Float, Double}
  open manager use {get_object, delete_object}

  -- The object of the event: the key, and the scene of the stored object if there is one.
  event_object : String → DataList (Object Float) → Handler fl W (Object Float)
  unfolding nth_object
  event_object object_id found =
      if ltb_ℤ (pos 0) found.num_records
      then (do
        o ← lift (nth_object found 0)
        pure (set_key (set_scene (new_object fl) o.related.scene_id) object_id))
      else pure (set_key (new_object fl) object_id)

  -- The event goes out before the object is deleted.
  announce_delete : ℤ → String → Handler fl W (Unit {0})
  unfolding event_object on_list send_update failed
  announce_delete msg_type object_id =
      try_catch
        (do
          found ← on_list (get_object object_id)
          o ← event_object object_id found
          send_update fl o.related.scene_id o msg_type)
        failed

  process_get_message : String → Handler fl W (Unit {0})
  process_get_message key = on_body (get_object key)

  process_delete_message : String → Handler fl W (Unit {0})
  unfolding report
  process_delete_message key = do response ← on_db (delete_object key); report response

  execute : ℤ → String → Handler fl W (Unit {0})
  unfolding mark_missing process_get_message process_delete_message
  execute msg_type object_id =
      if msg_type == obj_get
      then (process_get_message object_id >> mark_missing)
      else if msg_type == obj_del
      then process_delete_message object_id
      else pure tt

  unfoldable pub object_key_request :
      ℤ → String → Io (Session (Object Float) Double W) (Response Double)
  unfolding announce_delete execute failed init_response finish_result
  object_key_request msg_type object_id = do
    init_response msg_type
    when (msg_type == obj_del) (announce_delete msg_type object_id)
    try_catch (execute msg_type object_id) failed
    finish_result fl
