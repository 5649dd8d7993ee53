-- ===== src/Controller/Property/Key.antt =====
-- src/controller/include/property_key_handler.h: get and delete by key
pub mod Laws
pub mod Answered
use clyman.Prelude.{String, ℤ, pos, ◌==◌, int_eq, ltb_ℤ, if◌then◌else◌}
use clyman.Outcome.Io.{pure, lift, ◌>>=◌, ◌>>◌, try_catch, when}
use clyman.Floats.{Floats}
use clyman.Constants.{prop_get, prop_del}
use clyman.Model.Property.{Property, new_property, set_prop_key, set_prop_scene}
use clyman.Model.DataList.{DataList, get_object as nth_object}
use clyman.Db.Interface.{PropertyManager}
use clyman.Controller.Caught.{mark_missing}
use clyman.Controller.Handler.{Response, init_response, on_db, on_body, on_list, report, failed}
use clyman.Controller.Property.{PropertyHandler, send_property_update, finish_properties}

module _ (fl : Floats) {W : Type 0} (manager : PropertyManager fl.Float fl.Double W) where
  open fl use {Float, Double}
  open manager use {get_property, delete_property}

  -- The property of the event: the key, and the scene of the stored property if there is one.
  event_property :
      String → DataList (Property Float Double) → PropertyHandler fl W (Property Float Double)
  unfolding nth_object
  event_property object_id found =
      if ltb_ℤ (pos 0) found.num_records
      then (do
        p ← lift (nth_object found 0)
        pure (set_prop_scene (set_prop_key new_property object_id) p.related.scene_id))
      else pure (set_prop_key new_property object_id)

  -- The event goes out before the property is deleted.
  announce_property_delete : ℤ → String → PropertyHandler fl W (Unit {0})
  unfolding event_property on_list send_property_update failed
  announce_property_delete msg_type object_id =
      try_catch
        (do
          found ← on_list (get_property object_id)
          p ← event_property object_id found
          send_property_update fl p.related.scene_id p msg_type)
        failed

  process_get_message : String → PropertyHandler fl W (Unit {0})
  process_get_message key = on_body (get_property key)

  process_delete_message : String → PropertyHandler fl W (Unit {0})
  unfolding report
  process_delete_message key = do response ← on_db (delete_property key); report response

  execute : ℤ → String → PropertyHandler fl W (Unit {0})
  unfolding mark_missing process_get_message process_delete_message
  execute msg_type object_id =
      if msg_type == prop_get
      then (process_get_message object_id >> mark_missing)
      else if msg_type == prop_del
      then process_delete_message object_id
      else pure tt

  unfoldable pub property_key_request : ℤ → String → PropertyHandler fl W (Response Double)
  unfolding announce_property_delete execute failed init_response finish_properties
  property_key_request msg_type object_id = do
    init_response msg_type
    when (msg_type == prop_del) (announce_property_delete msg_type object_id)
    try_catch (execute msg_type object_id) failed
    finish_properties fl
