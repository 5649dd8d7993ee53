-- ===== src/Controller/Property/Action.antt =====
-- src/controller/include/property_action_base_handler.h, with action_base_handler.h at the type
-- PropertyFrame, and property_action_delete_handler.h
pub mod Laws
use clyman.Prelude.{
  String, ℤ, pos, ◌==◌, int_eq, ltb_ℤ, ◌||◌, ◌&&◌, Option, none, some, if◌then◌else◌,
}
use clyman.Outcome.{Outcome}
use clyman.Outcome.Io.{pure, lift, ◌>>=◌, ◌>>◌, try_catch, when}
use clyman.Floats.{Floats}
use clyman.Constants.{prop_action_crt, prop_action_upd, translation_error, no_error}
use clyman.Json.{Json, Parsed, parse_error, document}
use clyman.Factory.Property.{Action, build_property_action}
use clyman.Model.Animation.{new_action}
use clyman.Model.Property.{Property, new_property, add_prop_action, set_prop_key, set_prop_scene}
use clyman.Model.DataList.{DataList, get_object as nth_object}
use clyman.App.Cluster.{Service}
use clyman.Db.Interface.{PropertyManager}
use clyman.Controller.Caught.{note_failure}
use clyman.Controller.Handler.{
  Response, set_error_code, set_error_message, init_response, on_db, on_list_caught, report,
  report_processing, failed, find_downstream,
}
use clyman.Controller.Property.{
  PropertyHandler, publish_property, send_property_update, send_properties, finish_properties,
}

module _ (fl : Floats) {W : Type 0} (manager : PropertyManager fl.Float fl.Double W) where
  open fl use {Float, Double}
  open manager use {create_prop_action, update_prop_action, delete_property_action, get_property}

  process_create_message : String → Action fl → PropertyHandler fl W (Unit {0})
  unfolding report_processing
  process_create_message object_key in_doc = do
    response ← on_db (create_prop_action object_key in_doc in_doc.name)
    report_processing response

  process_update_message : String → String → Action fl → PropertyHandler fl W (Unit {0})
  unfolding report
  process_update_message object_key action_name in_doc = do
    response ← on_db (update_prop_action object_key in_doc action_name)
    report response

  execute : ℤ → String → String → Action fl → PropertyHandler fl W (Unit {0})
  unfolding process_create_message process_update_message
  execute msg_type object_id actn_name in_doc =
      if msg_type == prop_action_crt
      then process_create_message object_id in_doc
      else if msg_type == prop_action_upd
      then process_update_message object_id actn_name in_doc
      else pure tt

  -- A creation takes the name from the document.
  name_after : ℤ → String → Action fl → String
  name_after msg_type actn_name in_doc =
      if msg_type == prop_action_crt then in_doc.name else actn_name

  -- `new_out_doc`
  action_event : String → String → Action fl → String → Property Float Double
  unfolding add_prop_action
  action_event object_id actn_name action scene =
      set_prop_scene (set_prop_key (add_prop_action new_property actn_name action) object_id) scene

  notify : ℤ → String → String → Action fl → PropertyHandler fl W (Unit {0})
  unfolding action_event send_property_update
  notify msg_type object_id actn_name in_doc =
      when (msg_type == prop_action_crt || msg_type == prop_action_upd) (
        send_property_update fl in_doc.related.scene_id
          (action_event object_id actn_name in_doc in_doc.related.scene_id) msg_type)

  build : Json Double → PropertyHandler fl W (Option (Action fl))
  unfolding build_property_action set_error_code set_error_message
  build doc =
      try_catch (do a ← lift (build_property_action fl doc); pure (some a))
        (λ e. do set_error_code translation_error; set_error_message e; pure none)

  process : ℤ → String → String → Option (Action fl) → PropertyHandler fl W (Unit {0})
  unfolding execute name_after notify failed
  process msg_type object_id actn_name none = pure tt
  process msg_type object_id actn_name (some in_doc) = do
    try_catch (execute msg_type object_id actn_name in_doc) failed
    notify msg_type object_id (name_after msg_type actn_name in_doc) in_doc

  respond : ℤ → String → String → Parsed Double → PropertyHandler fl W (Response Double)
  unfolding build process send_properties finish_properties set_error_code set_error_message
  respond msg_type object_id actn_name (parse_error e) = do
    set_error_code translation_error
    set_error_message e
    send_properties fl 400 "application/json"
  respond msg_type object_id actn_name (document doc) = do
    inp_doc ← build doc
    process msg_type object_id actn_name inp_doc
    finish_properties fl

  unfoldable pub property_action_request :
      ℤ → String → String → Parsed Double → PropertyHandler fl W (Response Double)
  unfolding respond init_response
  property_action_request msg_type object_id actn_name body =
      init_response msg_type >> respond msg_type object_id actn_name body

  process_delete_message : String → String → PropertyHandler fl W (Unit {0})
  unfolding report_processing
  process_delete_message property_key act_name = do
    response ← on_db (delete_property_action property_key act_name)
    report_processing response

  announce :
      ℤ
      → String
      → String
      → DataList (Property Float Double)
      → Option Service
      → PropertyHandler fl W (Unit {0})
  unfolding action_event publish_property nth_object
  announce msg_type property_id actn_name found none s = (Outcome.ok tt, s)
  announce msg_type property_id actn_name found (some downstream) s =
      when (ltb_ℤ no_error s.body.err_code && ltb_ℤ (pos 0) found.num_records)
        (do
          p ← lift (nth_object found 0)
          publish_property fl p.related.scene_id
              (action_event property_id actn_name (record new_action { name = actn_name })
                p.related.scene_id)
              msg_type downstream)
        s

  unfoldable pub property_action_delete_request :
      ℤ → String → String → PropertyHandler fl W (Response Double)
  unfolding process_delete_message failed note_failure on_list_caught find_downstream announce
      init_response finish_properties
  property_action_delete_request msg_type property_id actn_name = do
    init_response msg_type
    try_catch (process_delete_message property_id actn_name) failed
    found ← on_list_caught (get_property property_id)
    note_failure found.0
    downstream ← find_downstream
    announce msg_type property_id actn_name found.1 downstream
    finish_properties fl
