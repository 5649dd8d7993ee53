-- ===== src/Controller/Action.antt =====
-- src/controller/include/action_base_handler.h, object_action_base_handler.h and
-- object_action_delete_handler.h
pub mod Laws
pub mod Events
mod Tests
use clyman.Prelude.{
  String, ℤ, pos, ◌==◌, int_eq, Bool, ltb_ℤ, ◌||◌, ◌&&◌, Option, none, some, List, [],
  if◌then◌else◌,
}
use clyman.Outcome.{Outcome}
use clyman.Outcome.Io.{Io, pure, lift, ◌>>=◌, ◌>>◌, try_catch, when}
use clyman.Floats.{Floats}
use clyman.Constants.{obj_action_crt, obj_action_upd, translation_error, no_error}
use clyman.Json.{Json, Parsed, parse_error, document}
use clyman.Factory.Action.{build_object_action}
use clyman.Model.Animation.{AnimationAction, ObjectFrame, new_action}
use clyman.Model.Object.{Object, new_object, add_action, set_key, set_scene}
use clyman.Model.DataList.{DataList, get_object as nth_object}
use clyman.App.Cluster.{Service}
use clyman.Db.Interface.{DatabaseManager}
use clyman.Controller.Caught.{note_failure}
use clyman.Controller.Handler.{
  Handler, Session, Response, set_error_code, set_error_message, init_response, on_db,
  on_list_caught, report, report_processing, failed, find_downstream, publish, send_update, send,
  finish,
}

module _ (fl : Floats) {W : Type 0} (manager : DatabaseManager fl.Float W) where
  open fl use {Float, Double}
  open manager use {create_action, update_action, delete_object_action, get_object}

  process_create_message : String → AnimationAction (ObjectFrame Float) → Handler fl W (Unit {0})
  unfolding report_processing
  process_create_message object_key in_doc = do
    response ← on_db (create_action object_key in_doc in_doc.name)
    report_processing response

  process_update_message :
      String → String → AnimationAction (ObjectFrame Float) → Handler fl W (Unit {0})
  unfolding report
  process_update_message object_key action_name in_doc = do
    response ← on_db (update_action object_key in_doc action_name)
    report response

  execute : ℤ → String → String → AnimationAction (ObjectFrame Float) → Handler fl W (Unit {0})
  unfolding process_create_message process_update_message
  execute msg_type object_id actn_name in_doc =
      if msg_type == obj_action_crt
      then process_create_message object_id in_doc
      else if msg_type == obj_action_upd
      then process_update_message object_id actn_name in_doc
      else pure tt

  -- A creation takes the name from the document.
  name_after : ℤ → String → AnimationAction (ObjectFrame Float) → String
  name_after msg_type actn_name in_doc =
      if msg_type == obj_action_crt then in_doc.name else actn_name

  out_doc : String → String → AnimationAction (ObjectFrame Float) → Object Float
  unfolding add_action
  out_doc object_id actn_name in_doc =
      set_scene (set_key (add_action (new_object fl) actn_name in_doc) object_id)
        in_doc.related.scene_id

  notify : ℤ → String → String → AnimationAction (ObjectFrame Float) → Handler fl W (Unit {0})
  unfolding out_doc send_update
  notify msg_type object_id actn_name in_doc =
      when (msg_type == obj_action_crt || msg_type == obj_action_upd)
        (send_update fl in_doc.related.scene_id (out_doc object_id actn_name in_doc) msg_type)

  build : Json Double → Handler fl W (Option (AnimationAction (ObjectFrame Float)))
  unfolding build_object_action set_error_code set_error_message
  build doc =
      try_catch (do a ← lift (build_object_action fl doc); pure (some a))
        (λ e. do set_error_code translation_error; set_error_message e; pure none)

  process :
      ℤ → String → String → Option (AnimationAction (ObjectFrame Float)) → Handler fl W (Unit {0})
  unfolding execute name_after notify failed
  process msg_type object_id actn_name none = pure tt
  process msg_type object_id actn_name (some in_doc) = do
    try_catch (execute msg_type object_id actn_name in_doc) failed
    notify msg_type object_id (name_after msg_type actn_name in_doc) in_doc

  respond : ℤ → String → String → Parsed Double → Handler fl W (Response Double)
  unfolding build process send finish set_error_code set_error_message
  respond msg_type object_id actn_name (parse_error e) = do
    set_error_code translation_error
    set_error_message e
    send fl 400 "application/json"
  respond msg_type object_id actn_name (document doc) = do
    inp_doc ← build doc
    process msg_type object_id actn_name inp_doc
    finish fl

  unfoldable pub object_action_request :
      ℤ → String → String → Parsed Double → Handler fl W (Response Double)
  unfolding respond init_response
  object_action_request msg_type object_id actn_name body =
      init_response msg_type >> respond msg_type object_id actn_name body

  process_delete_message : String → String → Handler fl W (Unit {0})
  unfolding report_processing
  process_delete_message object_key act_name = do
    response ← on_db (delete_object_action object_key act_name)
    report_processing response

  -- The object and the scene of the event.
  deleted_doc : String → String → Object Float → Object Float
  unfolding add_action
  deleted_doc object_id actn_name stored =
      set_scene
        (set_key (add_action (new_object fl) actn_name (record new_action { name = actn_name }))
          object_id)
        stored.related.scene_id

  announce :
      ℤ → String → String → DataList (Object Float) → Option Service → Handler fl W (Unit {0})
  unfolding deleted_doc publish nth_object
  announce msg_type object_id actn_name found none s = (Outcome.ok tt, s)
  announce msg_type object_id actn_name found (some downstream) s =
      when (ltb_ℤ no_error s.body.err_code && ltb_ℤ (pos 0) found.num_records)
        (do
          o ← lift (nth_object found 0)
          publish fl o.related.scene_id (deleted_doc object_id actn_name o) msg_type downstream)
        s

  unfoldable pub object_action_delete_request : ℤ → String → String → Handler fl W (Response Double)
  unfolding process_delete_message failed note_failure on_list_caught find_downstream announce
      init_response finish
  object_action_delete_request msg_type object_id actn_name = do
    init_response msg_type
    try_catch (process_delete_message object_id actn_name) failed
    found ← on_list_caught (get_object object_id)
    note_failure found.0
    downstream ← find_downstream
    announce msg_type object_id actn_name found.1 downstream
    finish fl
