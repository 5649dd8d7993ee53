-- ===== src/Controller/Property/Frame.antt =====
-- src/controller/include/property_frame_base_handler.h, with frame_base_handler.h at the type
-- PropertyFrame, and property_frame_delete_handler.h
pub mod Laws
use clyman.Prelude.{
  String, ℤ, pos, ◌==◌, int_eq, Bool, true, false, ltb_ℤ, ◌||◌, ◌&&◌, Option, none, some,
  if◌then◌else◌,
}
use clyman.Outcome.{Outcome}
use clyman.Outcome.Io.{pure, lift, ◌>>=◌, ◌>>◌, try_catch, when}
use clyman.Floats.{Floats}
use clyman.Constants.{prop_frame_crt, prop_frame_upd, translation_error, no_error}
use clyman.Json.{Json, Parsed, parse_error, document}
use clyman.Factory.Property.{Frame, build_property_frame}
use clyman.Model.Animation.{new_action, add_keyframe}
use clyman.Model.Property.{
  Property, new_property, new_property_frame, add_prop_action, set_prop_key, set_prop_scene,
}
use clyman.Model.DataList.{DataList, new_data_list, get_object as nth_object}
use clyman.App.Cluster.{Service}
use clyman.Db.Interface.{PropertyManager}
use clyman.Controller.Caught.{log_index, parse_index, continue_after, index_or_zero}
use clyman.Controller.Handler.{
  Response, set_error_code, set_error_message, init_response, on_db, on_list_caught, report,
  report_processing, failed, find_downstream,
}
use clyman.Controller.Property.{
  PropertyHandler, publish_property, send_property_update, send_properties, finish_properties,
}

module _ (fl : Floats) {W : Type 0} (manager : PropertyManager fl.Float fl.Double W) where
  open fl use {Float, Double}
  open manager use {
    create_prop_keyframe, update_prop_keyframe, delete_property_keyframe, get_property,
  }

  process_create_message : String → String → Frame fl → PropertyHandler fl W (Unit {0})
  unfolding report log_index
  process_create_message object_key action_name in_doc = do
    lift (log_index in_doc.base.frame)
    response ← on_db (create_prop_keyframe object_key action_name in_doc in_doc.base.frame)
    report response

  process_update_message : String → String → ℤ → Frame fl → PropertyHandler fl W (Unit {0})
  unfolding report log_index
  process_update_message object_key action_name frame_indx in_doc = do
    lift (log_index frame_indx)
    response ← on_db (update_prop_keyframe object_key action_name in_doc frame_indx)
    report response

  execute : ℤ → String → String → ℤ → Frame fl → PropertyHandler fl W (Unit {0})
  unfolding process_create_message process_update_message
  execute msg_type object_id actn_name frame_index in_doc =
      if msg_type == prop_frame_crt
      then process_create_message object_id actn_name in_doc
      else if msg_type == prop_frame_upd
      then process_update_message object_id actn_name frame_index in_doc
      else pure tt

  -- A creation takes the index from the document.
  index_after : ℤ → ℤ → Frame fl → ℤ
  index_after msg_type frame_index in_doc =
      if msg_type == prop_frame_crt then in_doc.base.frame else frame_index

  -- `new_out_doc`: a property that holds the one action with the one frame.
  frame_event : String → String → ℤ → Frame fl → String → Property Float Double
  unfolding add_prop_action add_keyframe
  frame_event object_id actn_name frame_index frame scene =
      set_prop_scene
        (set_prop_key
          (add_prop_action new_property actn_name (
            add_keyframe (record new_action { name = actn_name }) frame_index
              (record frame { base = record frame.base { frame = frame_index } })))
          object_id)
        scene

  notify : ℤ → String → String → ℤ → Frame fl → PropertyHandler fl W (Unit {0})
  unfolding frame_event send_property_update
  notify msg_type object_id actn_name frame_index in_doc =
      when (msg_type == prop_frame_crt || msg_type == prop_frame_upd) (
        send_property_update fl in_doc.related.scene_id
          (frame_event object_id actn_name frame_index in_doc in_doc.related.scene_id) msg_type)

  build : Json Double → PropertyHandler fl W (Option (Frame fl))
  unfolding build_property_frame set_error_code set_error_message
  build doc =
      try_catch (do f ← lift (build_property_frame fl doc); pure (some f))
        (λ e. do set_error_code translation_error; set_error_message e; pure none)

  process : ℤ → String → String → ℤ → Option (Frame fl) → PropertyHandler fl W (Unit {0})
  unfolding execute index_after notify failed
  process msg_type object_id actn_name frame_index none = pure tt
  process msg_type object_id actn_name frame_index (some in_doc) = do
    try_catch (execute msg_type object_id actn_name frame_index in_doc) failed
    notify msg_type object_id actn_name (index_after msg_type frame_index in_doc) in_doc

  refuse : PropertyHandler fl W (Response Double)
  unfolding set_error_code send_properties
  refuse = do set_error_code translation_error; send_properties fl 400 "text/plain"

  respond : ℤ → String → String → Option ℤ → Parsed Double → PropertyHandler fl W (Response Double)
  unfolding build process refuse finish_properties set_error_message
  respond msg_type object_id actn_name index (parse_error e) = set_error_message e >> refuse
  respond msg_type object_id actn_name none (document doc) = refuse
  respond msg_type object_id actn_name (some frame_index) (document doc) = do
    inp_doc ← build doc
    process msg_type object_id actn_name frame_index inp_doc
    finish_properties fl

  unfoldable pub property_frame_request :
      ℤ → String → String → String → Parsed Double → PropertyHandler fl W (Response Double)
  unfolding respond parse_index init_response set_error_code
  property_frame_request msg_type object_id actn_name frame_ind_str body = do
    init_response msg_type
    index ← if msg_type == prop_frame_upd then parse_index frame_ind_str else pure (some (pos 0))
    set_error_code no_error
    respond msg_type object_id actn_name index body

  process_delete_message : String → String → ℤ → PropertyHandler fl W (Unit {0})
  unfolding report_processing
  process_delete_message property_key act_name frame_num = do
    response ← on_db (delete_property_keyframe property_key act_name frame_num)
    report_processing response

  -- Whether the handler goes on: each `catch` clears the flag.
  delete_step : String → String → Option ℤ → PropertyHandler fl W Bool
  unfolding process_delete_message failed
  delete_step property_id actn_name none = pure false
  delete_step property_id actn_name (some frame_index) =
      try_catch (process_delete_message property_id actn_name frame_index >> pure true)
        (λ e. failed e >> pure false)

  -- Whether to go on, and the properties found.
  find_step : String → Bool → PropertyHandler fl W (Bool × DataList (Property Float Double))
  unfolding on_list_caught continue_after
  find_step property_id true = do
    found ← on_list_caught (get_property property_id)
    goes_on ← continue_after found.0
    pure (goes_on, found.1)
  find_step property_id false = pure (false, new_data_list)

  announce :
      ℤ
      → String
      → String
      → ℤ
      → DataList (Property Float Double)
      → Option Service
      → PropertyHandler fl W (Unit {0})
  unfolding frame_event publish_property nth_object
  announce msg_type property_id actn_name frame_index found none s = (Outcome.ok tt, s)
  announce msg_type property_id actn_name frame_index found (some downstream) s =
      when (ltb_ℤ no_error s.body.err_code && ltb_ℤ (pos 0) found.num_records)
        (do
          p ← lift (nth_object found 0)
          publish_property fl p.related.scene_id
              (frame_event property_id actn_name frame_index new_property_frame p.related.scene_id)
              msg_type downstream)
        s

  unfoldable pub property_frame_delete_request :
      ℤ → String → String → String → PropertyHandler fl W (Response Double)
  unfolding parse_index delete_step find_step find_downstream announce index_or_zero init_response
      finish_properties
  property_frame_delete_request msg_type property_id actn_name frame_ind_str = do
    init_response msg_type
    index ← parse_index frame_ind_str
    deleted ← delete_step property_id actn_name index
    found ← find_step property_id deleted
    downstream ← find_downstream
    when found.0 (announce msg_type property_id actn_name (index_or_zero index) found.1 downstream)
    finish_properties fl
