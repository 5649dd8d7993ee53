-- ===== src/Controller/Frame.antt =====
-- src/controller/include/frame_base_handler.h, object_frame_base_handler.h and
-- object_frame_delete_handler.h
pub mod Laws
pub mod Deletion
mod Tests
use clyman.Prelude.{
  String, ℤ, pos, ◌==◌, int_eq, Bool, true, false, ltb_ℤ, ◌||◌, ◌&&◌, Option, none, some, List, [],
  if◌then◌else◌,
}
use clyman.Outcome.{Outcome}
use clyman.Outcome.Io.{Io, pure, lift, ◌>>=◌, ◌>>◌, try_catch, when}
use clyman.Floats.{Floats}
use clyman.Constants.{obj_frame_crt, obj_frame_upd, translation_error, no_error}
use clyman.Std.{stoi}
use clyman.Json.{Json, Parsed, parse_error, document}
use clyman.Factory.Frame.{build_object_frame}
use clyman.Model.Animation.{
  AnimationAction, ObjectFrame, new_action, new_object_frame, add_keyframe,
}
use clyman.Model.Object.{Object, new_object, add_action, set_key, set_scene}
use clyman.Model.DataList.{DataList, new_data_list, get_object as nth_object}
use clyman.App.Cluster.{Service}
use clyman.Db.Interface.{DatabaseManager}
use clyman.Controller.Caught.{log_index, parse_index, continue_after, index_or_zero}
use clyman.Controller.Handler.{
  Handler, Session, Response, set_error_code, set_error_message, init_response, on_db,
  on_list_caught, report, report_processing, failed, find_downstream, publish, send_update, send,
  finish,
}

module _ (fl : Floats) {W : Type 0} (manager : DatabaseManager fl.Float W) where
  open fl use {Float, Double}
  open manager use {create_keyframe, update_keyframe, delete_object_keyframe, get_object}

  process_create_message : String → String → ObjectFrame Float → Handler fl W (Unit {0})
  unfolding report log_index
  process_create_message object_key action_name in_doc = do
    lift (log_index in_doc.base.frame)
    response ← on_db (create_keyframe object_key action_name in_doc in_doc.base.frame)
    report response

  process_update_message : String → String → ℤ → ObjectFrame Float → Handler fl W (Unit {0})
  unfolding report log_index
  process_update_message object_key action_name frame_indx in_doc = do
    lift (log_index frame_indx)
    response ← on_db (update_keyframe object_key action_name in_doc frame_indx)
    report response

  execute : ℤ → String → String → ℤ → ObjectFrame Float → Handler fl W (Unit {0})
  unfolding process_create_message process_update_message
  execute msg_type object_id actn_name frame_index in_doc =
      if msg_type == obj_frame_crt
      then process_create_message object_id actn_name in_doc
      else if msg_type == obj_frame_upd
      then process_update_message object_id actn_name frame_index in_doc
      else pure tt

  -- A creation takes the index from the document.
  index_after : ℤ → ℤ → ObjectFrame Float → ℤ
  index_after msg_type frame_index in_doc =
      if msg_type == obj_frame_crt then in_doc.base.frame else frame_index

  -- An object that holds the one action with the one frame.
  frame_doc : String → String → ℤ → ObjectFrame Float → String → Object Float
  unfolding add_action add_keyframe
  frame_doc object_id actn_name frame_index frame scene =
      set_scene
        (set_key
          (add_action (new_object fl) actn_name (
            add_keyframe (record new_action { name = actn_name }) frame_index
              (record frame { base = record frame.base { frame = frame_index } })))
          object_id)
        scene

  notify : ℤ → String → String → ℤ → ObjectFrame Float → Handler fl W (Unit {0})
  unfolding frame_doc send_update
  notify msg_type object_id actn_name frame_index in_doc =
      when (msg_type == obj_frame_crt || msg_type == obj_frame_upd) (
        send_update fl in_doc.related.scene_id
          (frame_doc object_id actn_name frame_index in_doc in_doc.related.scene_id) msg_type)

  build : Json Double → Handler fl W (Option (ObjectFrame Float))
  unfolding build_object_frame set_error_code set_error_message
  build doc =
      try_catch (do f ← lift (build_object_frame fl doc); pure (some f))
        (λ e. do set_error_code translation_error; set_error_message e; pure none)

  process : ℤ → String → String → ℤ → Option (ObjectFrame Float) → Handler fl W (Unit {0})
  unfolding execute index_after notify failed
  process msg_type object_id actn_name frame_index none = pure tt
  process msg_type object_id actn_name frame_index (some in_doc) = do
    try_catch (execute msg_type object_id actn_name frame_index in_doc) failed
    notify msg_type object_id actn_name (index_after msg_type frame_index in_doc) in_doc

  refuse : Handler fl W (Response Double)
  unfolding set_error_code send
  refuse = do set_error_code translation_error; send fl 400 "text/plain"

  respond : ℤ → String → String → Option ℤ → Parsed Double → Handler fl W (Response Double)
  unfolding build process refuse finish set_error_message
  respond msg_type object_id actn_name index (parse_error e) = set_error_message e >> refuse
  respond msg_type object_id actn_name none (document doc) = refuse
  respond msg_type object_id actn_name (some frame_index) (document doc) = do
    inp_doc ← build doc
    process msg_type object_id actn_name frame_index inp_doc
    finish fl

  unfoldable pub object_frame_request :
      ℤ → String → String → String → Parsed Double → Handler fl W (Response Double)
  unfolding respond parse_index init_response set_error_code
  object_frame_request msg_type object_id actn_name frame_ind_str body = do
    init_response msg_type
    index ← if msg_type == obj_frame_upd then parse_index frame_ind_str else pure (some (pos 0))
    set_error_code no_error
    respond msg_type object_id actn_name index body

  process_delete_message : String → String → ℤ → Handler fl W (Unit {0})
  unfolding report_processing
  process_delete_message object_key act_name frame_num = do
    response ← on_db (delete_object_keyframe object_key act_name frame_num)
    report_processing response

  -- Whether the handler goes on: each `catch` clears the flag.
  delete_step : String → String → Option ℤ → Handler fl W Bool
  unfolding process_delete_message failed
  delete_step object_id actn_name none = pure false
  delete_step object_id actn_name (some frame_index) =
      try_catch (process_delete_message object_id actn_name frame_index >> pure true)
        (λ e. failed e >> pure false)

  -- Whether to go on, and the objects found.
  find_step : String → Bool → Handler fl W (Bool × DataList (Object Float))
  unfolding on_list_caught continue_after
  find_step object_id true = do
    found ← on_list_caught (get_object object_id)
    goes_on ← continue_after found.0
    pure (goes_on, found.1)
  find_step object_id false = pure (false, new_data_list)

  announce :
      ℤ → String → String → ℤ → DataList (Object Float) → Option Service → Handler fl W (Unit {0})
  unfolding frame_doc publish nth_object
  announce msg_type object_id actn_name frame_index found none s = (Outcome.ok tt, s)
  announce msg_type object_id actn_name frame_index found (some downstream) s =
      when (ltb_ℤ no_error s.body.err_code && ltb_ℤ (pos 0) found.num_records)
        (do
          o ← lift (nth_object found 0)
          publish fl o.related.scene_id
              (frame_doc object_id actn_name frame_index (new_object_frame fl) o.related.scene_id)
              msg_type downstream)
        s

  unfoldable pub object_frame_delete_request :
      ℤ → String → String → String → Handler fl W (Response Double)
  unfolding parse_index delete_step find_step find_downstream announce index_or_zero init_response
      finish
  object_frame_delete_request msg_type object_id actn_name frame_ind_str = do
    init_response msg_type
    index ← parse_index frame_ind_str
    deleted ← delete_step object_id actn_name index
    found ← find_step object_id deleted
    downstream ← find_downstream
    when found.0 (announce msg_type object_id actn_name (index_or_zero index) found.1 downstream)
    finish fl
