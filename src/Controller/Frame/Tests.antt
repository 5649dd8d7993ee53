-- ===== src/Controller/Frame/Tests.antt =====
-- Tests of the deletions of actions and of keyframes.
use clyman.Prelude.{ℤ, pos, [], ◌≡◌, refl, some}
use clyman.Outcome.{Outcome}
use clyman.Constants.{obj_action_del, obj_frame_crt, obj_frame_del, no_error}
use clyman.Std.{stoi}
use clyman.Model.Object.{Object}
use clyman.Model.DataList.{DataList, new_data_list}
use clyman.Json.{Json, document, object, member, end, int}
use clyman.Model.Animation.{ObjectFrame, new_object_frame}
use clyman.Factory.Frame.{build_object_frame, obj_frame_from_iterator}
use clyman.App.Cluster.{get_ivan}
use clyman.Controller.Handler.{Response}
use clyman.Controller.Status.{bare_text}
use clyman.Controller.Action.{object_action_delete_request}
use clyman.Controller.Action.Laws.{object_action_delete_request-quiet}
use clyman.Controller.Frame.{object_frame_request, object_frame_delete_request}
use clyman.Controller.Frame.Laws.{
  object_frame_request_bad_log, object_frame_delete_request_bad_index,
}
use clyman.Controller.Frame.Deletion.{object_frame_delete_request-quiet}
use clyman.Samples.{floats, manager, session, cluster, downstream}

-- The body and the response of a success, for a message type.
abbrev body : ℤ → DataList (Object ℤ)
body t = record new_data_list { msg_type = t; err_code = no_error }

abbrev response : ℤ → Response ℤ
response t = record { status = 200; content_type = "application/json"; body = bare_text (body t) }

object_action_delete_request-quiet_example :
    (record session { db = 2; body = body obj_action_del }).events ≡ session.events
unfolding object_action_delete_request bare_text
object_action_delete_request-quiet_example =
    object_action_delete_request-quiet floats manager obj_action_del "k" "walk" session
      (response obj_action_del) (record session { db = 2; body = body obj_action_del }) refl refl

object_frame_delete_request-quiet_example :
    (record session { db = 2; body = body obj_frame_del }).events ≡ session.events
unfolding object_frame_delete_request bare_text
object_frame_delete_request-quiet_example =
    object_frame_delete_request-quiet floats manager obj_frame_del "k" "walk" "3" session
      (response obj_frame_del) (record session { db = 2; body = body obj_frame_del }) refl refl

object_frame_delete_request_bad_index_example :
    let failed : DataList (Object ℤ) = record (body obj_frame_del) { err_msg = "stoi" } in
    object_frame_delete_request floats manager obj_frame_del "k" "walk" "x" session ≡ (
      Outcome.ok
          (record { status = 200; content_type = "application/json"; body = bare_text failed }),
      record session { body = failed },
    )
unfolding stoi get_ivan
object_frame_delete_request_bad_index_example =
    object_frame_delete_request_bad_index floats manager obj_frame_del "k" "walk" "x" session "stoi"
      (some downstream) cluster refl refl

-- The body of a creation at the index 40.
abbrev late : Json ℤ
late = object (member "frame" (int (pos 40)) end)

abbrev late_frame : ObjectFrame ℤ
late_frame = let f = new_object_frame floats in record f { base = record f.base { frame = pos 40 } }

object_frame_request_bad_log_example :
    let r =
      object_frame_request floats manager obj_frame_crt "k" "walk" "" (document late) session in
    (r.0 ≡ Outcome.crash) × (r.1.db ≡ 0) × (r.1.events ≡ [])
unfolding build_object_frame new_object_frame obj_frame_from_iterator
object_frame_request_bad_log_example =
    object_frame_request_bad_log floats manager "k" "walk" "" late late_frame session refl refl
