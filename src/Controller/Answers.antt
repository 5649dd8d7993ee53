-- ===== src/Controller/Answers.antt =====
-- The call of `handleRequest` on the handler that the factory made, over all handlers of objects.
use clyman.Prelude.{ℕ, String, ℤ}
use clyman.Outcome.{Outcome}
use clyman.Floats.{Floats}
use clyman.Json.{Parsed}
use clyman.Model.Object.{Object}
use clyman.Db.Interface.{DatabaseManager}
use clyman.Controller.Handler.{Handler, Response}
use clyman.Controller.Status.{documented_status, documented_result}
use clyman.Controller.ObjectBase.{object_base_request}
use clyman.Controller.ObjectKey.{object_key_request}
use clyman.Controller.Device.{object_lock_request, asset_request}
use clyman.Controller.Action.{object_action_request, object_action_delete_request}
use clyman.Controller.Frame.{object_frame_request, object_frame_delete_request}

-- A handler with the arguments of its constructor, and the body of the request where it reads one.
pub data Call (D : Type 0) : Type 0 where
  objects : ℤ → String → Parsed D → Call D
  key : ℤ → String → Call D
  lock : ℤ → String → String → Call D
  asset : ℤ → String → String → Call D
  action : ℤ → String → String → Parsed D → Call D
  action_delete : ℤ → String → String → Call D
  frame : ℤ → String → String → String → Parsed D → Call D
  frame_delete : ℤ → String → String → String → Call D

-- The handlers that read no body and touch no action know no translation error.
abbrev pub status_for : {D : Type 0} → Call D → ℤ → ℕ
status_for (key t id) = documented_result
status_for (lock t id dev) = documented_result
status_for (asset t id a) = documented_result
status_for _ = documented_status

module _ (fl : Floats) {W : Type 0} (manager : DatabaseManager fl.Float W) where
  open fl use {Float, Double}

  unfoldable pub handle_request : Call Double → Handler fl W (Response Double)
  handle_request (objects t id body) = object_base_request fl manager t id body
  handle_request (key t id) = object_key_request fl manager t id
  handle_request (lock t id dev) = object_lock_request fl manager t id dev
  handle_request (asset t id a) = asset_request fl manager t id a
  handle_request (action t id name body) = object_action_request fl manager t id name body
  handle_request (action_delete t id name) = object_action_delete_request fl manager t id name
  handle_request (frame t id name index body) = object_frame_request fl manager t id name index body
  handle_request (frame_delete t id name index) =
      object_frame_delete_request fl manager t id name index
