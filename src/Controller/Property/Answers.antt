-- ===== src/Controller/Property/Answers.antt =====
-- The call of `handleRequest` on the handler that the factory made, over all handlers of properties.
use clyman.Prelude.{String, ℤ, int_eq, ◌≡◌}
use clyman.Outcome.{Outcome}
use clyman.Floats.{Floats}
use clyman.Json.{Parsed}
use clyman.Model.Property.{Property}
use clyman.Db.Interface.{PropertyManager}
use clyman.Controller.Handler.{Session, Response, status_of}
use clyman.Controller.Status.{documented_status}
use clyman.Controller.Property.{PropertyHandler}
use clyman.Controller.Property.Base.{property_base_request}
use clyman.Controller.Property.Base.Laws.{property_base_request-Matches}
use clyman.Controller.Property.Key.{property_key_request}
use clyman.Controller.Property.Key.Laws.{property_key_request-Matches}
use clyman.Controller.Property.Action.{property_action_request, property_action_delete_request}
use clyman.Controller.Property.Action.Laws.{
  property_action_request-Matches, property_action_delete_request-Matches,
}
use clyman.Controller.Property.Frame.{property_frame_request, property_frame_delete_request}
use clyman.Controller.Property.Frame.Laws.{
  property_frame_request-Matches, property_frame_delete_request-Matches,
}

-- A handler with the arguments of its constructor, and the body of the request where it reads one.
pub data PropertyCall (D : Type 0) : Type 0 where
  base : ℤ → String → Parsed D → PropertyCall D
  key : ℤ → String → PropertyCall D
  action : ℤ → String → String → Parsed D → PropertyCall D
  action_delete : ℤ → String → String → PropertyCall D
  frame : ℤ → String → String → String → Parsed D → PropertyCall D
  frame_delete : ℤ → String → String → String → PropertyCall D

module _ (fl : Floats) {W : Type 0} (manager : PropertyManager fl.Float fl.Double W) where
  open fl use {Float, Double}

  unfoldable pub property_request : PropertyCall Double → PropertyHandler fl W (Response Double)
  property_request (base t id body) = property_base_request fl manager t id body
  property_request (key t id) = property_key_request fl manager t id
  property_request (action t id name body) = property_action_request fl manager t id name body
  property_request (action_delete t id name) = property_action_delete_request fl manager t id name
  property_request (frame t id name index body) =
      property_frame_request fl manager t id name index body
  property_request (frame_delete t id name index) =
      property_frame_delete_request fl manager t id name index

  -- Whatever a handler of properties goes through, and whatever the database answers, if it returns,
  -- the status of its response is the one for the error code that its body then carries: 400 for 110, a
  -- translation error, 404 for 102, a property that was not found, 200 for 100, no error, and 500 for
  -- any other code.
  pub property_request-status :
      (call : PropertyCall Double) (s : Session (Property Float Double) Double W)
      (r : Response Double) (s' : Session (Property Float Double) Double W)
      → property_request call s ≡ (Outcome.ok r, s')
      → r.status ≡ documented_status s'.body.err_code
  unfolding property_request status_of
  property_request-status (base t id body) = property_base_request-Matches fl manager t id body
  property_request-status (key t id) = property_key_request-Matches fl manager t id
  property_request-status (action t id name body) =
      property_action_request-Matches fl manager t id name body
  property_request-status (action_delete t id name) =
      property_action_delete_request-Matches fl manager t id name
  property_request-status (frame t id name index body) =
      property_frame_request-Matches fl manager t id name index body
  property_request-status (frame_delete t id name index) =
      property_frame_delete_request-Matches fl manager t id name index
