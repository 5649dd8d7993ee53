-- ===== src/Controller/Action/Tests.antt =====
-- A test of the event of an update of an action.
use clyman.Prelude.{ℤ, pos, refl, List, [], ◌∷◌}
use clyman.Outcome.{Outcome}
use clyman.Constants.{obj_action_upd}
use clyman.Std.{stoi}
use clyman.Json.{Json, string, object, fields}
use clyman.Json.Write.{Token}
use clyman.Factory.Action.{build_object_action}
use clyman.Writer.{to_transform_json, to_json_writer}
use clyman.Model.Animation.{AnimationAction, ObjectFrame, new_action}
use clyman.Model.Object.{new_object, add_action}
use clyman.SortedMap.{emplace}
use clyman.App.Cluster.{get_ivan}
use clyman.Controller.Action.Events.{UpdatedAs, updated, object_action_request_update-announces}
use clyman.Samples.{floats, manager, session, cluster, downstream, accepted}

abbrev body : Json ℤ
body = object (fields (("description", string "d") ∷ []))

abbrev action : AnimationAction (ObjectFrame ℤ)
action = record new_action { description = "d" }

abbrev text_of : Outcome (List (Token ℤ)) → List (Token ℤ)
text_of (Outcome.ok ts) = ts
text_of _ = []

object_action_request_update-announces_example :
    UpdatedAs floats manager "k" "walk" body session
      (record {
        scene = "";
        message =
            text_of
              (to_transform_json floats (updated floats manager "k" "walk" action) obj_action_upd);
        host = "host";
        port = pos 8765;
      })
      1
unfolding build_object_action fields to_json_writer new_object add_action emplace stoi get_ivan
object_action_request_update-announces_example =
    object_action_request_update-announces floats manager "k" "walk" body session action accepted 1
      downstream cluster (pos 8765)
      (text_of (to_transform_json floats (updated floats manager "k" "walk" action) obj_action_upd))
      refl refl refl refl refl
