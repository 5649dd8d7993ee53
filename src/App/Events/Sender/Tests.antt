-- ===== src/App/Events/Sender/Tests.antt =====
-- Tests of the senders of events.
use clyman.Prelude.{ℤ, pos, ℕ, [], ◌∷◌, some, ◌≡◌, refl, List}
use clyman.Outcome.{Outcome}
use clyman.Constants.{obj_upd}
use clyman.Json.{document, object, Members, member, end, int, string}
use clyman.Json.Read.{find_json_int_elt}
use clyman.Json.Write.{Token}
use clyman.Model.Transform.{new_transformation}
use clyman.Model.Object.{Object, new_object}
use clyman.Factory.Object.{build_object}
use clyman.Writer.{to_json_writer}
use clyman.App.Cluster.{get_ivan}
use clyman.Std.{stoi}
use clyman.App.Events.Sender.{Senders, run_event}
use clyman.App.Events.Sender.Laws.{run_event-object}
use clyman.Samples.{floats, manager, property_manager, cluster, downstream, accepted, stored}

-- An update of the object "k" of a scene.
abbrev update : Members ℤ
update =
    member "msg_type" (int obj_upd) (member "key" (string "k") (member "scene" (string "s") end))

abbrev sent : Object ℤ
sent = record stored {
  related = record { key = "k"; parent = ""; asset_sub_id = ""; scene_id = "s"; asset_ids = [] };
  name = "";
  trans = new_transformation (pos 0) (pos 1);
}

abbrev returned : Outcome (List (Token ℤ)) → List (Token ℤ)
returned (Outcome.ok ts) = ts
returned _ = []

unfoldable text : List (Token ℤ)
unfolding to_json_writer
text = returned (to_json_writer floats sent obj_upd)

abbrev senders : Senders ℤ ℕ
senders = record { db = 0; cluster = cluster; published = [] }

run_event-object_example :
    run_event floats manager property_manager (document (object update)) senders ≡ (
      Outcome.ok tt,
      record senders {
        db = 1;
        published = record { text = some ("s", text); host = "host"; port = pos 8765 } ∷ [];
      },
    )
unfolding find_json_int_elt build_object new_object to_json_writer get_ivan stoi text
run_event-object_example =
    run_event-object floats manager property_manager update sent text downstream (pos 8765) cluster
      senders (Outcome.ok accepted) 1 refl refl refl refl refl refl
