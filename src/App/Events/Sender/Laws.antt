-- ===== src/App/Events/Sender/Laws.antt =====
-- What comes of an event.
use clyman.Prelude.{ℤ, List, [], ◌∷◌, ◌++◌, some, ◌≡◌}
use clyman.Outcome.{Outcome}
use clyman.Floats.{Floats}
use clyman.Constants.{obj_upd}
use clyman.Std.{stoi}
use clyman.Json.{document, object, Members}
use clyman.Json.Read.{find_json_int_elt}
use clyman.Json.Write.{Token}
use clyman.Model.Object.{Object}
use clyman.Factory.Object.{build_object}
use clyman.Writer.{to_update_json}
use clyman.App.Cluster.{Service, ClusterManager, get_ivan}
use clyman.Db.Interface.{DatabaseManager, DatabaseResponse, PropertyManager}
use clyman.App.Events.Sender.{Senders, run_event}

-- What is left of the database's answer: an exception is caught, undefined behaviour is not.
abbrev pub sent : {A : Type 0} → Outcome A → Outcome (Unit {0})
sent (Outcome.ok a) = Outcome.ok tt
sent (Outcome.throw e) = Outcome.ok tt
sent Outcome.crash = Outcome.crash

module _ (fl : Floats) {W : Type 0} (manager : DatabaseManager fl.Float W)
    (props : PropertyManager fl.Float fl.Double W) where
  open fl use {Float, Double}

  -- The update of an object that comes as an event is published once, with its scene and its JSON text,
  -- and the database is asked once to store the same object under its key. What the database answers
  -- does not matter, also where it throws. The update is published first: it is out even if the call of
  -- the database ends in undefined behaviour. The event has the type OBJ_UPD and can be read and
  -- written, a service downstream is known, and its port is a number.
  pub run_event-object :
      (ms : Members Double) (o : Object Float) (ts : List (Token Double)) (downstream : Service)
      (port : ℤ) (c : ClusterManager) (s : Senders Double W) (r : Outcome DatabaseResponse) (w : W)
      → find_json_int_elt (object ms) "msg_type" ≡ Outcome.ok obj_upd
      → build_object fl (object ms) ≡ Outcome.ok o
      → to_update_json fl o ≡ Outcome.ok ts
      → get_ivan s.cluster ≡ (Outcome.ok (some downstream), c)
      → stoi downstream.port ≡ Outcome.ok port
      → manager.update_object o o.related.key s.db ≡ (r, w)
      → run_event fl manager props (document (object ms)) s ≡ (
        sent r,
        record s {
          db = w;
          cluster = c;
          published =
              s.published
              ++ record {
                text = some (o.related.scene_id, ts);
                host = downstream.address;
                port = port;
              }
                ∷ [];
        },
      )
  unfolding run_event
  run_event-object ms o ts downstream port c s (Outcome.ok a) w ht hb hj hi hp hu =
      simp (ht, hb, hj, hi, hp, hu)
  run_event-object ms o ts downstream port c s (Outcome.throw e) w ht hb hj hi hp hu =
      simp (ht, hb, hj, hi, hp, hu)
  run_event-object ms o ts downstream port c s Outcome.crash w ht hb hj hi hp hu =
      simp (ht, hb, hj, hi, hp, hu)
