-- ===== src/Controller/Action/Events.antt =====
-- The event of an update of an action.
use clyman.Prelude.{String, ℤ, ◌≡◌, Bool, true, false, List, [], ◌∷◌, ◌++◌, some}
use clyman.Outcome.{Outcome}
use clyman.Floats.{Floats}
use clyman.Constants.{obj_action_upd}
use clyman.Std.{stoi}
use clyman.Json.{Json, document}
use clyman.Json.Write.{Token}
use clyman.Factory.Action.{build_object_action}
use clyman.Writer.{to_transform_json}
use clyman.Model.Animation.{AnimationAction, ObjectFrame}
use clyman.Model.Object.{Object, new_object, add_action, set_key, set_scene}
use clyman.App.Cluster.{Service, ClusterManager, get_ivan}
use clyman.Db.Interface.{DatabaseManager, DatabaseResponse}
use clyman.Controller.Handler.{Session, Event}
use clyman.Controller.Action.{object_action_request}

module _ (fl : Floats) {W : Type 0} (manager : DatabaseManager fl.Float W) where
  open fl use {Float, Double}
  open manager use {update_action}

  -- After an update the event has gone out, and the database is left as `w`.
  abbrev pub UpdatedAs :
      String → String → Json Double → Session (Object Float) Double W → Event Double → W → Type 0
  UpdatedAs id name doc s event w =
      let s' = (object_action_request fl manager obj_action_upd id name (document doc) s).1 in
      (s'.events ≡ s.events ++ event ∷ []) × (s'.db ≡ w)

  -- The object of the event.
  abbrev pub updated : String → String → AnimationAction (ObjectFrame Float) → Object Float
  updated id name a = set_scene (set_key (add_action (new_object fl) name a) id) a.related.scene_id

  module _ (id name : String) (doc : Json Double) (s : Session (Object Float) Double W)
      (a : AnimationAction (ObjectFrame Float)) (w : W) (d : Service) (c : ClusterManager)
      (port : ℤ) (ts : List (Token Double)) (ha : build_object_action fl doc ≡ Outcome.ok a)
      (hc : get_ivan s.cluster ≡ (Outcome.ok (some d), c))
      (ht : to_transform_json fl (updated id name a) obj_action_upd ≡ Outcome.ok ts)
      (hp : stoi d.port ≡ Outcome.ok port) where
    abbrev event : Event Double
    event = record { scene = a.related.scene_id; message = ts; host = d.address; port = port }

    updated_ok :
        (b : Bool) (m : String) (k : ℤ)
        → update_action id a name s.db
          ≡ (Outcome.ok (record { success = b; error_message = m; error_code = k }), w)
        → UpdatedAs id name doc s event w
    unfolding object_action_request
    updated_ok true m k h = (simp (ha, h, hc, ht, hp), simp (ha, h, hc, ht, hp))
    updated_ok false m k h = (simp (ha, h, hc, ht, hp), simp (ha, h, hc, ht, hp))

  -- The event of an update of an action goes out whatever the database answers: where the body is an
  -- action and a service downstream is known, the events afterwards are the old ones and that of the
  -- update, even if no such action was there to be updated.
  pub object_action_request_update-announces :
      (id name : String) (doc : Json Double) (s : Session (Object Float) Double W)
      (a : AnimationAction (ObjectFrame Float)) (r : DatabaseResponse) (w : W) (d : Service)
      (c : ClusterManager) (port : ℤ) (ts : List (Token Double))
      → build_object_action fl doc ≡ Outcome.ok a
      → update_action id a name s.db ≡ (Outcome.ok r, w)
      → get_ivan s.cluster ≡ (Outcome.ok (some d), c)
      → to_transform_json fl (updated id name a) obj_action_upd ≡ Outcome.ok ts
      → stoi d.port ≡ Outcome.ok port
      → UpdatedAs id name doc s
          (record { scene = a.related.scene_id; message = ts; host = d.address; port = port })
          w
  object_action_request_update-announces id name doc s a r w d c port ts ha h hc ht hp =
      updated_ok id name doc s a w d c port ts ha hc ht hp r.success r.error_message r.error_code h
