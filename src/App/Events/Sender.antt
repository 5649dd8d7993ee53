-- ===== src/App/Events/Sender.antt =====
-- src/app/include/event_stream_process.h, `EventSender::run`: one event is sent downstream and stored.
pub mod Laws
mod Tests
use clyman.Prelude.{
  String, ℤ, negsuc, ltb_ℤ, ◌==◌, int_eq, ◌||◌, List, [], ◌∷◌, ◌++◌, Option, none, some,
  if◌then◌else◌,
}
use clyman.Outcome.{Outcome}
use clyman.Outcome.Io.{Io, pure, lift, ◌>>=◌, ◌>>◌, try_catch, each}
use clyman.Floats.{Floats}
use clyman.Constants.{
  obj_upd, obj_action_upd, obj_frame_upd, prop_upd, prop_action_upd, prop_frame_upd,
}
use clyman.Std.{stoi}
use clyman.Json.{Json, Parsed, parse_error, document, object}
use clyman.Json.Read.{find_json_int_elt}
use clyman.Json.Write.{Token}
use clyman.Model.Animation.{AnimationAction, ObjectFrame}
use clyman.Model.Object.{Object}
use clyman.Model.Property.{PropertyFrame, Property}
use clyman.Factory.Object.{build_object}
use clyman.Factory.Property.{build_property}
use clyman.Writer.{to_update_json}
use clyman.Writer.Property.{property_to_json}
use clyman.App.Cluster.{Service, ClusterManager, get_ivan}
use clyman.Db.Interface.{DatabaseManager, PropertyManager}

-- A call of `publish_event`. An update carries its scene and its JSON text; `none` is the empty text.
pub record Packet (D : Type 0) : Type 0 where
  pub text : Option (String × List (Token D))
  pub host : String
  pub port : ℤ

-- The database, the cluster manager, and what was published so far.
pub record Senders (D W : Type 0) : Type 0 where
  pub db : W
  pub cluster : ClusterManager
  pub published : List (Packet D)

-- `in_doc` and `in_prop`, of which one is set at most.
pub data Update (F D : Type 0) : Type 0 where
  of_object : Object F → Update F D
  of_property : Property F D → Update F D
  no_update : Update F D

module _ (fl : Floats) {W : Type 0} (manager : DatabaseManager fl.Float W)
    (props : PropertyManager fl.Float fl.Double W) where
  open fl use {Float, Double}

  abbrev Sending : Type 0 → Type 0
  Sending A = Io (Senders Double W) A

  on_db : {A : Type 0} → Io W A → Sending (Unit {0})
  on_db m s = let (r, w) = m s.db in (lift r >>= λ _. pure tt) (record s { db = w })

  -- "Build the input and output documents"
  build_update : ℤ → Json Double → Sending (Update Float Double)
  unfolding build_object build_property
  build_update msg_type doc =
      if msg_type == obj_upd || (msg_type == obj_action_upd || msg_type == obj_frame_upd)
      then (do o ← lift (build_object fl doc); pure (of_object o))
      else if msg_type == prop_upd || (msg_type == prop_action_upd || msg_type == prop_frame_upd)
      then (do p ← lift (build_property fl doc); pure (of_property p))
      else pure no_update

  update_text : Update Float Double → Sending (Option (String × List (Token Double)))
  unfolding property_to_json
  update_text (of_object o) = do
    ts ← lift (to_update_json fl o)
    pure (some (o.related.scene_id, ts))
  update_text (of_property p) = pure (some (p.related.scene_id, property_to_json fl p prop_upd))
  update_text no_update = pure none

  find_ivan : Sending (Option Service)
  unfolding get_ivan
  find_ivan s = let (r, c) = get_ivan s.cluster in (r, record s { cluster = c })

  publish_to : Option (String × List (Token Double)) → Service → Sending (Unit {0})
  unfolding stoi
  publish_to text downstream = do
    port ← lift (stoi downstream.port)
    λ s. (
      Outcome.ok tt,
      record s {
        published =
            s.published ++ record { text = text; host = downstream.address; port = port } ∷ [];
      },
    )

  -- "Send an update to downstream services"
  publish_update : Option (String × List (Token Double)) → Sending (Unit {0})
  unfolding find_ivan publish_to
  publish_update text = do
    found ← find_ivan
    elim found [ none ↦ pure tt | some downstream ↦ publish_to text downstream ]

  update_actions : String → String × AnimationAction (ObjectFrame Float) → Sending (Unit {0})
  update_actions key (name, a) = on_db (manager.update_action key a name)

  update_keyframes : String → String × AnimationAction (ObjectFrame Float) → Sending (Unit {0})
  unfolding each
  update_keyframes key (name, a) =
      each (λ (kf : ℤ × ObjectFrame Float). on_db (manager.update_keyframe key name kf.1 kf.0))
        a.keyframes

  update_prop_actions :
      String → String × AnimationAction (PropertyFrame Float Double) → Sending (Unit {0})
  update_prop_actions key (name, a) = on_db (props.update_prop_action key a name)

  update_prop_keyframes :
      String → String × AnimationAction (PropertyFrame Float Double) → Sending (Unit {0})
  unfolding each
  update_prop_keyframes key (name, a) =
      each
        (λ (kf : ℤ × PropertyFrame Float Double).
          on_db (props.update_prop_keyframe key name kf.1 kf.0))
        a.keyframes

  -- "Persist the update message"; a response that is no success is only logged.
  persist : ℤ → Update Float Double → Sending (Unit {0})
  unfolding on_db update_actions update_keyframes update_prop_actions update_prop_keyframes each
  persist msg_type (of_object o) =
      if msg_type == obj_upd
      then on_db (manager.update_object o o.related.key)
      else if msg_type == obj_action_upd
      then each (update_actions o.related.key) o.action_map
      else if msg_type == obj_frame_upd
      then each (update_keyframes o.related.key) o.action_map
      else pure tt
  persist msg_type (of_property p) =
      if msg_type == prop_upd
      then on_db (props.update_property p p.related.key)
      else if msg_type == prop_action_upd
      then each (update_prop_actions p.related.key) p.action_map
      else if msg_type == prop_frame_upd
      then each (update_prop_keyframes p.related.key) p.action_map
      else pure tt
  persist msg_type no_update = pure tt

  send_typed : ℤ → Json Double → Sending (Unit {0})
  unfolding build_update update_text publish_update persist
  send_typed msg_type doc = do
    update ← build_update msg_type doc
    text ← update_text update
    publish_update text
    try_catch (persist msg_type update) (λ _. pure tt)

  message_type : Json Double → Outcome ℤ
  unfolding find_json_int_elt
  message_type (object ms) = find_json_int_elt (object ms) "msg_type"
  message_type _ = Outcome.ok (negsuc 9998)

  -- `run`: an event that is no JSON, or that has no message type, is only logged.
  unfoldable pub run_event : Parsed Double → Io (Senders Double W) (Unit {0})
  unfolding message_type send_typed
  run_event (parse_error e) = pure tt
  run_event (document doc) = do
    msg_type ← lift (message_type doc)
    if ltb_ℤ (negsuc 9998) msg_type then send_typed msg_type doc else pure tt
