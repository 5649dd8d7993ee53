-- ===== src/Db/Transaction.antt =====
-- src/db/obj3_database_manager.cpp: the documents of a transaction
use clyman.Prelude.{
  ℕ, String, pos, ◌==◌, nat_eq, Bool, true, ◌&&◌, ◌||◌, leb, List, [], ◌∷◌, ◌++◌, map, append_text,
  Option, if◌then◌else◌,
}
use clyman.Outcome.{Outcome, ok, or_crash, ◌>>=◌, gather}
use clyman.Floats.{Floats}
use clyman.Constants.{
  db_insert, db_update, db_lock, db_unlock, db_action_insert, db_action_update, db_action_remove,
  db_frame_insert, db_frame_update, db_frame_remove,
}
use clyman.Std.{to_string}
use clyman.Model.Handle.{AnimationGraphHandle}
use clyman.Model.Animation.{AnimationAction, ObjectFrame, get_handle}
use clyman.Model.Object.{Object}
use clyman.Db.Bson.{Bson, utf8, int32, boolean, oid, Doc, subdoc}
use clyman.Db.Documents.{
  xyz, wxyz, graph_handle_doc, transform_doc, obj_frame_doc, obj_action_doc, build_create_doc,
  build_update_doc,
}

module _ (fl : Floats) where
  open fl use {Float, Double}

  -- The pointers that a transaction is given; `none` is null.
  pub record Arguments : Type 0 where
    pub obj : Option (Object Float)
    pub action : Option (AnimationAction (ObjectFrame Float))
    pub aframe : Option (ObjectFrame Float)

  -- "actions.NAME" and "actions.NAME.frames.N"
  unfoldable pub action_key : Arguments → Outcome String
  action_key a = do action ← or_crash a.action; ok (append_text "actions." action.name)

  unfoldable pub frame_key : Arguments → Outcome String
  unfolding action_key to_string
  frame_key a = do
    key ← action_key a
    f ← or_crash a.aframe
    ok (append_text key (append_text ".frames." (to_string f.base.frame)))

  prefixed : String → Doc Double → Doc Double
  prefixed start = map (λ (kv : String × Bson Double). (append_text start kv.0, kv.1))

  flat_handles :
      String → List (AnimationGraphHandle Float) → List (ℕ × String) → Outcome (Doc Double)
  unfolding prefixed graph_handle_doc get_handle gather
  flat_handles start hs names =
      gather
        (λ (n : ℕ × String). do
          h ← get_handle hs n.0
          ok (prefixed (append_text start (append_text n.1 ".")) (graph_handle_doc fl h)))
        names

  -- The handles go under "actions.A.frames.N.frames.N.animation_frame.": the key of the frame has its
  -- last part twice.
  frame_update_doc : Arguments → Outcome (Doc Double)
  unfolding frame_key transform_doc flat_handles to_string
  frame_update_doc a = do
    key_start ← frame_key a
    f ← or_crash a.aframe
    transform ← transform_doc fl (append_text key_start ".transform.") f.trans
    let aframe_key_start =
        append_text key_start
          (append_text ".frames." (append_text (to_string f.base.frame) ".animation_frame."))
    translations ←
        flat_handles (append_text aframe_key_start "translation_handle.") f.translation xyz
    rotations ← flat_handles (append_text aframe_key_start "rotation_handle.") f.rotation wxyz
    scales ← flat_handles (append_text aframe_key_start "scale_handle.") f.scale xyz
    ok (
        (append_text key_start ".owner", utf8 f.base.owner)
        ∷ (append_text key_start ".frame", int32 f.base.frame)
        ∷ (transform
            ++ ((append_text aframe_key_start "active", boolean true)
                ∷ (translations ++ (rotations ++ scales)))))

  action_update_doc : Arguments → Outcome (Doc Double)
  unfolding action_key
  action_update_doc a = do
    key ← action_key a
    action ← or_crash a.action
    ok (
        (append_text key ".description", utf8 action.description)
        ∷ (append_text key ".owner", utf8 action.owner)
        ∷ [])

  set_or_unset : String → Doc Double → Doc Double
  set_or_unset operator d = (operator, subdoc d) ∷ []

  -- The branches on frames.
  frame_doc : ℕ → Arguments → Outcome (Doc Double)
  unfolding frame_key obj_frame_doc frame_update_doc set_or_unset
  frame_doc transaction_type a =
      if transaction_type == db_frame_insert
      then (do
        key ← frame_key a
        f ← or_crash a.aframe
        frame ← obj_frame_doc fl f
        ok (set_or_unset "$set" ((key, subdoc frame) ∷ [])))
      else if transaction_type == db_frame_update
      then (do d ← frame_update_doc a; ok (set_or_unset "$set" d))
      else if transaction_type == db_frame_remove
      then (do key ← frame_key a; ok (set_or_unset "$unset" ((key, int32 (pos 1)) ∷ [])))
      else ok []

  -- The branches on actions.
  action_doc : ℕ → Arguments → Outcome (Doc Double)
  unfolding action_key obj_action_doc action_update_doc set_or_unset frame_doc
  action_doc transaction_type a =
      if transaction_type == db_action_insert
      then (do
        action ← or_crash a.action
        d ← obj_action_doc fl action
        key ← action_key a
        ok (set_or_unset "$set" ((key, subdoc d) ∷ [])))
      else if transaction_type == db_action_remove
      then (do key ← action_key a; ok (set_or_unset "$unset" ((key, int32 (pos 1)) ∷ [])))
      else if transaction_type == db_action_update
      then (do d ← action_update_doc a; ok (set_or_unset "$set" d))
      else frame_doc transaction_type a

  -- The main document.
  unfoldable pub main_doc : ℕ → Arguments → Bool → Outcome (Doc Double)
  unfolding build_create_doc build_update_doc set_or_unset action_doc
  main_doc transaction_type a is_append_operation =
      if transaction_type == db_insert
      then (do o ← or_crash a.obj; build_create_doc fl o)
      else if transaction_type == db_update || transaction_type == db_lock
      then (do o ← or_crash a.obj; build_update_doc fl o is_append_operation)
      else if transaction_type == db_unlock
      then ok (set_or_unset "$set" (("owner", utf8 "") ∷ []))
      else action_doc transaction_type a

  exists : String → Doc Double
  exists key = (key, subdoc (("$exists", boolean true) ∷ [])) ∷ []

  -- What the query asks for beside the key.
  condition : ℕ → Arguments → Outcome (Doc Double)
  unfolding action_key frame_key exists
  condition transaction_type a =
      if transaction_type == db_lock
      then ok (("owner", utf8 "") ∷ [])
      else if transaction_type == db_unlock
      then (do o ← or_crash a.obj; ok (("owner", utf8 o.owner) ∷ []))
      else if leb db_action_update transaction_type && leb transaction_type db_frame_remove
      then (do
        key ← action_key a
        if transaction_type == db_frame_update
            then (do fkey ← frame_key a; ok (exists key ++ exists fkey))
            else ok (exists key))
      else ok []

  unfoldable pub query_doc : ℕ → Arguments → String → Outcome (Doc Double)
  unfolding condition
  query_doc transaction_type a db_id = do
    more ← condition transaction_type a
    ok (("_id", oid db_id) ∷ more)
