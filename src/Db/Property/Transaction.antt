-- ===== src/Db/Property/Transaction.antt =====
-- src/db/property_database_manager.cpp: the documents of `prop_transaction`
use clyman.Prelude.{
  ℕ, String, pos, ◌==◌, nat_eq, Bool, true, ◌&&◌, ◌||◌, leb, List, [], ◌∷◌, ◌++◌, map, append_text,
  is_empty, Option, if◌then◌else◌,
}
use clyman.Outcome.{Outcome, ok, or_crash, ◌>>=◌}
use clyman.Floats.{Floats}
use clyman.Constants.{
  db_insert, db_update, db_action_insert, db_action_update, db_action_remove, db_frame_insert,
  db_frame_update, db_frame_remove,
}
use clyman.Std.{to_string}
use clyman.Model.Handle.{AnimationGraphHandle}
use clyman.Model.Property.{Property}
use clyman.Db.Bson.{Bson, utf8, int32, boolean, oid, Doc, subdoc}
use clyman.Db.Documents.{graph_handle_doc}
use clyman.Db.Property.Documents.{
  Frame, Action, value_keys, inactive_doc, active_doc, prop_frame_doc, prop_action_doc,
  build_create_prop_doc, build_update_prop_doc,
}

module _ (fl : Floats) where
  open fl use {Float, Double}

  -- The pointers that a transaction is given; `none` is null.
  pub record PropArguments : Type 0 where
    pub prop : Option (Property Float Double)
    pub action : Option (Action fl)
    pub aframe : Option (Frame fl)

  -- "actions.NAME" and "actions.NAME.frames.N"
  abbrev pub action_path : Action fl → String
  action_path action = append_text "actions." action.name

  abbrev pub frame_path : Action fl → Frame fl → String
  frame_path action f =
      append_text (action_path action) (append_text ".frames." (to_string f.base.frame))

  abbrev prefixed : String → Doc Double → Doc Double
  prefixed start = map (λ (kv : String × Bson Double). (append_text start kv.0, kv.1))

  -- The loop over the four values: the keys "START.values.K.active" and so on.
  flat_values : String → List String → List Double → List (AnimationGraphHandle Float) → Doc Double
  unfolding graph_handle_doc
  flat_values start [] vs hs = []
  flat_values start (k ∷ ks) [] hs =
      prefixed (append_text start (append_text k ".")) (inactive_doc fl)
      ++ flat_values start ks [] hs
  flat_values start (k ∷ ks) (v ∷ vs) [] =
      prefixed (append_text start (append_text k ".")) (active_doc fl v)
      ++ flat_values start ks vs []
  flat_values start (k ∷ ks) (v ∷ vs) (h ∷ hs) =
      prefixed (append_text start (append_text k ".")) (active_doc fl v ++ graph_handle_doc fl h)
      ++ flat_values start ks vs hs

  abbrev changing : String → Doc Double → Doc Double
  changing operator d = (operator, subdoc d) ∷ []

  -- Only texts that are not empty are set.
  prop_action_update_doc : Action fl → Doc Double
  prop_action_update_doc action =
      (if is_empty action.description
        then []
        else (append_text (action_path action) ".description", utf8 action.description) ∷ [])
      ++ (if is_empty action.owner
          then []
          else (append_text (action_path action) ".owner", utf8 action.owner) ∷ [])

  prop_frame_update_doc : Action fl → Frame fl → Doc Double
  unfolding flat_values
  prop_frame_update_doc action f =
      (append_text (frame_path action f) ".owner", utf8 f.base.owner)
      ∷ flat_values (append_text (frame_path action f) ".values.") value_keys f.values f.handles

  -- The branches on actions and frames.
  prop_part_doc : ℕ → PropArguments → Outcome (Doc Double)
  unfolding prop_action_doc prop_frame_doc prop_action_update_doc prop_frame_update_doc to_string
  prop_part_doc transaction_type a =
      if transaction_type == db_action_insert
      then (do
        action ← or_crash a.action
        ok (changing "$set" ((action_path action, subdoc (prop_action_doc fl action)) ∷ [])))
      else if transaction_type == db_action_remove
      then (do
        action ← or_crash a.action
        ok (changing "$unset" ((action_path action, int32 (pos 1)) ∷ [])))
      else if transaction_type == db_action_update
      then (do action ← or_crash a.action; ok (changing "$set" (prop_action_update_doc action)))
      else if transaction_type == db_frame_insert
      then (do
        action ← or_crash a.action
        f ← or_crash a.aframe
        ok (changing "$set" ((frame_path action f, subdoc (prop_frame_doc fl f)) ∷ [])))
      else if transaction_type == db_frame_update
      then (do
        action ← or_crash a.action
        f ← or_crash a.aframe
        ok (changing "$set" (prop_frame_update_doc action f)))
      else if transaction_type == db_frame_remove
      then (do
        action ← or_crash a.action
        f ← or_crash a.aframe
        ok (changing "$unset" ((frame_path action f, int32 (pos 1)) ∷ [])))
      else ok []

  -- The main document.
  unfoldable pub prop_main_doc : ℕ → PropArguments → Bool → Outcome (Doc Double)
  unfolding build_create_prop_doc build_update_prop_doc prop_part_doc
  prop_main_doc transaction_type a is_append_operation =
      if transaction_type == db_insert
      then (do p ← or_crash a.prop; ok (build_create_prop_doc fl p))
      else if transaction_type == db_update
      then (do p ← or_crash a.prop; ok (build_update_prop_doc fl p is_append_operation))
      else prop_part_doc transaction_type a

  abbrev exists : String → Doc Double
  exists key = (key, subdoc (("$exists", boolean true) ∷ [])) ∷ []

  -- The action must be there.
  action_condition : ℕ → PropArguments → Outcome (Doc Double)
  action_condition transaction_type a =
      if leb db_action_update transaction_type && leb transaction_type db_frame_remove
      then (do action ← or_crash a.action; ok (exists (action_path action)))
      else ok []

  -- The keyframe must be there.
  frame_condition : ℕ → PropArguments → Outcome (Doc Double)
  unfolding to_string
  frame_condition transaction_type a =
      if transaction_type == db_frame_update || transaction_type == db_frame_remove
      then (do action ← or_crash a.action; f ← or_crash a.aframe; ok (exists (frame_path action f)))
      else ok []

  unfoldable pub prop_query_doc : ℕ → PropArguments → String → Outcome (Doc Double)
  unfolding action_condition frame_condition
  prop_query_doc transaction_type a db_id = do
    action ← action_condition transaction_type a
    frame ← frame_condition transaction_type a
    ok (("_id", oid db_id) ∷ (action ++ frame))

-- Whether a transaction is an update of the database.
unfoldable pub prop_is_update : ℕ → Bool
prop_is_update transaction_type =
    transaction_type == db_update
    || leb db_action_insert transaction_type && leb transaction_type db_frame_remove
