-- ===== src/Db/Property/Documents.antt =====
-- src/db/property_database_manager.cpp: the documents that are sent to the database
use clyman.Prelude.{
  String, ℤ, pos, Bool, true, false, List, [], ◌∷◌, ◌++◌, is_empty, concat_map, if◌then◌else◌,
}
use clyman.Floats.{Floats}
use clyman.Std.{to_string}
use clyman.Model.Handle.{AnimationGraphHandle}
use clyman.Model.Animation.{AnimationAction}
use clyman.Model.Property.{PropertyFrame, Property}
use clyman.Db.Bson.{utf8, dbl, int32, boolean, Doc, subdoc}
use clyman.Db.Documents.{graph_handle_doc}

-- The names of the four values.
abbrev pub value_keys : List String
value_keys = "w" ∷ "x" ∷ "y" ∷ "z" ∷ []

module _ (fl : Floats) where
  open fl use {Float, Double, of_int}

  abbrev pub Frame : Type 0
  Frame = PropertyFrame Float Double

  abbrev pub Action : Type 0
  Action = AnimationAction Frame

  -- A value that is not there is stored as 0.0 and is not active.
  abbrev pub inactive_doc : Doc Double
  inactive_doc = ("active", boolean false) ∷ ("value", dbl (of_int (pos 0))) ∷ []

  abbrev pub active_doc : Double → Doc Double
  active_doc v = ("active", boolean true) ∷ ("value", dbl v) ∷ []

  -- The loop over the four values of a property; further values are not stored.
  unfoldable pub values_doc : List String → List Double → Doc Double
  values_doc [] vs = []
  values_doc (k ∷ ks) [] = (k, subdoc inactive_doc) ∷ values_doc ks []
  values_doc (k ∷ ks) (v ∷ vs) = (k, subdoc (active_doc v)) ∷ values_doc ks vs

  -- The same for a frame: a value is stored with its handle, where it has one.
  unfoldable pub frame_values_doc :
      List String → List Double → List (AnimationGraphHandle Float) → Doc Double
  unfolding graph_handle_doc
  frame_values_doc [] vs hs = []
  frame_values_doc (k ∷ ks) [] hs = (k, subdoc inactive_doc) ∷ frame_values_doc ks [] hs
  frame_values_doc (k ∷ ks) (v ∷ vs) [] = (k, subdoc (active_doc v)) ∷ frame_values_doc ks vs []
  frame_values_doc (k ∷ ks) (v ∷ vs) (h ∷ hs) =
      (k, subdoc (active_doc v ++ graph_handle_doc fl h)) ∷ frame_values_doc ks vs hs

  -- `add_prop_frame_to_doc`
  unfoldable pub prop_frame_doc : Frame → Doc Double
  prop_frame_doc f =
      ("owner", utf8 f.base.owner)
      ∷ ("frame", int32 f.base.frame)
      ∷ ("values", subdoc (frame_values_doc value_keys f.values f.handles))
      ∷ []

  -- The key of a frame is that of the map, its field "frame" the index that the frame keeps.
  unfoldable pub prop_keyframe_doc : ℤ × Frame → Doc Double
  prop_keyframe_doc (index, f) = (to_string index, subdoc (prop_frame_doc f)) ∷ []

  -- `add_prop_action_to_doc`
  unfoldable pub prop_action_doc : Action → Doc Double
  prop_action_doc a =
      ("description", utf8 a.description)
      ∷ ("owner", utf8 a.owner)
      ∷ ("name", utf8 a.name)
      ∷ ("frames", subdoc (concat_map prop_keyframe_doc a.keyframes))
      ∷ []

  unfoldable pub named_prop_action_doc : String × Action → Doc Double
  named_prop_action_doc (name, a) = (name, subdoc (("name", utf8 name) ∷ prop_action_doc a)) ∷ []

  unfoldable pub build_prop_doc : Property Float Double → Bool → Doc Double
  build_prop_doc p include_actions =
      ("name", utf8 p.name)
      ∷ ("parent", utf8 p.related.parent)
      ∷ ("scene", utf8 p.related.scene_id)
      ∷ ("asset_sub_id", utf8 p.related.asset_sub_id)
      ∷ ("values", subdoc (values_doc value_keys p.values))
      ∷ (if include_actions
          then ("actions", subdoc (concat_map named_prop_action_doc p.action_map)) ∷ []
          else [])

  unfoldable pub build_create_prop_doc : Property Float Double → Doc Double
  build_create_prop_doc p = build_prop_doc p true

  -- A field for a text that is not empty.
  abbrev prop_text_field : String → String → Doc Double
  prop_text_field key value = if is_empty value then [] else (key, utf8 value) ∷ []

  unfoldable pub build_query_prop_doc : Property Float Double → Doc Double
  build_query_prop_doc p =
      prop_text_field "name" p.name
      ++ (prop_text_field "parent" p.related.parent
          ++ (prop_text_field "asset_sub_id" p.related.asset_sub_id
              ++ prop_text_field "scene" p.related.scene_id))

  -- `is_append_operation` is not used.
  unfoldable pub build_update_prop_doc : Property Float Double → Bool → Doc Double
  unfolding build_prop_doc
  build_update_prop_doc p is_append_operation = ("$set", subdoc (build_prop_doc p false)) ∷ []
