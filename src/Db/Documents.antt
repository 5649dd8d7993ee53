-- ===== src/Db/Documents.antt =====
-- src/db/obj3_database_manager.cpp: the documents that are sent to the database, and
-- `add_graph_handle_to_document` of src/db/core_database_manager.cpp
use clyman.Prelude.{
  ℕ, String, ℤ, Bool, true, List, [], ◌∷◌, ◌++◌, map, append_text, is_empty, if◌then◌else◌,
}
use clyman.Outcome.{Outcome, ok, ◌>>=◌, gather}
use clyman.Floats.{Floats}
use clyman.Model.Handle.{AnimationGraphHandle}
use clyman.Model.Transform.{Transformation, get_transform_element}
use clyman.Model.Animation.{AnimationAction, ObjectFrame, get_handle}
use clyman.Model.Object.{Object, has_transform}
use clyman.Db.Bson.{Bson, utf8, dbl, int32, boolean, Doc, subdoc, subarray}
use clyman.Std.{to_string}

-- `key_values`: the name of the element in row i and column j of a transform.
abbrev pub row_keys : List (ℕ × List (ℕ × String))
row_keys =
    (0, (0, "r1_c1") ∷ (1, "r1_c2") ∷ (2, "r1_c3") ∷ (3, "r1_c4") ∷ [])
    ∷ (1, (0, "r2_c1") ∷ (1, "r2_c2") ∷ (2, "r2_c3") ∷ (3, "r2_c4") ∷ [])
    ∷ (2, (0, "r3_c1") ∷ (1, "r3_c2") ∷ (2, "r3_c3") ∷ (3, "r3_c4") ∷ [])
    ∷ (3, (0, "r4_c1") ∷ (1, "r4_c2") ∷ (2, "r4_c3") ∷ (3, "r4_c4") ∷ [])
    ∷ []

-- The names of the handles.
abbrev pub xyz : List (ℕ × String)
xyz = (0, "x") ∷ (1, "y") ∷ (2, "z") ∷ []

abbrev pub wxyz : List (ℕ × String)
wxyz = (0, "w") ∷ (1, "x") ∷ (2, "y") ∷ (3, "z") ∷ []

module _ (fl : Floats) where
  open fl use {Float, Double, widen}

  unfoldable pub graph_handle_doc : AnimationGraphHandle Float → Doc Double
  graph_handle_doc h =
      ("left_type", utf8 h.lh_type)
      ∷ ("right_type", utf8 h.rh_type)
      ∷ ("left_x", dbl (widen h.lh_x))
      ∷ ("left_y", dbl (widen h.lh_y))
      ∷ ("right_x", dbl (widen h.rh_x))
      ∷ ("right_y", dbl (widen h.rh_y))
      ∷ []

  unfoldable pub transform_doc : String → Transformation Float → Outcome (Doc Double)
  unfolding get_transform_element gather
  transform_doc prefix t =
      gather
        (λ (row : ℕ × List (ℕ × String)).
          gather
            (λ (cell : ℕ × String). do
              e ← get_transform_element t row.0 cell.0
              ok ((append_text prefix cell.1, dbl (widen e)) ∷ []))
            row.1)
        row_keys

  unfoldable pub handles_doc :
      List (AnimationGraphHandle Float) → List (ℕ × String) → Outcome (Doc Double)
  unfolding get_handle graph_handle_doc gather
  handles_doc hs names =
      gather
        (λ (n : ℕ × String). do h ← get_handle hs n.0; ok ((n.1, subdoc (graph_handle_doc h)) ∷ []))
        names

  -- `add_handles_to_doc`, for a frame that is there.
  unfoldable pub animation_frame_doc : ObjectFrame Float → Outcome (Doc Double)
  unfolding handles_doc
  animation_frame_doc f = do
    translations ← handles_doc f.translation xyz
    rotations ← handles_doc f.rotation wxyz
    scales ← handles_doc f.scale xyz
    ok (
        ("active", boolean true)
        ∷ ("translation_handle", subdoc translations)
        ∷ ("rotation_handle", subdoc rotations)
        ∷ ("scale_handle", subdoc scales)
        ∷ [])

  -- `add_obj_frame_to_doc`
  unfoldable pub obj_frame_doc : ObjectFrame Float → Outcome (Doc Double)
  unfolding transform_doc animation_frame_doc
  obj_frame_doc f = do
    transform ← transform_doc "" f.trans
    animation_frame ← animation_frame_doc f
    ok (
        ("owner", utf8 f.base.owner)
        ∷ ("frame", int32 f.base.frame)
        ∷ ("transform", subdoc transform)
        ∷ ("animation_frame", subdoc animation_frame)
        ∷ [])

  unfoldable pub keyframe_doc : ℤ × ObjectFrame Float → Outcome (Doc Double)
  keyframe_doc (index, f) = do
    frame ← obj_frame_doc f
    ok ((to_string index, subdoc (("frame", int32 index) ∷ frame)) ∷ [])

  -- `add_obj_action_to_doc`
  unfoldable pub obj_action_doc : AnimationAction (ObjectFrame Float) → Outcome (Doc Double)
  obj_action_doc a = do
    frames ← gather keyframe_doc a.keyframes
    ok (
        ("description", utf8 a.description)
        ∷ ("owner", utf8 a.owner)
        ∷ ("name", utf8 a.name)
        ∷ ("frames", subdoc frames)
        ∷ [])

  unfoldable pub named_action_doc :
      String × AnimationAction (ObjectFrame Float) → Outcome (Doc Double)
  named_action_doc (name, a) = do
    action ← obj_action_doc a
    ok ((name, subdoc (("name", utf8 name) ∷ action)) ∷ [])

  asset_array : Object Float → Bson Double
  asset_array o = subarray (map utf8 o.related.asset_ids)

  unfoldable pub build_create_doc : Object Float → Outcome (Doc Double)
  unfolding asset_array
  build_create_doc o = do
    transform ← transform_doc "" o.trans
    actions ← gather named_action_doc o.action_map
    ok (
        ("name", utf8 o.name)
        ∷ ("parent", utf8 o.related.parent)
        ∷ ("asset_sub_id", utf8 o.related.asset_sub_id)
        ∷ ("type", utf8 o.type)
        ∷ ("subtype", utf8 o.subtype)
        ∷ ("owner", utf8 o.owner)
        ∷ ("scene", utf8 o.related.scene_id)
        ∷ ("assets", asset_array o)
        ∷ ("transform", subdoc transform)
        ∷ ("actions", subdoc actions)
        ∷ [])

  -- A field for a text that is not empty.
  text_field : String → String → Doc Double
  text_field key value = if is_empty value then [] else (key, utf8 value) ∷ []

  query_assets : List String → Doc Double
  query_assets [] = []
  query_assets (id ∷ []) = ("assets", utf8 id) ∷ []
  query_assets ids = ("assets", subarray (map utf8 ids)) ∷ []

  unfoldable pub build_query_doc : Object Float → Doc Double
  unfolding text_field query_assets
  build_query_doc o =
      text_field "name" o.name
      ++ (text_field "type" o.type
          ++ (text_field "parent" o.related.parent
              ++ (text_field "asset_sub_id" o.related.asset_sub_id
                  ++ (text_field "subtype" o.subtype
                      ++ (text_field "owner" o.owner
                          ++ (text_field "scene" o.related.scene_id
                              ++ query_assets o.related.asset_ids))))))

  transform_field : Object Float → Outcome (Doc Double)
  unfolding has_transform transform_doc
  transform_field o =
      if has_transform o
      then (do t ← transform_doc "" o.trans; ok (("transform", subdoc t) ∷ []))
      else ok []

  set_doc : Object Float → Outcome (Doc Double)
  unfolding text_field transform_field
  set_doc o = do
    transform ← transform_field o
    ok (
        text_field "name" o.name
        ++ (text_field "parent" o.related.parent
            ++ (text_field "asset_sub_id" o.related.asset_sub_id
                ++ (text_field "type" o.type
                    ++ (text_field "subtype" o.subtype
                        ++ (text_field "owner" o.owner
                            ++ (text_field "scene" o.related.scene_id ++ transform)))))))

  -- The assets are pushed, or pulled; all else is set.
  unfoldable pub build_update_doc : Object Float → Bool → Outcome (Doc Double)
  unfolding set_doc asset_array
  build_update_doc o is_append_operation = do
    sets ← set_doc o
    ok (
        ("$set", subdoc sets)
        ∷ (if is_append_operation
            then ("$push", subdoc (("assets", subdoc (("$each", asset_array o) ∷ [])) ∷ [])) ∷ []
            else ("$pull", subdoc (("assets", subdoc (("$in", asset_array o) ∷ [])) ∷ [])) ∷ []))
