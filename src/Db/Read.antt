-- ===== src/Db/Read.antt =====
-- src/db/obj3_database_manager.cpp: objects from documents, and `get_handle_from_element` of
-- src/db/core_database_manager.cpp
use clyman.Prelude.{ℕ, String, ℤ, List, Option, some, if◌then◌else◌}
use clyman.Outcome.{Outcome, ok, or_crash, ◌>>=◌, for_each}
use clyman.Floats.{Floats}
use clyman.Model.Handle.{AnimationGraphHandle}
use clyman.Model.Transform.{Transformation, set_transform_element}
use clyman.Model.Related.{add_asset}
use clyman.Model.Animation.{
  AnimationAction, new_action, ObjectFrame, new_object_frame, add_keyframe, get_keyframe,
  put_keyframe, get_handle, set_handle,
}
use clyman.Model.Object.{
  Object, add_action, get_action, put_action, set_key, set_scene, set_parent, set_asset_sub_id,
}
use clyman.Db.Bson.{
  Bson, utf8, dbl, int32, oid, array, doc, Doc, elements, fields, element, child, get_utf8,
  get_double, get_bool,
}
use clyman.Db.Documents.{row_keys, xyz, wxyz}

module _ {A D : Type 0} where
  -- `if (elt && elt.type() == k_utf8) set(elt)`, and so for doubles.
  abbrev pub with_text : Option (Bson D) → (A → String → A) → A → A
  with_text (some (utf8 s)) set a = set a s
  with_text _ set a = a

  abbrev with_double : Option (Bson D) → (A → D → A) → A → A
  with_double (some (dbl d)) set a = set a d
  with_double _ set a = a

module _ (fl : Floats) where
  open fl use {Float, Double, narrow}

  unfoldable pub get_handle_from_element :
      Option (Bson Double) → AnimationGraphHandle Float → AnimationGraphHandle Float
  unfolding child
  get_handle_from_element elt h =
      with_double (child elt "right_y") (λ a v. record a { rh_y = narrow v })
        (with_double (child elt "right_x") (λ a v. record a { rh_x = narrow v })
          (with_double (child elt "left_y") (λ a v. record a { lh_y = narrow v })
            (with_double (child elt "left_x") (λ a v. record a { lh_x = narrow v })
              (with_text (child elt "right_type") (λ a v. record a { rh_type = v })
                (with_text (child elt "left_type") (λ a v. record a { lh_type = v }) h)))))

  -- The loops over the rows and columns; a missing element throws.
  unfoldable pub read_transform :
      Option (Bson Double) → Transformation Float → Outcome (Transformation Float)
  unfolding child get_double set_transform_element for_each
  read_transform elt t =
      for_each
        (λ t' (row : ℕ × List (ℕ × String)).
          for_each
            (λ t'' (cell : ℕ × String). do
              v ← get_double (child elt cell.1)
              set_transform_element t'' row.0 cell.0 (narrow v))
            t' row.1)
        t row_keys

  unfoldable pub read_handles :
      Option (Bson Double)
      → List (ℕ × String)
      → List (AnimationGraphHandle Float)
      → Outcome (List (AnimationGraphHandle Float))
  unfolding child get_handle set_handle get_handle_from_element for_each
  read_handles elt names hs =
      for_each
        (λ hs' (n : ℕ × String). do
          h ← get_handle hs' n.0
          set_handle hs' n.0 (get_handle_from_element (child elt n.1) h))
        hs names

  read_all_handles : Option (Bson Double) → ObjectFrame Float → Outcome (ObjectFrame Float)
  unfolding child read_handles
  read_all_handles elt f = do
    translations ← read_handles (child elt "translation_handle") xyz f.translation
    rotations ← read_handles (child elt "rotation_handle") wxyz f.rotation
    scales ← read_handles (child elt "scale_handle") xyz f.scale
    ok (record f { translation = translations; rotation = rotations; scale = scales })

  read_animation_frame : Option (Bson Double) → ObjectFrame Float → Outcome (ObjectFrame Float)
  unfolding child get_bool read_all_handles
  read_animation_frame elt f = do
    active ← get_bool (child elt "active")
    if active then read_all_handles elt f else ok f

  unfoldable pub get_frame_from_doc :
      Option (Bson Double) → ObjectFrame Float → ℤ → Outcome (ObjectFrame Float)
  unfolding child read_transform read_animation_frame
  get_frame_from_doc elt f frame_index = do
    let f' = record f { base = record f.base { frame = frame_index } }
    let owned =
        with_text (child elt "owner") (λ a v. record a { base = record a.base { owner = v } }) f'
    t ← read_transform (child elt "transform") owned.trans
    read_animation_frame (child elt "animation_frame") (record owned { trans = t })

  indexed_frame :
      AnimationAction (ObjectFrame Float)
      → Bson Double
      → Option (Bson Double)
      → Outcome (AnimationAction (ObjectFrame Float))
  indexed_frame action elt (some (int32 frame_index)) = do
    let added = add_keyframe action frame_index (new_object_frame fl)
    f ← or_crash (get_keyframe added frame_index)
    f' ← get_frame_from_doc (some elt) f frame_index
    ok (put_keyframe added frame_index f')
  indexed_frame action elt _ = ok action

  unfoldable pub frame_step :
      AnimationAction (ObjectFrame Float)
      → String × Bson Double
      → Outcome (AnimationAction (ObjectFrame Float))
  unfolding child indexed_frame
  frame_step action (k, doc fs) = indexed_frame action (doc fs) (child (some (doc fs)) "frame")
  frame_step action _ = ok action

  read_frames :
      AnimationAction (ObjectFrame Float)
      → Option (Bson Double)
      → Outcome (AnimationAction (ObjectFrame Float))
  unfolding fields
  read_frames action (some (doc fs)) = for_each frame_step action (fields fs)
  read_frames action _ = ok action

  unfoldable pub get_action_from_doc :
      Option (Bson Double)
      → AnimationAction (ObjectFrame Float)
      → String
      → Outcome (AnimationAction (ObjectFrame Float))
  unfolding child read_frames
  get_action_from_doc elt action action_name =
      read_frames
        (with_text (child elt "owner") (λ a v. record a { owner = v })
          (with_text (child elt "description") (λ a v. record a { description = v })
            (record action { name = action_name })))
        (child elt "frames")

  named_action : Object Float → Bson Double → Option (Bson Double) → Outcome (Object Float)
  named_action o elt (some (utf8 action_name)) = do
    let added = add_action o action_name new_action
    a ← or_crash (get_action added action_name)
    a' ← get_action_from_doc (some elt) a action_name
    ok (put_action added action_name a')
  named_action o elt _ = ok o

  unfoldable pub action_step : Object Float → String × Bson Double → Outcome (Object Float)
  unfolding child named_action
  action_step o (k, doc fs) = named_action o (doc fs) (child (some (doc fs)) "name")
  action_step o _ = ok o

  read_actions : Object Float → Option (Bson Double) → Outcome (Object Float)
  unfolding fields
  read_actions o (some (doc fs)) = for_each action_step o (fields fs)
  read_actions o _ = ok o

  read_key : Object Float → Option (Bson Double) → Object Float
  read_key o (some (oid k)) = set_key o k
  read_key o _ = o

  -- The type and the subtype are read if the parent is there; the reads then throw without them.
  read_types :
      Object Float
      → Option (Bson Double)
      → Option (Bson Double)
      → Option (Bson Double)
      → Outcome (Object Float)
  unfolding get_utf8
  read_types o (some (utf8 parent)) type subtype = do
    t ← get_utf8 type
    s ← get_utf8 subtype
    ok (record o { type = t; subtype = s })
  read_types o _ type subtype = ok o

  unfoldable pub read_asset : Object Float → Bson Double → Outcome (Object Float)
  unfolding get_utf8 add_asset
  read_asset o x = do id ← get_utf8 (some x); ok (record o { related = add_asset o.related id })

  read_assets : Object Float → Option (Bson Double) → Outcome (Object Float)
  unfolding elements
  read_assets o (some (array xs)) = for_each read_asset o (elements xs)
  read_assets o _ = ok o

  -- Only an array is read, but a stored transform is a document.
  read_object_transform : Object Float → Option (Bson Double) → Outcome (Object Float)
  read_object_transform o (some (array xs)) = do
    t ← read_transform (some (array xs)) o.trans
    ok (record o { trans = t })
  read_object_transform o _ = ok o

  read_texts : Object Float → Doc Double → Object Float
  unfolding element read_key
  read_texts o d = with_text (element d "asset_sub_id") set_asset_sub_id (
      with_text (element d "parent") set_parent (
        with_text (element d "name") (λ a v. record a { name = v }) (read_key o (element d "_id"))))

  read_more_texts : Object Float → Doc Double → Object Float
  unfolding element
  read_more_texts o d =
      with_text (element d "owner") (λ a v. record a { owner = v })
        (with_text (element d "scene") set_scene o)

  unfoldable pub bson_to_obj3 : Doc Double → Object Float → Outcome (Object Float)
  unfolding element read_texts read_types read_more_texts read_assets read_object_transform
      read_actions
  bson_to_obj3 d o = do
    typed ←
        read_types (read_texts o d) (element d "parent") (element d "type") (element d "subtype")
    assets ← read_assets (read_more_texts typed d) (element d "assets")
    transformed ← read_object_transform assets (element d "transform")
    read_actions transformed (element d "actions")
