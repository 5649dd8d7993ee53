-- ===== src/Db/Property/Read.antt =====
-- src/db/property_database_manager.cpp: `bson_to_prop`
use clyman.Prelude.{ℕ, suc, String, Bool, true, false, Option, none, some, set, if◌then◌else◌}
use clyman.Outcome.{Outcome, ok, throw, or_crash, ◌>>=◌, for_each}
use clyman.Floats.{Floats}
use clyman.Model.Handle.{new_handle}
use clyman.Model.Animation.{new_action, add_keyframe, get_keyframe, put_keyframe}
use clyman.Model.Property.{
  Property, new_property_frame, add_value, add_frame_value, add_handle, get_frame_handle,
  add_prop_action, get_prop_action, put_prop_action,
}
use clyman.Db.Bson.{
  Bson, utf8, int32, oid, doc, Doc, fields, element, child, get_utf8, get_double, get_bool,
  unset_element,
}
use clyman.Db.Read.{with_text, get_handle_from_element}
use clyman.Db.Property.Documents.{Frame, Action, value_keys}

abbrev is_none {ℓ} : {A : Type ℓ} → Option A → Bool
is_none none = true
is_none (some a) = false

module _ (fl : Floats) where
  open fl use {Float, Double, zero_f}

  -- `if (elt) set(elt.get_utf8())`: another type throws.
  present_text :
      Option (Bson Double)
      → (Property Float Double → String → Property Float Double)
      → Property Float Double
      → Outcome (Property Float Double)
  unfolding get_utf8
  present_text none set_text p = ok p
  present_text (some x) set_text p = do s ← get_utf8 (some x); ok (set_text p s)

  -- `active_elt && active_elt.get_bool()`
  is_active : Option (Bson Double) → Outcome Bool
  unfolding get_bool
  is_active none = ok false
  is_active (some x) = get_bool (some x)

  added_value : Property Float Double → Option (Bson Double) → Outcome (Property Float Double)
  unfolding get_double add_value
  added_value p none = ok p
  added_value p (some x) = do v ← get_double (some x); ok (add_value p v)

  -- One turn of the loop over w, x, y and z.
  value_read :
      Option (Bson Double) → Property Float Double → String → Outcome (Property Float Double)
  unfolding is_active added_value child
  value_read values p k = do
    active ← is_active (child (child values k) "active")
    if active then added_value p (child (child values k) "value") else ok p

  unfoldable pub read_prop_values :
      Option (Bson Double) → Property Float Double → Outcome (Property Float Double)
  unfolding value_read for_each
  read_prop_values none p = ok p
  read_prop_values (some x) p = for_each (value_read (some x)) p value_keys

  added_frame_value : Frame fl → Option (Bson Double) → Outcome (Frame fl)
  unfolding get_double add_frame_value
  added_frame_value f none = ok f
  added_frame_value f (some x) = do v ← get_double (some x); ok (add_frame_value f v)

  -- A handle is added behind the others of the keyframe in the map, and the one at the index of the
  -- value is read into. It is looked up in the new frame, which has none unless it is that keyframe.
  read_frame_handle : Bool → Option (Bson Double) → ℕ → Frame fl → Outcome (Frame fl)
  unfolding add_handle get_frame_handle get_handle_from_element
  read_frame_handle is_new elt i f = do
    let added = add_handle f (new_handle zero_f)
    h ← get_frame_handle (if is_new then added else new_property_frame) i
    ok (record added { handles = set added.handles i (get_handle_from_element fl elt h) })

  frame_value_read : Bool → Option (Bson Double) → ℕ × Frame fl → String → Outcome (ℕ × Frame fl)
  unfolding is_active added_frame_value read_frame_handle child
  frame_value_read is_new values (i, f) k = do
    active ← is_active (child (child values k) "active")
    if active
        then (do
          f' ← added_frame_value f (child (child values k) "value")
          f'' ← read_frame_handle is_new (child values k) i f'
          ok (suc i, f''))
        else ok (suc i, f)

  unfoldable pub read_frame_values : Bool → Option (Bson Double) → Frame fl → Outcome (Frame fl)
  unfolding frame_value_read for_each
  read_frame_values is_new none f = ok f
  read_frame_values is_new (some x) f = do
    end_state ← for_each (frame_value_read is_new (some x)) (0, f) value_keys
    ok end_state.1

  -- A frame of an index that is there already is read into the keyframe of that index.
  prop_indexed_frame : Action fl → Bson Double → Option (Bson Double) → Outcome (Action fl)
  unfolding add_keyframe get_keyframe put_keyframe child
  prop_indexed_frame action elt (some (int32 frame_index)) = do
    let added = add_keyframe action frame_index new_property_frame
    f ← or_crash (get_keyframe added frame_index)
    let indexed = record f { base = record f.base { frame = frame_index } }
    let owned =
        with_text (child (some elt) "owner")
          (λ a v. record a { base = record a.base { owner = v } }) indexed
    f' ←
        read_frame_values (is_none (get_keyframe action frame_index)) (child (some elt) "values")
          owned
    ok (put_keyframe added frame_index f')
  prop_indexed_frame action elt _ = ok action

  unfoldable pub prop_frame_step : Action fl → String × Bson Double → Outcome (Action fl)
  unfolding prop_indexed_frame
  prop_frame_step action (k, doc fs) =
      prop_indexed_frame action (doc fs) (child (some (doc fs)) "frame")
  prop_frame_step action _ = ok action

  unfoldable pub read_prop_frames : Action fl → Option (Bson Double) → Outcome (Action fl)
  unfolding fields
  read_prop_frames action (some (doc fs)) = for_each prop_frame_step action (fields fs)
  read_prop_frames action _ = ok action

  -- The attributes of an action, read into the action that the map has under the name.
  unfoldable pub read_prop_action : Action fl → Option (Bson Double) → String → Outcome (Action fl)
  unfolding child
  read_prop_action action elt action_name =
      read_prop_frames
        (with_text (child elt "owner") (λ a v. record a { owner = v })
          (with_text (child elt "description") (λ a v. record a { description = v })
            (record action { name = action_name })))
        (child elt "frames")

  named_prop_action :
      Property Float Double → Bson Double → Option (Bson Double) → Outcome (Property Float Double)
  named_prop_action p elt (some (utf8 action_name)) = do
    let added = add_prop_action p action_name new_action
    a ← or_crash (get_prop_action added action_name)
    a' ← read_prop_action a (some elt) action_name
    ok (put_prop_action added action_name a')
  named_prop_action p elt _ = ok p

  unfoldable pub prop_action_step :
      Property Float Double → String × Bson Double → Outcome (Property Float Double)
  unfolding named_prop_action child
  prop_action_step p (k, doc fs) = named_prop_action p (doc fs) (child (some (doc fs)) "name")
  prop_action_step p _ = ok p

  -- `type()` of an element that is not there throws.
  read_prop_actions : Property Float Double → Option (Bson Double) → Outcome (Property Float Double)
  unfolding fields
  read_prop_actions p (some (doc fs)) = for_each prop_action_step p (fields fs)
  read_prop_actions p (some _) = ok p
  read_prop_actions p none = throw unset_element

  read_prop_key : Option (Bson Double) → Property Float Double → Outcome (Property Float Double)
  read_prop_key none p = ok p
  read_prop_key (some (oid k)) p = ok (record p { related = record p.related { key = k } })
  read_prop_key (some _) p = throw unset_element

  unfoldable pub bson_to_prop : Doc Double → Property Float Double → Outcome (Property Float Double)
  unfolding read_prop_key present_text read_prop_actions element
  bson_to_prop d p = do
    keyed ← read_prop_key (element d "_id") p
    named ← present_text (element d "name") (λ a v. record a { name = v }) keyed
    parented ←
        present_text (element d "parent")
          (λ a v. record a { related = record a.related { parent = v } }) named
    sub ←
        present_text (element d "asset_sub_id")
          (λ a v. record a { related = record a.related { asset_sub_id = v } }) parented
    scene ←
        present_text (element d "scene")
          (λ a v. record a { related = record a.related { scene_id = v } }) sub
    valued ← read_prop_values (element d "values") scene
    read_prop_actions valued (element d "actions")
