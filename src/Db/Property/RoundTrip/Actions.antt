-- ===== src/Db/Property/RoundTrip/Actions.antt =====
-- Actions of properties that are stored and read again.
use clyman.Prelude.{
  String, ℤ, ◌≡◌, sym, subst, ◌∙◌, [], ◌∷◌, ◌++◌, map, concat_map, some, take, append_assoc,
  append-nil,
}
use clyman.Outcome.{ok, for_each}
use clyman.Floats.{Floats}
use clyman.SortedMap.{SortedMap, int_less, string_less}
use clyman.SortedMap.Laws.{
  int_less_refl, string_less_refl, emplace-last, find-last, find-none, replace-last, AllUnder,
  Before, Before-shift, Before-nil, IsAscending,
}
use clyman.Std.{to_string}
use clyman.Model.Related.{new_related}
use clyman.Model.Animation.{new_action, add_keyframe, get_keyframe, put_keyframe}
use clyman.Model.Property.{
  Property, new_property_frame, add_prop_action, get_prop_action, put_prop_action,
}
use clyman.Db.Bson.{utf8, subdoc, of_fields, fields-of_fields}
use clyman.Db.Property.Documents.{
  Frame, Action, prop_frame_doc, prop_keyframe_doc, prop_action_doc, named_prop_action_doc,
}
use clyman.Db.Property.Read.{
  read_frame_values, prop_frame_step, read_prop_frames, read_prop_action, prop_action_step,
}
use clyman.Db.Property.RoundTrip.Values.{stored_handles, frame_values_stored}

module _ (fl : Floats) where
  open fl use {Float, Double}

  -- What is left of a keyframe.
  abbrev pub stored_frame : ℤ × Frame fl → ℤ × Frame fl
  stored_frame (index, f) = (
    index,
    record {
      base = f.base;
      values = take 4 f.values;
      related = new_related;
      handles = stored_handles fl 4 f.values f.handles;
    },
  )

  -- Every keyframe keeps the index that it stands under.
  abbrev pub AllKept : SortedMap ℤ (Frame fl) → Type 0
  AllKept [] = Unit
  AllKept ((i, f) ∷ m) = (f.base.frame ≡ i) × AllKept m

  frame_stored :
      (a : Action fl) (key : String) (f : Frame fl)
      → AllUnder a.keyframes f.base.frame
      → prop_frame_step fl a (key, subdoc (prop_frame_doc fl f))
        ≡ ok (record a { keyframes = a.keyframes ++ stored_frame (f.base.frame, f) ∷ [] })
  unfolding prop_frame_step of_fields add_keyframe get_keyframe put_keyframe prop_frame_doc
      read_frame_values
  frame_stored a key f u = simp (
    emplace-last f.base.frame new_property_frame a.keyframes u,
    find-last f.base.frame new_property_frame a.keyframes (int_less_refl f.base.frame) u,
    find-none f.base.frame a.keyframes u,
    frame_values_stored fl f.values f.handles (record new_property_frame { base = f.base }),
    replace-last f.base.frame new_property_frame (stored_frame (f.base.frame, f)).1 a.keyframes
        (int_less_refl f.base.frame) u,
  )

  frames_stored :
      (m : SortedMap ℤ (Frame fl)) (a : Action fl)
      → AllKept m
      → IsAscending m
      → Before a.keyframes m
      → for_each (prop_frame_step fl) a (concat_map (prop_keyframe_doc fl) m)
        ≡ ok (record a { keyframes = a.keyframes ++ map stored_frame m })
  unfolding for_each prop_keyframe_doc
  frames_stored [] a k h b = simp (append-nil)
  frames_stored ((i, f) ∷ m) a (e, k) (o, h) (u, b) =
      simp (frame_stored a (to_string i) f (subst (AllUnder a.keyframes) (sym e) u), e)
        (frames_stored m _ k h (Before-shift a.keyframes m i _ b o) ∙ simp (append_assoc))

  -- What is left of an action.
  abbrev pub stored_action : String × Action fl → String × Action fl
  stored_action (name, a) = (
    name,
    record {
      related = new_related;
      name = name;
      description = a.description;
      owner = a.owner;
      keyframes = map stored_frame a.keyframes;
    },
  )

  -- An action as it is stored and read: each keyframe under its index, in order.
  abbrev pub IsStorable : Action fl → Type 0
  IsStorable a = AllKept a.keyframes × IsAscending a.keyframes

  action_attributes_stored :
      (name stored : String) (a : Action fl)
      → IsStorable a
      → read_prop_action fl new_action
          (some (subdoc (("name", utf8 stored) ∷ prop_action_doc fl a)))
          name
        ≡ ok (stored_action (name, a)).1
  unfolding read_prop_action read_prop_frames prop_action_doc of_fields
  action_attributes_stored name stored a (k, h) =
      simp (fields-of_fields (concat_map (prop_keyframe_doc fl) a.keyframes)) (
        frames_stored a.keyframes
          (record new_action { name = name; description = a.description; owner = a.owner }) k h
          (Before-nil a.keyframes))

  action_stored :
      (p : Property Float Double) (name : String) (a : Action fl)
      → IsStorable a
      → AllUnder p.action_map name
      → prop_action_step fl p (name, subdoc (("name", utf8 name) ∷ prop_action_doc fl a))
        ≡ ok (record p { action_map = p.action_map ++ stored_action (name, a) ∷ [] })
  unfolding prop_action_step of_fields add_prop_action get_prop_action put_prop_action
  action_stored p name a s u = simp (
    emplace-last name new_action p.action_map u,
    find-last name new_action p.action_map (string_less_refl name) u,
    action_attributes_stored name name a s,
    replace-last name new_action (stored_action (name, a)).1 p.action_map (string_less_refl name) u,
  )

  abbrev pub AllStorable : SortedMap String (Action fl) → Type 0
  AllStorable [] = Unit
  AllStorable ((name, a) ∷ m) = IsStorable a × AllStorable m

  pub actions_stored :
      (m : SortedMap String (Action fl)) (p : Property Float Double)
      → AllStorable m
      → IsAscending m
      → Before p.action_map m
      → for_each (prop_action_step fl) p (concat_map (named_prop_action_doc fl) m)
        ≡ ok (record p { action_map = p.action_map ++ map stored_action m })
  unfolding for_each named_prop_action_doc
  actions_stored [] p k h b = simp (append-nil)
  actions_stored ((name, a) ∷ m) p (s, k) (o, h) (u, b) =
      simp (action_stored p name a s u)
        (actions_stored m _ k h (Before-shift p.action_map m name _ b o) ∙ simp (append_assoc))
