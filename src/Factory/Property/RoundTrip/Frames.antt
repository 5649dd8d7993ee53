-- ===== src/Factory/Property/RoundTrip/Frames.antt =====
-- The keyframes of a property: their JSON, and what is read of it.
use clyman.Prelude.{
  ℕ, ◌^◌, ◌%◌, ◌<◌, String, ℤ, pos, negsuc, ltb_ℤ, ◌≡◌, refl, ◌∙◌, List, [], ◌∷◌, ◌++◌, map,
  append-nil, concat_map, append_assoc, arith, true,
}
use clyman.Outcome.{ok, for_each}
use clyman.Floats.{Floats}
use clyman.SortedMap.{SortedMap, int_less}
use clyman.SortedMap.Laws.{
  int_less_refl, emplace-last, find-last, replace-last, AllUnder, Before, Before-shift, IsAscending,
}
use clyman.Model.Handle.{AnimationGraphHandle, new_handle}
use clyman.Model.Related.{new_related}
use clyman.Model.Animation.{add_keyframe, get_keyframe, put_keyframe}
use clyman.Model.Property.{new_property_frame}
use clyman.Json.{
  Json, int, double, array, object, items, fields, elements-items, members-fields, members,
  find_member,
}
use clyman.Json.Tokens.{tokens, item_tokens, member_tokens, item_tokens-nil, item_tokens-cons}
use clyman.Writer.Property.{values_elt, write_frame_values, write_prop_keyframe}
use clyman.Factory.RoundTrip.{handle_members}
use clyman.Factory.Property.{
  Frame, Action, values_step, property_frame_from_iterator, prop_keyframe_step,
}

module _ (fl : Floats) where
  open fl use {Float, Double, zero_f, widen, narrow, narrow-widen}

  -- The elements of "values": each value with its handle, where it has one.
  abbrev pub value_jsons : List Double → List (AnimationGraphHandle Float) → List (Json Double)
  value_jsons [] hs = []
  value_jsons (v ∷ vs) [] = object (fields (("value", double v) ∷ [])) ∷ value_jsons vs []
  value_jsons (v ∷ vs) (h ∷ hs) =
      object (fields (("value", double v) ∷ handle_members fl h)) ∷ value_jsons vs hs

  abbrev pub values_member :
      List Double → List (AnimationGraphHandle Float) → List (String × Json Double)
  values_member [] hs = []
  values_member (v ∷ vs) hs = ("values", array (items (value_jsons (v ∷ vs) hs))) ∷ []

  abbrev pub frame_json : ℤ × Frame fl → Json Double
  frame_json (index, f) = object (fields (("frame", int index) ∷ values_member f.values f.handles))

  -- What is read: a handle for each value, new where there was none. The x of the right side of a
  -- handle is lost.
  abbrev pub reread_handles :
      List Double → List (AnimationGraphHandle Float) → List (AnimationGraphHandle Float)
  reread_handles [] hs = []
  reread_handles (v ∷ vs) [] = new_handle zero_f ∷ reread_handles vs []
  reread_handles (v ∷ vs) (h ∷ hs) = record h { rh_x = zero_f } ∷ reread_handles vs hs

  abbrev pub reread_frame : ℤ × Frame fl → ℤ × Frame fl
  reread_frame (index, f) = (
    index,
    record {
      base = record { frame = index; owner = "" };
      values = f.values;
      related = new_related;
      handles = reread_handles f.values f.handles;
    },
  )

  -- The index is one that the writer and the reader take for a whole number of 31 bits.
  abbrev pub AllIndexed : SortedMap ℤ (Frame fl) → Type 0
  AllIndexed [] = Unit
  AllIndexed ((i, f) ∷ m) = ((n : ℕ) × (n < 2 ^ 31) × (i ≡ pos n)) × AllIndexed m

  item_tokens-value_jsons :
      (vs : List Double) (hs : List (AnimationGraphHandle Float))
      → item_tokens (items (value_jsons vs hs)) ≡ write_frame_values fl vs hs
  unfolding tokens items fields write_frame_values
  item_tokens-value_jsons [] hs = refl
  item_tokens-value_jsons (v ∷ vs) [] = simp (item_tokens-value_jsons vs [])
  item_tokens-value_jsons (v ∷ vs) (h ∷ hs) = simp (item_tokens-value_jsons vs hs)

  value_step :
      (f : Frame fl) (v : Double) (h : AnimationGraphHandle Float)
      → values_step fl f (object (fields (("value", double v) ∷ handle_members fl h)))
        ≡ ok (record f {
          values = f.values ++ v ∷ [];
          handles = f.handles ++ record h { rh_x = zero_f } ∷ [];
        })
  unfolding values_step fields
  value_step f v h = simp (narrow-widen)

  bare_value_step :
      (f : Frame fl) (v : Double)
      → values_step fl f (object (fields (("value", double v) ∷ [])))
        ≡ ok (record f {
          values = f.values ++ v ∷ [];
          handles = f.handles ++ new_handle zero_f ∷ [];
        })
  unfolding values_step fields
  bare_value_step f v = refl

  values_read :
      (vs : List Double) (hs : List (AnimationGraphHandle Float)) (f : Frame fl)
      → for_each (values_step fl) f (value_jsons vs hs)
        ≡ ok (record f { values = f.values ++ vs; handles = f.handles ++ reread_handles vs hs })
  unfolding for_each
  values_read [] hs f = simp (append-nil)
  values_read (v ∷ vs) [] f = simp (bare_value_step f v) (values_read vs [] _ ∙ simp (append_assoc))
  values_read (v ∷ vs) (h ∷ hs) f =
      simp (value_step f v h) (values_read vs hs _ ∙ simp (append_assoc))

  frame_read :
      (index : ℤ) (f target : Frame fl)
      → for_each
          (property_frame_from_iterator fl)
          target
          (("frame", int index) ∷ values_member f.values f.handles)
        ≡ ok (record target {
          values = target.values ++ f.values;
          handles = target.handles ++ reread_handles f.values f.handles;
        })
  unfolding for_each property_frame_from_iterator
  frame_read index f target = values_case f.values f.handles
    where
      values_case :
          (vs : List Double) (hs : List (AnimationGraphHandle Float))
          → for_each
              (property_frame_from_iterator fl)
              target
              (("frame", int index) ∷ values_member vs hs)
            ≡ ok (record target {
              values = target.values ++ vs;
              handles = target.handles ++ reread_handles vs hs;
            })
      values_case [] hs = simp (append-nil)
      values_case (v ∷ vs) hs =
          simp (elements-items (value_jsons (v ∷ vs) hs), values_read (v ∷ vs) hs target)

  -- The loop over the keyframes puts each one behind those that are there.
  keyframe_read :
      (a : Action fl) (index : ℤ) (f : Frame fl)
      → AllUnder a.keyframes index
      → prop_keyframe_step fl a (frame_json (index, f))
        ≡ ok (record a { keyframes = a.keyframes ++ reread_frame (index, f) ∷ [] })
  unfolding prop_keyframe_step add_keyframe get_keyframe put_keyframe fields members find_member
  keyframe_read a index f u = simp (
    members-fields (values_member f.values f.handles),
    emplace-last index new_property_frame a.keyframes u,
    find-last index new_property_frame a.keyframes (int_less_refl index) u,
    frame_read index f,
    replace-last index new_property_frame (reread_frame (index, f)).1 a.keyframes
        (int_less_refl index) u,
  )

  pub keyframes_read :
      (m : SortedMap ℤ (Frame fl)) (a : Action fl)
      → Before a.keyframes m
      → IsAscending m
      → for_each (prop_keyframe_step fl) a (map frame_json m)
        ≡ ok (record a { keyframes = a.keyframes ++ map reread_frame m })
  unfolding for_each
  keyframes_read [] a b h = simp (append-nil)
  keyframes_read ((i, f) ∷ m) a (u, b) (o, h) =
      simp (keyframe_read a i f u)
        (keyframes_read m _ (Before-shift a.keyframes m i _ b o) h ∙ simp (append_assoc))

  -- The tokens of the attribute "values".
  values_tokens :
      (vs : List Double) (hs : List (AnimationGraphHandle Float))
      → member_tokens (fields (values_member vs hs)) ≡ values_elt vs (write_frame_values fl vs hs)
  unfolding tokens fields items
  values_tokens [] hs = refl
  values_tokens (v ∷ vs) hs = simp (item_tokens-value_jsons (v ∷ vs) hs, append-nil)

  tokens-frame_json :
      (n : ℕ) (f : Frame fl)
      → n < 2 ^ 31
      → tokens (frame_json (pos n, f)) ≡ write_prop_keyframe fl (pos n, f)
  unfolding tokens fields write_prop_keyframe
  tokens-frame_json n f h =
      let e : n % 2 ^ 32 ≡ n = omega arith in
      let written : ltb_ℤ (negsuc 998) (pos n) ≡ true = ground arith in
      simp (written, e, values_tokens f.values f.handles)

  pub tokens-frame_jsons :
      (m : SortedMap ℤ (Frame fl))
      → AllIndexed m
      → item_tokens (items (map frame_json m)) ≡ concat_map (write_prop_keyframe fl) m
  tokens-frame_jsons [] h = item_tokens-nil
  tokens-frame_jsons ((i, f) ∷ m) ((n, b, e), h) =
      simp (item_tokens-cons, e, tokens-frame_json n f b, tokens-frame_jsons m h)
