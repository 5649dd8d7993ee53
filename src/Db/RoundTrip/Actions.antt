-- ===== src/Db/RoundTrip/Actions.antt =====
-- Actions, with their keyframes, that are stored and read again.
use clyman.Prelude.{
  String, ℤ, pos, ◌≡◌, refl, ◌∙◌, [], ◌∷◌, ◌++◌, map, some, arith, append_assoc, append-nil,
}
use clyman.Outcome.{Outcome, ok, throw, crash, ◌>>=◌, gather, for_each}
use clyman.Floats.{Floats}
use clyman.SortedMap.{SortedMap, int_less, string_less}
use clyman.SortedMap.Laws.{
  int_less_refl, emplace-last, find-last, replace-last, AllUnder, Before, Before-shift, Before-nil,
  IsAscending,
}
use clyman.Model.Related.{new_related}
use clyman.Model.Animation.{
  AnimationAction, ObjectFrame, new_action, new_object_frame, add_keyframe, get_keyframe,
  put_keyframe,
}
use clyman.Std.{to_string}
use clyman.Db.Bson.{Bson, utf8, int32, Doc, subdoc, of_fields, fields-of_fields}
use clyman.Db.Documents.{obj_frame_doc, keyframe_doc, obj_action_doc}
use clyman.Db.Read.{get_frame_from_doc, frame_step, get_action_from_doc}
use clyman.Db.RoundTrip.{IsWhole, get_frame_from_doc-obj_frame_doc}

pub returned :
    {A B : Type 0} (o : Outcome A) (f : A → Outcome B) (b : B)
    → o >>= f ≡ ok b
    → (a : A) × (o ≡ ok a) × (f a ≡ ok b)
returned (ok a) f b e = (a, refl, e)
returned (throw t) f b e = ground arith
returned crash f b e = ground arith

module _ (fl : Floats) where
  open fl use {Float, Double}

  -- A stored frame under the index of its key, with what is not stored as a new frame has it.
  abbrev pub restored : ℤ → ObjectFrame Float → ObjectFrame Float
  restored index f = record f {
    base = record { frame = index; owner = f.base.owner };
    trans = record f.trans { type = pos 0 };
    related = new_related;
  }

  abbrev pub restored_entry : ℤ × ObjectFrame Float → ℤ × ObjectFrame Float
  restored_entry (index, f) = (index, restored index f)

  -- The index stands before the fields of the frame, and is passed over.
  indexed_frame_doc :
      (d : Doc Double) (index : ℤ) (x : Bson Double) (target : ObjectFrame Float)
      → get_frame_from_doc fl (some (subdoc (("frame", x) ∷ d))) target index
        ≡ get_frame_from_doc fl (some (subdoc d)) target index
  unfolding get_frame_from_doc of_fields
  indexed_frame_doc d index x target = refl

  keyframe_doc_of :
      (index : ℤ) (f : ObjectFrame Float) (d : Doc Double)
      → obj_frame_doc fl f ≡ ok d
      → keyframe_doc fl (index, f)
        ≡ ok ((to_string index, subdoc (("frame", int32 index) ∷ d)) ∷ [])
  unfolding keyframe_doc
  keyframe_doc_of index f d h = simp (h)

  frame_step_of :
      (a : AnimationAction (ObjectFrame Float)) (key : String) (index : ℤ) (d : Doc Double)
      (g : ObjectFrame Float)
      → AllUnder a.keyframes index
      → get_frame_from_doc fl
          (some (subdoc (("frame", int32 index) ∷ d)))
          (new_object_frame fl)
          index
        ≡ ok g
      → frame_step fl a (key, subdoc (("frame", int32 index) ∷ d))
        ≡ ok (record a { keyframes = a.keyframes ++ (index, g) ∷ [] })
  unfolding frame_step of_fields add_keyframe get_keyframe put_keyframe
  frame_step_of a key index d g u h = simp (
    emplace-last index (new_object_frame fl) a.keyframes u,
    find-last index (new_object_frame fl) a.keyframes (int_less_refl index) u,
    h,
    replace-last index (new_object_frame fl) g a.keyframes (int_less_refl index) u,
  )

  -- The document of a frame, and what reading it does to the keyframes read before.
  stored_frame :
      (index : ℤ) (f : ObjectFrame Float)
      → IsWhole f
      → (d : String × Bson Double) × (keyframe_doc fl (index, f) ≡ ok (d ∷ []))
        × ((a : AnimationAction (ObjectFrame Float))
            → AllUnder a.keyframes index
            → frame_step fl a d
              ≡ ok (record a { keyframes = a.keyframes ++ (index, restored index f) ∷ [] }))
  unfolding new_object_frame
  stored_frame index f h =
      let (d, e, g) =
        returned (obj_frame_doc fl f) _ _ (
          get_frame_from_doc-obj_frame_doc fl f (new_object_frame fl) index h (refl, refl, refl)) in
      (
        _,
        keyframe_doc_of index f d e,
        λ a u.
            frame_step_of a (to_string index) index d (restored index f) u
              (indexed_frame_doc d index (int32 index) (new_object_frame fl) ∙ g),
      )

  abbrev pub AllWhole : SortedMap ℤ (ObjectFrame Float) → Type 0
  AllWhole [] = Unit
  AllWhole ((i, f) ∷ m) = IsWhole f × AllWhole m

  stored_frames :
      (m : SortedMap ℤ (ObjectFrame Float))
      → AllWhole m
      → IsAscending m
      → (ds : Doc Double) × (gather (keyframe_doc fl) m ≡ ok ds)
        × ((a : AnimationAction (ObjectFrame Float))
            → Before a.keyframes m
            → for_each (frame_step fl) a ds
              ≡ ok (record a { keyframes = a.keyframes ++ map restored_entry m }))
  unfolding gather for_each
  stored_frames [] w h = ([], refl, λ a b. simp (append-nil))
  stored_frames ((i, f) ∷ m) (v, w) (o, h) =
      let (d, e, step) = stored_frame i f v in
      let (ds, es, steps) = stored_frames m w h in
      (
        d ∷ ds,
        simp (e, es),
        λ a (u, b). simp (step a u) (
            steps (record a { keyframes = a.keyframes ++ (i, restored i f) ∷ [] })
              (Before-shift a.keyframes m i (restored i f) b o)
            ∙ simp (append_assoc a.keyframes ((i, restored i f) ∷ []) (map restored_entry m))),
      )

  -- What is left of an action that is stored and read under a name.
  abbrev pub restored_action :
      String → AnimationAction (ObjectFrame Float) → AnimationAction (ObjectFrame Float)
  restored_action name a = record {
    related = new_related;
    name = name;
    description = a.description;
    owner = a.owner;
    keyframes = map restored_entry a.keyframes;
  }

  -- The document of an action, and what reading it gives, also behind a field for the name.
  pub stored_action :
      (a : AnimationAction (ObjectFrame Float))
      → AllWhole a.keyframes
      → IsAscending a.keyframes
      → (d : Doc Double) × (obj_action_doc fl a ≡ ok d)
        × ((name stored : String)
            → (get_action_from_doc fl (some (subdoc d)) new_action name
                ≡ ok (restored_action name a))
              × (get_action_from_doc fl (some (subdoc (("name", utf8 stored) ∷ d))) new_action name
                  ≡ ok (restored_action name a)))
  unfolding obj_action_doc get_action_from_doc of_fields
  stored_action a w h =
      let (ds, es, steps) = stored_frames a.keyframes w h in
      (
        ("description", utf8 a.description)
            ∷ ("owner", utf8 a.owner)
            ∷ ("name", utf8 a.name)
            ∷ ("frames", subdoc ds)
            ∷ [],
        simp (es),
        λ name stored.
            let read =
              steps
                (record new_action { name = name; description = a.description; owner = a.owner })
                (Before-nil a.keyframes) in
            (simp (fields-of_fields ds) read, simp (fields-of_fields ds) read),
      )

  -- An action that is stored comes back, under the name that is asked for, with its description, its
  -- owner and all its keyframes in their order, each under the index of its key with its owner, its
  -- transform and its handles. Its key and scene, those of the frames, and the types of transform are
  -- not stored. The keyframes stand in the order of their indices, and each has the handles of a new
  -- frame.
  pub get_action_from_doc-obj_action_doc :
      (a : AnimationAction (ObjectFrame Float)) (name : String)
      → AllWhole a.keyframes
      → IsAscending a.keyframes
      → obj_action_doc fl a >>= (λ d. get_action_from_doc fl (some (subdoc d)) new_action name)
        ≡ ok (restored_action name a)
  get_action_from_doc-obj_action_doc a name w h =
      let (d, e, read) = stored_action a w h in simp (e) (read name name).0
