-- ===== src/Db/RoundTrip.antt =====
-- What a document built by src/db/obj3_database_manager.cpp gives back when it is read.
pub mod Actions
pub mod Objects
mod Tests
use clyman.Prelude.{ℤ, ◌≡◌, refl, ap, ◌∙◌, sym, List, [], ◌∷◌, some, length, arith}
use clyman.Outcome.{ok, ◌>>=◌}
use clyman.Floats.{Floats}
use clyman.Model.Handle.{AnimationGraphHandle}
use clyman.Model.Transform.{Vec4, Transformation}
use clyman.Model.Animation.{ObjectFrame}
use clyman.Db.Bson.{subdoc, element, child, fields, of_fields}
use clyman.Db.Documents.{graph_handle_doc, transform_doc, obj_frame_doc}
use clyman.Db.Read.{get_handle_from_element, read_transform, get_frame_from_doc}

module _ (fl : Floats) where
  open fl use {Float, Double, narrow, widen, narrow-widen}

  -- A graph handle that was stored comes back exactly, whatever the handle was that it is read into.
  pub get_handle_from_element-graph_handle_doc :
      (h target : AnimationGraphHandle Float)
      → get_handle_from_element fl (some (subdoc (graph_handle_doc fl h))) target ≡ h
  unfolding get_handle_from_element graph_handle_doc of_fields child element fields
  get_handle_from_element-graph_handle_doc h target = simp (narrow-widen)

  -- A transform that was stored comes back with all its sixteen elements; the type of transform, which
  -- is not stored, stays that of the transform it is read into.
  pub read_transform-transform_doc :
      (t target : Transformation Float)
      → transform_doc fl "" t >>= (λ d. read_transform fl (some (subdoc d)) target)
        ≡ ok (record t { type = target.type })
  unfolding transform_doc read_transform of_fields
  read_transform-transform_doc t target = simp (narrow-widen)

-- The frame has the handles that its constructor makes room for.
abbrev pub IsWhole : {F : Type 0} → ObjectFrame F → Type 0
IsWhole f = (length f.translation ≡ 3) × (length f.rotation ≡ 4) × (length f.scale ≡ 3)

three_of :
    {A : Type 0} (xs : List A) → length xs ≡ 3 → (a : A) × (b : A) × (c : A) × (xs ≡ a ∷ b ∷ c ∷ [])
three_of (a ∷ b ∷ c ∷ []) h = (a, b, c, refl)
three_of [] h = ground arith
three_of (a ∷ []) h = ground arith
three_of (a ∷ b ∷ []) h = ground arith
three_of (a ∷ b ∷ c ∷ d ∷ xs) h = ground arith

four_of :
    {A : Type 0} (xs : List A)
    → length xs ≡ 4
    → (a : A) × (b : A) × (c : A) × (d : A) × (xs ≡ a ∷ b ∷ c ∷ d ∷ [])
four_of [] h = ground arith
four_of (a ∷ xs) h = let (b, c, d, e) = three_of xs (omega arith) in (a, b, c, d, ap (◌∷◌ a) e)

module _ (fl : Floats) where
  open fl use {Float, Double, narrow, widen, narrow-widen}

  -- Each number is converted to a `double` and back.
  unfoldable stored_handle : AnimationGraphHandle Float → AnimationGraphHandle Float
  stored_handle h = record h {
    lh_x = narrow (widen h.lh_x);
    lh_y = narrow (widen h.lh_y);
    rh_x = narrow (widen h.rh_x);
    rh_y = narrow (widen h.rh_y);
  }

  stored_handle_lem : (h : AnimationGraphHandle Float) → stored_handle h ≡ h
  unfolding stored_handle
  stored_handle_lem h = simp (narrow-widen)

  unfoldable stored_vec : Vec4 Float → Vec4 Float
  stored_vec v = record {
    x = narrow (widen v.x);
    y = narrow (widen v.y);
    z = narrow (widen v.z);
    w = narrow (widen v.w);
  }

  stored_vec_lem : (v : Vec4 Float) → stored_vec v ≡ v
  unfolding stored_vec
  stored_vec_lem v = simp (narrow-widen)

  frame_of_handles :
      (f target : ObjectFrame Float) (index : ℤ) (a b c d e g h i j k : AnimationGraphHandle Float)
      (l m n o p q r s t u : AnimationGraphHandle Float)
      → obj_frame_doc fl (record f {
        translation = a ∷ b ∷ c ∷ [];
        rotation = d ∷ e ∷ g ∷ h ∷ [];
        scale = i ∷ j ∷ k ∷ [];
      })
          >>= (λ doc.
              get_frame_from_doc fl
                (some (subdoc doc))
                (record target {
                  translation = l ∷ m ∷ n ∷ [];
                  rotation = o ∷ p ∷ q ∷ r ∷ [];
                  scale = s ∷ t ∷ u ∷ [];
                })
                index)
        ≡ ok (record target {
          base = record { frame = index; owner = f.base.owner };
          trans = record {
            transform = record {
              c0 = stored_vec f.trans.transform.c0;
              c1 = stored_vec f.trans.transform.c1;
              c2 = stored_vec f.trans.transform.c2;
              c3 = stored_vec f.trans.transform.c3;
            };
            type = target.trans.type;
          };
          translation = stored_handle a ∷ stored_handle b ∷ stored_handle c ∷ [];
          rotation = stored_handle d ∷ stored_handle e ∷ stored_handle g ∷ stored_handle h ∷ [];
          scale = stored_handle i ∷ stored_handle j ∷ stored_handle k ∷ [];
        })
  unfolding get_frame_from_doc obj_frame_doc of_fields stored_handle stored_vec
  frame_of_handles f target index a b c d e g h i j k l m n o p q r s t u = refl

  with_handles :
      (f : ObjectFrame Float) {ts rs ss : List (AnimationGraphHandle Float)}
      → f.translation ≡ ts
      → f.rotation ≡ rs
      → f.scale ≡ ss
      → f ≡ record f { translation = ts; rotation = rs; scale = ss }
  with_handles f e1 e2 e3 = λ i. record f { translation = e1 i; rotation = e2 i; scale = e3 i }

  -- A frame that was stored comes back with its owner, its transform and all its handles, whatever the
  -- frame was that it is read into; its index is the one that is asked for, and the scene and the type
  -- of transform, which are not stored, stay those of the frame it is read into. Both frames have the
  -- handles of a new one.
  pub get_frame_from_doc-obj_frame_doc :
      (f target : ObjectFrame Float) (index : ℤ)
      → IsWhole f
      → IsWhole target
      → obj_frame_doc fl f >>= (λ d. get_frame_from_doc fl (some (subdoc d)) target index)
        ≡ ok (record f {
          base = record { frame = index; owner = f.base.owner };
          trans = record f.trans { type = target.trans.type };
          related = target.related;
        })
  get_frame_from_doc-obj_frame_doc f target index h k =
      let (a, b, c, e1) = three_of f.translation h.0 in
      let (a1, b1, c1, d1, e2) = four_of f.rotation h.1 in
      let (a2, b2, c2, e3) = three_of f.scale h.2 in
      let (_, _, _, e4) = three_of target.translation k.0 in
      let (_, _, _, _, e5) = four_of target.rotation k.1 in
      let (_, _, _, e6) = three_of target.scale k.2 in
      ap
        (λ (g : ObjectFrame Float).
          obj_frame_doc fl g >>= (λ d. get_frame_from_doc fl (some (subdoc d)) target index))
        (with_handles f e1 e2 e3)
      ∙ (ap
            (λ (g : ObjectFrame Float).
              obj_frame_doc fl (record f {
                translation = a ∷ b ∷ c ∷ [];
                rotation = a1 ∷ b1 ∷ c1 ∷ d1 ∷ [];
                scale = a2 ∷ b2 ∷ c2 ∷ [];
              })
              >>= (λ d. get_frame_from_doc fl (some (subdoc d)) g index))
            (with_handles target e4 e5 e6)
          ∙ (frame_of_handles f target index _ _ _ _ _ _ _ _ _ _ _ _ _ _ _ _ _ _ _ _
              ∙ simp (stored_handle_lem, stored_vec_lem)
                  (ap
                    (λ (g : ObjectFrame Float). ok (record g {
                      base = record { frame = index; owner = f.base.owner };
                      trans = record f.trans { type = target.trans.type };
                      related = target.related;
                    }))
                    (sym (with_handles f e1 e2 e3)))))
