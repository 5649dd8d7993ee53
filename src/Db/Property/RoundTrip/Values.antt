-- ===== src/Db/Property/RoundTrip/Values.antt =====
-- Values, and the handles of a keyframe, that are stored and read again.
use clyman.Prelude.{◌≡◌, refl, List, [], ◌∷◌, ℕ, zero, suc, some, take, true}
use clyman.Outcome.{ok}
use clyman.Floats.{Floats}
use clyman.Model.Handle.{AnimationGraphHandle, new_handle}
use clyman.Model.Property.{Property}
use clyman.Db.Bson.{of_fields, subdoc}
use clyman.Db.Property.Documents.{Frame, value_keys, values_doc, frame_values_doc}
use clyman.Db.Property.Read.{read_prop_values, read_frame_values}

module _ (fl : Floats) where
  open fl use {Float, Double, zero_f, narrow-widen}

  -- Four values at most are stored.
  pub values_stored :
      (vs : List Double) (p : Property Float Double)
      → read_prop_values fl (some (subdoc (values_doc fl value_keys vs))) (record p { values = [] })
        ≡ ok (record p { values = take 4 vs })
  unfolding read_prop_values values_doc of_fields
  values_stored [] p = refl
  values_stored (a ∷ []) p = refl
  values_stored (a ∷ b ∷ []) p = refl
  values_stored (a ∷ b ∷ c ∷ []) p = refl
  values_stored (a ∷ b ∷ c ∷ d ∷ vs) p = refl

  -- The handles that come back: one for each value, new where there was none.
  abbrev pub stored_handles :
      ℕ → List Double → List (AnimationGraphHandle Float) → List (AnimationGraphHandle Float)
  stored_handles zero vs hs = []
  stored_handles (suc n) [] hs = []
  stored_handles (suc n) (v ∷ vs) [] = new_handle zero_f ∷ stored_handles n vs []
  stored_handles (suc n) (v ∷ vs) (h ∷ hs) = h ∷ stored_handles n vs hs

  pub frame_values_stored :
      (vs : List Double) (hs : List (AnimationGraphHandle Float)) (f : Frame fl)
      → read_frame_values fl true
          (some (subdoc (frame_values_doc fl value_keys vs hs)))
          (record f { values = []; handles = [] })
        ≡ ok (record f { values = take 4 vs; handles = stored_handles 4 vs hs })
  unfolding read_frame_values frame_values_doc of_fields
  frame_values_stored [] hs f = refl
  frame_values_stored (a ∷ []) [] f = refl
  frame_values_stored (a ∷ []) (h ∷ hs) f = simp (narrow-widen)
  frame_values_stored (a ∷ b ∷ []) [] f = refl
  frame_values_stored (a ∷ b ∷ []) (h ∷ []) f = simp (narrow-widen)
  frame_values_stored (a ∷ b ∷ []) (h ∷ i ∷ hs) f = simp (narrow-widen)
  frame_values_stored (a ∷ b ∷ c ∷ []) [] f = refl
  frame_values_stored (a ∷ b ∷ c ∷ []) (h ∷ []) f = simp (narrow-widen)
  frame_values_stored (a ∷ b ∷ c ∷ []) (h ∷ i ∷ []) f = simp (narrow-widen)
  frame_values_stored (a ∷ b ∷ c ∷ []) (h ∷ i ∷ j ∷ hs) f = simp (narrow-widen)
  frame_values_stored (a ∷ b ∷ c ∷ d ∷ vs) [] f = refl
  frame_values_stored (a ∷ b ∷ c ∷ d ∷ vs) (h ∷ []) f = simp (narrow-widen)
  frame_values_stored (a ∷ b ∷ c ∷ d ∷ vs) (h ∷ i ∷ []) f = simp (narrow-widen)
  frame_values_stored (a ∷ b ∷ c ∷ d ∷ vs) (h ∷ i ∷ j ∷ []) f = simp (narrow-widen)
  frame_values_stored (a ∷ b ∷ c ∷ d ∷ vs) (h ∷ i ∷ j ∷ k ∷ hs) f = simp (narrow-widen)
