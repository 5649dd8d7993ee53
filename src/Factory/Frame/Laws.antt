-- ===== src/Factory/Frame/Laws.antt =====
-- Arrays that are too long for a transform.
use clyman.Prelude.{
  ℕ, ◌+◌, ◌/◌, ◌%◌, ◌≤◌, ◌≡◌, ℤ, List, [], ◌∷◌, length, arith, inl, inr, Bool-cases, ltb,
}
use clyman.Outcome.{Outcome, ok, crash, ◌>>=◌, for_each}
use clyman.Floats.{Floats}
use clyman.Model.Transform.{Transformation, set_transform_element}
use clyman.Model.Transform.Laws.{get-set_transform_element, transform_element_out}
use clyman.Json.{Json, int, double, items, elements-items}
use clyman.Factory.Frame.{parse_transform, transform_step}

-- What `IsInt` and `IsDouble` of RapidJSON are true of.
pub data IsElement {D : Type 0} : Json D → Type 0 where
  int_element : (n : ℤ) → IsElement (int n)
  double_element : (d : D) → IsElement (double d)

pub data AllElements {D : Type 0} : List (Json D) → Type 0 where
  no_more : AllElements []
  and_more : {x : Json D} {xs : List (Json D)} → IsElement x → AllElements xs → AllElements (x ∷ xs)

module _ (fl : Floats) where
  open fl use {Float, Double, narrow, of_int}

  -- The value that an element writes into the transform.
  value_of : {x : Json Double} → IsElement x → Float
  value_of (IsElement.int_element n) = narrow (of_int n)
  value_of (IsElement.double_element d) = narrow d

  step_written :
      (t : Transformation Float) (i : ℕ) {x : Json Double} (e : IsElement x)
      (r : Outcome (Transformation Float))
      → set_transform_element t (i / 4) (i % 4) (value_of e) ≡ r
      → transform_step fl (i, t) x ≡ (r >>= λ t'. ok (i + 1, t'))
  unfolding transform_step value_of
  step_written t i (IsElement.int_element n) r h = simp (h)
  step_written t i (IsElement.double_element d) r h = simp (h)

  too_many :
      (t : Transformation Float) (i : ℕ) (xs : List (Json Double))
      → AllElements xs
      → i ≤ 16
      → 17 ≤ i + length xs
      → for_each (transform_step fl) (i, t) xs ≡ crash
  unfolding for_each
  too_many t i [] a h k = ground arith
  too_many t i (x ∷ xs) (AllElements.and_more e a) h k = elim (Bool-cases (ltb i 16)) [
    | inl l ↦
        let (t', w, _, _) =
          get-set_transform_element t (i / 4) (i % 4) (value_of e) (ground arith) (omega arith) in
        simp (step_written t i e (ok t') w) (too_many t' (i + 1) xs a (ground arith) (omega arith))
    | inr l ↦ simp (
        step_written t i e crash
          ((transform_element_out t (i / 4) (i % 4) (value_of e) (inl (ground arith))).0))
  ]

  -- An array that is given for a transform and has more than sixteen elements, each a double or an
  -- integer of 32 bits, writes past the end of the matrix, in whatever order the two kinds stand.
  pub parse_transform_too_long :
      (t : Transformation Float) (xs : List (Json Double))
      → AllElements xs
      → 17 ≤ length xs
      → parse_transform fl t (items xs) ≡ crash
  unfolding parse_transform
  parse_transform_too_long t xs a h =
      simp (elements-items xs, too_many t 0 xs a (omega arith) (omega arith))
