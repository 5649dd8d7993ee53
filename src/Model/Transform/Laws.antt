-- ===== src/Model/Transform/Laws.antt =====
-- Reads and writes of the elements of a transform.
use clyman.Prelude.{ℕ, zero, suc, ◌≤◌, ◌<◌, ◌≡◌, ◌⊎◌, refl, arith, nat_beq, ◌&&◌, if◌then◌else◌}
use clyman.Outcome.{ok, crash}
use clyman.Model.Transform.{
  Vec4, Mat4, Transformation, component, set_component, column, set_column, get_transform_element,
  set_transform_element,
}

module _ {F : Type 0} where
  component-set_component :
      (v v' : Vec4 F) (i k : ℕ) (a : F)
      → set_component v i a ≡ ok v'
      → component v' k ≡ (if nat_beq i k then ok a else component v k)
  unfolding component set_component
  component-set_component v v' (suc (suc (suc (suc i)))) (suc (suc (suc (suc k)))) a h =
      ground arith
  component-set_component v v' _ _ a h = ground arith

  column-set_column :
      (m m' : Mat4 F) (j l : ℕ) (v : Vec4 F)
      → set_column m j v ≡ ok m'
      → column m' l ≡ (if nat_beq j l then ok v else column m l)
  unfolding column set_column
  column-set_column m m' (suc (suc (suc (suc j)))) (suc (suc (suc (suc l)))) v h = ground arith
  column-set_column m m' _ _ v h = ground arith

  column-ok : (m : Mat4 F) (j : ℕ) → j < 4 → (v : Vec4 F) × (column m j ≡ ok v)
  unfolding column
  column-ok m zero h = (m.c0, refl)
  column-ok m (suc zero) h = (m.c1, refl)
  column-ok m (suc (suc zero)) h = (m.c2, refl)
  column-ok m (suc (suc (suc zero))) h = (m.c3, refl)
  column-ok m (suc (suc (suc (suc j)))) h = ground arith

  set_component-ok :
      (v : Vec4 F) (i : ℕ) (a : F) → i < 4 → (v' : Vec4 F) × (set_component v i a ≡ ok v')
  unfolding set_component
  set_component-ok v zero a h = (_, refl)
  set_component-ok v (suc zero) a h = (_, refl)
  set_component-ok v (suc (suc zero)) a h = (_, refl)
  set_component-ok v (suc (suc (suc zero))) a h = (_, refl)
  set_component-ok v (suc (suc (suc (suc i)))) a h = ground arith

  set_column-ok :
      (m : Mat4 F) (j : ℕ) (v : Vec4 F) → j < 4 → (m' : Mat4 F) × (set_column m j v ≡ ok m')
  unfolding set_column
  set_column-ok m zero v h = (_, refl)
  set_column-ok m (suc zero) v h = (_, refl)
  set_column-ok m (suc (suc zero)) v h = (_, refl)
  set_column-ok m (suc (suc (suc zero))) v h = (_, refl)
  set_column-ok m (suc (suc (suc (suc j)))) v h = ground arith

  -- A write to row i and column j within the 4 by 4 matrix succeeds and keeps the type; afterwards row
  -- i and column j read the value, and every other row and column, in range or not, reads as before.
  pub get-set_transform_element :
      (t : Transformation F) (i j : ℕ) (a : F)
      → i < 4
      → j < 4
      → (t' : Transformation F) × (set_transform_element t i j a ≡ ok t')
        × (t'.type ≡ t.type)
        × ((k l : ℕ)
            → get_transform_element t' k l
              ≡ (if nat_beq i k && nat_beq j l then ok a else get_transform_element t k l))
  unfolding set_transform_element get_transform_element
  get-set_transform_element t i j a hi hj =
      let (v, ev) = column-ok t.transform j hj in
      let (v', ev') = set_component-ok v i a hi in
      let (m, em) = set_column-ok t.transform j v' hj in
      (
        record t { transform = m },
        ground arith,
        refl,
        λ k l. ground (
          arith,
          component-set_component v v' i k a ev',
          column-set_column t.transform m j l v' em,
        ),
      )

  -- A write or a read outside the matrix is undefined.
  pub transform_element_out :
      (t : Transformation F) (i j : ℕ) (a : F)
      → (4 ≤ i) ⊎ (4 ≤ j)
      → (set_transform_element t i j a ≡ crash) × (get_transform_element t i j ≡ crash)
  unfolding set_transform_element get_transform_element
  transform_element_out t (suc (suc (suc (suc i)))) j a h = ground arith
  transform_element_out t i (suc (suc (suc (suc j)))) a h = ground arith
  transform_element_out t _ _ a h = ground arith
