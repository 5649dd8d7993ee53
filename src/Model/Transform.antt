-- ===== src/Model/Transform.antt =====
-- src/model/object/include/transforms.h and object_3d.h
pub mod Laws
mod Tests
use clyman.Prelude.{ℕ, zero, suc, ℤ, pos}
use clyman.Outcome.{Outcome, ok, crash, ◌>>=◌}

-- glm::vec4 and glm::mat4, which is four columns.
pub record Vec4 (F : Type 0) : Type 0 where
  pub x : F
  pub y : F
  pub z : F
  pub w : F

pub record Mat4 (F : Type 0) : Type 0 where
  pub c0 : Vec4 F
  pub c1 : Vec4 F
  pub c2 : Vec4 F
  pub c3 : Vec4 F

module _ {F : Type 0} where
  -- `v[i]`; past the end it is undefined.
  unfoldable pub component : Vec4 F → ℕ → Outcome F
  component v zero = ok v.x
  component v (suc zero) = ok v.y
  component v (suc (suc zero)) = ok v.z
  component v (suc (suc (suc zero))) = ok v.w
  component v (suc (suc (suc (suc n)))) = crash

  unfoldable pub set_component : Vec4 F → ℕ → F → Outcome (Vec4 F)
  set_component v zero a = ok (record v { x = a })
  set_component v (suc zero) a = ok (record v { y = a })
  set_component v (suc (suc zero)) a = ok (record v { z = a })
  set_component v (suc (suc (suc zero))) a = ok (record v { w = a })
  set_component v (suc (suc (suc (suc n)))) a = crash

  -- `m[j]`
  unfoldable pub column : Mat4 F → ℕ → Outcome (Vec4 F)
  column m zero = ok m.c0
  column m (suc zero) = ok m.c1
  column m (suc (suc zero)) = ok m.c2
  column m (suc (suc (suc zero))) = ok m.c3
  column m (suc (suc (suc (suc n)))) = crash

  unfoldable pub set_column : Mat4 F → ℕ → Vec4 F → Outcome (Mat4 F)
  set_column m zero v = ok (record m { c0 = v })
  set_column m (suc zero) v = ok (record m { c1 = v })
  set_column m (suc (suc zero)) v = ok (record m { c2 = v })
  set_column m (suc (suc (suc zero))) v = ok (record m { c3 = v })
  set_column m (suc (suc (suc (suc n)))) v = crash

-- The type of transform: NO_TRANSFORM_TYPE, TRANSLATE, EROTATE, SCALE, QROTATE.
abbrev pub no_transform_type : ℤ
no_transform_type = pos 0

pub record Transformation (F : Type 0) : Type 0 where
  pub transform : Mat4 F
  pub type : ℤ

module _ {F : Type 0} where
  -- glm::mat4(1.0)
  abbrev pub identity : F → F → Mat4 F
  identity o l = record {
    c0 = record { x = l; y = o; z = o; w = o };
    c1 = record { x = o; y = l; z = o; w = o };
    c2 = record { x = o; y = o; z = l; w = o };
    c3 = record { x = o; y = o; z = o; w = l };
  }

  -- `new Transformation`
  abbrev pub new_transformation : F → F → Transformation F
  new_transformation o l = record { transform = identity o l; type = no_transform_type }

  -- The first index is the row: `transform[j][i]`.
  unfoldable pub get_transform_element : Transformation F → ℕ → ℕ → Outcome F
  unfolding component column
  get_transform_element t i j = do v ← column t.transform j; component v i

  unfoldable pub set_transform_element : Transformation F → ℕ → ℕ → F → Outcome (Transformation F)
  unfolding set_component column set_column
  set_transform_element t i j a = do
    v ← column t.transform j
    v' ← set_component v i a
    m ← set_column t.transform j v'
    ok (record t { transform = m })
