-- ===== src/Model/Transform/Tests.antt =====
-- Tests of the transforms, over whole numbers in place of floats.
use clyman.Prelude.{ℕ, ◌≡◌, refl}
use clyman.Outcome.{ok, crash, ◌>>=◌}
use clyman.Model.Transform.{
  Transformation, new_transformation, get_transform_element, set_transform_element,
}

abbrev start : Transformation ℕ
start = new_transformation 0 1

written : (do t ← set_transform_element start 1 2 7; get_transform_element t 1 2) ≡ ok 7
unfolding set_transform_element get_transform_element
written = refl

others_kept : (do t ← set_transform_element start 1 2 7; get_transform_element t 2 2) ≡ ok 1
unfolding set_transform_element get_transform_element
others_kept = refl

outside : get_transform_element start 4 0 ≡ crash
unfolding get_transform_element
outside = refl
