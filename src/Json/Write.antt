-- ===== src/Json/Write.antt =====
-- clyman_utils.h: the writers. What a writer is told is a list of its calls.
use clyman.Prelude.{
  ℕ, suc, ◌-◌, ◌%◌, ◌^◌, String, ℤ, pos, negsuc, ltb_ℤ, List, [], ◌∷◌, is_empty, if◌then◌else◌,
}
use clyman.Floats.{Floats}
use clyman.Model.Handle.{AnimationGraphHandle}

-- The calls of rapidjson's writer.
pub data Token (D : Type 0) : Type 0 where
  start_object end_object start_array end_array : Token D
  key : String → Token D
  str : String → Token D
  uint : ℕ → Token D
  dbl : D → Token D

-- The conversion of an `int` to `unsigned`.
unfoldable pub to_unsigned : ℤ → ℕ
to_unsigned (pos n) = n % 2 ^ 32
to_unsigned (negsuc n) = (2 ^ 32 - suc n % 2 ^ 32) % 2 ^ 32

module _ {D : Type 0} where
  unfoldable pub write_json_string_elt : String → String → List (Token D)
  write_json_string_elt k value = if is_empty value then [] else key k ∷ str value ∷ []

  unfoldable pub write_json_int_elt : String → ℤ → List (Token D)
  unfolding to_unsigned
  write_json_int_elt k value =
      if ltb_ℤ (negsuc 998) value then key k ∷ uint (to_unsigned value) ∷ [] else []

module _ (fl : Floats) where
  open fl use {Float, Double, widen}

  unfoldable pub write_json_graph_handle : AnimationGraphHandle Float → List (Token Double)
  write_json_graph_handle h =
      key "left_type"
      ∷ str h.lh_type
      ∷ key "left_x"
      ∷ dbl (widen h.lh_x)
      ∷ key "left_y"
      ∷ dbl (widen h.lh_y)
      ∷ key "right_type"
      ∷ str h.rh_type
      ∷ key "right_x"
      ∷ dbl (widen h.rh_x)
      ∷ key "right_y"
      ∷ dbl (widen h.rh_y)
      ∷ []
