-- ===== src/Json/Read.antt =====
-- clyman_utils.h: the searches for an element, and the parser of a graph handle.
use clyman.Prelude.{String, ℤ, pos, negsuc, Option, some, ◌==◌, string_eq, if◌then◌else◌}
use clyman.Outcome.{Outcome, ok, crash, for_each}
use clyman.Floats.{Floats}
use clyman.Model.Handle.{AnimationGraphHandle}
use clyman.Json.Value.{Json, int, wide, double, string, object, members, find_member}

module _ {D : Type 0} where
  abbrev assigned : String → Option (Json D) → String
  assigned out (some (string s)) = s
  assigned out _ = out

  -- `find_json_string_elt_in_doc`, `…_in_val` and `…_in_array`: `out` is kept where there is no such
  -- text. `FindMember` wants an object.
  unfoldable pub find_json_string_elt : Json D → String → String → Outcome String
  unfolding find_member members
  find_json_string_elt (object ms) key out = ok (assigned out (find_member key (members ms)))
  find_json_string_elt _ key out = crash

  -- `GetInt()` on a number that is no `int` is a failed assertion.
  abbrev int_or_default : Option (Json D) → Outcome ℤ
  int_or_default (some (int n)) = ok n
  int_or_default (some (wide n)) = crash
  int_or_default (some (double d)) = crash
  int_or_default _ = ok (negsuc 9998)

  -- `find_json_int_elt_in_doc`, `…_in_val` and `…_in_array`
  unfoldable pub find_json_int_elt : Json D → String → Outcome ℤ
  unfolding find_member members
  find_json_int_elt (object ms) key = int_or_default (find_member key (members ms))
  find_json_int_elt _ key = crash

module _ (fl : Floats) where
  open fl use {Float, Double, narrow, of_int}

  text_attribute : AnimationGraphHandle Float → String → String → AnimationGraphHandle Float
  text_attribute h param_name v =
      if param_name == "left_type"
      then record h { lh_type = v }
      else if param_name == "right_type"
      then record h { rh_type = v }
      else h

  number_attribute : AnimationGraphHandle Float → String → Double → AnimationGraphHandle Float
  number_attribute h param_name v =
      if param_name == "left_x"
      then record h { lh_x = narrow v }
      else if param_name == "left_y"
      then record h { lh_y = narrow v }
      else if param_name == "right_x"
      then record h { rh_y = narrow v }
      else if param_name == "right_y"
      then record h { rh_y = narrow v }
      else h

  handle_attribute :
      AnimationGraphHandle Float → String × Json Double → Outcome (AnimationGraphHandle Float)
  handle_attribute h (name, string s) = ok (text_attribute h name s)
  handle_attribute h (name, double d) = ok (number_attribute h name d)
  handle_attribute h (name, int n) = ok (number_attribute h name (of_int n))
  handle_attribute h (name, wide n) = ok (number_attribute h name (of_int (pos 0)))
  handle_attribute h _ = ok h

  unfoldable pub parse_json_graph_handle :
      Json Double → AnimationGraphHandle Float → Outcome (AnimationGraphHandle Float)
  unfolding text_attribute number_attribute handle_attribute members for_each
  parse_json_graph_handle (object ms) handle = for_each handle_attribute handle (members ms)
  parse_json_graph_handle _ handle = crash
