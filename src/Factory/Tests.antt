-- ===== src/Factory/Tests.antt =====
-- Tests of what is read of the JSON that the program writes.
use clyman.Prelude.{ℕ, zero, suc, ℤ, pos, ◌≡◌, List, ◌∷◌, map, arith, replicate}
use clyman.Outcome.{ok, crash}
use clyman.Model.Handle.{AnimationGraphHandle, new_handle}
use clyman.Model.Transform.{Transformation, new_transformation}
use clyman.Json.{Json, object, fields, items, int, double}
use clyman.Json.Read.{parse_json_graph_handle}
use clyman.Json.Write.{dbl, write_json_graph_handle}
use clyman.Writer.{write_transform}
use clyman.Factory.Frame.{parse_transform}
use clyman.Factory.Frame.Laws.{IsElement, AllElements, parse_transform_too_long}
use clyman.Factory.RoundTrip.{
  handle_members, attribute_tokens, rows, numbers, parse_json_graph_handle-write,
  parse_transform-write_transform,
}
use clyman.Samples.{floats, stored}

abbrev handle : AnimationGraphHandle ℤ
handle = record {
  lh_x = pos 1;
  lh_y = pos 2;
  rh_x = pos 3;
  rh_y = pos 4;
  lh_type = "l";
  rh_type = "r";
}

parse_json_graph_handle-write_example :
    (write_json_graph_handle floats handle ≡ attribute_tokens (handle_members floats handle))
    × (parse_json_graph_handle floats
          (object (fields (handle_members floats handle)))
          (new_handle (pos 0))
        ≡ ok (record handle { rh_x = pos 0 }))
parse_json_graph_handle-write_example =
    parse_json_graph_handle-write floats handle (new_handle (pos 0))

abbrev fresh : Transformation ℤ
fresh = new_transformation (pos 0) (pos 1)

parse_transform-write_transform_example :
    (write_transform floats stored.trans ≡ ok (map dbl (rows floats stored.trans.transform)))
    × (parse_transform floats fresh (items (numbers floats (rows floats stored.trans.transform)))
        ≡ ok stored.trans)
parse_transform-write_transform_example = parse_transform-write_transform floats stored.trans fresh

-- Integers and doubles in one array.
abbrev seventeen : List (Json ℤ)
seventeen = int (pos 1) ∷ replicate 16 (double (pos 2))

all_doubles : (n : ℕ) → AllElements (replicate n (double (pos 2)))
all_doubles zero = AllElements.no_more
all_doubles (suc n) = AllElements.and_more (IsElement.double_element (pos 2)) (all_doubles n)

parse_transform_too_long_example : parse_transform floats fresh (items seventeen) ≡ crash
parse_transform_too_long_example =
    parse_transform_too_long floats fresh seventeen
      (AllElements.and_more (IsElement.int_element (pos 1)) (all_doubles 16)) (omega arith)
