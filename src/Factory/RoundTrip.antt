-- ===== src/Factory/RoundTrip.antt =====
-- What src/model/factory/json_factory.cpp and clyman_utils.h read of the JSON that the program writes.
use clyman.Prelude.{◌≡◌, refl, String, List, [], ◌∷◌, ◌++◌, map}
use clyman.Outcome.{ok}
use clyman.Floats.{Floats}
use clyman.Model.Handle.{AnimationGraphHandle}
use clyman.Model.Transform.{Transformation, Mat4}
use clyman.Json.{Json, double, string, object, items, fields}
use clyman.Json.Read.{parse_json_graph_handle}
use clyman.Json.Write.{Token, key, str, dbl, write_json_graph_handle}
use clyman.Writer.{write_transform}
use clyman.Factory.Frame.{parse_transform}

module _ {D : Type 0} where
  -- The calls that write a number or a text, and an attribute of that kind.
  abbrev pub scalar_tokens : Json D → List (Token D)
  scalar_tokens (double d) = dbl d ∷ []
  scalar_tokens (string s) = str s ∷ []
  scalar_tokens _ = []

  abbrev pub attribute_tokens : List (String × Json D) → List (Token D)
  attribute_tokens [] = []
  attribute_tokens ((k, v) ∷ ms) = key k ∷ (scalar_tokens v ++ attribute_tokens ms)

module _ (fl : Floats) where
  open fl use {Float, Double, widen, narrow, narrow-widen}

  -- The attributes of a written handle.
  abbrev pub handle_members : AnimationGraphHandle Float → List (String × Json Double)
  handle_members h =
      ("left_type", string h.lh_type)
      ∷ ("left_x", double (widen h.lh_x))
      ∷ ("left_y", double (widen h.lh_y))
      ∷ ("right_type", string h.rh_type)
      ∷ ("right_x", double (widen h.rh_x))
      ∷ ("right_y", double (widen h.rh_y))
      ∷ []

  -- A handle that is written and read again comes back but for the x of its right side, which stays
  -- that of the handle it is read into.
  pub parse_json_graph_handle-write :
      (h target : AnimationGraphHandle Float)
      → (write_json_graph_handle fl h ≡ attribute_tokens (handle_members h))
        × (parse_json_graph_handle fl (object (fields (handle_members h))) target
            ≡ ok (record h { rh_x = target.rh_x }))
  unfolding write_json_graph_handle parse_json_graph_handle fields
  parse_json_graph_handle-write h target = (refl, simp (narrow-widen))

  -- The elements of a transform, row by row.
  abbrev pub rows : Mat4 Float → List Float
  rows m =
      m.c0.x ∷ m.c1.x ∷ m.c2.x ∷ m.c3.x ∷ m.c0.y ∷ m.c1.y ∷ m.c2.y ∷ m.c3.y ∷ m.c0.z ∷ m.c1.z
      ∷ m.c2.z ∷ m.c3.z ∷ m.c0.w ∷ m.c1.w ∷ m.c2.w ∷ m.c3.w ∷ []

  abbrev pub numbers : List Float → List (Json Double)
  numbers xs = map (λ x. double (widen x)) xs

  -- A transform is written row by row as an array of sixteen numbers, and that array is read as the
  -- same transform; the type of transform stays that of the one it is read into.
  pub parse_transform-write_transform :
      (t target : Transformation Float)
      → (write_transform fl t ≡ ok (map (λ x. dbl (widen x)) (rows t.transform)))
        × (parse_transform fl target (items (numbers (rows t.transform)))
            ≡ ok (record t { type = target.type }))
  unfolding write_transform parse_transform items
  parse_transform-write_transform t target = (refl, simp (narrow-widen))
