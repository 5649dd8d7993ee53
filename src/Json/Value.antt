-- ===== src/Json/Value.antt =====
-- rapidjson's values and their tests.
use clyman.Prelude.{
  String, ℤ, Bool, true, false, List, [], ◌∷◌, Option, none, some, ◌==◌, string_eq, ◌≡◌, refl,
  if◌then◌else◌, ap,
}

-- `int` is a number for which `IsInt()` holds, `wide` another whole number, `double` one for which
-- `IsDouble()` holds.
mutual
  pub data Json (D : Type 0) : Type 0 where
    null : Json D
    bool : Bool → Json D
    int : ℤ → Json D
    wide : ℤ → Json D
    double : D → Json D
    string : String → Json D
    array : Items D → Json D
    object : Members D → Json D

  pub data Items (D : Type 0) : Type 0 where
    nil : Items D
    cons : Json D → Items D → Items D

  pub data Members (D : Type 0) : Type 0 where
    end : Members D
    member : String → Json D → Members D → Members D

module _ {D : Type 0} where
  -- The iteration over `GetArray()`.
  unfoldable pub elements : Items D → List (Json D)
  elements nil = []
  elements (cons x xs) = x ∷ elements xs

  -- The iteration over `GetObject()`.
  unfoldable pub members : Members D → List (String × Json D)
  members end = []
  members (member k v ms) = (k, v) ∷ members ms

  unfoldable pub items : List (Json D) → Items D
  items [] = nil
  items (x ∷ xs) = cons x (items xs)

  unfoldable pub fields : List (String × Json D) → Members D
  fields [] = end
  fields ((k, v) ∷ ms) = member k v (fields ms)

  pub elements-items : (xs : List (Json D)) → elements (items xs) ≡ xs
  unfolding elements items
  elements-items [] = refl
  elements-items (x ∷ xs) = ap (◌∷◌ x) (elements-items xs)

  pub members-fields : (ms : List (String × Json D)) → members (fields ms) ≡ ms
  unfolding members fields
  members-fields [] = refl
  members-fields ((k, v) ∷ ms) = ap (◌∷◌ (k, v)) (members-fields ms)

  unfoldable pub is_object : Json D → Bool
  is_object (object ms) = true
  is_object _ = false

  unfoldable pub is_array : Json D → Bool
  is_array (array xs) = true
  is_array _ = false

  unfoldable pub is_string : Json D → Bool
  is_string (string s) = true
  is_string _ = false

  unfoldable pub is_number : Json D → Bool
  is_number (int n) = true
  is_number (wide n) = true
  is_number (double d) = true
  is_number _ = false

  -- `FindMember(key)`: the first member of that name.
  unfoldable pub find_member : String → List (String × Json D) → Option (Json D)
  find_member k [] = none
  find_member k ((j, v) ∷ ms) = if j == k then some v else find_member k ms

-- What `Parse` makes of a text: the text of a parse error, or a document.
pub data Parsed (D : Type 0) : Type 0 where
  parse_error : String → Parsed D
  document : Json D → Parsed D
