-- ===== src/Db/Bson.antt =====
-- BSON documents as the program builds and reads them (bsoncxx's builders, views and elements).
use clyman.Prelude.{
  String, ℤ, Bool, List, [], ◌∷◌, Option, none, some, ◌==◌, string_eq, ◌≡◌, refl, ap, if◌then◌else◌,
}
use clyman.Outcome.{Outcome, ok, throw}

mutual
  pub data Bson (D : Type 0) : Type 0 where
    utf8 : String → Bson D
    dbl : D → Bson D
    int32 : ℤ → Bson D
    boolean : Bool → Bson D
    oid : String → Bson D
    array : Elements D → Bson D
    doc : Fields D → Bson D

  pub data Elements (D : Type 0) : Type 0 where
    nil : Elements D
    cons : Bson D → Elements D → Elements D

  pub data Fields (D : Type 0) : Type 0 where
    end : Fields D
    field : String → Bson D → Fields D → Fields D

-- A document as the list of its fields.
abbrev pub Doc : Type 0 → Type 0
Doc D = List (String × Bson D)

-- What bsoncxx throws where a typed read meets another type, or the invalid element.
abbrev pub unset_element : String
unset_element = "unset document::element"

module _ {D : Type 0} where
  unfoldable pub elements : Elements D → List (Bson D)
  elements nil = []
  elements (cons x xs) = x ∷ elements xs

  unfoldable pub fields : Fields D → Doc D
  fields end = []
  fields (field k v fs) = (k, v) ∷ fields fs

  unfoldable pub of_elements : List (Bson D) → Elements D
  of_elements [] = nil
  of_elements (x ∷ xs) = cons x (of_elements xs)

  unfoldable pub of_fields : Doc D → Fields D
  of_fields [] = end
  of_fields ((k, v) ∷ fs) = field k v (of_fields fs)

  -- The value of a finished builder inside another.
  abbrev pub subdoc : Doc D → Bson D
  subdoc d = doc (of_fields d)

  abbrev pub subarray : List (Bson D) → Bson D
  subarray xs = array (of_elements xs)

  pub elements-of_elements : (xs : List (Bson D)) → elements (of_elements xs) ≡ xs
  unfolding elements of_elements
  elements-of_elements [] = refl
  elements-of_elements (x ∷ xs) = ap (◌∷◌ x) (elements-of_elements xs)

  pub fields-of_fields : (d : Doc D) → fields (of_fields d) ≡ d
  unfolding fields of_fields
  fields-of_fields [] = refl
  fields-of_fields ((k, v) ∷ d) = ap (◌∷◌ (k, v)) (fields-of_fields d)

  -- `view[key]`: the first field of that name; `none` is the invalid element.
  unfoldable pub element : Doc D → String → Option (Bson D)
  element [] key = none
  element ((k, v) ∷ d) key = if k == key then some v else element d key

  -- `elt[key]` of an element, which is invalid where that is no document.
  unfoldable pub child : Option (Bson D) → String → Option (Bson D)
  unfolding fields element
  child (some (doc fs)) key = element (fields fs) key
  child _ key = none

  unfoldable pub get_utf8 : Option (Bson D) → Outcome String
  get_utf8 (some (utf8 s)) = ok s
  get_utf8 _ = throw unset_element

  unfoldable pub get_double : Option (Bson D) → Outcome D
  get_double (some (dbl d)) = ok d
  get_double _ = throw unset_element

  unfoldable pub get_bool : Option (Bson D) → Outcome Bool
  get_bool (some (boolean b)) = ok b
  get_bool _ = throw unset_element
