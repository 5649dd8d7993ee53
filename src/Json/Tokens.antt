-- ===== src/Json/Tokens.antt =====
-- The calls of the writer that write a given JSON value: what the routines that write are held against.
use clyman.Prelude.{
  ℕ, String, pos, List, [], ◌∷◌, ◌++◌, map, ◌≡◌, refl, ap, ◌∙◌, sym, append_assoc, append-nil,
  concat_map, Bool-cases, inl, inr, is_empty, if◌then◌else◌,
}
use clyman.Json.Value.{
  Json, Items, Members, int, double, string, array, object, nil, cons, end, member, items, fields,
}
use clyman.Json.Write.{
  Token, start_object, end_object, start_array, end_array, key, str, uint, dbl,
  write_json_string_elt,
}

module _ {D : Type 0} where
  -- The program writes texts, doubles, whole numbers that are not negative, arrays and objects.
  unfoldable mutual
    pub tokens : Json D → List (Token D)
    tokens (string s) = str s ∷ []
    tokens (double d) = dbl d ∷ []
    tokens (int (pos n)) = uint n ∷ []
    tokens (array xs) = start_array ∷ (item_tokens xs ++ end_array ∷ [])
    tokens (object ms) = start_object ∷ (member_tokens ms ++ end_object ∷ [])
    tokens _ = []

    pub item_tokens : Items D → List (Token D)
    item_tokens nil = []
    item_tokens (cons x xs) = tokens x ++ item_tokens xs

    pub member_tokens : Members D → List (Token D)
    member_tokens end = []
    member_tokens (member k v ms) = key k ∷ (tokens v ++ member_tokens ms)

  pub item_tokens-nil : item_tokens (items {D = D} []) ≡ []
  unfolding tokens items
  item_tokens-nil = refl

  pub item_tokens-cons :
      (x : Json D) (xs : List (Json D))
      → item_tokens (items (x ∷ xs)) ≡ tokens x ++ item_tokens (items xs)
  unfolding tokens items
  item_tokens-cons x xs = refl

  pub item_tokens-map {ℓ} :
      {A : Type ℓ} (f : A → Json D) (g : A → List (Token D)) (xs : List A)
      → ((x : A) → tokens (f x) ≡ g x)
      → item_tokens (items (map f xs)) ≡ concat_map g xs
  unfolding tokens items
  item_tokens-map f g [] h = refl
  item_tokens-map f g (x ∷ xs) h = simp (h x, item_tokens-map f g xs h)

  pub member_tokens-append :
      (ms ns : List (String × Json D))
      → member_tokens (fields (ms ++ ns)) ≡ member_tokens (fields ms) ++ member_tokens (fields ns)
  unfolding tokens fields
  member_tokens-append [] ns = refl
  member_tokens-append ((k, v) ∷ ms) ns =
      ap (λ ts. key k ∷ (tokens v ++ ts)) (member_tokens-append ms ns)
      ∙ ap (◌∷◌ (key k))
          (sym (append_assoc (tokens v) (member_tokens (fields ms)) (member_tokens (fields ns))))

  -- An attribute that is left out where the text is empty.
  abbrev pub text_member : String → String → List (String × Json D)
  text_member k v = if is_empty v then [] else (k, string v) ∷ []

  pub member_tokens-text_member :
      (k v : String) → member_tokens (fields (text_member k v)) ≡ write_json_string_elt k v
  unfolding tokens fields write_json_string_elt
  member_tokens-text_member k v = elim (Bool-cases (is_empty v)) [
    | inl e ↦ rw e refl
    | inr e ↦ rw e refl
  ]

  pub tokens-object :
      (ms : Members D) → tokens (object ms) ≡ start_object ∷ (member_tokens ms ++ end_object ∷ [])
  unfolding tokens
  tokens-object ms = refl

  pub tokens-array :
      (xs : Items D) → tokens (array xs) ≡ start_array ∷ (item_tokens xs ++ end_array ∷ [])
  unfolding tokens
  tokens-array xs = refl

  pub tokens-int : (n : ℕ) → tokens (int (pos n)) ≡ uint n ∷ []
  unfolding tokens
  tokens-int n = refl

  pub member_tokens-nil : member_tokens (fields {D = D} []) ≡ []
  unfolding tokens fields
  member_tokens-nil = refl

  pub member_tokens-cons :
      (k : String) (v : Json D) (ms : List (String × Json D))
      → member_tokens (fields ((k, v) ∷ ms)) ≡ key k ∷ (tokens v ++ member_tokens (fields ms))
  unfolding tokens fields
  member_tokens-cons k v ms = refl

-- The tokens of objects and arrays whose attributes are left out where they are empty.
pub ruleset token_laws = (
  tokens-object, tokens-array, tokens-int, member_tokens-append, member_tokens-text_member,
  member_tokens-nil, member_tokens-cons, append_assoc, append-nil,
)
