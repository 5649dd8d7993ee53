-- ===== src/SortedMap.antt =====
-- `std::map`: an association list in the order of its keys, which is the order of iteration.
pub mod Laws
use Prim.Native.String.{compare}
use text.Mathlib.Text.{is_lt}
use clyman.Prelude.{String, ℤ, ltb_ℤ, Bool, Option, none, some, List, [], ◌∷◌, if◌then◌else◌}

-- `operator<` of the key type.
pub record Less {ℓ} (K : Type ℓ) : Type ℓ where
  pub less : K → K → Bool

instance abbrev pub int_less : Less ℤ
int_less = record { less = ltb_ℤ }

instance abbrev pub string_less : Less String
string_less = record { less = λ s t. is_lt (compare s t) }

abbrev pub SortedMap {ℓ κ} : Type ℓ → Type κ → Type (ℓ ⊔ κ)
SortedMap K V = List (K × V)

module _ {ℓ κ} {K : Type ℓ} {V : Type κ} ⦃o : Less K⦄ where
  open o use {less}

  -- `emplace`: an entry that is there stays as it is.
  unfoldable pub emplace : K → V → SortedMap K V → SortedMap K V
  emplace k v [] = (k, v) ∷ []
  emplace k v ((j, w) ∷ m) =
      if less k j
      then (k, v) ∷ (j, w) ∷ m
      else if less j k
      then (j, w) ∷ emplace k v m
      else (j, w) ∷ m

  -- `find`
  unfoldable pub find : K → SortedMap K V → Option V
  find k [] = none
  find k ((j, w) ∷ m) = if less k j then none else if less j k then find k m else some w

  -- A change of the value that the pointer at `k` leads to.
  unfoldable pub replace : K → V → SortedMap K V → SortedMap K V
  replace k v [] = []
  replace k v ((j, w) ∷ m) =
      if less k j then (j, w) ∷ m else if less j k then (j, w) ∷ replace k v m else (j, v) ∷ m

  -- `erase`
  unfoldable pub erase : K → SortedMap K V → SortedMap K V
  erase k [] = []
  erase k ((j, w) ∷ m) = if less k j then (j, w) ∷ m else if less j k then (j, w) ∷ erase k m else m
