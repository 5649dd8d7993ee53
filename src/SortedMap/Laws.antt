-- ===== src/SortedMap/Laws.antt =====
-- Entries that come in the order of their keys.
use Prim.Native.String.{compare}
use text.Mathlib.Text.{is_lt}
use text.Mathlib.TextPositions.{compare_refl}
use clyman.Prelude.{
  ◌≡◌, refl, ap, String, ℤ, pos, negsuc, ltb_ℤ, true, false, none, some, [], ◌∷◌, ◌++◌, arith,
}
use clyman.SortedMap.{Less, SortedMap, emplace, find, replace}

-- No key is less than itself.
pub string_less_refl : (s : String) → is_lt (compare s s) ≡ false
string_less_refl s = ap is_lt (compare_refl s)

pub int_less_refl : (k : ℤ) → ltb_ℤ k k ≡ false
int_less_refl (pos n) = ground arith
int_less_refl (negsuc n) = ground arith

-- A key that is less than another, as the tests see it.
abbrev pub Under {ℓ} : {K : Type ℓ} ⦃o : Less K⦄ → K → K → Type 0
Under ⦃o⦄ j k = (o.less j k ≡ true) × (o.less k j ≡ false)

module _ {ℓ κ} {K : Type ℓ} {V : Type κ} ⦃o : Less K⦄ where
  open o use {less}

  -- All the keys of a map are less than `k`.
  abbrev pub AllUnder : SortedMap K V → K → Type (ℓ ⊔ κ)
  AllUnder [] k = Unit
  AllUnder ((j, w) ∷ m) k = Under j k × AllUnder m k

  pub emplace-last :
      (k : K) (v : V) (m : SortedMap K V) → AllUnder m k → emplace k v m ≡ m ++ (k, v) ∷ []
  unfolding emplace
  emplace-last k v [] h = refl
  emplace-last k v ((j, w) ∷ m) ((a, b), h) = simp (a, b, emplace-last k v m h)

  pub find-last :
      (k : K) (v : V) (m : SortedMap K V)
      → less k k ≡ false
      → AllUnder m k
      → find k (m ++ (k, v) ∷ []) ≡ some v
  unfolding find
  find-last k v [] r h = simp (r)
  find-last k v ((j, w) ∷ m) r ((a, b), h) = simp (a, b, find-last k v m r h)

  pub replace-last :
      (k : K) (v v' : V) (m : SortedMap K V)
      → less k k ≡ false
      → AllUnder m k
      → replace k v' (m ++ (k, v) ∷ []) ≡ m ++ (k, v') ∷ []
  unfolding replace
  replace-last k v v' [] r h = simp (r)
  replace-last k v v' ((j, w) ∷ m) r ((a, b), h) = simp (a, b, replace-last k v v' m r h)

  -- All the keys of a map are greater than `k`.
  abbrev pub AllOver : SortedMap K V → K → Type (ℓ ⊔ κ)
  AllOver [] k = Unit
  AllOver ((j, w) ∷ m) k = Under k j × AllOver m k

  -- All the keys of the first map are less than all the keys of the second.
  abbrev pub Before : SortedMap K V → SortedMap K V → Type (ℓ ⊔ κ)
  Before m [] = Unit
  Before m ((k, v) ∷ n) = AllUnder m k × Before m n

  AllUnder-append :
      (m n : SortedMap K V) (k : K) → AllUnder m k → AllUnder n k → AllUnder (m ++ n) k
  AllUnder-append [] n k h g = g
  AllUnder-append ((j, w) ∷ m) n k (a, h) g = (a, AllUnder-append m n k h g)

  -- The next entry goes over to the first map.
  pub Before-shift :
      (m n : SortedMap K V) (k : K) (v : V) → Before m n → AllOver n k → Before (m ++ (k, v) ∷ []) n
  Before-shift m [] k v h g = tt
  Before-shift m ((j, w) ∷ n) k v (a, h) (b, g) =
      (AllUnder-append m ((k, v) ∷ []) j a (b, tt), Before-shift m n k v h g)

  pub Before-nil : (n : SortedMap K V) → Before [] n
  Before-nil [] = tt
  Before-nil ((k, v) ∷ n) = (tt, Before-nil n)

  -- The keys ascend.
  abbrev pub IsAscending : SortedMap K V → Type (ℓ ⊔ κ)
  IsAscending [] = Unit
  IsAscending ((k, v) ∷ m) = AllOver m k × IsAscending m

  -- A key above all others is not there.
  pub find-none : (k : K) (m : SortedMap K V) → AllUnder m k → find k m ≡ none
  unfolding find
  find-none k [] h = refl
  find-none k ((j, w) ∷ m) ((a, b), h) = simp (a, b, find-none k m h)
