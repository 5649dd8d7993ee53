-- ===== src/Outcome.antt =====
-- How a C++ call ends: it returns, it throws, or its behaviour is undefined.
pub mod Io
use clyman.Prelude.{
  String, List, [], ◌∷◌, ◌++◌, Option, none, some, ◌≡◌, refl, ap, sym, ◌∙◌, fun_ext,
}

-- `throw` carries what `what()` says. `crash` is undefined behaviour or a failed assertion: an index
-- out of range, a null pointer, or a member of a JSON value that has none.
pub data Outcome {ℓ} (A : Type ℓ) : Type ℓ where
  ok : A → Outcome A
  throw : String → Outcome A
  crash : Outcome A

infixl 5 ◌>>=◌
abbrev pub ◌>>=◌ {ℓ κ} : {A : Type ℓ} {B : Type κ} → Outcome A → (A → Outcome B) → Outcome B
ok a >>= f = f a
throw e >>= f = throw e
crash >>= f = crash

-- A pointer that must not be null, an index that must be in range.
abbrev pub or_crash {ℓ} : {A : Type ℓ} → Option A → Outcome A
or_crash none = crash
or_crash (some a) = ok a

-- `for (auto& x : xs) s = f(s, x)`, ended by the first exception.
module _ {ℓ κ} {A : Type ℓ} {S : Type κ} (f : S → A → Outcome S) where
  unfoldable pub for_each : S → List A → Outcome S
  for_each s [] = ok s
  for_each s (x ∷ xs) = f s x >>= λ s'. for_each s' xs

-- The pieces that a loop writes, one after another.
module _ {ℓ κ} {A : Type ℓ} {B : Type κ} (f : A → Outcome (List B)) where
  unfoldable pub gather : List A → Outcome (List B)
  gather [] = ok []
  gather (x ∷ xs) = f x >>= λ ys. gather xs >>= λ zs. ok (ys ++ zs)

bind_assoc {ℓ κ ξ} :
    {A : Type ℓ} {B : Type κ} {C : Type ξ} (m : Outcome A) (f : A → Outcome B) (g : B → Outcome C)
    → (m >>= f) >>= g ≡ (m >>= λ a. f a >>= g)
bind_assoc (ok a) f g = refl
bind_assoc (throw e) f g = refl
bind_assoc crash f g = refl

-- A loop over two lists is a loop over the first and then one over the second.
pub for_each-append {ℓ κ} :
    {A : Type ℓ} {S : Type κ} (f : S → A → Outcome S) (s : S) (xs ys : List A)
    → for_each f s (xs ++ ys) ≡ (for_each f s xs >>= λ s'. for_each f s' ys)
unfolding for_each
for_each-append f s [] ys = refl
for_each-append f s (x ∷ xs) ys =
    ap (λ k. f s x >>= k) (fun_ext (λ s'. for_each-append f s' xs ys))
    ∙ sym (bind_assoc (f s x) (λ s'. for_each f s' xs) (λ s'. for_each f s' ys))
