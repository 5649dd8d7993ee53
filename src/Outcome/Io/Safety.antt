-- ===== src/Outcome/Io/Safety.antt =====
-- Calls that never end in undefined behaviour, with what holds of the state where they return and
-- where they throw.
use clyman.Prelude.{String, ◌≡◌, refl, ◌≢◌, Bool, true, false, if◌then◌else◌}
use clyman.Outcome.{Outcome, ok, throw, crash}
use clyman.Outcome.Io.{Io, ◌>>=◌, continue, try_catch, handle, when, lift}

abbrev pub Ends : {W A : Type 0} → (A → W → Type 0) → (W → Type 0) → Outcome A × W → Type 0
Ends Q T (ok a, w) = Q a w
Ends Q T (throw e, w) = T w
Ends Q T (crash, w) = ⊥

-- From a state with `P` the call returns with `Q`, or throws with `T`.
abbrev pub IsSafe :
    {W A : Type 0} → (W → Type 0) → Io W A → (A → W → Type 0) → (W → Type 0) → Type 0
IsSafe {W = W} P m Q T = (w : W) → P w → Ends Q T (m w)

module _ {W A B : Type 0} (Q : A → W → Type 0) (R : B → W → Type 0) (T : W → Type 0) where
  continue-IsSafe :
      (o : Outcome A) (w : W) (f : A → Io W B)
      → Ends Q T (o, w)
      → ((a : A) → IsSafe (Q a) (f a) R T)
      → Ends R T (continue o w f)
  continue-IsSafe (ok a) w f h k = k a w h
  continue-IsSafe (throw e) w f h k = h
  continue-IsSafe crash w f h k = absurd h

  pub bind-IsSafe :
      (P : W → Type 0) (m : Io W A) (f : A → Io W B)
      → IsSafe P m Q T
      → ((a : A) → IsSafe (Q a) (f a) R T)
      → IsSafe P (m >>= f) R T
  bind-IsSafe P m f hm hf w p = continue-IsSafe (m w).0 (m w).1 f (hm w p) hf

module _ {W A : Type 0} (Q : A → W → Type 0) (T U : W → Type 0) where
  handle-IsSafe :
      (o : Outcome A) (w : W) (f : String → Io W A)
      → Ends Q T (o, w)
      → ((e : String) → IsSafe T (f e) Q U)
      → Ends Q U (handle o w f)
  handle-IsSafe (ok a) w f h k = h
  handle-IsSafe (throw e) w f h k = k e w h
  handle-IsSafe crash w f h k = absurd h

  pub try_catch-IsSafe :
      (P : W → Type 0) (m : Io W A) (f : String → Io W A)
      → IsSafe P m Q T
      → ((e : String) → IsSafe T (f e) Q U)
      → IsSafe P (try_catch m f) Q U
  try_catch-IsSafe P m f hm hf w p = handle-IsSafe (m w).0 (m w).1 f (hm w p) hf

pub when-IsSafe :
    {W : Type 0} (P T : W → Type 0) (b : Bool) (m : Io W (Unit {0}))
    → IsSafe P m (λ _. P) T
    → IsSafe P (when b m) (λ _. P) T
when-IsSafe P T true m h w p = h w p
when-IsSafe P T false m h w p = p

pub if-IsSafe :
    {W A : Type 0} (P T : W → Type 0) (Q : A → W → Type 0) (b : Bool) (m k : Io W A)
    → IsSafe P m Q T
    → IsSafe P k Q T
    → IsSafe P (if b then m else k) Q T
if-IsSafe P T Q true m k h g w p = h w p
if-IsSafe P T Q false m k h g w p = g w p

pub lift-IsSafe :
    {W A : Type 0} (P : W → Type 0) (o : Outcome A) → o ≢ crash → IsSafe P (lift o) (λ _. P) P
lift-IsSafe P (ok a) n w p = p
lift-IsSafe P (throw e) n w p = p
lift-IsSafe P crash n w p = absurd (n refl)

-- The call returns.
abbrev pub IsAnswered : {W A : Type 0} → Io W A → W → Type 0
IsAnswered {W = W} {A = A} m w = (r : A × W) × (m w ≡ (ok r.0, r.1))

answered :
    {W A : Type 0} (Q : A → W → Type 0) (x : Outcome A × W)
    → Ends Q (λ _. ⊥) x
    → (r : A × W) × (x ≡ (ok r.0, r.1))
answered Q (ok a, w) h = ((a, w), refl)
answered Q (throw e, w) h = absurd h
answered Q (crash, w) h = absurd h

-- A safe call that throws nothing returns.
pub safe-IsAnswered :
    {W A : Type 0} (P : W → Type 0) (Q : A → W → Type 0) (m : Io W A)
    → IsSafe P m Q (λ _. ⊥)
    → (w : W) → P w
    → IsAnswered m w
safe-IsAnswered P Q m h w p = answered Q (m w) (h w p)
