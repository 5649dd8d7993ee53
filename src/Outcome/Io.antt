-- ===== src/Outcome/Io.antt =====
-- Calls that read and change a state `W`. What was changed before an exception stays changed.
pub mod Safety
use clyman.Prelude.{arith, String, ◌≡◌, Bool, List, [], ◌∷◌, if◌then◌else◌}
use clyman.Outcome.{Outcome, ok, throw, crash}

abbrev pub Io : Type 0 → Type 0 → Type 0
Io W A = W → Outcome A × W

abbrev pub pure : {W A : Type 0} → A → Io W A
pure a w = (ok a, w)

abbrev pub raise : {W A : Type 0} → String → Io W A
raise e w = (throw e, w)

abbrev pub lift : {W A : Type 0} → Outcome A → Io W A
lift o w = (o, w)

abbrev continue : {W A B : Type 0} → Outcome A → W → (A → Io W B) → Outcome B × W
continue (ok a) w f = f a w
continue (throw e) w f = (throw e, w)
continue crash w f = (crash, w)

infixl 5 ◌>>=◌ ◌>>◌
abbrev pub ◌>>=◌ : {W A B : Type 0} → Io W A → (A → Io W B) → Io W B
◌>>=◌ m f w = let (r, w') = m w in continue r w' f

abbrev pub ◌>>◌ : {W B : Type 0} → Io W (Unit {0}) → Io W B → Io W B
m >> k = m >>= λ _. k

abbrev handle : {W A : Type 0} → Outcome A → W → (String → Io W A) → Outcome A × W
handle (ok a) w f = (ok a, w)
handle (throw e) w f = f e w
handle crash w f = (crash, w)

-- `try { m } catch (std::exception& e) { f(e.what()) }`
abbrev pub try_catch : {W A : Type 0} → Io W A → (String → Io W A) → Io W A
try_catch m f w = let (r, w') = m w in handle r w' f

abbrev pub when : {W : Type 0} → Bool → Io W (Unit {0}) → Io W (Unit {0})
when b m = if b then m else pure tt

-- A property of the state that each part keeps, whether it returns or not, is kept by the whole.
continue-Keeps :
    {W A B : Type 0} (P : W → Type 0) (o : Outcome A) (w : W) (f : A → Io W B)
    → P w
    → ((a : A) (v : W) → P v → P (f a v).1)
    → P (continue o w f).1
continue-Keeps P (ok a) w f p k = k a w p
continue-Keeps P (throw e) w f p k = p
continue-Keeps P crash w f p k = p

pub bind-Keeps :
    {W A B : Type 0} (P : W → Type 0) (m : Io W A) (f : A → Io W B)
    → ((v : W) → P v → P (m v).1)
    → ((a : A) (v : W) → P v → P (f a v).1)
    → (w : W) → P w
    → P ((m >>= f) w).1
bind-Keeps P m f hm hf w p = continue-Keeps P (m w).0 (m w).1 f (hm w p) hf

continue-steps :
    {W A B : Type 0} (R S : W → Type 0) (o : Outcome A) (w : W) (f : A → Io W B)
    → ((v : W) → R v → S v)
    → R w
    → ((a : A) (v : W) → R v → S (f a v).1)
    → S (continue o w f).1
continue-steps R S (ok a) w f i p k = k a w p
continue-steps R S (throw e) w f i p k = i w p
continue-steps R S crash w f i p k = i w p

-- The same where the property changes on the way.
pub bind-steps :
    {W A B : Type 0} (P R S : W → Type 0) (m : Io W A) (f : A → Io W B)
    → ((v : W) → R v → S v)
    → ((v : W) → P v → R (m v).1)
    → ((a : A) (v : W) → R v → S (f a v).1)
    → (w : W) → P w
    → S ((m >>= f) w).1
bind-steps P R S m f i hm hf w p = continue-steps R S (m w).0 (m w).1 f i (hm w p) hf

-- What a call returns, if it returns, is right for the state that it leaves.
abbrev pub Returns : {W A : Type 0} → (A → W → Type 0) → Io W A → Type 0
Returns {W = W} {A = A} Q m = (w : W) (a : A) (w' : W) → m w ≡ (ok a, w') → Q a w'

continue-Returns :
    {W A B : Type 0} (Q : B → W → Type 0) (o : Outcome A) (w : W) (f : A → Io W B)
    → ((a : A) → Returns Q (f a))
    → (b : B) (w' : W) → continue o w f ≡ (ok b, w')
    → Q b w'
continue-Returns Q (ok a) w f h b w' e = h a w b w' e
continue-Returns Q (throw t) w f h b w' e = ground arith
continue-Returns Q crash w f h b w' e = ground arith

pub bind-Returns :
    {W A B : Type 0} (Q : B → W → Type 0) (m : Io W A) (f : A → Io W B)
    → ((a : A) → Returns Q (f a))
    → Returns Q (m >>= f)
bind-Returns Q m f h w b w' e = continue-Returns Q (m w).0 (m w).1 f h b w' e

abbrev pub Keeps : {W A : Type 0} → (W → Type 0) → Io W A → Type 0
Keeps {W = W} P m = (v : W) → P v → P (m v).1

handle-Keeps :
    {W A : Type 0} (P : W → Type 0) (o : Outcome A) (w : W) (f : String → Io W A)
    → ((e : String) → Keeps P (f e))
    → P w
    → P (handle o w f).1
handle-Keeps P (ok a) w f k p = p
handle-Keeps P (throw e) w f k p = k e w p
handle-Keeps P crash w f k p = p

pub try_catch-Keeps :
    {W A : Type 0} (P : W → Type 0) (m : Io W A) (f : String → Io W A)
    → Keeps P m
    → ((e : String) → Keeps P (f e))
    → Keeps P (try_catch m f)
try_catch-Keeps P m f hm hf w p = handle-Keeps P (m w).0 (m w).1 f hf (hm w p)

-- The same of what is returned, from a state where `P` holds.
abbrev pub Ensures : {W A : Type 0} → (W → Type 0) → Io W A → (A → W → Type 0) → Type 0
Ensures {W = W} {A = A} P m Q = (w : W) → P w → (a : A) (w' : W) → m w ≡ (ok a, w') → Q a w'

continue-Ensures :
    {W A B : Type 0} (P : W → Type 0) (Q : B → W → Type 0) (o : Outcome A) (w : W) (f : A → Io W B)
    → ((a : A) → Ensures P (f a) Q)
    → P w
    → (b : B) (w' : W) → continue o w f ≡ (ok b, w')
    → Q b w'
continue-Ensures P Q (ok a) w f h p b w' e = h a w p b w' e
continue-Ensures P Q (throw t) w f h p b w' e = ground arith
continue-Ensures P Q crash w f h p b w' e = ground arith

pub bind-Ensures :
    {W A B : Type 0} (P R : W → Type 0) (Q : B → W → Type 0) (m : Io W A) (f : A → Io W B)
    → ((v : W) → P v → R (m v).1)
    → ((a : A) → Ensures R (f a) Q)
    → Ensures P (m >>= f) Q
bind-Ensures P R Q m f k h w p b w' e = continue-Ensures R Q (m w).0 (m w).1 f h (k w p) b w' e

-- `for (auto& x : xs) f(x)`, ended by the first exception.
unfoldable pub each : {W A : Type 0} → (A → Io W (Unit {0})) → List A → Io W (Unit {0})
each f [] = pure tt
each f (x ∷ xs) = f x >> each f xs
