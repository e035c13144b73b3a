-- ===== src/Base/Flow.antt =====
-- Results that may be an exception, and computations that carry a state through one.
use mathlib.Core.Path.{◌≡◌, refl, ap}
use mathlib.Core.Bool.{Bool, true, false}
use r_exasol.Base.Tests.{if◌then◌else◌}
use mathlib.Core.Option.{Option, none, some}

pub data Result {ℓ κ} (E : Type ℓ) (A : Type κ) : Type (ℓ ⊔ κ) where
  ok : A → Result E A
  err : E → Result E A

-- State passing with exceptions: the state that a `throw` leaves is kept.
abbrev pub Try : Type 0 → Type 0 → Type 0 → Type 0
Try S E A = S → Result E A × S

abbrev pub pure : {S E A : Type 0} → A → Try S E A
pure a s = (ok a, s)

abbrev pub throw : {S E A : Type 0} → E → Try S E A
throw e s = (err e, s)

abbrev pub then_run : {S E A B : Type 0} → Result E A × S → (A → Try S E B) → Result E B × S
then_run (ok a, s) f = f a s
then_run (err e, s) f = (err e, s)

infixl 5 ◌>>=◌ ◌>>◌
abbrev pub ◌>>=◌ : {S E A B : Type 0} → Try S E A → (A → Try S E B) → Try S E B
◌>>=◌ m f s = then_run (m s) f

abbrev pub ◌>>◌ : {S E B : Type 0} → Try S E (Unit {0}) → Try S E B → Try S E B
m >> k = m >>= λ _. k

-- Throws unless the test holds.
abbrev pub ensure : {S E : Type 0} → Bool → E → Try S E (Unit {0})
ensure true e s = (ok tt, s)
ensure false e s = (err e, s)

abbrev pub or_throw : {S E A : Type 0} → Option A → E → Try S E A
or_throw none e s = (err e, s)
or_throw (some a) e s = (ok a, s)

abbrev pub get : {S E : Type 0} → Try S E S
get s = (ok s, s)

abbrev pub modify : {S E : Type 0} → (S → S) → Try S E (Unit {0})
modify f s = (ok tt, f s)

-- What holds of the state after both parts of a sequence.
pub then_run-holds :
    {S E A B : Type 0} (P : S → Type 0) (m : Result E A × S) (f : A → Try S E B)
    → P m.1
    → ((a : A) (s : S) → P s → P (f a s).1)
    → P (then_run m f).1
then_run-holds P (ok a, s) f h k = k a s h
then_run-holds P (err e, s) f h k = h

-- What a success says of the parts of a computation.
pub then_run-ok :
    {S E A B : Type 0} (m : Result E A × S) (f : A → Try S E B) (b : B) (s' : S)
    → then_run m f ≡ (ok b, s')
    → (a : A) × (s1 : S) × (m ≡ (ok a, s1)) × (f a s1 ≡ (ok b, s'))
then_run-ok (ok a, s) f b s' h = (a, s, refl, h)
then_run-ok (err e, s) f b s' h = absurd (err_ok (ap (λ p. p.0) h))
  where
    err_ok : {E B : Type 0} {e : E} {b : B} → ◌≡◌ {A = Result E B} (err e) (ok b) → ⊥
    err_ok h = cc h

pub or_throw-ok :
    {S E A : Type 0} (o : Option A) (e : E) (s s' : S) (a : A)
    → ◌≡◌ {A = Result E A × S} (or_throw o e s) (ok a, s')
    → (o ≡ some a) × (s ≡ s')
or_throw-ok none e s s' a h = absurd (cc (ap (λ p. p.0) h))
or_throw-ok (some x) e s s' a h = (cc (ap (λ p. p.0) h), ap (λ p. p.1) h)

-- The other way round than `ensure`: the test is the failure.
pub guard-ok :
    {S E : Type 0} (b : Bool) (e : E) (s s' : S)
    → ◌≡◌ {A = Result E (Unit {0}) × S} (if b then (err e, s) else (ok tt, s)) (ok tt, s')
    → (b ≡ false) × (s ≡ s')
guard-ok true e s s' h = absurd (cc (ap (λ p. p.0) h))
guard-ok false e s s' h = (refl, ap (λ p. p.1) h)

-- A property of a success that the last part gives.
pub then_run-ensures :
    {S E A B : Type 0} (P : B → Type 0) (m : Result E A × S) (f : A → Try S E B) (b : B) (s' : S)
    → then_run m f ≡ (ok b, s')
    → ((a : A) (s : S) → f a s ≡ (ok b, s') → P b)
    → P b
then_run-ensures P m f b s' h k = let (a, s, _, h1) = then_run-ok m f b s' h in k a s h1

pub ok-inj :
    {S E A : Type 0} (a b : A) (s s' : S) → ◌≡◌ {A = Result E A × S} (ok a, s) (ok b, s') → a ≡ b
ok-inj a b s s' h = cc (ap (λ p. p.0) h)
