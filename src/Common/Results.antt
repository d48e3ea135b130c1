-- ===== src/Common/Results.antt =====
-- Python's exceptions as values, for code that raises before it changes anything.
use mathlib.Core.Path.{◌≡◌, refl}
use mathlib.Core.Logic.{◌⊎◌, inl, inr}
use mathlib.Core.Bool.{Bool, true, false}

pub data Result (E A : Type 0) : Type 0 where
  ok : A → Result E A
  err : E → Result E A

infixl 5 ◌>>=◌ ◌>>◌
abbrev pub ◌>>=◌ : {E A B : Type 0} → Result E A → (A → Result E B) → Result E B
ok a >>= f = f a
err e >>= f = err e

abbrev pub ◌>>◌ : {E B : Type 0} → Result E (Unit {0}) → Result E B → Result E B
m >> k = m >>= λ _. k

-- `if not test: raise e`
abbrev pub check : {E : Type 0} → Bool → E → Result E (Unit {0})
check true e = ok tt
check false e = err e

-- What a chain that succeeds has gone through.
pub >>=-ok :
    {E A B : Type 0} (m : Result E A) (f : A → Result E B) {b : B}
    → (m >>= f) ≡ ok b
    → (a : A) × (m ≡ ok a) × (f a ≡ ok b)
>>=-ok (ok a) f h = (a, refl, h)
>>=-ok (err e) f h = cc

pub check-ok :
    {E B : Type 0} (t : Bool) (e : E) (k : Result E B) {b : B}
    → (check t e >> k) ≡ ok b
    → (t ≡ true) × (k ≡ ok b)
check-ok true e k h = (refl, h)
check-ok false e k h = cc

pub Result-cases :
    {E A : Type 0} (m : Result E A) → ((e : E) × (m ≡ err e)) ⊎ ((a : A) × (m ≡ ok a))
Result-cases (ok a) = inr (a, refl)
Result-cases (err e) = inl (e, refl)

-- A fact about both ways out of a call.
pub either {κ} :
    {E A : Type 0} {B : Type 0} (P : B → Type κ) (m : Result E A) (f : E → B) (g : A → B)
    → ((e : E) → P (f e))
    → ((a : A) → m ≡ ok a → P (g a))
    → P (elim m [ err e ↦ f e | ok a ↦ g a ])
either P (ok a) f g h k = k a refl
either P (err e) f g h k = h e
