-- ===== src/Common/Errors.antt =====
-- A Python call that raises: a result, or the exception that ended it.
use mathlib.Core.Path.{◌≡◌, refl}
use mathlib.Core.Logic.{◌⊎◌, inl, inr}
use mathlib.Core.Bool.{Bool, true, false}

pub data Result {ℓ} (E A : Type ℓ) : Type ℓ where
  ok : A → Result E A
  raise : E → Result E A

infixl 5 ◌>>=◌ ◌>>◌
abbrev pub ◌>>=◌ : {E A B : Type 0} → Result E A → (A → Result E B) → Result E B
ok a >>= f = f a
raise e >>= f = raise e

abbrev pub ◌>>◌ : {E B : Type 0} → Result E Unit → Result E B → Result E B
m >> k = m >>= λ _. k

-- `if c: raise e`
abbrev pub raise_if : {E : Type 0} → Bool → E → Result E Unit
raise_if true e = raise e
raise_if false e = ok tt

-- `except F as e: raise convert(e)`
abbrev pub map_error : {E F A : Type 0} → (F → E) → Result F A → Result E A
map_error f (ok a) = ok a
map_error f (raise e) = raise (f e)

pub Result-cases :
    {E A : Type 0} (r : Result E A) → ((a : A) × (r ≡ ok a)) ⊎ ((e : E) × (r ≡ raise e))
Result-cases (ok a) = inl (a, refl)
Result-cases (raise e) = inr (e, refl)

-- A chain of calls that returns went through each of them.
pub bind_ok :
    {E A B : Type 0} {b : B} (m : Result E A) (f : A → Result E B)
    → (m >>= f) ≡ ok b
    → (a : A) × (m ≡ ok a) × (f a ≡ ok b)
bind_ok (ok a) f e = (a, refl, e)
bind_ok (raise err) f e = absurd (cc)

pub raise_if_ok :
    {E B : Type 0} {b : B} (c : Bool) (err : E) (k : Result E B)
    → (raise_if c err >> k) ≡ ok b
    → (c ≡ false) × (k ≡ ok b)
raise_if_ok true err k e = absurd (cc)
raise_if_ok false err k e = (refl, e)
