-- ===== src/Base/Methods.antt =====
-- Methods that change a state and may fail. What was written before a failure stays written, so
-- the state comes back beside the error too.
use mathlib.Core.Path.{◌≡◌, refl}
use mathlib.Core.Logic.{◌⊎◌, inl, inr}
use mathlib.Core.Bool.{Bool, true, false}
use mathlib.Core.Option.{Option, none, some}

pub data Result {ℓ} (E A : Type ℓ) : Type ℓ where
  ok : A → Result E A
  err : E → Result E A

abbrev pub Action {ℓ} : Type ℓ → Type ℓ → Type ℓ → Type ℓ
Action S E A = S → Result E A × S

module _ {ℓ} {S E A : Type ℓ} where
  abbrev pub pure : A → Action S E A
  pure a s = (ok a, s)

  abbrev pub raise : E → Action S E A
  raise e s = (err e, s)

module _ {ℓ} {S E A B : Type ℓ} where
  abbrev pub continue : Result E A → (A → Action S E B) → Action S E B
  continue (ok a) f s = f a s
  continue (err e) f s = (err e, s)

  infixl 10 ◌>>=◌ ◌>>◌
  abbrev pub ◌>>=◌ : Action S E A → (A → Action S E B) → Action S E B
  ◌>>=◌ m f s = continue (m s).0 f (m s).1

  abbrev pub ◌>>◌ : Action S E A → Action S E B → Action S E B
  m >> n = m >>= λ _. n

-- The same method with its error translated.
abbrev pub map_err {ℓ} : {E F A : Type ℓ} → (E → F) → Result E A → Result F A
map_err f (ok a) = ok a
map_err f (err e) = err (f e)

abbrev pub on_error {ℓ} : {S E F A : Type ℓ} → (E → F) → Action S E A → Action S F A
on_error f m s = (map_err f (m s).0, (m s).1)

abbrev pub from_option {ℓ} : {S E A : Type ℓ} → E → Option A → Action S E A
from_option e none s = (err e, s)
from_option e (some a) s = (ok a, s)

abbrev pub check {ℓ} : {S E : Type ℓ} → Bool → E → Action S E (Unit {ℓ})
check true e s = (ok tt, s)
check false e s = (err e, s)

pub Result-cases {ℓ} :
    {E A : Type ℓ} (x : Result E A) → ((a : A) × (x ≡ ok a)) ⊎ ((e : E) × (x ≡ err e))
Result-cases (ok a) = inl (a, refl)
Result-cases (err e) = inr (e, refl)
