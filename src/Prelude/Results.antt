-- ===== src/Prelude/Results.antt =====
-- A value or one of the errors of a component, and its `do` blocks.
use mathlib.Core.Path.{◌≡◌, refl, sym}
use mathlib.Core.Bool.{Bool, true, false}
use mathlib.Core.Logic.{◌⊎◌, inl, inr}

pub data Result {ℓ κ} (E : Type ℓ) (A : Type κ) : Type (ℓ ⊔ κ) where
  ok : A → Result E A
  err : E → Result E A

-- An early return: goes on if the test fails, as `if test { return err }` does.
abbrev pub fail_if {ℓ} : {E : Type ℓ} → Bool → E → Result E (Unit {0})
fail_if true why = err why
fail_if false why = ok tt

infixl 5 ◌>>=◌ ◌>>◌
abbrev pub ◌>>=◌ {ℓ κ ι} :
    {E : Type ℓ} {A : Type κ} {B : Type ι} → Result E A → (A → Result E B) → Result E B
err why >>= next = err why
ok found >>= next = next found

abbrev pub ◌>>◌ {ℓ κ} : {E : Type ℓ} {B : Type κ} → Result E (Unit {0}) → Result E B → Result E B
check >> rest = check >>= λ done. rest

pub Result-cases {ℓ κ} :
    {E : Type ℓ} {A : Type κ} (r : Result E A) → ((a : A) × (r ≡ ok a)) ⊎ ((e : E) × (r ≡ err e))
Result-cases (ok a) = inl (a, refl)
Result-cases (err e) = inr (e, refl)

-- Inversion of a successful bind.
pub >>=-eq-ok {ℓ κ ι} :
    {E : Type ℓ} {A : Type κ} {B : Type ι} (r : Result E A) (next : A → Result E B) {last : B}
    → (r >>= next) ≡ ok last
    → (found : A) × (r ≡ ok found) × (next found ≡ ok last)
>>=-eq-ok (err why) next h = cc
>>=-eq-ok (ok found) next h = (found, refl, h)

pub ok-injective {ℓ κ} :
    {E : Type ℓ} {A : Type κ} {a b : A} → ◌≡◌ {A = Result E A} (ok a) (ok b) → a ≡ b
ok-injective h = cc

pub ok_pair {ℓ κ ι} :
    {E : Type ℓ} {A : Type κ} {B : Type ι} {a c : A} {b d : B}
    → ◌≡◌ {A = Result E (A × B)} (ok (a, b)) (ok (c, d))
    → (c ≡ a) × (d ≡ b)
ok_pair h = let p = ok-injective h in (λ i. (sym p i).0, λ i. (sym p i).1)

pub fail_if-ok {ℓ} : {E : Type ℓ} (t : Bool) (e : E) {u : Unit {0}} → fail_if t e ≡ ok u → t ≡ false
fail_if-ok true e h = cc
fail_if-ok false e h = refl
