-- ===== src/Prelude/Results.antt =====
-- Python exceptions as values: a computation returns, or raises an `Error`, which carries the
-- class of the exception and the words by which the `raise` is known.
use Prim.Native.String.{String}
use mathlib.Core.Path.{◌≡◌, refl, subst}
use mathlib.Core.Logic.{◌⊎◌, ◌↔◌, inl, inr}
use mathlib.Core.Bool.{Bool, true, false}

-- The exception classes of the modelled modules. pydantic's ValidationError is a ValueError.
pub data Error : Type 0 where
  type_error : String → Error
  value_error : String → Error
  operator_authorization_error : String → Error
  run_not_found_error : Error
  resource_conflict : String → Error
  -- of the isolated features' JSON-RPC, a ValueError
  protocol_error : String → Error
  inference_lease_constraint_error : String → Error
  inference_lease_ownership_error : Error
  json_type_error : String → Error
  json_limit_error : String → Error
  -- the interpreter's own, when the stack of calls is used up
  recursion_error : Error

pub data Result {ℓ} (A : Type ℓ) : Type ℓ where
  ok : A → Result A
  err : Error → Result A

-- A method that returns None, or raises.
abbrev pub Check : Type 0
Check = Result (Unit {0})

infixl 5 ◌>>=◌ ◌>>◌
abbrev pub ◌>>=◌ {ℓ κ} : {A : Type ℓ} {B : Type κ} → Result A → (A → Result B) → Result B
err error >>= next = err error
ok value >>= next = next value

abbrev pub ◌>>◌ {ℓ κ} : {A : Type ℓ} {B : Type κ} → Result A → Result B → Result B
first >> second = first >>= λ _. second

-- `if test: raise error`
abbrev pub raise_if : Bool → Error → Check
raise_if true e = err e
raise_if false e = ok tt

-- What a chain that returns went through.
module _ {ℓ κ} {A : Type ℓ} {B : Type κ} where
  pub >>=-eq-ok :
      (first : Result A) (next : A → Result B) {last : B}
      → (first >>= next) ≡ ok last
      → (value : A) × (first ≡ ok value) × (next value ≡ ok last)
  >>=-eq-ok (err error) next h = cc
  >>=-eq-ok (ok value) next h = (value, refl, h)

pub Result-cases {ℓ} :
    {A : Type ℓ} (m : Result A) → ((a : A) × (m ≡ ok a)) ⊎ ((e : Error) × (m ≡ err e))
Result-cases (ok a) = inl (a, refl)
Result-cases (err e) = inr (e, refl)

pub ok-injective {ℓ} : {A : Type ℓ} {a b : A} → ok a ≡ ok b → a ≡ b
ok-injective h = cc

-- What a chain of two steps and a pure result returns is what its parts return.
pub returns_by {ℓ} : {A : Type ℓ} (P : A → Type ℓ) {a b : A} → ok a ≡ ok b → P a → P b
returns_by P h p = subst P (ok-injective h) p

-- Whatever a computation returns has a property.
pub record Ensures {ℓ κ} {A : Type ℓ} (P : A → Type κ) (m : Result A) : Type (ℓ ⊔ κ) where
  pub holds : (a : A) → m ≡ ok a → P a

pub Ensures-ok {ℓ κ} : {A : Type ℓ} (P : A → Type κ) (a : A) → P a → Ensures P (ok a)
Ensures-ok P a p = record { holds = λ b h. subst P (ok-injective h) p }

pub Ensures-err {ℓ κ} : {A : Type ℓ} (P : A → Type κ) (e : Error) → Ensures P (err e)
Ensures-err P e = record { holds = λ b h. cc }

pub Ensures-bind {ℓ κ μ} :
    {A : Type ℓ} {B : Type κ} (P : B → Type μ) (first : Result A) (next : A → Result B)
    → ((a : A) → first ≡ ok a → Ensures P (next a))
    → Ensures P (first >>= next)
Ensures-bind P first next step = record {
  holds = λ b h. let (a, e, last) = >>=-eq-ok first next h in (step a e).holds b last;
}

-- Both of two checks pass.
pub both_iff : (m k : Check) → ((m >> k) ≡ ok tt) ↔ ((m ≡ ok tt) × (k ≡ ok tt))
both_iff (ok u) k = (λ h. (refl, h), λ h. h.1)
both_iff (err e) k = (λ h. cc, λ h. h.0)

pub raise_if_iff : (b : Bool) (e : Error) → (raise_if b e ≡ ok tt) ↔ (b ≡ false)
raise_if_iff true e = (λ h. cc, λ h. cc)
raise_if_iff false e = (λ h. refl, λ h. refl)
