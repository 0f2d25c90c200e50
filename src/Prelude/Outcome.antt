-- ===== src/Prelude/Outcome.antt =====
-- Calls that return or raise.
use mathlib.Core.Bool.{Bool, true, false}
use mathlib.Core.Path.{◌≡◌, refl, subst}
use provenex_core.Prelude.Tests.{if◌then◌else◌}

-- `recursion_error` is also what a model answers that has used up its fuel.
pub data Error : Type 0 where
  index_error key_error value_error type_error runtime_error : Error
  policy_parse_error unsupported_policy_feature recursion_error : Error
  sink_closed_error os_error integrity_error attribute_error : Error

pub data Result {ℓ} (A : Type ℓ) : Type ℓ where
  ok : A → Result A
  err : Error → Result A

abbrev pub is_ok {ℓ} : {A : Type ℓ} → Result A → Bool
is_ok (ok a) = true
is_ok (err e) = false

infixl 5 ◌>>=◌ ◌>>◌
abbrev pub ◌>>=◌ {ℓ κ} : {A : Type ℓ} {B : Type κ} → Result A → (A → Result B) → Result B
ok a >>= f = f a
err e >>= f = err e

abbrev pub ◌>>◌ {ℓ κ} : {A : Type ℓ} {B : Type κ} → Result A → Result B → Result B
m >> k = m >>= λ _. k

-- Inversion of a successful bind, for proofs where the parts stay shut.
pub >>=-eq-ok {ℓ κ} :
    {A : Type ℓ} {B : Type κ} {out : B} (call : Result A) (next : A → Result B)
    → (call >>= next) ≡ ok out
    → (x : A) × (call ≡ ok x) × (next x ≡ ok out)
>>=-eq-ok (err e) next h = cc
>>=-eq-ok (ok x) next h = (x, refl, h)

-- The call returns, and its value satisfies `P`.
pub data Returns {ℓ κ} {A : Type ℓ} (P : A → Type κ) : Result A → Type (ℓ ⊔ κ) where
  returns : {a : A} → P a → Returns P (ok a)

module _ {ℓ κ} {A : Type ℓ} {P : A → Type κ} where
  pub Returns-bind {ℓ' κ'} :
      {B : Type ℓ'} {Q : B → Type κ'} {r : Result A} {f : A → Result B}
      → Returns P r
      → ((a : A) → P a → Returns Q (f a))
      → Returns Q (r >>= f)
  Returns-bind (returns p) k = k _ p

  pub Returns-value : {r : Result A} → Returns P r → (a : A) × (r ≡ ok a) × P a
  Returns-value (returns {a} p) = (a, refl, p)

  pub Returns-map {κ'} :
      {Q : A → Type κ'} {r : Result A} → Returns P r → ((a : A) → P a → Q a) → Returns Q r
  Returns-map (returns p) k = returns (k _ p)

  pub Returns-at : {r : Result A} {a : A} → Returns P r → r ≡ ok a → P a
  Returns-at (returns p) e = subst P (cc) p

pub ok-injective {ℓ} : {A : Type ℓ} {a b : A} → ok a ≡ ok b → a ≡ b
ok-injective e = cc

-- The value of a call that returns.
abbrev pub value_of {ℓ} : {A : Type ℓ} (m : Result A) → is_ok m ≡ true → A
value_of (ok a) h = a
value_of (err e) h = absurd (cc h)

pub ok-value_of {ℓ} : {A : Type ℓ} (m : Result A) (h : is_ok m ≡ true) → m ≡ ok (value_of m h)
ok-value_of (ok a) h = refl
ok-value_of (err e) h = absurd (cc h)

-- Every value that the call returns satisfies `P`.
pub record Yields {ℓ κ} {A : Type ℓ} (P : A → Type κ) (m : Result A) : Type (ℓ ⊔ κ) where
  pub yielded : (a : A) → m ≡ ok a → P a

module _ {ℓ κ} {A : Type ℓ} {P : A → Type κ} where
  pub Yields-ok : {a : A} → P a → Yields P (ok a)
  Yields-ok p = record { yielded = λ b e. subst P (ok-injective e) p }

  pub Yields-at : {m : Result A} {a : A} → Yields P m → m ≡ ok a → P a
  Yields-at y e = y.yielded _ e

  pub Yields-bind {ℓ'} :
      {B : Type ℓ'} (m : Result B) {f : B → Result A}
      → ((b : B) → m ≡ ok b → Yields P (f b))
      → Yields P (m >>= f)
  Yields-bind (ok b) k = k b refl
  Yields-bind (err x) k = record { yielded = λ a e. absurd (cc e) }

  pub Yields-if :
      (t : Bool) {m n : Result A}
      → (t ≡ true → Yields P m)
      → (t ≡ false → Yields P n)
      → Yields P (if t then m else n)
  Yields-if true y z = y refl
  Yields-if false y z = z refl
