-- ===== src/Policy.antt =====
-- The blocking policy of provenex/policy/policy.py.
mod Tests
pub mod Overall
use provenex_core.Prelude.{
  Bool, true, false, Option, none, some, List, [], ◌∷◌, ◌||◌, not, if◌then◌else◌,
}
use provenex_core.Index.{VerificationOutcome, verified, stale, unauthorized, unverified, tampered}

pub record VerificationPolicy : Type 0 where
  pub block_stale : Bool
  pub block_unauthorized : Bool
  pub block_unverified : Bool
  pub block_tampered : Bool
  pub flag_stale : Bool
  pub flag_unauthorized : Bool
  pub flag_unverified : Bool
  pub flag_tampered : Bool

-- `__post_init__`: an unset `block_unverified` becomes false.
pub post_init : Option Bool → Bool
post_init none = false
post_init (some b) = b

-- The defaults of the fields, with the value given for `block_unverified`, if any.
abbrev pub default_policy : Option Bool → VerificationPolicy
default_policy b = record {
  block_stale = false;
  block_unauthorized = true;
  block_unverified = post_init b;
  block_tampered = true;
  flag_stale = true;
  flag_unauthorized = true;
  flag_unverified = true;
  flag_tampered = true;
}

unfoldable pub should_block : VerificationPolicy → VerificationOutcome → Bool
should_block p verified = false
should_block p stale = p.block_stale
should_block p unauthorized = p.block_unauthorized
should_block p unverified = p.block_unverified
should_block p tampered = p.block_tampered

pub should_flag : VerificationPolicy → VerificationOutcome → Bool
should_flag p verified = false
should_flag p stale = p.flag_stale
should_flag p unauthorized = p.flag_unauthorized
should_flag p unverified = p.flag_unverified
should_flag p tampered = p.flag_tampered

pub data Status : Type 0 where
  pass : Status
  partial : Status
  fail : Status

pub is_verified : VerificationOutcome → Bool
is_verified verified = true
is_verified stale = false
is_verified unauthorized = false
is_verified unverified = false
is_verified tampered = false

unfoldable pub any {ℓ} : {A : Type ℓ} → (A → Bool) → List A → Bool
any f [] = false
any f (x ∷ xs) = f x || any f xs

unfoldable pub overall_status : List VerificationOutcome → VerificationPolicy → Status
unfolding any is_verified should_block
overall_status [] policy = pass
overall_status (o ∷ os) policy =
    let has_block = any (should_block policy) (o ∷ os) in
    let has_non_verified = any (λ x. not (is_verified x)) (o ∷ os) in
    if has_block then fail else if has_non_verified then partial else pass
