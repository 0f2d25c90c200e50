-- ===== src/Policy/Overall.antt =====
-- What `overall_status` says of the outcomes.
use provenex_core.Prelude.{
  ◌≡◌, ◌≢◌, refl, Bool, true, false, not, ◌||◌, List, [], ◌∷◌, ◌++◌, arith, if◌then◌else◌, All,
  All-imp,
}
use provenex_core.Index.{VerificationOutcome, verified, stale, unauthorized, unverified, tampered}
use provenex_core.Policy.{
  VerificationPolicy, should_block, is_verified, any, Status, pass, partial, fail, overall_status,
}

any-append {ℓ} :
    {A : Type ℓ} (f : A → Bool) (xs ys : List A) → any f (xs ++ ys) ≡ (any f xs || any f ys)
unfolding any
any-append f [] ys = refl
any-append f (x ∷ xs) ys = ground (arith, any-append f xs ys)

-- The worse of two statuses.
pub worse : Status → Status → Status
worse fail t = fail
worse partial fail = fail
worse partial partial = partial
worse partial pass = partial
worse pass t = t

pub status_of : Bool → Bool → Status
status_of blocked flawed = if blocked then fail else if flawed then partial else pass

overall_status_eq :
    (os : List VerificationOutcome) (p : VerificationPolicy)
    → overall_status os p ≡ status_of (any (should_block p) os) (any (λ x. not (is_verified x)) os)
unfolding overall_status any status_of
overall_status_eq [] p = refl
overall_status_eq (o ∷ os) p = refl

blocked-flawed :
    (os : List VerificationOutcome) (p : VerificationPolicy)
    → any (should_block p) os ≡ true
    → any (λ x. not (is_verified x)) os ≡ true
unfolding any is_verified should_block
blocked-flawed [] p h = cc
blocked-flawed (verified ∷ os) p h = blocked-flawed os p h
blocked-flawed (stale ∷ os) p h = refl
blocked-flawed (unauthorized ∷ os) p h = refl
blocked-flawed (unverified ∷ os) p h = refl
blocked-flawed (tampered ∷ os) p h = refl

worse-status_of :
    (a b c d : Bool) → worse (status_of a b) (status_of c d) ≡ status_of (a || c) (b || d)
unfolding worse status_of
worse-status_of a b c d = ground arith

-- The status of two batches of outcomes together is the worse of their statuses.
pub overall_status-append :
    (xs ys : List VerificationOutcome) (p : VerificationPolicy)
    → overall_status (xs ++ ys) p ≡ worse (overall_status xs p) (overall_status ys p)
overall_status-append xs ys p = ground (
  arith,
  overall_status_eq (xs ++ ys) p,
  overall_status_eq xs p,
  overall_status_eq ys p,
  any-append (should_block p) xs ys,
  any-append (λ x. not (is_verified x)) xs ys,
  worse-status_of (any (should_block p) xs) (any (λ x. not (is_verified x)) xs)
      (any (should_block p) ys) (any (λ x. not (is_verified x)) ys),
)

any-All {ℓ} :
    {A : Type ℓ} (f : A → Bool) (xs : List A) → any f xs ≡ false → All (λ x. f x ≡ false) xs
unfolding any
any-All f [] h = tt
any-All f (x ∷ xs) h = (ground arith, any-All f xs (ground arith))

All-any {ℓ} :
    {A : Type ℓ} (f : A → Bool) (xs : List A) → All (λ x. f x ≡ false) xs → any f xs ≡ false
unfolding any
All-any f [] h = refl
All-any f (x ∷ xs) h = ground (arith, h.0, All-any f xs h.1)

is_verified-eq : (o : VerificationOutcome) → not (is_verified o) ≡ false → o ≡ verified
unfolding is_verified
is_verified-eq verified h = refl
is_verified-eq stale h = cc
is_verified-eq unauthorized h = cc
is_verified-eq unverified h = cc
is_verified-eq tampered h = cc

eq-is_verified : (o : VerificationOutcome) → o ≡ verified → not (is_verified o) ≡ false
unfolding is_verified
eq-is_verified o h = rw h refl

-- The status is FAIL unless the policy lets every outcome through, and PASS exactly when every
-- outcome is VERIFIED, whatever the policy.
pub overall_status_lem :
    (os : List VerificationOutcome) (p : VerificationPolicy)
    → (overall_status os p ≢ fail → All (λ o. should_block p o ≡ false) os)
      × (All (λ o. should_block p o ≡ false) os → overall_status os p ≢ fail)
      × (overall_status os p ≡ pass → All (λ o. o ≡ verified) os)
      × (All (λ o. o ≡ verified) os → overall_status os p ≡ pass)
unfolding status_of
overall_status_lem os p =
    let e = overall_status_eq os p in
    let i = blocked-flawed os p in
    (
      λ h. any-All (should_block p) os (ground arith),
      λ h. ground (arith, All-any (should_block p) os h),
      λ h. All-imp _ _ os is_verified-eq (any-All (λ x. not (is_verified x)) os (ground arith)),
      λ h. ground (arith, All-any (λ x. not (is_verified x)) os (All-imp _ _ os eq-is_verified h)),
    )
