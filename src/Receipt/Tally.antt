-- ===== src/Receipt/Tally.antt =====
-- How many sources have an outcome and how many decisions deny, counted apart from the summary.
use mathlib.Core.List.{Memᴰ}
use provenex_core.Prelude.{
  ℕ, suc, ◌+◌, ◌≡◌, ◌≢◌, ◌⊎◌, inl, inr, refl, sym, ap, subst, ◌∙◌, true, false, Option, none, some,
  List, [], ◌∷◌, length, arith, ok, ok-injective, Bool-cases, nat_eq, list_eq,
}
use provenex_core.Text.{codes, text_eq_iff}
use provenex_core.Value.{Value, null, bool, int, text, seq, dict, other, get}
use provenex_core.Index.{VerificationOutcome, verified, stale, unauthorized, unverified, tampered}
use provenex_core.Receipt.{SourceRecord, Summary}
use provenex_core.Receipt.Builder.{increment, count_sources, summarize, is_deny, count_decisions}

-- How many of the list satisfy `P`.
pub data Tally {ℓ} {A : Type ℓ} (P : A → Type 0) : List A → ℕ → Type ℓ where
  none_left : Tally P [] 0
  counted : {a : A} {as' : List A} {n : ℕ} → P a → Tally P as' n → Tally P (a ∷ as') (suc n)
  skipped : {a : A} {as' : List A} {n : ℕ} → (P a → ⊥) → Tally P as' n → Tally P (a ∷ as') n

-- A tally of zero is of a list where none satisfies `P`.
pub Tally-zero {ℓ} :
    {A : Type ℓ} {P : A → Type 0} {xs : List A} {n : ℕ}
    → Tally P xs n
    → n ≡ 0
    → (a : A) → Memᴰ a xs
    → P a
    → ⊥
Tally-zero none_left e a m p = elim m [ ]
Tally-zero (counted q t) e a m p = cc
Tally-zero {P = P} (skipped q t) e a (Memᴰ.head same) p = q (subst P same p)
Tally-zero (skipped q t) e a (Memᴰ.tail m) p = Tally-zero t e a m p

pub Tally-none {ℓ} :
    {A : Type ℓ} {P : A → Type 0} {xs : List A} {n : ℕ}
    → Tally P xs n
    → ((a : A) → Memᴰ a xs → P a → ⊥)
    → n ≡ 0
Tally-none none_left h = refl
Tally-none (counted q t) h = absurd (h _ (Memᴰ.head refl) q)
Tally-none (skipped q t) h = Tally-none t (λ a m. h a (Memᴰ.tail m))

abbrev pub count_of : VerificationOutcome → Summary → ℕ
count_of verified c = c.verified_count
count_of stale c = c.stale_count
count_of unauthorized c = c.unauthorized_count
count_of unverified c = c.unverified_count
count_of tampered c = c.tampered_count

-- One more source of an outcome is one more under it, and under no other.
increment-count_of :
    (o p : VerificationOutcome) (c : Summary)
    → ((o ≡ p) × (count_of p (increment o c) ≡ suc (count_of p c)))
      ⊎ ((o ≢ p) × (count_of p (increment o c) ≡ count_of p c))
unfolding summarize
increment-count_of verified verified c = inl (refl, refl)
increment-count_of verified stale c = inr (λ e. cc, refl)
increment-count_of verified unauthorized c = inr (λ e. cc, refl)
increment-count_of verified unverified c = inr (λ e. cc, refl)
increment-count_of verified tampered c = inr (λ e. cc, refl)
increment-count_of stale verified c = inr (λ e. cc, refl)
increment-count_of stale stale c = inl (refl, refl)
increment-count_of stale unauthorized c = inr (λ e. cc, refl)
increment-count_of stale unverified c = inr (λ e. cc, refl)
increment-count_of stale tampered c = inr (λ e. cc, refl)
increment-count_of unauthorized verified c = inr (λ e. cc, refl)
increment-count_of unauthorized stale c = inr (λ e. cc, refl)
increment-count_of unauthorized unauthorized c = inl (refl, refl)
increment-count_of unauthorized unverified c = inr (λ e. cc, refl)
increment-count_of unauthorized tampered c = inr (λ e. cc, refl)
increment-count_of unverified verified c = inr (λ e. cc, refl)
increment-count_of unverified stale c = inr (λ e. cc, refl)
increment-count_of unverified unauthorized c = inr (λ e. cc, refl)
increment-count_of unverified unverified c = inl (refl, refl)
increment-count_of unverified tampered c = inr (λ e. cc, refl)
increment-count_of tampered verified c = inr (λ e. cc, refl)
increment-count_of tampered stale c = inr (λ e. cc, refl)
increment-count_of tampered unauthorized c = inr (λ e. cc, refl)
increment-count_of tampered unverified c = inr (λ e. cc, refl)
increment-count_of tampered tampered c = inl (refl, refl)

-- The source has the outcome `o`.
unfoldable pub HasOutcome : VerificationOutcome → SourceRecord → Type 0
HasOutcome o s = s.verification_outcome ≡ o

pub count_sources-Tally :
    (ss : List SourceRecord) (o : VerificationOutcome) (c : Summary)
    → (n : ℕ) × Tally (HasOutcome o) ss n × (count_of o (count_sources ss c) ≡ n + count_of o c)
unfolding summarize HasOutcome
count_sources-Tally [] o c = (0, none_left, omega arith)
count_sources-Tally (s ∷ ss) o c =
    let (n, t, e) = count_sources-Tally ss o (increment s.verification_outcome c) in
    elim (increment-count_of s.verification_outcome o c) [
      | inl (same, i) ↦ (suc n, counted same t, omega (arith, e, i))
      | inr (other_one, i) ↦ (n, skipped other_one t, omega (arith, e, i))
    ]

-- Counting sources changes neither the total, nor the status, nor the actions.
unfoldable pub Kept : Summary → Summary → Type 0
Kept c d =
    (d.total_chunks ≡ c.total_chunks)
    × ((d.status ≡ c.status) × (d.action_counts ≡ c.action_counts))

increment-Kept : (o : VerificationOutcome) (c : Summary) → Kept c (increment o c)
unfolding summarize Kept
increment-Kept verified c = (refl, (refl, refl))
increment-Kept stale c = (refl, (refl, refl))
increment-Kept unauthorized c = (refl, (refl, refl))
increment-Kept unverified c = (refl, (refl, refl))
increment-Kept tampered c = (refl, (refl, refl))

pub count_sources-Kept : (ss : List SourceRecord) (c : Summary) → Kept c (count_sources ss c)
unfolding summarize Kept
count_sources-Kept [] c = (refl, (refl, refl))
count_sources-Kept (s ∷ ss) c =
    let (n, (st, a)) = count_sources-Kept ss (increment s.verification_outcome c) in
    let (n', (st', a')) = increment-Kept s.verification_outcome c in (n ∙ n', (st ∙ st', a ∙ a'))

-- The decision is a dictionary that says deny.
unfoldable pub IsDenial : Value → Type 0
IsDenial (dict d) = get (codes "decision") d ≡ some (text (codes "deny"))
IsDenial _ = ⊥

is_deny_lem : (o : Option Value) → is_deny o ≡ true → o ≡ some (text (codes "deny"))
is_deny_lem (some (text s)) h = ap (λ t. some (text t)) ((text_eq_iff s (codes "deny")).0 h)
is_deny_lem none h = cc
is_deny_lem (some null) h = cc
is_deny_lem (some (bool b)) h = cc
is_deny_lem (some (int z)) h = cc
is_deny_lem (some (seq vs)) h = cc
is_deny_lem (some (dict fs)) h = cc
is_deny_lem (some (other n)) h = cc

denial_cases :
    (o : Option Value)
    → ((is_deny o ≡ true) × (o ≡ some (text (codes "deny"))))
      ⊎ ((is_deny o ≡ false) × (o ≢ some (text (codes "deny"))))
denial_cases o = elim (Bool-cases (is_deny o)) [
  | inl e ↦ inl (e, is_deny_lem o e)
  | inr e ↦ inr (e, λ q. let denied : is_deny o ≡ true = rw q refl in cc)
]

-- The loop over the decisions counts those that deny, and the others.
pub count_decisions-Tally :
    (ds : List Value) (a n : ℕ) (out : ℕ × ℕ)
    → count_decisions ds a n ≡ ok out
    → (k : ℕ) × Tally IsDenial ds k × (out.1 ≡ k + n) × (out.0 + out.1 ≡ length ds + (a + n))
unfolding summarize IsDenial
count_decisions-Tally [] a n out h =
    let denied = ap (λ x. x.1) (sym (ok-injective h)) in
    let both = ap (λ x. x.0 + x.1) (sym (ok-injective h)) in
    (0, none_left, omega (arith, denied), omega (arith, both))
count_decisions-Tally (dict d ∷ ds) a n out h = elim (denial_cases (get (codes "decision") d)) [
  | inl (e, q) ↦
      let (k, t, f, g) = count_decisions-Tally ds a (suc n) out (rw e at h) in
      (suc k, counted q t, omega (arith, f), omega (arith, g))
  | inr (e, q) ↦
      let (k, t, f, g) = count_decisions-Tally ds (suc a) n out (rw e at h) in
      (k, skipped q t, f, omega (arith, g))
]
count_decisions-Tally (null ∷ ds) a n out h = absurd (cc h)
count_decisions-Tally (bool b ∷ ds) a n out h = absurd (cc h)
count_decisions-Tally (int z ∷ ds) a n out h = absurd (cc h)
count_decisions-Tally (text s ∷ ds) a n out h = absurd (cc h)
count_decisions-Tally (seq vs ∷ ds) a n out h = absurd (cc h)
count_decisions-Tally (other m ∷ ds) a n out h = absurd (cc h)
