-- ===== src/Receipt/Counts.antt =====
-- The counts and the status of a summary.
use mathlib.Core.List.{Memᴰ}
use provenex_core.Prelude.{
  ℕ, ◌+◌, ◌≡◌, ◌≢◌, refl, sym, ap, subst, ◌∙◌, ◌↔◌, Bool, true, false, Option, none, some, List, [],
  ◌∷◌, map, length, arith, ok, >>=-eq-ok, ok-injective, All, ltb,
}
use provenex_core.Text.{codes}
use provenex_core.Value.{Value, null, bool, int, text, seq, dict, other, Fields, get, elements}
use provenex_core.Index.{VerificationOutcome, verified, stale, unauthorized, unverified, tampered}
use provenex_core.Policy.{Status, pass, partial, fail, overall_status, should_block}
use provenex_core.Policy.Overall.{overall_status_lem}
use provenex_core.Receipt.{ActionRecord, ActionCounts, Summary}
use provenex_core.Receipt.Builder.{
  ReceiptBuilder, action_counts_of, any_denied, combine, no_sources, summarize, count_decisions,
  decision_values,
}
use provenex_core.Receipt.Tally.{
  Tally, Tally-zero, Tally-none, HasOutcome, count_of, count_sources-Tally, count_sources-Kept,
  Kept, IsDenial, count_decisions-Tally,
}

no_sources-count_of :
    (o : VerificationOutcome) (m n : ℕ) (a : Option ActionCounts) (s : Status)
    → m + count_of o (no_sources n a s) ≡ m
no_sources-count_of verified m n a s = omega arith
no_sources-count_of stale m n a s = omega arith
no_sources-count_of unauthorized m n a s = omega arith
no_sources-count_of unverified m n a s = omega arith
no_sources-count_of tampered m n a s = omega arith

combine-fail : (s : Status) (b : Bool) → (combine s b ≢ fail) ↔ ((s ≢ fail) × (b ≡ false))
unfolding summarize
combine-fail fail b = (λ h. absurd (h refl), λ h. absurd (h.0 refl))
combine-fail partial true = (λ h. absurd (h refl), λ h. absurd (cc h.1))
combine-fail partial false = (λ h. (h, refl), λ h. h.0)
combine-fail pass true = (λ h. absurd (h refl), λ h. absurd (cc h.1))
combine-fail pass false = (λ h. (h, refl), λ h. h.0)

combine-pass : (s : Status) (b : Bool) → (combine s b ≡ pass) ↔ ((s ≡ pass) × (b ≡ false))
unfolding summarize
combine-pass fail b = (λ h. absurd (cc h), λ h. absurd (cc h.0))
combine-pass partial true = (λ h. absurd (cc h), λ h. absurd (cc h.0))
combine-pass partial false = (λ h. absurd (cc h), λ h. absurd (cc h.0))
combine-pass pass true = (λ h. absurd (cc h), λ h. absurd (cc h.1))
combine-pass pass false = (λ h. (refl, refl), λ h. refl)

-- The decisions that a receipt with actions has on record.
unfoldable pub decisions_on : List ActionRecord → Option Fields → List Value
decisions_on [] control = []
decisions_on (a ∷ as') none = []
decisions_on (a ∷ as') (some control) = elim (get (codes "decisions") control) [
  | some (seq vs) ↦ elements vs
  | _ ↦ []
]

-- No recorded decision denies an action.
unfoldable pub NoDenial : List Value → Type 0
NoDenial ds = (v : Value) → Memᴰ v ds → IsDenial v → ⊥

-- The counts of the actions: there are none without actions; without a policy for tool calls every
-- action is allowed; and under one the recorded decisions that deny are counted, and the others.
unfoldable pub CountsActions : List ActionRecord → Option Fields → Option ActionCounts → Type 0
CountsActions [] control counts = counts ≡ none
CountsActions (a ∷ as') none counts =
    counts
    ≡ some (record {
      total_actions = length (a ∷ as');
      actions_allowed = length (a ∷ as');
      actions_denied = 0;
    })
CountsActions (a ∷ as') (some control) counts =
    (c : ActionCounts) × (counts ≡ some c)
    × (c.total_actions ≡ length (a ∷ as'))
    × Tally IsDenial (decisions_on (a ∷ as') (some control)) c.actions_denied
    × (c.actions_allowed + c.actions_denied ≡ length (decisions_on (a ∷ as') (some control)))

decision_values_lem :
    (o : Option Value) (ds : List Value)
    → decision_values o ≡ ok ds
    → elim o [ some (seq vs) ↦ elements vs | _ ↦ [] ] ≡ ds
unfolding summarize
decision_values_lem none ds h = ok-injective h
decision_values_lem (some (seq vs)) ds h = ok-injective h
decision_values_lem (some null) ds h = absurd (cc h)
decision_values_lem (some (bool b)) ds h = absurd (cc h)
decision_values_lem (some (int z)) ds h = absurd (cc h)
decision_values_lem (some (text s)) ds h = absurd (cc h)
decision_values_lem (some (dict fs)) ds h = absurd (cc h)
decision_values_lem (some (other n)) ds h = absurd (cc h)

action_counts_of-CountsActions :
    (actions : List ActionRecord) (control : Option Fields) (counts : Option ActionCounts)
    → action_counts_of actions control ≡ ok counts
    → CountsActions actions control counts
unfolding summarize CountsActions decisions_on
action_counts_of-CountsActions [] control counts h = sym (ok-injective h)
action_counts_of-CountsActions (a ∷ as') none counts h = sym (ok-injective h)
action_counts_of-CountsActions (a ∷ as') (some control) counts h =
    let (ds, d, h₁) = >>=-eq-ok (decision_values (get (codes "decisions") control)) _ h in
    let (out, n, h₂) = >>=-eq-ok (count_decisions ds 0 0) _ h₁ in
    let (k, t, denied, total) = count_decisions-Tally ds 0 0 out n in
    let same = sym (decision_values_lem (get (codes "decisions") control) ds d) in
    (
      record { total_actions = length (a ∷ as'); actions_allowed = out.0; actions_denied = out.1 },
      sym (ok-injective h₂),
      refl,
      subst (λ l. Tally IsDenial l out.1) same
          (subst (Tally IsDenial ds) (sym (omega (arith, denied))) t),
      subst (λ l. out.0 + out.1 ≡ length l) same (omega (arith, total)),
    )

any_denied-NoDenial :
    (actions : List ActionRecord) (control : Option Fields) (counts : Option ActionCounts)
    → CountsActions actions control counts
    → (any_denied counts ≡ false) ↔ NoDenial (decisions_on actions control)
unfolding summarize CountsActions NoDenial decisions_on
any_denied-NoDenial [] control counts h = (λ _ v m. elim m [ ], λ _. rw h refl)
any_denied-NoDenial (a ∷ as') none counts h = (λ _ v m. elim m [ ], λ _. rw h refl)
any_denied-NoDenial (a ∷ as') (some control) counts (c, e, _, t, _) = (
  λ f. Tally-zero t (zero_of c.actions_denied (sym (ap any_denied e) ∙ f)),
  λ h. ap any_denied e ∙ rw (Tally-none t h) refl,
)
  where
    zero_of : (n : ℕ) → ltb 0 n ≡ false → n ≡ 0
    zero_of n h = ground (arith, h)

-- What a summary `c` says of the sources, the actions and the policy of a builder.
pub record IsSummary (b : ReceiptBuilder) (control : Option Fields) (c : Summary) : Type 0 where
  pub all_sources : c.total_chunks ≡ length b.sources
  pub by_outcome : (o : VerificationOutcome) → Tally (HasOutcome o) b.sources (count_of o c)
  pub by_decision : CountsActions b.actions control c.action_counts
  pub unless_fail : (c.status ≢ fail) ↔ (
      All (λ o. should_block b.policy o ≡ false) (map (λ s. s.verification_outcome) b.sources)
      × NoDenial (decisions_on b.actions control))
  pub if_pass : (c.status ≡ pass) ↔ (
      All (λ o. o ≡ verified) (map (λ s. s.verification_outcome) b.sources)
      × NoDenial (decisions_on b.actions control))

-- A summary counts the sources, and under each outcome the sources that have it. Without actions
-- it has no counts of actions; without a policy for tool calls every action counts as allowed; and
-- under one the recorded decisions that deny count as denied and all others as allowed. The status
-- is other than FAIL exactly if the blocking policy blocks no source's outcome and no recorded
-- decision denies, and PASS exactly if every source is VERIFIED and no recorded decision denies.
pub summarize_lem :
    (b : ReceiptBuilder) (control : Option Fields) {c : Summary}
    → summarize b control ≡ ok c
    → IsSummary b control c
unfolding summarize Kept
summarize_lem b control {c} h =
    let (counts, k, e) = >>=-eq-ok (action_counts_of b.actions control) _ h in
    let outcomes = map (λ s. s.verification_outcome) b.sources in
    let status = combine (overall_status outcomes b.policy) (any_denied counts) in
    let start = no_sources (length b.sources) counts status in
    let (n, (s, a)) = count_sources-Kept b.sources start in
    let by_decision = action_counts_of-CountsActions b.actions control counts k in
    let denials = any_denied-NoDenial b.actions control counts by_decision in
    let (safe, unsafe, whole, part) = overall_status_lem outcomes b.policy in
    let failing = combine-fail (overall_status outcomes b.policy) (any_denied counts) in
    let passing = combine-pass (overall_status outcomes b.policy) (any_denied counts) in
    subst (IsSummary b control) (ok-injective e) (record {
      all_sources = n;
      by_outcome = λ o.
          let (m, t, q) = count_sources-Tally b.sources o start in
          subst (Tally (HasOutcome o) b.sources) (sym (q ∙ no_sources-count_of o m _ _ _)) t;
      by_decision = rw a by_decision;
      unless_fail = (
        λ x. let (p, d) = failing.0 (λ y. x (s ∙ y)) in (safe p, denials.0 d),
        λ (p, d). λ y. failing.1 (unsafe p, denials.1 d) (sym s ∙ y),
      );
      if_pass = (
        λ x. let (p, d) = passing.0 (sym s ∙ x) in (whole p, denials.0 d),
        λ (p, d). s ∙ passing.1 (part p, denials.1 d),
      );
    })
