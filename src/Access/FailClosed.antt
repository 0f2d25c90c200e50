-- ===== src/Access/FailClosed.antt =====
-- A retrieval decision is an allowance only where every rule admits the chunk.
use provenex_core.Prelude.{
  ℕ, ◌≡◌, refl, sym, ap, subst, ◌∙◌, ◌↔◌, ◌⊎◌, inl, inr, true, none, some, List, [], ◌∷◌, All, zero,
  suc, get_elem?, ok, >>=-eq-ok, ok-injective,
}
use mathlib.Core.Option.{some-injective}
use provenex_core.Value.{Value, Key}
use provenex_core.Rules.{
  Runtime, ChunkContext, RequestContext, Rule, Choice, allow, deny, value_hash,
}
use provenex_core.Rules.Resolve.{Subject, resolve_path, when_matches}
use provenex_core.Rules.Constraint.{check_constraint, check_entry, decide}
use provenex_core.Rules.Admits.{Admits, Satisfied, Decided, decide_lem, Admits-decide}
use provenex_core.Access.{NativeYamlEvaluator, PolicyDecision, build_inputs, evaluate}

abbrev pub subject : ChunkContext → RequestContext → Subject
subject c q = record { chunk = some c; tool = none; request = q }

pub All-get_elem? {ℓ κ} :
    {A : Type ℓ} (P : A → Type κ) (xs : List A) (i : ℕ) {a : A}
    → All P xs
    → get_elem? xs i ≡ some a
    → P a
All-get_elem? P [] i h e = cc
All-get_elem? P (x ∷ xs) zero h e = subst P (some-injective _ _ e) h.0
All-get_elem? P (x ∷ xs) (suc i) h e = All-get_elem? P xs i h.1 e

Choice-cases : (c : Choice) → (c ≡ allow) ⊎ (c ≡ deny)
Choice-cases allow = inl refl
Choice-cases deny = inr refl

module _ (r : Runtime) (e : NativeYamlEvaluator) (c : ChunkContext) (q : RequestContext) where
  -- A decision that evaluation returns: it is an allowance with the names of all the rules that
  -- apply and every rule admits the chunk; or a denial, whose last name is the rule that denied.
  pub evaluate-Decided :
      {d : PolicyDecision}
      → evaluate r e c q ≡ ok d
      → Decided r e.defaults.unknown_metadata (subject c q) e.rules d.decision d.rules_fired
  unfolding evaluate
  evaluate-Decided {d} h =
      let (hash, _, k) = >>=-eq-ok (value_hash r (build_inputs c q)) _ h in
      let (p, m, n) =
        >>=-eq-ok (decide r e.defaults.unknown_metadata (subject c q) e.rules []) _ k in
      let (names, g, t) =
        decide_lem r e.defaults.unknown_metadata (subject c q) e.rules [] {c = p.0} {out = p.1} m in
      subst
        (λ d'.
          Decided r e.defaults.unknown_metadata (subject c q) e.rules d'.decision d'.rules_fired)
        (ok-injective n)
        (subst (Decided r e.defaults.unknown_metadata (subject c q) e.rules p.0) (sym g) t)

  -- Every rule admits the chunk exactly if the decision is an allowance.
  pub evaluate-allow :
      {d : PolicyDecision}
      → evaluate r e c q ≡ ok d
      → (d.decision ≡ allow) ↔ All (Admits r e.defaults.unknown_metadata (subject c q)) e.rules
  unfolding evaluate
  evaluate-allow {d} h =
      let (hash, _, k) = >>=-eq-ok (value_hash r (build_inputs c q)) _ h in
      let (p, m, n) =
        >>=-eq-ok (decide r e.defaults.unknown_metadata (subject c q) e.rules []) _ k in
      (
        λ a.
            (subst
              (λ x. Decided r e.defaults.unknown_metadata (subject c q) e.rules x d.rules_fired) a
              (evaluate-Decided h)).0,
        λ every.
            let (names, g) =
              Admits-decide r e.defaults.unknown_metadata (subject c q) e.rules [] every in
            sym (ap (λ x. x.decision) (ok-injective n)) ∙ ap (λ x. x.0) (ok-injective (sym m ∙ g)),
      )

  -- Under the default deny, metadata that an applying rule requires and that is missing denies.
  pub evaluate-missing :
      {d : PolicyDecision} (i j : ℕ) (rule : Rule) (path : Key) (constraint : Value)
      → evaluate r e c q ≡ ok d
      → e.defaults.unknown_metadata ≡ deny
      → get_elem? e.rules i ≡ some rule
      → when_matches r (subject c q) rule.when_clause ≡ ok true
      → get_elem? rule.require_clause j ≡ some (path, constraint)
      → resolve_path r (subject c q) path ≡ ok none
      → d.decision ≡ deny
  unfolding check_entry check_constraint
  evaluate-missing {d} i j rule path constraint h u g a f m = elim (Choice-cases d.decision) [
    | inl allowed ↦
        elim (All-get_elem? (Admits r e.defaults.unknown_metadata (subject c q)) e.rules i
          ((evaluate-allow h).0 allowed) g) [
            | inl skipped ↦ absurd (cc (skipped, a))
            | inr met ↦
                let s =
                  All-get_elem? (Satisfied r e.defaults.unknown_metadata (subject c q))
                    rule.require_clause j met.1 f in
                absurd (cc (rw (m, u) at s))
          ]
    | inr denied ↦ denied
  ]
