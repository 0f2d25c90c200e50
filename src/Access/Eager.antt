-- ===== src/Access/Eager.antt =====
-- What loading a bundle promises of the evaluator that it builds.
use provenex_core.Prelude.{
  ◌≡◌, subst, Option, none, some, List, [], All, All-imp, Result, ok, err, policy_parse_error,
  ◌>>=◌, >>=-eq-ok, ok-injective, returns,
}
use provenex_core.Text.{Text, codes}
use provenex_core.Value.{Value, dict, Fields, get}
use provenex_core.Rules.{
  Runtime, ChunkContext, RequestContext, Rule, chunk_domain_roots, value_hash, canonical_bytes,
}
use provenex_core.Rules.Validate.{validate_defaults, validate_rules}
use provenex_core.Rules.Accepted.{Ok, bind-Ok, chunk_roots-AreKnown}
use provenex_core.Rules.Checked.{HasDots, decide-Ok}
use provenex_core.Rules.Known.{
  WasValidated, HasKnownOperators, validate_rules-WasValidated, constraints-HasKnownOperators,
}
use provenex_core.Access.{
  NativeYamlEvaluator, build_inputs, validate_bundle, read_policy_id, load, construct,
  construct_from_bundle, normalized, evaluate, rule_values, require_version,
}
use provenex_core.Access.FailClosed.{subject}

module _ (r : Runtime) where
  rules-WasValidated :
      (roots : List Text) (o : Option Value) {rules : List Rule}
      → (rule_values r o >>= validate_rules r roots) ≡ ok rules
      → All (WasValidated r roots) rules
  rules-WasValidated roots o h =
      let (vs, _, g) = >>=-eq-ok (rule_values r o) _ h in validate_rules-WasValidated r roots vs g

  load-WasValidated :
      (roots : List Text) (source : Text) (fs : Fields) {e : NativeYamlEvaluator}
      → load r roots source fs ≡ ok e
      → All (WasValidated r roots) e.rules
  unfolding load validate_bundle
  load-WasValidated roots source fs h =
      let (rules, b, h1) = >>=-eq-ok (validate_bundle r roots fs) _ h in
      let (defaults, _, h2) = >>=-eq-ok (validate_defaults r (get (codes "defaults") fs)) _ h1 in
      let (id, _, h3) = >>=-eq-ok (read_policy_id r fs) _ h2 in
      let (hash, _, h4) = >>=-eq-ok (value_hash r (dict fs)) _ h3 in
      let (_, _, g) = >>=-eq-ok (require_version r (get (codes "version") fs)) _ b in
      subst (λ e. All (WasValidated r roots) e.rules) (ok-injective h4)
        (rules-WasValidated roots (get (codes "rules") fs) g)

  section-WasValidated :
      (roots : List Text) (source : Text) (fs : Fields) (o : Option Value) {e : NativeYamlEvaluator}
      → (elim o as (λ _. Result NativeYamlEvaluator) [
        | none ↦ load r roots source fs
        | some (dict inner) ↦ load r roots source (normalized r fs inner)
        | some _ ↦ err policy_parse_error
      ])
        ≡ ok e
      → All (WasValidated r roots) e.rules
  section-WasValidated roots source fs none h = load-WasValidated roots source fs h
  section-WasValidated roots source fs (some (dict inner)) h =
      load-WasValidated roots source (normalized r fs inner) h
  section-WasValidated roots source fs (some v) h = absurd (cc h)

  pub construct-WasValidated :
      (section : Text) (roots : List Text) (source : Text) (bundle : Value)
      {e : NativeYamlEvaluator}
      → construct r section roots source bundle ≡ ok e
      → All (WasValidated r roots) e.rules
  unfolding construct
  construct-WasValidated section roots source (dict fs) h =
      section-WasValidated roots source fs (get section fs) h
  construct-WasValidated section roots source v h = absurd (cc h)

  pub value_hash-Ok : (v : Value) → Ok (r.dumps v) → Ok (value_hash r v)
  unfolding value_hash canonical_bytes
  value_hash-Ok v h = bind-Ok (bind-Ok h (λ _. returns tt)) (λ _. returns tt)

  -- A bundle that loads has no constraint with an operator that is not known.
  pub construct-known :
      (section : Text) (roots : List Text) (source : Text) (bundle : Value)
      {e : NativeYamlEvaluator}
      → construct r section roots source bundle ≡ ok e
      → All (λ rule. All (HasKnownOperators r) rule.require_clause) e.rules
  construct-known section roots source bundle {e} h =
      All-imp _ _ e.rules (λ rule v. constraints-HasKnownOperators r roots rule.require_clause v.1)
        (construct-WasValidated section roots source bundle h)

  -- An evaluator that was built from a bundle decides on every chunk and request whose inputs
  -- can be serialized: evaluation does not raise, if every path of the rules has a dot.
  pub evaluate-Returns :
      (source : Text) (bundle : Value) (c : ChunkContext) (q : RequestContext)
      {e : NativeYamlEvaluator}
      → construct_from_bundle r source bundle ≡ ok e
      → All HasDots e.rules
      → Ok (r.dumps (build_inputs c q))
      → Ok (evaluate r e c q)
  unfolding evaluate construct_from_bundle
  evaluate-Returns source bundle c q {e} h d s =
      bind-Ok (value_hash-Ok (build_inputs c q) s) (λ hash.
        bind-Ok
          (decide-Ok r (subject c q) chunk_domain_roots chunk_roots-AreKnown
            e.defaults.unknown_metadata e.rules []
            (construct-WasValidated (codes "access_control") chunk_domain_roots source bundle h) d)
          (λ _. returns tt))
