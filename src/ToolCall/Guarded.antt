-- ===== src/ToolCall/Guarded.antt =====
-- Decisions on tool calls: the same promises as for chunks.
use provenex_core.Prelude.{
  ◌≡◌, sym, subst, none, some, [], All, ok, >>=-eq-ok, ok-injective, returns,
}
use provenex_core.Text.{Text, codes}
use provenex_core.Value.{Value}
use provenex_core.Rules.{
  Runtime, ToolCallContext, RequestContext, tool_call_domain_roots, value_hash,
}
use provenex_core.Rules.Resolve.{Subject}
use provenex_core.Rules.Constraint.{decide}
use provenex_core.Rules.Accepted.{Ok, bind-Ok, tool_roots-AreKnown}
use provenex_core.Rules.Checked.{HasDots, decide-Ok}
use provenex_core.Rules.Admits.{Decided, decide_lem}
use provenex_core.Access.{NativeYamlEvaluator, PolicyDecision}
use provenex_core.Access.Eager.{construct-WasValidated, value_hash-Ok}
use provenex_core.ToolCall.{build_tool_call_inputs, construct_tool_call, evaluate_tool_call}

abbrev pub call_subject : ToolCallContext → RequestContext → Subject
call_subject t q = record { chunk = none; tool = some t; request = q }

module _ (r : Runtime) (t : ToolCallContext) (q : RequestContext) where
  -- A decision on a tool call is an allowance with the names of all the rules that apply, each of
  -- which admits the call; or a denial, whose last name is the rule that denied.
  pub evaluate_tool_call-Decided :
      (e : NativeYamlEvaluator) {d : PolicyDecision}
      → evaluate_tool_call r e t q ≡ ok d
      → Decided r e.defaults.unknown_metadata (call_subject t q) e.rules d.decision d.rules_fired
  unfolding evaluate_tool_call
  evaluate_tool_call-Decided e {d} h =
      let unknown = e.defaults.unknown_metadata in
      let (hash, _, k) = >>=-eq-ok (value_hash r (build_tool_call_inputs t q)) _ h in
      let (p, m, n) = >>=-eq-ok (decide r unknown (call_subject t q) e.rules []) _ k in
      let (names, g, z) =
        decide_lem r unknown (call_subject t q) e.rules [] {c = p.0} {out = p.1} m in
      subst (λ d'. Decided r unknown (call_subject t q) e.rules d'.decision d'.rules_fired)
        (ok-injective n) (subst (Decided r unknown (call_subject t q) e.rules p.0) (sym g) z)

  -- An evaluator that was built from a bundle decides on every tool call and request whose inputs
  -- can be serialized, if every path of the rules has a dot.
  pub evaluate_tool_call-Returns :
      (source : Text) (bundle : Value) {e : NativeYamlEvaluator}
      → construct_tool_call r source bundle ≡ ok e
      → All HasDots e.rules
      → Ok (r.dumps (build_tool_call_inputs t q))
      → Ok (evaluate_tool_call r e t q)
  unfolding evaluate_tool_call construct_tool_call
  evaluate_tool_call-Returns source bundle {e} h d s =
      bind-Ok (value_hash-Ok r (build_tool_call_inputs t q) s) (λ hash.
        bind-Ok
          (decide-Ok r (call_subject t q) tool_call_domain_roots tool_roots-AreKnown
            e.defaults.unknown_metadata e.rules []
            (construct-WasValidated r (codes "tool_call_control") tool_call_domain_roots source
              bundle h)
            d)
          (λ _. returns tt))
