-- ===== src/Admission/Enforced.antt =====
-- A tool call that is enforced goes through only if every rule admits it, and the receipt records
-- it.
use provenex_core.Prelude.{
  ◌≡◌, refl, sym, ap, subst, ◌∙◌, Bool, some, List, [], ◌∷◌, ok, >>=-eq-ok, ok-injective,
}
use provenex_core.Text.{Text}
use provenex_core.Value.{dict}
use provenex_core.Rules.{Runtime, RequestContext, ToolCallContext, Choice, allow, deny, value_hash}
use provenex_core.Rules.Admits.{Decided}
use provenex_core.Access.{NativeYamlEvaluator, PolicyDecision}
use provenex_core.ToolCall.{evaluate_tool_call, parameters_hash}
use provenex_core.ToolCall.Guarded.{call_subject, evaluate_tool_call-Decided}
use provenex_core.Unified.{UnifiedPolicy, coerce_policy, native_tool_evaluator}
use provenex_core.Receipt.{ProvenanceReceipt, ActionRecord}
use provenex_core.Receipt.Signing.{compute_caller_hash}
use provenex_core.Receipt.Builder.{add_action, finalize}
use provenex_core.Receipt.Finalized.{finalize-body}
use provenex_core.Streaming.{ReceiptSink, SinkArgument, safe_publish}
use provenex_core.Verify.{optionally_advance}
use provenex_core.Admission.{
  AdmissionOptions, AdmissionResult, admission_check, tool_decision, unless, Enforcement, admitted,
  tool_call_denied, enforce_admission, enforcement_of,
}

module _ (r : Runtime) {Sink : Type 0} (api : ReceiptSink ProvenanceReceipt Sink) where
  -- The action that a call is recorded as, for the hash of its parameters.
  abbrev pub recorded_action : ToolCallContext → Bool → Text → ActionRecord
  recorded_action t redact hash = record {
    action_index = 0;
    action_name = t.tool_name;
    operation = t.operation;
    parameters_hash = hash;
    parameters = unless redact (some t.parameters);
    target_system = t.target_system;
    invocation_id = t.invocation_id;
  }

  -- What a check that returns has computed on the way.
  abbrev Checked :
      UnifiedPolicy
      → ToolCallContext
      → RequestContext
      → AdmissionOptions
      → AdmissionResult r api
      → Type 0
  Checked p t q o a =
      ((d : PolicyDecision) × (tool_decision r p.tool_call_control o.redact_inputs t q ≡ ok d)
        × ((a.decision ≡ d.decision) × (a.rules_fired ≡ d.rules_fired)))
      × ((hash : Text) × (value_hash r (dict t.parameters) ≡ ok hash)
          × (a.receipt.actions ≡ recorded_action t o.redact_parameters hash ∷ []))

  admission_check-Checked :
      (p : UnifiedPolicy) (t : ToolCallContext) (q : RequestContext) (o : AdmissionOptions)
      (sink : SinkArgument api) (fresh_id now : Text) {a : AdmissionResult r api}
      → coerce_policy o.policy ≡ ok p
      → admission_check r api t q o sink fresh_id now ≡ ok a
      → Checked p t q o a
  unfolding admission_check add_action parameters_hash
  admission_check-Checked p t q o sink fresh_id now {a} cp h =
      let (p', e, h1) = >>=-eq-ok (coerce_policy o.policy) _ h in
      let (d, ed, h2) = >>=-eq-ok (tool_decision r p'.tool_call_control o.redact_inputs t q) _ h1 in
      let (hash, eh, h3) = >>=-eq-ok (parameters_hash r t.parameters) _ h2 in
      let (caller, _, h4) = >>=-eq-ok (compute_caller_hash r q.caller o.caller_hash_salt) _ h3 in
      let (c, ec, h5) = >>=-eq-ok (finalize r _ o.signer _) _ h4 in
      let (sw, _, h6) = >>=-eq-ok (safe_publish api sink c) _ h5 in
      let (next, _, h7) =
        >>=-eq-ok (optionally_advance o.agent_id q.session_id c o.trajectory) _ h6 in
      let (_, (acts, _)) = finalize-body r _ o.signer _ ec in
      subst (Checked p t q o) (ok-injective h7) (
        (
          d,
          subst (λ x. tool_decision r x.tool_call_control o.redact_inputs t q ≡ ok d)
              (ok-injective (sym e ∙ cp)) ed,
          (refl, refl),
        ),
        (hash, eh, acts),
      )

  -- The receipt of a check records the call as its one action, with the hash of the parameters as
  -- they were passed, and with the parameters themselves unless they are redacted.
  pub admission_check-records :
      (p : UnifiedPolicy) (t : ToolCallContext) (q : RequestContext) (o : AdmissionOptions)
      (sink : SinkArgument api) (fresh_id now : Text) {a : AdmissionResult r api}
      → coerce_policy o.policy ≡ ok p
      → admission_check r api t q o sink fresh_id now ≡ ok a
      → (hash : Text) × (value_hash r (dict t.parameters) ≡ ok hash)
        × (a.receipt.actions ≡ recorded_action t o.redact_parameters hash ∷ [])
  admission_check-records p t q o sink fresh_id now cp h =
      (admission_check-Checked p t q o sink fresh_id now cp h).1

  abbrev settled : Enforcement r api → Choice × AdmissionResult r api
  settled (admitted a) = (allow, a)
  settled (tool_call_denied a) = (deny, a)

  settled-enforcement_of :
      (c : Choice) (a : AdmissionResult r api) → settled (enforcement_of r api c a) ≡ (c, a)
  unfolding enforce_admission
  settled-enforcement_of allow a = refl
  settled-enforcement_of deny a = refl

  -- Under the rules of an evaluator, a call that is let through is admitted by every rule; one that
  -- is denied has a rule that denied it, which is the last that fired.
  pub enforce_admission-Decided :
      (p : UnifiedPolicy) (e : NativeYamlEvaluator) (t : ToolCallContext) (q : RequestContext)
      (o : AdmissionOptions) (sink : SinkArgument api) (fresh_id now : Text)
      {out : Enforcement r api}
      → coerce_policy o.policy ≡ ok p
      → p.tool_call_control ≡ some (native_tool_evaluator r e)
      → enforce_admission r api t q o sink fresh_id now ≡ ok out
      → Decided r e.defaults.unknown_metadata
          (call_subject t q)
          e.rules
          (settled out).0
          (settled out).1.rules_fired
  unfolding enforce_admission tool_decision
  enforce_admission-Decided p e t q o sink fresh_id now {out} cp ev h =
      let (a, ea, k) = >>=-eq-ok (admission_check r api t q o sink fresh_id now) _ h in
      let ((d, ed, (dec, fired)), _) = admission_check-Checked p t q o sink fresh_id now cp ea in
      let g : tool_decision r (some (native_tool_evaluator r e)) o.redact_inputs t q ≡ ok d =
        subst (λ x. tool_decision r x o.redact_inputs t q ≡ ok d) ev ed in
      let (raw, er, m) = >>=-eq-ok (evaluate_tool_call r e t q) _ g in
      let T : Choice → List Text → Type 0 =
        Decided r e.defaults.unknown_metadata (call_subject t q) e.rules in
      let base = evaluate_tool_call-Decided r t q e er in
      let same = ok-injective m in
      let as_checked : T a.decision a.rules_fired =
        subst (T a.decision) (ap (λ x. x.rules_fired) same ∙ sym fired)
          (subst (λ c. T c raw.rules_fired) (ap (λ x. x.decision) same ∙ sym dec) base) in
      subst (λ x. T (settled x).0 (settled x).1.rules_fired) (ok-injective k)
        (subst (λ s. T s.0 s.1.rules_fired) (sym (settled-enforcement_of a.decision a)) as_checked)
