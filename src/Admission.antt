-- ===== src/Admission.antt =====
-- The admission of tool calls of provenex/tool_call/admission.py.
pub mod Enforced
mod Tests
use provenex_core.Prelude.{
  ℕ, String, Bool, true, false, Option, none, some, List, [], ◌∷◌, ◌++◌, if◌then◌else◌, Result, ok,
  err, ◌>>=◌,
}
use mathlib.Core.Option
use provenex_core.Text.{Text, codes}
use provenex_core.Value.{
  Value, null, int, text, dict, Fields, end, field, Key, name, to_fields, entry_of, entry_if, texts,
  number, or_none_value, put, update,
}
use provenex_core.Rules.{Runtime, RequestContext, ToolCallContext, Choice, allow, deny, value_hash}
use provenex_core.Policy.{VerificationPolicy}
use provenex_core.Access.{PolicyDecision}
use provenex_core.ToolCall.{build_tool_call_inputs, parameters_hash}
use provenex_core.Unified.{
  Evaluator, UnifiedPolicy, PolicyArgument, coerce_policy, control_metadata,
}
use provenex_core.Trajectory.{TrajectoryContext, or_none}
use provenex_core.Receipt.{ReceiptSigner, ProvenanceReceipt}
use provenex_core.Receipt.Signing.{
  compute_caller_hash, Hashable, compute_value_hash, structure, string,
}
use provenex_core.Receipt.Builder.{
  ReceiptBuilder, new_builder, NewAction, add_action, Finish, finalize,
}
use provenex_core.Verify.{choice_value, optionally_advance}
use provenex_core.Streaming.{ReceiptSink, SinkArgument, safe_publish}

-- The keyword arguments of `admission_check`.
pub record AdmissionOptions : Type 0 where
  pub policy : PolicyArgument
  pub signer : Option ReceiptSigner
  pub trajectory : Option TrajectoryContext
  pub step_kind : Option Text
  pub agent_id : Option Text
  pub output_text : Text
  pub redact_parameters : Bool
  pub redact_inputs : Bool
  pub caller_hash_salt : Option (List ℕ)

-- `trajectory.step_kind or "tool_call"`
abbrev pub or_tool_call : Option Text → Text
or_tool_call none = codes "tool_call"
or_tool_call (some []) = codes "tool_call"
or_tool_call (some (c ∷ s)) = c ∷ s

abbrev pub given_or : Option Text → Text → Text
given_or none default = default
given_or (some s) default = s

-- The cursor that is put on the receipt.
abbrev pub emitted : Option Text → Option Text → Option Text → TrajectoryContext → TrajectoryContext
emitted step_kind agent_id session_id t = record t {
  step_kind = some (given_or step_kind (or_tool_call t.step_kind));
  agent_id = or_none agent_id t.agent_id;
  session_id = or_none session_id t.session_id;
}

abbrev pub unless {ℓ} : {A : Type ℓ} → Bool → Option A → Option A
unless true o = none
unless false o = o

abbrev binding : Fields
binding = to_fields (
    entry_of "tool_parameters" (text (codes "at_evaluate"))
    ∷ entry_of "request_context" (text (codes "at_evaluate"))
    ∷ [])

-- The entry of `decisions` for the action.
unfoldable pub action_decision : ℕ → PolicyDecision → Value
action_decision i d = dict (
    to_fields (
      entry_of "action_index" (number i)
      ∷ entry_of "decision" (text (codes (choice_value d.decision)))
      ∷ entry_of "rules_fired" (texts d.rules_fired)
      ∷ entry_of "inputs_hash" (text d.inputs_hash)
      ∷ entry_of "inputs" (or_none_value (λ v. v) d.inputs)
      ∷ entry_of "metadata_binding" (or_none_value dict d.metadata_binding)
      ∷ []))

abbrev pub policy_id_of : Option (Evaluator ToolCallContext) → Text
policy_id_of none = codes "none"
policy_id_of (some e) = e.policy_id

abbrev put_if {ℓ} : {A : Type ℓ} → String → (A → Value) → Option A → Fields → Fields
put_if k f none fs = fs
put_if k f (some a) fs = put (codes k) (f a) fs

module _ (r : Runtime) where
  -- The decision on one call; no evaluator allows.
  unfoldable pub tool_decision :
      Option (Evaluator ToolCallContext)
      → Bool
      → ToolCallContext
      → RequestContext
      → Result PolicyDecision
  tool_decision none redact t q = do
    let inputs = build_tool_call_inputs t q
    hash ← value_hash r inputs
    ok (record {
      decision = allow;
      rules_fired = [];
      inputs_hash = hash;
      inputs = some inputs;
      metadata_binding = some binding;
    })
  tool_decision (some e) redact t q = do
    raw ← e.decide_on t q
    ok (record raw { inputs = unless redact raw.inputs; metadata_binding = some binding })

  module _ {Sink : Type 0} (api : ReceiptSink ProvenanceReceipt Sink) where
    pub record AdmissionResult : Type 0 where
      pub decision : Choice
      pub rules_fired : List Text
      pub receipt : ProvenanceReceipt
      pub next_trajectory : Option TrajectoryContext
      pub policy_id : Text
      pub sink : SinkArgument api

    -- `admission_check`, with a fresh id and the time
    unfoldable pub admission_check :
        ToolCallContext
        → RequestContext
        → AdmissionOptions
        → SinkArgument api
        → Text
        → Text
        → Result AdmissionResult
    admission_check t q o sink fresh_id now = do
      p ← coerce_policy o.policy
      decision ← tool_decision p.tool_call_control o.redact_inputs t q
      params_hash ← parameters_hash r t.parameters
      let action : NewAction = record {
        action_name = t.tool_name;
        operation = t.operation;
        parameters_hash = params_hash;
        parameters = unless o.redact_parameters (some t.parameters);
        target_system = t.target_system;
        invocation_id = t.invocation_id;
      }
      let (builder, action_index) = add_action (new_builder p.verification) action
      hash ← compute_caller_hash r q.caller o.caller_hash_salt
      receipt ← finalize r builder o.signer (record {
        receipt_id = fresh_id;
        now = now;
        output_text = o.output_text;
        transparency_log = none;
        trajectory = Option.map (emitted o.step_kind o.agent_id q.session_id) o.trajectory;
        access_control = none;
        tool_call_control =
            Option.map (λ e. control_metadata e (action_decision action_index decision ∷ []))
              p.tool_call_control;
        caller_hash = some hash;
      })
      (sink', warnings) ← safe_publish api sink receipt
      next ← optionally_advance o.agent_id q.session_id receipt o.trajectory
      ok (record {
        decision = decision.decision;
        rules_fired = decision.rules_fired;
        receipt = receipt;
        next_trajectory = next;
        policy_id = policy_id_of p.tool_call_control;
        sink = sink';
      })

    -- What `enforce_admission` returns, or raises as ToolCallDenied; both hold the result.
    pub data Enforcement : Type 0 where
      admitted : AdmissionResult → Enforcement
      tool_call_denied : AdmissionResult → Enforcement

    pub enforcement_of : Choice → AdmissionResult → Enforcement
    enforcement_of allow a = admitted a
    enforcement_of deny a = tool_call_denied a

    unfoldable pub enforce_admission :
        ToolCallContext
        → RequestContext
        → AdmissionOptions
        → SinkArgument api
        → Text
        → Text
        → Result Enforcement
    unfolding enforcement_of
    enforce_admission t q o sink fresh_id now = do
      a ← admission_check t q o sink fresh_id now
      ok (enforcement_of a.decision a)

    -- The parameters of a memory write: the value as it is hashed, and as it is recorded.
    unfoldable pub memory_parameters :
        Hashable → Value → Option Text → Option ℕ → Bool → Fields → Result Fields
    memory_parameters value recorded store_id ttl redact_value extra = do
      hash ← compute_value_hash r value
      let hashed = put (codes "value_hash") (text hash) end
      let placed = put_if "ttl" number ttl (put_if "store_id" text store_id hashed)
      let shown = if redact_value then placed else put (codes "value") recorded placed
      ok (update shown extra)

    unfoldable pub admit_memory_write :
        Text
        → Hashable
        → Value
        → Option Text
        → Option ℕ
        → Bool
        → Fields
        → RequestContext
        → AdmissionOptions
        → SinkArgument api
        → Text
        → Text
        → Result AdmissionResult
    admit_memory_write key value recorded store_id ttl redact_value extra q o sink fresh_id now = do
      parameters ← memory_parameters value recorded store_id ttl redact_value extra
      let call : ToolCallContext = record {
        tool_name = codes "memory.write";
        operation = key;
        parameters = parameters;
        target_system = store_id;
        invocation_id = none;
      }
      admission_check call q
          (record o { step_kind = some (given_or o.step_kind (codes "memory_write")) }) sink
          fresh_id now

    unfoldable pub inference_parameters : Hashable → Value → Bool → Fields → Result Fields
    inference_parameters prompt recorded redact_prompt extra = do
      hash ← compute_value_hash r prompt
      let hashed = put (codes "prompt_hash") (text hash) end
      let shown = if redact_prompt then hashed else put (codes "prompt") recorded hashed
      ok (update shown extra)

    unfoldable pub admit_model_inference :
        Text
        → Hashable
        → Value
        → Option Text
        → Text
        → Bool
        → Fields
        → RequestContext
        → AdmissionOptions
        → SinkArgument api
        → Text
        → Text
        → Result AdmissionResult
    admit_model_inference model prompt recorded provider operation redact_prompt extra q o sink
          fresh_id now =
        do
          parameters ← inference_parameters prompt recorded redact_prompt extra
          let call : ToolCallContext = record {
            tool_name = model;
            operation = operation;
            parameters = parameters;
            target_system = provider;
            invocation_id = none;
          }
          admission_check call q
              (record o { step_kind = some (given_or o.step_kind (codes "model_inference")) }) sink
              fresh_id now
