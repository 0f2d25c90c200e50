-- ===== src/ToolCall.antt =====
-- The tool-call policy of provenex/tool_call/yaml_evaluator.py and provenex/tool_call/evaluator.py.
pub mod Guarded
mod Tests
use provenex_core.Prelude.{Option, none, some, List, [], ◌∷◌, Result, ok, ◌>>=◌}
use provenex_core.Text.{Text, codes}
use provenex_core.Value.{Value, text, dict, Fields, end, field, Key, name}
use provenex_core.Rules.{
  Runtime, ToolCallContext, RequestContext, Choice, allow, tool_call_domain_roots, value_hash,
}
use provenex_core.Rules.Resolve.{Subject}
use provenex_core.Rules.Constraint.{decide}
use provenex_core.Access.{NativeYamlEvaluator, PolicyDecision, construct, request_inputs}

abbrev if_given : Text → Option Text → Fields → Fields
if_given key none rest = rest
if_given key (some s) rest = field (name key) (text s) rest

unfoldable pub build_tool_call_inputs : ToolCallContext → RequestContext → Value
build_tool_call_inputs t q =
    let optional =
      if_given (codes "target_system") t.target_system
        (if_given (codes "invocation_id") t.invocation_id end) in
    let tool_block = field (name (codes "name")) (text t.tool_name) (
      field (name (codes "operation")) (text t.operation)
        (field (name (codes "parameters")) (dict t.parameters) optional)) in
    dict (
      field (name (codes "tool_parameters")) (dict tool_block)
        (field (name (codes "request_context")) (request_inputs q) end))

module _ (r : Runtime) where
  -- compute_parameters_hash
  unfoldable pub parameters_hash : Fields → Result Text
  parameters_hash fs = value_hash r (dict fs)

  -- NativeYamlToolCallEvaluator._construct_from_bundle
  unfoldable pub construct_tool_call : Text → Value → Result NativeYamlEvaluator
  construct_tool_call source bundle =
      construct r (codes "tool_call_control") tool_call_domain_roots source bundle

  unfoldable pub evaluate_tool_call :
      NativeYamlEvaluator → ToolCallContext → RequestContext → Result PolicyDecision
  evaluate_tool_call e t q = do
    let inputs = build_tool_call_inputs t q
    hash ← value_hash r inputs
    let subject : Subject = record { chunk = none; tool = some t; request = q }
    (decision, fired) ← decide r e.defaults.unknown_metadata subject e.rules []
    ok (record {
      decision = decision;
      rules_fired = fired;
      inputs_hash = hash;
      inputs = some inputs;
      metadata_binding = none;
    })

  -- NullToolCallPolicyEvaluator.evaluate
  unfoldable pub null_evaluate_tool_call : ToolCallContext → RequestContext → Result PolicyDecision
  null_evaluate_tool_call t q = do
    let inputs = build_tool_call_inputs t q
    hash ← value_hash r inputs
    ok (record {
      decision = allow;
      rules_fired = [];
      inputs_hash = hash;
      inputs = some inputs;
      metadata_binding = none;
    })
