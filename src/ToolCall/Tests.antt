-- ===== src/ToolCall/Tests.antt =====
-- A tool call that a policy denies, and witnesses.
use provenex_core.Rules.Duration.{parse_duration, parse_iso8601}
use provenex_core.Rules.Constraint.{
  applied, check_all, check_constraint, check_entry, check_operators, decide,
}
use provenex_core.Rules.Validate.{
  check_no_reserved_keys, clause, each, refuse_unknown_keys, root_allowed, validate_condition,
  validate_constraint, validate_defaults, validate_path_root, validate_rule, validate_rules,
}
use provenex_core.Rules.Resolve.{
  chunk_attribute, request_attribute, resolve_parts, resolve_path, tool_attribute, walk,
  when_matches,
}
use provenex_core.Prelude.{◌≡◌, refl, none, some, [], ◌∷◌, ok}
use provenex_core.Text.{codes, hex, utf8, has_char, split}
use provenex_core.Value.{
  Value, dict, to_fields, entries, contains, elements, get, get_key, put, same_key, set_default,
  truthy, value_eq,
}
use provenex_core.Rules.{deny, canonical_bytes, value_hash}
use provenex_core.Rules.Sample.{runtime, mail_rule, mail_call, policy_file, request}
use provenex_core.Access.{
  PolicyDecision, normalized, build_inputs, construct, construct_from_bundle, load, read_policy_id,
  validate_bundle,
}
use provenex_core.ToolCall.{build_tool_call_inputs, construct_tool_call, evaluate_tool_call}
use provenex_core.Access.Sample.{digest, mail_evaluator}

abbrev file : Value
file = dict (policy_file "tool_call_control" mail_rule)

abbrev denied : PolicyDecision
denied = record {
  decision = deny;
  rules_fired = codes "mail" ∷ [];
  inputs_hash = digest;
  inputs = some (build_tool_call_inputs mail_call request);
  metadata_binding = none;
}

loads : construct_tool_call runtime (codes "f") file ≡ ok mail_evaluator
unfolding construct construct_from_bundle load validate_bundle normalized read_policy_id
    validate_rules validate_rule validate_defaults each validate_condition validate_constraint
    validate_path_root root_allowed refuse_unknown_keys check_no_reserved_keys clause truthy get
    get_key put same_key set_default entries elements to_fields value_eq contains parse_duration
    value_hash canonical_bytes utf8 hex split has_char construct_tool_call
loads = refl

denies : evaluate_tool_call runtime mail_evaluator mail_call request ≡ ok denied
unfolding build_inputs decide when_matches resolve_path resolve_parts walk chunk_attribute
    request_attribute tool_attribute check_all check_entry check_constraint check_operators applied
    parse_iso8601 value_eq contains get get_key put same_key set_default entries to_fields
    value_hash canonical_bytes parse_duration utf8 hex split has_char evaluate_tool_call
    build_tool_call_inputs
denies = refl
