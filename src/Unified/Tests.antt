-- ===== src/Unified/Tests.antt =====
-- A unified policy file, and a witness.
use provenex_core.Rules.{canonical_bytes, value_hash}
use provenex_core.Rules.Duration.{parse_duration}
use provenex_core.Rules.Validate.{
  check_no_reserved_keys, clause, each, refuse_unknown_keys, root_allowed, validate_condition,
  validate_constraint, validate_defaults, validate_path_root, validate_rule, validate_rules,
}
use provenex_core.Prelude.{◌≡◌, refl, true, none, some, ok}
use provenex_core.Text.{codes, has_char, hex, split, utf8}
use provenex_core.Value.{
  dict, Fields, get, contains, elements, entries, get_key, put, same_key, set_default, to_fields,
  truthy, value_eq,
}
use provenex_core.Rules.Sample.{runtime, policy_file, eu_rule}
use provenex_core.Policy.{default_policy}
use provenex_core.Access.{
  construct_from_bundle, construct, load, normalized, read_policy_id, validate_bundle,
}
use provenex_core.Access.Sample.{evaluator}
use provenex_core.ToolCall.{construct_tool_call}
use provenex_core.Unified.{
  UnifiedPolicy, native_evaluator, native_tool_evaluator, from_bundle, parse_verification,
}
use provenex_core.Unified.Guards.{is_set, Guards, from_bundle-Guards}

abbrev file : Fields
file = policy_file "access_control" eu_rule

abbrev loaded : UnifiedPolicy
loaded = record {
  verification = default_policy none;
  access_control = some (native_evaluator runtime evaluator);
  tool_call_control = none;
}

loads : from_bundle runtime (codes "f") (dict file) ≡ ok loaded
unfolding from_bundle parse_verification construct construct_from_bundle load validate_bundle
    normalized read_policy_id validate_rules validate_rule validate_defaults each validate_condition
    validate_constraint validate_path_root root_allowed refuse_unknown_keys check_no_reserved_keys
    clause truthy get get_key put same_key set_default entries elements to_fields value_eq contains
    parse_duration value_hash canonical_bytes utf8 hex split has_char
loads = refl

from_bundle-Guards_example :
    (is_set (get (codes "access_control") file) ≡ true
      → Guards runtime
          (construct_from_bundle runtime (codes "f") (dict file))
          (native_evaluator runtime)
          loaded.access_control)
    × (is_set (get (codes "tool_call_control") file) ≡ true
        → Guards runtime
            (construct_tool_call runtime (codes "f") (dict file))
            (native_tool_evaluator runtime)
            loaded.tool_call_control)
from_bundle-Guards_example = from_bundle-Guards runtime (codes "f") file {p = loaded} loads
