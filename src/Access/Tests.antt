-- ===== src/Access/Tests.antt =====
-- The retrieval policy on a small file, and witnesses.
use provenex_core.Rules.Duration.{parse_duration, parse_iso8601}
use provenex_core.Rules.Validate.{
  check_no_reserved_keys, clause, each, refuse_unknown_keys, root_allowed, validate_condition,
  validate_constraint, validate_defaults, validate_path_root, validate_rule, validate_rules,
}
use provenex_core.Rules.Resolve.{
  chunk_attribute, request_attribute, resolve_parts, resolve_path, tool_attribute, walk,
  when_matches,
}
use provenex_core.Prelude.{◌≡◌, refl, ◌↔◌, none, some, [], ◌∷◌, All, ok, returns}
use provenex_core.Text.{codes, hex, utf8, has_char, split}
use provenex_core.Value.{
  text, dict, seq, cons, nil, name, to_fields, entries, contains, elements, get, get_key, put,
  same_key, set_default, truthy, value_eq,
}
use provenex_core.Rules.{
  ChunkContext, Choice, allow, deny, chunk_domain_roots, canonical_bytes, value_hash,
}
use provenex_core.Rules.Accepted.{Ok}
use provenex_core.Rules.Admits.{Admits, Decided}
use provenex_core.Rules.Known.{HasKnownOperators}
use provenex_core.Rules.Constraint.{
  decide, applied, check_all, check_constraint, check_entry, check_operators,
}
use provenex_core.Rules.Sample.{runtime, eu_rule, policy_file, request, resident, untagged}
use provenex_core.Access.{
  PolicyDecision, build_inputs, construct_from_bundle, construct, evaluate, normalized, load,
  read_policy_id, validate_bundle,
}
use provenex_core.Access.Sample.{digest, eu, evaluator}
use provenex_core.Access.FailClosed.{subject, evaluate-Decided, evaluate-allow, evaluate-missing}
use provenex_core.Access.Eager.{evaluate-Returns, construct-known}
use provenex_core.Access.Session.{in_session, session_rule, session_decides}

abbrev decided : Choice → ChunkContext → PolicyDecision
decided choice c = record {
  decision = choice;
  rules_fired = codes "eu" ∷ [];
  inputs_hash = digest;
  inputs = some (build_inputs c request);
  metadata_binding = none;
}

loads :
    construct_from_bundle runtime (codes "f") (dict (policy_file "access_control" eu_rule))
    ≡ ok evaluator
unfolding construct construct_from_bundle load validate_bundle normalized read_policy_id
    validate_rules validate_rule validate_defaults each validate_condition validate_constraint
    validate_path_root root_allowed refuse_unknown_keys check_no_reserved_keys clause truthy get
    get_key put same_key set_default entries elements to_fields value_eq contains parse_duration
    value_hash canonical_bytes utf8 hex split has_char
loads = refl

allows : evaluate runtime evaluator resident request ≡ ok (decided allow resident)
unfolding evaluate build_inputs decide when_matches resolve_path resolve_parts walk chunk_attribute
    request_attribute tool_attribute check_all check_entry check_constraint check_operators applied
    parse_iso8601 value_eq contains get get_key put same_key set_default entries to_fields
    value_hash canonical_bytes parse_duration utf8 hex split has_char
allows = refl

denies : evaluate runtime evaluator untagged request ≡ ok (decided deny untagged)
unfolding evaluate build_inputs decide when_matches resolve_path resolve_parts walk chunk_attribute
    request_attribute tool_attribute check_all check_entry check_constraint check_operators applied
    parse_iso8601 value_eq contains get get_key put same_key set_default entries to_fields
    value_hash canonical_bytes parse_duration utf8 hex split has_char
denies = refl

evaluate-Decided_example :
    Decided runtime deny (subject untagged request) (eu ∷ []) deny (codes "eu" ∷ [])
evaluate-Decided_example = evaluate-Decided runtime evaluator untagged request denies

evaluate-allow_example :
    (allow ≡ allow) ↔ All (Admits runtime deny (subject resident request)) (eu ∷ [])
evaluate-allow_example = evaluate-allow runtime evaluator resident request allows

evaluate-missing_example : deny ≡ deny
unfolding evaluate build_inputs decide when_matches resolve_path resolve_parts walk chunk_attribute
    request_attribute tool_attribute check_all check_entry check_constraint check_operators applied
    parse_iso8601 value_eq contains get get_key put same_key set_default entries to_fields
    value_hash canonical_bytes parse_duration utf8 hex split has_char
evaluate-missing_example =
    evaluate-missing runtime evaluator untagged request 0 0 eu
      (name (codes "chunk.metadata.residency"))
      (dict (to_fields ((name (codes "in"), seq (cons (text (codes "EU")) nil)) ∷ []))) denies refl
      refl refl refl refl

construct-known_example :
    All (λ rule. All (HasKnownOperators runtime) rule.require_clause) (eu ∷ [])
unfolding construct construct_from_bundle
construct-known_example =
    construct-known runtime (codes "access_control") chunk_domain_roots (codes "f")
      (dict (policy_file "access_control" eu_rule)) {e = evaluator} loads

evaluate-Returns_example : Ok (evaluate runtime evaluator resident request)
unfolding evaluate build_inputs decide when_matches resolve_path resolve_parts walk chunk_attribute
    request_attribute tool_attribute check_all check_entry check_constraint check_operators applied
    parse_iso8601 value_eq contains get get_key put same_key set_default entries to_fields
    value_hash canonical_bytes parse_duration utf8 hex split has_char
evaluate-Returns_example =
    evaluate-Returns runtime (codes "f") (dict (policy_file "access_control" eu_rule)) resident
      request {e = evaluator} loads (((refl, tt), (refl, (refl, tt))), tt) (returns tt)

session_decides_example :
    (build_inputs untagged (in_session (codes "s") request)
      ≡ build_inputs untagged (in_session (codes "t") request))
    × ((decide runtime deny
            (subject untagged (in_session (codes "s") request))
            (session_rule (codes "r") (codes "s") ∷ [])
            []
          ≡ ok (allow, codes "r" ∷ []))
        × (decide runtime deny
              (subject untagged (in_session (codes "t") request))
              (session_rule (codes "r") (codes "s") ∷ [])
              []
            ≡ ok (deny, codes "r" ∷ [])))
unfolding evaluate build_inputs decide when_matches resolve_path resolve_parts walk chunk_attribute
    request_attribute tool_attribute check_all check_entry check_constraint check_operators applied
    parse_iso8601 value_eq contains get get_key put same_key set_default entries to_fields
    value_hash canonical_bytes parse_duration utf8 hex split has_char
session_decides_example =
    session_decides runtime deny untagged request (codes "r") (codes "s") (codes "t") refl
