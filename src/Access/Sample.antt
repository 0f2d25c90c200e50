-- ===== src/Access/Sample.antt =====
-- The evaluators that the sample files give.
use provenex_core.Prelude.{[], ◌∷◌, ◌++◌}
use provenex_core.Text.{Text, codes, hex, utf8}
use provenex_core.Value.{seq, cons, nil, name, to_fields, entries}
use provenex_core.Rules.{Rule, deny}
use provenex_core.Rules.Sample.{
  runtime, eu_conditions, eu_constraints, eu_rule, mail_constraints, mail_rule, policy_file,
}
use provenex_core.Access.{NativeYamlEvaluator, normalized}

abbrev pub digest : Text
digest = codes "sha256:" ++ hex (utf8 (codes "{}"))

abbrev pub eu : Rule
eu = record {
  rule_name = codes "eu";
  when_clause = entries eu_conditions;
  require_clause = entries eu_constraints;
}

abbrev pub evaluator : NativeYamlEvaluator
evaluator = record {
  source = codes "f";
  bundle =
      normalized runtime (policy_file "access_control" eu_rule)
        (to_fields ((name (codes "rules"), seq (cons eu_rule nil)) ∷ []));
  rules = eu ∷ [];
  defaults = record { unknown_metadata = deny; policy_version_mismatch = deny };
  policy_id = codes "p";
  policy_version_hash = digest;
}

abbrev pub mail : Rule
mail = record {
  rule_name = codes "mail";
  when_clause = [];
  require_clause = entries mail_constraints;
}

abbrev pub mail_evaluator : NativeYamlEvaluator
mail_evaluator = record {
  source = codes "f";
  bundle =
      normalized runtime (policy_file "tool_call_control" mail_rule)
        (to_fields ((name (codes "rules"), seq (cons mail_rule nil)) ∷ []));
  rules = mail ∷ [];
  defaults = record { unknown_metadata = deny; policy_version_mismatch = deny };
  policy_id = codes "p";
  policy_version_hash = digest;
}
