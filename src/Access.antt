-- ===== src/Access.antt =====
-- The retrieval policy of provenex/policy/yaml_evaluator.py and provenex/policy/evaluator.py: a
-- bundle that YAML was parsed into, the evaluator built from it, and its decisions.
pub mod FailClosed
pub mod Eager
pub mod Session
mod Tests
pub mod Sample
use provenex_core.Prelude.{
  ℕ, pos, Bool, true, false, Option, none, some, List, [], ◌∷◌, if◌then◌else◌, Result, ok, err,
  ◌>>=◌, policy_parse_error,
}
use provenex_core.Text.{Text, codes}
use provenex_core.Value.{
  Value, null, int, text, seq, dict, Fields, end, field, Key, name, Items, elements, get, or_null,
  optional_text, set_default, value_eq, truthy,
}
use provenex_core.Rules.{
  Runtime, ChunkContext, RequestContext, Rule, Choice, allow, Defaults, chunk_domain_roots,
  value_hash,
}
use provenex_core.Rules.Validate.{validate_rules, validate_defaults}
use provenex_core.Rules.Resolve.{Subject}
use provenex_core.Rules.Constraint.{decide}

pub record PolicyDecision : Type 0 where
  pub decision : Choice
  pub rules_fired : List Text
  pub inputs_hash : Text
  pub inputs : Option Value
  pub metadata_binding : Option Fields

pub record NativeYamlEvaluator : Type 0 where
  pub source : Text
  pub bundle : Fields
  pub rules : List Rule
  pub defaults : Defaults
  pub policy_id : Text
  pub policy_version_hash : Text

abbrev pub optional_field : Text → Option Text → Fields → Fields
optional_field key none fs = fs
optional_field key (some s) fs = set_default key (text s) fs

-- The part of the inputs that is read from the request.
abbrev pub request_inputs : RequestContext → Value
request_inputs q = dict (
    field (name (codes "caller")) (dict q.caller) (
      field (name (codes "jurisdiction")) (optional_text q.jurisdiction) (
        field (name (codes "purpose")) (optional_text q.purpose)
          (field (name (codes "timestamp")) (text q.timestamp) end))))

unfoldable pub build_inputs : ChunkContext → RequestContext → Value
build_inputs c q =
    let tagged = optional_field (codes "ingested_at") c.ingested_at c.metadata in
    let chunk_meta = optional_field (codes "content_source") c.content_source tagged in
    dict (
      field (name (codes "chunk_metadata")) (dict chunk_meta)
        (field (name (codes "request_context")) (request_inputs q) end))

-- `d[key]` where a bundle has a key that is kept only if it is there
abbrev pub copy_field : Text → Fields → Fields → Fields
copy_field key from rest = elim (get key from) [ none ↦ rest | some v ↦ field (name key) v rest ]

abbrev pub or_default : Value → Option Value → Value
or_default d none = d
or_default d (some v) = v

module _ (r : Runtime) where
  pub require_version : Option Value → Result (Unit {0})
  require_version v =
      if value_eq r.other_eq (or_null v) (int (pos 1)) then ok tt else err policy_parse_error

  pub rule_values : Option Value → Result (List Value)
  rule_values (some (seq vs)) = ok (elements vs)
  rule_values _ = err policy_parse_error

  unfoldable pub validate_bundle : List Text → Fields → Result (List Rule)
  unfolding require_version rule_values
  validate_bundle roots fs = do
    version ← require_version (get (codes "version") fs)
    values ← rule_values (get (codes "rules") fs)
    validate_rules r roots values

  unfoldable pub read_policy_id : Fields → Result Text
  read_policy_id fs = elim (get (codes "policy_id") fs) [
    | some (text (c ∷ s)) ↦ ok (c ∷ s)
    | _ ↦ err policy_parse_error
  ]

  -- `__init__`, for the roots of the evaluator's domain
  unfoldable pub load : List Text → Text → Fields → Result NativeYamlEvaluator
  load roots source fs = do
    rules ← validate_bundle roots fs
    defaults ← validate_defaults r (get (codes "defaults") fs)
    id ← read_policy_id fs
    hash ← value_hash r (dict fs)
    ok (record {
      source = source;
      bundle = fs;
      rules = rules;
      defaults = defaults;
      policy_id = id;
      policy_version_hash = hash;
    })

  -- The bundle that a section of a unified file stands for.
  unfoldable pub normalized : Fields → Fields → Fields
  normalized outer inner =
      let id = or_null (get (codes "policy_id") outer) in
      field (name (codes "version")) (or_default (int (pos 1)) (get (codes "version") outer)) (
        field (name (codes "policy_id"))
          (if truthy r.other_truth id then id else or_null (get (codes "policy_id") inner))
          (field (name (codes "rules")) (or_default (seq Items.nil) (get (codes "rules") inner))
            (copy_field (codes "defaults") inner (copy_field (codes "description") outer end))))

  -- `_construct_from_bundle`, for the section's key
  unfoldable pub construct : Text → List Text → Text → Value → Result NativeYamlEvaluator
  construct section roots source (dict fs) = elim (get section fs) [
    | none ↦ load roots source fs
    | some (dict inner) ↦ load roots source (normalized fs inner)
    | some _ ↦ err policy_parse_error
  ]
  construct section roots source _ = err policy_parse_error

  -- NativeYamlEvaluator._construct_from_bundle
  unfoldable pub construct_from_bundle : Text → Value → Result NativeYamlEvaluator
  construct_from_bundle source bundle =
      construct (codes "access_control") chunk_domain_roots source bundle

  unfoldable pub evaluate :
      NativeYamlEvaluator → ChunkContext → RequestContext → Result PolicyDecision
  evaluate e c q = do
    let inputs = build_inputs c q
    hash ← value_hash r inputs
    let subject : Subject = record { chunk = some c; tool = none; request = q }
    (decision, fired) ← decide r e.defaults.unknown_metadata subject e.rules []
    ok (record {
      decision = decision;
      rules_fired = fired;
      inputs_hash = hash;
      inputs = some inputs;
      metadata_binding = none;
    })

  -- NullPolicyEvaluator.evaluate
  unfoldable pub null_evaluate : ChunkContext → RequestContext → Result PolicyDecision
  null_evaluate c q = do
    let inputs = build_inputs c q
    hash ← value_hash r inputs
    ok (record {
      decision = allow;
      rules_fired = [];
      inputs_hash = hash;
      inputs = some inputs;
      metadata_binding = none;
    })
