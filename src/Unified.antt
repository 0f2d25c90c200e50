-- ===== src/Unified.antt =====
-- The unified policy of provenex/policy/unified.py: the blocking policy and an evaluator for each
-- domain, read from one file.
pub mod Guards
mod Tests
use provenex_core.Prelude.{
  ℕ, String, pos, Bool, true, false, Option, none, some, List, [], ◌∷◌, if◌then◌else◌, Result, ok,
  err, ◌>>=◌, ◌>>◌, policy_parse_error, unsupported_policy_feature, type_error,
}
use provenex_core.Text.{Text, codes}
use provenex_core.Value.{
  Value, null, bool, int, text, seq, dict, Fields, end, Key, entries, get, to_fields, entry_of,
  items, value_eq,
}
use provenex_core.Rules.{Runtime, ChunkContext, RequestContext, ToolCallContext}
use provenex_core.Rules.Validate.{refuse_unknown_keys}
use provenex_core.Policy.{VerificationPolicy, default_policy}
use provenex_core.Access.{
  NativeYamlEvaluator, PolicyDecision, construct_from_bundle, evaluate, null_evaluate, or_default,
}
use provenex_core.ToolCall.{construct_tool_call, evaluate_tool_call, null_evaluate_tool_call}

-- The protocols PolicyEvaluator and ToolCallPolicyEvaluator.
pub record Evaluator (Context : Type 0) : Type 0 where
  pub evaluator_name : Text
  pub policy_id : Text
  pub policy_version_hash : Text
  pub decide_on : Context → RequestContext → Result PolicyDecision

pub record UnifiedPolicy : Type 0 where
  pub verification : VerificationPolicy
  pub access_control : Option (Evaluator ChunkContext)
  pub tool_call_control : Option (Evaluator ToolCallContext)

abbrev pub verification_keys : List Text
verification_keys =
    codes "block_stale"
    ∷ codes "block_unauthorized"
    ∷ codes "block_unverified"
    ∷ codes "block_tampered"
    ∷ codes "flag_stale"
    ∷ codes "flag_unauthorized"
    ∷ codes "flag_unverified"
    ∷ codes "flag_tampered"
    ∷ []

abbrev pub unified_yaml_top_keys : List Text
unified_yaml_top_keys =
    codes "version"
    ∷ codes "policy_id"
    ∷ codes "description"
    ∷ codes "verification"
    ∷ codes "access_control"
    ∷ codes "tool_call_control"
    ∷ []

pub all_booleans : List (Key × Value) → Result (Unit {0})
all_booleans [] = ok tt
all_booleans ((k, bool b) ∷ es) = all_booleans es
all_booleans ((k, _) ∷ es) = err policy_parse_error

-- block.get(key, default), once every value is a boolean
abbrev pub flag : String → Bool → Fields → Bool
flag key default fs = elim (get (codes key) fs) [ some (bool b) ↦ b | _ ↦ default ]

-- The policy that the keys of a block change the defaults to.
abbrev pub overridden : VerificationPolicy → Fields → VerificationPolicy
overridden d fs = record {
  block_stale = flag "block_stale" d.block_stale fs;
  block_unauthorized = flag "block_unauthorized" d.block_unauthorized fs;
  block_unverified = flag "block_unverified" d.block_unverified fs;
  block_tampered = flag "block_tampered" d.block_tampered fs;
  flag_stale = flag "flag_stale" d.flag_stale fs;
  flag_unauthorized = flag "flag_unauthorized" d.flag_unauthorized fs;
  flag_unverified = flag "flag_unverified" d.flag_unverified fs;
  flag_tampered = flag "flag_tampered" d.flag_tampered fs;
}

-- What a caller passes as a policy.
pub data PolicyArgument : Type 0 where
  no_policy : PolicyArgument
  unified : UnifiedPolicy → PolicyArgument
  verification_only : VerificationPolicy → PolicyArgument
  unrecognised : PolicyArgument

abbrev pub only : VerificationPolicy → UnifiedPolicy
only p = record { verification = p; access_control = none; tool_call_control = none }

unfoldable pub coerce_policy : PolicyArgument → Result UnifiedPolicy
coerce_policy no_policy = ok (only (default_policy none))
coerce_policy (unified p) = ok p
coerce_policy (verification_only p) = ok (only p)
coerce_policy unrecognised = err type_error

-- build_access_control_metadata and build_tool_call_control_metadata
unfoldable pub control_metadata : {Context : Type 0} → Evaluator Context → List Value → Fields
control_metadata e decisions = to_fields (
    entry_of "evaluator" (text e.evaluator_name)
    ∷ entry_of "policy_id" (text e.policy_id)
    ∷ entry_of "policy_version_hash" (text e.policy_version_hash)
    ∷ entry_of "policy_in_transparency_log" (bool false)
    ∷ entry_of "decisions" (seq (items decisions))
    ∷ [])

module _ (r : Runtime) where
  abbrev pub native_evaluator : NativeYamlEvaluator → Evaluator ChunkContext
  native_evaluator e = record {
    evaluator_name = codes "native_yaml";
    policy_id = e.policy_id;
    policy_version_hash = e.policy_version_hash;
    decide_on = evaluate r e;
  }

  abbrev pub native_tool_evaluator : NativeYamlEvaluator → Evaluator ToolCallContext
  native_tool_evaluator e = record {
    evaluator_name = codes "native_yaml";
    policy_id = e.policy_id;
    policy_version_hash = e.policy_version_hash;
    decide_on = evaluate_tool_call r e;
  }

  unfoldable pub parse_verification : Option Value → Result VerificationPolicy
  unfolding all_booleans
  parse_verification none = ok (default_policy none)
  parse_verification (some null) = ok (default_policy none)
  parse_verification (some (dict fs)) = do
    refuse_unknown_keys r verification_keys (entries fs)
    all_booleans (entries fs)
    ok (overridden (default_policy none) fs)
  parse_verification (some _) = err policy_parse_error

  pub require_version_one : Option Value → Result (Unit {0})
  require_version_one v =
      if value_eq r.other_eq (or_default (int (pos 1)) v) (int (pos 1))
      then ok tt
      else err policy_parse_error

  -- A section that is missing or None has no evaluator.
  pub section_evaluator {ℓ} :
      {E : Type ℓ}
      → Option Value
      → Result NativeYamlEvaluator
      → (NativeYamlEvaluator → E)
      → Result (Option E)
  section_evaluator none built wrap = ok none
  section_evaluator (some null) built wrap = ok none
  section_evaluator (some v) built wrap = built >>= λ e. ok (some (wrap e))

  -- Policy._from_bundle
  unfoldable pub from_bundle : Text → Value → Result UnifiedPolicy
  unfolding require_version_one section_evaluator
  from_bundle source (dict fs) = do
    refuse_unknown_keys r unified_yaml_top_keys (entries fs)
    require_version_one (get (codes "version") fs)
    verification ← parse_verification (get (codes "verification") fs)
    access ←
        section_evaluator (get (codes "access_control") fs)
          (construct_from_bundle r source (dict fs)) native_evaluator
    tools ←
        section_evaluator (get (codes "tool_call_control") fs)
          (construct_tool_call r source (dict fs)) native_tool_evaluator
    ok (record { verification = verification; access_control = access; tool_call_control = tools })
  from_bundle source _ = err policy_parse_error

  -- What the file's loader answers to the caller that validates it.
  pub accepted {ℓ} : {A : Type ℓ} → Result A → Result Bool
  accepted (ok a) = ok true
  accepted (err policy_parse_error) = ok false
  accepted (err unsupported_policy_feature) = ok false
  accepted (err e) = err e

  -- Policy.from_text, over the YAML parser
  unfoldable pub from_text : (Text → Result Value) → Text → Text → Result UnifiedPolicy
  from_text load_yaml source content = do bundle ← load_yaml content; from_bundle source bundle

  legacy : (Text → Result Value) → Text → Text → Result Bool → Result Bool
  legacy load_yaml source content (ok false) =
      accepted (load_yaml content >>= construct_from_bundle r source)
  legacy load_yaml source content outcome = outcome

  -- validate_policy_file, for what the file holds if it exists
  unfoldable pub validate_policy_file : (Text → Result Value) → Text → Option Text → Result Bool
  unfolding accepted legacy
  validate_policy_file load_yaml path none = ok false
  validate_policy_file load_yaml path (some content) =
      legacy load_yaml path content (accepted (from_text load_yaml path content))
