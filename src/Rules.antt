-- ===== src/Rules.antt =====
-- The rules of provenex/policy/yaml_evaluator.py, which both policy domains share: durations,
-- the validation of a rule and of the defaults, paths, `when` clauses and constraints.
pub mod Duration
pub mod Validate
pub mod Resolve
pub mod Constraint
pub mod Admits
pub mod Accepted
pub mod Checked
pub mod Known
pub mod Sample
use provenex_core.Prelude.{
  ℕ, ℤ, Bool, true, false, Option, none, some, List, [], ◌∷◌, ◌++◌, if◌then◌else◌, ◌==◌, nat_eq,
  list_eq, Result, ok, err, ◌>>=◌, ◌>>◌, policy_parse_error, type_error, unsupported_policy_feature,
}
use provenex_core.Text.{Text, codes, utf8}
use provenex_core.Value.{Value, dict, text, null, Fields, Key, name, other_key}

-- What the rules ask of the interpreter and of its library.
pub record Runtime : Type 1 where
  -- `==` and bool() of an object of another type
  pub other_eq : ℕ → Value → Bool
  pub other_truth : ℕ → Bool
  -- getattr(v, name) of a value that is no dictionary
  pub attribute : Value → Text → Option Value
  -- a context object, where a path names it whole
  pub context : ℕ
  -- whether sorted() accepts keys that are no strings
  pub sortable : List ℕ → Bool
  -- `in` of a container that is no list, and `<=` with a float on the right
  pub in_container : Value → Value → Result Bool
  pub at_most_other : ℕ → ℕ → Result Bool
  -- `\s` and `\d` of a regular expression
  pub is_space : ℕ → Bool
  pub digit : ℕ → Option ℕ
  -- fnmatch.fnmatchcase(s, pattern)
  pub fnmatchcase : Text → Text → Bool
  -- datetime.fromisoformat, tzinfo, replace(tzinfo=utc) and int(timestamp())
  pub DateTime : Type 0
  pub fromisoformat : Text → Option DateTime
  pub has_timezone : DateTime → Bool
  pub as_utc : DateTime → DateTime
  pub epoch : DateTime → ℤ
  -- json.dumps with sorted keys and tight separators, and hexdigest() of hashlib.sha256
  -- and of hmac.new with sha256
  pub dumps : Value → Result Text
  pub sha256_hex : List ℕ → Text
  pub hmac_hex : List ℕ → List ℕ → Text

pub record ChunkContext : Type 0 where
  pub fingerprint : Text
  pub document_id : Option Text
  pub document_version : Option Text
  pub ingested_at : Option Text
  pub metadata : Fields
  pub content_source : Option Text

pub record RequestContext : Type 0 where
  pub caller : Fields
  pub jurisdiction : Option Text
  pub purpose : Option Text
  pub timestamp : Text
  pub session_id : Option Text

pub record ToolCallContext : Type 0 where
  pub tool_name : Text
  pub operation : Text
  pub parameters : Fields
  pub target_system : Option Text
  pub invocation_id : Option Text

-- A rule that was validated; `on_violation` can only be "deny".
pub record Rule : Type 0 where
  pub rule_name : Text
  pub when_clause : List (Key × Value)
  pub require_clause : List (Key × Value)

pub data Choice : Type 0 where
  allow : Choice
  deny : Choice

pub record Defaults : Type 0 where
  pub unknown_metadata : Choice
  pub policy_version_mismatch : Choice

abbrev pub chunk_domain_roots : List Text
chunk_domain_roots = codes "chunk" ∷ codes "request" ∷ []

abbrev pub tool_call_domain_roots : List Text
tool_call_domain_roots = codes "tool" ∷ codes "request" ∷ []

abbrev pub max_pattern_input_len : ℕ
max_pattern_input_len = 65536

abbrev pub member : Text → List Text → Bool
member s [] = false
member s (t ∷ ts) = if s == t then true else member s ts

-- compute_policy_version_hash and compute_inputs_hash
unfoldable pub canonical_bytes : Runtime → Value → Result (List ℕ)
canonical_bytes r v = do line ← r.dumps v; ok (utf8 line)

unfoldable pub value_hash : Runtime → Value → Result Text
value_hash r v = do bytes ← canonical_bytes r v; ok (codes "sha256:" ++ r.sha256_hex bytes)
