-- ===== src/Rules/Validate.antt =====
-- `_validate_rule`, `_validate_defaults` and the checks of keys and of paths. A call that raises
-- answers its error; the messages are left out, but not the sorting of the keys they name.

use provenex_core.Prelude.{
  ℕ, pos, Bool, false, Option, none, some, List, [], ◌∷◌, if◌then◌else◌, nat_eq, list_eq, Result,
  ok, err, ◌>>=◌, ◌>>◌, policy_parse_error, type_error, unsupported_policy_feature,
}
use provenex_core.Text.{Text, codes, has_char, split}
use provenex_core.Value.{
  Value, null, int, text, seq, dict, Key, name, other_key, entries, get, value_eq, truthy,
}
use provenex_core.Rules.{Runtime, Rule, Choice, allow, deny, Defaults, member}
use provenex_core.Rules.Duration.{parse_duration}

abbrev pub reserved_rule_keys : List Text
reserved_rule_keys = codes "any_of" ∷ codes "all_of" ∷ codes "not" ∷ codes "nested" ∷ []

abbrev pub known_require_operators : List Text
known_require_operators =
    codes "in"
    ∷ codes "not_in"
    ∷ codes "not_older_than"
    ∷ codes "matches_pattern"
    ∷ codes "not_matches_pattern"
    ∷ codes "length_at_most"
    ∷ []

abbrev pub rule_keys : List Text
rule_keys = codes "name" ∷ codes "when" ∷ codes "require" ∷ codes "on_violation" ∷ []

abbrev pub default_keys : List Text
default_keys = codes "unknown_metadata" ∷ codes "policy_version_mismatch" ∷ []

abbrev pub is_reserved : Key → Bool
is_reserved (name s) = member s reserved_rule_keys
is_reserved (other_key n) = false

unfoldable pub check_no_reserved_keys : List (Key × Value) → Result (Unit {0})
check_no_reserved_keys [] = ok tt
check_no_reserved_keys ((k, v) ∷ d) =
    if is_reserved k then err unsupported_policy_feature else check_no_reserved_keys d

-- set(d) - allowed, as the strings and the other keys in it
pub extra_names : List Text → List (Key × Value) → List Text
extra_names allowed [] = []
extra_names allowed ((name s, v) ∷ d) =
    let rest = extra_names allowed d in if member s allowed then rest else s ∷ rest
extra_names allowed ((other_key n, v) ∷ d) = extra_names allowed d

pub extra_others : List (Key × Value) → List ℕ
extra_others [] = []
extra_others ((name s, v) ∷ d) = extra_others d
extra_others ((other_key n, v) ∷ d) = n ∷ extra_others d

-- The last component of a path's root: path.split(".", 1)[0]
pub root_of : List Text → Text
root_of [] = []
root_of (s ∷ parts) = s

unfoldable pub root_allowed : List Text → Text → Bool
unfolding root_of
root_allowed roots path = member (root_of (split b'.' path)) roots

-- A loop of checks; the first that raises ends it.
unfoldable pub each : (Key × Value → Result (Unit {0})) → List (Key × Value) → Result (Unit {0})
each check [] = ok tt
each check (e ∷ es) = check e >> each check es

module _ (r : Runtime) where
  -- The message names sorted(extras), which raises TypeError for keys that cannot be compared.
  pub refuse_extras : List Text → List ℕ → Result (Unit {0})
  refuse_extras [] [] = ok tt
  refuse_extras (s ∷ names) [] = err policy_parse_error
  refuse_extras [] (n ∷ others) =
      if r.sortable (n ∷ others) then err policy_parse_error else err type_error
  refuse_extras (s ∷ names) (n ∷ others) = err type_error

  unfoldable pub refuse_unknown_keys : List Text → List (Key × Value) → Result (Unit {0})
  unfolding refuse_extras extra_names extra_others
  refuse_unknown_keys allowed d = refuse_extras (extra_names allowed d) (extra_others d)

  unfoldable pub validate_path_root : List Text → Key → Result (Unit {0})
  validate_path_root roots (other_key n) = ok tt
  validate_path_root roots (name path) =
      if has_char b'.' path
      then if root_allowed roots path then ok tt else err policy_parse_error
      else ok tt

  -- `rule.get(key) or {}`, which must be a dictionary
  unfoldable pub clause : Option Value → Result (List (Key × Value))
  clause none = ok []
  clause (some (dict fs)) = ok (entries fs)
  clause (some v) = if truthy r.other_truth v then err policy_parse_error else ok []

  pub require_list : Option Value → Result (Unit {0})
  require_list none = ok tt
  require_list (some (seq vs)) = ok tt
  require_list (some _) = err policy_parse_error

  pub require_text : Option Value → Result (Unit {0})
  require_text none = ok tt
  require_text (some (text s)) = ok tt
  require_text (some _) = err policy_parse_error

  pub require_duration : Option Value → Result (Unit {0})
  require_duration none = ok tt
  require_duration (some v) = do seconds ← parse_duration r v; ok tt

  pub require_length : Option Value → Result (Unit {0})
  require_length none = ok tt
  require_length (some (int (pos n))) = ok tt
  require_length (some _) = err policy_parse_error

  unfoldable pub validate_condition : List Text → Key × Value → Result (Unit {0})
  unfolding require_list
  validate_condition roots (k, dict fs) = do
    validate_path_root roots k
    refuse_unknown_keys (codes "in" ∷ []) (entries fs)
    require_list (get (codes "in") fs)
  validate_condition roots (k, v) = validate_path_root roots k

  unfoldable pub validate_constraint : List Text → Key × Value → Result (Unit {0})
  unfolding require_list require_text require_duration require_length
  validate_constraint roots (k, dict fs) = do
    validate_path_root roots k
    refuse_unknown_keys known_require_operators (entries fs)
    require_list (get (codes "in") fs)
    require_list (get (codes "not_in") fs)
    require_duration (get (codes "not_older_than") fs)
    require_text (get (codes "matches_pattern") fs)
    require_text (get (codes "not_matches_pattern") fs)
    require_length (get (codes "length_at_most") fs)
  validate_constraint roots (k, v) = validate_path_root roots k

  pub rule_label : Option Value → Result Text
  rule_label (some (text (c ∷ s))) = ok (c ∷ s)
  rule_label _ = err policy_parse_error

  pub only_deny : Option Value → Result (Unit {0})
  only_deny none = ok tt
  only_deny (some v) =
      if value_eq r.other_eq v (text (codes "deny")) then ok tt else err policy_parse_error

  -- `_validate_rule`, for the roots that the rule's domain allows
  unfoldable pub validate_rule : List Text → Value → Result Rule
  unfolding rule_label only_deny
  validate_rule roots (dict fs) = do
    label ← rule_label (get (codes "name") fs)
    check_no_reserved_keys (entries fs)
    refuse_unknown_keys rule_keys (entries fs)
    conditions ← clause (get (codes "when") fs)
    check_no_reserved_keys conditions
    each (validate_condition roots) conditions
    constraints ← clause (get (codes "require") fs)
    check_no_reserved_keys constraints
    each (validate_constraint roots) constraints
    only_deny (get (codes "on_violation") fs)
    ok (record { rule_name = label; when_clause = conditions; require_clause = constraints })
  validate_rule roots _ = err policy_parse_error

  default_choice : Option Value → Result Choice
  default_choice none = ok deny
  default_choice (some v) =
      if value_eq r.other_eq v (text (codes "allow"))
      then ok allow
      else if value_eq r.other_eq v (text (codes "deny"))
      then ok deny
      else err policy_parse_error

  unfoldable pub validate_defaults : Option Value → Result Defaults
  unfolding default_choice
  validate_defaults none = ok (record { unknown_metadata = deny; policy_version_mismatch = deny })
  validate_defaults (some null) =
      ok (record { unknown_metadata = deny; policy_version_mismatch = deny })
  validate_defaults (some (dict fs)) = do
    refuse_unknown_keys default_keys (entries fs)
    metadata ← default_choice (get (codes "unknown_metadata") fs)
    mismatch ← default_choice (get (codes "policy_version_mismatch") fs)
    ok (record { unknown_metadata = metadata; policy_version_mismatch = mismatch })
  validate_defaults (some _) = err policy_parse_error

  unfoldable pub validate_rules : List Text → List Value → Result (List Rule)
  validate_rules roots [] = ok []
  validate_rules roots (v ∷ vs) = do
    rule ← validate_rule roots v
    rules ← validate_rules roots vs
    ok (rule ∷ rules)
