-- ===== src/Rules/Constraint.antt =====
-- `_check_constraint` and the loop of `evaluate` that both evaluators have.
use provenex_core.Prelude.{
  ℕ, ℤ, pos, negsuc, ◌-ℤ◌, at_most, Bool, true, false, not, Option, none, some, List, [], ◌∷◌, ◌++◌,
  if◌then◌else◌, ltb, leb, length, Result, ok, err, ◌>>=◌, type_error,
}
use provenex_core.Text.{Text, codes}
use provenex_core.Value.{
  Value, bool, int, text, seq, dict, other, Fields, Key, get, value_eq, contains, truth_int,
}
use provenex_core.Rules.{Runtime, RequestContext, Rule, Choice, allow, deny, max_pattern_input_len}
use provenex_core.Rules.Duration.{parse_duration, parse_iso8601}
use provenex_core.Rules.Resolve.{Subject, resolve_path, when_matches}

-- The operators in the order of the tests: the first that the mapping has decides alone.
pub first_of : Option Value → (Value → Result Bool) → Result Bool → Result Bool
first_of none check rest = rest
first_of (some v) check rest = check v

module _ (r : Runtime) where
  pub check_in : Value → Value → Result Bool
  check_in (seq allowed) actual = ok (contains r.other_eq allowed actual)
  check_in _ actual = ok false

  pub check_not_in : Value → Value → Result Bool
  check_not_in (seq denied) actual = ok (not (contains r.other_eq denied actual))
  check_not_in _ actual = ok false

  -- A malformed timestamp is a denial; a malformed duration raises.
  within_age : Result ℤ → Result ℤ → ℕ → Bool
  within_age (ok actual) (ok now) max_age = at_most (now -ℤ actual) max_age
  within_age (err e) now max_age = false
  within_age (ok actual) (err e) max_age = false

  pub check_age : Value → Value → RequestContext → Result Bool
  unfolding within_age
  check_age limit (text actual) q = do
    max_age ← parse_duration r limit
    ok (within_age (parse_iso8601 r actual) (parse_iso8601 r q.timestamp) max_age)
  check_age limit _ q = ok false

  pub matches : Value → Text → Result Bool
  matches (text pattern) s = ok (r.fnmatchcase s pattern)
  matches _ s = err type_error

  pub check_pattern : Value → Value → Result Bool
  unfolding matches
  check_pattern pattern (text s) =
      if ltb max_pattern_input_len (length s) then ok false else matches pattern s
  check_pattern pattern _ = ok false

  pub check_no_pattern : Value → Value → Result Bool
  unfolding matches
  check_no_pattern pattern (text s) =
      if ltb max_pattern_input_len (length s)
      then ok false
      else matches pattern s >>= λ m. ok (not m)
  check_no_pattern pattern _ = ok false

  -- len(actual) <= cap
  int_cap : ℕ → ℤ → Bool
  int_cap n (pos m) = leb n m
  int_cap n (negsuc m) = false

  pub length_le : ℕ → Value → Result Bool
  unfolding int_cap
  length_le n (int z) = ok (int_cap n z)
  length_le n (bool b) = ok (int_cap n (truth_int b))
  length_le n (other m) = r.at_most_other n m
  length_le n _ = err type_error

  pub check_length : Value → Value → Result Bool
  unfolding length_le
  check_length cap (text s) = length_le (length s) cap
  check_length cap _ = ok false

  unfoldable pub check_operators : Fields → Value → RequestContext → Result Bool
  unfolding check_in check_not_in check_age check_pattern check_no_pattern check_length first_of
  check_operators fs actual q =
      first_of (get (codes "in") fs) (λ v. check_in v actual)
        (first_of (get (codes "not_in") fs) (λ v. check_not_in v actual)
          (first_of (get (codes "not_older_than") fs) (λ v. check_age v actual q)
            (first_of (get (codes "matches_pattern") fs) (λ v. check_pattern v actual)
              (first_of (get (codes "not_matches_pattern") fs) (λ v. check_no_pattern v actual)
                (first_of (get (codes "length_at_most") fs) (λ v. check_length v actual)
                  (ok false))))))

  pub missing_passes : Choice → Bool
  missing_passes allow = true
  missing_passes deny = false

  unfoldable pub check_constraint : Choice → RequestContext → Value → Option Value → Result Bool
  unfolding missing_passes
  check_constraint unknown q constraint none = ok (missing_passes unknown)
  check_constraint unknown q (dict fs) (some actual) = check_operators fs actual q
  check_constraint unknown q constraint (some actual) = ok (value_eq r.other_eq actual constraint)

  -- One `require` entry, and all of them up to the first that fails.
  unfoldable pub check_entry : Choice → Subject → Key × Value → Result Bool
  check_entry unknown s (path, constraint) = do
    actual ← resolve_path r s path
    check_constraint unknown s.request constraint actual

  unfoldable pub check_all : Choice → Subject → List (Key × Value) → Result Bool
  check_all unknown s [] = ok true
  check_all unknown s (e ∷ es) = do
    okay ← check_entry unknown s e
    if okay then check_all unknown s es else ok false

  -- A rule that does not apply is passed over.
  unfoldable pub applied : Bool → Result Bool → Result Bool
  applied true checked = checked
  applied false checked = ok true

  -- The loop over the rules, with the names of the rules that fired so far.
  unfoldable pub decide : Choice → Subject → List Rule → List Text → Result (Choice × List Text)
  unfolding applied
  decide unknown s [] fired = ok (allow, fired)
  decide unknown s (rule ∷ rules) fired = do
    applies ← when_matches r s rule.when_clause
    okay ← applied applies (check_all unknown s rule.require_clause)
    let fired' = if applies then fired ++ rule.rule_name ∷ [] else fired
    if okay then decide unknown s rules fired' else ok (deny, fired')
