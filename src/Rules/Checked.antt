-- ===== src/Rules/Checked.antt =====
-- Constraints that validation accepted, and the rules that hold them: no call raises.
use provenex_core.Prelude.{
  ◌≡◌, Bool, true, false, Option, none, some, List, [], ◌∷◌, ◌++◌, All, Result, ok, >>=-eq-ok,
  if◌then◌else◌, pos, returns, nat_eq, list_eq,
}
use provenex_core.Text.{Text, codes}
use provenex_core.Value.{Value, int, text, seq, dict, Fields, Key, get, entries}
use provenex_core.Rules.{Runtime, RequestContext, Rule, Choice}
use provenex_core.Rules.Duration.{parse_duration}
use provenex_core.Rules.Validate.{
  validate_path_root, refuse_unknown_keys, validate_constraint, each, require_list, require_text,
  require_duration, require_length, known_require_operators,
}
use provenex_core.Rules.Resolve.{Subject}
use provenex_core.Rules.Constraint.{
  check_operators, check_constraint, check_entry, check_all, decide, applied, check_in,
  check_not_in, check_age, check_pattern, check_no_pattern, check_length, first_of,
}
use provenex_core.Rules.Accepted.{AreKnown, IsDotted, Ok, if-Ok, bind-Ok, path-Ok, when-Ok}
use provenex_core.Rules.Known.{WasValidated}

abbrev pub HasDots : Rule → Type 0
HasDots rule = All IsDotted rule.when_clause × All IsDotted rule.require_clause

module _ (r : Runtime) (s : Subject) (roots : List Text) (known : AreKnown roots) where
  -- What validation found of each operator.
  abbrev AreShaped : Value → Type 0
  AreShaped (dict fs) =
      (require_duration r (get (codes "not_older_than") fs) ≡ ok tt)
      × ((require_text r (get (codes "matches_pattern") fs) ≡ ok tt)
          × ((require_text r (get (codes "not_matches_pattern") fs) ≡ ok tt)
              × (require_length r (get (codes "length_at_most") fs) ≡ ok tt)))
  AreShaped _ = Unit

  check_in-Ok : (v w : Value) → Ok (check_in r v w) × Ok (check_not_in r v w)
  unfolding check_operators
  check_in-Ok (seq vs) w = (returns tt, returns tt)
  check_in-Ok v w = (returns tt, returns tt)

  duration-Ok : (v : Value) → require_duration r (some v) ≡ ok tt → Ok (parse_duration r v)
  unfolding validate_constraint
  duration-Ok v h = let (n, e, _) = >>=-eq-ok (parse_duration r v) _ h in rw e (returns tt)

  check_age-Ok :
      (v w : Value) (q : RequestContext)
      → require_duration r (some v) ≡ ok tt
      → Ok (check_age r v w q)
  unfolding check_operators
  check_age-Ok v (text t) q h = bind-Ok (duration-Ok v h) (λ n. returns tt)
  check_age-Ok v w q h = returns tt

  pattern-Ok :
      (v w : Value)
      → require_text r (some v) ≡ ok tt
      → Ok (check_pattern r v w) × Ok (check_no_pattern r v w)
  unfolding check_operators validate_constraint
  pattern-Ok (text p) (text t) h =
      (if-Ok _ (returns tt) (returns tt), if-Ok _ (returns tt) (returns tt))
  pattern-Ok (text p) w h = (returns tt, returns tt)
  pattern-Ok v w h = absurd (cc h)

  length-Ok : (v w : Value) → require_length r (some v) ≡ ok tt → Ok (check_length r v w)
  unfolding check_operators validate_constraint
  length-Ok (int (pos n)) (text t) h = returns tt
  length-Ok (int (pos n)) w h = returns tt
  length-Ok v w h = absurd (cc h)

  first-Ok :
      (P : Option Value → Type 0) (o : Option Value) (f : Value → Result Bool) (m : Result Bool)
      → P o
      → ((v : Value) → P (some v) → Ok (f v))
      → Ok m
      → Ok (first_of o f m)
  unfolding check_operators
  first-Ok P none f m p k x = x
  first-Ok P (some v) f m p k x = k v p

  operators-Ok :
      (fs : Fields) (w : Value) (q : RequestContext)
      → AreShaped (dict fs)
      → Ok (check_operators r fs w q)
  unfolding check_operators
  operators-Ok fs w q (h1, (h2, (h3, h4))) =
      first-Ok (λ _. Unit) _ _ _ tt (λ v _. (check_in-Ok v w).0)
        (first-Ok (λ _. Unit) _ _ _ tt (λ v _. (check_in-Ok v w).1)
          (first-Ok (λ o. require_duration r o ≡ ok tt) _ _ _ h1 (λ v p. check_age-Ok v w q p)
            (first-Ok (λ o. require_text r o ≡ ok tt) _ _ _ h2 (λ v p. (pattern-Ok v w p).0)
              (first-Ok (λ o. require_text r o ≡ ok tt) _ _ _ h3 (λ v p. (pattern-Ok v w p).1)
                (first-Ok (λ o. require_length r o ≡ ok tt) _ _ _ h4 (λ v p. length-Ok v w p)
                  (returns tt))))))

  constraint-AreShaped :
      (k : Key) (v : Value)
      → validate_constraint r roots (k, v) ≡ ok tt
      → (validate_path_root r roots k ≡ ok tt) × AreShaped v
  unfolding validate_constraint
  constraint-AreShaped k (dict fs) h =
      let (_, p, h1) = >>=-eq-ok (validate_path_root r roots k) _ h in
      let (_, _, h2) =
        >>=-eq-ok (refuse_unknown_keys r known_require_operators (entries fs)) _ h1 in
      let (_, _, h3) = >>=-eq-ok (require_list r (get (codes "in") fs)) _ h2 in
      let (_, _, h4) = >>=-eq-ok (require_list r (get (codes "not_in") fs)) _ h3 in
      let (_, d, h5) = >>=-eq-ok (require_duration r (get (codes "not_older_than") fs)) _ h4 in
      let (_, m, h6) = >>=-eq-ok (require_text r (get (codes "matches_pattern") fs)) _ h5 in
      let (_, n, l) = >>=-eq-ok (require_text r (get (codes "not_matches_pattern") fs)) _ h6 in
      (p, (d, (m, (n, l))))
  constraint-AreShaped k v h = (h, tt)

  checked-Ok :
      (unknown : Choice) (v : Value) (o : Option Value)
      → AreShaped v
      → Ok (check_constraint r unknown s.request v o)
  unfolding check_constraint
  checked-Ok unknown v none h = returns tt
  checked-Ok unknown (dict fs) (some w) h = operators-Ok fs w s.request h
  checked-Ok unknown v (some w) h = returns tt

  check_all-Ok :
      (unknown : Choice) (es : List (Key × Value))
      → All IsDotted es
      → each (validate_constraint r roots) es ≡ ok tt
      → Ok (check_all r unknown s es)
  unfolding check_all check_entry each
  check_all-Ok unknown [] d h = returns tt
  check_all-Ok unknown ((k, v) ∷ es) d h =
      let (_, c, hs) = >>=-eq-ok (validate_constraint r roots (k, v)) _ h in
      let (p, shaped) = constraint-AreShaped k v c in
      bind-Ok (bind-Ok (path-Ok r s roots known k v d.0 p) (λ o. checked-Ok unknown v o shaped))
        (λ b. if-Ok b (check_all-Ok unknown es d.1 hs) (returns tt))

  applied-Ok : (b : Bool) {m : Result Bool} → Ok m → Ok (applied r b m)
  unfolding applied
  applied-Ok true x = x
  applied-Ok false x = returns tt

  pub decide-Ok :
      (unknown : Choice) (rules : List Rule) (fired : List Text)
      → All (WasValidated r roots) rules
      → All HasDots rules
      → Ok (decide r unknown s rules fired)
  unfolding decide
  decide-Ok unknown [] fired a d = returns tt
  decide-Ok unknown (rule ∷ rules) fired a d =
      bind-Ok (when-Ok r s roots known rule.when_clause d.0.0 a.0.0) (λ b.
        bind-Ok (applied-Ok b (check_all-Ok unknown rule.require_clause d.0.1 a.0.1)) (λ okay.
          if-Ok okay
            (decide-Ok unknown rules (if b then fired ++ rule.rule_name ∷ [] else fired) a.1 d.1)
            (returns tt)))
