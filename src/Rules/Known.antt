-- ===== src/Rules/Known.antt =====
-- What the rules and bundles that validation accepts look like: the keys of a mapping that was not
-- refused are known, and each rule of the result was validated.
use provenex_core.Prelude.{
  ℕ, ◌≡◌, refl, subst, true, false, List, [], ◌∷◌, All, ok, >>=-eq-ok, ok-injective, Bool-cases,
  inl, inr,
}
use provenex_core.Text.{Text, codes}
use provenex_core.Value.{Value, dict, Key, name, other_key, get, entries}
use provenex_core.Rules.{Runtime, Rule, member}
use provenex_core.Rules.Validate.{
  refuse_extras, extra_names, extra_others, refuse_unknown_keys, validate_path_root, each,
  validate_condition, validate_constraint, validate_rule, validate_rules, known_require_operators,
  clause, check_no_reserved_keys, rule_label, only_deny, rule_keys,
}

-- The key is a string that is allowed.
abbrev pub IsKnownKey : List Text → Key × Value → Type 0
IsKnownKey allowed (name s, v) = member s allowed ≡ true
IsKnownKey allowed (other_key n, v) = false ≡ true

extras-none :
    (allowed : List Text) (es : List (Key × Value))
    → extra_names allowed es ≡ []
    → extra_others es ≡ []
    → All (IsKnownKey allowed) es
unfolding refuse_unknown_keys
extras-none allowed [] h k = tt
extras-none allowed ((name s, v) ∷ es) h k = elim (Bool-cases (member s allowed)) [
  | inl e ↦ (e, extras-none allowed es (rw e at h) k)
  | inr e ↦ absurd (cc (rw e at h))
]
extras-none allowed ((other_key n, v) ∷ es) h k = absurd (cc k)

module _ (r : Runtime) where
  refuse_extras-none :
      (names : List Text) (others : List ℕ)
      → refuse_extras r names others ≡ ok tt
      → (names ≡ []) × (others ≡ [])
  unfolding refuse_unknown_keys
  refuse_extras-none [] [] h = (refl, refl)
  refuse_extras-none (s ∷ names) [] h = absurd (cc h)
  refuse_extras-none [] (n ∷ others) h = elim (Bool-cases (r.sortable (n ∷ others))) [
    | inl e ↦ absurd (cc (rw e at h))
    | inr e ↦ absurd (cc (rw e at h))
  ]
  refuse_extras-none (s ∷ names) (n ∷ others) h = absurd (cc h)

  pub refuse_unknown_keys-known :
      (allowed : List Text) (es : List (Key × Value))
      → refuse_unknown_keys r allowed es ≡ ok tt
      → All (IsKnownKey allowed) es
  unfolding refuse_unknown_keys
  refuse_unknown_keys-known allowed es h =
      let (p, q) = refuse_extras-none (extra_names allowed es) (extra_others es) h in
      extras-none allowed es p q

  -- A constraint that is a mapping has known operators only.
  abbrev pub HasKnownOperators : Key × Value → Type 0
  HasKnownOperators (k, dict fs) = All (IsKnownKey known_require_operators) (entries fs)
  HasKnownOperators (k, v) = Unit

  constraint-HasKnownOperators :
      (roots : List Text) (k : Key) (v : Value)
      → validate_constraint r roots (k, v) ≡ ok tt
      → HasKnownOperators (k, v)
  unfolding validate_constraint
  constraint-HasKnownOperators roots k (dict fs) h =
      let (_, _, h1) = >>=-eq-ok (validate_path_root r roots k) _ h in
      let (_, u, _) = >>=-eq-ok (refuse_unknown_keys r known_require_operators (entries fs)) _ h1 in
      refuse_unknown_keys-known known_require_operators (entries fs) u
  constraint-HasKnownOperators roots k v h = tt

  pub constraints-HasKnownOperators :
      (roots : List Text) (es : List (Key × Value))
      → each (validate_constraint r roots) es ≡ ok tt
      → All HasKnownOperators es
  unfolding each
  constraints-HasKnownOperators roots [] h = tt
  constraints-HasKnownOperators roots ((k, v) ∷ es) h =
      let (_, c, hs) = >>=-eq-ok (validate_constraint r roots (k, v)) _ h in
      (constraint-HasKnownOperators roots k v c, constraints-HasKnownOperators roots es hs)

  -- Each clause of the rule was validated.
  abbrev pub WasValidated : List Text → Rule → Type 0
  WasValidated roots rule =
      (each (validate_condition r roots) rule.when_clause ≡ ok tt)
      × (each (validate_constraint r roots) rule.require_clause ≡ ok tt)

  validate_rule-WasValidated :
      (roots : List Text) (v : Value) {rule : Rule}
      → validate_rule r roots v ≡ ok rule
      → WasValidated roots rule
  unfolding validate_rule
  validate_rule-WasValidated roots (dict fs) {rule} h =
      let (label, _, h1) = >>=-eq-ok (rule_label r (get (codes "name") fs)) _ h in
      let (_, _, h2) = >>=-eq-ok (check_no_reserved_keys (entries fs)) _ h1 in
      let (_, _, h3) = >>=-eq-ok (refuse_unknown_keys r rule_keys (entries fs)) _ h2 in
      let (conditions, _, h4) = >>=-eq-ok (clause r (get (codes "when") fs)) _ h3 in
      let (_, _, h5) = >>=-eq-ok (check_no_reserved_keys conditions) _ h4 in
      let (_, c, h6) = >>=-eq-ok (each (validate_condition r roots) conditions) _ h5 in
      let (constraints, _, h7) = >>=-eq-ok (clause r (get (codes "require") fs)) _ h6 in
      let (_, _, h8) = >>=-eq-ok (check_no_reserved_keys constraints) _ h7 in
      let (_, d, h9) = >>=-eq-ok (each (validate_constraint r roots) constraints) _ h8 in
      let (_, _, h10) = >>=-eq-ok (only_deny r (get (codes "on_violation") fs)) _ h9 in
      subst (WasValidated roots) (ok-injective h10) (c, d)
  validate_rule-WasValidated roots v h = absurd (cc h)

  pub validate_rules-WasValidated :
      (roots : List Text) (vs : List Value) {rules : List Rule}
      → validate_rules r roots vs ≡ ok rules
      → All (WasValidated roots) rules
  unfolding validate_rules
  validate_rules-WasValidated roots [] h = subst (All (WasValidated roots)) (ok-injective h) tt
  validate_rules-WasValidated roots (v ∷ vs) h =
      let (rule, e, h1) = >>=-eq-ok (validate_rule r roots v) _ h in
      let (rules, es, h2) = >>=-eq-ok (validate_rules r roots vs) _ h1 in
      subst (All (WasValidated roots)) (ok-injective h2)
        (validate_rule-WasValidated roots v e, validate_rules-WasValidated roots vs es)
