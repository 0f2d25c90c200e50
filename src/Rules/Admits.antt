-- ===== src/Rules/Admits.antt =====
-- What the loop over the rules decides: allow if every rule admits the subject, deny at the first
-- rule that does not.
use provenex_core.Prelude.{
  ℕ, suc, ◌≡◌, refl, sym, ap, subst, ◌∙◌, ◌⊎◌, inl, inr, Bool, true, false, some, List, [], ◌∷◌,
  ◌++◌, All, take, get_elem?, Result, ok, err, >>=-eq-ok, ok-injective, Bool-cases,
}
use mathlib.Core.List.{append_assoc, append-nil}
use provenex_core.Text.{Text}
use provenex_core.Value.{Value, Key}
use provenex_core.Rules.{Runtime, Rule, Choice, allow, deny}
use provenex_core.Rules.Resolve.{Subject, when_matches}
use provenex_core.Rules.Constraint.{check_entry, check_all, decide}

module _ (r : Runtime) (unknown : Choice) (s : Subject) where
  -- A `require` entry is met.
  abbrev pub Satisfied : Key × Value → Type 0
  Satisfied e = check_entry r unknown s e ≡ ok true

  -- A rule admits the subject if it does not apply, or if each of its constraints is met.
  abbrev pub Admits : Rule → Type 0
  Admits rule =
      (when_matches r s rule.when_clause ≡ ok false)
      ⊎ ((when_matches r s rule.when_clause ≡ ok true) × All Satisfied rule.require_clause)

  abbrev pub label_if : Result Bool → Rule → List Text → List Text
  label_if (ok true) rule names = rule.rule_name ∷ names
  label_if (ok false) rule names = names
  label_if (err e) rule names = names

  -- The names of the rules that apply, in order.
  unfoldable pub applying : List Rule → List Text
  applying [] = []
  applying (rule ∷ rules) = label_if (when_matches r s rule.when_clause) rule (applying rules)

  -- The rule that denies: the rules before it admit the subject, it applies, and one of its
  -- constraints fails.
  pub record Denial (rules : List Rule) (fired : List Text) : Type 0 where
    pub place : ℕ
    pub rule : Rule
    pub found : get_elem? rules place ≡ some rule
    pub before : All Admits (take place rules)
    pub applies : when_matches r s rule.when_clause ≡ ok true
    pub entry_place : ℕ
    pub entry : Key × Value
    pub entry_found : get_elem? rule.require_clause entry_place ≡ some entry
    pub fails : check_entry r unknown s entry ≡ ok false
    pub trace : fired ≡ applying (take place rules) ++ rule.rule_name ∷ []

  pub check_all-true :
      (es : List (Key × Value)) → check_all r unknown s es ≡ ok true → All Satisfied es
  unfolding check_all
  check_all-true [] h = tt
  check_all-true (e ∷ es) h =
      let (b, q, k) = >>=-eq-ok (check_entry r unknown s e) _ h in
      elim (Bool-cases b) [
        | inl t ↦ (rw t at q, check_all-true es (rw t at k))
        | inr t ↦ absurd (cc (rw t at k))
      ]

  pub All-check_all :
      (es : List (Key × Value)) → All Satisfied es → check_all r unknown s es ≡ ok true
  unfolding check_all
  All-check_all [] h = refl
  All-check_all (e ∷ es) h = rw h.0 (All-check_all es h.1)

  pub check_all-false :
      (es : List (Key × Value))
      → check_all r unknown s es ≡ ok false
      → (i : ℕ) × (e : Key × Value) × (get_elem? es i ≡ some e)
        × (check_entry r unknown s e ≡ ok false)
  unfolding check_all
  check_all-false [] h = cc
  check_all-false (e ∷ es) h =
      let (b, q, k) = >>=-eq-ok (check_entry r unknown s e) _ h in
      elim (Bool-cases b) [
        | inl t ↦ let (i, f, g, m) = check_all-false es (rw t at k) in (suc i, f, g, m)
        | inr t ↦ (0, e, refl, rw t at q)
      ]

  -- A rule in front that admits the subject.
  Denial-cons :
      (rule : Rule) (rules : List Rule) (fired : List Text)
      → Admits rule
      → Denial rules fired
      → Denial (rule ∷ rules) (label_if (when_matches r s rule.when_clause) rule fired)
  unfolding applying
  Denial-cons rule rules fired a d = record {
    place = suc d.place;
    rule = d.rule;
    found = d.found;
    before = (a, d.before);
    applies = d.applies;
    entry_place = d.entry_place;
    entry = d.entry;
    entry_found = d.entry_found;
    fails = d.fails;
    trace = elim a [ inl n ↦ rw n (d.trace) | inr m ↦ rw m.0 (rw d.trace) ];
  }

  abbrev pub Decided : List Rule → Choice → List Text → Type 0
  Decided rules allow fired = All Admits rules × (fired ≡ applying rules)
  Decided rules deny fired = Denial rules fired

  Decided-cons :
      (rule : Rule) (rules : List Rule) (c : Choice) (fired : List Text)
      → Admits rule
      → Decided rules c fired
      → Decided (rule ∷ rules) c (label_if (when_matches r s rule.when_clause) rule fired)
  unfolding applying
  Decided-cons rule rules allow fired a d = ((a, d.0), rw d.1)
  Decided-cons rule rules deny fired a d = Denial-cons rule rules fired a d

  first-Denial :
      (rule : Rule) (rules : List Rule)
      → when_matches r s rule.when_clause ≡ ok true
      → check_all r unknown s rule.require_clause ≡ ok false
      → Denial (rule ∷ rules) (rule.rule_name ∷ [])
  unfolding applying
  first-Denial rule rules applies fails =
      let (i, e, g, m) = check_all-false rule.require_clause fails in
      record {
        place = 0;
        rule = rule;
        found = refl;
        before = tt;
        applies = applies;
        entry_place = i;
        entry = e;
        entry_found = g;
        fails = m;
        trace = refl;
      }

  pub decide_lem :
      (rules : List Rule) (fired : List Text) {c : Choice} {out : List Text}
      → decide r unknown s rules fired ≡ ok (c, out)
      → (names : List Text) × (out ≡ fired ++ names) × Decided rules c names
  unfolding decide applying
  decide_lem [] fired h =
      subst (λ p. (names : List Text) × (p.1 ≡ fired ++ names) × Decided [] p.0 names)
        (ok-injective h) ([], sym (append-nil fired), (tt, refl))
  decide_lem (rule ∷ rules) fired {c} {out} h =
      let (b, q, k) = >>=-eq-ok (when_matches r s rule.when_clause) _ h in
      elim (Bool-cases b) [
        | inl t ↦
            let applies = rw t at q in
            let (b', q', k') =
              >>=-eq-ok (check_all r unknown s rule.require_clause) _ (rw t at k) in
            elim (Bool-cases b') [
              | inl t' ↦
                  let met = check_all-true rule.require_clause (rw t' at q') in
                  let (names, e, d) =
                    decide_lem rules (fired ++ rule.rule_name ∷ []) (rw t' at k') in
                  (
                    rule.rule_name ∷ names,
                    e ∙ append_assoc fired (rule.rule_name ∷ []) names,
                    subst (Decided (rule ∷ rules) c) (ap (λ m. label_if m rule names) applies)
                        (Decided-cons rule rules c names (inr (applies, met)) d),
                  )
              | inr t' ↦
                  subst
                    (λ p.
                      (names : List Text) × (p.1 ≡ fired ++ names)
                      × Decided (rule ∷ rules) p.0 names)
                    (ok-injective (rw t' at k'))
                    (rule.rule_name ∷ [], refl, first-Denial rule rules applies (rw t' at q'))
            ]
        | inr t ↦
            let skipped = rw t at q in
            let (names, e, d) = decide_lem rules fired (rw t at k) in
            (
              names,
              e,
              subst (Decided (rule ∷ rules) c) (ap (λ m. label_if m rule names) skipped)
                  (Decided-cons rule rules c names (inl skipped) d),
            )
      ]

  pub Admits-decide :
      (rules : List Rule) (fired : List Text)
      → All Admits rules
      → (names : List Text) × (decide r unknown s rules fired ≡ ok (allow, names))
  unfolding decide
  Admits-decide [] fired h = (fired, refl)
  Admits-decide (rule ∷ rules) fired h = elim h.0 [
    | inl n ↦ rw n (Admits-decide rules fired h.1)
    | inr m ↦ rw m.0 (
        rw (All-check_all rule.require_clause m.1)
          (Admits-decide rules (fired ++ rule.rule_name ∷ []) h.1))
  ]
