-- ===== src/Ocsf/Events/Latest.antt =====
-- The decision that the events of a receipt take for a key: the last one recorded under it.
use provenex_core.Prelude.{
  String, ◌≡◌, refl, sym, ap, subst, ◌∙◌, ◌⊎◌, inl, inr, Bool, true, false, Option, none, some,
  List, [], ◌∷◌, Result, ok, ◌>>=◌, >>=-eq-ok, ok-injective, if◌then◌else◌, Bool-cases,
}
use provenex_core.Text.{Text, codes}
use provenex_core.Value.{Value, null, bool, int, text, seq, dict, other, Fields}
use provenex_core.Ocsf.{Host, read, fields_of, same}
use provenex_core.Ocsf.Events.{Decisions, lookup, hashable, decisions_by, decision_for}

module _ (h : Host) (keeps : Text → Value → Result Bool) (k : String) where
  -- The decision `v` is the dictionary `fs`, it counts, and it has the key `key`.
  pub record Matches (key v : Value) (fs : Fields) : Type 0 where
    pub is_dict : v ≡ dict fs
    pub counts : keeps (codes k) v ≡ ok true
    pub has_key : same h (read k fs) key ≡ true

  -- The last of the decisions that matches, if one does.
  pub data Latest (key : Value) : List Value → Option Fields → Type 0 where
    absent : Latest key [] none
    later :
        {v : Value} {ds : List Value} {d : Fields}
        → Latest key ds (some d)
        → Latest key (v ∷ ds) (some d)
    here :
        {v : Value} {ds : List Value} {d : Fields}
        → Latest key ds none
        → Matches key v d
        → Latest key (v ∷ ds) (some d)
    passed :
        {v : Value} {ds : List Value}
        → Latest key ds none
        → ((d : Fields) → Matches key v d → ⊥)
        → Latest key (v ∷ ds) none

  fields_of-dict : (v : Value) (fs : Fields) → fields_of v ≡ ok fs → v ≡ dict fs
  fields_of-dict (dict gs) fs e = ap dict (ok-injective e)
  fields_of-dict null fs e = absurd (cc e)
  fields_of-dict (bool b) fs e = absurd (cc e)
  fields_of-dict (int z) fs e = absurd (cc e)
  fields_of-dict (text s) fs e = absurd (cc e)
  fields_of-dict (seq vs) fs e = absurd (cc e)
  fields_of-dict (other n) fs e = absurd (cc e)

  Found : Value → List Value → Decisions h → Decisions h → Type 0
  Found key vs seen table =
      ((fs : Fields) × Latest key vs (some fs) × (lookup h key table ≡ some fs))
      ⊎ (Latest key vs none × (lookup h key table ≡ lookup h key seen))

  dict-injective : {fs gs : Fields} → dict fs ≡ dict gs → fs ≡ gs
  dict-injective e = cc

  Found-kept :
      (key v : Value) (vs : List Value) (seen table : Decisions h) (fs : Fields)
      → keeps (codes k) v ≡ ok true
      → v ≡ dict fs
      → Found key vs ((read k fs, fs) ∷ seen) table
      → Found key (v ∷ vs) seen table
  unfolding Found lookup
  Found-kept key v vs seen table fs c e (inl (d, l, q)) = inl (d, later l, q)
  Found-kept key v vs seen table fs c e (inr (l, q)) = elim (Bool-cases (same h (read k fs) key)) [
    | inl t ↦ inl (fs, here l (record { is_dict = e; counts = c; has_key = t }), q ∙ rw t refl)
    | inr t ↦ inr (
      passed l (λ d m.
          let s = dict-injective (sym e ∙ m.is_dict) in
          let yes = subst (λ g. same h (read k g) key ≡ true) (sym s) m.has_key in cc),
      q ∙ rw t refl,
    )
  ]

  Found-step :
      (key v : Value) (vs : List Value) (seen table : Decisions h)
      → ((s : Decisions h) → decisions_by h keeps k vs s ≡ ok table → Found key vs s table)
      → (b : Bool) → keeps (codes k) v ≡ ok b
      → (if b
          then (fields_of v >>= λ fs.
              hashable h (read k fs) >>= λ _. decisions_by h keeps k vs ((read k fs, fs) ∷ seen))
          else decisions_by h keeps k vs seen)
        ≡ ok table
      → Found key (v ∷ vs) seen table
  unfolding Found
  Found-step key v vs seen table ih true c e =
      let (fs, f, e₁) = >>=-eq-ok (fields_of v) _ e in
      let (_, _, e₂) = >>=-eq-ok (hashable h (read k fs)) _ e₁ in
      Found-kept key v vs seen table fs c (fields_of-dict v fs f) (ih ((read k fs, fs) ∷ seen) e₂)
  Found-step key v vs seen table ih false c e = elim (ih seen e) [
    | inl (d, l, q) ↦ inl (d, later l, q)
    | inr (l, q) ↦ inr (passed l (λ d m. let yes = m.counts in cc), q)
  ]

  decisions_by-Found :
      (key : Value) (vs : List Value) (seen table : Decisions h)
      → decisions_by h keeps k vs seen ≡ ok table
      → Found key vs seen table
  unfolding decisions_by Found
  decisions_by-Found key [] seen table e = inr (absent, ap (lookup h key) (sym (ok-injective e)))
  decisions_by-Found key (v ∷ vs) seen table e =
      let (b, c, e₁) = >>=-eq-ok (keeps (codes k) v) _ e in
      Found-step key v vs seen table (λ s. decisions_by-Found key vs s table) b c e₁

  -- What the dictionary of the decisions answers is the last of them that matches.
  pub decision_for-Latest :
      (record_key : String) (fields : Fields) (ds : List Value) (table : Decisions h)
      (d : Option Fields)
      → decisions_by h keeps k ds [] ≡ ok table
      → decision_for h record_key fields table ≡ ok d
      → Latest (read record_key fields) ds d
  unfolding Found lookup
  decision_for-Latest record_key fields ds table d t e =
      let (_, _, q) = >>=-eq-ok (hashable h (read record_key fields)) _ e in
      let same_answer = ok-injective q in
      elim (decisions_by-Found (read record_key fields) ds [] table t) [
        | inl (fs, l, a) ↦ subst (Latest (read record_key fields) ds) (sym a ∙ same_answer) l
        | inr (l, a) ↦ subst (Latest (read record_key fields) ds) (sym a ∙ same_answer) l
      ]
