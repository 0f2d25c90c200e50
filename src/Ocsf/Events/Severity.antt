-- ===== src/Ocsf/Events/Severity.antt =====
-- The severity of a finding on a blocked source, and the decision that a key finds.
use mathlib.Core.List.{Memᴰ}
use provenex_core.Prelude.{
  ℕ, String, ◌≡◌, refl, ◌∙◌, Bool, true, false, ◌||◌, Option, none, some, List, [], ◌∷◌, ok, Yields,
  Yields-bind, Yields-ok, Yields-if, All, Bool-cases, inl, inr, arith, ok-injective,
}
use provenex_core.Text.{codes}
use provenex_core.Value.{Value, null, bool, int, text, seq, dict, other, Fields}
use provenex_core.Ocsf.{Host, denies, same}
use provenex_core.Ocsf.Events.{blame, blame_policy, blocked_by_verification, rules_of, title_rules}

abbrev pub flaws : List String
flaws = "TAMPERED" ∷ "UNAUTHORIZED" ∷ "UNVERIFIED" ∷ "STALE" ∷ []

module _ (h : Host) where
  -- The severity that a source of the outcome `v` has, where the decision on it is `d`: critical for
  -- the four outcomes other than VERIFIED, high for a denial of any other, and else medium.
  pub data Severity (v : Value) (d : Option Fields) : ℕ → String → Type 0 where
    critical :
        (s : String) → Memᴰ s flaws → same h v (text (codes s)) ≡ true → Severity v d 5 "Critical"
    high :
        All (λ s. same h v (text (codes s)) ≡ false) flaws
        → denies h d ≡ true
        → Severity v d 4 "High"
    medium :
        All (λ s. same h v (text (codes s)) ≡ false) flaws
        → denies h d ≡ false
        → Severity v d 3 "Medium"

  abbrev is_flaw : Value → Bool
  is_flaw v =
      same h v (text (codes "TAMPERED"))
      || same h v (text (codes "UNAUTHORIZED"))
      || same h v (text (codes "UNVERIFIED"))
      || same h v (text (codes "STALE"))

  is_flaw-critical : (v : Value) (d : Option Fields) → is_flaw v ≡ true → Severity v d 5 "Critical"
  is_flaw-critical v d e = elim (Bool-cases (same h v (text (codes "TAMPERED")))) [
    | inl t ↦ critical "TAMPERED" (Memᴰ.head refl) t
    | inr t ↦ elim (Bool-cases (same h v (text (codes "UNAUTHORIZED")))) [
      | inl a ↦ critical "UNAUTHORIZED" (Memᴰ.tail (Memᴰ.head refl)) a
      | inr a ↦ elim (Bool-cases (same h v (text (codes "UNVERIFIED")))) [
        | inl u ↦ critical "UNVERIFIED" (Memᴰ.tail (Memᴰ.tail (Memᴰ.head refl))) u
        | inr u ↦
            critical "STALE" (Memᴰ.tail (Memᴰ.tail (Memᴰ.tail (Memᴰ.head refl))))
              (ground (arith, e, t, a, u))
      ]
    ]
  ]

  not_flaw-All :
      (v : Value) → is_flaw v ≡ false → All (λ s. same h v (text (codes s)) ≡ false) flaws
  not_flaw-All v e =
      (ground (arith, e), (ground (arith, e), (ground (arith, e), (ground (arith, e), tt))))

  flaw_test : (v : Value) (b : Bool) → blocked_by_verification h v ≡ ok b → is_flaw v ≡ b
  flaw_test null b e = ok-injective e
  flaw_test (bool x) b e = ok-injective e
  flaw_test (int z) b e = ok-injective e
  flaw_test (text s) b e = ok-injective e
  flaw_test (seq vs) b e = absurd (cc e)
  flaw_test (dict fs) b e = absurd (cc e)
  flaw_test (other n) b e = ok-injective e

  blame_policy-Severity :
      (v : Value) (d : Option Fields)
      → is_flaw v ≡ false
      → Yields (λ why. Severity v d why.severity_id why.severity) (blame_policy h d v)
  blame_policy-Severity v none e = Yields-ok (medium (not_flaw-All v e) refl)
  blame_policy-Severity v (some d) e =
      Yields-if (denies h (some d))
        (λ t. Yields-bind (rules_of h d) λ rules _.
          Yields-bind (title_rules h "Access control denied chunk" rules)
            λ title _. Yields-ok (high (not_flaw-All v e) t))
        (λ t. Yields-ok (medium (not_flaw-All v e) t))

  pub blame-Severity :
      (v : Value) (d : Option Fields)
      → Yields (λ why. Severity v d why.severity_id why.severity) (blame h v d)
  unfolding blame
  blame-Severity v d = Yields-bind (blocked_by_verification h v) (λ b e.
      Yields-if b (λ t. Yields-ok (is_flaw-critical v d (flaw_test v b e ∙ t)))
        (λ t. blame_policy-Severity v d (flaw_test v b e ∙ t)))
