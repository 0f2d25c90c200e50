-- ===== src/Merkle/Paths.antt =====
-- `_proof` returns the RFC 6962 audit path, and keeps the memo true.
use native.Mathlib.Decide.{dec_lt}
use provenex_core.Prelude.{
  ℕ, zero, suc, ◌+◌, ◌-◌, ◌^◌, ◌≤◌, ◌<◌, ◌≡◌, refl, true, false, List, [], ◌∷◌, ◌++◌, arith, length,
  leb, ltb, ok, ◌>>=◌, Returns, returns, Returns-bind,
}
use provenex_core.Merkle.{Bytes, Cache, largest_pow2_lt, mth, proof}
use provenex_core.Merkle.Split.{SplitsAt, largest_pow2_lt_lem, pow_pos}
use provenex_core.Merkle.Spec.{AuditPath, alone, left, right}
use provenex_core.Merkle.Memo.{IsTrue, mth-Hashed}

module _ (sha256 : Bytes → Bytes) where
  -- The audit path of a leaf, and a memo that is still true.
  pub record Audited (hs : List Bytes) (lo n m : ℕ) (out : List Bytes × Cache) : Type 0 where
    pub path : AuditPath sha256 hs lo n m out.0
    pub memo : IsTrue sha256 hs out.1

  proof_stop :
      (fuel : ℕ) (hs : List Bytes) (m lo hi : ℕ) (c : Cache)
      → leb (hi - lo) 1 ≡ true
      → proof sha256 (suc fuel) hs m lo hi c ≡ ok ([], c)
  unfolding proof
  proof_stop fuel hs m lo hi c e = rw (e, proof)

  proof_left :
      (fuel : ℕ) (hs : List Bytes) (m lo hi k : ℕ) (c : Cache)
      → leb (hi - lo) 1 ≡ false
      → largest_pow2_lt (hi - lo) ≡ k
      → ltb m (lo + k) ≡ true
      → proof sha256 (suc fuel) hs m lo hi c ≡ (
          proof sha256 fuel hs m lo (lo + k) c >>= λ (p, c₁).
          mth sha256 fuel hs (lo + k) hi c₁ >>= λ (s, c₂). ok (p ++ s ∷ [], c₂))
  unfolding proof
  proof_left fuel hs m lo hi k c e p l = rw (e, proof) (rw (p, proof) (rw (l, proof) (rw (← p))))

  proof_right :
      (fuel : ℕ) (hs : List Bytes) (m lo hi k : ℕ) (c : Cache)
      → leb (hi - lo) 1 ≡ false
      → largest_pow2_lt (hi - lo) ≡ k
      → ltb m (lo + k) ≡ false
      → proof sha256 (suc fuel) hs m lo hi c ≡ (
          proof sha256 fuel hs m (lo + k) hi c >>= λ (p, c₁).
          mth sha256 fuel hs lo (lo + k) c₁ >>= λ (s, c₂). ok (p ++ s ∷ [], c₂))
  unfolding proof
  proof_right fuel hs m lo hi k c e p l = rw (e, proof) (rw (p, proof) (rw (l, proof) (rw (← p))))

  abbrev AuditsWith : ℕ → List Bytes → Type 0
  AuditsWith fuel hs =
      (m lo hi n i : ℕ) (c : Cache)
      → hi ≡ lo + n
      → m ≡ lo + i
      → i < n
      → n ≤ fuel
      → hi ≤ length hs
      → IsTrue sha256 hs c
      → Returns (Audited hs lo n i) (proof sha256 fuel hs m lo hi c)

  Audited-node :
      (fuel : ℕ) (hs : List Bytes) (m lo hi n i : ℕ) (c : Cache)
      → AuditsWith fuel hs
      → hi ≡ lo + n
      → m ≡ lo + i
      → i < n
      → n ≤ suc fuel
      → hi ≤ length hs
      → IsTrue sha256 hs c
      → 1 < n
      → (d : ℕ) → largest_pow2_lt n ≡ 2 ^ d
      → SplitsAt d n
      → Returns (Audited hs lo n i) (proof sha256 (suc fuel) hs m lo hi c)
  Audited-node fuel hs m lo hi n i c ih e g b f q t two d k s =
      let width : hi - lo ≡ n = omega arith in
      let long : leb (hi - lo) 1 ≡ false = ground arith in
      let half : largest_pow2_lt (hi - lo) ≡ 2 ^ d = rw width k in
      elim (dec_lt i (2 ^ d)) [
        | yes l ↦ rw (proof_left fuel hs m lo hi (2 ^ d) c long half (ground arith)) (
            Returns-bind
              (ih m lo (lo + 2 ^ d) (2 ^ d) i c refl g l (omega (arith, s.below))
                (omega (arith, s.below)) t)
              λ (p, c₁) u.
                Returns-bind
                  (mth-Hashed sha256 fuel hs (lo + 2 ^ d) hi (n - 2 ^ d) c₁ (omega (arith, s.below))
                    (omega (arith, pow_pos d)) (omega (arith, s.below)) q u.memo)
                  λ (y, c₂) v.
                    returns (record { path = left d p y s l u.path v.hash refl; memo = v.memo }))
        | no r ↦ rw (proof_right fuel hs m lo hi (2 ^ d) c long half (ground arith)) (
            Returns-bind
              (ih m (lo + 2 ^ d) hi (n - 2 ^ d) (i - 2 ^ d) c (omega (arith, s.below)) (omega arith)
                (omega arith) (omega (arith, pow_pos d)) q t)
              λ (p, c₁) u.
                Returns-bind
                  (mth-Hashed sha256 fuel hs lo (lo + 2 ^ d) (2 ^ d) c₁ refl
                    (omega (arith, s.below)) (pow_pos d) (omega (arith, s.below)) u.memo)
                  λ (x, c₂) v. returns (record {
                    path = right d p x s (omega arith) u.path v.hash refl;
                    memo = v.memo;
                  }))
      ]

  -- With fuel for the number of leaves, `_proof` returns the audit path.
  pub proof-Audited : (fuel : ℕ) (hs : List Bytes) → AuditsWith fuel hs
  proof-Audited zero hs m lo hi n i c e g b f q t = absurd (omega arith)
  proof-Audited (suc fuel) hs m lo hi n i c e g b f q t = elim (dec_lt 1 n) [
    | no single ↦
        let width : hi - lo ≡ 1 = omega arith in
        rw (proof_stop fuel hs m lo hi c (rw width))
          (returns (record { path = alone (omega arith) refl; memo = t }))
    | yes two ↦
        let w = largest_pow2_lt_lem n two in
        Audited-node fuel hs m lo hi n i c (proof-Audited fuel hs) e g b f q t two w.0 w.1 w.2
  ]
