-- ===== src/Merkle/Spec.antt =====
-- RFC 6962, section 2.1: the Merkle tree hash and the audit path, as relations on ranges of leaves.
use provenex_core.Prelude.{
  ℕ, ◌+◌, ◌-◌, ◌^◌, ◌≤◌, ◌<◌, ◌≡◌, subst, sym, some, List, [], ◌∷◌, ◌++◌, arith, get_elem?,
}
use provenex_core.Merkle.{Bytes, hash_node}
use provenex_core.Merkle.Split.{SplitsAt, SplitsAt-unique, pow_pos}

not-SplitsAt-one : (d n : ℕ) → n ≡ 1 → ¬ SplitsAt d n
not-SplitsAt-one d n e s = omega (arith, s.below, pow_pos d)

module _ (sha256 : Bytes → Bytes) where
  -- `h` is MTH(D[lo : lo + n]), where `hs` are the leaf hashes of D.
  pub data Mth (hs : List Bytes) : ℕ → ℕ → Bytes → Type 0 where
    one : {lo n : ℕ} {h : Bytes} → n ≡ 1 → get_elem? hs lo ≡ some h → Mth hs lo n h
    split :
        {lo n : ℕ} {h : Bytes} (d : ℕ) (x y : Bytes)
        → SplitsAt d n
        → Mth hs lo (2 ^ d) x
        → Mth hs (lo + 2 ^ d) (n - 2 ^ d) y
        → h ≡ hash_node sha256 x y
        → Mth hs lo n h

  -- `p` is PATH(m, D[lo : lo + n]), with `m` counted from `lo`.
  pub data AuditPath (hs : List Bytes) : ℕ → ℕ → ℕ → List Bytes → Type 0 where
    alone : {lo n m : ℕ} {p : List Bytes} → n ≡ 1 → p ≡ [] → AuditPath hs lo n m p
    left :
        {lo n m : ℕ} {p : List Bytes} (d : ℕ) (q : List Bytes) (y : Bytes)
        → SplitsAt d n
        → m < 2 ^ d
        → AuditPath hs lo (2 ^ d) m q
        → Mth hs (lo + 2 ^ d) (n - 2 ^ d) y
        → p ≡ q ++ y ∷ []
        → AuditPath hs lo n m p
    right :
        {lo n m : ℕ} {p : List Bytes} (d : ℕ) (q : List Bytes) (x : Bytes)
        → SplitsAt d n
        → 2 ^ d ≤ m
        → AuditPath hs (lo + 2 ^ d) (n - 2 ^ d) (m - 2 ^ d) q
        → Mth hs lo (2 ^ d) x
        → p ≡ q ++ x ∷ []
        → AuditPath hs lo n m p

  Mth_left :
      (hs : List Bytes) (lo : ℕ) (x : Bytes) {d k : ℕ}
      → d ≡ k
      → Mth hs lo (2 ^ k) x
      → Mth hs lo (2 ^ d) x
  Mth_left hs lo x e = subst (λ k. Mth hs lo (2 ^ k) x) (sym e)

  Mth_right :
      (hs : List Bytes) (lo n : ℕ) (y : Bytes) {d k : ℕ}
      → d ≡ k
      → Mth hs (lo + 2 ^ k) (n - 2 ^ k) y
      → Mth hs (lo + 2 ^ d) (n - 2 ^ d) y
  Mth_right hs lo n y e = subst (λ k. Mth hs (lo + 2 ^ k) (n - 2 ^ k) y) (sym e)

  -- A range has one hash.
  pub Mth-unique :
      (hs : List Bytes) {lo n : ℕ} {h h' : Bytes} → Mth hs lo n h → Mth hs lo n h' → h ≡ h'
  Mth-unique hs (one e g) (one e' g') = cc
  Mth-unique hs (one e g) (split d x y s a b q) = absurd (not-SplitsAt-one d _ e s)
  Mth-unique hs (split d x y s a b q) (one e g) = absurd (not-SplitsAt-one d _ e s)
  Mth-unique hs {lo} {n} (split d x y s a b q) (split d' x' y' s' a' b' q') =
      let e = SplitsAt-unique d d' n s s' in
      cc (Mth-unique hs a (Mth_left hs lo x' e a'), Mth-unique hs b (Mth_right hs lo n y' e b'))

  -- The hash of one leaf is that leaf, and a longer range splits at its one split point.
  pub Mth-leaf :
      (hs : List Bytes) {lo n : ℕ} {h : Bytes} → n ≡ 1 → Mth hs lo n h → get_elem? hs lo ≡ some h
  Mth-leaf hs e (one _ g) = g
  Mth-leaf hs e (split d x y s a b q) = absurd (not-SplitsAt-one d _ e s)

  pub record Halves (hs : List Bytes) (lo n d : ℕ) (h : Bytes) : Type 0 where
    pub x : Bytes
    pub y : Bytes
    pub lower : Mth hs lo (2 ^ d) x
    pub upper : Mth hs (lo + 2 ^ d) (n - 2 ^ d) y
    pub join : h ≡ hash_node sha256 x y

  pub Mth-Halves :
      (hs : List Bytes) (d : ℕ) {lo n : ℕ} {h : Bytes}
      → SplitsAt d n
      → Mth hs lo n h
      → Halves hs lo n d h
  Mth-Halves hs d s (one e g) = absurd (not-SplitsAt-one d _ e s)
  Mth-Halves hs d {lo} {n} s (split k x y s' a b q) =
      let e = SplitsAt-unique d k n s s' in
      record {
        x = x;
        y = y;
        lower = Mth_left hs lo x e a;
        upper = Mth_right hs lo n y e b;
        join = q;
      }
