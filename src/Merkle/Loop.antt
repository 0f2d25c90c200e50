-- ===== src/Merkle/Loop.antt =====
-- The verifier's loop over an audit path ends at the root, with `sn` at 0.
use native.Mathlib.Decide.{dec_lt}
use native.Mathlib.Nat.{pow-le-pow_right}
use provenex_core.Prelude.{
  ℕ, zero, suc, ◌+◌, ◌-◌, ◌*◌, ◌/◌, ◌^◌, ◌≤◌, ◌<◌, ◌≡◌, refl, ◌∙◌, List, arith, some,
}
use provenex_core.Merkle.{Bytes, walk}
use provenex_core.Merkle.Split.{SplitsAt, SplitsAt-unique, pow_pos, pow_suc}
use provenex_core.Merkle.Climb.{
  Climb, here, from_left, from_right, at, step-left, step-odd, step-edge, walk-append, pow_add,
  lt-pow,
}

pow-eq-one : (d : ℕ) → 2 ^ d ≡ 1 → d ≡ 0
pow-eq-one d e = omega (arith, lt-pow d)

SplitsAt-pow : (d D : ℕ) → SplitsAt d (2 ^ D) → D ≡ suc d
SplitsAt-pow d zero s = omega (arith, s.below, pow_pos d)
SplitsAt-pow d (suc D) s = omega (
  arith,
  SplitsAt-unique d D (2 ^ suc D) s
      (record { below = omega (arith, pow_suc D, pow_pos D); above = omega arith }),
)

pub SplitsAt-lt : (d L n : ℕ) → SplitsAt d n → n ≤ 2 ^ L → d < L
SplitsAt-lt d L n s h = elim (dec_lt d L) [
  | yes l ↦ l
  | no g ↦
      absurd (
        omega
          (arith, s.below, pow-le-pow_right {n = 2} (omega arith) {i = L} {j = d} (omega arith)))
]

double_half : (R : ℕ) → 2 * R / 2 ≡ R
double_half R = omega arith

odd_half : (R : ℕ) → (2 * R + 1) / 2 ≡ R
odd_half R = omega arith

-- One bit of `sn` more, taken from the part below 2 ^ (d + 1).
record Halved (S d q : ℕ) : Type 0 where
  top : ℕ
  rest : ℕ
  same : S * 2 ^ suc d + q ≡ top * 2 ^ d + rest
  small : rest < 2 ^ d
  half : top / 2 ≡ S
  least : 2 * S ≤ top

halve : (S d q : ℕ) → q < 2 ^ suc d → Halved S d q
halve S d q h = elim (dec_lt q (2 ^ d)) [
  | yes low ↦ record {
    top = 2 * S;
    rest = q;
    same = rw (pow_suc d) (omega arith);
    small = low;
    half = omega arith;
    least = omega arith;
  }
  | no high ↦ record {
    top = 2 * S + 1;
    rest = q - 2 ^ d;
    same = rw (pow_suc d) (omega arith);
    small = omega (arith, pow_suc d);
    half = omega arith;
    least = omega arith;
  }
]

-- A * 2 ^ L as an even multiple of 2 ^ d, for d < L.
record Raised (d L A : ℕ) : Type 0 where
  exp : ℕ
  same : A * 2 ^ L ≡ 2 * (A * 2 ^ exp) * 2 ^ d

raise_by : (d k L A : ℕ) → L ≡ suc (d + k) → A * 2 ^ L ≡ 2 * (A * 2 ^ k) * 2 ^ d
raise_by d k L A e = rw e (rw (pow_suc (d + k), pow_add d k) (omega arith))

raise : (d L A : ℕ) → d < L → Raised d L A
raise d L A h = record { exp = L - d - 1; same = raise_by d (L - d - 1) L A (omega arith) }

module _ (sha256 : Bytes → Bytes) where
  -- Inside a full subtree `r` stays below `sn`, so each round goes up one level.
  walk_full :
      {n m : ℕ} {p : List Bytes} {g h : Bytes} (D R S q sn r : ℕ)
      → Climb sha256 n m p g h
      → n ≡ 2 ^ D
      → R < S
      → q < 2 ^ D
      → sn ≡ S * 2 ^ D + q
      → r ≡ R * 2 ^ D + m
      → walk sha256 p (at g sn r) ≡ some (at h S R)
  unfolding walk
  walk_full D R S q sn r (here e₁ e₂ e₃ e₄) e lt b a c =
      let z : D ≡ 0 = pow-eq-one D (omega arith) in
      let a' : sn ≡ S = omega (arith, rw z at a, rw z at b) in
      let c' : r ≡ R = omega (arith, rw z at c) in rw (e₃, a', c', e₄)
  walk_full D R S q sn r (from_left d u x y s l k e₃ e₄) e lt b a c =
      let z : D ≡ suc d = SplitsAt-pow d D (rw e at s) in
      let w = halve S d q (rw z at b) in
      let up =
        walk_full d (2 * R) w.top w.rest sn r k refl (omega (arith, w.least)) w.small
          (rw z at a ∙ w.same) (rw (z, pow_suc d) at c ∙ omega arith) in
      rw (e₃, e₄, walk-append sha256 u y _ _ up)
        (rw
          (step-left sha256 x y w.top (2 * R) (omega (arith, w.least)) (omega arith)
            (omega (arith, w.least)))
          (rw (w.half, double_half R)))
  walk_full {n} D R S q sn r (from_right d u x y s l k e₃ e₄) e lt b a c =
      let z : D ≡ suc d = SplitsAt-pow d D (rw e at s) in
      let w = halve S d q (rw z at b) in
      let full : n - 2 ^ d ≡ 2 ^ d = omega (arith, rw z at e, pow_suc d) in
      let up =
        walk_full d (2 * R + 1) w.top w.rest sn r k full (omega (arith, w.least)) w.small
          (rw z at a ∙ w.same) (rw (z, pow_suc d) at c ∙ omega arith) in
      rw (e₃, e₄, walk-append sha256 u x _ _ up)
        (rw (step-odd sha256 y x w.top (2 * R + 1) (omega (arith, w.least)) (omega arith))
          (rw (w.half, odd_half R)))

  -- At the right edge of the tree `r` and `sn` end as one number, the place of the subtree.
  pub walk_edge :
      {n m : ℕ} {p : List Bytes} {g h : Bytes} (A L sn r : ℕ)
      → Climb sha256 n m p g h
      → n ≤ 2 ^ L
      → sn + 1 ≡ A * 2 ^ L + n
      → r ≡ A * 2 ^ L + m
      → (e : ℕ) × (walk sha256 p (at g sn r) ≡ some (at h (A * 2 ^ e) (A * 2 ^ e)))
  unfolding walk
  walk_edge A L sn r (here e₁ e₂ e₃ e₄) b a c =
      let a' : sn ≡ A * 2 ^ L = omega arith in
      let c' : r ≡ A * 2 ^ L = omega arith in (L, rw (e₃, a', c', e₄))
  walk_edge {n} {m} A L sn r (from_left d u x y s l k e₃ e₄) b a c =
      let t = raise d L A (SplitsAt-lt d L n s b) in
      let B : ℕ = A * 2 ^ t.exp in
      let up =
        walk_full d (2 * B) (2 * B + 1) (n - 1 - 2 ^ d) sn r k refl (omega arith)
          (omega (arith, s.below, s.above, pow_suc d)) (omega (arith, s.below, t.same))
          (omega (arith, t.same)) in
      (
        t.exp,
        rw (e₃, e₄, walk-append sha256 u y _ _ up)
            (rw (step-left sha256 x y (2 * B + 1) (2 * B) (omega arith) (omega arith) (omega arith))
              (rw (odd_half B, double_half B))),
      )
  walk_edge {n} {m} A L sn r (from_right d u x y s l k e₃ e₄) b a c =
      let t = raise d L A (SplitsAt-lt d L n s b) in
      let B : ℕ = A * 2 ^ t.exp in
      let (e, up) =
        walk_edge (2 * B + 1) d sn r k (omega (arith, s.above, pow_suc d))
          (omega (arith, s.below, t.same)) (omega (arith, t.same)) in
      (
        t.exp,
        rw (e₃, e₄, walk-append sha256 u x _ _ up)
            (rw (step-edge sha256 y x _ e (2 * B + 1) (omega arith) refl) (rw (odd_half B))),
      )
