-- ===== src/Merkle/Split.antt =====
-- The split point of a subtree: `_largest_pow2_lt` of provenex/core/merkle.py.
use native.Mathlib.Nat.{pow-suc, pow-le-pow_right, one-le-pow}
use provenex_core.Prelude.{ℕ, zero, suc, ◌-◌, ◌*◌, ◌/◌, ◌^◌, ◌≤◌, ◌<◌, ◌≡◌, refl, ap, arith}
use provenex_core.Merkle.{bit_count, bit_length, largest_pow2_lt}

pub pow_suc : (d : ℕ) → 2 ^ suc d ≡ 2 ^ d * 2
pow_suc d = pow-suc 2 d

pub pow_pos : (d : ℕ) → 0 < 2 ^ d
pow_pos d = one-le-pow d 2 (omega arith)

-- What the length in bits is: the `d` with 2 ^ d ≤ n < 2 ^ (d + 1), and one more.
record Bits (b n : ℕ) : Type 0 where
  top : ℕ
  count : b ≡ suc top
  low : 2 ^ top ≤ n
  high : n < 2 ^ suc top

Bits-double : (b n : ℕ) → Bits b (n / 2) → Bits (suc b) n
Bits-double b n h = record {
  top = suc h.top;
  count = omega (arith, h.count);
  low = omega (arith, pow_suc h.top, h.low);
  high = omega (arith, pow_suc (suc h.top), h.high);
}

bit_count-suc : (f n : ℕ) → 0 < n → bit_count (suc f) n ≡ suc (bit_count f (n / 2))
unfolding bit_count
bit_count-suc f n h = ground arith

bit_count_lem : (fuel n : ℕ) → n ≤ fuel → 0 < n → Bits (bit_count fuel n) n
unfolding bit_count
bit_count_lem zero n h p = absurd (omega arith)
bit_count_lem (suc f) zero h p = elim p [ ]
bit_count_lem (suc f) (suc zero) h p = record {
  top = 0;
  count = rw (bit_count-zero f);
  low = omega arith;
  high = omega arith;
}
  where
    bit_count-zero : (k : ℕ) → bit_count k 0 ≡ 0
    bit_count-zero zero = refl
    bit_count-zero (suc k) = refl
bit_count_lem (suc f) (suc (suc n)) h p =
    rw (bit_count-suc f (suc (suc n)) p)
      (Bits-double _ (suc (suc n)) (bit_count_lem f (suc (suc n) / 2) (omega arith) (omega arith)))

-- The `d` with 2 ^ d < n ≤ 2 ^ (d + 1), at which a tree of `n` leaves splits.
pub record SplitsAt (d n : ℕ) : Type 0 where
  pub below : 2 ^ d < n
  pub above : n ≤ 2 ^ suc d

SplitsAt-of_Bits :
    (n : ℕ) → 1 < n → (b : ℕ) → Bits b (n - 1) → (d : ℕ) × (2 ^ (b - 1) ≡ 2 ^ d) × SplitsAt d n
SplitsAt-of_Bits n h b w = (
  w.top,
  rw (w.count) (ap (λ (k : ℕ). 2 ^ k) (omega arith)),
  record { below = omega (arith, w.low); above = omega (arith, w.high) },
)

-- `_largest_pow2_lt n` is the power of two just below `n`.
pub largest_pow2_lt_lem : (n : ℕ) → 1 < n → (d : ℕ) × (largest_pow2_lt n ≡ 2 ^ d) × SplitsAt d n
unfolding largest_pow2_lt bit_length
largest_pow2_lt_lem n h =
    SplitsAt-of_Bits n h _ (bit_count_lem (n - 1) (n - 1) (omega arith) (omega arith))

not-SplitsAt-lt : (d d' n : ℕ) → SplitsAt d n → SplitsAt d' n → ¬ (d < d')
not-SplitsAt-lt d d' n s s' h =
    omega (arith, s.above, s'.below, pow-le-pow_right {n = 2} (omega arith) {i = suc d} {j = d'} h)

pub SplitsAt-unique : (d d' n : ℕ) → SplitsAt d n → SplitsAt d' n → d ≡ d'
SplitsAt-unique d d' n s s' =
    omega (arith, not-SplitsAt-lt d d' n s s', not-SplitsAt-lt d' d n s' s)
