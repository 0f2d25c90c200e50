-- ===== src/Text/Decimal.antt =====
-- Decimal digits are one to one and hold no control character.
use provenex_core.Prelude.{
  ℕ, zero, suc, ◌+◌, ◌-◌, ◌*◌, ◌/◌, ◌%◌, ◌<◌, ◌≤◌, ◌≡◌, refl, ap, false, [], ◌∷◌, ◌++◌, arith, ltb,
  Bool-cases, inl, inr, nat_eq,
}
use provenex_core.Text.{Text, decimal_digits, decimal, has_char}

-- The number that digits stand for, after a number `acc`.
abbrev value : ℕ → Text → ℕ
value acc [] = acc
value acc (d ∷ s) = value (acc * 10 + (d - 48)) s

value-append : (acc : ℕ) (s : Text) (d : ℕ) → value acc (s ++ d ∷ []) ≡ value acc s * 10 + (d - 48)
value-append acc [] d = refl
value-append acc (c ∷ s) d = value-append (acc * 10 + (c - 48)) s d

value-decimal_digits : (fuel n : ℕ) → n ≤ fuel → value 0 (decimal_digits fuel n) ≡ n
unfolding decimal_digits
value-decimal_digits zero n h = omega arith
value-decimal_digits (suc fuel) n h = elim (Bool-cases (ltb n 10)) [
  | inl e ↦ rw e (omega arith)
  | inr e ↦ rw e (
      rw (value-append 0 (decimal_digits fuel (n / 10)) (48 + n % 10))
        (ground (arith, value-decimal_digits fuel (n / 10))))
]

pub decimal-injective : (m n : ℕ) → decimal m ≡ decimal n → m ≡ n
unfolding decimal
decimal-injective m n e = omega (
  arith,
  value-decimal_digits m m (omega arith),
  value-decimal_digits n n (omega arith),
  ap (value 0) e,
)

pub has_char-append :
    (c : ℕ) (s t : Text) → has_char c s ≡ false → has_char c t ≡ false → has_char c (s ++ t) ≡ false
unfolding has_char
has_char-append c [] t h k = k
has_char-append c (x ∷ s) t h k = ground (arith, has_char-append c s t)

-- Digits are the code points 48 to 57.
has_char-decimal_digits :
    (fuel n c : ℕ) → n ≤ fuel → c < 48 → has_char c (decimal_digits fuel n) ≡ false
unfolding decimal_digits has_char
has_char-decimal_digits zero n c h lt = ground arith
has_char-decimal_digits (suc fuel) n c h lt = elim (Bool-cases (ltb n 10)) [
  | inl e ↦ rw e (ground arith)
  | inr e ↦ rw e (
      has_char-append c _ _ (has_char-decimal_digits fuel (n / 10) c (omega arith) lt)
        (ground arith))
]

pub has_char-decimal : (n c : ℕ) → c < 48 → has_char c (decimal n) ≡ false
unfolding decimal
has_char-decimal n c lt = has_char-decimal_digits n n c (omega arith) lt
