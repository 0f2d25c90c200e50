-- ===== src/Text/Lines.antt =====
-- Fields that do not hold the separator can be told apart once they are joined.
use provenex_core.Prelude.{
  ℕ, zero, suc, ◌+◌, ◌/◌, ◌%◌, ◌≤◌, ◌≡◌, false, List, [], ◌∷◌, ◌++◌, arith, nat_eq, ltb, Bool-cases,
  inl, inr,
}
use provenex_core.Text.{Text, has_char, decimal, decimal_digits}
use provenex_core.Text.Utf8.{AllChars}

pub append-separator :
    (c : ℕ) (s t u v : Text)
    → has_char c s ≡ false
    → has_char c t ≡ false
    → s ++ c ∷ u ≡ t ++ c ∷ v
    → (s ≡ t) × (u ≡ v)
unfolding has_char
append-separator c [] [] u v hs ht e = ground arith
append-separator c [] (y ∷ t) u v hs ht e = ground arith
append-separator c (x ∷ s) [] u v hs ht e = ground arith
append-separator c (x ∷ s) (y ∷ t) u v hs ht e = ground (arith, append-separator c s t u v)

abbrev pub NoneHas : ℕ → List Text → Type 0
NoneHas c [] = Unit {0}
NoneHas c (s ∷ parts) = (has_char c s ≡ false) × NoneHas c parts

pub AllChars-append : (s t : Text) → AllChars s → AllChars t → AllChars (s ++ t)
AllChars-append [] t h k = k
AllChars-append (c ∷ s) t h k = (h.0, AllChars-append s t h.1 k)

AllChars-decimal_digits : (fuel n : ℕ) → n ≤ fuel → AllChars (decimal_digits fuel n)
unfolding decimal_digits
AllChars-decimal_digits zero n h = (omega (arith, h), tt)
AllChars-decimal_digits (suc fuel) n h = elim (Bool-cases (ltb n 10)) [
  | inl e ↦ rw e (ground arith, tt)
  | inr e ↦ rw e (
      AllChars-append (decimal_digits fuel (n / 10)) ((48 + n % 10) ∷ [])
        (AllChars-decimal_digits fuel (n / 10) (omega arith)) (omega arith, tt))
]

pub AllChars-decimal : (n : ℕ) → AllChars (decimal n)
unfolding decimal
AllChars-decimal n = AllChars-decimal_digits n n (omega arith)
