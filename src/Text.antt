-- ===== src/Text.antt =====
-- Python's `str` as a list of code points, and what the program uses of it: UTF-8, decimal and
-- hexadecimal digits, `startswith`, `join`, `split` and the order of texts.
pub mod Utf8
pub mod Decimal
pub mod Lines
use Prim.Native.Char.{code}
use provenex_core.Prelude.{
  ◌≡◌, list_beq_iff, ◌==◌, nat_eq, list_eq, ℕ, zero, suc, ◌+◌, ◌-◌, ◌*◌, ◌/◌, ◌%◌, String, Bool,
  true, false, ◌&&◌, ◌||◌, List, [], ◌∷◌, ◌++◌, map, ltb, ◌==◌, nat_eq, if◌then◌else◌,
}

abbrev pub Text : Type 0
Text = List ℕ

-- A literal. `String` has its own `[]` and `∷`.
abbrev pub codes : String → Text
codes String.[] = []
codes (String.◌∷◌ c s) = code c ∷ codes s

-- The bytes of one code point below 0x110000.
pub utf8_char : ℕ → List ℕ
utf8_char c =
    if ltb c 0x80
    then c ∷ []
    else if ltb c 0x800
    then (0xc0 + c / 64) ∷ (0x80 + c % 64) ∷ []
    else if ltb c 0x10000
    then (0xe0 + c / 4096) ∷ (0x80 + c / 64 % 64) ∷ (0x80 + c % 64) ∷ []
    else (0xf0 + c / 262144) ∷ (0x80 + c / 4096 % 64) ∷ (0x80 + c / 64 % 64) ∷ (0x80 + c % 64) ∷ []

-- s.encode("utf-8"), of a text without lone surrogates; on one with them the source raises
-- UnicodeEncodeError, and such texts are left out.
unfoldable pub utf8 : Text → List ℕ
unfolding utf8_char
utf8 [] = []
utf8 (c ∷ s) = utf8_char c ++ utf8 s

-- str(n); the fuel `n` is enough, since each round divides by ten.
decimal_digits : ℕ → ℕ → Text
decimal_digits zero n = (48 + n) ∷ []
decimal_digits (suc fuel) n =
    let rest = decimal_digits fuel (n / 10) ++ (48 + n % 10) ∷ [] in
    if ltb n 10 then (48 + n) ∷ [] else rest

unfoldable pub decimal : ℕ → Text
unfolding decimal_digits
decimal n = decimal_digits n n

-- bytes.hex()
pub hex_digit : ℕ → ℕ
hex_digit d = if ltb d 10 then 48 + d else 87 + d

unfoldable pub hex : List ℕ → Text
unfolding hex_digit
hex [] = []
hex (b ∷ bs) = hex_digit (b / 16) ∷ hex_digit (b % 16) ∷ hex bs

unfoldable pub starts_with : Text → Text → Bool
starts_with s [] = true
starts_with [] (p ∷ ps) = false
starts_with (c ∷ s) (p ∷ ps) = c == p && starts_with s ps

-- c in s
unfoldable pub has_char : ℕ → Text → Bool
has_char c [] = false
has_char c (x ∷ s) = x == c || has_char c s

-- sep.join(parts), for a separator of one character
unfoldable pub join : ℕ → List Text → Text
join sep [] = []
join sep (s ∷ []) = s
join sep (s ∷ parts) = s ++ sep ∷ join sep parts

push : ℕ → List Text → List Text
push c [] = (c ∷ []) ∷ []
push c (s ∷ parts) = (c ∷ s) ∷ parts

-- s.split(sep), for a separator of one character
unfoldable pub split : ℕ → Text → List Text
unfolding push
split sep [] = [] ∷ []
split sep (c ∷ s) = let parts = split sep s in if c == sep then [] ∷ parts else push c parts

-- s < t, code point by code point
unfoldable pub text_ltb : Text → Text → Bool
text_ltb s [] = false
text_ltb [] (d ∷ t) = true
text_ltb (c ∷ s) (d ∷ t) = let rest = text_ltb s t in if c == d then rest else ltb c d

pub text_eq_iff : (s t : Text) → (((s == t) ≡ true) → s ≡ t) × ((s ≡ t) → (s == t) ≡ true)
text_eq_iff s t = list_beq_iff s t
