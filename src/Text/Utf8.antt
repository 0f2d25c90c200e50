-- ===== src/Text/Utf8.antt =====
-- UTF-8 is one to one on code points.
use provenex_core.Prelude.{ℕ, ◌<◌, ◌≡◌, refl, sym, ◌≢◌, List, [], ◌∷◌, ◌++◌, arith}
use provenex_core.Text.{Text, utf8_char, utf8}

abbrev pub AllChars : Text → Type 0
AllChars [] = Unit {0}
AllChars (c ∷ s) = (c < 0x110000) × AllChars s

utf8_char-cancel :
    (c d : ℕ) (s t : List ℕ)
    → c < 0x110000
    → d < 0x110000
    → utf8_char c ++ s ≡ utf8_char d ++ t
    → (c ≡ d) × (s ≡ t)
unfolding utf8_char
utf8_char-cancel c d s t hc hd e = ground arith

utf8_char-ne-nil : (c : ℕ) (s : List ℕ) → utf8_char c ++ s ≢ []
unfolding utf8_char
utf8_char-ne-nil c s e = ground arith

-- Texts of code points that have the same bytes are the same.
pub utf8-injective : (s t : Text) → AllChars s → AllChars t → utf8 s ≡ utf8 t → s ≡ t
unfolding utf8
utf8-injective [] [] hs ht e = refl
utf8-injective [] (d ∷ t) hs ht e = absurd (utf8_char-ne-nil d (utf8 t) (sym e))
utf8-injective (c ∷ s) [] hs ht e = absurd (utf8_char-ne-nil c (utf8 s) e)
utf8-injective (c ∷ s) (d ∷ t) hs ht e =
    let (p, q) = utf8_char-cancel c d (utf8 s) (utf8 t) hs.0 ht.0 e in
    cc (utf8-injective s t hs.1 ht.1 q)
