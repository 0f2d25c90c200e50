-- ===== src/Fingerprint/Tests.antt =====
-- A chunk with a zero-width character and runs of whitespace, and a witness.
use provenex_core.Prelude.{ℕ, ◌≡◌, refl, List, [], ◌∷◌, map, ◌==◌, nat_eq, ok, length, arith}
use provenex_core.Text.{Text, codes}
use provenex_core.Fingerprint.{
  Unicode, default_options, normalize, FingerprintingResult, fingerprint_text, fingerprint_chunk,
}
use provenex_core.Fingerprint.Chunks.{config, fingerprint_text-chunk}

abbrev ascii : Unicode
ascii = record { nfc = λ s. s; casefold = λ s. s; is_space = λ c. c == 32 }

abbrev digest : List ℕ → List ℕ
digest bs = length bs ∷ []

abbrev raw : Text
raw = 32 ∷ 97 ∷ 0x200b ∷ 32 ∷ 32 ∷ 98 ∷ 32 ∷ []

normalizes : (normalize ascii default_options raw).normalized ≡ codes "a b"
unfolding normalize
normalizes = refl

fingerprint_text-chunk_example :
    (res : FingerprintingResult) × (fingerprint_text ascii digest
        (config ascii digest 127 64 default_options)
        raw
      ≡ ok res)
    × ((map (λ f. f.fingerprint) res.fingerprints
          ≡ fingerprint_chunk ascii digest (config ascii digest 127 64 default_options) raw ∷ [])
        × (res.document_version
            ≡ fingerprint_chunk ascii digest (config ascii digest 127 64 default_options) raw))
unfolding normalize
fingerprint_text-chunk_example =
    fingerprint_text-chunk ascii digest 127 64 default_options raw (omega arith) (omega arith)
      (omega arith)
