-- ===== src/Fingerprint/Chunks.antt =====
-- Ingestion and verification agree on a chunk that fits one window.
use provenex_core.Prelude.{
  ℕ, suc, ◌≤◌, ◌<◌, ◌≡◌, refl, ap, ◌∙◌, List, [], ◌∷◌, map, length, take-length, arith, ok, false,
  if◌then◌else◌, ◌==◌, nat_eq,
}
use provenex_core.Text.{Text}
use provenex_core.Hasher.{iter_window_hashes, sha256_fingerprint, window, hash_from}
use provenex_core.Hasher.Windows.{iter_window_hashes_lem}
use provenex_core.Fingerprint.{
  Unicode, NormalizationOptions, normalize, FingerprinterConfig, FingerprintingResult,
  fingerprint_text, fingerprint_chunk, fingerprint_of,
}

module _ (u : Unicode) (sha256 : List ℕ → List ℕ) where
  abbrev pub config : ℕ → ℕ → NormalizationOptions → FingerprinterConfig
  config k stride n = record { window_size = suc k; stride = stride; normalization = n }

  -- A text that is not empty and fits the window once it is normalized has one fingerprint, and
  -- that is the fingerprint by which the text is looked up as a chunk, and its version.
  pub fingerprint_text-chunk :
      (k stride : ℕ) (n : NormalizationOptions) (s : Text)
      → 1 ≤ stride
      → 0 < length (normalize u n s).normalized
      → length (normalize u n s).normalized ≤ suc k
      → (res : FingerprintingResult) × (fingerprint_text u sha256 (config k stride n) s ≡ ok res)
        × ((map (λ f. f.fingerprint) res.fingerprints
              ≡ fingerprint_chunk u sha256 (config k stride n) s ∷ [])
            × (res.document_version ≡ fingerprint_chunk u sha256 (config k stride n) s))
  unfolding fingerprint_text fingerprint_chunk
  fingerprint_text-chunk k stride n s hs hp hw =
      let t = (normalize u n s).normalized in
      let e = (iter_window_hashes_lem sha256 t k stride hs).0 hw in
      let positive : (length t == 0) ≡ false = ground arith in
      let one : iter_window_hashes sha256 t (suc k) stride
          ≡ ok (window sha256 t 0 (length t) (hash_from 0 t) ∷ []) =
        e
        ∙ ap (λ b. ok (if b then [] else window sha256 t 0 (length t) (hash_from 0 t) ∷ []))
            positive in
      let whole = ap (sha256_fingerprint sha256) (take-length t) in
      let w = window sha256 t 0 (length t) (hash_from 0 t) in
      let res : FingerprintingResult = record {
        fingerprints = fingerprint_of u sha256 (normalize u n s).applied w ∷ [];
        document_version = sha256_fingerprint sha256 t;
        normalization_applied = (normalize u n s).applied;
      } in
      (res, rw one refl, (ap (λ f. f ∷ []) whole, refl))
