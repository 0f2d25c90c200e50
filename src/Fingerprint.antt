-- ===== src/Fingerprint.antt =====
-- The normalizer and the fingerprinter of provenex/core/normalizer.py and
-- provenex/core/fingerprinter.py. The tables of Unicode are parameters.
pub mod Chunks
mod Tests
use provenex_core.Prelude.{
  ℕ, String, Bool, true, false, not, List, [], ◌∷◌, ◌++◌, map, if◌then◌else◌, ◌==◌, nat_eq, Result,
  ok, ◌>>=◌,
}
use provenex_core.Text.{Text, codes}
use provenex_core.Policy.{any}
use provenex_core.Hasher.{WindowHash, iter_window_hashes, sha256_fingerprint}

-- unicodedata.normalize("NFC", s), str.casefold and `\s`
pub record Unicode : Type 0 where
  pub nfc : Text → Text
  pub casefold : Text → Text
  pub is_space : ℕ → Bool

pub record NormalizationOptions : Type 0 where
  pub unicode_nfc : Bool
  pub whitespace_collapse : Bool
  pub case_fold : Bool
  pub strip_zero_width : Bool

abbrev pub default_options : NormalizationOptions
default_options = record {
  unicode_nfc = true;
  whitespace_collapse = true;
  case_fold = false;
  strip_zero_width = true;
}

pub record NormalizationResult : Type 0 where
  pub normalized : Text
  pub applied : List Text

abbrev pub is_zero_width : ℕ → Bool
is_zero_width c =
    if c == 0x200b
    then true
    else if c == 0x200c
    then true
    else if c == 0x200d
    then true
    else if c == 0x2060
    then true
    else c == 0xfeff

pub remove_zero_width : Text → Text
remove_zero_width [] = []
remove_zero_width (c ∷ s) =
    let rest = remove_zero_width s in if is_zero_width c then rest else c ∷ rest

pub record FingerprinterConfig : Type 0 where
  pub window_size : ℕ
  pub stride : ℕ
  pub normalization : NormalizationOptions

pub record FingerprintOf : Type 0 where
  pub fingerprint : Text
  pub offset : ℕ
  pub window_length : ℕ
  pub normalization_applied : List Text

pub record FingerprintingResult : Type 0 where
  pub fingerprints : List FingerprintOf
  pub document_version : Text
  pub normalization_applied : List Text

module _ (u : Unicode) where
  -- _WHITESPACE_RUN.sub(" ", s), where `in_run` says that the last character was in a run
  pub collapse_runs : Bool → Text → Text
  collapse_runs in_run [] = []
  collapse_runs in_run (c ∷ s) =
      let rest = collapse_runs (u.is_space c) s in
      if u.is_space c then (if in_run then rest else 32 ∷ rest) else c ∷ rest

  pub lstrip : Text → Text
  lstrip [] = []
  lstrip (c ∷ s) = if u.is_space c then lstrip s else c ∷ s

  pub rstrip_after : ℕ → Text → Text
  rstrip_after c [] = if u.is_space c then [] else c ∷ []
  rstrip_after c (d ∷ s) = c ∷ d ∷ s

  pub rstrip : Text → Text
  unfolding rstrip_after
  rstrip [] = []
  rstrip (c ∷ s) = rstrip_after c (rstrip s)

  unfoldable pub collapse_whitespace : Text → Text
  unfolding collapse_runs lstrip rstrip
  collapse_whitespace s = rstrip (lstrip (collapse_runs false s))

  -- One optional step of the pipeline.
  pub optionally : Bool → String → (Text → Text) → NormalizationResult → NormalizationResult
  optionally on label f n =
      if on
      then record { normalized = f n.normalized; applied = n.applied ++ codes label ∷ [] }
      else n

  -- `""` is in no text, so the test before the join changes nothing but the copy.
  strip_if_present : Text → Text
  unfolding remove_zero_width any
  strip_if_present s = if any is_zero_width s then remove_zero_width s else s

  -- TextNormalizer.normalize
  unfoldable pub normalize : NormalizationOptions → Text → NormalizationResult
  unfolding optionally strip_if_present collapse_whitespace
  normalize o s =
      let composed =
        optionally o.unicode_nfc "unicode_nfc" u.nfc (record { normalized = s; applied = [] }) in
      let stripped = optionally o.strip_zero_width "strip_zero_width" strip_if_present composed in
      let folded = optionally o.case_fold "case_fold" u.casefold stripped in
      optionally o.whitespace_collapse "whitespace_collapse" collapse_whitespace folded

  module _ (sha256 : List ℕ → List ℕ) where
    abbrev pub fingerprint_of : List Text → WindowHash → FingerprintOf
    fingerprint_of applied w = record {
      fingerprint = w.fingerprint;
      offset = w.offset;
      window_length = w.window_length;
      normalization_applied = applied;
    }

    -- Fingerprinter.fingerprint
    unfoldable pub fingerprint_text : FingerprinterConfig → Text → Result FingerprintingResult
    fingerprint_text c s = do
      let norm = normalize c.normalization s
      windows ← iter_window_hashes sha256 norm.normalized c.window_size c.stride
      ok (record {
        fingerprints = map (fingerprint_of norm.applied) windows;
        document_version = sha256_fingerprint sha256 norm.normalized;
        normalization_applied = norm.applied;
      })

    -- Fingerprinter.fingerprint_chunk
    unfoldable pub fingerprint_chunk : FingerprinterConfig → Text → Text
    fingerprint_chunk c s = sha256_fingerprint sha256 (normalize c.normalization s).normalized
