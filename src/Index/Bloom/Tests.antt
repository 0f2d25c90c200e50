-- ===== src/Index/Bloom/Tests.antt =====
-- The wrapper around the SQLite index, with the filter that answers yes and with an exact one.
use provenex_core.Prelude.{
  ℕ, suc, ◌≡◌, refl, Bool, true, false, ◌||◌, List, [], ◌∷◌, ◌++◌, ok, ◌==◌, nat_eq, list_eq, arith,
  Result, err, ==_refl,
}
use provenex_core.Text.{Text, codes}
use provenex_core.Index.{Addition}
use provenex_core.Index.Bloom.{
  BloomFilterIndex, noop_bloom_filter, BloomIndex, bloom_add, bloom_verify, bloom_lookup,
  NoFalseNegatives,
}
use provenex_core.Index.Bloom.Transparent.{Reach, created, added, bloom_verify-transparent}
use provenex_core.Index.Sqlite.{empty_db, sqlite_index, verify, lookup, add}
use provenex_core.Index.Sqlite.Naming.{IsNamed, sqlite_index-Tracks, empty_db-names_nothing}

abbrev plain_mac : List ℕ → List ℕ → Text
plain_mac secret payload = secret ++ payload

-- A filter that remembers every fingerprint.
abbrev seen : List Text → Text → Bool
seen [] fp = false
seen (f ∷ fs) fp = f == fp || seen fs fp

abbrev length_of : List Text → ℕ
length_of [] = 0
length_of (f ∷ fs) = suc (length_of fs)

abbrev exact_filter : BloomFilterIndex
exact_filter = record {
  Filter = List Text;
  probably_contains = seen;
  add = λ fs fp. fp ∷ fs;
  size = length_of;
}

exact_filter-NoFalseNegatives : NoFalseNegatives (sqlite_index plain_mac []) exact_filter
exact_filter-NoFalseNegatives = record {
  keeps = λ f fp fp' h. ground (arith, h);
  holds = λ f fp. ground (arith, ==_refl fp);
}

noop-NoFalseNegatives : NoFalseNegatives (sqlite_index plain_mac []) noop_bloom_filter
noop-NoFalseNegatives = record { keeps = λ f fp fp' h. refl; holds = λ f fp. refl }

abbrev wrapped_chunk : Addition
wrapped_chunk = record {
  fingerprint = codes "sha256:a";
  document_id = codes "d";
  document_version = codes "sha256:1";
  chunk_offset = 0;
  chunk_length = 10;
  authorized = true;
  now = codes "2024";
}

abbrev Wrapper : Type 0
Wrapper = BloomIndex (sqlite_index plain_mac []) exact_filter

abbrev new_wrapper : Wrapper
new_wrapper = record { base = empty_db; bloom = [] }

abbrev or_new : Result Wrapper → Wrapper
or_new (ok s) = s
or_new (err e) = new_wrapper

wrapper : Wrapper
unfolding bloom_add
wrapper = or_new (bloom_add (sqlite_index plain_mac []) exact_filter new_wrapper wrapped_chunk)

wrapper-Reach :
    Reach
      (sqlite_index plain_mac [])
      exact_filter
      IsNamed
      exact_filter-NoFalseNegatives
      (sqlite_index-Tracks plain_mac [] exact_filter)
      wrapper
unfolding wrapper bloom_add add provenex_core.Text.starts_with provenex_core.Text.has_char
wrapper-Reach = added wrapped_chunk (created empty_db [] empty_db-names_nothing) refl

bloom_verify-transparent_example :
    (bloom_verify (sqlite_index plain_mac []) exact_filter wrapper (codes "sha256:z")
      ≡ verify plain_mac [] wrapper.base (codes "sha256:z"))
    × (bloom_lookup (sqlite_index plain_mac []) exact_filter wrapper (codes "sha256:z")
        ≡ lookup wrapper.base (codes "sha256:z"))
bloom_verify-transparent_example =
    bloom_verify-transparent (sqlite_index plain_mac []) exact_filter IsNamed
      exact_filter-NoFalseNegatives (sqlite_index-Tracks plain_mac [] exact_filter) wrapper-Reach
      (codes "sha256:z")
