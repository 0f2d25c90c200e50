-- ===== src/Hasher.antt =====
-- The rolling hash and the windows of provenex/core/hasher.py. A text is its codepoints, so
-- `_codepoints` is the identity; the generator's values are a list.

mod Tests
pub mod Rolling
pub mod Windows
use provenex_core.Prelude.{
  ℕ, zero, suc, ◌+◌, ◌-◌, ◌*◌, ◌%◌, ◌^◌, Bool, true, false, not, List, [], ◌∷◌, ◌++◌, Result, ok,
  err, value_error, runtime_error, ◌>>=◌, ◌==◌, nat_eq, ltb, leb, if◌then◌else◌, length, take, drop,
  index_error, get_elem?, Option, none, some,
}
use provenex_core.Text.{Text, codes, utf8, hex}

abbrev pub base : ℕ
base = 1000003

abbrev pub modulus : ℕ
modulus = 2 ^ 61 - 1

pub record WindowHash : Type 0 where
  pub offset : ℕ
  pub window_length : ℕ
  pub rolling_hash : ℕ
  pub fingerprint : Text

-- pow(b, n, m)
pub pow_mod : ℕ → ℕ → ℕ → ℕ
pow_mod b zero m = 1 % m
pow_mod b (suc n) m = (pow_mod b n m * b) % m

pub record RollingHasher : Type 0 where
  pub window_size : ℕ
  pub top_power : ℕ
  pub value : ℕ
  pub primed : Bool

-- `__init__`
pub create : ℕ → Result RollingHasher
unfolding pow_mod
create window_size =
    if ltb window_size 1
    then err value_error
    else ok (record {
      window_size = window_size;
      top_power = pow_mod base (window_size - 1) modulus;
      value = 0;
      primed = false;
    })

-- The loop of `prime`, from the hash so far
pub hash_from : ℕ → List ℕ → ℕ
hash_from h [] = h
hash_from h (cp ∷ cps) = hash_from ((h * base + cp) % modulus) cps

pub prime : RollingHasher → List ℕ → Result RollingHasher
unfolding hash_from
prime r codepoints =
    if not (length codepoints == r.window_size)
    then err value_error
    else ok (record r { value = hash_from 0 codepoints; primed = true })

-- Python's `(a - b) % m` for natural a and b and positive m
pub sub_mod : ℕ → ℕ → ℕ → ℕ
sub_mod a b m = (a + (m - b % m)) % m

pub roll : RollingHasher → ℕ → ℕ → Result RollingHasher
unfolding sub_mod
roll r out_codepoint in_codepoint =
    if not r.primed
    then err runtime_error
    else let h = sub_mod r.value (out_codepoint * r.top_power) modulus in
      ok (record r { value = (h * base + in_codepoint) % modulus })

-- text[i]
pub code_at : List ℕ → ℕ → Result ℕ
code_at cps i = elim (get_elem? cps i) [ none ↦ err index_error | some c ↦ ok c ]

abbrev pub slice : ℕ → ℕ → List ℕ → List ℕ
slice i n text = take n (drop i text)

module _ (sha256 : List ℕ → List ℕ) where
  pub sha256_fingerprint : Text → Text
  sha256_fingerprint text = codes "sha256:" ++ hex (sha256 (utf8 text))

  abbrev pub window : Text → ℕ → ℕ → ℕ → WindowHash
  window text i size h = record {
    offset = i;
    window_length = size;
    rolling_hash = h;
    fingerprint = sha256_fingerprint (slice i size text);
  }

  -- The slides from position `i` on, of which `count` are left.
  pub slide : ℕ → ℕ → ℕ → Text → ℕ → RollingHasher → Result (List WindowHash)
  unfolding code_at roll
  slide zero i stride text size r = ok []
  slide (suc count) i stride text size r = code_at text (i - 1) >>= λ out_cp.
      code_at text (i + size - 1) >>= λ in_cp. roll r out_cp in_cp >>= λ r'.
      slide count (i + 1) stride text size r' >>= λ rest.
      ok (if i % stride == 0 then window text i size r'.value ∷ rest else rest)

  pub iter_window_hashes : Text → ℕ → ℕ → Result (List WindowHash)
  iter_window_hashes text window_size stride =
      if ltb window_size 1
      then err value_error
      else if ltb stride 1
      then err value_error
      else if leb (length text) window_size
      then (if length text == 0
          then ok []
          else create (length text) >>= λ r. prime r text >>= λ r'. ok (
              record {
                offset = 0;
                window_length = length text;
                rolling_hash = r'.value;
                fingerprint = sha256_fingerprint text;
              }
              ∷ []))
      else create window_size >>= λ r. prime r (take window_size text) >>= λ r'.
          slide (length text - window_size) 1 stride text window_size r' >>= λ rest.
          ok (window text 0 window_size r'.value ∷ rest)
