-- ===== src/Hasher/Windows.antt =====
-- The windows of a text: `iter_window_hashes` returns them, each with the hash of a fresh start.
use native.Mathlib.Nat.{zero-mod}
use provenex_core.Prelude.{
  ℕ, zero, suc, ◌+◌, ◌-◌, ◌%◌, ◌<◌, ◌≤◌, ◌≡◌, refl, sym, ◌∙◌, ap, true, false, Option, none, some,
  List, [], ◌∷◌, ◌++◌, Result, ok, err, index_error, arith, length, take, get_elem?, Returns-value,
  ◌>>=◌, if◌then◌else◌, ◌==◌, nat_eq, subst, ltb, leb, length-take, Bool-cases, inl, inr,
  take-length,
}
use provenex_core.Text.{Text}
use provenex_core.Hasher.{
  WindowHash, RollingHasher, hash_from, code_at, slice, sha256_fingerprint, window, slide,
  iter_window_hashes,
}
use provenex_core.Hasher.Rolling.{IsPrimed, create-prime, roll-IsPrimed}

-- The window at `i` and the one after it.
record Neighbours (text : Text) (i k : ℕ) : Type 0 where
  pub oldest : ℕ
  pub newest : ℕ
  pub middle : List ℕ
  pub before : slice i (suc k) text ≡ oldest ∷ middle
  pub after : slice (suc i) (suc k) text ≡ middle ++ newest ∷ []
  pub first : get_elem? text i ≡ some oldest
  pub last : get_elem? text (i + suc k) ≡ some newest

take-suc :
    (k : ℕ) (xs : List ℕ)
    → k < length xs
    → (x : ℕ) × (take (suc k) xs ≡ take k xs ++ x ∷ []) × (get_elem? xs k ≡ some x)
take-suc k [] h = absurd (omega (arith, h))
take-suc zero (x ∷ xs) h = (x, refl, refl)
take-suc (suc k) (x ∷ xs) h =
    let (y, e, g) = take-suc k xs (omega (arith, h)) in (y, ap (λ l. x ∷ l) e, g)

neighbours : (text : Text) (i k : ℕ) → i + suc k < length text → Neighbours text i k
neighbours [] i k h = absurd (omega (arith, h))
neighbours (x ∷ text) zero k h =
    let (y, e, g) = take-suc k text (omega (arith, h)) in
    record {
      oldest = x;
      newest = y;
      middle = take k text;
      before = refl;
      after = e;
      first = refl;
      last = subst (λ n. get_elem? (x ∷ text) n ≡ some y) (suc_sum k) g;
    }
  where
    suc_sum : (k : ℕ) → suc k ≡ 0 + suc k
    suc_sum k = omega arith
neighbours (x ∷ text) (suc i) k h =
    let n = neighbours text i k (omega (arith, h)) in
    record {
      oldest = n.oldest;
      newest = n.newest;
      middle = n.middle;
      before = n.before;
      after = n.after;
      first = n.first;
      last = subst (λ m. get_elem? (x ∷ text) m ≡ some n.newest) (suc_plus i k) n.last;
    }
  where
    suc_plus : (i k : ℕ) → suc (i + suc k) ≡ suc i + suc k
    suc_plus i k = omega arith

code_at_lem : (text : Text) (i j c : ℕ) → i ≡ j → get_elem? text i ≡ some c → code_at text j ≡ ok c
unfolding code_at
code_at_lem text i j c e g = subst (λ n. code_at text n ≡ ok c) e (ap at_index g)
  where
    at_index : Option ℕ → Result ℕ
    at_index none = err index_error
    at_index (some x) = ok x

module _ (sha256 : List ℕ → List ℕ) where
  -- The windows at the positions from `i` on that are multiples of the stride, `count` positions
  -- in all, each hashed afresh.
  unfoldable pub windows_from : ℕ → ℕ → ℕ → Text → ℕ → List WindowHash
  windows_from zero i stride text size = []
  windows_from (suc count) i stride text size =
      let rest = windows_from count (i + 1) stride text size in
      if i % stride == 0
      then window sha256 text i size (hash_from 0 (slice i size text)) ∷ rest
      else rest

  slide_lem :
      (count i stride : ℕ) (text : Text) (k : ℕ) (r : RollingHasher)
      → suc i + count + k ≤ length text
      → IsPrimed (slice i (suc k) text) r
      → slide sha256 count (suc i) stride text (suc k) r
        ≡ ok (windows_from count (suc i) stride text (suc k))
  unfolding slide windows_from code_at
  slide_lem zero i stride text k r h p = refl
  slide_lem (suc count) i stride text k r h p =
      let n = neighbours text i k (omega (arith, h)) in
      let (r', e, q) =
        Returns-value
          (roll-IsPrimed n.oldest n.newest n.middle r (subst (λ w. IsPrimed w r) n.before p)) in
      let q' = subst (λ w. IsPrimed w r') (sym n.after) q in
      let ih = slide_lem count (suc i) stride text k r' (omega (arith, h)) q' in
      let here : code_at text (suc i - 1) ≡ ok n.oldest =
        code_at_lem text i (suc i - 1) n.oldest (omega arith) n.first in
      let there : code_at text (suc i + suc k - 1) ≡ ok n.newest =
        code_at_lem text (i + suc k) (suc i + suc k - 1) n.newest (omega arith) n.last in
      let ih' =
        subst
          (λ j.
            slide sha256 count j stride text (suc k) r'
            ≡ ok (windows_from count j stride text (suc k)))
          (plus_one i) ih in
      rw (here, there, e, ih', q'.hash) refl
    where
      plus_one : (i : ℕ) → suc (suc i) ≡ suc i + 1
      plus_one i = omega arith

  short_lem :
      (text : Text) (k stride : ℕ)
      → 1 ≤ stride
      → length text ≤ suc k
      → iter_window_hashes sha256 text (suc k) stride
        ≡ ok (
            if length text == 0
            then []
            else window sha256 text 0 (length text) (hash_from 0 text) ∷ [])
  unfolding iter_window_hashes
  short_lem text k stride h b =
      let size_ok : ltb (suc k) 1 ≡ false = ground arith in
      let stride_ok : ltb stride 1 ≡ false = ground arith in
      let short : leb (length text) (suc k) ≡ true = ground arith in
      elim (Bool-cases (length text == 0)) [
        | inl z ↦ rw (size_ok, stride_ok, short, z) refl
        | inr z ↦
            let (r, p, e) =
              create-prime {B = List WindowHash} text (length text)
                (λ r'. ok (
                  record {
                    offset = 0;
                    window_length = length text;
                    rolling_hash = r'.value;
                    fingerprint = sha256_fingerprint sha256 text;
                  }
                  ∷ []))
                refl (ground arith) in
            rw (size_ok, stride_ok, short, z, e, p.hash, take-length) refl
      ]

  long_lem :
      (text : Text) (k stride : ℕ)
      → 1 ≤ stride
      → suc k < length text
      → iter_window_hashes sha256 text (suc k) stride
        ≡ ok (
            window sha256 text 0 (suc k) (hash_from 0 (slice 0 (suc k) text))
            ∷ windows_from (length text - suc k) 1 stride text (suc k))
  unfolding iter_window_hashes
  long_lem text k stride h b =
      let size_ok : ltb (suc k) 1 ≡ false = ground arith in
      let stride_ok : ltb stride 1 ≡ false = ground arith in
      let long : leb (length text) (suc k) ≡ false = ground arith in
      let len : suc k ≡ length (take (suc k) text) = omega (arith, length-take (suc k) text) in
      let (r, p, e) =
        create-prime (take (suc k) text) (suc k)
          (λ r'. slide sha256 (length text - suc k) 1 stride text (suc k) r' >>= λ rest.
            ok (window sha256 text 0 (suc k) r'.value ∷ rest))
          len (omega arith) in
      rw
        (
          size_ok,
          stride_ok,
          long,
          e,
          slide_lem (length text - suc k) 0 stride text k r (omega arith) p,
          p.hash,
        )
        refl

  windows_from-first :
      (n m stride : ℕ) (text : Text) (size : ℕ)
      → m ≡ suc n
      → windows_from m 0 stride text size
        ≡ window sha256 text 0 size (hash_from 0 (slice 0 size text))
          ∷ windows_from n 1 stride text size
  unfolding windows_from
  windows_from-first n m stride text size e = rw (e, zero-mod stride) refl

  -- For a window and a stride of at least one, the call returns: the text's only window if the text
  -- is no longer than a window (none if it is empty), and otherwise every window whose offset is a
  -- multiple of the stride, in order, with the hash that priming with that window gives.
  pub iter_window_hashes_lem :
      (text : Text) (k stride : ℕ)
      → 1 ≤ stride
      → ((length text ≤ suc k)
          → iter_window_hashes sha256 text (suc k) stride
            ≡ ok (
                if length text == 0
                then []
                else window sha256 text 0 (length text) (hash_from 0 text) ∷ []))
        × (suc k < length text
            → iter_window_hashes sha256 text (suc k) stride
              ≡ ok (windows_from (length text - suc k + 1) 0 stride text (suc k)))
  iter_window_hashes_lem text k stride h = (
    λ b. short_lem text k stride h b,
    λ b.
        long_lem text k stride h b
        ∙ ap (λ l. ok l)
            (sym (windows_from-first (length text - suc k) _ stride text (suc k) (omega arith))),
  )
