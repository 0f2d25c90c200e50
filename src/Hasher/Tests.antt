-- ===== src/Hasher/Tests.antt =====
-- Windows of a short text.
use provenex_core.Prelude.{
  ℕ, ◌-◌, ◌+◌, ◌≤◌, ◌<◌, ◌≡◌, refl, true, List, [], ◌∷◌, ok, length, Returns, arith, if◌then◌else◌,
  ◌==◌, nat_eq,
}
use provenex_core.Hasher.{
  RollingHasher, base, modulus, pow_mod, hash_from, roll, window, iter_window_hashes,
}
use provenex_core.Hasher.Rolling.{IsPrimed, roll-IsPrimed}
use provenex_core.Hasher.Windows.{windows_from, iter_window_hashes_lem}

abbrev plain : List ℕ → List ℕ
plain bs = []

abbrev sample : List ℕ
sample = 97 ∷ 98 ∷ 99 ∷ 100 ∷ 101 ∷ []

abbrev on_abc : RollingHasher
on_abc = record {
  window_size = 3;
  top_power = pow_mod base 2 modulus;
  value = hash_from 0 (97 ∷ 98 ∷ 99 ∷ []);
  primed = true;
}

on_abc-IsPrimed : IsPrimed (97 ∷ 98 ∷ 99 ∷ []) on_abc
on_abc-IsPrimed = record { size = refl; top = refl; hash = refl; set_up = refl }

roll-IsPrimed_example : Returns (IsPrimed (98 ∷ 99 ∷ 100 ∷ [])) (roll on_abc 97 100)
roll-IsPrimed_example = roll-IsPrimed 97 100 (98 ∷ 99 ∷ []) on_abc on_abc-IsPrimed

iter_window_hashes_lem_example :
    ((length sample ≤ 3)
      → iter_window_hashes plain sample 3 2
        ≡ ok (
            if length sample == 0
            then []
            else window plain sample 0 (length sample) (hash_from 0 sample) ∷ []))
    × (3 < length sample
        → iter_window_hashes plain sample 3 2
          ≡ ok (windows_from plain (length sample - 3 + 1) 0 2 sample 3))
iter_window_hashes_lem_example = iter_window_hashes_lem plain sample 2 2 (omega arith)

two_windows :
    windows_from plain 3 0 2 sample 3
    ≡ window plain sample 0 3 (hash_from 0 (97 ∷ 98 ∷ 99 ∷ []))
      ∷ window plain sample 2 3 (hash_from 0 (99 ∷ 100 ∷ 101 ∷ []))
      ∷ []
unfolding windows_from
two_windows = refl
