-- ===== src/Policy/Tests.antt =====
-- The default policy on small batches.
use provenex_core.Prelude.{◌≡◌, refl, none, [], ◌∷◌}
use provenex_core.Index.{verified, stale, tampered}
use provenex_core.Policy.{default_policy, overall_status, partial, fail}

stale_is_partial : overall_status (verified ∷ stale ∷ []) (default_policy none) ≡ partial
unfolding overall_status
stale_is_partial = refl

tampered_fails : overall_status (verified ∷ tampered ∷ []) (default_policy none) ≡ fail
unfolding overall_status
tampered_fails = refl
