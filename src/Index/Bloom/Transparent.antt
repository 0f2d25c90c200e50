-- ===== src/Index/Bloom/Transparent.antt =====
-- The wrapper and the index that it wraps, over any filter without false negatives.
use provenex_core.Prelude.{
  ◌≡◌, inl, inr, Bool, true, ok, >>=-eq-ok, ok-injective, Bool-cases, arith, nat_eq, list_eq,
}
use provenex_core.Text.{Text}
use provenex_core.Index.{Addition, ProvenanceIndex}
use provenex_core.Index.Bloom.{
  BloomFilterIndex, BloomIndex, bloom_add, bloom_verify, bloom_lookup, bloom_set_authorization,
  bloom_supersede, NoFalseNegatives, Tracks,
}

module _ (index : ProvenanceIndex) (filter : BloomFilterIndex) (Named : index.State → Text → Type 0)
    (honest : NoFalseNegatives index filter) (tracks : Tracks index filter Named) where
  -- The calls that change the wrapper, from a wrapper around an index where nothing is named.
  pub data Reach : BloomIndex index filter → Type 0 where
    created :
        (b : index.State) (f : filter.Filter)
        → ((fp : Text) → Named b fp → ⊥)
        → Reach (record { base = b; bloom = f })
    added :
        {s s' : BloomIndex index filter} (a : Addition)
        → Reach s
        → bloom_add index filter s a ≡ ok s'
        → Reach s'
    authorized :
        {s : BloomIndex index filter} (id : Text) (b : Bool)
        → Reach s
        → Reach (bloom_set_authorization index filter s id b)
    superseded :
        {s : BloomIndex index filter} (id v : Text)
        → Reach s
        → Reach (bloom_supersede index filter s id v).0

  Covered : BloomIndex index filter → Text → Type 0
  Covered s fp = Named s.base fp → filter.probably_contains s.bloom fp ≡ true

  Covered-added :
      (s s' : BloomIndex index filter) (a : Addition) (fp : Text)
      → Covered s fp
      → bloom_add index filter s a ≡ ok s'
      → Covered s' fp
  unfolding Covered bloom_add
  Covered-added s s' a fp c e n =
      let (b, h, k) = >>=-eq-ok (index.add s.base a) _ e in
      let q = ok-injective k in
      rw (← q) (elim (tracks.added s.base b a fp h (rw (← q) at n)) [
        | inl m ↦ honest.keeps s.bloom fp a.fingerprint (c m)
        | inr m ↦ rw m (honest.holds s.bloom a.fingerprint)
      ])

  Reach-Covered : {s : BloomIndex index filter} → Reach s → (fp : Text) → Covered s fp
  unfolding Covered bloom_set_authorization bloom_supersede
  Reach-Covered (created b f h) fp n = absurd (h fp n)
  Reach-Covered (added {s} {s'} a r e) fp n = Covered-added s s' a fp (Reach-Covered r fp) e n
  Reach-Covered (authorized {s} id b r) fp n =
      Reach-Covered r fp (tracks.authorized s.base id b fp n)
  Reach-Covered (superseded {s} id v r) fp n =
      Reach-Covered r fp (tracks.superseded s.base id v fp n)

  -- After any calls of the wrapper, its `verify` and its `lookup` answer what those of the wrapped
  -- index answer.
  pub bloom_verify-transparent :
      {s : BloomIndex index filter}
      → Reach s
      → (fp : Text)
      → (bloom_verify index filter s fp ≡ index.verify s.base fp)
        × (bloom_lookup index filter s fp ≡ index.lookup s.base fp)
  unfolding bloom_verify bloom_lookup Covered
  bloom_verify-transparent {s} r fp = elim (Bool-cases (filter.probably_contains s.bloom fp)) [
    | inl e ↦ (ground arith, ground arith)
    | inr e ↦
        let (v, l) = tracks.absent s.base fp (λ n. cc (Reach-Covered r fp n, e)) in
        (ground arith, ground arith)
  ]
