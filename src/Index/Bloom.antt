-- ===== src/Index/Bloom.antt =====
-- The Bloom layer of provenex/index/bloom.py: the filter's interface, the filter that answers yes
-- to everything, and the wrapper.
mod Tests
pub mod Transparent
use provenex_core.Prelude.{
  ℕ, ◌+◌, ◌≡◌, ◌⊎◌, refl, Bool, true, false, not, none, Option, List, Result, ok, ◌>>=◌,
  if◌then◌else◌, Bool-cases, inl, inr, Returns, returns,
}
use provenex_core.Text.{Text}
use provenex_core.Index.{VerificationOutcome, unverified, IndexEntry, Addition, ProvenanceIndex}

-- `BloomFilterIndex`
pub record BloomFilterIndex : Type 1 where
  pub Filter : Type 0
  pub probably_contains : Filter → Text → Bool
  pub add : Filter → Text → Filter
  pub size : Filter → ℕ

-- `NoopBloomFilter`: its state is the count.
abbrev pub noop_bloom_filter : BloomFilterIndex
noop_bloom_filter = record {
  Filter = ℕ;
  probably_contains = λ n fp. true;
  add = λ n fp. n + 1;
  size = λ n. n;
}

pub record Accelerated (S F : Type 0) : Type 0 where
  pub base : S
  pub bloom : F

module _ (index : ProvenanceIndex) (filter : BloomFilterIndex) where
  abbrev pub BloomIndex : Type 0
  BloomIndex = Accelerated index.State filter.Filter

  pub bloom_add : BloomIndex → Addition → Result BloomIndex
  bloom_add s a =
      index.add s.base a >>= λ b. ok (record { base = b; bloom = filter.add s.bloom a.fingerprint })

  pub bloom_verify : BloomIndex → Text → Result VerificationOutcome
  bloom_verify s fp =
      if not (filter.probably_contains s.bloom fp) then ok unverified else index.verify s.base fp

  pub bloom_lookup : BloomIndex → Text → Option IndexEntry
  bloom_lookup s fp =
      if not (filter.probably_contains s.bloom fp) then none else index.lookup s.base fp

  pub bloom_set_authorization : BloomIndex → Text → Bool → BloomIndex
  bloom_set_authorization s id b = record s { base = index.set_authorization s.base id b }

  pub bloom_supersede : BloomIndex → Text → Text → BloomIndex × ℕ
  bloom_supersede s id v = let (b, n) = index.supersede s.base id v in (record s { base = b }, n)

  -- The wrapper as an implementation of the interface.
  abbrev pub bloom_index : ProvenanceIndex
  bloom_index = record {
    State = BloomIndex;
    add = bloom_add;
    lookup = bloom_lookup;
    set_authorization = bloom_set_authorization;
    supersede = bloom_supersede;
    verify = bloom_verify;
  }

  -- What the filter's documentation asks: no false negative.
  pub record NoFalseNegatives : Type 0 where
    pub keeps :
        (f : filter.Filter) (fp fp' : Text)
        → filter.probably_contains f fp ≡ true
        → filter.probably_contains (filter.add f fp') fp ≡ true
    pub holds :
        (f : filter.Filter) (fp : Text) → filter.probably_contains (filter.add f fp) fp ≡ true

  -- What the wrapper asks of the index: a fingerprint that no call of `add` named is UNVERIFIED and
  -- not found, and only `add` brings a fingerprint in.
  pub record Tracks (Named : index.State → Text → Type 0) : Type 0 where
    pub absent :
        (s : index.State) (fp : Text)
        → ((Named s fp) → ⊥)
        → (index.verify s fp ≡ ok unverified) × (index.lookup s fp ≡ none)
    pub added :
        (s s' : index.State) (a : Addition) (fp : Text)
        → index.add s a ≡ ok s'
        → Named s' fp
        → Named s fp ⊎ (fp ≡ a.fingerprint)
    pub authorized :
        (s : index.State) (id : Text) (b : Bool) (fp : Text)
        → Named (index.set_authorization s id b) fp
        → Named s fp
    pub superseded :
        (s : index.State) (id v fp : Text) → Named (index.supersede s id v).0 fp → Named s fp
