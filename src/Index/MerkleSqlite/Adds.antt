-- ===== src/Index/MerkleSqlite/Adds.antt =====
-- Whatever the base index accepts, the log accepts, and a new row gets a leaf.
use mathlib.Core.Option.{some-injective}
use provenex_core.Prelude.{
  ℕ, ◌≡◌, ◌≢◌, refl, ◌∙◌, ap, true, none, some, List, [], ◌∷◌, ◌++◌, ◌&&◌, arith, ok, Returns,
  returns, Bool-cases, Option-cases, inl, inr, ◌==◌, nat_eq, list_eq, All, subst, ==_refl,
  >>=-eq-ok, ok-injective, type_error, key_error, pos,
}
use provenex_core.Text.{Text}
use provenex_core.Index.{Addition}
use provenex_core.Merkle.{Bytes, size, root, inclusion_proof}
use provenex_core.Index.Sqlite.{
  Row, Db, add, canonical_payload, row_fields, has_key, insert_or_ignore, new_row,
}
use provenex_core.Index.Sqlite.Invariant.{IsSigned, add-Added}
use provenex_core.Index.Sqlite.Verdict
use provenex_core.Index.Sqlite.Verdict.{Reach-IsSound}
use provenex_core.Index.MerkleSqlite.{
  MerkleIndex, find_row, is_some, or_raise, log_row, find_leaf, tree_root, merkle_inclusion_proof,
  merkle_add, index_of, open_index,
}
use provenex_core.Index.MerkleSqlite.Log.{
  Reach, opened, added, authorization, supersession, rooted, proved, log_row-returns, with_base,
}
use provenex_core.Index.MerkleSqlite.Proofs.{Reach-IsConsistent}

find_row-append :
    (a : Addition) (signature : Text) (rows : List Row)
    → find_row a (rows ++ new_row a signature ∷ []) ≢ none
unfolding find_row
find_row-append a signature [] h =
    cc (rw (==_refl a.fingerprint, ==_refl a.document_id, ==_refl a.document_version) at h)
find_row-append a signature (r ∷ rows) h =
    elim (Bool-cases (
      r.fingerprint == a.fingerprint
      && r.document_id == a.document_id
      && r.document_version == a.document_version)) [
        | inl e ↦ cc (rw e at h)
        | inr e ↦ find_row-append a signature rows (rw e at h)
      ]

find_row-has_key :
    (a : Addition) (signature : Text) (rows : List Row)
    → has_key (new_row a signature) rows ≡ true
    → find_row a rows ≢ none
unfolding find_row has_key
find_row-has_key a signature [] k h = cc
find_row-has_key a signature (r ∷ rows) k h =
    elim (Bool-cases (
      r.fingerprint == a.fingerprint
      && r.document_id == a.document_id
      && r.document_version == a.document_version)) [
        | inl e ↦ cc (rw e at h)
        | inr e ↦ find_row-has_key a signature rows (ground (arith, e, k)) (rw e at h)
      ]

find_row-insert_or_ignore :
    (a : Addition) (signature : Text) (rows : List Row)
    → find_row a (insert_or_ignore (new_row a signature) rows) ≢ none
unfolding insert_or_ignore
find_row-insert_or_ignore a signature rows h =
    elim (Bool-cases (has_key (new_row a signature) rows)) [
      | inl e ↦ find_row-has_key a signature rows e (rw e at h)
      | inr e ↦ find_row-append a signature rows (rw e at h)
    ]

find_row-All :
    (P : Row → Type 0) (a : Addition) (rows : List Row) (row : Row)
    → All P rows
    → find_row a rows ≡ some row
    → P row
unfolding find_row
find_row-All P a [] row p h = absurd (cc h)
find_row-All P a (r ∷ rows) row p h =
    elim (Bool-cases (
      r.fingerprint == a.fingerprint
      && r.document_id == a.document_id
      && r.document_version == a.document_version)) [
        | inl e ↦ subst P (some-injective _ _ (rw e at h)) p.0
        | inr e ↦ find_row-All P a rows row p.1 (rw e at h)
      ]

module _ (sha256 : Bytes → Bytes) (mac : List ℕ → List ℕ → Text) (secret : List ℕ) where
  log_row-base :
      (s s' : MerkleIndex) (fp : Text) (leaf_bytes : Bytes)
      → log_row sha256 mac secret s fp leaf_bytes ≡ ok s'
      → s.base ≡ s'.base
  unfolding log_row
  log_row-base s s' fp leaf_bytes e =
      elim (Bool-cases (is_some (find_leaf s.merkle_leaves (size s.tree)))) [
        | inl q ↦ absurd (cc (rw q at e))
        | inr q ↦ ap (λ x. x.base) (ok-injective (rw q at e))
      ]

  merkle_add-base :
      (s s' : MerkleIndex) (a : Addition)
      → merkle_add sha256 mac secret s a ≡ ok s'
      → add mac secret s.base a ≡ ok s'.base
  unfolding merkle_add
  merkle_add-base s s' a e =
      let (db, h, k) = >>=-eq-ok (add mac secret s.base a) _ e in
      h
      ∙ ap (λ x. ok x)
          (elim (Bool-cases (is_some (find_row a s.base.fingerprints))) [
            | inl q ↦ ap (λ x. x.base) (ok-injective (rw q at k))
            | inr q ↦
                let (row, r, k₁) =
                  >>=-eq-ok (or_raise type_error (find_row a db.fingerprints)) _ (rw q at k) in
                let (bytes, p, k₂) = >>=-eq-ok (canonical_payload (row_fields row)) _ k₁ in
                log_row-base (record s { base = db }) s' a.fingerprint bytes k₂
          ])

  tree_root-base :
      (s s' : MerkleIndex) (h : Text)
      → tree_root sha256 mac secret s ≡ ok (h, s')
      → s.base ≡ s'.base
  unfolding tree_root
  tree_root-base s s' h e =
      let (out, r, k) = >>=-eq-ok (root sha256 s.tree) _ e in ap (λ x. x.1.base) (ok-injective k)

  merkle_inclusion_proof-base :
      (s s' : MerkleIndex) (out : Bytes × ℕ × List Text) (fp : Text)
      → merkle_inclusion_proof sha256 mac secret s fp ≡ ok (out, s')
      → s.base ≡ s'.base
  unfolding merkle_inclusion_proof
  merkle_inclusion_proof-base s s' out fp e =
      let (i, n, k) = >>=-eq-ok (or_raise key_error (index_of s.leaf_index_by_fp fp)) _ e in
      let (pt, r, k₁) = >>=-eq-ok (inclusion_proof sha256 s.tree (pos i)) _ k in
      let (leaf, f, k₂) = >>=-eq-ok (or_raise type_error (find_leaf s.merkle_leaves i)) _ k₁ in
      ap (λ x. x.1.base) (ok-injective k₂)

  -- The tables below the log are ones that calls of the base index led to.
  Reach-base : {s : MerkleIndex} → Reach sha256 mac secret s → Verdict.Reach mac secret s.base
  unfolding open_index
  Reach-base (opened {db} r) = r
  Reach-base (added {s} {s'} a r e) = Verdict.added a (Reach-base r) (merkle_add-base s s' a e)
  Reach-base (authorization {s} id b r) = Verdict.authorization id b (Reach-base r)
  Reach-base (supersession {s} id version r) = Verdict.supersession id version (Reach-base r)
  Reach-base (rooted {s} {s'} {h} r e) =
      subst (Verdict.Reach mac secret) (tree_root-base s s' h e) (Reach-base r)
  Reach-base (proved {s} {s'} {out} fp r e) =
      subst (Verdict.Reach mac secret) (merkle_inclusion_proof-base s s' out fp e) (Reach-base r)

  -- What an accepted addition leaves: the base index as the base call does, and for a row that is
  -- new an entry of the dictionary.
  pub record Logs (s : MerkleIndex) (a : Addition) (db : Db) (s' : MerkleIndex) : Type 0 where
    pub base : s'.base ≡ db
    pub entry :
        find_row a s.base.fingerprints ≡ none
        → index_of s'.leaf_index_by_fp a.fingerprint ≡ some (size s.tree)

  -- After any calls, an addition that the base index accepts is accepted by the index with the log,
  -- with the same tables, and a row that is new is in the dictionary at the end of the log.
  pub merkle_add-Logs :
      {s : MerkleIndex} (a : Addition) (db : Db)
      → Reach sha256 mac secret s
      → add mac secret s.base a ≡ ok db
      → Returns (Logs s a db) (merkle_add sha256 mac secret s a)
  unfolding merkle_add is_some index_of or_raise
  merkle_add-Logs {s} a db r h =
      let w = add-Added mac secret s.base db a h in
      let sound = Reach-IsSound mac secret (Verdict.added a (Reach-base r) h) in
      let c = with_base sha256 mac secret s db (Reach-IsConsistent sha256 mac secret r) in
      elim (Option-cases (find_row a s.base.fingerprints)) [
        | inr (row, f) ↦ rw (h, f) (returns (record { base = refl; entry = λ n. cc (n, f) }))
        | inl f ↦ elim (Option-cases (find_row a db.fingerprints)) [
          | inl g ↦ absurd (
              find_row-insert_or_ignore a (mac secret w.payload) _
                (ap (λ x. find_row a x.fingerprints) w.stored ∙ g))
          | inr (row, g) ↦
              let signed =
                find_row-All (IsSigned mac secret) a db.fingerprints row sound.signed g in
              rw
                (
                  h,
                  f,
                  g,
                  signed.canonical,
                  log_row-returns sha256 mac secret (record s { base = db }) a.fingerprint
                      signed.payload c,
                )
                (returns (record { base = refl; entry = λ _. rw (==_refl a.fingerprint) refl }))
        ]
      ]
