-- ===== src/Index/Sqlite/Verdict.antt =====
-- What the outcomes of `verify` say about the tables.
use mathlib.Core.Option.{some-injective}
use mathlib.Core.List.{Memᴰ}
use provenex_core.Prelude.{
  ℕ, ◌≡◌, ◌≢◌, sym, ◌∙◌, ap, Bool, true, false, none, some, List, [], ◌∷◌, arith, nat_eq, list_eq,
  Option-cases, inl, inr, All, ok, >>=-eq-ok, ok-injective, Returns, returns, subst,
}
use provenex_core.Text.{Text}
use provenex_core.Index.{IndexEntry, Addition, verified, unverified, tampered}
use provenex_core.Index.Sqlite.{
  Document, Row, Db, canonical_payload, signed_fields, find_document, entry, lookup, verify,
  verify_entry, judge, set_authorization, supersede, add, empty_db,
}
use provenex_core.Index.Sqlite.Tables.{text_eq_iff}
use provenex_core.Index.Sqlite.Invariant.{
  IsCurrent, IsSigned, IsSound, empty_db-IsSound, add-IsSound, set_authorization-IsSound,
  supersede-IsSound,
}
use provenex_core.Index.Sqlite.Lookup.{lookup-Shown}

All-at {ℓ} : {A : Type 0} (P : A → Type ℓ) (xs : List A) (x : A) → All P xs → Memᴰ x xs → P x
All-at P [] x h m = elim m [ ]
All-at P (y ∷ xs) x h (Memᴰ.head e) = subst P (sym e) h.0
All-at P (y ∷ xs) x h (Memᴰ.tail m) = All-at P xs x h.1 m

module _ (mac : List ℕ → List ℕ → Text) (secret : List ℕ) where
  -- The tables that calls of the index lead to, from an empty database.
  pub data Reach : Db → Type 0 where
    created : Reach empty_db
    added : {db db' : Db} (a : Addition) → Reach db → add mac secret db a ≡ ok db' → Reach db'
    authorization : {db : Db} (id : Text) (b : Bool) → Reach db → Reach (set_authorization db id b)
    supersession : {db : Db} (id version : Text) → Reach db → Reach (supersede db id version).0

  -- Whatever the calls, each row has its document, carries the MAC of its fields, and is at the
  -- document's current version unless it is marked superseded.
  pub Reach-IsSound : {db : Db} → Reach db → IsSound mac secret db
  Reach-IsSound created = empty_db-IsSound mac secret
  Reach-IsSound (added {db} {db'} a r e) = add-IsSound mac secret db db' a (Reach-IsSound r) e
  Reach-IsSound (authorization {db} id b r) =
      set_authorization-IsSound mac secret db id b (Reach-IsSound r)
  Reach-IsSound (supersession {db} id version r) =
      supersede-IsSound mac secret db id version (Reach-IsSound r)

  -- A row that justifies the outcome VERIFIED.
  pub record Verified (db : Db) (fp : Text) : Type 0 where
    pub row : Row
    pub document : Document
    pub listed : Memᴰ row db.fingerprints
    pub about : row.fingerprint ≡ fp
    pub found : find_document row.document_id db.documents ≡ some document
    pub allowed : document.authorized ≡ true
    pub current : document.current_version ≡ row.document_version

  unverified-not-verified : verify_entry mac secret none ≢ ok verified
  unfolding verify_entry
  unverified-not-verified h = cc (ok-injective h)

  not_tampered : unverified ≢ tampered
  not_tampered h = cc

  unverified-not-tampered : Returns (λ o. o ≢ tampered) (verify_entry mac secret none)
  unfolding verify_entry
  unverified-not-tampered = returns not_tampered

  judge-not-tampered :
      (e : IndexEntry) (payload : List ℕ)
      → e.signature ≡ mac secret payload
      → judge mac secret e payload ≢ tampered
  unfolding judge
  judge-not-tampered e payload s = ground (arith, s, text_eq_iff (mac secret payload) e.signature)

  verify_entry-verified :
      (e : IndexEntry)
      → verify_entry mac secret (some e) ≡ ok verified
      → (e.authorized ≡ true) × (e.superseded ≡ false)
  unfolding verify_entry
  verify_entry-verified e h =
      let (payload, c, j) =
        >>=-eq-ok (canonical_payload (signed_fields e)) (λ m. ok (judge mac secret e m)) h in
      ground (arith, ok-injective j)

  -- In tables that calls led to, a VERIFIED fingerprint is in the index, and its document is
  -- authorized and at the row's version.
  pub verify-Verified :
      (db : Db) (fp : Text) → Reach db → verify mac secret db fp ≡ ok verified → Verified db fp
  unfolding verify
  verify-Verified db fp r h = elim (Option-cases (lookup db fp)) [
    | inl n ↦ absurd (unverified-not-verified (rw n at h))
    | inr (e, l) ↦
        let s = Reach-IsSound r in
        let w = lookup-Shown db fp e l in
        let (p, q) = verify_entry-verified e (rw l at h) in
        let c = All-at (IsCurrent db.documents) db.fingerprints w.row s.current w.listed in
        let same_document = some-injective _ _ (sym c.found ∙ w.found) in
        record {
          row = w.row;
          document = w.document;
          listed = w.listed;
          about = w.about;
          found = w.found;
          allowed = (ap (λ x. x.authorized) w.same) ∙ p;
          current =
              sym (ap (λ d. d.current_version) same_document)
              ∙ c.current (ap (λ x. x.superseded) w.same ∙ q);
        }
  ]

  entry-not-tampered :
      (row : Row) (d : Document)
      → IsSigned mac secret row
      → Returns (λ o. o ≢ tampered) (verify_entry mac secret (some (entry row d)))
  unfolding verify_entry entry
  entry-not-tampered row d s =
      rw s.canonical (returns (judge-not-tampered (entry row d) s.payload s.mac_of))

  -- The index raises no false alarm: in tables that calls led to, `verify` returns, and never
  -- answers TAMPERED.
  pub verify-not-tampered :
      (db : Db) (fp : Text) → Reach db → Returns (λ o. o ≢ tampered) (verify mac secret db fp)
  unfolding verify
  verify-not-tampered db fp r = elim (Option-cases (lookup db fp)) [
    | inl n ↦ rw n unverified-not-tampered
    | inr (e, l) ↦
        let s = Reach-IsSound r in
        let w = lookup-Shown db fp e l in
        rw (l, ← w.same)
          (entry-not-tampered w.row w.document
            (All-at (IsSigned mac secret) db.fingerprints w.row s.signed w.listed))
  ]
