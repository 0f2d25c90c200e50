-- ===== src/Index/Sqlite/Lookup.antt =====
-- `lookup`: the entry that it returns is a row of the table with its document.
use mathlib.Core.Option.{some-injective}
use mathlib.Core.Path.{subst}
use mathlib.Core.List.{Memᴰ}
use provenex_core.Prelude.{
  ◌≡◌, refl, some, List, [], ◌∷◌, ◌==◌, nat_eq, list_eq, Bool-cases, Option-cases, inl, inr, All,
  All-imp,
}
use provenex_core.Text.{Text}
use provenex_core.Index.{IndexEntry}
use provenex_core.Index.Sqlite.{
  Document, Row, Db, find_document, entry, matches, comes_before, better, first_of_order, lookup,
}
use provenex_core.Index.Sqlite.Tables.{text_eq_iff}

pub All-Memᴰ {ℓ} : {A : Type ℓ} (xs : List A) → All (λ x. Memᴰ x xs) xs
All-Memᴰ [] = tt
All-Memᴰ (x ∷ xs) = (Memᴰ.head refl, All-imp _ _ xs (λ y m. Memᴰ.tail m) (All-Memᴰ xs))

pub matches-All :
    (P : IndexEntry → Type 0) (ds : List Document) (fp : Text) (rows : List Row)
    → All
        (λ row.
          (d : Document)
          → row.fingerprint ≡ fp
          → find_document row.document_id ds ≡ some d
          → P (entry row d))
        rows
    → All P (matches ds fp rows)
unfolding matches
matches-All P ds fp [] h = tt
matches-All P ds fp (row ∷ rows) h = elim (Bool-cases (row.fingerprint == fp)) [
  | inr e ↦ rw e (matches-All P ds fp rows h.1)
  | inl e ↦ rw e (elim (Option-cases (find_document row.document_id ds)) [
    | inl f ↦ rw f (matches-All P ds fp rows h.1)
    | inr (d, f) ↦ rw f (h.0 d ((text_eq_iff _ _).0 e) f, matches-All P ds fp rows h.1)
  ])
]

pub first_of_order-All :
    (P : IndexEntry → Type 0) (es : List IndexEntry) (e : IndexEntry)
    → All P es
    → first_of_order es ≡ some e
    → P e
unfolding first_of_order
first_of_order-All P [] e h q = cc
first_of_order-All P (x ∷ es) e h q = elim (Option-cases (first_of_order es)) [
  | inl n ↦ subst P (some-injective _ _ (rw n at q)) h.0
  | inr (b, s) ↦ elim (Bool-cases (comes_before b x)) [
    | inl c ↦
        subst P (some-injective _ _ (rw (s, better, c) at q)) (first_of_order-All P es b h.1 s)
    | inr c ↦ subst P (some-injective _ _ (rw (s, better, c) at q)) h.0
  ]
]

-- Where an entry comes from.
pub record Shown (db : Db) (fp : Text) (e : IndexEntry) : Type 0 where
  pub row : Row
  pub document : Document
  pub listed : Memᴰ row db.fingerprints
  pub about : row.fingerprint ≡ fp
  pub found : find_document row.document_id db.documents ≡ some document
  pub same : entry row document ≡ e

pub lookup-Shown : (db : Db) (fp : Text) (e : IndexEntry) → lookup db fp ≡ some e → Shown db fp e
unfolding lookup
lookup-Shown db fp e h =
    first_of_order-All (Shown db fp) _ e
      (matches-All (Shown db fp) db.documents fp db.fingerprints (
        All-imp _ _ db.fingerprints
          (λ row m d a f. record {
            row = row;
            document = d;
            listed = m;
            about = a;
            found = f;
            same = refl;
          })
          (All-Memᴰ db.fingerprints)))
      h
