-- ===== src/Index/Sqlite/Tables.antt =====
-- Laws of the SQL statements on the two tables.
use mathlib.Core.Option
use provenex_core.Prelude.{
  ◌≡◌, refl, none, some, List, [], ◌∷◌, ◌++◌, arith, ◌==◌, nat_eq, list_eq, if◌then◌else◌,
}
use provenex_core.Text.{Text}
pub use provenex_core.Text.{text_eq_iff}
use provenex_core.Index.Sqlite.{Document, find_document, update_documents}

-- An update of one document is seen under its id alone.
pub find_document-update_documents :
    (k j : Text) (f : Document → Document) (ds : List Document)
    → ((d : Document) → (f d).document_id ≡ d.document_id)
    → find_document j (update_documents k f ds)
      ≡ (if k == j then Option.map f (find_document j ds) else find_document j ds)
unfolding find_document update_documents
find_document-update_documents k j f [] keep = ground arith
find_document-update_documents k j f (d ∷ ds) keep = ground (
  arith,
  keep d,
  text_eq_iff d.document_id k,
  text_eq_iff d.document_id j,
  text_eq_iff k j,
  find_document-update_documents k j f ds keep,
)

pub find_document-append :
    (j : Text) (ds : List Document) (d : Document)
    → find_document d.document_id ds ≡ none
    → find_document j (ds ++ d ∷ []) ≡ (if d.document_id == j then some d else find_document j ds)
unfolding find_document
find_document-append j [] d h = refl
find_document-append j (e ∷ ds) d h = ground (
  arith,
  text_eq_iff e.document_id j,
  text_eq_iff e.document_id d.document_id,
  text_eq_iff d.document_id j,
  find_document-append j ds d,
)
