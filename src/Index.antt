-- ===== src/Index.antt =====
-- The index interface of provenex/index/base.py.
pub mod Sqlite
pub mod Bloom
pub mod MerkleSqlite
use provenex_core.Prelude.{ℕ, Bool, Option, Result}
use provenex_core.Text.{Text}

pub data VerificationOutcome : Type 0 where
  verified stale unauthorized unverified tampered : VerificationOutcome

-- One row of the index, with the state of its document.
pub record IndexEntry : Type 0 where
  pub fingerprint : Text
  pub document_id : Text
  pub document_version : Text
  pub ingested_at : Text
  pub chunk_offset : ℕ
  pub chunk_length : ℕ
  pub authorized : Bool
  pub superseded : Bool
  pub signature : Text

-- The arguments of `add`, with the clock's answer during the call.
pub record Addition : Type 0 where
  pub fingerprint : Text
  pub document_id : Text
  pub document_version : Text
  pub chunk_offset : ℕ
  pub chunk_length : ℕ
  pub authorized : Bool
  pub now : Text

-- The abstract class `ProvenanceIndex`: a state, and what each method does to it.
pub record ProvenanceIndex : Type 1 where
  pub State : Type 0
  pub add : State → Addition → Result State
  pub lookup : State → Text → Option IndexEntry
  pub set_authorization : State → Text → Bool → State
  pub supersede : State → Text → Text → State × ℕ
  pub verify : State → Text → Result VerificationOutcome
