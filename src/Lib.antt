-- ===== src/Lib.antt =====
-- Provenex core: content provenance for retrieval pipelines. Chunks of documents are normalized and
-- fingerprinted (core/normalizer.py, core/fingerprinter.py, core/hasher.py), the fingerprints are
-- kept in a signed index (index/), the index is committed to a Merkle tree (core/merkle.py).
-- Retrieved chunks are judged by the index, by a blocking policy (policy/policy.py) and by the rules
-- of a policy file (policy/yaml_evaluator.py), which also govern tool calls (tool_call/); each
-- judgement gives a signed receipt (core/receipt.py, core/verify.py, tool_call/admission.py). The
-- receipts of an agent's steps form a trajectory (core/trajectory.py) and are shipped to sinks
-- (export/streaming.py). All paths are below provenex/.
--
-- The files:
-- - Prelude: lists and tests over native numbers, calls that return or raise; Text: `str` as code
--   points, with UTF-8, decimal digits, `join` and `startswith`; Value: the values of YAML and JSON
--   files, with Python's `==`, truth and dictionaries.
-- - Merkle: core/merkle.py. `MerkleTree` is the object, `append`, `root`, `inclusion_proof`,
--   `mth`, `proof` its methods, each passing the memo on; `verify_inclusion_proof` with its loop
--   (`walk`, `step`, `unwind`). The hash is a parameter. The recursion of `mth` and `proof` has as
--   fuel the number of leaves, which bounds its depth.
-- - Index: index/base.py. `ProvenanceIndex` is the abstract class. Index/Sqlite: the tables of
--   index/sqlite_index.py as lists of rows, a function for each SQL statement and each method; the
--   MAC is a parameter. Index/MerkleSqlite: index/merkle_sqlite_index.py, over Sqlite and Merkle.
--   Index/Bloom: index/bloom.py, over any index and any filter.
-- - Policy: policy/policy.py. `should_block`, `should_flag`, `overall_status`.
-- - Rules: what the two YAML evaluators share, of policy/yaml_evaluator.py. Rules/Duration,
--   Rules/Validate (`_validate_rule`, `_validate_defaults`), Rules/Resolve (`_resolve_path`,
--   `_when_matches`), Rules/Constraint (`_check_constraint` and the loop of `evaluate`). The record
--   `Runtime` holds what the rules ask of Python: objects of other types, fnmatch, ISO 8601,
--   json.dumps, SHA-256 and HMAC.
-- - Access: the retrieval evaluator, from bundle (`construct_from_bundle`) to decision (`evaluate`).
--   ToolCall: the same of tool_call/yaml_evaluator.py and tool_call/evaluator.py. Unified:
--   policy/unified.py, with `from_bundle` and the protocol of an evaluator.
-- - Receipt: the records of core/receipt.py and their dictionaries; Receipt/Builder (`finalize`),
--   Receipt/Signing (`verify_receipt_signature`). Verify: core/verify.py, `verify_chunks` over any
--   index, evaluator, signer and sink. Admission: tool_call/admission.py, `admission_check` and
--   `enforce_admission`.
-- - Hasher: core/hasher.py. `RollingHasher` with `prime` and `roll`; `iter_window_hashes` as the
--   list of what it yields. Fingerprint: core/normalizer.py and core/fingerprinter.py.
-- - Trajectory: core/trajectory.py. `next_step`, `to_dict`, `audit_trajectory_dag`; the loop over the
--   stack (`visit`) has fuel for each node and each edge once.
-- - Streaming: export/streaming.py. The four sinks as state passed on, with what they raise.
-- - Ocsf: export/ocsf.py on parsed receipts. Ocsf has the skeleton of an event, its labels and
--   `is_source_blocked`, Ocsf/Events the builders, `receipt_to_ocsf` and the adapter over any sink.
--   The record `Host` holds `str`, `lower` outside ASCII, the milliseconds of a date and the clock.
-- - Cloud: export/aws.py, export/gcp.py, export/kafka.py over any client, with `pubsub_attributes`.
--
-- Not modelled: locks and threads, the clock and the random ids (arguments of the model), texts of
-- warnings and messages, texts with lone surrogates, on which `encode("utf-8")` raises where `utf8`
-- goes on, the interpreter's limits on recursion and on the digits of an integer, and
-- the parts of the repository that have no file here: the Postgres indexes, Ed25519 signing,
-- the command line and the framework adapters. Extra metadata of the OCSF
-- export with the key `labels`, whose list its events would share, is left out.
pub mod Prelude
pub mod Index
pub mod Text
pub mod Merkle
pub mod Trajectory
pub mod Hasher
pub mod Streaming
pub mod Policy
pub mod Value
pub mod Rules
pub mod Access
pub mod ToolCall
pub mod Receipt
pub mod Unified
pub mod Fingerprint
pub mod Verify
pub mod Admission
pub mod Ocsf
pub mod Cloud
