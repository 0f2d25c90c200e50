-- ===== src/Receipt/Signing.antt =====
-- Signers, the hashes of callers and of values, the canonical payload and the verification of a
-- signature.
use provenex_core.Prelude.{
  ℕ, Bool, true, false, ◌&&◌, Option, none, some, List, [], ◌∷◌, ◌++◌, if◌then◌else◌, ◌==◌, nat_eq,
  list_eq, ltb, Result, ok, err, ◌>>=◌, type_error, attribute_error, runtime_error,
}
use provenex_core.Text.{Text, codes, utf8}
use provenex_core.Value.{Value, text, dict, Fields, get, pop, or_null, value_eq, truthy}
use provenex_core.Rules.{Runtime, canonical_bytes, value_hash}
use provenex_core.Receipt.{ReceiptSigner, ProvenanceReceipt, receipt_dict}

abbrev pub is_ascii : Text → Bool
is_ascii [] = true
is_ascii (c ∷ s) = ltb c 128 && is_ascii s

-- hmac.compare_digest, which takes strings of ASCII characters only
unfoldable pub compare_digest : Text → Text → Result Bool
compare_digest s t = if is_ascii s && is_ascii t then ok (s == t) else err type_error

-- ReceiptSigner.verify: sign again and compare.
unfoldable pub default_verify : (List ℕ → Result Text) → List ℕ → Text → Result Bool
default_verify sign payload signature = elim (sign payload) [
  | ok actual ↦ compare_digest actual signature
  | err e ↦ ok false
]

abbrev nonempty : Option Text → Option Text
nonempty none = none
nonempty (some []) = none
nonempty (some (c ∷ s)) = some (c ∷ s)

-- `_resolve_receipt_secret`, for an environment
unfoldable pub resolve_receipt_secret : (Text → Option Text) → Result (List ℕ)
resolve_receipt_secret env = elim (nonempty (env (codes "PROVENEX_RECEIPT_SECRET"))) [
  | some s ↦ ok (utf8 s)
  | none ↦ elim (nonempty (env (codes "PROVENEX_SIGNING_SECRET"))) [
    | some s ↦ ok (utf8 s)
    | none ↦ err runtime_error
  ]
]

-- The argument of `compute_value_hash`.
pub data Hashable : Type 0 where
  string : Text → Hashable
  bytes : List ℕ → Hashable
  structure : Value → Hashable

module _ (r : Runtime) where
  -- HmacSha256Signer
  abbrev pub hmac_signer : List ℕ → ReceiptSigner
  hmac_signer secret = record {
    algorithm = codes "hmac-sha256";
    sign = λ payload. ok (r.hmac_hex secret payload);
    verify = default_verify (λ payload. ok (r.hmac_hex secret payload));
  }

  -- HmacSha256Signer.__init__, with the secret given or resolved
  unfoldable pub create_hmac_signer : (Text → Option Text) → Option (List ℕ) → Result ReceiptSigner
  create_hmac_signer env (some secret) = ok (hmac_signer secret)
  create_hmac_signer env none = do secret ← resolve_receipt_secret env; ok (hmac_signer secret)

  -- ProvenanceReceipt.canonical_payload
  unfoldable pub canonical_payload : ProvenanceReceipt → Result (List ℕ)
  canonical_payload c = canonical_bytes r (dict (pop (codes "signature") (receipt_dict c)))

  unfoldable pub hash_output : Text → Text
  hash_output output = codes "sha256:" ++ r.sha256_hex (utf8 output)

  unfoldable pub compute_caller_hash : Fields → Option (List ℕ) → Result Text
  compute_caller_hash caller salt = do
    payload ← canonical_bytes r (dict caller)
    elim salt [
      | none ↦ ok (codes "sha256:" ++ r.sha256_hex payload)
      | some key ↦ ok (codes "hmac-sha256:" ++ r.hmac_hex key payload)
    ]

  unfoldable pub compute_value_hash : Hashable → Result Text
  compute_value_hash (string s) = ok (codes "sha256:" ++ r.sha256_hex (utf8 s))
  compute_value_hash (bytes bs) = ok (codes "sha256:" ++ r.sha256_hex bs)
  compute_value_hash (structure v) = value_hash r v

  -- The value of a signature block: `expected_value or ""`.
  pub check_value : ReceiptSigner → List ℕ → Value → Result Bool
  check_value signer payload (text s) = signer.verify payload s
  check_value signer payload v =
      if truthy r.other_truth v then err type_error else signer.verify payload []

  pub check_block : ReceiptSigner → Fields → Value → Result Bool
  unfolding check_value
  check_block signer receipt (dict sig) =
      if value_eq r.other_eq (or_null (get (codes "algorithm") sig)) (text signer.algorithm)
      then (canonical_bytes r (dict (pop (codes "signature") receipt)) >>= λ payload.
          check_value signer payload (or_null (get (codes "value") sig)))
      else ok false
  check_block signer receipt v = err attribute_error

  unfoldable pub verify_receipt_signature : ReceiptSigner → Fields → Result Bool
  unfolding check_block
  verify_receipt_signature signer receipt =
      let sig = or_null (get (codes "signature") receipt) in
      if truthy r.other_truth sig then check_block signer receipt sig else ok false
