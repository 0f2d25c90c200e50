-- ===== src/Rules/Sample.antt =====
-- An interpreter to try the rules with, and a policy file.
use provenex_core.Prelude.{
  ℕ, pos, ◌-◌, Bool, true, false, ◌&&◌, none, some, String, if◌then◌else◌, ◌==◌, nat_eq, list_eq,
  leb, length, ok, err, type_error,
}
use provenex_core.Text.{codes, hex}
use provenex_core.Value.{Value, int, text, dict, seq, cons, nil, Fields, end, field, name}
use provenex_core.Rules.{Runtime, ChunkContext, RequestContext, ToolCallContext}

abbrev pub is_digit : ℕ → Bool
is_digit c = leb 48 c && leb c 57

abbrev pub runtime : Runtime
runtime = record {
  other_eq = λ n v. false;
  other_truth = λ n. true;
  attribute = λ v s. none;
  context = 0;
  sortable = λ ns. true;
  in_container = λ v w. err type_error;
  at_most_other = λ m n. ok false;
  is_space = λ c. c == 32;
  digit = λ c. if is_digit c then some (c - 48) else none;
  fnmatchcase = λ s p. s == p;
  DateTime = ℕ;
  fromisoformat = λ s. some (length s);
  has_timezone = λ d. true;
  as_utc = λ d. d;
  epoch = pos;
  dumps = λ v. ok (codes "{}");
  sha256_hex = hex;
  hmac_hex = λ secret payload. hex payload;
}

abbrev pub entry : String → Value → Fields → Fields
entry k v fs = field (name (codes k)) v fs

-- The name eu: in the EU, only chunks that reside there and are at most 90 days old.
abbrev pub eu_conditions : Fields
eu_conditions = entry "request.jurisdiction" (text (codes "EU")) end

abbrev pub eu_constraints : Fields
eu_constraints =
    entry "chunk.metadata.residency" (dict (entry "in" (seq (cons (text (codes "EU")) nil)) end))
      (entry "chunk.ingested_at" (dict (entry "not_older_than" (text (codes "90d")) end)) end)

abbrev pub eu_rule : Value
eu_rule = dict (
    entry "name" (text (codes "eu"))
      (entry "when" (dict eu_conditions) (entry "require" (dict eu_constraints) end)))

abbrev pub policy_file : String → Value → Fields
policy_file section rule = entry "version" (int (pos 1)) (
    entry "policy_id" (text (codes "p"))
      (entry section (dict (entry "rules" (seq (cons rule nil)) end)) end))

abbrev pub request : RequestContext
request = record {
  caller = end;
  jurisdiction = some (codes "EU");
  purpose = none;
  timestamp = codes "2026";
  session_id = none;
}

abbrev pub chunk_of : Fields → ChunkContext
chunk_of tags = record {
  fingerprint = codes "f";
  document_id = none;
  document_version = none;
  ingested_at = some (codes "2025");
  metadata = tags;
  content_source = none;
}

abbrev pub resident : ChunkContext
resident = chunk_of (entry "residency" (text (codes "EU")) end)

abbrev pub untagged : ChunkContext
untagged = chunk_of end

-- The name mail: only what is short.
abbrev pub mail_constraints : Fields
mail_constraints = entry "tool.parameters.to" (dict (entry "length_at_most" (int (pos 3)) end)) end

abbrev pub mail_rule : Value
mail_rule = dict (entry "name" (text (codes "mail")) (entry "require" (dict mail_constraints) end))

abbrev pub mail_call : ToolCallContext
mail_call = record {
  tool_name = codes "mail";
  operation = codes "send";
  parameters = entry "to" (text (codes "abcd")) end;
  target_system = none;
  invocation_id = none;
}
