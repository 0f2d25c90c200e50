-- ===== src/Rules/Resolve.antt =====
-- `_resolve_path` and `_when_matches`.
use provenex_core.Prelude.{
  Bool, true, false, Option, none, some, List, [], ◌∷◌, if◌then◌else◌, ◌==◌, nat_eq, list_eq,
  Result, ok, err, ◌>>=◌, policy_parse_error, attribute_error,
}
use provenex_core.Text.{Text, codes, split}
use provenex_core.Value.{
  Value, text, seq, dict, other, Key, name, other_key, get, optional_text, value_eq, contains,
}
use provenex_core.Rules.{Runtime, ChunkContext, RequestContext, ToolCallContext}

-- What a path is resolved against: a request, and a chunk or a tool call.
pub record Subject : Type 0 where
  pub chunk : Option ChunkContext
  pub tool : Option ToolCallContext
  pub request : RequestContext

module _ (r : Runtime) where
  -- One segment further: a dictionary's key, or an attribute of an object of another type.
  pub segment : Value → Text → Option Value
  segment (dict fs) seg = get seg fs
  segment v seg = r.attribute v seg

  unfoldable pub walk : Value → List Text → Option Value
  unfolding segment
  walk v [] = some v
  walk v (seg ∷ segs) = elim (segment v seg) [ none ↦ none | some w ↦ walk w segs ]

  pub walk_from : Option Value → List Text → Option Value
  walk_from none segs = none
  walk_from (some v) segs = walk v segs

  -- getattr of a context: a field, or what any object has.
  unfoldable pub chunk_attribute : ChunkContext → Text → Option Value
  chunk_attribute c seg =
      if seg == codes "fingerprint"
      then some (text c.fingerprint)
      else if seg == codes "document_id"
      then some (optional_text c.document_id)
      else if seg == codes "document_version"
      then some (optional_text c.document_version)
      else if seg == codes "ingested_at"
      then some (optional_text c.ingested_at)
      else if seg == codes "metadata"
      then some (dict c.metadata)
      else if seg == codes "content_source"
      then some (optional_text c.content_source)
      else r.attribute (other r.context) seg

  unfoldable pub request_attribute : RequestContext → Text → Option Value
  request_attribute q seg =
      if seg == codes "caller"
      then some (dict q.caller)
      else if seg == codes "jurisdiction"
      then some (optional_text q.jurisdiction)
      else if seg == codes "purpose"
      then some (optional_text q.purpose)
      else if seg == codes "timestamp"
      then some (text q.timestamp)
      else if seg == codes "session_id"
      then some (optional_text q.session_id)
      else r.attribute (other r.context) seg

  unfoldable pub tool_attribute : ToolCallContext → Text → Option Value
  tool_attribute t seg =
      if seg == codes "name"
      then some (text t.tool_name)
      else if seg == codes "operation"
      then some (text t.operation)
      else if seg == codes "parameters"
      then some (dict t.parameters)
      else if seg == codes "target_system"
      then some (optional_text t.target_system)
      else if seg == codes "invocation_id"
      then some (optional_text t.invocation_id)
      else r.attribute (other r.context) seg

  pub walk_context : (Text → Option Value) → List Text → Option Value
  unfolding walk_from
  walk_context attribute [] = some (other r.context)
  walk_context attribute (seg ∷ segs) = walk_from (attribute seg) segs

  pub in_chunk : Option ChunkContext → List Text → Option Value
  in_chunk none segs = none
  in_chunk (some c) segs = walk_context (chunk_attribute c) segs

  pub in_tool : Option ToolCallContext → List Text → Option Value
  in_tool none segs = none
  in_tool (some t) segs = walk_context (tool_attribute t) segs

  -- The value none is `_MISSING`.
  unfoldable pub resolve_parts : Subject → List Text → Result (Option Value)
  unfolding in_chunk in_tool walk_context
  resolve_parts s [] = ok none
  resolve_parts s (root ∷ segs) =
      if root == codes "chunk"
      then ok (in_chunk s.chunk segs)
      else if root == codes "tool"
      then ok (in_tool s.tool segs)
      else if root == codes "request"
      then ok (walk_context (request_attribute s.request) segs)
      else err policy_parse_error

  -- A key that is no string has no `split`.
  unfoldable pub resolve_path : Subject → Key → Result (Option Value)
  resolve_path s (name path) = resolve_parts s (split b'.' path)
  resolve_path s (other_key n) = err attribute_error

  -- `actual in container`
  pub is_in : Value → Value → Result Bool
  is_in actual (seq vs) = ok (contains r.other_eq vs actual)
  is_in actual v = r.in_container actual v

  pub condition_holds : Value → Option Value → Result Bool
  condition_holds expected none = ok false
  condition_holds (dict fs) (some actual) = elim (get (codes "in") fs) [
    | none ↦ ok false
    | some container ↦ is_in actual container
  ]
  condition_holds expected (some actual) = ok (value_eq r.other_eq actual expected)

  unfoldable pub when_matches : Subject → List (Key × Value) → Result Bool
  unfolding condition_holds is_in
  when_matches s [] = ok true
  when_matches s ((path, expected) ∷ conditions) = do
    actual ← resolve_path s path
    holds ← condition_holds expected actual
    if holds then when_matches s conditions else ok false
