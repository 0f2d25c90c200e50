-- ===== src/Ocsf/Events.antt =====
-- The events of provenex/export/ocsf.py: one for each source and for each action of a receipt,
-- and the sink that emits them.
pub mod Reported
pub mod Severity
pub mod Latest
pub mod Delivered
mod Tests
use provenex_core.Prelude.{
  ℕ, String, ◌+◌, Bool, true, false, ◌&&◌, ◌||◌, Option, none, some, List, [], ◌∷◌, ◌++◌, map,
  if◌then◌else◌, ◌==◌, nat_eq, list_eq, Result, ok, err, ◌>>=◌, type_error, attribute_error,
  sink_closed_error, is_ok,
}
use provenex_core.Text.{Text, codes}
use provenex_core.Value.{
  Value, null, bool, int, text, seq, dict, other, Items, nil, cons, Fields, end, field, Key, name,
  get, to_fields, entries, elements, items, or_null, entry_of, value_eq, contains,
}
use provenex_core.Rules.{Runtime}
use provenex_core.Streaming.{Published, ReceiptSink, raised, returned, and_then}
use provenex_core.Ocsf.{
  Host, OcsfOptions, EventKind, OcsfEvent, event_dict, read, fields_of, iterate, joined, truth,
  same, or_dict, or_list, format, section_of, policy_section, base_event, add_label, label_if,
  add_step_kind, add_rules, attach_decision, attach_policy, denies, is_source_blocked,
}

abbrev pub allowed_kind : EventKind
allowed_kind = record {
  class_uid = 6005;
  class_name = codes "Application Activity";
  category_uid = 6;
  category_name = codes "Application Activity";
  activity_id = 1;
  activity_name = codes "Access";
  severity_id = 1;
  severity = codes "Informational";
  event_code = codes "provenex.verification.allow";
}

abbrev pub api_kind : EventKind
api_kind = record {
  class_uid = 6003;
  class_name = codes "API Activity";
  category_uid = 6;
  category_name = codes "Application Activity";
  activity_id = 1;
  activity_name = codes "Create";
  severity_id = 1;
  severity = codes "Informational";
  event_code = codes "provenex.admission.allow";
}

abbrev pub finding_kind : ℕ → String → String → EventKind
finding_kind severity_id severity event_code = record {
  class_uid = 2004;
  class_name = codes "Detection Finding";
  category_uid = 2;
  category_name = codes "Findings";
  activity_id = 1;
  activity_name = codes "Create";
  severity_id = severity_id;
  severity = codes severity;
  event_code = codes event_code;
}

-- What a finding says of a blocked source: the severity, its name, the types, the rules, the title.
pub record Blame : Type 0 where
  pub severity_id : ℕ
  pub severity : String
  pub types : Value
  pub rule_names : List Value
  pub title : Text

module _ (h : Host) where
  -- `x or y` of values
  abbrev or_value : Value → Value → Value
  or_value v w = if truth h v then v else w

  abbrev entry_when : String → Value → List (Key × Value)
  entry_when k v = if truth h v then entry_of k v ∷ [] else []

  -- `_resource_from_source`
  unfoldable pub resource_from_source : Fields → Value
  resource_from_source source = dict (
      to_fields (
        entry_of "uid"
          (or_value (read "document_id" source) (or_value (read "fingerprint" source) (text [])))
        ∷ entry_of "type" (text (codes "document_chunk"))
        ∷ entry_of "data" (
            dict (
              to_fields (
                entry_of "fingerprint" (read "fingerprint" source) ∷ []
                ++ entry_when "document_version" (read "document_version" source)
                ++ entry_when "content_source" (read "content_source" source))))
        ∷ []))

  abbrev target_labels : Value → List (Key × Value)
  target_labels target =
      if truth h target
      then entry_of "labels" (seq (cons (text (codes "target_system:" ++ format h target)) nil))
        ∷ []
      else []

  -- `_service_from_action`
  unfoldable pub service_from_action : Fields → Value
  service_from_action action = dict (
      to_fields (
        entry_of "name" (or_value (read "name" action) (text [])) ∷ []
        ++ target_labels (read "target_system" action)))

  abbrev api_block : Fields → Value
  api_block action = dict (
      to_fields (
        entry_of "operation" (read "operation" action)
        ∷ entry_of "service" (service_from_action action)
        ∷ entry_of "request"
            (dict (to_fields (entry_of "uid" (read "parameters_hash" action) ∷ [])))
        ∷ []))

  abbrev detailed : OcsfEvent → List (Key × Value) → Fields → OcsfEvent
  detailed event more metadata = record event {
    metadata = metadata;
    detail = to_fields (entries event.detail ++ more);
  }

  -- `receipt_to_application_activity`
  unfoldable pub receipt_to_application_activity :
      OcsfOptions → Fields → Fields → Option Fields → Result OcsfEvent
  receipt_to_application_activity o receipt source decision = do
    event ← base_event h allowed_kind o receipt
    stepped ← add_step_kind h receipt event.metadata
    outcome ← label_if h "verification_outcome" (read "verification_outcome" source) stepped
    decided ← attach_decision h decision outcome
    metadata ← attach_policy h "access_control" receipt decided
    ok (
        detailed event (entry_of "resources" (seq (cons (resource_from_source source) nil)) ∷ [])
          metadata)

  abbrev pub title_rules : String → List Value → Result Text
  title_rules title [] = ok (codes title)
  title_rules title (v ∷ vs) = do
    line ← joined ", " (v ∷ vs)
    ok (codes title ++ codes "; rules: " ++ line)

  abbrev pub rules_of : Fields → Result (List Value)
  rules_of decision = iterate (or_list h (read "rules_fired" decision))

  -- `outcome in {"TAMPERED", "UNAUTHORIZED", "UNVERIFIED", "STALE"}`; a list or a dictionary has no
  -- hash.
  abbrev pub blocked_by_verification : Value → Result Bool
  blocked_by_verification (seq vs) = err type_error
  blocked_by_verification (dict fs) = err type_error
  blocked_by_verification v = ok (
      same h v (text (codes "TAMPERED"))
      || same h v (text (codes "UNAUTHORIZED"))
      || same h v (text (codes "UNVERIFIED"))
      || same h v (text (codes "STALE")))

  abbrev unspecified : Value → Blame
  unspecified outcome = record {
    severity_id = 3;
    severity = "Medium";
    types = or_value outcome (text (codes "UNKNOWN"));
    rule_names = [];
    title = codes "Source blocked (unspecified)";
  }

  abbrev denied_by_rules : Fields → Result Blame
  denied_by_rules d = do
    rules ← rules_of d
    title ← title_rules "Access control denied chunk" rules
    ok (record {
      severity_id = 4;
      severity = "High";
      types = text (codes "ACCESS_CONTROL_DENY");
      rule_names = rules;
      title = title;
    })

  abbrev pub blame_policy : Option Fields → Value → Result Blame
  blame_policy none outcome = ok (unspecified outcome)
  blame_policy (some d) outcome =
      if denies h (some d) then denied_by_rules d else ok (unspecified outcome)

  unfoldable pub blame : Value → Option Fields → Result Blame
  blame outcome decision = do
    by_verification ← blocked_by_verification outcome
    if by_verification
        then ok (record {
          severity_id = 5;
          severity = "Critical";
          types = outcome;
          rule_names = [];
          title = codes "Verification block: " ++ format h outcome;
        })
        else blame_policy decision outcome

  abbrev related_entry : Value → String → List Value
  related_entry uid kind =
      if truth h uid
      then dict (to_fields (entry_of "uid" uid ∷ entry_of "type" (text (codes kind)) ∷ [])) ∷ []
      else []

  abbrev inputs_of : Option Fields → List Value
  inputs_of none = []
  inputs_of (some d) = related_entry (read "inputs_hash" d) "policy_inputs_hash"

  abbrev related_events : List Value → List (Key × Value)
  related_events [] = []
  related_events (v ∷ vs) = entry_of "related_events" (seq (items (v ∷ vs))) ∷ []

  abbrev finding_info : Fields → Text → Value → List Value → Key × Value
  finding_info receipt title types related = entry_of "finding_info" (
      dict (
        to_fields (
          entry_of "uid" (read "receipt_id" receipt)
            ∷ entry_of "title" (text title)
            ∷ entry_of "types" (seq (cons types nil))
            ∷ []
          ++ related_events related)))

  -- `receipt_to_detection_finding_for_blocked_source`
  unfoldable pub finding_for_blocked_source :
      OcsfOptions → Fields → Fields → Option Fields → Result OcsfEvent
  unfolding blame
  finding_for_blocked_source o receipt source decision = do
    why ← blame (read "verification_outcome" source) decision
    event ←
        base_event h (finding_kind why.severity_id why.severity "provenex.verification.block") o
          receipt
    stepped ← add_step_kind h receipt event.metadata
    outcome ← label_if h "verification_outcome" (read "verification_outcome" source) stepped
    ruled ← add_rules h (seq (items why.rule_names)) outcome
    metadata ← attach_policy h "access_control" receipt ruled
    ok (
        detailed event
          (finding_info receipt why.title why.types (inputs_of decision)
            ∷ entry_of "resources" (seq (cons (resource_from_source source) nil))
            ∷ [])
          metadata)

  abbrev pub label_rules : Option Fields → Fields → Result Fields
  label_rules none metadata = ok metadata
  label_rules (some d) metadata = add_rules h (read "rules_fired" d) metadata

  -- `receipt_to_api_activity`
  unfoldable pub receipt_to_api_activity :
      OcsfOptions → Fields → Fields → Option Fields → Result OcsfEvent
  receipt_to_api_activity o receipt action decision = do
    event ← base_event h api_kind o receipt
    stepped ← add_step_kind h receipt event.metadata
    ruled ← label_rules decision stepped
    decided ← attach_decision h decision ruled
    metadata ← attach_policy h "tool_call_control" receipt decided
    ok (detailed event (entry_of "api" (api_block action) ∷ []) metadata)

  -- `receipt_to_detection_finding_for_denied_action`
  unfoldable pub finding_for_denied_action :
      OcsfOptions → Fields → Fields → Fields → Result OcsfEvent
  finding_for_denied_action o receipt action decision = do
    rules ← rules_of decision
    title ← title_rules "Tool-call admission denied" rules
    event ← base_event h (finding_kind 4 "High" "provenex.admission.deny") o receipt
    stepped ← add_step_kind h receipt event.metadata
    ruled ← add_rules h (seq (items rules)) stepped
    metadata ← attach_policy h "tool_call_control" receipt ruled
    let related =
        inputs_of (some decision)
        ++ related_entry (read "parameters_hash" action) "action_parameters_hash"
    ok (
        detailed event
          (finding_info receipt title (text (codes "ADMISSION_DENY")) related
            ∷ entry_of "api" (api_block action)
            ∷ [])
          metadata)

  -- The decisions under their keys; a later one replaces an earlier one of the same key.
  abbrev pub Decisions : Type 0
  Decisions = List (Value × Fields)

  abbrev pub hashable : Value → Result (Unit {0})
  hashable (seq vs) = err type_error
  hashable (dict fs) = err type_error
  hashable v = ok tt

  unfoldable pub lookup : Value → Decisions → Option Fields
  lookup k [] = none
  lookup k ((k', d) ∷ ds) = let earlier = lookup k ds in if same h k' k then some d else earlier

  -- `"action_index" in d`
  abbrev pub holds_key : Text → Value → Result Bool
  holds_key k (dict fs) = ok (elim (get k fs) [ none ↦ false | some v ↦ true ])
  holds_key k (seq vs) = ok (contains (Runtime.other_eq h.runtime) vs (text k))
  holds_key k v = Runtime.in_container h.runtime (text k) v

  -- `d.get("chunk_fingerprint")`, as a condition
  abbrev pub has_value : Text → Value → Result Bool
  has_value k v = do fs ← fields_of v; ok (truth h (or_null (get k fs)))

  -- The comprehension over the decisions; `seen` holds those so far, the last first.
  unfoldable pub decisions_by :
      (Text → Value → Result Bool) → String → List Value → Decisions → Result Decisions
  decisions_by keeps k [] seen = ok seen
  decisions_by keeps k (v ∷ vs) seen = do
    kept ← keeps (codes k) v
    if kept
        then (do
          fs ← fields_of v
          _ ← hashable (read k fs)
          decisions_by keeps k vs ((read k fs, fs) ∷ seen))
        else decisions_by keeps k vs seen

  abbrev pub decision_for : String → Fields → Decisions → Result (Option Fields)
  decision_for k record_fields table = do
    _ ← hashable (read k record_fields)
    ok (lookup (read k record_fields) table)

  -- One round of the loop over the sources.
  unfoldable pub source_event : OcsfOptions → Fields → Decisions → Value → Result OcsfEvent
  source_event o receipt table v = do
    source ← fields_of v
    decision ← decision_for "fingerprint" source table
    blocked ← is_source_blocked h receipt source decision
    if blocked
        then finding_for_blocked_source o receipt source decision
        else receipt_to_application_activity o receipt source decision

  abbrev pub act : OcsfOptions → Fields → Fields → Option Fields → Result OcsfEvent
  act o receipt action none = receipt_to_api_activity o receipt action none
  act o receipt action (some d) =
      if denies h (some d)
      then finding_for_denied_action o receipt action d
      else receipt_to_api_activity o receipt action (some d)

  -- One round of the loop over the actions.
  unfoldable pub action_event : OcsfOptions → Fields → Decisions → Value → Result OcsfEvent
  action_event o receipt table v = do
    action ← fields_of v
    decision ← decision_for "action_index" action table
    act o receipt action decision

  unfoldable pub each : (Value → Result OcsfEvent) → List Value → Result (List OcsfEvent)
  each f [] = ok []
  each f (v ∷ vs) = do e ← f v; es ← each f vs; ok (e ∷ es)

  -- The decisions that a policy domain recorded.
  unfoldable pub decisions_in : String → Fields → Result (List Value)
  decisions_in domain receipt = do
    section ← policy_section h domain receipt
    fs ← fields_of (or_dict h section)
    iterate (or_list h (read "decisions" fs))

  -- The same under their keys.
  unfoldable pub decision_table :
      (Text → Value → Result Bool) → String → String → Fields → Result Decisions
  unfolding decisions_in decisions_by
  decision_table keeps domain k receipt = do
    ds ← decisions_in domain receipt
    decisions_by keeps k ds []

  abbrev pub records : String → Fields → Result (List Value)
  records k receipt = iterate (or_list h (read k receipt))

  unfoldable pub receipt_to_ocsf : OcsfOptions → Fields → Result (List OcsfEvent)
  unfolding decision_table source_event action_event each
  receipt_to_ocsf o receipt = do
    by_fingerprint ← decision_table has_value "access_control" "chunk_fingerprint" receipt
    sources ← records "sources" receipt
    from_sources ← each (source_event o receipt by_fingerprint) sources
    by_index ← decision_table holds_key "tool_call_control" "action_index" receipt
    actions ← records "actions" receipt
    from_actions ← each (action_event o receipt by_index) actions
    ok (from_sources ++ from_actions)

-- `OCSFAdapter` over a downstream sink. A carrier is an event with its receipt's id.
pub record OcsfCarrier : Type 0 where
  pub event : Fields
  pub receipt_id : Text

pub record OcsfAdapter {ℓ} (Sink : Type ℓ) : Type ℓ where
  pub downstream : Sink
  pub options : OcsfOptions
  pub closed : Bool

module _ {ℓ} {Sink : Type ℓ} (api : ReceiptSink OcsfCarrier Sink) where
  -- The loop of `publish`; an exception of the downstream ends it.
  unfoldable pub forward : Sink → List OcsfEvent → Text → Published Sink
  forward sink [] parent_id = returned sink
  forward sink (e ∷ es) parent_id =
      and_then (api.publish sink (record { event = event_dict e; receipt_id = parent_id }))
        (λ sink'. forward sink' es parent_id)

  unfoldable pub adapter_publish :
      Host → OcsfAdapter Sink → Fields → Text → Published (OcsfAdapter Sink)
  unfolding forward
  adapter_publish h a receipt parent_id =
      if a.closed then raised sink_closed_error a else elim (receipt_to_ocsf h a.options receipt) [
        | err e ↦ raised e a
        | ok events ↦
            let p = forward a.downstream events parent_id in
            record { result = p.result; state = record a { downstream = p.state } }
      ]

  -- An exception of the downstream's `close` is dropped.
  unfoldable pub adapter_close : OcsfAdapter Sink → OcsfAdapter Sink
  adapter_close a =
      if a.closed
      then a
      else record a { closed = true; downstream = (api.close a.downstream).state }
