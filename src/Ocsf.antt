-- ===== src/Ocsf.antt =====
-- What the events of provenex/export/ocsf.py share: reading a parsed receipt, the metadata, the
-- labels and the skeleton of an event. The extra metadata holds no key `labels`: with one, the
-- source's events share the caller's list.
pub mod Events
use provenex_core.Prelude.{
  ℕ, ℤ, String, zero, suc, ◌+◌, ◌*◌, Bool, true, false, ◌&&◌, ◌||◌, Option, none, some, List, [],
  ◌∷◌, ◌++◌, map, if◌then◌else◌, ◌==◌, nat_eq, list_eq, ltb, leb, Result, ok, err, ◌>>=◌, ◌>>◌,
  type_error, attribute_error,
}
use provenex_core.Text.{Text, codes, split}
use provenex_core.Value.{
  Value, null, bool, int, text, seq, dict, other, Items, nil, cons, Fields, end, field, Key, name,
  other_key, get, put, update, to_fields, entries, elements, items, or_null, number, entry_of,
  truthy, value_eq, contains,
}
use provenex_core.Rules.{Runtime}

-- What the export asks of the interpreter beside `Runtime`: str(v), str.lower() of a character
-- that is not in ASCII, int(timestamp() * 1000), and the clock.
pub record Host : Type 1 where
  pub runtime : Runtime
  pub str : Value → Text
  pub lower_other : ℕ → Text
  pub milliseconds : Runtime.DateTime runtime → ℤ
  pub now : Runtime.DateTime runtime

pub record OcsfOptions : Type 0 where
  pub include_trajectory_correlator : Bool
  pub extra_metadata : Fields

-- The arguments of `_base_event` that name the event's class and code.
pub record EventKind : Type 0 where
  pub class_uid : ℕ
  pub class_name : Text
  pub category_uid : ℕ
  pub category_name : Text
  pub activity_id : ℕ
  pub activity_name : Text
  pub severity_id : ℕ
  pub severity : Text
  pub event_code : Text

-- An event's dictionary: what its kind gives, then the metadata, then the other keys.
pub record OcsfEvent : Type 0 where
  pub kind : EventKind
  pub metadata : Fields
  pub detail : Fields

abbrev pub event_dict : OcsfEvent → Fields
event_dict e = to_fields (
    entry_of "class_uid" (number e.kind.class_uid)
      ∷ entry_of "class_name" (text e.kind.class_name)
      ∷ entry_of "category_uid" (number e.kind.category_uid)
      ∷ entry_of "category_name" (text e.kind.category_name)
      ∷ entry_of "activity_id" (number e.kind.activity_id)
      ∷ entry_of "activity_name" (text e.kind.activity_name)
      ∷ entry_of "type_uid" (number (e.kind.class_uid * 100 + e.kind.activity_id))
      ∷ entry_of "severity_id" (number e.kind.severity_id)
      ∷ entry_of "severity" (text e.kind.severity)
      ∷ entry_of "metadata" (dict e.metadata)
      ∷ []
    ++ entries e.detail)

abbrev pub read : String → Fields → Value
read k fs = or_null (get (codes k) fs)

-- `v.get`
abbrev pub fields_of : Value → Result Fields
fields_of (dict fs) = ok fs
fields_of _ = err attribute_error

abbrev key_value : Key × Value → Value
key_value (name s, v) = text s
key_value (other_key n, v) = other n

-- for x in v
abbrev pub iterate : Value → Result (List Value)
iterate (seq vs) = ok (elements vs)
iterate (dict fs) = ok (map key_value (entries fs))
iterate (text s) = ok (map (λ c. text (c ∷ [])) s)
iterate _ = err type_error

abbrev texts_of : List Value → Result (List Text)
texts_of [] = ok []
texts_of (text s ∷ vs) = do ss ← texts_of vs; ok (s ∷ ss)
texts_of (v ∷ vs) = err type_error

abbrev join_texts : Text → List Text → Text
join_texts sep [] = []
join_texts sep (s ∷ []) = s
join_texts sep (s ∷ parts) = s ++ sep ++ join_texts sep parts

-- sep.join(vs)
abbrev pub joined : String → List Value → Result Text
joined sep vs = do ss ← texts_of vs; ok (join_texts (codes sep) ss)

abbrev pub label_list : List Text → Value
label_list ls = seq (items (map text ls))

module _ (h : Host) where
  abbrev pub truth : Value → Bool
  truth v = truthy (Runtime.other_truth h.runtime) v

  abbrev pub same : Value → Value → Bool
  same v w = value_eq (Runtime.other_eq h.runtime) v w

  -- `v or {}` and `v or []`
  abbrev pub or_dict : Value → Value
  or_dict v = if truth v then v else dict end

  abbrev pub or_list : Value → Value
  or_list v = if truth v then v else seq nil

  abbrev lower_char : ℕ → Text
  lower_char c =
      if leb 65 c && leb c 90 then (c + 32) ∷ [] else if ltb c 128 then c ∷ [] else h.lower_other c

  -- s.lower()
  abbrev pub lower : Text → Text
  lower [] = []
  lower (c ∷ s) = lower_char c ++ lower s

  -- The value in an f-string.
  abbrev pub format : Value → Text
  format (text s) = s
  format v = h.str v

  unfoldable pub section_of : String → Fields → Result Fields
  section_of k receipt = fields_of (or_dict (read k receipt))

  unfoldable pub policy_section : String → Fields → Result Value
  unfolding section_of
  policy_section k receipt = do policy ← section_of "policy" receipt; ok (read k policy)

  unfoldable pub iso8601_to_epoch_ms : Value → Result ℤ
  iso8601_to_epoch_ms (text s) =
      let z = Runtime.fromisoformat h.runtime (with_offset s) in
      ok (h.milliseconds (in_utc (elim z [ none ↦ h.now | some t ↦ t ])))
    where
      -- `value[:-1] + "+00:00"` where the text ends in Z
      with_offset : Text → Text
      with_offset [] = []
      with_offset (c ∷ []) = if c == 90 then codes "+00:00" else c ∷ []
      with_offset (c ∷ d ∷ s) = c ∷ with_offset (d ∷ s)

      in_utc : Runtime.DateTime h.runtime → Runtime.DateTime h.runtime
      in_utc t = if Runtime.has_timezone h.runtime t then t else Runtime.as_utc h.runtime t
  iso8601_to_epoch_ms _ = err attribute_error

  abbrev pub put_if : String → Value → Fields → Fields
  put_if k v fs = if truth v then put (codes k) v fs else fs

  -- issuer.partition("/"): the two parts
  abbrev partition : Text → Text × Text
  partition [] = ([], [])
  partition (c ∷ s) = let rest = partition s in if c == 47 then ([], s) else (c ∷ rest.0, rest.1)

  abbrev feature_of : Value → List (Key × Value)
  feature_of version =
      if truth version
      then entry_of "feature" (
          dict (
            to_fields (
              entry_of "name" (text (codes "provenex-receipt")) ∷ entry_of "version" version ∷ [])))
        ∷ []
      else []

  abbrev or_product : Text → Text
  or_product [] = codes "provenex-core"
  or_product (c ∷ s) = c ∷ s

  abbrev product_of : Text → Value → Fields
  product_of issuer version =
      let parts = partition issuer in
      to_fields (
        entry_of "name" (text (or_product parts.0))
          ∷ entry_of "version" (text parts.1)
          ∷ entry_of "vendor_name" (text (codes "Provenex"))
          ∷ []
        ++ feature_of version)

  -- `receipt.get("issuer") or ""`
  abbrev issuer_of : Value → Result Text
  issuer_of (text s) = ok s
  issuer_of v = if truth v then err attribute_error else ok []

  abbrev correlate : OcsfOptions → Fields → Fields → Fields
  correlate o trajectory fs =
      if o.include_trajectory_correlator
      then put_if "correlation_uid" (read "trajectory_id" trajectory) fs
      else fs

  unfoldable pub build_metadata : OcsfOptions → Text → Fields → Result Fields
  unfolding section_of
  build_metadata o code receipt = do
    issuer ← issuer_of (read "issuer" receipt)
    trajectory ← section_of "trajectory" receipt
    ok (
        update
          (put_if "session_uid" (read "session_id" trajectory) (
            correlate o trajectory (
              to_fields (
                entry_of "uid" (read "receipt_id" receipt)
                ∷ entry_of "event_code" (text code)
                ∷ entry_of "version" (text (codes "1.3.0"))
                ∷ entry_of "product" (dict (product_of issuer (read "schema_version" receipt)))
                ∷ entry_of "labels" (seq nil)
                ∷ []))))
          o.extra_metadata)

  abbrev user_of : Value → List (Key × Value)
  user_of hash =
      if truth hash
      then entry_of "user"
          (dict (to_fields (entry_of "uid" hash ∷ entry_of "type_id" (number 1) ∷ [])))
        ∷ []
      else []

  abbrev process_of : Value → List (Key × Value)
  process_of agent =
      if truth agent
      then entry_of "process" (dict (to_fields (entry_of "name" agent ∷ []))) ∷ []
      else []

  unfoldable pub actor_from_receipt : Fields → Result Value
  unfolding section_of
  actor_from_receipt receipt = do
    trajectory ← section_of "trajectory" receipt
    ok (
        dict (
          to_fields
            (user_of (read "caller_hash" receipt) ++ process_of (read "agent_id" trajectory))))

  unfoldable pub time_entries : Value → Result (List (Key × Value))
  unfolding iso8601_to_epoch_ms
  time_entries issued_at =
      if truth issued_at
      then (do
        time ← iso8601_to_epoch_ms issued_at
        ok (entry_of "time" (int time) ∷ entry_of "time_dt" issued_at ∷ []))
      else ok []

  -- `_base_event`, and the status that each caller sets next.
  unfoldable pub base_event : EventKind → OcsfOptions → Fields → Result OcsfEvent
  unfolding build_metadata actor_from_receipt time_entries
  base_event kind o receipt = do
    metadata ← build_metadata o kind.event_code receipt
    actor ← actor_from_receipt receipt
    time ← time_entries (read "issued_at" receipt)
    ok (record {
      kind = kind;
      metadata = metadata;
      detail = to_fields (
          entry_of "actor" actor ∷ []
          ++ time
          ++ entry_of "status_id" (number 1) ∷ entry_of "status" (text (codes "Success")) ∷ []);
    })

  abbrev appended : Option Value → Value → Result Value
  appended none l = ok (seq (cons l nil))
  appended (some (seq vs)) l = ok (seq (items (elements vs ++ l ∷ [])))
  appended (some _) l = err attribute_error

  -- `metadata.setdefault("labels", []).append(f"{key}:{value}")`
  unfoldable pub add_label : String → Text → Fields → Result Fields
  add_label key value metadata = do
    labels ← appended (get (codes "labels") metadata) (text (codes key ++ 58 ∷ value))
    ok (put (codes "labels") labels metadata)

  unfoldable pub label_if : String → Value → Fields → Result Fields
  unfolding add_label
  label_if key value metadata =
      if truth value then add_label key (format value) metadata else ok metadata

  -- `_add_step_kind_label`
  unfoldable pub add_step_kind : Fields → Fields → Result Fields
  unfolding section_of label_if
  add_step_kind receipt metadata = do
    trajectory ← section_of "trajectory" receipt
    label_if "step_kind" (read "step_kind" trajectory) metadata

  -- `rules_fired`, joined, where there are any.
  unfoldable pub add_rules : Value → Fields → Result Fields
  unfolding add_label
  add_rules rules metadata =
      if truth rules
      then (do
        names ← iterate rules
        line ← joined "," names
        add_label "rules_fired" line metadata)
      else ok metadata

  -- `_attach_access_control_decision_to_metadata`, which the tool-call decisions use too.
  unfoldable pub attach_decision : Option Fields → Fields → Result Fields
  unfolding label_if add_rules
  attach_decision none metadata = ok metadata
  attach_decision (some d) metadata = do
    hashed ← label_if "inputs_hash" (read "inputs_hash" d) metadata
    add_rules (read "rules_fired" d) hashed

  -- `_attach_access_control_policy_to_metadata` and its twin for tool calls.
  unfoldable pub attach_policy : String → Fields → Fields → Result Fields
  unfolding policy_section
  attach_policy section receipt metadata = do
    policy ← policy_section section receipt
    if truth policy then attach policy metadata else ok metadata
    where
      attach : Value → Fields → Result Fields
      attach policy metadata = do
        fs ← fields_of policy
        ok (
            put_if "policy_uid_alt" (read "policy_version_hash" fs)
              (put_if "policy_uid" (read "policy_id" fs) metadata))

  -- `_is_source_blocked`
  abbrev pub denies : Option Fields → Bool
  denies none = false
  denies (some d) = same (read "decision" d) (text (codes "deny"))

  abbrev block_flag : Value → Result Text
  block_flag (text []) = ok []
  block_flag (text (c ∷ s)) = ok (codes "block_" ++ lower (c ∷ s))
  block_flag v = if truth v then err attribute_error else ok []

  unfoldable pub is_source_blocked : Fields → Fields → Option Fields → Result Bool
  unfolding policy_section
  is_source_blocked receipt source decision =
      if same (read "verification_outcome" source) (text (codes "VERIFIED"))
      then ok (denies decision)
      else (do
        policy ← policy_section "verification" receipt
        verification ← fields_of (or_dict policy)
        flag ← block_flag (read "verification_outcome" source)
        ok (truth (or_null (get flag verification)) || denies decision))
