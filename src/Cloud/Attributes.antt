-- ===== src/Cloud/Attributes.antt =====
-- The attributes that PubSubSink of provenex/export/gcp.py reads of the events of the OCSF export.
use provenex_core.Prelude.{
  ◌≡◌, refl, sym, ap, ◌∙◌, subst, Bool, false, Option, none, some, List, [], ◌∷◌, ◌++◌, Result, ok,
  err, if◌then◌else◌, Yields, Yields-bind, Yields-ok, Yields-at, Yields-if, Bool-cases, inl, inr,
  key_error, All, All-append,
}
use provenex_core.Text.{Text, codes}
use provenex_core.Value.{
  Value, Fields, end, field, Key, name, get, same_key, to_fields, entries, seq, items,
}
use provenex_core.Ocsf.{
  Host, OcsfOptions, EventKind, OcsfEvent, event_dict, base_event, build_metadata,
  actor_from_receipt, time_entries, iso8601_to_epoch_ms, read, truth, add_step_kind, label_if,
  attach_decision, attach_policy, add_rules, fields_of, denies, is_source_blocked,
}
use provenex_core.Ocsf.Events.{
  allowed_kind, api_kind, finding_kind, blame, receipt_to_application_activity,
  finding_for_blocked_source, receipt_to_api_activity, finding_for_denied_action, label_rules,
  rules_of, title_rules, Decisions, decision_for, act, source_event, action_event, each,
  receipt_to_ocsf, decision_table, has_value, holds_key, records,
}
use provenex_core.Cloud.{pubsub_attributes, PubSubClient, PubSubSink, CloudReceipt, pubsub_publish}
use provenex_core.Streaming.{raised}

HasNoId : Fields → Type 0
HasNoId fs = get (codes "receipt_id") fs ≡ none

AreNoId : List (Key × Value) → Type 0
AreNoId es = HasNoId (to_fields es)

to_fields-entries : (fs : Fields) → to_fields (entries fs) ≡ fs
unfolding to_fields entries
to_fields-entries end = refl
to_fields-entries (field k v fs) = ap (field k v) (to_fields-entries fs)

append-AreNoId : (xs ys : List (Key × Value)) → AreNoId xs → AreNoId ys → AreNoId (xs ++ ys)
unfolding AreNoId HasNoId get to_fields
append-AreNoId [] ys p q = q
append-AreNoId ((k, v) ∷ xs) ys p q = elim (Bool-cases (same_key k (name (codes "receipt_id")))) [
  | inl t ↦ absurd (cc (rw t at p))
  | inr f ↦ rw f (append-AreNoId xs ys (rw f at p) q)
]

more-HasNoId :
    (fs : Fields) (more : List (Key × Value))
    → HasNoId fs
    → AreNoId more
    → HasNoId (to_fields (entries fs ++ more))
unfolding AreNoId
more-HasNoId fs more p q =
    append-AreNoId (entries fs) more (subst HasNoId (sym (to_fields-entries fs)) p) q

else_branch {ℓ} : {A : Type ℓ} (b : Bool) (x y : A) → b ≡ false → (if b then x else y) ≡ y
else_branch b x y e = rw e refl

module _ (h : Host) (o : OcsfOptions) (receipt : Fields) where
  NoId : OcsfEvent → Type 0
  NoId e = HasNoId e.detail

  time_entries-AreNoId : (v : Value) → Yields AreNoId (time_entries h v)
  unfolding time_entries AreNoId HasNoId get to_fields same_key
  time_entries-AreNoId v =
      Yields-if (truth h v) (λ _. Yields-bind (iso8601_to_epoch_ms h v) (λ z _. Yields-ok refl))
        (λ _. Yields-ok refl)

  base_event-NoId : (k : EventKind) → Yields NoId (base_event h k o receipt)
  unfolding base_event NoId AreNoId HasNoId get to_fields same_key
  base_event-NoId k = Yields-bind (build_metadata h o k.event_code receipt) (λ m _.
      Yields-bind (actor_from_receipt h receipt) (λ a _.
        Yields-bind (time_entries h (read "issued_at" receipt)) (λ t p. Yields-ok (
          append-AreNoId t _ (Yields-at (time_entries-AreNoId (read "issued_at" receipt)) p)
            refl))))

  module _ (source : Fields) (d : Option Fields) where
    application-NoId : Yields NoId (receipt_to_application_activity h o receipt source d)
    unfolding receipt_to_application_activity NoId AreNoId HasNoId get to_fields same_key
    application-NoId = Yields-bind (base_event h allowed_kind o receipt) (λ b p.
        Yields-bind (add_step_kind h receipt b.metadata) (λ m1 _.
          Yields-bind (label_if h "verification_outcome" (read "verification_outcome" source) m1)
            (λ m2 _. Yields-bind (attach_decision h d m2) (λ m3 _.
              Yields-bind (attach_policy h "access_control" receipt m3) (λ m4 _.
                Yields-ok
                  (more-HasNoId b.detail _ (Yields-at (base_event-NoId allowed_kind) p) refl))))))

    finding-NoId : Yields NoId (finding_for_blocked_source h o receipt source d)
    unfolding finding_for_blocked_source NoId AreNoId HasNoId get to_fields same_key
    finding-NoId = Yields-bind (blame h (read "verification_outcome" source) d) (λ why w.
        let k = finding_kind why.severity_id why.severity "provenex.verification.block" in
        Yields-bind (base_event h k o receipt) (λ b p.
          Yields-bind (add_step_kind h receipt b.metadata) (λ m1 _.
            Yields-bind (label_if h "verification_outcome" (read "verification_outcome" source) m1)
              (λ m2 _. Yields-bind (add_rules h (seq (items why.rule_names)) m2) (λ m3 _.
                Yields-bind (attach_policy h "access_control" receipt m3) (λ m4 _.
                  Yields-ok (more-HasNoId b.detail _ (Yields-at (base_event-NoId k) p) refl)))))))

    api-NoId : Yields NoId (receipt_to_api_activity h o receipt source d)
    unfolding receipt_to_api_activity NoId AreNoId HasNoId get to_fields same_key
    api-NoId = Yields-bind (base_event h api_kind o receipt) (λ b p.
        Yields-bind (add_step_kind h receipt b.metadata) (λ m1 _.
          Yields-bind (label_rules h d m1) (λ m2 _. Yields-bind (attach_decision h d m2) (λ m3 _.
            Yields-bind (attach_policy h "tool_call_control" receipt m3) (λ m4 _.
              Yields-ok (more-HasNoId b.detail _ (Yields-at (base_event-NoId api_kind) p) refl))))))

  denied-NoId : (action d : Fields) → Yields NoId (finding_for_denied_action h o receipt action d)
  unfolding finding_for_denied_action NoId AreNoId HasNoId get to_fields same_key
  denied-NoId action d =
      let k = finding_kind 4 "High" "provenex.admission.deny" in
      Yields-bind (rules_of h d) (λ rules _.
        Yields-bind (title_rules h "Tool-call admission denied" rules) (λ title _.
          Yields-bind (base_event h k o receipt) (λ b p.
            Yields-bind (add_step_kind h receipt b.metadata) (λ m1 _.
              Yields-bind (add_rules h (seq (items rules)) m1) (λ m2 _.
                Yields-bind (attach_policy h "tool_call_control" receipt m2) (λ m3 _.
                  Yields-ok (more-HasNoId b.detail _ (Yields-at (base_event-NoId k) p) refl)))))))

  source_event-NoId :
      (table : Decisions h) (v : Value) → Yields NoId (source_event h o receipt table v)
  unfolding source_event
  source_event-NoId table v = Yields-bind (fields_of v) (λ source _.
      Yields-bind (decision_for h "fingerprint" source table) (λ d _.
        Yields-bind (is_source_blocked h receipt source d)
          (λ b _. Yields-if b (λ _. finding-NoId source d) (λ _. application-NoId source d))))

  act-NoId : (action : Fields) (d : Option Fields) → Yields NoId (act h o receipt action d)
  act-NoId action none = api-NoId action none
  act-NoId action (some d) =
      Yields-if (denies h (some d)) (λ _. denied-NoId action d) (λ _. api-NoId action (some d))

  action_event-NoId :
      (table : Decisions h) (v : Value) → Yields NoId (action_event h o receipt table v)
  unfolding action_event
  action_event-NoId table v = Yields-bind (fields_of v) (λ action _.
      Yields-bind (decision_for h "action_index" action table) (λ d _. act-NoId action d))

  -- Whatever the client, an open PubSubSink raises KeyError on the event and calls no client.
  Refused : OcsfEvent → Type 0
  Refused e = pubsub_attributes h (event_dict e) ≡ err key_error

  NoId-Refused : (e : OcsfEvent) → NoId e → Refused e
  unfolding Refused NoId HasNoId pubsub_attributes get to_fields same_key
  NoId-Refused e p = rw (to_fields-entries e.detail) (rw p refl)

  each-Refused :
      (f : Value → Result OcsfEvent)
      → ((v : Value) → Yields NoId (f v))
      → (vs : List Value) → Yields (All Refused) (each h f vs)
  unfolding each
  each-Refused f k [] = Yields-ok tt
  each-Refused f k (v ∷ vs) = Yields-bind (f v) (λ e p.
      Yields-bind (each h f vs)
        (λ es q. Yields-ok (NoId-Refused e (Yields-at (k v) p), Yields-at (each-Refused f k vs) q)))

  receipt_to_ocsf-Refused : Yields (All Refused) (receipt_to_ocsf h o receipt)
  unfolding receipt_to_ocsf
  receipt_to_ocsf-Refused =
      Yields-bind (decision_table h (has_value h) "access_control" "chunk_fingerprint" receipt)
        (λ t1 _. Yields-bind (records h "sources" receipt) (λ ss _.
          Yields-bind (each h (source_event h o receipt t1) ss) (λ e1 p.
            Yields-bind (decision_table h (holds_key h) "tool_call_control" "action_index" receipt)
              (λ t2 _. Yields-bind (records h "actions" receipt) (λ acts _.
                Yields-bind (each h (action_event h o receipt t2) acts) (λ e2 q. Yields-ok (
                  All-append Refused e1 e2 (Yields-at (each-Refused _ (source_event-NoId t1) ss) p)
                    (Yields-at (each-Refused _ (action_event-NoId t2) acts) q))))))))

  module _ {ℓ} {Client : Type ℓ} (api : PubSubClient Client) (s : PubSubSink Client) where
    abbrev pub carrier_of : Text → Text → OcsfEvent → CloudReceipt
    carrier_of id json e = record { receipt_id = id; json = json; fields = event_dict e }

    Refused-raised :
        (id json : Text) (e : OcsfEvent)
        → s.closed ≡ false
        → Refused e
        → pubsub_publish api h s (carrier_of id json e) ≡ raised key_error s
    unfolding pubsub_publish Refused
    Refused-raised id json e f p = else_branch s.closed _ _ f ∙ (rw p refl)

    -- An open PubSubSink under the export to OCSF publishes no event of any receipt: on each of them
    -- it raises KeyError, since an event has no receipt_id, and calls no client.
    pub pubsub_publish-events :
        (id json : Text) (es : List OcsfEvent)
        → s.closed ≡ false
        → receipt_to_ocsf h o receipt ≡ ok es
        → All (λ e. pubsub_publish api h s (carrier_of id json e) ≡ raised key_error s) es
    pubsub_publish-events id json es f p = published es (Yields-at receipt_to_ocsf-Refused p)
      where
        published :
            (es : List OcsfEvent)
            → All Refused es
            → All (λ e. pubsub_publish api h s (carrier_of id json e) ≡ raised key_error s) es
        published [] r = tt
        published (e ∷ es) r = (Refused-raised id json e f r.0, published es r.1)
