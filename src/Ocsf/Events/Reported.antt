-- ===== src/Ocsf/Events/Reported.antt =====
-- What receipt_to_ocsf of provenex/export/ocsf.py reports: an event for each source and each action.
use provenex_core.Prelude.{
  ℕ, String, ◌≡◌, refl, sym, subst, Bool, true, false, Option, none, some, List, [], ◌∷◌, ◌++◌,
  Result, ok, >>=-eq-ok, if◌then◌else◌, Yields, Yields-bind, Yields-ok, Yields-at, Yields-if,
}
use provenex_core.Value.{Value, Fields, seq, items}
use provenex_core.Ocsf.{
  Host, OcsfOptions, EventKind, OcsfEvent, fields_of, base_event, denies, is_source_blocked, read,
  build_metadata, actor_from_receipt, time_entries, add_step_kind, label_if, attach_decision,
  attach_policy, add_rules,
}
use provenex_core.Ocsf.Events.{
  allowed_kind, api_kind, finding_kind, blame, Decisions, decision_for, source_event, action_event,
  each, decision_table, decisions_in, decisions_by, has_value, holds_key, records, receipt_to_ocsf,
  receipt_to_application_activity, finding_for_blocked_source, receipt_to_api_activity,
  finding_for_denied_action, rules_of, label_rules, title_rules, act,
}
use provenex_core.Ocsf.Events.Latest.{Latest, decision_for-Latest}
use provenex_core.Ocsf.Events.Severity.{Severity, blame-Severity}

module _ (h : Host) (o : OcsfOptions) (receipt : Fields) where
  -- The kind of the event of a source, blocked or not.
  pub data SourceKind : Value → Option Fields → Bool → EventKind → Type 0 where
    allowed : {outcome : Value} {d : Option Fields} → SourceKind outcome d false allowed_kind
    blocked :
        {outcome : Value} {d : Option Fields} {level : ℕ} {word : String}
        → Severity h outcome d level word
        → SourceKind outcome d true (finding_kind level word "provenex.verification.block")

  pub data ActionKind : Option Fields → EventKind → Type 0 where
    permitted : {d : Option Fields} → denies h d ≡ false → ActionKind d api_kind
    denied :
        {d : Option Fields}
        → denies h d ≡ true
        → ActionKind d (finding_kind 4 "High" "provenex.admission.deny")

  pub record SourceReported (ds : List Value) (v : Value) (e : OcsfEvent) : Type 0 where
    pub source : Fields
    pub decision : Option Fields
    pub is_blocked : Bool
    pub is_source : fields_of v ≡ ok source
    pub decided : Latest h (has_value h) "chunk_fingerprint" (read "fingerprint" source) ds decision
    pub judged : is_source_blocked h receipt source decision ≡ ok is_blocked
    pub source_kind : SourceKind (read "verification_outcome" source) decision is_blocked e.kind

  pub record ActionReported (ds : List Value) (v : Value) (e : OcsfEvent) : Type 0 where
    pub action : Fields
    pub decision : Option Fields
    pub is_action : fields_of v ≡ ok action
    pub decided : Latest h (holds_key h) "action_index" (read "action_index" action) ds decision
    pub action_kind : ActionKind decision e.kind

  -- The events stand for the records one by one, in order.
  pub data Pairwise (R : Value → OcsfEvent → Type 0) : List Value → List OcsfEvent → Type 0 where
    done : Pairwise R [] []
    paired :
        {v : Value} {e : OcsfEvent} {vs : List Value} {es : List OcsfEvent}
        → R v e
        → Pairwise R vs es
        → Pairwise R (v ∷ vs) (e ∷ es)

  pub record Reported (es : List OcsfEvent) : Type 0 where
    pub on_chunks : List Value
    pub on_actions : List Value
    pub sources : List Value
    pub actions : List Value
    pub from_sources : List OcsfEvent
    pub from_actions : List OcsfEvent
    pub chunk_decisions : decisions_in h "access_control" receipt ≡ ok on_chunks
    pub action_decisions : decisions_in h "tool_call_control" receipt ≡ ok on_actions
    pub has_sources : records h "sources" receipt ≡ ok sources
    pub has_actions : records h "actions" receipt ≡ ok actions
    pub for_sources : Pairwise (SourceReported on_chunks) sources from_sources
    pub for_actions : Pairwise (ActionReported on_actions) actions from_actions
    pub in_order : from_sources ++ from_actions ≡ es

  HasKind : EventKind → OcsfEvent → Type 0
  HasKind k e = e.kind ≡ k

  base_event-HasKind : (k : EventKind) → Yields (HasKind k) (base_event h k o receipt)
  unfolding base_event HasKind
  base_event-HasKind k = Yields-bind (build_metadata h o k.event_code receipt) (λ m _.
      Yields-bind (actor_from_receipt h receipt)
        (λ a _. Yields-bind (time_entries h (read "issued_at" receipt)) (λ t _. Yields-ok refl)))

  module _ (source : Fields) (d : Option Fields) where
    application-HasKind :
        Yields (HasKind allowed_kind) (receipt_to_application_activity h o receipt source d)
    unfolding receipt_to_application_activity HasKind
    application-HasKind = Yields-bind (base_event h allowed_kind o receipt) (λ b p.
        Yields-bind (add_step_kind h receipt b.metadata) (λ m1 _.
          Yields-bind (label_if h "verification_outcome" (read "verification_outcome" source) m1)
            (λ m2 _. Yields-bind (attach_decision h d m2) (λ m3 _.
              Yields-bind (attach_policy h "access_control" receipt m3)
                (λ m4 _. Yields-ok (Yields-at (base_event-HasKind allowed_kind) p))))))

    finding-SourceKind :
        Yields
          (λ e. SourceKind (read "verification_outcome" source) d true e.kind)
          (finding_for_blocked_source h o receipt source d)
    unfolding finding_for_blocked_source HasKind
    finding-SourceKind = Yields-bind (blame h (read "verification_outcome" source) d) (λ why w.
        let k = finding_kind why.severity_id why.severity "provenex.verification.block" in
        Yields-bind (base_event h k o receipt) (λ b p.
          Yields-bind (add_step_kind h receipt b.metadata) (λ m1 _.
            Yields-bind (label_if h "verification_outcome" (read "verification_outcome" source) m1)
              (λ m2 _. Yields-bind (add_rules h (seq (items why.rule_names)) m2) (λ m3 _.
                Yields-bind (attach_policy h "access_control" receipt m3) (λ m4 _. Yields-ok (
                  subst (SourceKind (read "verification_outcome" source) d true)
                    (sym (Yields-at (base_event-HasKind k) p))
                    (blocked (
                      Yields-at (blame-Severity h (read "verification_outcome" source) d) w)))))))))

    api-HasKind : Yields (HasKind api_kind) (receipt_to_api_activity h o receipt source d)
    unfolding receipt_to_api_activity HasKind
    api-HasKind = Yields-bind (base_event h api_kind o receipt) (λ b p.
        Yields-bind (add_step_kind h receipt b.metadata) (λ m1 _.
          Yields-bind (label_rules h d m1) (λ m2 _. Yields-bind (attach_decision h d m2) (λ m3 _.
            Yields-bind (attach_policy h "tool_call_control" receipt m3)
              (λ m4 _. Yields-ok (Yields-at (base_event-HasKind api_kind) p))))))

  denied-HasKind :
      (action d : Fields)
      → Yields
          (HasKind (finding_kind 4 "High" "provenex.admission.deny"))
          (finding_for_denied_action h o receipt action d)
  unfolding finding_for_denied_action HasKind
  denied-HasKind action d =
      let k = finding_kind 4 "High" "provenex.admission.deny" in
      Yields-bind (rules_of h d) (λ rules _.
        Yields-bind (title_rules h "Tool-call admission denied" rules) (λ title _.
          Yields-bind (base_event h k o receipt) (λ b p.
            Yields-bind (add_step_kind h receipt b.metadata) (λ m1 _.
              Yields-bind (add_rules h (seq (items rules)) m1) (λ m2 _.
                Yields-bind (attach_policy h "tool_call_control" receipt m2)
                  (λ m3 _. Yields-ok (Yields-at (base_event-HasKind k) p)))))))

  source_event-Reported :
      (ds : List Value) (table : Decisions h)
      → decisions_by h (has_value h) "chunk_fingerprint" ds [] ≡ ok table
      → (v : Value) → Yields (SourceReported ds v) (source_event h o receipt table v)
  unfolding source_event HasKind
  source_event-Reported ds table made v = Yields-bind (fields_of v) (λ source s.
      Yields-bind (decision_for h "fingerprint" source table)
        (λ d t. Yields-bind (is_source_blocked h receipt source d) (settled source s d t)))
    where
      settled :
          (source : Fields)
          → fields_of v ≡ ok source
          → (d : Option Fields) → decision_for h "fingerprint" source table ≡ ok d
          → (b : Bool) → is_source_blocked h receipt source d ≡ ok b
          → Yields (SourceReported ds v) (
              if b
              then finding_for_blocked_source h o receipt source d
              else receipt_to_application_activity h o receipt source d)
      settled source s d t true j = record {
        yielded = λ e p. record {
          source = source;
          decision = d;
          is_blocked = true;
          is_source = s;
          decided =
              decision_for-Latest h (has_value h) "chunk_fingerprint" "fingerprint" source ds table
                d made t;
          judged = j;
          source_kind = Yields-at (finding-SourceKind source d) p;
        };
      }
      settled source s d t false j = record {
        yielded = λ e p. record {
          source = source;
          decision = d;
          is_blocked = false;
          is_source = s;
          decided =
              decision_for-Latest h (has_value h) "chunk_fingerprint" "fingerprint" source ds table
                d made t;
          judged = j;
          source_kind =
              subst (SourceKind (read "verification_outcome" source) d false)
                (sym (Yields-at (application-HasKind source d) p)) allowed;
        };
      }

  act-ActionKind :
      (action : Fields) (d : Option Fields)
      → Yields (λ e. ActionKind d e.kind) (act h o receipt action d)
  unfolding HasKind
  act-ActionKind action none = record {
    yielded = λ e p.
        subst (ActionKind none) (sym (Yields-at (api-HasKind action none) p)) (permitted refl);
  }
  act-ActionKind action (some d) =
      Yields-if (denies h (some d))
        (λ t. record {
          yielded = λ e p.
              subst (ActionKind (some d)) (sym (Yields-at (denied-HasKind action d) p)) (denied t);
        })
        (λ f. record {
          yielded = λ e p.
              subst (ActionKind (some d)) (sym (Yields-at (api-HasKind action (some d)) p))
                (permitted f);
        })

  action_event-Reported :
      (ds : List Value) (table : Decisions h)
      → decisions_by h (holds_key h) "action_index" ds [] ≡ ok table
      → (v : Value) → Yields (ActionReported ds v) (action_event h o receipt table v)
  unfolding action_event
  action_event-Reported ds table made v = Yields-bind (fields_of v) (λ action s.
      Yields-bind (decision_for h "action_index" action table) (λ d t. record {
        yielded = λ e p. record {
          action = action;
          decision = d;
          is_action = s;
          decided =
              decision_for-Latest h (holds_key h) "action_index" "action_index" action ds table d
                made t;
          action_kind = Yields-at (act-ActionKind action d) p;
        };
      }))

  each-Pairwise :
      {R : Value → OcsfEvent → Type 0} (f : Value → Result OcsfEvent)
      → ((v : Value) → Yields (R v) (f v))
      → (vs : List Value) → Yields (Pairwise R vs) (each h f vs)
  unfolding each
  each-Pairwise f k [] = Yields-ok done
  each-Pairwise f k (v ∷ vs) = Yields-bind (f v) (λ e p.
      Yields-bind (each h f vs)
        (λ es q. Yields-ok (paired (Yields-at (k v) p) (Yields-at (each-Pairwise f k vs) q))))

  -- Where receipt_to_ocsf returns, its events are one for each source and then one for each action,
  -- in their order. A source that its outcome or the last decision on its fingerprint blocks has a
  -- Detection Finding, which is critical if the outcome is one of the four other than VERIFIED, and
  -- else high if the decision denies, and else medium; every other has an Application Activity. An
  -- action that the last decision on its index denies has a Detection Finding of high severity, and
  -- every other an API Activity.
  pub receipt_to_ocsf-Reported :
      (es : List OcsfEvent) → receipt_to_ocsf h o receipt ≡ ok es → Reported es
  unfolding receipt_to_ocsf decision_table
  receipt_to_ocsf-Reported es p = Yields-at yields p
    where
      yields : Yields Reported (receipt_to_ocsf h o receipt)
      yields =
          Yields-bind (decision_table h (has_value h) "access_control" "chunk_fingerprint" receipt)
            (λ t1 a. Yields-bind (records h "sources" receipt) (λ ss b.
              Yields-bind (each h (source_event h o receipt t1) ss) (λ e1 c.
                Yields-bind
                  (decision_table h (holds_key h) "tool_call_control" "action_index" receipt)
                  (λ t2 d. Yields-bind (records h "actions" receipt) (λ acts f.
                    Yields-bind (each h (action_event h o receipt t2) acts) (λ e2 g.
                      let (ds1, in1, made1) =
                        >>=-eq-ok (decisions_in h "access_control" receipt) _ a in
                      let (ds2, in2, made2) =
                        >>=-eq-ok (decisions_in h "tool_call_control" receipt) _ d in
                      Yields-ok (record {
                        on_chunks = ds1;
                        on_actions = ds2;
                        sources = ss;
                        actions = acts;
                        from_sources = e1;
                        from_actions = e2;
                        chunk_decisions = in1;
                        action_decisions = in2;
                        has_sources = b;
                        has_actions = f;
                        for_sources =
                            Yields-at (each-Pairwise _ (source_event-Reported ds1 t1 made1) ss) c;
                        for_actions =
                            Yields-at (each-Pairwise _ (action_event-Reported ds2 t2 made2) acts) g;
                        in_order = refl;
                      })))))))
