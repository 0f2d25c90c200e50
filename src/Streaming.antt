-- ===== src/Streaming.antt =====
-- The sinks of provenex/export/streaming.py. Warnings are values of the state or of the result.
mod Tests
pub mod Fanout
pub mod Retry
pub mod Files
pub mod Close
use provenex_core.Prelude.{
  ℕ, ◌+◌, Bool, true, false, not, ◌&&◌, Option, none, some, List, [], ◌∷◌, ◌++◌, Result, ok, err,
  Error, sink_closed_error, os_error, value_error, length, drop, take, ltb, leb, if◌then◌else◌,
  ◌==◌, nat_eq, list_eq, ◌||◌, ◌-◌, is_ok, runtime_error,
}
use provenex_core.Text.{Text, codes, has_char}

-- What `publish` leaves: the sink's next state, and whether it returned or raised.
pub record Published {ℓ} (S : Type ℓ) : Type ℓ where
  pub result : Result (Unit {0})
  pub state : S

abbrev pub returned {ℓ} : {S : Type ℓ} → S → Published S
returned s = record { result = ok tt; state = s }

abbrev pub raised {ℓ} : {S : Type ℓ} → Error → S → Published S
raised e s = record { result = err e; state = s }

-- StdoutJSONLSink: what was written to the stream.
pub record StdoutJsonlSink : Type 0 where
  pub stream : List Text
  pub closed : Bool

-- The line and its newline, which two writes and a flush hand over.
abbrev pub ended_line : Text → Text
ended_line line = line ++ 10 ∷ []

-- How the writes and the flush end: with all of the line taken, or with an exception, after the
-- first `n` characters were taken, by the buffer or by the file.
pub data WriteEnd : Type 0 where
  all_taken : WriteEnd
  broken : Error → ℕ → WriteEnd

pub stdout_publish : StdoutJsonlSink → Text → WriteEnd → Published StdoutJsonlSink
stdout_publish s line how = if s.closed then raised sink_closed_error s else elim how [
  | all_taken ↦ returned (record s { stream = s.stream ++ ended_line line ∷ [] })
  | broken e n ↦ raised e (record s { stream = s.stream ++ take n (ended_line line) ∷ [] })
]

pub stdout_close : StdoutJsonlSink → StdoutJsonlSink
stdout_close s = record s { closed = true }

-- FileJSONLSink. A handle is the file's date and whether it is open; `written` holds what
-- the handles took, each piece with the date of its file.
pub record Handle : Type 0 where
  pub date : Text
  pub is_open : Bool

pub record FileJsonlSink : Type 0 where
  pub prefix : Text
  pub current_date : Option Text
  pub handle : Option Handle
  pub closed : Bool
  pub written : List (Text × Text)

-- `__init__`: a prefix with a path separator, and `.` and `..`, are refused.
pub file_create : Text → Result FileJsonlSink
file_create prefix =
    if has_char 47 prefix || has_char 92 prefix || prefix == codes "." || prefix == codes ".."
    then err value_error
    else ok (record {
      prefix = prefix;
      current_date = none;
      handle = none;
      closed = false;
      written = [];
    })

pub is_current : Option Text → Option Handle → Text → Bool
is_current (some date) (some h) today = today == date
is_current (some date) none today = false
is_current none h today = false

pub close_handle : Option Handle → Option Handle
close_handle none = none
close_handle (some h) = some (record h { is_open = false })

-- `_rotate_if_needed`, at the date `today`, where `refused` tells whether the new path is a link or
-- its open fails; both raise OSError and leave the sink the same.
pub rotate_if_needed : FileJsonlSink → Text → Bool → Published FileJsonlSink
unfolding is_current close_handle
rotate_if_needed s today refused =
    if is_current s.current_date s.handle today
    then returned s
    else if refused
    then raised os_error (record s { handle = close_handle s.handle })
    else returned (record s {
      handle = some (record { date = today; is_open = true });
      current_date = some today;
    })

-- The writes and the flush. On a closed file the first write raises ValueError.
pub write_line : FileJsonlSink → Text → WriteEnd → Published FileJsonlSink
write_line s line how = write_to s (ended_line line) how s.handle
  where
    write_to : FileJsonlSink → Text → WriteEnd → Option Handle → Published FileJsonlSink
    write_to s text how none = raised runtime_error s
    write_to s text all_taken (some h) =
        if h.is_open
        then returned (record s { written = s.written ++ (h.date, text) ∷ [] })
        else raised value_error s
    write_to s text (broken e n) (some h) =
        if h.is_open
        then raised e (record s { written = s.written ++ (h.date, take n text) ∷ [] })
        else raised value_error s

unfoldable pub and_then {ℓ} : {S : Type ℓ} → Published S → (S → Published S) → Published S
and_then p k = if is_ok p.result then k p.state else p

pub file_publish : FileJsonlSink → Text → Bool → Text → WriteEnd → Published FileJsonlSink
unfolding rotate_if_needed write_line and_then
file_publish s today refused line how =
    if s.closed
    then raised sink_closed_error s
    else and_then (rotate_if_needed s today refused) (λ s'. write_line s' line how)

pub file_close : FileJsonlSink → FileJsonlSink
file_close s = record s { closed = true; handle = none }

-- A ReceiptSink, with the receipts `Receipt` and the states `Sink`.
pub record ReceiptSink {ℓ} (Receipt : Type 0) (Sink : Type ℓ) : Type ℓ where
  pub publish : Sink → Receipt → Published Sink
  pub close : Sink → Published Sink

pub record MultiSink {ℓ} (Sink : Type ℓ) : Type ℓ where
  pub sinks : List Sink
  pub closed : Bool
  pub warnings : ℕ

pub record RetryQueueSink {ℓ} (Receipt : Type 0) (Sink : Type ℓ) : Type ℓ where
  pub downstream : Sink
  pub queue : List Receipt
  pub maxlen : ℕ
  pub closed : Bool
  pub warned_full : Bool
  pub warnings : ℕ

-- deque(maxlen=…).append: the oldest item goes when the queue is full.
pub append_bounded {ℓ} : {A : Type ℓ} → ℕ → List A → A → List A
append_bounded maxlen queue x = let full = queue ++ x ∷ [] in drop (length full - maxlen) full

module _ {ℓ} {Receipt : Type 0} {Sink : Type ℓ} (api : ReceiptSink Receipt Sink) where
  abbrev pub failed : Published Sink → Bool
  failed p = not (is_ok p.result)

  -- `MultiSink.publish`: the loop over the children.
  pub publish_all : List Sink → Receipt → List Sink × ℕ
  publish_all [] receipt = ([], 0)
  publish_all (sink ∷ sinks) receipt =
      let p = api.publish sink receipt in
      let rest = publish_all sinks receipt in
      (p.state ∷ rest.0, (if failed p then 1 else 0) + rest.1)

  pub multi_publish : MultiSink Sink → Receipt → Published (MultiSink Sink)
  unfolding publish_all
  multi_publish m receipt =
      if m.closed
      then raised sink_closed_error m
      else let (sinks, warned) = publish_all m.sinks receipt in
        returned (record m { sinks = sinks; warnings = m.warnings + warned })

  pub close_all : List Sink → List Sink
  close_all [] = []
  close_all (sink ∷ sinks) = (api.close sink).state ∷ close_all sinks

  pub multi_close : MultiSink Sink → MultiSink Sink
  unfolding close_all
  multi_close m = record m { closed = true; sinks = close_all m.sinks }

  -- RetryQueueSink._enqueue
  pub enqueue : RetryQueueSink Receipt Sink → Receipt → RetryQueueSink Receipt Sink
  unfolding append_bounded
  enqueue q receipt =
      let warn = not q.warned_full && leb q.maxlen (length q.queue) in
      record q {
        queue = append_bounded q.maxlen q.queue receipt;
        warned_full = q.warned_full || warn;
        warnings = if warn then q.warnings + 1 else q.warnings;
      }

  -- `if self._warned_full and len(self._queue) < (self._queue.maxlen or 1)`
  abbrev pub rearmed : Bool → List Receipt → ℕ → Bool
  rearmed warned queue maxlen =
      if warned && ltb (length queue) (if maxlen == 0 then 1 else maxlen) then false else warned

  -- The loop of `publish` over the pending receipts, oldest first: the downstream, the receipts
  -- still pending, and the flag.
  pub record Drained : Type ℓ where
    pub downstream : Sink
    pub pending : List Receipt
    pub warned_full : Bool

  pub drain : Sink → List Receipt → Bool → ℕ → Drained
  drain sink [] warned maxlen = record { downstream = sink; pending = []; warned_full = warned }
  drain sink (pending ∷ queue) warned maxlen =
      let p = api.publish sink pending in
      let rest = drain p.state queue (rearmed warned queue maxlen) maxlen in
      if failed p
      then record { downstream = p.state; pending = pending ∷ queue; warned_full = warned }
      else rest

  pub publish_new : RetryQueueSink Receipt Sink → Receipt → RetryQueueSink Receipt Sink
  unfolding enqueue
  publish_new q receipt =
      let p = api.publish q.downstream receipt in
      let q' = record q { downstream = p.state } in
      let queued = enqueue q' receipt in
      if failed p then record queued { warnings = queued.warnings + 1 } else q'

  abbrev pub drained_queue : RetryQueueSink Receipt Sink → RetryQueueSink Receipt Sink
  drained_queue q =
      let d = drain q.downstream q.queue q.warned_full q.maxlen in
      record q { downstream = d.downstream; queue = d.pending; warned_full = d.warned_full }

  pub is_empty : List Receipt → Bool
  is_empty [] = true
  is_empty (x ∷ xs) = false

  pub retry_publish :
      RetryQueueSink Receipt Sink → Receipt → Published (RetryQueueSink Receipt Sink)
  unfolding publish_new enqueue is_empty drain
  retry_publish q receipt =
      if q.closed
      then raised sink_closed_error q
      else let d = drained_queue q in
        returned (if is_empty d.queue then publish_new d receipt else enqueue d receipt)

  pub pending_count : RetryQueueSink Receipt Sink → ℕ
  pending_count q = length q.queue

  -- The loop of `close`, which leaves the flag alone.
  pub drain_at_close : Sink → List Receipt → Sink × List Receipt
  drain_at_close sink [] = (sink, [])
  drain_at_close sink (pending ∷ queue) =
      let p = api.publish sink pending in
      let rest = drain_at_close p.state queue in
      if failed p then (p.state, pending ∷ queue) else rest

  pub retry_close : RetryQueueSink Receipt Sink → RetryQueueSink Receipt Sink
  unfolding drain_at_close is_empty
  retry_close q =
      let (sink, left) = drain_at_close q.downstream q.queue in
      record q {
        closed = true;
        queue = left;
        warnings = if is_empty left then q.warnings else q.warnings + 1;
        downstream = (api.close sink).state;
      }

  -- The sink that `_safe_publish` is given: None, one, or a list that `_coerce_sink` wraps.
  pub data SinkArgument : Type ℓ where
    no_sink : SinkArgument
    one : Sink → SinkArgument
    several : List Sink → SinkArgument

  -- An exception other than SinkClosedError becomes a warning.
  pub swallow : SinkArgument → Result (Unit {0}) → Result (SinkArgument × ℕ)
  swallow sink (ok x) = ok (sink, 0)
  swallow sink (err sink_closed_error) = err sink_closed_error
  swallow sink (err e) = ok (sink, 1)

  -- `_safe_publish`: the sink's next state and the warnings that it gave itself.
  unfoldable pub safe_publish : SinkArgument → Receipt → Result (SinkArgument × ℕ)
  unfolding swallow multi_publish
  safe_publish no_sink receipt = ok (no_sink, 0)
  safe_publish (one sink) receipt =
      let p = api.publish sink receipt in swallow (one p.state) p.result
  safe_publish (several sinks) receipt =
      let p = multi_publish (record { sinks = sinks; closed = false; warnings = 0 }) receipt in
      swallow (several p.state.sinks) p.result
