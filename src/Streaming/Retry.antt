-- ===== src/Streaming/Retry.antt =====
-- RetryQueueSink: receipts reach the downstream in order and once, and the queue is bounded.
use mathlib.Core.List.{append_assoc, append-nil}
use provenex_core.Prelude.{
  ℕ, ◌+◌, ◌-◌, ◌≤◌, ◌≡◌, refl, sym, ◌∙◌, ap, Bool, true, false, List, [], ◌∷◌, ◌++◌, is_ok, arith,
  length, length-append, length-drop, drop_zero, drop, Bool-cases, inl, inr, if◌then◌else◌,
}
use provenex_core.Streaming.{
  ReceiptSink, RetryQueueSink, append_bounded, enqueue, drain, drained_queue, rearmed, publish_new,
  is_empty, retry_publish,
}

append_bounded-length {ℓ} :
    {A : Type ℓ} (maxlen : ℕ) (queue : List A) (x : A)
    → length (append_bounded maxlen queue x) ≤ maxlen
unfolding append_bounded
append_bounded-length maxlen queue x =
    omega (arith, length-drop (length (queue ++ x ∷ []) - maxlen) (queue ++ x ∷ []))

append_bounded-grows {ℓ} :
    {A : Type ℓ} (maxlen : ℕ) (queue : List A) (x : A)
    → length (append_bounded maxlen queue x) ≤ length queue + 1
unfolding append_bounded
append_bounded-grows maxlen queue x = omega (
  arith,
  length-drop (length (queue ++ x ∷ []) - maxlen) (queue ++ x ∷ []),
  length-append queue (x ∷ []),
)

append_bounded-fits {ℓ} :
    {A : Type ℓ} (maxlen : ℕ) (queue : List A) (x : A)
    → length queue + 1 ≤ maxlen
    → append_bounded maxlen queue x ≡ queue ++ x ∷ []
unfolding append_bounded
append_bounded-fits maxlen queue x h =
    let none_dropped : length (queue ++ x ∷ []) - maxlen ≡ 0 =
      omega (arith, length-append queue (x ∷ [])) in
    ap (λ n. drop n (queue ++ x ∷ [])) none_dropped ∙ drop_zero (queue ++ x ∷ [])

module _ {ℓ} {Receipt : Type 0} {Sink : Type ℓ} (api : ReceiptSink Receipt Sink) where
  -- A downstream with a log of what it took: a publish that returns has logged the receipt, and
  -- one that raises has logged nothing.
  pub record Logged (log : Sink → List Receipt) : Type ℓ where
    pub taken :
        (s : Sink) (r : Receipt)
        → is_ok (api.publish s r).result ≡ true
        → log (api.publish s r).state ≡ log s ++ r ∷ []
    pub refused :
        (s : Sink) (r : Receipt)
        → is_ok (api.publish s r).result ≡ false
        → log (api.publish s r).state ≡ log s

  drain-length :
      (s : Sink) (queue : List Receipt) (w : Bool) (m : ℕ)
      → length (drain api s queue w m).pending ≤ length queue
  unfolding drain
  drain-length s [] w m = omega arith
  drain-length s (p ∷ queue) w m =
      let ih = drain-length (api.publish s p).state queue (rearmed api w queue m) m in
      ground (arith, ih)

  enqueue-length :
      (q : RetryQueueSink Receipt Sink) (r : Receipt) → length (enqueue api q r).queue ≤ q.maxlen
  unfolding enqueue
  enqueue-length q r = append_bounded-length q.maxlen q.queue r

  publish_new-length :
      (q : RetryQueueSink Receipt Sink) (r : Receipt)
      → length q.queue ≤ q.maxlen
      → length (publish_new api q r).queue ≤ q.maxlen
  unfolding publish_new
  publish_new-length q r h =
      ground
        (arith, enqueue-length (record q { downstream = (api.publish q.downstream r).state }) r)

  -- The queue never grows past its bound, whatever is published and whatever the downstream does.
  pub retry_publish-bounded :
      (q : RetryQueueSink Receipt Sink) (r : Receipt)
      → length q.queue ≤ q.maxlen
      → length (retry_publish api q r).state.queue ≤ q.maxlen
  unfolding retry_publish
  retry_publish-bounded q r h = ground (
    arith,
    drain-length q.downstream q.queue q.warned_full q.maxlen,
    enqueue-length (drained_queue api q) r,
    publish_new-length (drained_queue api q) r,
  )

  enqueue-fields :
      (q : RetryQueueSink Receipt Sink) (r : Receipt)
      → ((enqueue api q r).closed ≡ q.closed)
        × ((enqueue api q r).maxlen ≡ q.maxlen)
        × (length (enqueue api q r).queue ≤ length q.queue + 1)
  unfolding enqueue
  enqueue-fields q r = (refl, refl, append_bounded-grows q.maxlen q.queue r)

  publish_new-fields :
      (q : RetryQueueSink Receipt Sink) (r : Receipt)
      → ((publish_new api q r).closed ≡ q.closed)
        × ((publish_new api q r).maxlen ≡ q.maxlen)
        × (length (publish_new api q r).queue ≤ length q.queue + 1)
  unfolding publish_new
  publish_new-fields q r =
      let e = enqueue-fields (record q { downstream = (api.publish q.downstream r).state }) r in
      (ground (arith, e), ground (arith, e), ground (arith, e))

  retry_publish-open :
      (q : RetryQueueSink Receipt Sink) (r : Receipt)
      → q.closed ≡ false
      → (retry_publish api q r).state ≡ (
          if is_empty api (drained_queue api q).queue
          then publish_new api (drained_queue api q) r
          else enqueue api (drained_queue api q) r)
  unfolding retry_publish
  retry_publish-open q r c = simp c refl

  is_empty_lem : (xs : List Receipt) → is_empty api xs ≡ true → xs ≡ []
  unfolding is_empty
  is_empty_lem [] h = refl
  is_empty_lem (x ∷ xs) h = cc

  module _ (log : Sink → List Receipt) (logged : Logged log) where
    drain-log :
        (s : Sink) (queue : List Receipt) (w : Bool) (m : ℕ)
        → log (drain api s queue w m).downstream ++ (drain api s queue w m).pending ≡ log s ++ queue
    unfolding drain
    drain-log s [] w m = refl
    drain-log s (p ∷ queue) w m =
        let ih = drain-log (api.publish s p).state queue (rearmed api w queue m) m in
        elim (Bool-cases (is_ok (api.publish s p).result)) [
          | inl e ↦
              rw e (
                ih
                ∙ ap (λ l. l ++ queue) (logged.taken s p e)
                ∙ append_assoc (log s) (p ∷ []) queue)
          | inr e ↦ rw e (ap (λ l. l ++ p ∷ queue) (logged.refused s p e))
        ]

    enqueue-log :
        (q : RetryQueueSink Receipt Sink) (r : Receipt)
        → length q.queue + 1 ≤ q.maxlen
        → log (enqueue api q r).downstream ++ (enqueue api q r).queue
          ≡ (log q.downstream ++ q.queue) ++ r ∷ []
    unfolding enqueue
    enqueue-log q r h =
        ap (λ l. log q.downstream ++ l) (append_bounded-fits q.maxlen q.queue r h)
        ∙ sym (append_assoc (log q.downstream) q.queue (r ∷ []))

    publish_new-log :
        (q : RetryQueueSink Receipt Sink) (r : Receipt)
        → q.queue ≡ []
        → 1 ≤ q.maxlen
        → log (publish_new api q r).downstream ++ (publish_new api q r).queue
          ≡ (log q.downstream ++ q.queue) ++ r ∷ []
    unfolding publish_new
    publish_new-log q r n h = elim (Bool-cases (is_ok (api.publish q.downstream r).result)) [
      | inl e ↦ rw (e, n, append-nil, append-nil) (logged.taken q.downstream r e)
      | inr e ↦ rw e (
          enqueue-log (record q { downstream = (api.publish q.downstream r).state }) r (rw n h)
          ∙ ap (λ l. (l ++ q.queue) ++ r ∷ []) (logged.refused q.downstream r e))
    ]

    -- One publish to an open sink whose queue has room: what the downstream has taken, followed by
    -- what is pending, gains the receipt at its end, and nothing is lost, repeated or reordered.
    pub retry_publish-log :
        (q : RetryQueueSink Receipt Sink) (r : Receipt)
        → q.closed ≡ false
        → length q.queue + 1 ≤ q.maxlen
        → log (retry_publish api q r).state.downstream ++ (retry_publish api q r).state.queue
          ≡ (log q.downstream ++ q.queue) ++ r ∷ []
    retry_publish-log q r c h =
        let d = drained_queue api q in
        let drained = drain-log q.downstream q.queue q.warned_full q.maxlen in
        let shorter = drain-length q.downstream q.queue q.warned_full q.maxlen in
        rw (retry_publish-open q r c) (elim (Bool-cases (is_empty api d.queue)) [
          | inl e ↦ rw e (
              publish_new-log d r (is_empty_lem d.queue e) (omega (arith, h))
              ∙ ap (λ l. l ++ r ∷ []) drained)
          | inr e ↦
              rw e (enqueue-log d r (omega (arith, h, shorter)) ∙ ap (λ l. l ++ r ∷ []) drained)
        ])

    -- The sink after the receipts were published in turn.
    unfoldable pub publish_each :
        RetryQueueSink Receipt Sink → List Receipt → RetryQueueSink Receipt Sink
    publish_each q [] = q
    publish_each q (r ∷ rs) = publish_each (retry_publish api q r).state rs

    publish_each-fields :
        (q : RetryQueueSink Receipt Sink) (r : Receipt)
        → q.closed ≡ false
        → ((retry_publish api q r).state.closed ≡ false)
          × ((retry_publish api q r).state.maxlen ≡ q.maxlen)
          × (length (retry_publish api q r).state.queue ≤ length q.queue + 1)
    publish_each-fields q r c = rw (retry_publish-open q r c) (
        let shorter = drain-length q.downstream q.queue q.warned_full q.maxlen in
        let e = enqueue-fields (drained_queue api q) r in
        let n = publish_new-fields (drained_queue api q) r in
        (ground (arith, c, e, n), ground (arith, e, n), ground (arith, e, n, shorter)))

    -- While receipts are published that together with those pending fit the queue, whatever the
    -- downstream refuses: what it has taken, followed by what is pending, is what it had taken and
    -- what was pending, followed by the receipts in their order.
    pub publish_each-log :
        (q : RetryQueueSink Receipt Sink) (rs : List Receipt)
        → q.closed ≡ false
        → length q.queue + length rs ≤ q.maxlen
        → log (publish_each q rs).downstream ++ (publish_each q rs).queue
          ≡ (log q.downstream ++ q.queue) ++ rs
    unfolding publish_each
    publish_each-log q [] c h = sym (append-nil (log q.downstream ++ q.queue))
    publish_each-log q (r ∷ rs) c h =
        let f = publish_each-fields q r c in
        publish_each-log (retry_publish api q r).state rs f.0 (omega (arith, h, f.1, f.2))
        ∙ ap (λ l. l ++ rs) (retry_publish-log q r c (omega (arith, h)))
        ∙ append_assoc (log q.downstream ++ q.queue) (r ∷ []) rs
