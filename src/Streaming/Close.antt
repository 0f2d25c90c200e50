-- ===== src/Streaming/Close.antt =====
-- RetryQueueSink at its end: `close` hands over what it can and keeps the rest.
use mathlib.Core.List.{append_assoc}
use provenex_core.Prelude.{
  ◌≡◌, refl, ◌∙◌, ap, true, List, [], ◌∷◌, ◌++◌, is_ok, Bool-cases, inl, inr,
}
use provenex_core.Streaming.{ReceiptSink, RetryQueueSink, drain_at_close, retry_close}
use provenex_core.Streaming.Retry.{Logged}

module _ {ℓ} {Receipt : Type 0} {Sink : Type ℓ} (api : ReceiptSink Receipt Sink)
    (log : Sink → List Receipt) (logged : Logged api log) where
  drain_at_close-log :
      (s : Sink) (queue : List Receipt)
      → log (drain_at_close api s queue).0 ++ (drain_at_close api s queue).1 ≡ log s ++ queue
  unfolding drain_at_close
  drain_at_close-log s [] = refl
  drain_at_close-log s (p ∷ queue) =
      let ih = drain_at_close-log (api.publish s p).state queue in
      elim (Bool-cases (is_ok (api.publish s p).result)) [
        | inl e ↦
            rw e
              (ih ∙ ap (λ l. l ++ queue) (logged.taken s p e) ∙ append_assoc (log s) (p ∷ []) queue)
        | inr e ↦ rw e (ap (λ l. l ++ p ∷ queue) (logged.refused s p e))
      ]

  -- Where closing the downstream leaves its log as it is: `close` closes the sink, and what the
  -- downstream has taken, followed by what is left in the queue, is what it had taken, followed by
  -- what was pending.
  pub retry_close-log :
      ((s : Sink) → log (api.close s).state ≡ log s)
      → (q : RetryQueueSink Receipt Sink)
      → ((retry_close api q).closed ≡ true)
        × (log (retry_close api q).downstream ++ (retry_close api q).queue
            ≡ log q.downstream ++ q.queue)
  unfolding retry_close
  retry_close-log keep q = (
    refl,
    ap (λ l. l ++ (drain_at_close api q.downstream q.queue).1)
          (keep (drain_at_close api q.downstream q.queue).0)
        ∙ drain_at_close-log q.downstream q.queue,
  )
