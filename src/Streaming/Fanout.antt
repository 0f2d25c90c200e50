-- ===== src/Streaming/Fanout.antt =====
-- MultiSink and `_safe_publish`: failures stay with the sink that fails.
use mathlib.Core.Option
use provenex_core.Prelude.{
  ℕ, ◌≡◌, refl, Bool, false, List, [], ◌∷◌, Result, ok, err, sink_closed_error, map, ap, get_elem?,
  get_elem?-map, index_error, key_error, value_error, type_error, runtime_error, policy_parse_error,
  unsupported_policy_feature, recursion_error, os_error, integrity_error, attribute_error, Returns,
  returns, Returns-value, Error,
}
use provenex_core.Text.{Text}
use provenex_core.Streaming.{
  raised, WriteEnd, StdoutJsonlSink, stdout_publish, stdout_close, FileJsonlSink, file_publish,
  file_close, ReceiptSink, MultiSink, multi_publish, multi_close, publish_all, RetryQueueSink,
  retry_publish, retry_close, SinkArgument, no_sink, one, several, swallow, safe_publish,
}

module _ {ℓ} {Receipt : Type 0} {Sink : Type ℓ} (api : ReceiptSink Receipt Sink) where
  publish_all-map :
      (sinks : List Sink) (receipt : Receipt)
      → (publish_all api sinks receipt).0 ≡ map (λ s. (api.publish s receipt).state) sinks
  unfolding publish_all
  publish_all-map [] receipt = refl
  publish_all-map (s ∷ sinks) receipt =
      ap (λ r. (api.publish s receipt).state ∷ r) (publish_all-map sinks receipt)

  -- An open MultiSink never raises, and every child, in whatever place and whichever others
  -- fail, is given the receipt.
  pub multi_publish-isolated :
      (m : MultiSink Sink) (receipt : Receipt)
      → m.closed ≡ false
      → ((multi_publish api m receipt).result ≡ ok tt)
        × ((i : ℕ)
            → get_elem? (multi_publish api m receipt).state.sinks i
              ≡ Option.map (λ s. (api.publish s receipt).state) (get_elem? m.sinks i))
  unfolding multi_publish
  multi_publish-isolated m receipt h = simp h (refl, λ i. rw (publish_all-map, get_elem?-map) refl)

  swallow_lem :
      (sink : SinkArgument api) (r : Result (Unit {0})) (e : Error)
      → swallow api sink r ≡ err e
      → e ≡ sink_closed_error
  unfolding swallow
  swallow_lem sink (ok x) e h = cc
  swallow_lem sink (err sink_closed_error) e h = cc
  swallow_lem sink (err index_error) e h = cc
  swallow_lem sink (err key_error) e h = cc
  swallow_lem sink (err value_error) e h = cc
  swallow_lem sink (err type_error) e h = cc
  swallow_lem sink (err runtime_error) e h = cc
  swallow_lem sink (err policy_parse_error) e h = cc
  swallow_lem sink (err unsupported_policy_feature) e h = cc
  swallow_lem sink (err recursion_error) e h = cc
  swallow_lem sink (err os_error) e h = cc
  swallow_lem sink (err integrity_error) e h = cc
  swallow_lem sink (err attribute_error) e h = cc

  safe_publish-several :
      (sinks : List Sink) (receipt : Receipt)
      → Returns (λ r. r.1 ≡ 0) (safe_publish api (several sinks) receipt)
  unfolding safe_publish multi_publish swallow
  safe_publish-several sinks receipt = returns refl

  -- `_safe_publish` raises nothing but SinkClosedError, and nothing at all for a list of sinks.
  pub safe_publish-raises :
      (sink : SinkArgument api) (receipt : Receipt)
      → ((e : Error) → safe_publish api sink receipt ≡ err e → e ≡ sink_closed_error)
        × ((sinks : List Sink)
            → sink ≡ several sinks
            → Returns (λ r. r.1 ≡ 0) (safe_publish api sink receipt))
  unfolding safe_publish
  safe_publish-raises no_sink receipt = (λ e h. cc, λ sinks h. cc)
  safe_publish-raises (one sink) receipt = (
    λ e h. swallow_lem (one (api.publish sink receipt).state) (api.publish sink receipt).result e h,
    λ sinks h. cc,
  )
  safe_publish-raises (several sinks) receipt =
      let (r, q, _) = Returns-value (safe_publish-several sinks receipt) in
      (λ e h. cc (q, h), λ _ _. safe_publish-several sinks receipt)

  -- A sink that was closed refuses every receipt, whichever of the four it is, and stays as it is.
  pub close-publish :
      (receipt : Receipt) (today line : Text) (refused : Bool) (how : WriteEnd)
      → ((s : StdoutJsonlSink)
          → stdout_publish (stdout_close s) line how ≡ raised sink_closed_error (stdout_close s))
        × ((s : FileJsonlSink)
            → file_publish (file_close s) today refused line how
              ≡ raised sink_closed_error (file_close s))
        × ((m : MultiSink Sink)
            → multi_publish api (multi_close api m) receipt
              ≡ raised sink_closed_error (multi_close api m))
        × ((q : RetryQueueSink Receipt Sink)
            → retry_publish api (retry_close api q) receipt
              ≡ raised sink_closed_error (retry_close api q))
  unfolding stdout_publish stdout_close file_publish file_close multi_publish multi_close
      retry_publish retry_close
  close-publish receipt today line refused how = (λ s. refl, λ s. refl, λ m. refl, λ q. refl)
