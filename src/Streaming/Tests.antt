-- ===== src/Streaming/Tests.antt =====
-- Sinks over a downstream that refuses while it is down, and logs what it takes.
use provenex_core.Prelude.{os_error, some}
use provenex_core.Prelude.{
  ℕ, zero, suc, ◌≤◌, ◌≡◌, refl, true, false, List, [], ◌∷◌, ◌++◌, runtime_error, length, arith,
  is_ok,
}
use provenex_core.Text.{codes}
use provenex_core.Streaming.{
  Published, returned, raised, FileJsonlSink, file_publish, broken, ReceiptSink, MultiSink,
  RetryQueueSink, retry_publish, retry_close,
}
use provenex_core.Streaming.Files.{InStep, Dated, file_publish-Dated}
use provenex_core.Streaming.Close.{retry_close-log}
use provenex_core.Streaming.Retry.{Logged, publish_each, publish_each-log, retry_publish-bounded}

-- Refuses as many publishes as `down` says, then takes them.
pub record Flaky : Type 0 where
  pub down : ℕ
  pub taken : List ℕ

publish_down : ℕ → List ℕ → ℕ → Published Flaky
publish_down zero taken r = returned (record { down = 0; taken = taken ++ r ∷ [] })
publish_down (suc n) taken r = raised runtime_error (record { down = n; taken = taken })

abbrev flaky : ReceiptSink ℕ Flaky
flaky = record { publish = λ s r. publish_down s.down s.taken r; close = λ s. returned s }

abbrev log_of : Flaky → List ℕ
log_of s = s.taken

publish_down-Logged :
    (n : ℕ) (taken : List ℕ) (r : ℕ)
    → (is_ok (publish_down n taken r).result ≡ true
        → (publish_down n taken r).state.taken ≡ taken ++ r ∷ [])
      × (is_ok (publish_down n taken r).result ≡ false
          → (publish_down n taken r).state.taken ≡ taken)
unfolding publish_down
publish_down-Logged zero taken r = (λ _. refl, λ h. cc)
publish_down-Logged (suc n) taken r = (λ h. cc, λ _. refl)

flaky-Logged : Logged flaky log_of
flaky-Logged = record {
  taken = λ s r. (publish_down-Logged s.down s.taken r).0;
  refused = λ s r. (publish_down-Logged s.down s.taken r).1;
}

abbrev queue_sink : RetryQueueSink ℕ Flaky
queue_sink = record {
  downstream = record { down = 2; taken = [] };
  queue = [];
  maxlen = 4;
  closed = false;
  warned_full = false;
  warnings = 0;
}

publish_each-log_example :
    log_of (publish_each flaky log_of flaky-Logged queue_sink (1 ∷ 2 ∷ 3 ∷ [])).downstream
      ++ (publish_each flaky log_of flaky-Logged queue_sink (1 ∷ 2 ∷ 3 ∷ [])).queue
    ≡ 1 ∷ 2 ∷ 3 ∷ []
publish_each-log_example =
    publish_each-log flaky log_of flaky-Logged queue_sink (1 ∷ 2 ∷ 3 ∷ []) refl (omega arith)

all_arrive : (publish_each flaky log_of flaky-Logged queue_sink (1 ∷ 2 ∷ 3 ∷ [])).queue ≡ []
unfolding publish_each retry_publish publish_down
all_arrive = refl

retry_publish-bounded_example : length (retry_publish flaky queue_sink 1).state.queue ≤ 4
retry_publish-bounded_example = retry_publish-bounded flaky queue_sink 1 (omega arith)

abbrev fan : MultiSink Flaky
fan = record {
  sinks = record { down = 1; taken = [] } ∷ record { down = 0; taken = [] } ∷ [];
  closed = false;
  warnings = 0;
}

abbrev waiting_sink : RetryQueueSink ℕ Flaky
waiting_sink = record queue_sink {
  downstream = record { down = 0; taken = 1 ∷ [] };
  queue = 2 ∷ 3 ∷ [];
}

retry_close-log_example :
    ((retry_close flaky waiting_sink).closed ≡ true)
    × (log_of (retry_close flaky waiting_sink).downstream ++ (retry_close flaky waiting_sink).queue
        ≡ 1 ∷ 2 ∷ 3 ∷ [])
retry_close-log_example = retry_close-log flaky log_of flaky-Logged (λ s. refl) waiting_sink

-- A sink with the file of the day before open.
abbrev day_file : FileJsonlSink
day_file = record {
  prefix = codes "receipts";
  current_date = some (codes "2024-01-01");
  handle = some (record { date = codes "2024-01-01"; is_open = true });
  closed = false;
  written = [];
}

file_publish-Dated_example :
    Dated day_file
      (codes "2024-01-02")
      (codes "x")
      (file_publish day_file (codes "2024-01-02") false (codes "x") (broken os_error 1))
unfolding InStep
file_publish-Dated_example =
    file_publish-Dated day_file (codes "2024-01-02") (codes "x") false (broken os_error 1) refl
