-- ===== src/Trace/Callbacks.antt =====
-- src/trace/callback_data.rs: the counters of `RealTimeCallbackData` and `CallbackDataFromFile`.
-- Windows calls `on_event` and `on_buffer` in some order; each atomic update is one step. A counter
-- is a `usize` of 64 bits, and `fetch_add` wraps around.
use ferrisetw.Base.{ℕ, suc, ◌+◌, ◌%◌, ◌≡◌, List, [], ◌∷◌, max, arith}
use ferrisetw.Tdh.InType.{usize_mod}

pub record Counters : Type 0 where
  pub events_handled : ℕ
  pub buffers_read : ℕ
  pub events_lost : ℕ

abbrev pub start : Counters
start = record { events_handled = 0; buffers_read = 0; events_lost = 0 }

pub data Step : Type 0 where
  on_event : Step
  on_buffer : (buffers_read events_lost : ℕ) → Step

abbrev pub count_event : Counters → Counters
count_event c = record c { events_handled = (c.events_handled + 1) % usize_mod }

-- The statistics are running totals: the highest seen so far is kept.
abbrev pub keep_totals : ℕ → ℕ → Counters → Counters
keep_totals b l c = record c {
  buffers_read = max c.buffers_read b;
  events_lost = max c.events_lost l;
}

unfoldable pub run : List Step → Counters → Counters
run [] c = c
run (on_event ∷ steps) c = run steps (count_event c)
run (on_buffer b l ∷ steps) c = run steps (keep_totals b l c)

abbrev pub events : List Step → ℕ
events [] = 0
events (on_event ∷ steps) = suc (events steps)
events (on_buffer b l ∷ steps) = events steps

abbrev pub highest_read : List Step → ℕ
highest_read [] = 0
highest_read (on_event ∷ steps) = highest_read steps
highest_read (on_buffer b l ∷ steps) = max b (highest_read steps)

abbrev pub highest_lost : List Step → ℕ
highest_lost [] = 0
highest_lost (on_event ∷ steps) = highest_lost steps
highest_lost (on_buffer b l ∷ steps) = max l (highest_lost steps)

run-counters :
    (steps : List Step) (c : Counters)
    → ((run steps c).events_handled % usize_mod ≡ (c.events_handled + events steps) % usize_mod)
      × ((run steps c).buffers_read ≡ max c.buffers_read (highest_read steps))
      × ((run steps c).events_lost ≡ max c.events_lost (highest_lost steps))
unfolding run
run-counters [] c = (omega arith, omega arith, omega arith)
run-counters (on_event ∷ steps) c =
    let (e, b, l) = run-counters steps (count_event c) in (omega arith, b, l)
run-counters (on_buffer b l ∷ steps) c =
    let (e, f, g) = run-counters steps (keep_totals b l c) in (e, omega arith, omega arith)

-- However the events and the buffer reports of a trace come in, its counters are the number of its
-- events, modulo 2 ^ 64, and the highest totals that were reported.
pub run_totals :
    (steps : List Step)
    → ((run steps start).events_handled % usize_mod ≡ events steps % usize_mod)
      × ((run steps start).buffers_read ≡ highest_read steps)
      × ((run steps start).events_lost ≡ highest_lost steps)
run_totals steps =
    let (e, b, l) = run-counters steps start in (omega arith, omega arith, omega arith)
