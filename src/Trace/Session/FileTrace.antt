-- ===== src/Trace/Session/FileTrace.antt =====
-- src/trace.rs: traces from a file, which have no session, and the statistics of those that have
-- one. What a query fills in is a function of the calls so far.
use ferrisetw.Base.{ℕ, ◌%◌, ◌^◌, Bool, List}
use ferrisetw.Native.Evntrace.{unregister, open_trace, close_trace, control_trace, process}
use ferrisetw.Native.Windows.{
  Call, ControlCode, from_file, TraceError, ok, World, M, ◌>>=◌, pure, native, Windows,
}
use ferrisetw.Provider.EventFilter.{Platform}
use ferrisetw.Trace.Session.{Trace, take_while_nonzero}

pub record FileTraceBuilder : Type 0 where
  pub etl_file_path : List ℕ
  pub callback : ℕ

pub record FileTrace : Type 0 where
  pub trace_handle : ℕ
  pub context : ℕ

-- The statistics fields of an `EVENT_TRACE_PROPERTIES`; the thread id is a HANDLE.
pub record NativeStatistics : Type 0 where
  pub events_lost : ℕ
  pub log_buffers_lost : ℕ
  pub real_time_buffers_lost : ℕ
  pub buffers_written : ℕ
  pub number_of_buffers : ℕ
  pub free_buffers : ℕ
  pub logger_thread_id : ℕ

pub record TraceStatistics : Type 0 where
  pub events_lost : ℕ
  pub log_buffers_lost : ℕ
  pub real_time_buffers_lost : ℕ
  pub buffers_written : ℕ
  pub number_of_buffers : ℕ
  pub free_buffers : ℕ
  pub logger_thread_id : ℕ

unfoldable pub from_properties : NativeStatistics → TraceStatistics
from_properties props = record {
  events_lost = props.events_lost;
  log_buffers_lost = props.log_buffers_lost;
  real_time_buffers_lost = props.real_time_buffers_lost;
  buffers_written = props.buffers_written;
  number_of_buffers = props.number_of_buffers;
  free_buffers = props.free_buffers;
  logger_thread_id = props.logger_thread_id % 2 ^ 32;
}

module _ (windows : Windows) (platform : Platform) where
  -- `FileTraceBuilder::start`
  unfoldable pub start_file : FileTraceBuilder → M TraceError FileTrace
  unfolding open_trace
  start_file b =
      native
        (open_trace windows platform (from_file (take_while_nonzero b.etl_file_path)) b.callback)
      >>= (λ consumer. pure (record { trace_handle = consumer.0; context = consumer.1 }))

  unfoldable pub file_non_consuming_stop : FileTrace → M TraceError (Unit {0})
  unfolding close_trace
  file_non_consuming_stop t =
      native (close_trace windows platform t.trace_handle t.context) >>= (λ pending. pure tt)

  -- The drop of `TraceContext` comes after the stop.
  unfoldable pub drop_file : FileTrace → World → World
  unfolding file_non_consuming_stop unregister
  drop_file t w = unregister t.context (file_non_consuming_stop t w).1

  unfoldable pub close_file : FileTrace → M TraceError Bool
  unfolding close_trace drop_file
  close_file t w =
      let closed = native (close_trace windows platform t.trace_handle t.context) w in
      (closed.0, drop_file t closed.1)

  unfoldable pub process_from_handle : ℕ → M TraceError (Unit {0})
  unfolding process
  process_from_handle handle = native (process windows platform handle)

  unfoldable pub statistics : (List Call → NativeStatistics) → Trace → M TraceError TraceStatistics
  unfolding control_trace from_properties
  statistics filled t =
      native (control_trace windows platform t.properties t.control_handle ControlCode.query)
      >>= (λ done w. (ok (from_properties (filled w.calls)), w))
