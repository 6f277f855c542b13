-- ===== src/Provider/Builder.antt =====
-- src/provider.rs: `Provider` and `ProviderBuilder`. A GUID is a number; the flags of a trace are
-- their bits; a callback is the address of its allocation.
use ferrisetw.Base.{ℕ, Bool, true, false, List, [], ◌∷◌, ◌++◌}
use ferrisetw.Provider.EventFilter.{EventFilter}
use ferrisetw.Provider.KernelProviders.{KernelProvider}

pub record Provider : Type 0 where
  pub guid : ℕ
  pub any : ℕ
  pub all : ℕ
  pub level : ℕ
  pub trace_flags : ℕ
  pub kernel_flags : ℕ
  pub capture_state : Bool
  pub filters : List EventFilter
  pub callbacks : List ℕ

-- The builder has the fields of the provider.
pub record ProviderBuilder : Type 0 where
  pub guid : ℕ
  pub any : ℕ
  pub all : ℕ
  pub level : ℕ
  pub trace_flags : ℕ
  pub kernel_flags : ℕ
  pub capture_state : Bool
  pub filters : List EventFilter
  pub callbacks : List ℕ

unfoldable pub by_guid : ℕ → ProviderBuilder
by_guid guid = record {
  guid = guid;
  any = 0;
  all = 0;
  level = 5;
  trace_flags = 0;
  kernel_flags = 0;
  capture_state = false;
  filters = [];
  callbacks = [];
}

unfoldable pub kernel : KernelProvider → ProviderBuilder
unfolding by_guid
kernel kernel_provider = record (by_guid kernel_provider.guid) {
  kernel_flags = kernel_provider.flags;
}

abbrev pub set_any : ℕ → ProviderBuilder → ProviderBuilder
set_any any b = record b { any = any }

abbrev pub set_all : ℕ → ProviderBuilder → ProviderBuilder
set_all all b = record b { all = all }

abbrev pub set_level : ℕ → ProviderBuilder → ProviderBuilder
set_level level b = record b { level = level }

abbrev pub set_trace_flags : ℕ → ProviderBuilder → ProviderBuilder
set_trace_flags trace_flags b = record b { trace_flags = trace_flags }

abbrev pub request_capture_state : ProviderBuilder → ProviderBuilder
request_capture_state b = record b { capture_state = true }

-- The lock of the callbacks of a builder is never poisoned.
abbrev pub add_callback : ℕ → ProviderBuilder → ProviderBuilder
add_callback callback b = record b { callbacks = b.callbacks ++ callback ∷ [] }

abbrev pub add_filter : EventFilter → ProviderBuilder → ProviderBuilder
add_filter filter b = record b { filters = b.filters ++ filter ∷ [] }

unfoldable pub build : ProviderBuilder → Provider
build b = record {
  guid = b.guid;
  any = b.any;
  all = b.all;
  level = b.level;
  trace_flags = b.trace_flags;
  kernel_flags = b.kernel_flags;
  capture_state = b.capture_state;
  filters = b.filters;
  callbacks = b.callbacks;
}
