-- ===== src/Provider/KernelProviders.antt =====
-- src/provider/kernel_providers.rs: the kernel providers that are at hand, by GUID and flag.
-- Children: Guids and Flags (their constants).
mod Guids
mod Flags
use ferrisetw.Base.{ℕ, List, [], ◌∷◌}
use Guids.{
  alpc_guid, debug_guid, tcp_ip_guid, thread_guid, disk_io_guid, file_io_guid, process_guid,
  registry_guid, split_io_guid, perf_info_guid, page_fault_guid, image_load_guid,
}
use Flags.{
  event_trace_flag_process, event_trace_flag_thread, event_trace_flag_image_load,
  event_trace_flag_process_counters, event_trace_flag_cswitch, event_trace_flag_dpc,
  event_trace_flag_interrupt, event_trace_flag_systemcall, event_trace_flag_disk_io,
  event_trace_flag_disk_file_io, event_trace_flag_disk_io_init, event_trace_flag_dispatcher,
  event_trace_flag_memory_page_faults, event_trace_flag_memory_hard_faults,
  event_trace_flag_virtual_alloc, event_trace_flag_vamap, event_trace_flag_network_tcpip,
  event_trace_flag_registry, event_trace_flag_dbgprint, event_trace_flag_alpc,
  event_trace_flag_split_io, event_trace_flag_driver, event_trace_flag_profile,
  event_trace_flag_file_io, event_trace_flag_file_io_init,
}

pub record KernelProvider : Type 0 where
  pub guid : ℕ
  pub flags : ℕ

abbrev pub virtual_alloc_provider : KernelProvider
virtual_alloc_provider = record { guid = page_fault_guid; flags = event_trace_flag_virtual_alloc }

abbrev pub vamap_provider : KernelProvider
vamap_provider = record { guid = file_io_guid; flags = event_trace_flag_vamap }

abbrev pub thread_provider : KernelProvider
thread_provider = record { guid = thread_guid; flags = event_trace_flag_thread }

abbrev pub split_io_provider : KernelProvider
split_io_provider = record { guid = split_io_guid; flags = event_trace_flag_split_io }

abbrev pub system_call_provider : KernelProvider
system_call_provider = record { guid = perf_info_guid; flags = event_trace_flag_systemcall }

abbrev pub registry_provider : KernelProvider
registry_provider = record { guid = registry_guid; flags = event_trace_flag_registry }

abbrev pub profile_provider : KernelProvider
profile_provider = record { guid = perf_info_guid; flags = event_trace_flag_profile }

abbrev pub process_counter_provider : KernelProvider
process_counter_provider = record { guid = process_guid; flags = event_trace_flag_process_counters }

abbrev pub process_provider : KernelProvider
process_provider = record { guid = process_guid; flags = event_trace_flag_process }

abbrev pub tcp_ip_provider : KernelProvider
tcp_ip_provider = record { guid = tcp_ip_guid; flags = event_trace_flag_network_tcpip }

abbrev pub memory_page_fault_provider : KernelProvider
memory_page_fault_provider = record {
  guid = page_fault_guid;
  flags = event_trace_flag_memory_page_faults;
}

abbrev pub memory_hard_fault_provider : KernelProvider
memory_hard_fault_provider = record {
  guid = page_fault_guid;
  flags = event_trace_flag_memory_hard_faults;
}

abbrev pub interrupt_provider : KernelProvider
interrupt_provider = record { guid = perf_info_guid; flags = event_trace_flag_interrupt }

abbrev pub driver_provider : KernelProvider
driver_provider = record { guid = disk_io_guid; flags = event_trace_flag_driver }

abbrev pub dpc_provider : KernelProvider
dpc_provider = record { guid = perf_info_guid; flags = event_trace_flag_dpc }

abbrev pub image_load_provider : KernelProvider
image_load_provider = record { guid = image_load_guid; flags = event_trace_flag_image_load }

abbrev pub thread_dispatcher_provider : KernelProvider
thread_dispatcher_provider = record { guid = thread_guid; flags = event_trace_flag_dispatcher }

abbrev pub file_init_io_provider : KernelProvider
file_init_io_provider = record { guid = file_io_guid; flags = event_trace_flag_file_io_init }

abbrev pub file_io_provider : KernelProvider
file_io_provider = record { guid = file_io_guid; flags = event_trace_flag_file_io }

abbrev pub disk_io_init_provider : KernelProvider
disk_io_init_provider = record { guid = disk_io_guid; flags = event_trace_flag_disk_io_init }

abbrev pub disk_io_provider : KernelProvider
disk_io_provider = record { guid = disk_io_guid; flags = event_trace_flag_disk_io }

abbrev pub disk_file_io_provider : KernelProvider
disk_file_io_provider = record { guid = file_io_guid; flags = event_trace_flag_disk_file_io }

abbrev pub debug_print_provider : KernelProvider
debug_print_provider = record { guid = debug_guid; flags = event_trace_flag_dbgprint }

abbrev pub context_switch_provider : KernelProvider
context_switch_provider = record { guid = thread_guid; flags = event_trace_flag_cswitch }

abbrev pub alpc_provider : KernelProvider
alpc_provider = record { guid = alpc_guid; flags = event_trace_flag_alpc }

-- All of them, in the order of the file.
abbrev pub all_providers : List KernelProvider
all_providers =
    virtual_alloc_provider ∷ vamap_provider ∷ thread_provider ∷ split_io_provider
    ∷ system_call_provider ∷ registry_provider ∷ profile_provider ∷ process_counter_provider
    ∷ process_provider ∷ tcp_ip_provider ∷ memory_page_fault_provider ∷ memory_hard_fault_provider
    ∷ interrupt_provider ∷ driver_provider ∷ dpc_provider ∷ image_load_provider
    ∷ thread_dispatcher_provider ∷ file_init_io_provider ∷ file_io_provider ∷ disk_io_init_provider
    ∷ disk_io_provider ∷ disk_file_io_provider ∷ debug_print_provider ∷ context_switch_provider
    ∷ alpc_provider ∷ []
