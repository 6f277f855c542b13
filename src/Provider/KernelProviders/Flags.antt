-- ===== src/Provider/KernelProviders/Flags.antt =====
-- src/provider/kernel_providers.rs: `kernel_flags`.
use ferrisetw.Base.{ℕ}

abbrev pub event_trace_flag_process : ℕ
event_trace_flag_process = 0x00000001

abbrev pub event_trace_flag_thread : ℕ
event_trace_flag_thread = 0x00000002

abbrev pub event_trace_flag_image_load : ℕ
event_trace_flag_image_load = 0x00000004

abbrev pub event_trace_flag_process_counters : ℕ
event_trace_flag_process_counters = 0x00000008

abbrev pub event_trace_flag_cswitch : ℕ
event_trace_flag_cswitch = 0x00000010

abbrev pub event_trace_flag_dpc : ℕ
event_trace_flag_dpc = 0x00000020

abbrev pub event_trace_flag_interrupt : ℕ
event_trace_flag_interrupt = 0x00000040

abbrev pub event_trace_flag_systemcall : ℕ
event_trace_flag_systemcall = 0x00000080

abbrev pub event_trace_flag_disk_io : ℕ
event_trace_flag_disk_io = 0x00000100

abbrev pub event_trace_flag_disk_file_io : ℕ
event_trace_flag_disk_file_io = 0x00000200

abbrev pub event_trace_flag_disk_io_init : ℕ
event_trace_flag_disk_io_init = 0x00000400

abbrev pub event_trace_flag_dispatcher : ℕ
event_trace_flag_dispatcher = 0x00000800

abbrev pub event_trace_flag_memory_page_faults : ℕ
event_trace_flag_memory_page_faults = 0x00001000

abbrev pub event_trace_flag_memory_hard_faults : ℕ
event_trace_flag_memory_hard_faults = 0x00002000

abbrev pub event_trace_flag_virtual_alloc : ℕ
event_trace_flag_virtual_alloc = 0x00004000

abbrev pub event_trace_flag_vamap : ℕ
event_trace_flag_vamap = 0x00008000

abbrev pub event_trace_flag_network_tcpip : ℕ
event_trace_flag_network_tcpip = 0x00010000

abbrev pub event_trace_flag_registry : ℕ
event_trace_flag_registry = 0x00020000

abbrev pub event_trace_flag_dbgprint : ℕ
event_trace_flag_dbgprint = 0x00040000

abbrev pub event_trace_flag_alpc : ℕ
event_trace_flag_alpc = 0x00100000

abbrev pub event_trace_flag_split_io : ℕ
event_trace_flag_split_io = 0x00200000

abbrev pub event_trace_flag_driver : ℕ
event_trace_flag_driver = 0x00800000

abbrev pub event_trace_flag_profile : ℕ
event_trace_flag_profile = 0x01000000

abbrev pub event_trace_flag_file_io : ℕ
event_trace_flag_file_io = 0x02000000

abbrev pub event_trace_flag_file_io_init : ℕ
event_trace_flag_file_io_init = 0x04000000
