-- ===== src/Native/EtwTypes/Groups.antt =====
-- src/trace.rs: `ExtendedKernelGroup`, with its discriminants.
use ferrisetw.Base.{ℕ}

pub data ExtendedKernelGroup : Type 0 where
  memory : ExtendedKernelGroup
  footprint : ExtendedKernelGroup
  ref_set : ExtendedKernelGroup
  pool : ExtendedKernelGroup
  pool_trace : ExtendedKernelGroup
  compact_context_switch : ExtendedKernelGroup
  pmc_profile : ExtendedKernelGroup
  process_inswap : ExtendedKernelGroup
  affinity : ExtendedKernelGroup
  priority : ExtendedKernelGroup
  spinlock : ExtendedKernelGroup
  sync_objects : ExtendedKernelGroup
  dpc_queue : ExtendedKernelGroup
  mem_info : ExtendedKernelGroup
  contiguous_memory_generation : ExtendedKernelGroup
  spinlock_counters : ExtendedKernelGroup
  spinlock_instructions : ExtendedKernelGroup
  session : ExtendedKernelGroup
  mem_info_working_set : ExtendedKernelGroup
  kernel_queue : ExtendedKernelGroup
  interrupt_steering : ExtendedKernelGroup
  should_yield : ExtendedKernelGroup
  working_set : ExtendedKernelGroup
  anti_starvation : ExtendedKernelGroup
  process_freeze : ExtendedKernelGroup
  pfn_list : ExtendedKernelGroup
  working_set_detail : ExtendedKernelGroup
  working_set_entry : ExtendedKernelGroup
  heap : ExtendedKernelGroup
  ums : ExtendedKernelGroup
  backtrace : ExtendedKernelGroup
  vulcan : ExtendedKernelGroup
  objects : ExtendedKernelGroup
  events : ExtendedKernelGroup
  full_trace : ExtendedKernelGroup
  dfss : ExtendedKernelGroup
  prefetch : ExtendedKernelGroup
  processor_idle : ExtendedKernelGroup
  cpu_config : ExtendedKernelGroup
  timer : ExtendedKernelGroup
  clock_interrupt : ExtendedKernelGroup
  load_balancer : ExtendedKernelGroup
  clock_timer : ExtendedKernelGroup
  idle_selection : ExtendedKernelGroup
  ipi : ExtendedKernelGroup
  io_timer : ExtendedKernelGroup
  registry_hive : ExtendedKernelGroup
  registry_notification : ExtendedKernelGroup
  ppm_exit_latency : ExtendedKernelGroup
  worker_thread : ExtendedKernelGroup
  optical_io : ExtendedKernelGroup
  optical_io_init : ExtendedKernelGroup
  dll_info : ExtendedKernelGroup
  dll_flush_working_set : ExtendedKernelGroup
  ob_handle : ExtendedKernelGroup
  ob_object : ExtendedKernelGroup
  wake_drop : ExtendedKernelGroup
  wake_event : ExtendedKernelGroup
  debugger : ExtendedKernelGroup
  process_attach : ExtendedKernelGroup
  wake_counter : ExtendedKernelGroup
  power : ExtendedKernelGroup
  soft_trim : ExtendedKernelGroup
  cc : ExtendedKernelGroup
  filtered_io_init : ExtendedKernelGroup
  filtered_io : ExtendedKernelGroup
  filtered_fast_io : ExtendedKernelGroup
  filtered_io_failure : ExtendedKernelGroup
  hv_profile : ExtendedKernelGroup
  wdf_dpc : ExtendedKernelGroup
  wdf_interrupt : ExtendedKernelGroup
  cache_flush : ExtendedKernelGroup
  hibernate_rundown : ExtendedKernelGroup
  sys_cfg_system : ExtendedKernelGroup
  sys_cfg_graphics : ExtendedKernelGroup
  sys_cfg_storage : ExtendedKernelGroup
  sys_cfg_network : ExtendedKernelGroup
  sys_cfg_services : ExtendedKernelGroup
  sys_cfg_pnp : ExtendedKernelGroup
  sys_cfg_optical : ExtendedKernelGroup
  sys_cfg_all : ExtendedKernelGroup
  cluster_off : ExtendedKernelGroup
  memory_control : ExtendedKernelGroup

-- `ExtendedKernelGroup::group_id`
unfoldable pub group_id : ExtendedKernelGroup → ℕ
group_id memory = 0x20000001
group_id footprint = 0x20000008
group_id ref_set = 0x20000020
group_id pool = 0x20000040
group_id pool_trace = 0x20000041
group_id compact_context_switch = 0x20000100
group_id pmc_profile = 0x20000400
group_id process_inswap = 0x20000800
group_id affinity = 0x20001000
group_id priority = 0x20002000
group_id spinlock = 0x20010000
group_id sync_objects = 0x20020000
group_id dpc_queue = 0x20040000
group_id mem_info = 0x20080000
group_id contiguous_memory_generation = 0x20100000
group_id spinlock_counters = 0x20200000
group_id spinlock_instructions = 0x20210000
group_id session = 0x20400000
group_id mem_info_working_set = 0x20800000
group_id kernel_queue = 0x21000000
group_id interrupt_steering = 0x22000000
group_id should_yield = 0x24000000
group_id working_set = 0x28000000
group_id anti_starvation = 0x40000001
group_id process_freeze = 0x40000002
group_id pfn_list = 0x40000004
group_id working_set_detail = 0x40000008
group_id working_set_entry = 0x40000010
group_id heap = 0x40000020
group_id ums = 0x40000080
group_id backtrace = 0x40000100
group_id vulcan = 0x40000200
group_id objects = 0x40000400
group_id events = 0x40000800
group_id full_trace = 0x40001000
group_id dfss = 0x40002000
group_id prefetch = 0x40004000
group_id processor_idle = 0x40008000
group_id cpu_config = 0x40010000
group_id timer = 0x40020000
group_id clock_interrupt = 0x40040000
group_id load_balancer = 0x40080000
group_id clock_timer = 0x40100000
group_id idle_selection = 0x40200000
group_id ipi = 0x40400000
group_id io_timer = 0x40800000
group_id registry_hive = 0x41000000
group_id registry_notification = 0x42000000
group_id ppm_exit_latency = 0x44000000
group_id worker_thread = 0x48000000
group_id optical_io = 0x80000001
group_id optical_io_init = 0x80000002
group_id dll_info = 0x80000008
group_id dll_flush_working_set = 0x80000010
group_id ob_handle = 0x80000040
group_id ob_object = 0x80000080
group_id wake_drop = 0x80000200
group_id wake_event = 0x80000400
group_id debugger = 0x80000800
group_id process_attach = 0x80001000
group_id wake_counter = 0x80002000
group_id power = 0x80008000
group_id soft_trim = 0x80010000
group_id cc = 0x80020000
group_id filtered_io_init = 0x80080000
group_id filtered_io = 0x80100000
group_id filtered_fast_io = 0x80200000
group_id filtered_io_failure = 0x80400000
group_id hv_profile = 0x80800000
group_id wdf_dpc = 0x81000000
group_id wdf_interrupt = 0x82000000
group_id cache_flush = 0x84000000
group_id hibernate_rundown = 0xa0000001
group_id sys_cfg_system = 0xc0000001
group_id sys_cfg_graphics = 0xc0000002
group_id sys_cfg_storage = 0xc0000004
group_id sys_cfg_network = 0xc0000008
group_id sys_cfg_services = 0xc0000010
group_id sys_cfg_pnp = 0xc0000020
group_id sys_cfg_optical = 0xc0000040
group_id sys_cfg_all = 0xdfffffff
group_id cluster_off = 0xe0000001
group_id memory_control = 0xe0000002
