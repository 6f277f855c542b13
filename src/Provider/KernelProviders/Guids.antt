-- ===== src/Provider/KernelProviders/Guids.antt =====
-- src/provider/kernel_providers.rs: `kernel_guids`. A GUID is its 128 bits.
use ferrisetw.Base.{ℕ}

abbrev pub alpc_guid : ℕ
alpc_guid = 0x45d8cccd539f4b72a8b75c683142609a

abbrev pub power_guid : ℕ
power_guid = 0xe43445e0090348c3b878ff0fccebdd04

abbrev pub debug_guid : ℕ
debug_guid = 0x13976d09a327438c950b7f03192815c7

abbrev pub tcp_ip_guid : ℕ
tcp_ip_guid = 0x9a280ac0c8e011d184e200c04fb998a2

abbrev pub udp_ip_guid : ℕ
udp_ip_guid = 0xbf3a50c5a9c94988a0052df0b7c80f80

abbrev pub thread_guid : ℕ
thread_guid = 0x3d6fa8d1fe0511d09dda00c04fd7ba7c

abbrev pub disk_io_guid : ℕ
disk_io_guid = 0x3d6fa8d4fe0511d09dda00c04fd7ba7c

abbrev pub file_io_guid : ℕ
file_io_guid = 0x90cbdc394a3e11d184f40000f80464e3

abbrev pub process_guid : ℕ
process_guid = 0x3d6fa8d0fe0511d09dda00c04fd7ba7c

abbrev pub registry_guid : ℕ
registry_guid = 0xae53722ec86311d2865900c04fa321a1

abbrev pub split_io_guid : ℕ
split_io_guid = 0xd837ca9212b944a5ad6a3a65b3578aa8

abbrev pub ob_trace_guid : ℕ
ob_trace_guid = 0x89497f50effe44408cf2ce6b1cdcaca7

abbrev pub ums_event_guid : ℕ
ums_event_guid = 0x9aec974b5b8e41189b923186d8002ce5

abbrev pub perf_info_guid : ℕ
perf_info_guid = 0xce1dbfb4137e4da687b03f59aa102cbc

abbrev pub page_fault_guid : ℕ
page_fault_guid = 0x3d6fa8d3fe0511d09dda00c04fd7ba7c

abbrev pub image_load_guid : ℕ
image_load_guid = 0x2cb15d1d5fc111d2abe100a0c911f518

abbrev pub pool_trace_guid : ℕ
pool_trace_guid = 0x0268a8b674fd43029dd06e8f1795c0cf

abbrev pub lost_event_guid : ℕ
lost_event_guid = 0x6a399ae04bc64de9870b3657f8947e7e

abbrev pub stack_walk_guid : ℕ
stack_walk_guid = 0xdef2fe467bd64b80bd94f57fe20d0ce3

abbrev pub event_trace_guid : ℕ
event_trace_guid = 0x68fdd9004a3e11d184f40000f80464e3

abbrev pub mmcss_trace_guid : ℕ
mmcss_trace_guid = 0xf8f10121b6174a56868b9df1b27fe32c

abbrev pub system_trace_guid : ℕ
system_trace_guid = 0x9e814aad320411d29a82006008a86939

abbrev pub event_trace_config_guid : ℕ
event_trace_config_guid = 0x01853a65418f4f36aefcdc0f1d2fd235
