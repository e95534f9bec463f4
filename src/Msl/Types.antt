-- ===== src/Msl/Types.antt =====
-- memslicer/msl/types.py: the records that the writer serialises. Python integers are natural
-- numbers here, and a text is the bytes of its UTF-8 encoding.
use memslicer.Prelude.{ℕ, Bool, List}
use memslicer.Bytes.{Bytes}
use memslicer.Utils.{Text}
use memslicer.Msl.Constants.{
  Endianness, OsType, ArchType, ThreadState, PageState, RegionType, ClockSource, HashAlgo,
}

pub record FileHeader : Type 0 where
  pub endianness : Endianness
  pub version : ℕ × ℕ
  pub flags : ℕ
  pub cap_bitmap : ℕ
  pub dump_uuid : Bytes
  pub timestamp_ns : ℕ
  pub os_type : OsType
  pub arch_type : ArchType
  pub pid : ℕ
  pub clock_source : ClockSource
  pub block_count : ℕ
  pub hash_algo : HashAlgo

-- `page_data_chunks` holds data for captured pages only.
pub record MemoryRegion : Type 0 where
  pub base_addr : ℕ
  pub region_size : ℕ
  pub protection : ℕ
  pub region_type : RegionType
  pub page_size : ℕ
  pub timestamp_ns : ℕ
  pub page_states : List PageState
  pub page_data_chunks : List Bytes

pub record ModuleEntry : Type 0 where
  pub base_addr : ℕ
  pub module_size : ℕ
  pub path : Text
  pub version : Text
  pub disk_hash : Bytes
  pub native_blob : Bytes

pub record ThreadRegister : Type 0 where
  pub name : Text
  pub value : Bytes
  pub flags : ℕ

pub record ThreadContext : Type 0 where
  pub thread_id : ℕ
  pub start_time_ns : ℕ
  pub flags : ℕ
  pub state : ThreadState
  pub arch : ℕ
  pub name : Text
  pub registers : List ThreadRegister

pub record ProcessIdentity : Type 0 where
  pub ppid : ℕ
  pub session_id : ℕ
  pub start_time_ns : ℕ
  pub exe_path : Text
  pub cmd_line : Text

pub record SystemContext : Type 0 where
  pub boot_time : ℕ
  pub target_count : ℕ
  pub table_bitmap : ℕ
  pub acq_user : Text
  pub hostname : Text
  pub domain : Text
  pub os_detail : Text
  pub case_ref : Text

pub record ProcessEntry : Type 0 where
  pub pid : ℕ
  pub ppid : ℕ
  pub uid : ℕ
  pub is_target : Bool
  pub start_time : ℕ
  pub rss : ℕ
  pub exe_name : Text
  pub cmd_line : Text
  pub user : Text

pub record ConnectionEntry : Type 0 where
  pub pid : ℕ
  pub family : ℕ
  pub protocol : ℕ
  pub state : ℕ
  pub local_addr : Bytes
  pub local_port : ℕ
  pub remote_addr : Bytes
  pub remote_port : ℕ

pub record HandleEntry : Type 0 where
  pub pid : ℕ
  pub fd : ℕ
  pub handle_type : ℕ
  pub path : Text

pub record KeyHint : Type 0 where
  pub region_uuid : Bytes
  pub region_offset : ℕ
  pub key_len : ℕ
  pub key_type : ℕ
  pub protocol : ℕ
  pub confidence : ℕ
  pub key_state : ℕ
  pub note : Text

pub record ImportProvenance : Type 0 where
  pub source_format : ℕ
  pub tool_name : Text
  pub import_time : ℕ
  pub orig_file_size : ℕ
  pub note : Text

pub record RelatedDump : Type 0 where
  pub related_dump_uuid : Bytes
  pub related_pid : ℕ
  pub relationship : ℕ

pub record KernelSymbolBundle : Type 0 where
  pub page_size : ℕ
  pub kernel_build_id : Bytes
  pub kaslr_text_va : ℕ
  pub kernel_page_offset : ℕ
  pub la57_enabled : ℕ
  pub pti_active : ℕ
  pub btf_sha256 : Bytes
  pub btf_size_bytes : ℕ
  pub vmcoreinfo_sha256 : Bytes
  pub kernel_config_sha256 : Bytes
  pub clock_realtime_ns : ℕ
  pub clock_monotonic_ns : ℕ
  pub clock_boottime_ns : ℕ
  pub clocksource : Text
  pub thp_mode : Text
  pub ksm_active : ℕ
  pub directmap_4k_kib : ℕ
  pub directmap_2m_kib : ℕ
  pub directmap_1g_kib : ℕ
  pub zram_devices_json : Text
  pub zswap_enabled : ℕ

pub record PhysicalMemoryMap : Type 0 where
  pub ranges : List (ℕ × ℕ × Text)

pub record Ipv4RouteRow : Type 0 where
  pub iface : Text
  pub dest : Bytes
  pub gateway : Bytes
  pub mask : Bytes
  pub flags : ℕ
  pub metric : ℕ
  pub mtu : ℕ

pub record Ipv6RouteRow : Type 0 where
  pub iface : Text
  pub dest : Bytes
  pub dest_prefix : ℕ
  pub next_hop : Bytes
  pub metric : ℕ
  pub flags : ℕ

pub record ArpEntryRow : Type 0 where
  pub family : ℕ
  pub ip : Bytes
  pub hw_type : ℕ
  pub flags : ℕ
  pub hw_addr : Bytes
  pub iface : Text

pub record PacketSocketRow : Type 0 where
  pub pid : ℕ
  pub inode : ℕ
  pub proto : ℕ
  pub iface_index : ℕ
  pub user : ℕ
  pub rmem : ℕ

pub record NetdevStatsRow : Type 0 where
  pub iface : Text
  pub rx_bytes : ℕ
  pub rx_packets : ℕ
  pub rx_errs : ℕ
  pub rx_drop : ℕ
  pub tx_bytes : ℕ
  pub tx_packets : ℕ
  pub tx_errs : ℕ
  pub tx_drop : ℕ

pub record SockstatFamilyRow : Type 0 where
  pub family : ℕ
  pub in_use : ℕ
  pub alloc : ℕ
  pub mem : ℕ

pub record SnmpCounterRow : Type 0 where
  pub mib : Text
  pub counter : Text
  pub value : ℕ

pub record KernelModuleRow : Type 0 where
  pub name : Text
  pub size : ℕ
  pub refcount : ℕ
  pub state : ℕ
  pub taint : ℕ
  pub base : ℕ
  pub flags : ℕ

pub record KernelModuleList : Type 0 where
  pub rows : List KernelModuleRow

pub record ModuleBuildIdRow : Type 0 where
  pub base_addr : ℕ
  pub build_id_len : ℕ
  pub build_id_source : ℕ
  pub flags : ℕ
  pub build_id : Bytes
  pub disk_hash : Bytes

pub record ModuleBuildIdManifest : Type 0 where
  pub rows : List ModuleBuildIdRow

-- `environ` is bytes or a text; both are bytes here.
pub record TargetIntrospection : Type 0 where
  pub target_pid : ℕ
  pub tracer_pid : ℕ
  pub login_uid : ℕ
  pub session_audit_id : ℕ
  pub selinux_context : Text
  pub target_ns_fingerprint : Text
  pub target_ns_scope_vs_collector : Text
  pub smaps_rollup_pss_kib : ℕ
  pub smaps_rollup_swap_kib : ℕ
  pub smaps_anon_hugepages_kib : ℕ
  pub rwx_region_count : ℕ
  pub target_cgroup : Text
  pub target_cwd : Text
  pub target_root : Text
  pub cap_eff : Text
  pub cap_amb : Text
  pub no_new_privs : ℕ
  pub seccomp_mode : ℕ
  pub core_dumping : ℕ
  pub thread_count : ℕ
  pub sig_cgt : Text
  pub io_rchar : ℕ
  pub io_wchar : ℕ
  pub io_read_bytes : ℕ
  pub io_write_bytes : ℕ
  pub limit_core : Text
  pub limit_memlock : Text
  pub limit_nofile : Text
  pub personality_hex : Text
  pub ancestry : Text
  pub exe_comm_mismatch : ℕ
  pub environ : Bytes
  pub redacted_env_keys : List Text

pub record PersistenceRow : Type 0 where
  pub source : ℕ
  pub path : Text
  pub mtime_ns : ℕ
  pub size : ℕ
  pub mode : ℕ

pub record PersistenceManifest : Type 0 where
  pub rows : List PersistenceRow

pub record ConnectivityTable : Type 0 where
  pub ipv4_routes : List Ipv4RouteRow
  pub ipv6_routes : List Ipv6RouteRow
  pub arp_entries : List ArpEntryRow
  pub packet_sockets : List PacketSocketRow
  pub netdev_stats : List NetdevStatsRow
  pub sockstat_families : List SockstatFamilyRow
  pub snmp_counters : List SnmpCounterRow
