-- ===== src/Acquirer/OsDetail/Projected.antt =====
-- memslicer/acquirer/os_detail.py: the records of the system and of the process as fields. A record
-- is the function from the names of its attributes to their values.
pub mod Gates
use memslicer.Prelude.{
  ℕ, Bool, true, false, not, ◌&&◌, List, [], ◌∷◌, ◌++◌, map, ◌==◌, if◌then◌else◌, codes,
}
use memslicer.Utils.{Text}
use memslicer.Acquirer.Collected.{RawValue, nothing, flag, count, word, words, Fields}

abbrev pub Attributes : Type 0
Attributes = Text → RawValue

-- bool(value)
unfoldable pub truthy : RawValue → Bool
truthy nothing = false
truthy (flag b) = b
truthy (count n) = not (n == 0)
truthy (word []) = false
truthy (word (c ∷ cs)) = true
truthy (words []) = false
truthy (words (t ∷ ts)) = true

abbrev value_or : RawValue → RawValue → RawValue
value_or v other = if truthy v then v else other

-- Fields that have the names of their attributes
unfoldable pub of_names : List Text → Attributes → Fields
of_names [] info = []
of_names (n ∷ ns) info = (n, info n) ∷ of_names ns info

-- Android
abbrev pub android_names : List Text
android_names =
    codes "patch_level"
    ∷ codes "verified_boot"
    ∷ codes "bootloader_locked"
    ∷ codes "dm_verity"
    ∷ codes "build_type"
    ∷ codes "crypto_type"
    ∷ codes "env"
    ∷ codes "root_method"
    ∷ []

-- Kernel and containers
abbrev pub kernel_names : List Text
kernel_names =
    codes "kernel_cmdline"
    ∷ codes "kernel_tainted"
    ∷ codes "lsm_stack"
    ∷ codes "yama_ptrace_scope"
    ∷ codes "aslr_mode"
    ∷ codes "efi_mode"
    ∷ codes "container_scope"
    ∷ codes "container_runtime"
    ∷ codes "ns_fingerprint"
    ∷ []

-- Modules and loader
abbrev pub loader_names : List Text
loader_names =
    codes "ld_so_preload"
    ∷ codes "kernel_lockdown"
    ∷ codes "modules_disabled"
    ∷ codes "module_sig_enforce"
    ∷ []

-- Rootkits, sysctls, audit
abbrev pub posture_names : List Text
posture_names =
    codes "taint_decoded"
    ∷ codes "kexec_loaded"
    ∷ codes "wtmp_size"
    ∷ codes "wtmp_mtime_ns"
    ∷ codes "utmp_size"
    ∷ codes "btmp_size"
    ∷ codes "lastlog_size"
    ∷ codes "hidden_pid_count"
    ∷ codes "kptr_restrict"
    ∷ codes "dmesg_restrict"
    ∷ codes "perf_event_paranoid"
    ∷ codes "unprivileged_bpf_disabled"
    ∷ codes "unprivileged_userns_clone"
    ∷ codes "kexec_load_disabled"
    ∷ codes "sysrq_state"
    ∷ codes "core_pattern"
    ∷ codes "suid_dumpable"
    ∷ codes "protected_symlinks"
    ∷ codes "protected_hardlinks"
    ∷ codes "protected_fifos"
    ∷ codes "protected_regular"
    ∷ codes "bpf_jit_enable"
    ∷ codes "audit_state"
    ∷ codes "audit_rules_count"
    ∷ codes "journald_storage"
    ∷ codes "ntp_sync"
    ∷ codes "cpu_vuln_digest"
    ∷ []

-- Anchors for memory forensics
abbrev pub anchor_names : List Text
anchor_names =
    codes "page_size"
    ∷ codes "kernel_build_id"
    ∷ codes "kaslr_text_va"
    ∷ codes "kernel_page_offset"
    ∷ codes "la57_enabled"
    ∷ codes "pti_active"
    ∷ codes "btf_sha256"
    ∷ codes "btf_size_bytes"
    ∷ codes "vmcoreinfo_sha256"
    ∷ codes "vmcoreinfo_present"
    ∷ codes "kernel_config_sha256"
    ∷ codes "clock_realtime_ns"
    ∷ codes "clock_monotonic_ns"
    ∷ codes "clock_boottime_ns"
    ∷ codes "clocksource"
    ∷ codes "zram_devices"
    ∷ codes "zswap_enabled"
    ∷ codes "thp_mode"
    ∷ codes "ksm_active"
    ∷ codes "directmap_4k"
    ∷ codes "directmap_2m"
    ∷ codes "directmap_1g"
    ∷ []

-- The fields that are always projected.
unfoldable pub base_fields : Attributes → Fields
unfolding truthy
base_fields info =
    (codes "distro", info (codes "distro"))
    ∷ (codes "kernel", info (codes "kernel"))
    ∷ (codes "arch", info (codes "arch"))
    ∷ (codes "raw_os", value_or (info (codes "raw_os")) (info (codes "os_detail")))
    ∷ (codes "hw_vendor", info (codes "hw_vendor"))
    ∷ (codes "hw_model", info (codes "hw_model"))
    ∷ (codes "bios", info (codes "bios_version"))
    ∷ (codes "cpu", info (codes "cpu_brand"))
    ∷ (codes "cpu_count", info (codes "cpu_count"))
    ∷ (codes "ram", info (codes "ram_bytes"))
    ∷ (codes "boot_id", info (codes "boot_id"))
    ∷ (codes "virt", info (codes "virtualization"))
    ∷ (codes "secure_boot", info (codes "secure_boot"))
    ∷ (codes "disk_enc", info (codes "disk_encryption"))
    ∷ (codes "selinux", info (codes "selinux"))
    ∷ (codes "apparmor", info (codes "apparmor"))
    ∷ (codes "tz", info (codes "timezone"))
    ∷ (codes "mode", info (codes "mode"))
    ∷ (codes "truncated", info (codes "truncated"))
    ∷ []

abbrev pub when : Bool → Fields → Fields
when test fields = if test then fields else []

unfoldable pub system_info_to_fields : Attributes → Bool → Bool → Bool → Bool → Fields
unfolding base_fields of_names
system_info_to_fields info include_serials include_network_identity include_fingerprint
      include_kernel_symbols =
    base_fields info
    ++ (when include_serials (of_names (codes "machine_id" ∷ codes "hw_serial" ∷ []) info)
        ++ (when include_network_identity (of_names (codes "nic_macs" ∷ []) info)
            ++ (of_names android_names info
                ++ (of_names kernel_names info
                    ++ (of_names loader_names info
                        ++ (of_names posture_names info
                            ++ (of_names (codes "collector_caps" ∷ []) info
                                ++ (when include_fingerprint
                                      (of_names (codes "fingerprint" ∷ []) info)
                                    ++ when include_kernel_symbols
                                        (of_names anchor_names info)))))))))

-- The attributes of a process that are projected.
abbrev pub process_names : List Text
process_names =
    codes "ppid"
    ∷ codes "session_id"
    ∷ codes "start_time_ns"
    ∷ codes "exe_path"
    ∷ codes "cmd_line"
    ∷ codes "process_name"
    ∷ codes "package"
    ∷ codes "tracer_pid"
    ∷ codes "login_uid"
    ∷ codes "session_audit_id"
    ∷ codes "selinux_context"
    ∷ codes "target_ns_fingerprint"
    ∷ codes "target_ns_scope_vs_collector"
    ∷ codes "smaps_rollup_pss_kib"
    ∷ codes "smaps_rollup_swap_kib"
    ∷ codes "smaps_anon_hugepages_kib"
    ∷ codes "rwx_region_count"
    ∷ codes "target_cgroup"
    ∷ codes "target_cwd"
    ∷ codes "target_root"
    ∷ codes "cap_eff"
    ∷ codes "cap_amb"
    ∷ codes "no_new_privs"
    ∷ codes "seccomp_mode"
    ∷ codes "core_dumping"
    ∷ codes "thread_count"
    ∷ codes "sig_cgt"
    ∷ codes "io_rchar"
    ∷ codes "io_wchar"
    ∷ codes "io_read_bytes"
    ∷ codes "io_write_bytes"
    ∷ codes "limit_core"
    ∷ codes "limit_memlock"
    ∷ codes "limit_nofile"
    ∷ codes "personality_hex"
    ∷ codes "ancestry"
    ∷ codes "exe_comm_mismatch"
    ∷ []

-- for attr in attrs: an attribute without a value gives no field.
unfoldable pub target_fields : List Text → Attributes → Fields
unfolding truthy
target_fields [] info = []
target_fields (n ∷ ns) info =
    let rest = target_fields ns info in
    if truthy (info n) then (codes "target_" ++ n, info n) ∷ rest else rest

unfoldable pub target_info_to_fields : Attributes → Bool → Fields
unfolding target_fields
target_info_to_fields info include_environ =
    target_fields process_names info
    ++ when include_environ (target_fields (codes "environ" ∷ codes "redacted_env_keys" ∷ []) info)
