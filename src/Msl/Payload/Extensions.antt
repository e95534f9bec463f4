-- ===== src/Msl/Payload/Extensions.antt =====
-- The payloads of the extension blocks: the two tagged-row blocks (kernel symbols, target
-- introspection), the memory map, kernel modules, build identifiers and persistence.
pub mod Connectivity
use memslicer.Prelude.{
  ℕ, ◌-◌, Bool, true, false, List, [], ◌∷◌, ◌++◌, concat, length, ◌==◌, leb, if◌then◌else◌, Result,
  ok, err, value_error, build_id_too_long, disk_hash_too_long, require, ◌>>=◌, ◌>>◌,
}
use memslicer.Bytes.{Bytes, Format, uint, u8, u16, u32, u64, pack, zeros}
use memslicer.Utils.{Text}
use memslicer.Msl.Types.{
  KernelSymbolBundle, PhysicalMemoryMap, KernelModuleRow, KernelModuleList, TargetIntrospection,
  ModuleBuildIdRow, ModuleBuildIdManifest, PersistenceRow, PersistenceManifest,
}
use memslicer.Msl.Payload.{is_empty, pack_rows}

-- What `emit`, `emit_str` (bytes) and `emit_u8`, `emit_u32`, `emit_u64` (a number and its width)
-- are given.
pub data FieldValue : Type 0 where
  bytes : Bytes → FieldValue
  number : ℕ → ℕ → FieldValue

-- The row of a field, or none where the value is empty or zero.
unfoldable pub emit : ℕ → Bytes → Result (List Bytes)
unfolding is_empty
emit tag value =
    if is_empty value
    then ok []
    else do head ← pack (u16 ∷ u16 ∷ []) (tag, (length value, tt)); ok ((head ++ value) ∷ [])

unfoldable pub emit_field : ℕ × FieldValue → Result (List Bytes)
unfolding emit
emit_field (tag, bytes b) = emit tag b
emit_field (tag, number w v) =
    if v == 0 then ok [] else do packed ← pack (uint w ∷ []) (v, tt); emit tag packed

unfoldable pub emit_fields : List (ℕ × FieldValue) → Result (List Bytes)
unfolding emit_field
emit_fields [] = ok []
emit_fields (f ∷ fields) = do row ← emit_field f; rows ← emit_fields fields; ok (row ++ rows)

abbrev pub bundle_fields : KernelSymbolBundle → List (ℕ × FieldValue)
bundle_fields b =
    (0x0001, number 4 b.page_size)
    ∷ (0x0002, bytes b.kernel_build_id)
    ∷ (0x0003, number 8 b.kaslr_text_va)
    ∷ (0x0004, number 8 b.kernel_page_offset)
    ∷ (0x0005, number 1 b.la57_enabled)
    ∷ (0x0006, number 1 b.pti_active)
    ∷ (0x0007, bytes b.btf_sha256)
    ∷ (0x0008, number 8 b.btf_size_bytes)
    ∷ (0x0009, bytes b.vmcoreinfo_sha256)
    ∷ (0x000A, bytes b.kernel_config_sha256)
    ∷ (0x000B, number 8 b.clock_realtime_ns)
    ∷ (0x000C, number 8 b.clock_monotonic_ns)
    ∷ (0x000D, number 8 b.clock_boottime_ns)
    ∷ (0x000E, bytes b.clocksource)
    ∷ (0x000F, bytes b.thp_mode)
    ∷ (0x0010, number 1 b.ksm_active)
    ∷ (0x0011, number 8 b.directmap_4k_kib)
    ∷ (0x0012, number 8 b.directmap_2m_kib)
    ∷ (0x0013, number 8 b.directmap_1g_kib)
    ∷ (0x0014, bytes b.zram_devices_json)
    ∷ (0x0015, number 1 b.zswap_enabled)
    ∷ []

unfoldable pub kernel_symbol_payload : KernelSymbolBundle → Result Bytes
unfolding emit_fields
kernel_symbol_payload b = do
  rows ← emit_fields (bundle_fields b)
  head ← pack (u32 ∷ u32 ∷ []) (length rows, (0, tt))
  ok (head ++ concat rows)

-- ",".join(keys)
unfoldable pub join_comma : List Text → Text
join_comma [] = []
join_comma (k ∷ []) = k
join_comma (k ∷ l ∷ rest) = k ++ b',' ∷ join_comma (l ∷ rest)

abbrev pub introspection_fields : TargetIntrospection → List (ℕ × FieldValue)
introspection_fields i =
    (0x0001, number 4 i.tracer_pid)
    ∷ (0x0002, number 4 i.login_uid)
    ∷ (0x0003, number 4 i.session_audit_id)
    ∷ (0x0004, bytes i.selinux_context)
    ∷ (0x0005, bytes i.target_ns_fingerprint)
    ∷ (0x0006, bytes i.target_ns_scope_vs_collector)
    ∷ (0x0007, number 8 i.smaps_rollup_pss_kib)
    ∷ (0x0008, number 8 i.smaps_rollup_swap_kib)
    ∷ (0x0009, number 8 i.smaps_anon_hugepages_kib)
    ∷ (0x000A, number 4 i.rwx_region_count)
    ∷ (0x000B, bytes i.target_cgroup)
    ∷ (0x000C, bytes i.target_cwd)
    ∷ (0x000D, bytes i.target_root)
    ∷ (0x000E, bytes i.cap_eff)
    ∷ (0x000F, bytes i.cap_amb)
    ∷ (0x0010, number 1 i.no_new_privs)
    ∷ (0x0011, number 1 i.seccomp_mode)
    ∷ (0x0012, number 1 i.core_dumping)
    ∷ (0x0013, number 4 i.thread_count)
    ∷ (0x0014, bytes i.sig_cgt)
    ∷ (0x0015, number 8 i.io_rchar)
    ∷ (0x0016, number 8 i.io_wchar)
    ∷ (0x0017, number 8 i.io_read_bytes)
    ∷ (0x0018, number 8 i.io_write_bytes)
    ∷ (0x0019, bytes i.limit_core)
    ∷ (0x001A, bytes i.limit_memlock)
    ∷ (0x001B, bytes i.limit_nofile)
    ∷ (0x001C, bytes i.personality_hex)
    ∷ (0x001D, bytes i.ancestry)
    ∷ (0x001E, number 1 i.exe_comm_mismatch)
    ∷ (0x001F, bytes i.environ)
    ∷ (0x0020, bytes (join_comma i.redacted_env_keys))
    ∷ []

unfoldable pub target_introspection_payload : TargetIntrospection → Result Bytes
unfolding emit_fields join_comma
target_introspection_payload i = do
  rows ← emit_fields (introspection_fields i)
  head ← pack (u32 ∷ u32 ∷ []) (i.target_pid, (0, tt))
  ok (head ++ concat rows)

unfoldable pub range_row : ℕ × ℕ × Text → Result Bytes
range_row (start, end, label) = do
  head ← pack (u64 ∷ u64 ∷ u16 ∷ u16 ∷ []) (start, (end, (length label, (0, tt))))
  ok (head ++ label)

-- The count and the reserved word are packed behind the rows, and stand before them.
unfoldable pub counted {ℓ} : {A : Type ℓ} → (A → Result Bytes) → List A → Result Bytes
unfolding pack_rows
counted f entries = do
  rows ← pack_rows f entries
  head ← pack (u32 ∷ u32 ∷ []) (length entries, (0, tt))
  ok (head ++ rows)

unfoldable pub physical_memory_payload : PhysicalMemoryMap → Result Bytes
unfolding counted range_row
physical_memory_payload m = counted range_row m.ranges

-- "<QIBBQBB"
abbrev pub kernel_module_format : Format
kernel_module_format = u64 ∷ u32 ∷ u8 ∷ u8 ∷ u64 ∷ u8 ∷ u8 ∷ []

unfoldable pub kernel_module_row : KernelModuleRow → Result Bytes
kernel_module_row r = do
  size ← pack (u16 ∷ []) (length r.name, tt)
  rest ←
      pack kernel_module_format
        (r.size, (r.refcount, (r.state, (r.taint, (r.base, (r.flags, (0, tt)))))))
  ok (size ++ (r.name ++ rest))

unfoldable pub kernel_module_payload : KernelModuleList → Result Bytes
unfolding counted kernel_module_row
kernel_module_payload m = counted kernel_module_row m.rows

-- "<QBBBB", then the two fields filled to 20 and 32 bytes
unfoldable pub build_id_row : ModuleBuildIdRow → Result Bytes
unfolding zeros
build_id_row r = do
  require (leb (length r.build_id) 20) (value_error build_id_too_long)
  require (leb (length r.disk_hash) 32) (value_error disk_hash_too_long)
  head ←
      pack (u64 ∷ u8 ∷ u8 ∷ u8 ∷ u8 ∷ [])
        (r.base_addr, (r.build_id_len, (r.build_id_source, (r.flags, (0, tt)))))
  ok (
      head
      ++ ((r.build_id ++ zeros (20 - length r.build_id))
          ++ (r.disk_hash ++ zeros (32 - length r.disk_hash))))

unfoldable pub build_id_payload : ModuleBuildIdManifest → Result Bytes
unfolding counted build_id_row
build_id_payload m = counted build_id_row m.rows

unfoldable pub persistence_row : PersistenceRow → Result Bytes
persistence_row r = do
  head ← pack (u8 ∷ u8 ∷ u16 ∷ []) (r.source, (0, (length r.path, tt)))
  rest ← pack (u64 ∷ u64 ∷ u32 ∷ []) (r.mtime_ns, (r.size, (r.mode, tt)))
  ok (head ++ (r.path ++ rest))

unfoldable pub persistence_payload : PersistenceManifest → Result Bytes
unfolding counted persistence_row
persistence_payload m = counted persistence_row m.rows
