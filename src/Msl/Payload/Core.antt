-- ===== src/Msl/Payload/Core.antt =====
-- The payloads of process identity, modules and threads.
use memslicer.Prelude.{
  ℕ, List, [], ◌∷◌, ◌++◌, length, ltb, leb, ◌&&◌, if◌then◌else◌, Result, ok, ◌>>=◌,
}
use memslicer.Bytes.{Bytes, Format, u8, u16, u32, u64, str, pack, zeros}
use memslicer.Utils.{pad_bytes, nul_terminated, encode_string}
use memslicer.Msl.Constants.{thread_state_code}
use memslicer.Msl.Types.{ProcessIdentity, ModuleEntry, ThreadContext, ThreadRegister}
use memslicer.Msl.Payload.{text_or_nothing, text_or_nul, pad_if_any, pack_rows}

-- "<IIQHHI"
abbrev pub identity_format : Format
identity_format = u32 ∷ u32 ∷ u64 ∷ u16 ∷ u16 ∷ u32 ∷ []

unfoldable pub process_identity_payload : ProcessIdentity → Result Bytes
unfolding text_or_nothing text_or_nul pad_if_any pad_bytes
process_identity_payload p = do
  let exe_path_raw = text_or_nul p.exe_path
  let cmd_line_raw = text_or_nothing p.cmd_line
  head ← pack identity_format (
    p.ppid,
    (p.session_id, (p.start_time_ns, (length exe_path_raw, (length cmd_line_raw, (0, tt))))),
  )
  ok (head ++ (pad_bytes exe_path_raw ++ pad_if_any cmd_line_raw))

-- "<QQHHI"
abbrev pub module_format : Format
module_format = u64 ∷ u64 ∷ u16 ∷ u16 ∷ u32 ∷ []

-- One entry of the module list's manifest, behind the module's identifier.
unfoldable pub manifest_entry : ModuleEntry × Bytes → Result Bytes
unfolding nul_terminated encode_string
manifest_entry (m, uuid) = do
  fixed ←
      pack module_format
        (m.base_addr, (m.module_size, (length (nul_terminated m.path), (0, (0, tt)))))
  ok (uuid ++ (fixed ++ encode_string m.path))

unfoldable pub module_list_payload : List (ModuleEntry × Bytes) → Result Bytes
unfolding manifest_entry pack_rows
module_list_payload entries = do
  head ← pack (u32 ∷ u32 ∷ []) (length entries, (0, tt))
  rows ← pack_rows manifest_entry entries
  ok (head ++ rows)

unfoldable pub module_entry_payload : ModuleEntry → Result Bytes
unfolding text_or_nothing pad_if_any nul_terminated encode_string
module_entry_payload m = do
  let version_raw = text_or_nothing m.version
  head ← pack module_format (
    m.base_addr,
    (m.module_size, (length (nul_terminated m.path), (length version_raw, (0, tt)))),
  )
  blob_head ← pack (u32 ∷ u32 ∷ []) (length m.native_blob, (0, tt))
  ok (
      head
      ++ (encode_string m.path
          ++ (pad_if_any version_raw ++ (m.disk_hash ++ (blob_head ++ m.native_blob)))))

-- "<BBHI"
abbrev pub register_format : Format
register_format = u8 ∷ u8 ∷ u16 ∷ u32 ∷ []

unfoldable pub register_entry : ThreadRegister → Result Bytes
unfolding nul_terminated encode_string pad_bytes
register_entry r = do
  head ← pack register_format (length (nul_terminated r.name), (length r.value, (r.flags, (0, tt))))
  ok (head ++ (encode_string r.name ++ pad_bytes r.value))

-- "<QQHBBIH6s"
abbrev pub thread_format : Format
thread_format = u64 ∷ u64 ∷ u16 ∷ u8 ∷ u8 ∷ u32 ∷ u16 ∷ str 6 ∷ []

-- thread.arch if 0 < thread.arch <= 0xFF else 0
unfoldable pub stored_arch : ℕ → ℕ
stored_arch a = if ltb 0 a && leb a 0xFF then a else 0

unfoldable pub thread_context_payload : ThreadContext → Result Bytes
unfolding text_or_nothing pad_if_any stored_arch register_entry pack_rows thread_state_code zeros
thread_context_payload t = do
  let name_raw = text_or_nothing t.name
  head ← pack thread_format (
    t.thread_id,
    (
      t.start_time_ns,
      (
        t.flags,
        (
          thread_state_code t.state,
          (stored_arch t.arch, (length t.registers, (length name_raw, (zeros 6, tt)))),
        ),
      ),
    ),
  )
  regs ← pack_rows register_entry t.registers
  ok (head ++ (pad_if_any name_raw ++ regs))
