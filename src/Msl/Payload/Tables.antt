-- ===== src/Msl/Payload/Tables.antt =====
-- The payloads of the system context, its three tables, and of the spec's small blocks.
use memslicer.Prelude.{List, [], ◌∷◌, ◌++◌, length, if◌then◌else◌, Result, ok, ◌>>=◌}
use memslicer.Bytes.{Bytes, Format, u8, u16, u32, u64, str, pack, zeros}
use memslicer.Msl.Types.{
  SystemContext, ProcessEntry, ConnectionEntry, HandleEntry, KeyHint, ImportProvenance, RelatedDump,
}
use memslicer.Msl.Payload.{text_or_nothing, text_or_nul, pad_if_any, pack_rows}

-- "<QBIHHHHH9s"
abbrev pub system_context_format : Format
system_context_format = u64 ∷ u8 ∷ u32 ∷ u16 ∷ u16 ∷ u16 ∷ u16 ∷ u16 ∷ str 9 ∷ []

unfoldable pub system_context_payload : SystemContext → Result Bytes
unfolding text_or_nothing text_or_nul pad_if_any zeros
system_context_payload c = do
  let acq_user_raw = text_or_nul c.acq_user
  let hostname_raw = text_or_nul c.hostname
  let domain_raw = text_or_nothing c.domain
  let os_detail_raw = text_or_nul c.os_detail
  let case_ref_raw = text_or_nothing c.case_ref
  head ← pack system_context_format (
    c.boot_time,
    (
      c.target_count,
      (
        c.table_bitmap,
        (
          length acq_user_raw,
          (
            length hostname_raw,
            (length domain_raw, (length os_detail_raw, (length case_ref_raw, (zeros 9, tt)))),
          ),
        ),
      ),
    ),
  )
  ok (
      head
      ++ (pad_if_any acq_user_raw
          ++ (pad_if_any hostname_raw
              ++ (pad_if_any domain_raw ++ (pad_if_any os_detail_raw ++ pad_if_any case_ref_raw)))))

-- "<III B3s QQ HHH2s"
abbrev pub process_format : Format
process_format = u32 ∷ u32 ∷ u32 ∷ u8 ∷ str 3 ∷ u64 ∷ u64 ∷ u16 ∷ u16 ∷ u16 ∷ str 2 ∷ []

unfoldable pub process_row : ProcessEntry → Result Bytes
unfolding text_or_nothing pad_if_any zeros
process_row p = do
  let exe_raw = text_or_nothing p.exe_name
  let cmd_raw = text_or_nothing p.cmd_line
  let user_raw = text_or_nothing p.user
  head ← pack process_format (
    p.pid,
    (
      p.ppid,
      (
        p.uid,
        (
          (if p.is_target then 1 else 0),
          (
            zeros 3,
            (
              p.start_time,
              (p.rss, (length exe_raw, (length cmd_raw, (length user_raw, (zeros 2, tt))))),
            ),
          ),
        ),
      ),
    ),
  )
  ok (head ++ (pad_if_any exe_raw ++ (pad_if_any cmd_raw ++ pad_if_any user_raw)))

-- The preamble of a table: its count and a reserved word, then the rows.
unfoldable pub table {ℓ} : {A : Type ℓ} → (A → Result Bytes) → List A → Result Bytes
unfolding pack_rows
table f entries = do
  head ← pack (u32 ∷ u32 ∷ []) (length entries, (0, tt))
  rows ← pack_rows f entries
  ok (head ++ rows)

unfoldable pub process_table_payload : List ProcessEntry → Result Bytes
unfolding table process_row
process_table_payload = table process_row

-- "<IBBB1s 16s H2s 16s H2s"
abbrev pub connection_format : Format
connection_format = u32 ∷ u8 ∷ u8 ∷ u8 ∷ str 1 ∷ str 16 ∷ u16 ∷ str 2 ∷ str 16 ∷ u16 ∷ str 2 ∷ []

unfoldable pub connection_row : ConnectionEntry → Result Bytes
unfolding zeros
connection_row c = pack connection_format (
  c.pid,
  (
    c.family,
    (
      c.protocol,
      (
        c.state,
        (
          zeros 1,
          (
            c.local_addr,
            (c.local_port, (zeros 2, (c.remote_addr, (c.remote_port, (zeros 2, tt))))),
          ),
        ),
      ),
    ),
  ),
)

unfoldable pub connection_table_payload : List ConnectionEntry → Result Bytes
unfolding table connection_row
connection_table_payload = table connection_row

-- "<IIB1sH4s"
abbrev pub handle_format : Format
handle_format = u32 ∷ u32 ∷ u8 ∷ str 1 ∷ u16 ∷ str 4 ∷ []

unfoldable pub handle_row : HandleEntry → Result Bytes
unfolding text_or_nothing pad_if_any zeros
handle_row h = do
  let path_raw = text_or_nothing h.path
  head ←
      pack handle_format
        (h.pid, (h.fd, (h.handle_type, (zeros 1, (length path_raw, (zeros 4, tt))))))
  ok (head ++ pad_if_any path_raw)

unfoldable pub handle_table_payload : List HandleEntry → Result Bytes
unfolding table handle_row
handle_table_payload = table handle_row

-- "<QIHH BB 2s I 4s"
abbrev pub key_hint_format : Format
key_hint_format = u64 ∷ u32 ∷ u16 ∷ u16 ∷ u8 ∷ u8 ∷ str 2 ∷ u32 ∷ str 4 ∷ []

unfoldable pub key_hint_payload : KeyHint → Result Bytes
unfolding text_or_nothing pad_if_any zeros
key_hint_payload k = do
  let note_raw = text_or_nothing k.note
  head ← pack key_hint_format (
    k.region_offset,
    (
      k.key_len,
      (
        k.key_type,
        (k.protocol, (k.confidence, (k.key_state, (zeros 2, (length note_raw, (zeros 4, tt)))))),
      ),
    ),
  )
  ok (k.region_uuid ++ (head ++ pad_if_any note_raw))

-- "<HH I Q Q I 4s"
abbrev pub provenance_format : Format
provenance_format = u16 ∷ u16 ∷ u32 ∷ u64 ∷ u64 ∷ u32 ∷ str 4 ∷ []

unfoldable pub import_provenance_payload : ImportProvenance → Result Bytes
unfolding text_or_nothing pad_if_any zeros
import_provenance_payload p = do
  let tool_raw = text_or_nothing p.tool_name
  let note_raw = text_or_nothing p.note
  head ← pack provenance_format (
    p.source_format,
    (0, (length tool_raw, (p.import_time, (p.orig_file_size, (length note_raw, (zeros 4, tt)))))),
  )
  ok (head ++ (pad_if_any tool_raw ++ pad_if_any note_raw))

-- "<IH2s"
unfoldable pub related_dump_payload : RelatedDump → Result Bytes
unfolding zeros
related_dump_payload r = do
  tail ← pack (u32 ∷ u16 ∷ str 2 ∷ []) (r.related_pid, (r.relationship, (zeros 2, tt)))
  ok (r.related_dump_uuid ++ tail)
