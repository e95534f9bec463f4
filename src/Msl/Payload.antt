-- ===== src/Msl/Payload.antt =====
-- memslicer/msl/writer.py: the payloads that the `write_` methods build, before `_write_block`.
-- This file: what they share, the page state map, and the memory region.
pub mod Core
pub mod Tables
pub mod Extensions
pub mod Pages
use memslicer.Prelude.{
  ℕ, zero, suc, ◌+◌, ◌-◌, ◌*◌, ◌/◌, ◌%◌, ◌^◌, Bool, true, false, ◌&&◌, List, [], ◌∷◌, ◌++◌, concat,
  length, set, get_or, replicate, bit_and, bit_or, ◌==◌, ltb, leb, if◌then◌else◌, Result, ok, err,
  value_error, page_size_not_power, region_not_aligned, page_count_mismatch, page_size_log2_range,
  require, ◌>>=◌, ◌>>◌, not,
}
use memslicer.Bytes.{Bytes, Format, u8, u16, u32, u64, str, pack, zeros}
use memslicer.Utils.{Text, pad_bytes, nul_terminated}
use memslicer.Msl.Constants.{PageState, page_code, region_code}
use memslicer.Msl.Types.{MemoryRegion}

unfoldable pub is_empty : Bytes → Bool
is_empty [] = true
is_empty (x ∷ b) = false

-- s.encode("utf-8") + b"\x00" if s else b""
unfoldable pub text_or_nothing : Text → Bytes
unfolding is_empty nul_terminated
text_or_nothing s = if is_empty s then [] else nul_terminated s

-- s.encode("utf-8") + b"\x00" if s else b"\x00"
unfoldable pub text_or_nul : Text → Bytes
unfolding is_empty nul_terminated
text_or_nul s = if is_empty s then 0 ∷ [] else nul_terminated s

-- if raw: payload += pad_bytes(raw)
unfoldable pub pad_if_any : Bytes → Bytes
unfolding is_empty pad_bytes
pad_if_any raw = if is_empty raw then [] else pad_bytes raw

-- The rows of a table, one after the other; the first that raises ends it.
unfoldable pub pack_rows {ℓ} : {A : Type ℓ} → (A → Result Bytes) → List A → Result Bytes
pack_rows f [] = ok []
pack_rows f (a ∷ rest) = do row ← f a; rows ← pack_rows f rest; ok (row ++ rows)

-- result[i // 4] |= (state & 0x03) << (6 - (i % 4) * 2)
unfoldable pub put_state : ℕ → PageState → Bytes → Bytes
unfolding page_code
put_state i s result =
    let at = i / 4 in
    let bits = bit_and (page_code s) 3 * 2 ^ (6 - i % 4 * 2) in
    set result at (bit_or (get_or result at 0) bits)

unfoldable pub put_states : ℕ → List PageState → Bytes → Bytes
put_states i [] result = result
put_states i (s ∷ states) result = put_states (i + 1) states (put_state i s result)

unfoldable pub encode_page_state_map : List PageState → Bytes
unfolding put_states zeros
encode_page_state_map [] = []
encode_page_state_map (s ∷ states) =
    put_states 0 (s ∷ states) (zeros ((length (s ∷ states) + 3) / 4))

-- n.bit_length(), with fuel for the halvings
unfoldable pub bit_length_from : ℕ → ℕ → ℕ
bit_length_from zero n = 0
bit_length_from (suc fuel) n = elim (n == 0) [
  | true ↦ 0
  | false ↦ suc (bit_length_from fuel (n / 2))
]

-- A number has at most as many digits as it counts.
unfoldable pub bit_length : ℕ → ℕ
unfolding bit_length_from
bit_length n = bit_length_from n n

-- "<QQ" and "<BBB5sQ"
abbrev pub region_format : Format
region_format = u64 ∷ u64 ∷ []

abbrev pub region_tail_format : Format
region_tail_format = u8 ∷ u8 ∷ u8 ∷ str 5 ∷ u64 ∷ []

unfoldable pub region_payload : MemoryRegion → Result Bytes
unfolding encode_page_state_map bit_length region_code pad_bytes zeros
region_payload r = do
  require (ltb 0 r.page_size && (bit_and r.page_size (r.page_size - 1) == 0))
      (value_error page_size_not_power)
  require (r.region_size % r.page_size == 0) (value_error region_not_aligned)
  require (length r.page_states == r.region_size / r.page_size) (value_error page_count_mismatch)
  let page_size_log2 = bit_length r.page_size - 1
  require (leb 10 page_size_log2 && leb page_size_log2 40) (value_error page_size_log2_range)
  head ← pack region_format (r.base_addr, (r.region_size, tt))
  rest ←
      pack region_tail_format (
        r.protection,
        (region_code r.region_type, (page_size_log2, (zeros 5, (r.timestamp_ns, tt)))),
      )
  ok (
      head
      ++ (rest ++ (pad_bytes (encode_page_state_map r.page_states) ++ concat r.page_data_chunks)))
