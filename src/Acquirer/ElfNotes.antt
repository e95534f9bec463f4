-- ===== src/Acquirer/ElfNotes.antt =====
-- memslicer/acquirer/elf_notes.py. `decode` is what `bytes.decode("utf-8", errors="replace")`
-- answers. An input that is no byte string is not modelled.
pub mod Laws
pub mod RoundTrip
use memslicer.Prelude.{
  ℕ, zero, suc, ◌+◌, ◌-◌, ◌*◌, ◌/◌, Bool, true, false, not, ◌&&◌, ◌||◌, Option, none, some, List,
  [], ◌∷◌, ◌++◌, length, get_elem?, take, drop, ltb, leb, ◌==◌, same_text, if◌then◌else◌, Result,
  ok, err, index_error, struct_error, ◌>>=◌,
}
use memslicer.Bytes.{Bytes, from_le, slice}
use memslicer.Utils.{Text}

pub record Note : Type 0 where
  pub name : Text
  pub type : ℕ
  pub desc : Bytes

abbrev pub reverse : Bytes → Bytes
reverse [] = []
reverse (b ∷ bs) = reverse bs ++ b ∷ []

-- An unsigned integer of a format with "<" or ">"
unfoldable pub read_uint : Bool → Bytes → ℕ
unfolding from_le
read_uint true b = from_le b
read_uint false b = from_le (reverse b)

-- struct.unpack_from of one integer of `w` bytes
unfoldable pub uint_from : Bool → ℕ → Bytes → ℕ → Result ℕ
unfolding read_uint
uint_from little w b offset =
    if leb (offset + w) (length b)
    then ok (read_uint little (slice offset (offset + w) b))
    else err struct_error

-- bytes.rstrip(b"\x00")
unfoldable pub strip_nul : Bytes → Bytes
strip_nul [] = []
strip_nul (b ∷ bs) = elim (strip_nul bs) [
  | [] ↦ (if b == 0 then [] else b ∷ [])
  | ◌∷◌ c cs ↦ b ∷ c ∷ cs
]

-- (n + 3) & ~3
unfoldable pub pad4 : ℕ → ℕ
pad4 n = (n + 3) / 4 * 4

-- struct.unpack_from(endian + "III", note_bytes, offset)
unfoldable pub note_header : Bool → Bytes → ℕ → Result (ℕ × ℕ × ℕ)
unfolding uint_from
note_header little b offset = do
  namesz ← uint_from little 4 b offset
  descsz ← uint_from little 4 b (offset + 4)
  ntype ← uint_from little 4 b (offset + 8)
  ok (namesz, descsz, ntype)

-- data[i]
unfoldable pub byte_at : Bytes → ℕ → Result ℕ
byte_at b i = elim (get_elem? b i) [ none ↦ err index_error | some x ↦ ok x ]

module _ (decode : Bytes → Text) where
  -- What a header that was read leads to: a note and the offset behind it, or the end.
  unfoldable pub note_body : Bytes → ℕ → Result (ℕ × ℕ × ℕ) → Option (Note × ℕ)
  unfolding strip_nul pad4
  note_body b offset (err x) = none
  note_body b offset (ok (namesz, descsz, ntype)) =
      let total = length b in
      let name_end = offset + namesz in
      let desc_start = offset + pad4 namesz in
      let desc_end = desc_start + descsz in
      if ltb total namesz || ltb total descsz
      then none
      else if ltb total name_end
      then none
      else if ltb total desc_end
      then none
      else some (
        record {
          name = decode (strip_nul (slice offset name_end b));
          type = ntype;
          desc = slice desc_start desc_end b;
        },
        desc_start + pad4 descsz,
      )

  abbrev and_more : Option (Note × ℕ) → (ℕ → List Note) → List Note
  and_more none rest = []
  and_more (some (note, behind)) rest = note ∷ rest behind

  -- The notes from an offset on, with fuel for the rounds of the loop
  unfoldable pub notes_from : ℕ → Bool → Bytes → ℕ → List Note
  unfolding note_header note_body
  notes_from zero little b offset = []
  notes_from (suc fuel) little b offset =
      let rest =
        and_more (note_body b (offset + 12) (note_header little b offset))
          (notes_from fuel little b) in
      if leb (offset + 12) (length b) then rest else []

  -- Each round but the last passes a header, so there are at most as many as there are bytes.
  unfoldable pub parse_elf_notes : Bytes → Bool → List Note
  unfolding notes_from
  parse_elf_notes b little = notes_from (length b) little b 0

  abbrev has_desc : Bytes → Bool
  has_desc [] = false
  has_desc (b ∷ bs) = true

  -- The first note that is a GNU build id
  unfoldable pub find_build_id : List Note → Option Bytes
  find_build_id [] = none
  find_build_id (n ∷ ns) =
      let rest = find_build_id ns in
      if (n.type == 3) && (same_text n.name (b'G' ∷ b'N' ∷ b'U' ∷ [])) && has_desc n.desc
      then some n.desc
      else rest

  -- p_type, p_offset and p_filesz of a program header; its other fields are not used.
  unfoldable pub program_header : Bool → Bool → Bytes → ℕ → Result (ℕ × ℕ × ℕ)
  unfolding uint_from
  program_header true little b off = do
    p_type ← uint_from little 4 b off
    p_offset ← uint_from little 8 b (off + 8)
    p_filesz ← uint_from little 8 b (off + 32)
    last ← uint_from little 8 b (off + 48)
    ok (p_type, p_offset, p_filesz)
  program_header false little b off = do
    p_type ← uint_from little 4 b off
    p_offset ← uint_from little 4 b (off + 4)
    p_filesz ← uint_from little 4 b (off + 16)
    last ← uint_from little 4 b (off + 28)
    ok (p_type, p_offset, p_filesz)

  abbrev or_next : Option Bytes → Option Bytes → Option Bytes
  or_next none next = next
  or_next (some id) next = some id

  -- One program header, and what the headers behind it lead to
  unfoldable pub build_id_of : Bool → Bytes → Result (ℕ × ℕ × ℕ) → Option Bytes → Option Bytes
  unfolding parse_elf_notes find_build_id
  build_id_of little b (err x) next = none
  build_id_of little b (ok (p_type, p_offset, p_filesz)) next =
      if not (p_type == 4)
      then next
      else if ltb (length b) (p_offset + p_filesz)
      then none
      else or_next (find_build_id (parse_elf_notes (slice p_offset (p_offset + p_filesz) b) little))
          next

  -- for i in range(e_phnum): `n` rounds are left, with the next header at `off`.
  unfoldable pub scan_headers : Bool → Bool → Bytes → ℕ → ℕ → ℕ → Option Bytes
  unfolding program_header build_id_of
  scan_headers is_64bit little b e_phentsize zero off = none
  scan_headers is_64bit little b e_phentsize (suc n) off =
      build_id_of little b (program_header is_64bit little b off)
        (scan_headers is_64bit little b e_phentsize n (off + e_phentsize))

  -- e_phoff, e_phentsize and e_phnum
  unfoldable pub table_of : Bool → Bool → Bytes → Result (ℕ × ℕ × ℕ)
  unfolding uint_from
  table_of true little b = do
    e_phoff ← uint_from little 8 b 32
    e_phentsize ← uint_from little 2 b 54
    e_phnum ← uint_from little 2 b 56
    ok (e_phoff, e_phentsize, e_phnum)
  table_of false little b = do
    e_phoff ← uint_from little 4 b 28
    e_phentsize ← uint_from little 2 b 42
    e_phnum ← uint_from little 2 b 44
    ok (e_phoff, e_phentsize, e_phnum)

  -- What the table leads to, where it lies in the input
  unfoldable pub scan_table : Bool → Bool → Bytes → Result (ℕ × ℕ × ℕ) → Option Bytes
  unfolding scan_headers
  scan_table is_64bit little b (err x) = none
  scan_table is_64bit little b (ok (e_phoff, e_phentsize, e_phnum)) =
      let ph_size = if is_64bit then 56 else 32 in
      let total_ph_bytes = e_phentsize * e_phnum in
      if ltb e_phentsize ph_size || (e_phnum == 0)
      then none
      else if ltb (length b) total_ph_bytes
      then none
      else if ltb (length b) (e_phoff + total_ph_bytes)
      then none
      else scan_headers is_64bit little b e_phentsize e_phnum e_phoff

  -- The raw build id; the marker `source` is passed through beside it.
  unfoldable pub extract_build_id : Bytes → Result (Option Bytes)
  unfolding byte_at table_of scan_table
  extract_build_id b =
      let found = (do
        ei_class ← byte_at b 4
        ei_data ← byte_at b 5
        let is_64bit = ei_class == 2
        let little = ei_data == 1
        ok (
            if not (ei_class == 1 || is_64bit)
            then none
            else if not (little || (ei_data == 2))
            then none
            else if is_64bit && ltb (length b) 64
            then none
            else scan_table is_64bit little b (table_of is_64bit little b))) in
      if ltb (length b) 52
      then ok none
      else if not (same_text (take 4 b) (0x7f ∷ (b'E' ∷ b'L' ∷ b'F' ∷ [])))
      then ok none
      else found
