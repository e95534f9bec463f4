-- ===== src/Emu/Loader.antt =====
-- memslicer/emu/loader.py: the regions, threads and modules of a slice. `decode` is what
-- `bytes.decode("utf-8", "replace")` answers.
pub mod Captured
pub mod Regions
pub mod Modules
use memslicer.Prelude.{
  ℕ, zero, suc, ◌+◌, ◌-◌, ◌*◌, ◌/◌, ◌^◌, Bool, true, false, not, ◌&&◌, Option, none, some, List, [],
  ◌∷◌, ◌++◌, length, take, drop, bit_and, ◌==◌, ltb, leb, if◌then◌else◌, Dict, dict_put, Result,
  Exn, ok, err, value_error, bad_file_magic, key_error, ◌>>=◌, ◌>>◌, require,
}
use memslicer.Bytes.{Bytes, Format, u8, u16, u32, u64, str, unpack, from_le, slice, bytes_eq}
use memslicer.Utils.{Text, pad8}
use memslicer.Msl.Constants.{
  ArchType, arm64, unknown_arch, arch_of_code, OsType, unknown_os, os_of_code, BlockType,
  block_code, memory_region, thread_context, module_entry, thread_flag_current, reg_flag_pc,
  reg_flag_sp, file_magic, captured, page_code,
}
use memslicer.Msl.Host.{Host}
use memslicer.Msl.Iterator.{BlockRecord, Walk, done, fail, yield, stuck, iterate_blocks}
use memslicer.Msl.Payload.Core.{module_format, register_format, thread_format}
use memslicer.Msl.Payload.Pages.{page_state}

pub record EmuReg : Type 0 where
  pub name : Text
  pub value : ℕ
  pub width : ℕ
  pub is_pc : Bool
  pub is_sp : Bool

pub record EmuThread : Type 0 where
  pub tid : ℕ
  pub is_current : Bool
  pub arch : ArchType
  pub registers : List EmuReg

-- `pages` has the captured pages by their addresses.
pub record EmuRegion : Type 0 where
  pub base : ℕ
  pub size : ℕ
  pub protection : ℕ
  pub page_size : ℕ
  pub region_type : ℕ
  pub pages : Dict ℕ Bytes

pub record EmuModule : Type 0 where
  pub base : ℕ
  pub size : ℕ
  pub path : Text

pub record SliceImage : Type 0 where
  pub arch : ArchType
  pub os : OsType
  pub regions : List EmuRegion
  pub threads : List EmuThread
  pub modules : List EmuModule

-- EmuThread.pc: the first register that is one
unfoldable pub first_pc : List EmuReg → Option ℕ
first_pc [] = none
first_pc (r ∷ rs) = if r.is_pc then some r.value else first_pc rs

unfoldable pub thread_pc : EmuThread → Option ℕ
unfolding first_pc
thread_pc t = first_pc t.registers

-- EmuThread.as_dict
unfoldable pub registers_dict : List EmuReg → Dict Text ℕ → Dict Text ℕ
unfolding bytes_eq
registers_dict [] d = d
registers_dict (r ∷ rs) d = registers_dict rs (dict_put bytes_eq d r.name r.value)

unfoldable pub contains : EmuRegion → ℕ → Bool
contains r addr = leb r.base addr && ltb addr (r.base + r.size)

-- What follows the last "/" or "\".
unfoldable pub last_segment : Text → Text → Text
last_segment [] segment = segment
last_segment (c ∷ cs) segment =
    last_segment cs (if c == b'/' then [] else if c == b'\\' then [] else segment ++ c ∷ [])

abbrev or_text : Text → Text → Text
or_text [] other = other
or_text (c ∷ cs) other = c ∷ cs

-- EmuModule.name
unfoldable pub module_name : EmuModule → Text
unfolding last_segment
module_name m = or_text (last_segment m.path []) m.path

unfoldable pub find_current : List EmuThread → Option EmuThread
find_current [] = none
find_current (t ∷ ts) = if t.is_current then some t else find_current ts

abbrev first_thread : List EmuThread → Option EmuThread
first_thread [] = none
first_thread (t ∷ ts) = some t

abbrev or_first : Option EmuThread → List EmuThread → Option EmuThread
or_first none ts = first_thread ts
or_first (some t) ts = some t

unfoldable pub current_thread : SliceImage → Option EmuThread
unfolding find_current
current_thread image = or_first (find_current image.threads) image.threads

unfoldable pub find_tid : ℕ → List EmuThread → Option EmuThread
find_tid tid [] = none
find_tid tid (t ∷ ts) = if t.tid == tid then some t else find_tid tid ts

-- `None`, an `EmuThread`, or a thread id
pub data Selector : Type 0 where
  current : Selector
  given : EmuThread → Selector
  with_tid : ℕ → Selector

abbrev or_key_error : Option EmuThread → Result (Option EmuThread)
or_key_error none = err key_error
or_key_error (some t) = ok (some t)

unfoldable pub select_thread : SliceImage → Selector → Result (Option EmuThread)
unfolding current_thread find_tid
select_thread image current = ok (current_thread image)
select_thread image (given t) = ok (some t)
select_thread image (with_tid n) = or_key_error (find_tid n image.threads)

abbrev pc_of : Option EmuThread → Option ℕ
pc_of none = none
pc_of (some t) = thread_pc t

-- SliceImage.entry
unfoldable pub entry : SliceImage → Option ℕ
unfolding current_thread thread_pc
entry image = pc_of (current_thread image)

-- "<QQBBB5sQ"
abbrev pub region_header : Format
region_header = u64 ∷ u64 ∷ u8 ∷ u8 ∷ u8 ∷ str 5 ∷ u64 ∷ []

-- for i in range(npages): `n` rounds are left, from page i on.
unfoldable pub read_pages : Bytes → Bytes → ℕ → ℕ → ℕ → ℕ → ℕ → Dict ℕ Bytes → Result (Dict ℕ Bytes)
unfolding page_state page_code
read_pages psm chunk base page_size zero i count pages = ok pages
read_pages psm chunk base page_size (suc n) i count pages = do
  state ← page_state psm i
  let off = count * page_size
  let page = slice off (off + page_size) chunk
  let taken =
      read_pages psm chunk base page_size n (i + 1) (count + 1)
        (dict_put ◌==◌ pages (base + i * page_size) page)
  let passed = read_pages psm chunk base page_size n (i + 1) count pages
  if state == page_code captured then taken else passed

unfoldable pub parse_region : Bytes → Result EmuRegion
unfolding read_pages pad8
parse_region payload = do
  (base, (size, (prot, (rt, (psl, _))))) ← unpack region_header (take 32 payload)
  let page_size = 2 ^ psl
  let npages = size / 2 ^ psl
  let psm_len = pad8 ((npages + 3) / 4)
  let psm = slice 32 (32 + psm_len) payload
  pages ← read_pages psm (drop (32 + psm_len) payload) base page_size npages 0 0 []
  ok (record {
    base = base;
    size = size;
    protection = prot;
    page_size = page_size;
    region_type = rt;
    pages = pages;
  })

-- Arch 0 is the header's.
unfoldable pub thread_arch : ℕ → ArchType → ArchType
unfolding arch_of_code
thread_arch code file_arch =
    if code == 0 then file_arch else elim (arch_of_code code) [ none ↦ unknown_arch | some a ↦ a ]

abbrev is_arm64 : ArchType → Bool
is_arm64 arm64 = true
is_arm64 _ = false

-- _ARM64_ALIASES.get(name, name)
unfoldable pub normalise : Text → Text
unfolding bytes_eq
normalise name =
    if bytes_eq name (b'f' ∷ b'p' ∷ [])
    then b'x' ∷ b'2' ∷ b'9' ∷ []
    else if bytes_eq name (b'l' ∷ b'r' ∷ [])
    then b'x' ∷ b'3' ∷ b'0' ∷ []
    else name

-- raw.split(b"\x00", 1)[0]
unfoldable pub before_nul : Bytes → Bytes
before_nul [] = []
before_nul (c ∷ cs) = if c == 0 then [] else c ∷ before_nul cs

module _ (decode : Bytes → Text) where
  -- One register at this offset, and the offset behind it.
  unfoldable pub read_register : Bytes → ArchType → ℕ → Result (EmuReg × ℕ)
  unfolding normalise pad8
  read_register payload arch off = do
    (rnamelen, (width, (rflags, _))) ← unpack register_format (slice off (off + 8) payload)
    let name = decode (slice (off + 8) (off + 8 + rnamelen - 1) payload)
    let voff = off + 8 + pad8 rnamelen
    ok (
      record {
        name = if is_arm64 arch then normalise name else name;
        value = from_le (slice voff (voff + width) payload);
        width = width;
        is_pc = not (bit_and rflags reg_flag_pc == 0);
        is_sp = not (bit_and rflags reg_flag_sp == 0);
      },
      voff + pad8 width,
    )

  -- for _ in range(regcount)
  unfoldable pub read_registers : Bytes → ArchType → ℕ → ℕ → Result (List EmuReg)
  unfolding read_register
  read_registers payload arch zero off = ok []
  read_registers payload arch (suc n) off = do
    (reg, behind) ← read_register payload arch off
    regs ← read_registers payload arch n behind
    ok (reg ∷ regs)

  unfoldable pub parse_thread : Bytes → ArchType → Result EmuThread
  unfolding thread_arch read_registers pad8
  parse_thread payload file_arch = do
    (thread_id, (_, (flags, (_, (arch_code, (regcount, (namelen, _))))))) ←
        unpack thread_format (take 32 payload)
    let arch = thread_arch arch_code file_arch
    regs ← read_registers payload arch regcount (32 + pad8 namelen)
    ok (record {
      tid = thread_id;
      is_current = not (bit_and flags thread_flag_current == 0);
      arch = arch;
      registers = regs;
    })

  unfoldable pub parse_module : Bytes → Result EmuModule
  unfolding before_nul
  parse_module payload = do
    (base, (size, (pathlen, _))) ← unpack module_format (take 24 payload)
    ok (record {
      base = base;
      size = size;
      path = decode (before_nul (slice 24 (24 + pathlen) payload));
    })

  -- One block of the slice.
  unfoldable pub load_block : SliceImage → BlockRecord → Result SliceImage
  unfolding parse_region parse_thread parse_module block_code
  load_block image b =
      if b.block_type == block_code memory_region
      then (do r ← parse_region b.payload; ok (record image { regions = image.regions ++ r ∷ [] }))
      else if b.block_type == block_code thread_context
      then (do
        t ← parse_thread b.payload image.arch
        ok (record image { threads = image.threads ++ t ∷ [] }))
      else if b.block_type == block_code module_entry
      then (do m ← parse_module b.payload; ok (record image { modules = image.modules ++ m ∷ [] }))
      else ok image

  -- for blk in iterate_blocks(f); a walk is never stuck.
  unfoldable pub load_blocks : SliceImage → Walk → Result SliceImage
  unfolding load_block
  load_blocks image done = ok image
  load_blocks image (fail e) = err e
  load_blocks image stuck = err key_error
  load_blocks image (yield b walk) = do image' ← load_block image b; load_blocks image' walk

  unfoldable pub load_slice : Host → Bytes → Result SliceImage
  unfolding bytes_eq os_of_code arch_of_code load_blocks iterate_blocks
  load_slice host file = do
    require (bytes_eq (take 8 file) file_magic) (value_error bad_file_magic)
    (os, (arch, _)) ← unpack (u16 ∷ u16 ∷ []) (slice 48 52 file)
    let image : SliceImage = record {
      arch = elim (arch_of_code arch) [ none ↦ unknown_arch | some a ↦ a ];
      os = elim (os_of_code os) [ none ↦ unknown_os | some o ↦ o ];
      regions = [];
      threads = [];
      modules = [];
    }
    load_blocks image (iterate_blocks host file)
