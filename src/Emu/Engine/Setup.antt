-- ===== src/Emu/Engine/Setup.antt =====
-- memslicer/emu/engine.py: how the emulator is built from a slice, and how its registers are set
-- from a captured thread. The packages unicorn and capstone are installed.
use memslicer.Prelude.{
  codes, ℕ, ◌+◌, ◌-◌, ◌*◌, ◌/◌, ◌^◌, Bool, true, false, not, ◌&&◌, ◌||◌, Option, none, some, List,
  [], ◌∷◌, ◌++◌, length, map, concat, replicate, bit_and, bit_or, ◌==◌, ends_with, same_text, take,
  if◌then◌else◌, Dict, dict_get, dict_put, Result, ok, err, type_error, runtime_error, ◌>>=◌,
}
use memslicer.Bytes.{Bytes, to_le}
use memslicer.Utils.{Text}
use memslicer.Msl.Constants.{ArchType, x86}
use memslicer.Msl.Host.{Host}
use memslicer.Acquirer.Bridge.{lower}
use memslicer.Emu.Loader.{
  SliceImage, EmuRegion, EmuThread, EmuReg, Selector, select_thread, load_slice,
}
use memslicer.Emu.Spans.{Span, uc_page, page_floor, page_ceil, coalesce, find_free_page}
use memslicer.Emu.Unicorn.{Unicorn}
use memslicer.Emu.Engine.{Emulator, reg_const, with_uc, write_const}
use memslicer.Emu.Engine.Arch.{ArchRow, arch_row}

-- _gdt_descriptor
unfoldable pub gdt_descriptor : ℕ → ℕ → ℕ → ℕ → Bytes
unfolding to_le
gdt_descriptor base limit access gran =
    let low = bit_or (bit_and limit 0xffff) (bit_and base 0xffffff * 2 ^ 16) in
    let typed = bit_or low (bit_and access 0xff * 2 ^ 40) in
    let sized = bit_or typed (bit_and (limit / 2 ^ 16) 0xf * 2 ^ 48) in
    let flagged = bit_or sized (bit_and gran 0xf * 2 ^ 52) in
    to_le 8 (bit_or flagged (bit_and (base / 2 ^ 24) 0xff * 2 ^ 56))

abbrev pub is_x86 : ArchType → Bool
is_x86 x86 = true
is_x86 _ = false

-- The pages that a region touches.
unfoldable pub region_span : EmuRegion → Span
unfolding page_floor page_ceil
region_span r = (page_floor r.base, page_ceil (r.base + r.size))

-- n in ("fs_base", "gs_base") and reg.value
unfoldable pub is_segment_base : EmuReg → Bool
unfolding lower
is_segment_base reg =
    (same_text (lower reg.name) (codes "fs_base") || same_text (lower reg.name) (codes "gs_base"))
    && not (reg.value == 0)

unfoldable pub segment_bases : List EmuReg → Dict Text ℕ → Dict Text ℕ
unfolding is_segment_base
segment_bases [] bases = bases
segment_bases (reg ∷ regs) bases = segment_bases regs (
    if is_segment_base reg
    then dict_put same_text bases (take 2 (lower reg.name)) reg.value
    else bases)

abbrev with_base : Text → Option ℕ → List (Text × ℕ)
with_base seg none = []
with_base seg (some base) = (seg, base) ∷ []

-- [s for s in ("fs", "gs") if s in bases], with the base of each
unfoldable pub base_order : Dict Text ℕ → List (Text × ℕ)
base_order bases =
    with_base (codes "fs") (dict_get same_text bases (codes "fs"))
    ++ with_base (codes "gs") (dict_get same_text bases (codes "gs"))

-- The null descriptor, and one for each segment.
unfoldable pub gdt_of : List (Text × ℕ) → Bytes
unfolding gdt_descriptor
gdt_of order = replicate 8 0 ++ concat (map (λ s. gdt_descriptor s.1 0xfffff 0xf2 0xc) order)

-- (idx << 3) | 3
abbrev selector_of : ℕ → ℕ
selector_of idx = bit_or (idx * 2 ^ 3) 3

abbrev pub registers_of : Option EmuThread → List EmuReg
registers_of none = []
registers_of (some t) = t.registers

module _ {Uc Context : Type 0} (unicorn : Unicorn Uc Context) where
  -- for lo, hi in self._mapped
  unfoldable pub map_spans : Emulator Uc Context → List Span → Result (Emulator Uc Context)
  map_spans e [] = ok e
  map_spans e ((lo, hi) ∷ spans) = do
    e' ← with_uc unicorn e (unicorn.mem_map e.uc lo (hi - lo))
    map_spans e' spans

  -- for paddr, data in r.pages.items()
  unfoldable pub write_pages : Emulator Uc Context → Dict ℕ Bytes → Result (Emulator Uc Context)
  write_pages e [] = ok e
  write_pages e ((paddr, page) ∷ pages) = do
    e' ← with_uc unicorn e (unicorn.mem_write e.uc paddr page)
    write_pages e' pages

  unfoldable pub write_regions : Emulator Uc Context → List EmuRegion → Result (Emulator Uc Context)
  unfolding write_pages
  write_regions e [] = ok e
  write_regions e (r ∷ rs) = do e' ← write_pages e r.pages; write_regions e' rs

  unfoldable pub map_memory : Emulator Uc Context → Result (Emulator Uc Context)
  unfolding coalesce region_span map_spans write_regions
  map_memory e = do
    let mapped = coalesce (map region_span e.image.regions)
    e' ← map_spans (record e { mapped = mapped }) mapped
    write_regions e' e.image.regions

  -- A register that this engine cannot take is passed over.
  abbrev pub if_taken : Emulator Uc Context → Option Uc → Emulator Uc Context
  if_taken e none = e
  if_taken e (some uc) = record e { uc = uc }

  abbrev pub seed_const : Emulator Uc Context → Option ℕ → ℕ → Emulator Uc Context
  seed_const e none value = e
  seed_const e (some c) value = if_taken e (unicorn.reg_write e.uc c value)

  unfoldable pub seed_register : Emulator Uc Context → EmuReg → Emulator Uc Context
  unfolding lower reg_const
  seed_register e reg =
      if is_x86 e.image.arch && ends_with (lower reg.name) (codes "_base")
      then e
      else seed_const e (reg_const unicorn e reg.name) reg.value

  unfoldable pub seed_each : Emulator Uc Context → List EmuReg → Emulator Uc Context
  unfolding seed_register
  seed_each e [] = e
  seed_each e (reg ∷ regs) = seed_each (seed_register e reg) regs

  -- for seg, sel in selectors.items(), from this index of the table on
  unfoldable pub load_selectors :
      Emulator Uc Context → List (Text × ℕ) → ℕ → Result (Emulator Uc Context)
  unfolding reg_const
  load_selectors e [] idx = ok e
  load_selectors e ((seg, base) ∷ order) idx = do
    e' ← write_const unicorn e (reg_const unicorn e seg) (selector_of idx) type_error
    load_selectors e' order (idx + 1)

  -- _seed_x86_segments, where a base was captured
  unfoldable pub install_gdt : Emulator Uc Context → List (Text × ℕ) → Result (Emulator Uc Context)
  unfolding gdt_of find_free_page coalesce load_selectors
  install_gdt e order = do
    let gdt = gdt_of order
    gdt_base ← find_free_page e.mapped e.bits (length gdt)
    e1 ← with_uc unicorn e (unicorn.mem_map e.uc gdt_base uc_page)
    e2 ← with_uc unicorn e1 (unicorn.mem_write e1.uc gdt_base gdt)
    let e3 : Emulator Uc Context = record e2 {
      mapped = coalesce (e2.mapped ++ (gdt_base, gdt_base + uc_page) ∷ []);
    }
    e4 ← with_uc unicorn e3 (unicorn.gdtr_write e3.uc gdt_base (length gdt - 1))
    load_selectors e4 order 1

  unfoldable pub seed_x86_segments : Emulator Uc Context → Result (Emulator Uc Context)
  unfolding segment_bases base_order install_gdt
  seed_x86_segments e =
      let bases = segment_bases (registers_of e.thread) [] in
      let e' : Emulator Uc Context = record e { seg_bases = bases } in
      if length bases == 0 then ok e' else install_gdt e' (base_order bases)

  abbrev pub seed_from : Emulator Uc Context → Option EmuThread → Result (Emulator Uc Context)
  seed_from e none = ok (record e { seg_bases = [] })
  seed_from e (some thread) =
      let seeded = seed_each e thread.registers in
      if is_x86 e.image.arch then seed_x86_segments seeded else ok seeded

  unfoldable pub seed_registers : Emulator Uc Context → Result (Emulator Uc Context)
  unfolding seed_each seed_x86_segments
  seed_registers e = seed_from e e.thread

  -- A KeyError becomes an EmuError.
  abbrev pub or_emu_error : Result (Option EmuThread) → Result (Option EmuThread)
  or_emu_error (err exn) = err runtime_error
  or_emu_error (ok thread) = ok thread

  unfoldable pub resolve_thread : SliceImage → Selector → Result (Option EmuThread)
  unfolding select_thread
  resolve_thread image spec = or_emu_error (select_thread image spec)

  abbrev pub row_or_emu_error : Option ArchRow → Result ArchRow
  row_or_emu_error none = err runtime_error
  row_or_emu_error (some row) = ok row

  -- The fields of a new emulator, before memory is mapped.
  abbrev pub fresh : SliceImage → Option EmuThread → ArchRow → Emulator Uc Context
  fresh image thread row = record {
    image = image;
    thread = thread;
    bits = row.bits;
    pc_name = row.pc_name;
    sp_name = row.sp_name;
    gpr_names = row.gpr_names;
    uc = unicorn.new image.arch;
    mapped = [];
    seg_bases = [];
    history = [];
    pending = none;
    written = [];
    wx_events = [];
    wx_seen = [];
  }

  -- MSLEmulator.__init__
  unfoldable pub new_emulator : SliceImage → Selector → Result (Emulator Uc Context)
  unfolding resolve_thread arch_row map_memory seed_registers
  new_emulator image spec = do
    thread ← resolve_thread image spec
    row ← row_or_emu_error (arch_row image.arch)
    mapped ← map_memory (fresh image thread row)
    seed_registers mapped

  unfoldable pub open_slice :
      Host → (Bytes → Text) → Bytes → Selector → Result (Emulator Uc Context)
  unfolding load_slice new_emulator
  open_slice host decode file spec = do image ← load_slice decode host file; new_emulator image spec

  -- for name in self._gpr_names, in switch_thread
  abbrev pub clear_const : Emulator Uc Context → Option ℕ → Result (Emulator Uc Context)
  clear_const e none = ok e
  clear_const e (some c) = with_uc unicorn e (unicorn.reg_write e.uc c 0)

  unfoldable pub clear_registers : Emulator Uc Context → List Text → Result (Emulator Uc Context)
  unfolding reg_const
  clear_registers e [] = ok e
  clear_registers e (name ∷ names) = do
    e' ← clear_const e (reg_const unicorn e name)
    clear_registers e' names

  unfoldable pub switch_thread : Emulator Uc Context → Selector → Result (Emulator Uc Context)
  unfolding resolve_thread clear_registers seed_registers
  switch_thread e spec = do
    thread ← resolve_thread e.image spec
    cleared ← clear_registers (record e { thread = thread }) e.gpr_names
    seeded ← seed_registers cleared
    ok (record seeded { history = [] })

  abbrev put_const : Uc → Dict Text ℕ → Text → Option ℕ → Dict Text ℕ
  put_const uc out name none = out
  put_const uc out name (some c) = dict_put same_text out name (unicorn.reg_read uc c)

  -- registers(), with what is in `out` so far
  unfoldable pub registers : Emulator Uc Context → List Text → Dict Text ℕ → Dict Text ℕ
  unfolding reg_const
  registers e [] out = out
  registers e (name ∷ names) out =
      registers e names (put_const e.uc out name (reg_const unicorn e name))
