-- ===== src/Emu/Engine/Frames.antt =====
-- memslicer/emu/engine.py: the modules of the slice, the frames on its stack, and the way out of a
-- library call that the slice is parked in.
use memslicer.Prelude.{
  codes, ℕ, zero, suc, ◌+◌, ◌*◌, ◌/◌, Bool, true, false, not, ◌&&◌, Option, none, some, List, [],
  ◌∷◌, ◌++◌, bit_and, ◌==◌, ltb, leb, ends_with, if◌then◌else◌, dict_get, Result, ok, ◌>>=◌,
  same_text,
}
use memslicer.Bytes.{Bytes, from_le}
use memslicer.Utils.{Text, prot_x}
use memslicer.Msl.Constants.{ArchType, x86, x86_64, windows}
use memslicer.Acquirer.Bridge.{lower}
use memslicer.Emu.Loader.{SliceImage, EmuRegion, EmuModule, contains, module_name}
use memslicer.Emu.Unicorn.{Unicorn}
use memslicer.Emu.Engine.{Emulator, reg_const, pc, set_pc, read_reg, write_reg}

pub record CallerFrame : Type 0 where
  pub sp_slot : ℕ
  pub return_addr : ℕ
  pub depth : ℕ
  pub module_of : Option Text

-- m.base <= addr < m.base + m.size
abbrev pub in_image : EmuModule → ℕ → Bool
in_image m addr = leb m.base addr && ltb addr (m.base + m.size)

unfoldable pub module_at : List EmuModule → ℕ → Option EmuModule
module_at [] addr = none
module_at (m ∷ ms) addr = let rest = module_at ms addr in if in_image m addr then some m else rest

-- [m for m in mods if m.name.lower().endswith(".exe")]
unfoldable pub exes : List EmuModule → List EmuModule
unfolding module_name lower
exes [] = []
exes (m ∷ ms) =
    let rest = exes ms in
    if ends_with (lower (module_name m)) (codes ".exe") then m ∷ rest else rest

-- min(mods, key=lambda m: m.base): the first of the lowest
unfoldable pub lowest : EmuModule → List EmuModule → EmuModule
lowest m [] = m
lowest m (n ∷ ns) = lowest (if ltb n.base m.base then n else m) ns

abbrev lowest_of : List EmuModule → List EmuModule → Option EmuModule
lowest_of [] [] = none
lowest_of [] (m ∷ ms) = some (lowest m ms)
lowest_of (m ∷ ms) others = some (lowest m ms)

unfoldable pub main_image : List EmuModule → Option EmuModule
unfolding exes lowest
main_image mods = lowest_of (exes mods) mods

abbrev has_page : Option Bytes → Bool
has_page none = false
has_page (some page) = true

-- The first region that contains the address decides: execute-protected, and the page captured.
-- `addr & ~(r.page_size - 1)`, where the page size is a power of two
unfoldable pub addr_executable : List EmuRegion → ℕ → Bool
unfolding contains
addr_executable [] addr = false
addr_executable (r ∷ rs) addr =
    let rest = addr_executable rs addr in
    if contains r addr
    then not (bit_and r.protection prot_x == 0)
      && has_page (dict_get ◌==◌ r.pages (addr / r.page_size * r.page_size))
    else rest

abbrev range_of : Option EmuModule → Option (ℕ × ℕ)
range_of none = none
range_of (some m) = some (m.base, m.base + m.size)

-- The range that is given, or the main image's.
abbrev pub target_range : SliceImage → Option (ℕ × ℕ) → Option (ℕ × ℕ)
target_range image (some range) = some range
target_range image none = range_of (main_image image.modules)

abbrev name_of : Option EmuModule → Option Text
name_of none = none
name_of (some m) = some (module_name m)

abbrev pub frame_at : SliceImage → ℕ → ℕ → ℕ → CallerFrame
frame_at image slot value depth = record {
  sp_slot = slot;
  return_addr = value;
  depth = depth;
  module_of = name_of (module_at image.modules value);
}

-- lo <= val < hi and self._addr_executable(val)
unfoldable pub is_return_address : SliceImage → ℕ → ℕ → ℕ → Bool
unfolding addr_executable
is_return_address image lo hi value =
    leb lo value && ltb value hi && addr_executable image.regions value

-- What a slot of the stack comes to: the walk ends where it cannot be read.
abbrev pub slot_frame :
    SliceImage → ℕ → ℕ → ℕ → ℕ → Option Bytes → Option CallerFrame → Option CallerFrame
slot_frame image lo hi slot depth none rest = none
slot_frame image lo hi slot depth (some bytes) rest =
    if is_return_address image lo hi (from_le bytes)
    then some (frame_at image slot (from_le bytes) depth)
    else rest

module _ {Uc Context : Type 0} (unicorn : Unicorn Uc Context) where
  abbrev base_at : Emulator Uc Context → Option ℕ → Option ℕ
  base_at e none = none
  base_at e (some c) = some (unicorn.reg_read e.uc c)

  -- seg is "fs" or "gs", in any case
  unfoldable pub segment_base : Emulator Uc Context → Text → Option ℕ
  unfolding lower reg_const
  segment_base e seg = elim e.image.arch [
    | x86 ↦ dict_get same_text e.seg_bases (lower seg)
    | _ ↦ base_at e (reg_const unicorn e (lower seg ++ (codes "_base")))
  ]

  abbrev number_of : Option Bytes → Option ℕ
  number_of none = none
  number_of (some b) = some (from_le b)

  -- The pointer at this offset from a base that is there and not zero.
  abbrev pointer_at : Emulator Uc Context → Option ℕ → ℕ → ℕ → Option ℕ
  pointer_at e none off psize = none
  pointer_at e (some base) off psize =
      if base == 0 then none else number_of (unicorn.mem_read e.uc (base + off) psize)

  unfoldable pub peb_on : Emulator Uc Context → ArchType → Option ℕ
  unfolding segment_base from_le
  peb_on e x86_64 = pointer_at e (segment_base e (codes "gs")) 0x60 8
  peb_on e x86 = pointer_at e (segment_base e (codes "fs")) 0x30 4
  peb_on e _ = none

  unfoldable pub peb_address : Emulator Uc Context → Option ℕ
  unfolding peb_on
  peb_address e = elim e.image.os [ windows ↦ peb_on e e.image.arch | _ ↦ none ]

  abbrev outside : Emulator Uc Context → Option EmuModule → Result (Option Bool)
  outside e none = ok none
  outside e (some m) = do addr ← pc unicorn e; ok (some (not (in_image m addr)))

  unfoldable pub in_system_call : Emulator Uc Context → Result (Option Bool)
  unfolding main_image pc
  in_system_call e = outside e (main_image e.image.modules)

  -- for depth in range(max_depth): `n` slots are left, from this depth on.
  unfoldable pub walk_stack : Emulator Uc Context → ℕ → ℕ → ℕ → ℕ → ℕ → Option CallerFrame
  unfolding is_return_address module_at module_name from_le
  walk_stack e lo hi sp depth zero = none
  walk_stack e lo hi sp depth (suc n) =
      let ptr = e.bits / 8 in
      let slot = sp + depth * ptr in
      slot_frame e.image lo hi slot depth (unicorn.mem_read e.uc slot ptr)
        (walk_stack e lo hi sp (depth + 1) n)

  abbrev pub walk_range : Emulator Uc Context → Option (ℕ × ℕ) → ℕ → Result (Option CallerFrame)
  walk_range e none max_depth = ok none
  walk_range e (some (lo, hi)) max_depth = do
    sp ← read_reg unicorn e e.sp_name
    ok (walk_stack e lo hi sp 0 max_depth)

  unfoldable pub find_caller_frame :
      Emulator Uc Context → Option (ℕ × ℕ) → ℕ → Result (Option CallerFrame)
  unfolding main_image read_reg walk_stack
  find_caller_frame e image_range max_depth =
      walk_range e (target_range e.image image_range) max_depth

  abbrev pub unwind :
      Emulator Uc Context
      → Option CallerFrame
      → ℕ
      → Result (Option CallerFrame × Emulator Uc Context)
  unwind e none pop_bytes = ok (none, e)
  unwind e (some frame) pop_bytes = do
    e1 ← set_pc unicorn e frame.return_addr
    e2 ← write_reg unicorn e1 e1.sp_name (frame.sp_slot + e1.bits / 8 + pop_bytes)
    ok (some frame, record e2 { history = [] })

  unfoldable pub resume_from_syscall :
      Emulator Uc Context
      → Option (ℕ × ℕ)
      → ℕ
      → ℕ
      → Result (Option CallerFrame × Emulator Uc Context)
  unfolding find_caller_frame set_pc write_reg
  resume_from_syscall e image_range max_depth pop_bytes = do
    frame ← find_caller_frame e image_range max_depth
    unwind e frame pop_bytes
