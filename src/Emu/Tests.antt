-- ===== src/Emu/Tests.antt =====
-- The theorems on the loader and the emulator at concrete inputs.
mod Machine
use memslicer.Prelude.{
  codes, ℕ, ◌≡◌, ◌^◌, refl, Option, none, some, List, [], ◌∷◌, ◌++◌, ok, replicate, arith,
}
use memslicer.Bytes.{Bytes, encode, to_le, fixed, pack, in_range}
use memslicer.Msl.Types.{MemoryRegion, ModuleEntry}
use memslicer.Msl.Constants.{captured, failed, heap}
use memslicer.Msl.Payload.{region_payload, put_state}
use memslicer.Msl.Payload.Core.{module_entry_payload}
use memslicer.Emu.Loader.{parse_region, parse_module}
use memslicer.Emu.Loader.Regions.{loaded_region, parse_region-region_payload}
use memslicer.Emu.Loader.Modules.{parse_module-module_entry_payload}
use memslicer.Emu.Loader.{
  SliceImage, EmuRegion, current, current_thread, select_thread, find_current,
}
use memslicer.Msl.Constants.{x86_64, windows}
use memslicer.Emu.Spans.{
  Span, coalesce, sort_spans, insert_span, merge_spans, covered, page_ceil, page_floor,
  find_free_page,
}
use memslicer.Emu.Spans.Laws.{IsApart, coalesce-IsApart-covered}
use memslicer.Emu.Spans.Free.{IsFree, find_free_page-IsFree}
use memslicer.Emu.Engine.{Emulator, reg_const, upper, pc, step, step_at}
use memslicer.Emu.Engine.Arch.{ArchRow, arch_row}
use memslicer.Emu.Engine.Setup.{
  fresh, new_emulator, resolve_thread, map_memory, map_spans, write_regions, seed_registers,
}
use memslicer.Emu.Engine.Frames.{CallerFrame, find_caller_frame}
use memslicer.Emu.Engine.Reverse.{IsUndone, step_back-step}
use memslicer.Emu.Engine.Nearest.{IsNearest, find_caller_frame-IsNearest}
use memslicer.Emu.Engine.Tracked.{IsTracked}
use memslicer.Emu.Engine.Reachable.{built, stepped, Reachable-IsTracked}
use memslicer.Emu.Tests.Machine.{Toy, toy, start, toy-Documented}

abbrev small_region : MemoryRegion
small_region = record {
  base_addr = 0x1000;
  region_size = 2048;
  protection = 3;
  region_type = heap;
  page_size = 1024;
  timestamp_ns = 7;
  page_states = captured ∷ failed ∷ [];
  page_data_chunks = replicate 1024 9 ∷ [];
}

abbrev small_payload : Bytes
small_payload =
    0
    ∷ 16
    ∷ 0
    ∷ 0
    ∷ 0
    ∷ 0
    ∷ 0
    ∷ 0
    ∷ 0
    ∷ 8
    ∷ 0
    ∷ 0
    ∷ 0
    ∷ 0
    ∷ 0
    ∷ 0
    ∷ 3
    ∷ 1
    ∷ 10
    ∷ 0
    ∷ 0
    ∷ 0
    ∷ 0
    ∷ 0
    ∷ 7
    ∷ 0
    ∷ 0
    ∷ 0
    ∷ 0
    ∷ 0
    ∷ 0
    ∷ 0
    ∷ 16
    ∷ 0
    ∷ 0
    ∷ 0
    ∷ 0
    ∷ 0
    ∷ 0
    ∷ 0
    ∷ replicate 1024 9

parse_region-region_payload_example :
    parse_region (small_payload ++ 0 ∷ []) ≡ ok (loaded_region small_region 10 (0 ∷ []))
unfolding region_payload pack in_range encode to_le fixed put_state
parse_region-region_payload_example =
    parse_region-region_payload small_region 10 small_payload (0 ∷ []) refl refl

abbrev same_bytes : Bytes → Bytes
same_bytes b = b

abbrev small_module : ModuleEntry
small_module = record {
  base_addr = 0x1000;
  module_size = 4096;
  path = codes "/a";
  version = [];
  disk_hash = replicate 32 0;
  native_blob = [];
}

abbrev module_payload : Bytes
module_payload =
    0
    ∷ 16
    ∷ 0
    ∷ 0
    ∷ 0
    ∷ 0
    ∷ 0
    ∷ 0
    ∷ 0
    ∷ 16
    ∷ 0
    ∷ 0
    ∷ 0
    ∷ 0
    ∷ 0
    ∷ 0
    ∷ 3
    ∷ 0
    ∷ 0
    ∷ 0
    ∷ 0
    ∷ 0
    ∷ 0
    ∷ 0
    ∷ b'/'
    ∷ b'a'
    ∷ 0
    ∷ 0
    ∷ 0
    ∷ 0
    ∷ 0
    ∷ 0
    ∷ (replicate 32 0 ++ replicate 8 0)

parse_module-module_entry_payload_example :
    parse_module same_bytes module_payload
    ≡ ok (record { base = 0x1000; size = 4096; path = codes "/a" })
unfolding module_entry_payload pack in_range encode to_le
parse_module-module_entry_payload_example =
    parse_module-module_entry_payload same_bytes small_module module_payload (refl, (refl, tt)) refl
      refl

abbrev two_spans : List Span
two_spans = (0x3000, 0x4000) ∷ (0x1000, 0x2000) ∷ (0x2000, 0x2800) ∷ []

coalesce_example : coalesce two_spans ≡ (0x1000, 0x2800) ∷ (0x3000, 0x4000) ∷ []
unfolding coalesce sort_spans insert_span merge_spans
coalesce_example = refl

coalesce-IsApart-covered_example :
    IsApart (coalesce two_spans) × ((x : ℕ) → covered (coalesce two_spans) x ≡ covered two_spans x)
coalesce-IsApart-covered_example = coalesce-IsApart-covered two_spans

find_free_page-IsFree_example :
    (c : ℕ) × (find_free_page two_spans 32 24 ≡ ok c) × IsFree two_spans (2 ^ 32) (page_ceil 24) c
unfolding page_ceil page_floor
find_free_page-IsFree_example =
    find_free_page-IsFree [] ((0x1000, 0x2000) ∷ (0x2000, 0x2800) ∷ []) 0x3000 0x4000 32 24
      (omega arith, (omega arith, (omega arith, tt))) (omega arith)

abbrev code_region : EmuRegion
code_region = record {
  base = 0x1000;
  size = 0x1000;
  protection = 5;
  page_size = 0x1000;
  region_type = 0;
  pages = (0x1000, 0 ∷ []) ∷ [];
}

abbrev toy_image : SliceImage
toy_image = record {
  arch = x86_64;
  os = windows;
  regions = code_region ∷ [];
  threads = [];
  modules = [];
}

abbrev toy_emulator : Emulator Toy (ℕ → ℕ)
toy_emulator =
    record (fresh toy toy_image none
      (record { bits = 64; pc_name = codes "rip"; sp_name = codes "rsp"; gpr_names = [] })) {
        uc = start;
      }

step_back-step_example : IsUndone toy toy_emulator
unfolding reg_const upper
step_back-step_example = step_back-step toy toy-Documented toy_emulator 0 refl (omega arith)

find_caller_frame-IsNearest_example :
    (found : Option CallerFrame) × (find_caller_frame toy toy_emulator (some (0x1000, 0x1800)) 8
      ≡ ok found)
    × IsNearest toy toy_emulator 0x1000 0x1800 0x2000 0 8 found
unfolding reg_const upper
find_caller_frame-IsNearest_example =
    find_caller_frame-IsNearest toy toy_emulator (some (0x1000, 0x1800)) 8 0x1000 0x1800 1 refl refl

abbrev empty_image : SliceImage
empty_image = record { arch = x86_64; os = windows; regions = []; threads = []; modules = [] }

abbrev x86_64_row : ArchRow
x86_64_row = record {
  bits = 64;
  pc_name = (codes "rip");
  sp_name = (codes "rsp");
  gpr_names =
      (codes "rax")
      ∷ (codes "rbx")
      ∷ (codes "rcx")
      ∷ (codes "rdx")
      ∷ (codes "rsi")
      ∷ (codes "rdi")
      ∷ (codes "rbp")
      ∷ (codes "rsp")
      ∷ (codes "r8")
      ∷ (codes "r9")
      ∷ (codes "r10")
      ∷ (codes "r11")
      ∷ (codes "r12")
      ∷ (codes "r13")
      ∷ (codes "r14")
      ∷ (codes "r15")
      ∷ (codes "rip")
      ∷ (codes "rflags")
      ∷ [];
}

abbrev built_emulator : Emulator Toy (ℕ → ℕ)
built_emulator = fresh toy empty_image none x86_64_row

Reachable-IsTracked_example : IsTracked (step_at toy built_emulator 0).1
unfolding new_emulator resolve_thread map_memory coalesce sort_spans map_spans write_regions
    seed_registers arch_row step pc reg_const upper step_at
Reachable-IsTracked_example =
    Reachable-IsTracked toy (step_at toy built_emulator 0).1
      (stepped built_emulator _ _ (built empty_image current _ refl) refl)
