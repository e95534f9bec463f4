-- ===== src/Acquirer/Tests.antt =====
-- The theorems on the acquisition at concrete inputs.
mod Details
use memslicer.Prelude.{
  ◌==◌, ℕ, ◌+◌, ◌*◌, ◌/◌, ◌%◌, ◌^◌, ◌≡◌, ◌↔◌, ◌⊎◌, inl, inr, refl, Bool, true, false, Option, none,
  some, List, [], ◌∷◌, ◌++◌, length, concat, ltb, if◌then◌else◌, Bool-cases, arith, Result, ok,
}
use memslicer.Bytes.{Bytes, pack, in_range, encode, to_le, fixed}
use memslicer.Utils.{Text}
use memslicer.Msl.Constants.{captured, failed, image, arm64, x86_64}
use memslicer.Msl.Types.{MemoryRegion}
use memslicer.Msl.Payload.{region_payload, put_state}
use memslicer.Msl.Tests.{plain_host, linux_writer}
use memslicer.Emu.Loader.{EmuRegion, parse_region, normalise}
use memslicer.Emu.Loader.Captured.{captured_pages}
use memslicer.Acquirer.RegionFilter.{RegionFilter, matches}
use memslicer.Utils.Rights.{rights}
use memslicer.Acquirer.RegionFilter.{SkipReason, skip_reason}
use memslicer.Acquirer.RegionFilter.Settings.{Meets}
use memslicer.Acquirer.RegionFilter.Laws.{IsAnswer, skip_reason-IsAnswer}
use memslicer.Acquirer.Bridge.{MemoryRange, ThreadInfo, canonical_register_name}
use memslicer.Acquirer.Bridge.Laws.{canonical_register_name_idem, normalise-canonical_register_name}
use memslicer.Acquirer.Ranges.{sort_ranges}
use memslicer.Acquirer.Reading.{Target, read_region}
use memslicer.Acquirer.Reading.Genuine.{bytes_at}
use memslicer.Acquirer.Reading.Partly.{Reads}
use memslicer.Acquirer.Reading.Loaded.{AreOf, read_region-IsSized, parse_region-read_region}
use memslicer.Acquirer.Engine.{Capture, capture_ranges}
use memslicer.Acquirer.Engine.Counters.{Ended, capture_ranges-IsConsistent}
use memslicer.Acquirer.Threads.{build_thread_contexts, with_registers}
use memslicer.Acquirer.Threads.Current.{count_marked, build_thread_contexts-count_marked}
use memslicer.Acquirer.ElfNotes.{strip_nul, Note, parse_elf_notes, extract_build_id}
use memslicer.Acquirer.Projections.{hex_to_bytes}
use memslicer.Acquirer.Projections.Laws.{to_hex, hex_to_bytes-to_hex}
use memslicer.Acquirer.ElfNotes.Laws.{extract_build_id-eq-ok}
use memslicer.Acquirer.ElfNotes.RoundTrip.{put_notes, parse_elf_notes-put_notes}

abbrev mem : ℕ → ℕ
mem a = a % 256

-- A debugger that cannot read the first page of 1,024 bytes.
abbrev half_readable : Target
half_readable = record {
  read_memory = λ t a n. if ltb a 1024 then none else some (bytes_at mem a n);
  is_aborted = λ t. false;
  now_ns = λ t. 1000 + t;
}

half_readable-Reads : Reads half_readable mem
half_readable-Reads t a n b e = elim (Bool-cases (ltb a 1024)) [
  | inl low ↦ cc (rw low at e)
  | inr high ↦ cc (rw high at e)
]

abbrev library_path : Text
library_path = (b'/' ∷ b'l' ∷ b'.' ∷ b's' ∷ b'o' ∷ [])

-- The first page fails, and the second is captured.
two_pages :
    (r : MemoryRegion) × (n : ℕ) × (t' : ℕ) × (read_region half_readable 1024 0 2048 5 library_path
        1024 0
      ≡ some (r, n, t'))
    × (r.page_states ≡ failed ∷ captured ∷ [])
unfolding read_region
two_pages = (_, _, _, refl, refl)

read_region-IsSized_example :
    (r : MemoryRegion) × (n : ℕ) × (t' : ℕ) × (read_region half_readable 1024 1024 1500 5
        library_path 1024 0
      ≡ some (r, n, t'))
    × (length r.page_states ≡ r.region_size / 1024)
    × (r.region_size % 1024 ≡ 0)
    × (n ≡ length (concat r.page_data_chunks))
read_region-IsSized_example =
    read_region-IsSized half_readable 1024 1024 1500 5 library_path 1024 0 (omega arith)
      (omega arith)

-- What `half_readable` gives for its first two pages, and its payload.
abbrev half_region : MemoryRegion
half_region = record {
  base_addr = 0;
  region_size = 2048;
  protection = 5;
  region_type = image;
  page_size = 1024;
  timestamp_ns = 1006;
  page_states = failed ∷ captured ∷ [];
  page_data_chunks = bytes_at mem 1024 1024 ∷ [];
}

abbrev half_payload : Bytes
half_payload =
    0
    ∷ 0
    ∷ 0
    ∷ 0
    ∷ 0
    ∷ 0
    ∷ 0
    ∷ 0
    ∷ 0
    ∷ 8
    ∷ 0
    ∷ 0
    ∷ 0
    ∷ 0
    ∷ 0
    ∷ 0
    ∷ 5
    ∷ 3
    ∷ 10
    ∷ 0
    ∷ 0
    ∷ 0
    ∷ 0
    ∷ 0
    ∷ 238
    ∷ 3
    ∷ 0
    ∷ 0
    ∷ 0
    ∷ 0
    ∷ 0
    ∷ 0
    ∷ 64
    ∷ 0
    ∷ 0
    ∷ 0
    ∷ 0
    ∷ 0
    ∷ 0
    ∷ 0
    ∷ bytes_at mem 1024 1024

parse_region-read_region_example :
    (e : EmuRegion) × (parse_region (half_payload ++ 0 ∷ []) ≡ ok e)
    × (e.base ≡ 0)
    × (e.size ≡ 2 * 2 ^ 10)
    × AreOf mem (2 ^ 10) e.pages
unfolding read_region region_payload pack in_range encode to_le fixed put_state
parse_region-read_region_example =
    parse_region-read_region half_readable mem 10 1 0 2 5 library_path 0 half_region 1024 7
      half_payload (0 ∷ []) half_readable-Reads (omega arith) refl refl

abbrev any_text : ℕ → Text → Bool
any_text pattern path = true

abbrev readable_filter : RegionFilter ℕ
readable_filter = record {
  addr_ranges = (0, 4096) ∷ [];
  min_prot = 1;
  includes = [];
  excludes = [];
  skip_no_read = true;
  max_region_size = 0;
}

skip_reason-IsAnswer_example :
    IsAnswer any_text readable_filter 1024 2048 true false true library_path true false false
      (skip_reason any_text readable_filter 1024 2048 (rights true false true) library_path)
    × ((matches any_text readable_filter 1024 2048 (rights true false true) library_path ≡ true) ↔ (
        (why : SkipReason)
        → Meets any_text readable_filter 1024 2048 true false true library_path true false false
            why))
skip_reason-IsAnswer_example =
    skip_reason-IsAnswer any_text readable_filter 1024 2048 true false true library_path true false
      false refl (omega arith) (omega arith, tt)

normalise-canonical_register_name_example :
    normalise (canonical_register_name (b'L' ∷ b'R' ∷ []) arm64)
    ≡ canonical_register_name (b'L' ∷ b'R' ∷ []) arm64
normalise-canonical_register_name_example = normalise-canonical_register_name (b'L' ∷ b'R' ∷ [])

abbrev two_ranges : List MemoryRange
two_ranges =
    (record {
      base = 4096;
      size = 1024;
      protection = (b'r' ∷ b'-' ∷ b'x' ∷ []);
      file_path = library_path;
    })
    ∷ (record { base = 8192; size = 1024; protection = (b'r' ∷ b'w' ∷ b'-' ∷ []); file_path = [] })
    ∷ []

writable_first :
    sort_ranges two_ranges
    ≡ (record { base = 8192; size = 1024; protection = (b'r' ∷ b'w' ∷ b'-' ∷ []); file_path = [] })
      ∷ (record {
        base = 4096;
        size = 1024;
        protection = (b'r' ∷ b'-' ∷ b'x' ∷ []);
        file_path = library_path;
      })
      ∷ []
unfolding sort_ranges
writable_first = refl

abbrev fresh_capture : Capture
fresh_capture = record {
  region_count = 0;
  bytes_captured = 0;
  regions_skipped = 0;
  rwx_regions = 0;
  bytes_attempted = 0;
  pages_captured = 0;
  pages_failed = 0;
  skip_reasons = [];
  progress = [];
  writer = linux_writer;
  time = 0;
}

capture_ranges-IsConsistent_example :
    (out : Result (Unit {0}) × Capture) × (capture_ranges plain_host half_readable any_text
        readable_filter 1024 1024 2 0 0 two_ranges fresh_capture
      ≡ some out)
    × Ended plain_host half_readable any_text readable_filter 1024 1024 2 0
        (omega arith)
        (omega arith)
        0
        (length two_ranges)
        out
capture_ranges-IsConsistent_example =
    capture_ranges-IsConsistent plain_host half_readable any_text readable_filter 1024 1024 2 0
      (omega arith) (omega arith) two_ranges 0 fresh_capture (omega arith, refl, omega arith)

abbrev two_threads : List ThreadInfo
two_threads =
    (record {
      tid = 1;
      registers = [];
      name = [];
      is_current = true;
      state = 3;
      suspended = true;
      partial = false;
    })
    ∷ (record {
      tid = 2;
      registers =
          (record {
            name = (b'r' ∷ b'i' ∷ b'p' ∷ []);
            value = 4096;
            size = 8;
            role = (b'p' ∷ b'c' ∷ []);
          })
          ∷ [];
      name = [];
      is_current = false;
      state = 3;
      suspended = true;
      partial = false;
    })
    ∷ []

build_thread_contexts-count_marked_example :
    (with_registers (build_thread_contexts two_threads) ≡ [])
    ⊎ (count_marked (with_registers (build_thread_contexts two_threads)) ≡ 1)
build_thread_contexts-count_marked_example =
    build_thread_contexts-count_marked two_threads (omega arith)

abbrev same_bytes : Bytes → Text
same_bytes b = b

abbrev build_id_note : Note
build_id_note = record { name = (b'G' ∷ b'N' ∷ b'U' ∷ []); type = 3; desc = 0xAB ∷ 0xCD ∷ [] }

extract_build_id-eq-ok_example :
    (found : Option Bytes) × (extract_build_id same_bytes (0x7f ∷ (b'E' ∷ b'L' ∷ b'F' ∷ []))
      ≡ ok found)
extract_build_id-eq-ok_example =
    extract_build_id-eq-ok same_bytes (0x7f ∷ (b'E' ∷ b'L' ∷ b'F' ∷ []))

parse_elf_notes-put_notes_example :
    parse_elf_notes same_bytes (put_notes false (build_id_note ∷ build_id_note ∷ [])) false
    ≡ build_id_note ∷ build_id_note ∷ []
unfolding strip_nul
parse_elf_notes-put_notes_example =
    parse_elf_notes-put_notes same_bytes false (build_id_note ∷ build_id_note ∷ []) (
      (omega arith, omega arith, omega arith, refl),
      ((omega arith, omega arith, omega arith, refl), tt),
    )

abbrev short_hash : Bytes
short_hash = 0xAB ∷ 7 ∷ []

hex_to_bytes-to_hex_example :
    (hex_to_bytes (to_hex short_hash) none ≡ short_hash)
    × (hex_to_bytes (to_hex short_hash) (some 32)
        ≡ (if length short_hash == 32 then short_hash else []))
hex_to_bytes-to_hex_example = hex_to_bytes-to_hex short_hash 32 (omega arith, (omega arith, tt))
