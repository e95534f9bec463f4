-- ===== src/Acquirer/Engine.antt =====
-- memslicer/acquirer/engine.py: the loop over the memory ranges in `AcquisitionEngine.acquire`, with
-- its counters, and the test read before it. `search` is what a compiled pattern finds, `target` the
-- debugger and the abort flag.
pub mod Counters
use memslicer.Prelude.{
  ℕ, ◌+◌, ◌-◌, ◌*◌, Bool, true, false, not, Option, none, some, List, [], ◌∷◌, ◌++◌, length, min,
  bit_and, ltb, ◌==◌, Dict, dict_get, dict_put, if◌then◌else◌, Result, ok, err,
}
use memslicer.Bytes.{Bytes}
use memslicer.Utils.{Text, parse_protection, is_rwx, prot_r}
use memslicer.Msl.Constants.{PageState, captured, failed, unmapped}
use memslicer.Msl.Types.{MemoryRegion}
use memslicer.Msl.Host.{Host}
use memslicer.Msl.Writer.{Writer}
use memslicer.Msl.Writer.Methods.{write_memory_region}
use memslicer.Acquirer.RegionFilter.{
  RegionFilter, SkipReason, no_read, max_size, min_prot, addr_range, path_include, path_exclude,
  skip_reason,
}
use memslicer.Acquirer.Bridge.{MemoryRange}
use memslicer.Acquirer.Reading.{Target, read_region}

unfoldable pub same_reason : SkipReason → SkipReason → Bool
same_reason no_read no_read = true
same_reason max_size max_size = true
same_reason min_prot min_prot = true
same_reason addr_range addr_range = true
same_reason path_include path_include = true
same_reason path_exclude path_exclude = true
same_reason _ _ = false

-- The five numbers of one call of the progress callback
pub record Progress : Type 0 where
  pub regions_captured : ℕ
  pub total_ranges : ℕ
  pub bytes_captured : ℕ
  pub modules_captured : ℕ
  pub regions_processed : ℕ

-- The counters of `acquire`, the calls of the progress callback, the writer and the time
pub record Capture : Type 0 where
  pub region_count : ℕ
  pub bytes_captured : ℕ
  pub regions_skipped : ℕ
  pub rwx_regions : ℕ
  pub bytes_attempted : ℕ
  pub pages_captured : ℕ
  pub pages_failed : ℕ
  pub skip_reasons : Dict SkipReason ℕ
  pub progress : List Progress
  pub writer : Writer
  pub time : ℕ

-- region.page_states.count(PageState.CAPTURED)
unfoldable pub count_captured : List PageState → ℕ
count_captured [] = 0
count_captured (captured ∷ ss) = 1 + count_captured ss
count_captured (failed ∷ ss) = count_captured ss
count_captured (unmapped ∷ ss) = count_captured ss

abbrev or_zero : Option ℕ → ℕ
or_zero none = 0
or_zero (some n) = n

-- skip_reasons[reason] = skip_reasons.get(reason, 0) + 1
unfoldable pub add_reason : SkipReason → Dict SkipReason ℕ → Dict SkipReason ℕ
unfolding same_reason
add_reason reason d = dict_put same_reason d reason (or_zero (dict_get same_reason d reason) + 1)

unfoldable pub emit_progress : ℕ → ℕ → ℕ → Capture → Capture
emit_progress total_ranges modules processed c = record c {
  progress =
      c.progress
      ++ record {
        regions_captured = c.region_count;
        total_ranges = total_ranges;
        bytes_captured = c.bytes_captured;
        modules_captured = modules;
        regions_processed = processed;
      }
        ∷ [];
}

-- A range that the filter skips
unfoldable pub skip_range : ℕ → ℕ → ℕ → SkipReason → Capture → Capture
unfolding add_reason emit_progress
skip_range total_ranges modules processed reason c =
    emit_progress total_ranges modules processed (record c {
      regions_skipped = c.regions_skipped + 1;
      skip_reasons = add_reason reason c.skip_reasons;
    })

-- What a region that was written adds to the counters.
unfoldable pub count_region : ℕ → MemoryRegion → ℕ → Capture → Capture
unfolding count_captured is_rwx
count_region prot region data_size c =
    let captured_count = count_captured region.page_states in
    record c {
      region_count = c.region_count + 1;
      bytes_captured = c.bytes_captured + data_size;
      pages_captured = c.pages_captured + captured_count;
      pages_failed = c.pages_failed + (length region.page_states - captured_count);
      rwx_regions = if is_rwx prot then c.rwx_regions + 1 else c.rwx_regions;
    }

-- The rest of the loop, unless a range raised.
abbrev pub and_then :
    (Capture → Option (Result (Unit {0}) × Capture))
    → Option (Result (Unit {0}) × Capture)
    → Option (Result (Unit {0}) × Capture)
and_then next none = none
and_then next (some (err e, c)) = some (err e, c)
and_then next (some (ok u, c)) = next c

module _ (host : Host) (target : Target) where
  -- The region is written; an exception of the writer ends the loop.
  abbrev written :
      ℕ
      → ℕ
      → ℕ
      → ℕ
      → MemoryRegion
      → ℕ
      → Capture
      → Result Bytes × Writer
      → Result (Unit {0}) × Capture
  written total_ranges modules processed prot region data_size c (ok uuid, w) = (
    ok tt,
    emit_progress total_ranges modules processed
        (count_region prot region data_size (record c { writer = w })),
  )
  written total_ranges modules processed prot region data_size c (err e, w) =
      (err e, record c { writer = w })

  unfoldable pub write_region :
      ℕ → ℕ → ℕ → ℕ → ℕ → MemoryRegion × ℕ × ℕ → Capture → Result (Unit {0}) × Capture
  unfolding write_memory_region emit_progress count_region
  write_region total_ranges modules processed prot size (region, data_size, t) c =
      let attempted = record c { bytes_attempted = c.bytes_attempted + size; time = t } in
      written total_ranges modules processed prot region data_size attempted
        (write_memory_region host region none c.writer)

  module _ {Pattern : Type 0} (search : Pattern → Text → Bool) (filter : RegionFilter Pattern)
      (max_chunk page_size total_ranges modules : ℕ) where
    abbrev read_and_write :
        ℕ → ℕ → ℕ → Capture → Option (MemoryRegion × ℕ × ℕ) → Option (Result (Unit {0}) × Capture)
    read_and_write processed prot size c none = none
    read_and_write processed prot size c (some read) =
        some (write_region total_ranges modules processed prot size read c)

    abbrev by_reason :
        ℕ → ℕ → MemoryRange → Capture → Option SkipReason → Option (Result (Unit {0}) × Capture)
    by_reason processed prot r c (some reason) =
        some (ok tt, skip_range total_ranges modules processed reason c)
    by_reason processed prot r c none =
        read_and_write processed prot r.size c
          (read_region target max_chunk r.base r.size prot r.file_path page_size c.time)

    -- One range; `none` stands for a read that does not end.
    unfoldable pub capture_range : ℕ → MemoryRange → Capture → Option (Result (Unit {0}) × Capture)
    unfolding parse_protection skip_reason skip_range read_region write_region
    capture_range processed r c =
        let prot = parse_protection r.protection in
        by_reason processed prot r c (skip_reason search filter r.base r.size prot r.file_path)

    -- for idx, r in enumerate(ranges), and the last call of the callback
    unfoldable pub capture_ranges :
        ℕ → List MemoryRange → Capture → Option (Result (Unit {0}) × Capture)
    unfolding capture_range emit_progress
    capture_ranges idx [] c = some (ok tt, emit_progress total_ranges modules total_ranges c)
    capture_ranges idx (r ∷ rs) c =
        let asked = record c { time = c.time + 1 } in
        let rest = and_then (capture_ranges (idx + 1) rs) (capture_range (idx + 1) r asked) in
        if target.is_aborted c.time
        then some (ok tt, emit_progress total_ranges modules total_ranges asked)
        else rest

-- _perform_startup_test_read: the read that is tried, if any
unfoldable pub startup_test_read : List MemoryRange → ℕ → Option (ℕ × ℕ)
unfolding parse_protection
startup_test_read [] page_size = none
startup_test_read (r ∷ rs) page_size =
    if bit_and (parse_protection r.protection) prot_r == 0
    then startup_test_read rs page_size
    else if ltb (page_size * 4) r.size
    then startup_test_read rs page_size
    else some (r.base, min r.size page_size)
