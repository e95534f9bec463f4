-- ===== src/Acquirer/Engine/Counters.antt =====
-- The counters of a capture agree with each other.
use memslicer.Prelude.{
  ℕ, suc, ◌+◌, ◌<◌, ◌≤◌, ◌≡◌, ◌⊎◌, inl, inr, refl, ap, Bool, true, Option, none, some, List, [],
  ◌∷◌, length, Dict, Bool-cases, arith, Result, Exn, ok, err,
}
use memslicer.Bytes.{Bytes}
use memslicer.Utils.{Text, parse_protection, is_rwx}
use memslicer.Msl.Types.{MemoryRegion}
use memslicer.Msl.Host.{Host}
use memslicer.Msl.Writer.{Writer}
use memslicer.Msl.Writer.Methods.{write_memory_region}
use memslicer.Acquirer.RegionFilter.{RegionFilter, SkipReason, skip_reason}
use memslicer.Acquirer.Bridge.{MemoryRange}
use memslicer.Acquirer.Reading.{Target}
use memslicer.Acquirer.Reading.Loaded.{read_region-IsSized}
use memslicer.Acquirer.Engine.{
  Capture, same_reason, add_reason, skip_range, count_region, emit_progress, write_region, written,
  capture_range, capture_ranges, and_then, by_reason,
}

abbrev pub total_of : Dict SkipReason ℕ → ℕ
total_of [] = 0
total_of ((r, n) ∷ d) = n + total_of d

total_of-add_reason :
    (r : SkipReason) (d : Dict SkipReason ℕ) → total_of (add_reason r d) ≡ total_of d + 1
unfolding add_reason
total_of-add_reason r [] = refl
total_of-add_reason r ((j, n) ∷ d) =
    let ih : total_of (add_reason r d) ≡ total_of d + 1 = total_of-add_reason r d in
    elim (Bool-cases (same_reason j r)) [
      | inl e ↦ rw e (omega arith)
      | inr e ↦ rw e (omega (arith, ih))
    ]

-- Each of `n` ranges was captured or skipped, with a reason for each skip, and only captured ranges
-- count as writable and executable.
abbrev pub IsConsistent : ℕ → Capture → Type 0
IsConsistent n c =
    (c.region_count + c.regions_skipped ≡ n)
    × (total_of c.skip_reasons ≡ c.regions_skipped)
    × (c.rwx_regions ≤ c.region_count)

skip_range-IsConsistent :
    (total modules processed n : ℕ) (reason : SkipReason) (c : Capture)
    → IsConsistent n c
    → IsConsistent (n + 1) (skip_range total modules processed reason c)
unfolding skip_range emit_progress
skip_range-IsConsistent total modules processed n reason c (count, reasons, rwx) =
    (omega arith, omega (arith, total_of-add_reason reason c.skip_reasons), rwx)

count_region-IsConsistent :
    (prot n : ℕ) (r : MemoryRegion) (data_size : ℕ) (c : Capture)
    → IsConsistent n c
    → IsConsistent (n + 1) (count_region prot r data_size c)
unfolding count_region
count_region-IsConsistent prot n r data_size c (count, reasons, rwx) =
    elim (Bool-cases (is_rwx prot)) [
      | inl e ↦ rw e (omega arith, reasons, omega arith)
      | inr e ↦ rw e (omega arith, reasons, omega arith)
    ]

-- A step ends with one range more, or with an exception and none more.
abbrev Stepped : ℕ → Result (Unit {0}) × Capture → Type 0
Stepped n out =
    ((out.0 ≡ ok tt) × IsConsistent (n + 1) out.1)
    ⊎ ((e : Exn) × (out.0 ≡ err e) × IsConsistent n out.1)

module _ (host : Host) (target : Target) where
  written-Stepped :
      (total modules processed prot n : ℕ) (r : MemoryRegion) (data_size : ℕ) (c : Capture)
      (out : Result Bytes × Writer)
      → IsConsistent n c
      → Stepped n (written host target total modules processed prot r data_size c out)
  unfolding emit_progress
  written-Stepped total modules processed prot n r data_size c (ok uuid, w) h =
      inl (refl, count_region-IsConsistent prot n r data_size (record c { writer = w }) h)
  written-Stepped total modules processed prot n r data_size c (err e, w) h = inr (e, refl, h)

  module _ {Pattern : Type 0} (search : Pattern → Text → Bool) (filter : RegionFilter Pattern)
      (max_chunk page_size total modules : ℕ) (chunk : 0 < max_chunk) (page : 0 < page_size) where
    by_reason-Stepped :
        (processed prot n : ℕ) (r : MemoryRange) (c : Capture) (reason : Option SkipReason)
        → IsConsistent n c
        → (out : Result (Unit {0}) × Capture) × (by_reason host target search filter max_chunk
              page_size total modules processed prot r c reason
            ≡ some out)
          × Stepped n out
    unfolding write_region
    by_reason-Stepped processed prot n r c (some reason) h = (
      (ok tt, skip_range total modules processed reason c),
      refl,
      inl (refl, skip_range-IsConsistent total modules processed n reason c h),
    )
    by_reason-Stepped processed prot n r c none h =
        let (region, data_size, t, run, _, _, _) =
          read_region-IsSized target max_chunk r.base r.size prot r.file_path page_size c.time chunk
            page in
        let attempted : Capture = record c {
          bytes_attempted = c.bytes_attempted + r.size;
          time = t;
        } in
        (
          write_region host target total modules processed prot r.size (region, data_size, t) c,
          rw run refl,
          written-Stepped total modules processed prot n region data_size attempted
              (write_memory_region host region none c.writer) h,
        )

    -- How far a capture of `length` ranges has come, from `idx` on.
    abbrev pub Ended : ℕ → ℕ → Result (Unit {0}) × Capture → Type 0
    Ended idx count out =
        (n : ℕ) × (n ≤ count)
        × IsConsistent (idx + n) out.1
        × ((n ≡ count) ⊎ ((e : Exn) × (out.0 ≡ err e)) ⊎ ((t : ℕ) × (target.is_aborted t ≡ true)))

    and_then-Ended :
        (next : Capture → Option (Result (Unit {0}) × Capture)) (idx count : ℕ)
        (out : Result (Unit {0}) × Capture)
        → ((c : Capture)
            → IsConsistent (idx + 1) c
            → (out : Result (Unit {0}) × Capture) × (next c ≡ some out) × Ended (idx + 1) count out)
        → Stepped idx out
        → (last : Result (Unit {0}) × Capture) × (and_then next (some out) ≡ some last)
          × Ended idx (suc count) last
    and_then-Ended next idx count (ok u, c) further (inr (e, p, h)) = cc p
    and_then-Ended next idx count (err x, c) further (inl (p, h)) = cc p
    and_then-Ended next idx count (err x, c) further (inr (e, p, (sum, reasons, rwx))) =
        ((err x, c), refl, (0, omega arith, (omega arith, reasons, rwx), inr (inl (x, refl))))
    and_then-Ended next idx count (ok u, c) further (inl (p, h)) =
        let (last, run, (n, le, (sum, reasons, rwx), end)) = further c h in
        (
          last,
          run,
          (
            suc n,
            omega arith,
            (omega arith, reasons, rwx),
            elim end [ inl all ↦ inl (ap suc all) | inr other ↦ inr other ],
          ),
        )

    -- A capture of the ranges from a consistent state ends, in a consistent state. It has come to
    -- the last range, unless the writer raised or the capture was aborted.
    pub capture_ranges-IsConsistent :
        (rs : List MemoryRange) (idx : ℕ) (c : Capture)
        → IsConsistent idx c
        → (out : Result (Unit {0}) × Capture) × (capture_ranges host target search filter max_chunk
              page_size total modules idx rs c
            ≡ some out)
          × Ended idx (length rs) out
    unfolding capture_ranges capture_range emit_progress
    capture_ranges-IsConsistent [] idx c (sum, reasons, rwx) = (
      (ok tt, emit_progress total modules total c),
      refl,
      (0, omega arith, (omega arith, reasons, rwx), inl refl),
    )
    capture_ranges-IsConsistent (r ∷ rs) idx c (sum, reasons, rwx) =
        let asked : Capture = record c { time = c.time + 1 } in
        let prot : ℕ = parse_protection r.protection in
        elim (Bool-cases (target.is_aborted c.time)) [
          | inl stop ↦ (
            (ok tt, emit_progress total modules total asked),
            rw stop refl,
            (0, omega arith, (omega arith, reasons, rwx), inr (inr (c.time, stop))),
          )
          | inr go ↦
              let (out, run, step) =
                by_reason-Stepped (idx + 1) prot idx r asked
                  (skip_reason search filter r.base r.size prot r.file_path) (sum, reasons, rwx) in
              let (last, next, end) =
                and_then-Ended
                  (capture_ranges host target search filter max_chunk page_size total modules
                    (idx + 1) rs)
                  idx (length rs) out (λ c' h. capture_ranges-IsConsistent rs (idx + 1) c' h)
                  step in
              (last, rw (go, run) next, end)
        ]
