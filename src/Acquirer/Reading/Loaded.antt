-- ===== src/Acquirer/Reading/Loaded.antt =====
-- From the memory of the target to the pages that the loader makes of a slice.
use memslicer.Prelude.{
  ℕ, ◌+◌, ◌-◌, ◌*◌, ◌/◌, ◌%◌, ◌^◌, ◌<◌, ◌≡◌, refl, sym, ap, ◌∙◌, some, List, ◌++◌, length, concat,
  arith, All, ok,
}
use memslicer.Bytes.{Bytes}
use memslicer.Utils.{Text}
use mathlib.Core.Path.{subst}
use memslicer.Msl.Types.{MemoryRegion}
use memslicer.Msl.Payload.{region_payload}
use memslicer.Emu.Loader.{EmuRegion, parse_region}
use memslicer.Emu.Loader.Regions.{parse_region-region_payload, loaded_region, pow-pos}
use memslicer.Emu.Loader.Captured.{captured_pages}
use memslicer.Acquirer.Reading.{Target, read_region, make_region}
use memslicer.Acquirer.Reading.Shape.{read_states-IsSized}
use memslicer.Acquirer.Reading.Genuine.{bytes_at, Genuine, captured_pages-Genuine}
use memslicer.Acquirer.Reading.Captured.{read_states-Genuine}
use memslicer.Acquirer.Reading.Partly.{whole_pages, Reads}
use native.Mathlib.Nat.{mul-div_cancel, mul-mod_left}

-- The addresses and the bytes of pages are those of a memory.
abbrev pub AreOf : (ℕ → ℕ) → ℕ → List (ℕ × Bytes) → Type 0
AreOf mem page_size pages = All (λ page. page.1 ≡ bytes_at mem page.0 page_size) pages

-- Whatever the debugger and the abort flag answer, a region is read to its end: with a positive
-- chunk size and a positive page size there is a region, its size is a whole number of pages, it
-- has a state for each page, and the number of bytes counted is that of its data.
pub read_region-IsSized :
    (target : Target) (max_chunk base size prot : ℕ) (path : Text) (page_size t : ℕ)
    → 0 < max_chunk
    → 0 < page_size
    → (r : MemoryRegion) × (n : ℕ) × (t' : ℕ) × (read_region target max_chunk base size prot path
          page_size t
        ≡ some (r, n, t'))
      × (length r.page_states ≡ r.region_size / page_size)
      × (r.region_size % page_size ≡ 0)
      × (n ≡ length (concat r.page_data_chunks))
unfolding read_region make_region
read_region-IsSized target max_chunk base size prot path page_size t chunk page =
    let ((pages, t'), run, sized) =
      read_states-IsSized target max_chunk base size page_size t chunk page in
    let pieces : ℕ = (size + page_size - 1) / page_size in
    let (r, n, t2) = make_region target base size prot path page_size (pages, t') in
    (
      r,
      n,
      t2,
      rw run refl,
      sized.0 ∙ sym (mul-div_cancel pieces page),
      mul-mod_left pieces page_size,
      sized.1,
    )

-- A debugger that returns the bytes of a memory, or fails, page by page or at all, whenever it is
-- asked: of a region of whole pages, read in chunks of whole pages, each page that is captured has
-- the bytes of the memory at its address, whatever stands behind the data.
read_region-AreOf :
    (target : Target) (mem : ℕ → ℕ) (page_size c base num prot : ℕ) (path : Text) (t : ℕ)
    (rest : Bytes)
    → Reads target mem
    → 0 < page_size
    → 0 < c
    → (r : MemoryRegion) × (n : ℕ) × (t' : ℕ) × (read_region target
          (c * page_size)
          base
          (num * page_size)
          prot
          path
          page_size
          t
        ≡ some (r, n, t'))
      × (length r.page_states ≡ num)
      × (r.base_addr ≡ base)
      × (r.region_size ≡ num * page_size)
      × (r.page_size ≡ page_size)
      × AreOf mem page_size
          (captured_pages base page_size 0 r.page_states (concat r.page_data_chunks ++ rest))
unfolding read_region make_region
read_region-AreOf target mem page_size c base num prot path t rest reads page chunk =
    let ((pages, t'), run, count, g) =
      read_states-Genuine target mem reads page_size page c base num t chunk in
    let (r, n, t2) = make_region target base (num * page_size) prot path page_size (pages, t') in
    let at : Genuine mem page_size (base + 0 * page_size) pages.states (concat pages.chunks) =
      subst (λ (a : ℕ). Genuine mem page_size a pages.states (concat pages.chunks)) (omega arith)
        g in
    (
      r,
      n,
      t2,
      rw run refl,
      count,
      refl,
      ap (λ (i : ℕ). i * page_size) (whole_pages num page_size page),
      refl,
      captured_pages-Genuine mem page_size base 0 pages.states (concat pages.chunks) rest at,
    )

-- The bytes of the memory come back from the slice: the payload that the writer packs for a region
-- that was read so, with pages of 2 ^ k bytes, is loaded as a region of the same place whose pages
-- have the bytes of the memory at their addresses.
pub parse_region-read_region :
    (target : Target) (mem : ℕ → ℕ) (k c base num prot : ℕ) (path : Text) (t : ℕ) (r : MemoryRegion)
    (n t' : ℕ) (p rest : Bytes)
    → Reads target mem
    → 0 < c
    → read_region target (c * 2 ^ k) base (num * 2 ^ k) prot path (2 ^ k) t ≡ some (r, n, t')
    → region_payload r ≡ ok p
    → (e : EmuRegion) × (parse_region (p ++ rest) ≡ ok e)
      × (e.base ≡ base)
      × (e.size ≡ num * 2 ^ k)
      × AreOf mem (2 ^ k) e.pages
parse_region-read_region target mem k c base num prot path t r n t' p rest reads chunk run packed =
    let (r0, n0, t0, run0, _, at, size, power, pages) =
      read_region-AreOf target mem (2 ^ k) c base num prot path t rest reads (pow-pos k) chunk in
    let same : r0 ≡ r = cc (run0, run) in
    (
      loaded_region r k rest,
      parse_region-region_payload r k p rest
          (ap (λ (m : MemoryRegion). m.page_size) (sym same) ∙ power) packed,
      ap (λ (m : MemoryRegion). m.base_addr) (sym same) ∙ at,
      ap (λ (m : MemoryRegion). m.region_size) (sym same) ∙ size,
      subst
          (λ (m : MemoryRegion). AreOf mem (2 ^ k) (
            captured_pages m.base_addr (2 ^ k) 0 m.page_states (concat m.page_data_chunks ++ rest)))
          same
          (subst
            (λ (a : ℕ).
              AreOf mem (2 ^ k)
                (captured_pages a (2 ^ k) 0 r0.page_states (concat r0.page_data_chunks ++ rest)))
            (sym at) pages),
    )
