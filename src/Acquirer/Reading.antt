-- ===== src/Acquirer/Reading.antt =====
-- memslicer/acquirer/engine.py: how the engine reads a region. The debugger and the abort flag can
-- answer differently each time they are asked: the n-th question of a capture has the time n.
pub mod Shape
pub mod Genuine
pub mod Partly
pub mod Captured
pub mod Loaded
use memslicer.Prelude.{
  ℕ, zero, suc, ◌+◌, ◌-◌, ◌*◌, ◌/◌, Bool, true, false, Option, none, some, List, [], ◌∷◌, ◌++◌,
  length, min, replicate, set, leb, ltb, ◌==◌, if◌then◌else◌,
}
use memslicer.Bytes.{Bytes}
use memslicer.Utils.{Text}
use memslicer.Msl.Constants.{PageState, captured, failed}
use memslicer.Msl.Types.{MemoryRegion}
use memslicer.Acquirer.Ranges.{classify_region}

-- `read_memory` at a time, an address and a size; whether `_abort.is_set()` at a time; `now_ns()`
-- at a time
pub record Target : Type 0 where
  pub read_memory : ℕ → ℕ → ℕ → Option Bytes
  pub is_aborted : ℕ → Bool
  pub now_ns : ℕ → ℕ

-- The states and the data of the pages read, and the number of bytes of the data
pub record Pages : Type 0 where
  pub states : List PageState
  pub chunks : List Bytes
  pub data_size : ℕ

abbrev pub option_map {ℓ κ} : {A : Type ℓ} {B : Type κ} → (A → B) → Option A → Option B
option_map f none = none
option_map f (some a) = some (f a)

-- for pi in range(first, first + n): page_states[pi] = PageState.CAPTURED
unfoldable pub mark_captured : ℕ → ℕ → List PageState → List PageState
mark_captured first zero states = states
mark_captured first (suc n) states = mark_captured (first + 1) n (set states first captured)

-- for pi_off, st in enumerate(fb_states): if pi < num_pages: page_states[pi] = st
unfoldable pub put_pages : ℕ → ℕ → List PageState → List PageState → List PageState
put_pages num_pages first [] states = states
put_pages num_pages first (s ∷ ss) states =
    put_pages num_pages (first + 1) ss (if ltb first num_pages then set states first s else states)

-- What the pages of a chunk that could not be read at once add.
unfoldable pub add_pages : ℕ → ℕ → Pages → Pages → Pages
unfolding put_pages
add_pages num_pages first_page pages fb =
    if ltb 0 fb.data_size
    then record {
      states = put_pages num_pages first_page fb.states pages.states;
      chunks = pages.chunks ++ fb.chunks;
      data_size = pages.data_size + fb.data_size;
    }
    else pages

module _ (target : Target) where
  abbrev or_none : Option Bytes → Pages → Pages
  or_none none rest = record rest { states = failed ∷ rest.states }
  or_none (some b) rest = record {
    states = captured ∷ rest.states;
    chunks = b ∷ rest.chunks;
    data_size = length b + rest.data_size;
  }

  -- for i in range(num_pages): `n` rounds are left, from page i on; the second item is the time.
  unfoldable pub try_pages_from : ℕ → ℕ → ℕ → ℕ → ℕ → ℕ → Pages × ℕ
  try_pages_from base_addr size page_size zero i t =
      (record { states = []; chunks = []; data_size = 0 }, t)
  try_pages_from base_addr size page_size (suc n) i t =
      let read_size = min page_size (size - i * page_size) in
      let (rest, t') = try_pages_from base_addr size page_size n (i + 1) (t + 2) in
      if target.is_aborted t
      then (record { states = replicate (suc n) failed; chunks = []; data_size = 0 }, t + 1)
      else (or_none (target.read_memory (t + 1) (base_addr + i * page_size) read_size) rest, t')

  unfoldable pub try_read_pages : ℕ → ℕ → ℕ → ℕ → Pages × ℕ
  unfolding try_pages_from
  try_read_pages base_addr size page_size t =
      try_pages_from base_addr size page_size ((size + page_size - 1) / page_size) 0 t

  -- What a chunk adds, whose bytes were read or not.
  unfoldable pub add_chunk : ℕ → ℕ → ℕ → ℕ → ℕ → Pages → ℕ → Option Bytes → Pages × ℕ
  unfolding try_read_pages mark_captured add_pages
  add_chunk base_addr page_size num_pages offset chunk_size pages t (some b) =
      let first_page = offset / page_size in
      let chunk_pages = (chunk_size + page_size - 1) / page_size in
      (
        record {
          states =
              mark_captured first_page (min (first_page + chunk_pages) num_pages - first_page)
                pages.states;
          chunks = pages.chunks ++ b ∷ [];
          data_size = pages.data_size + length b;
        },
        t,
      )
  add_chunk base_addr page_size num_pages offset chunk_size pages t none =
      let (fb, t') = try_read_pages (base_addr + offset) chunk_size page_size t in
      (add_pages num_pages (offset / page_size) pages fb, t')

  unfoldable pub read_chunk : ℕ → ℕ → ℕ → ℕ → ℕ → Pages → ℕ → Pages × ℕ
  unfolding add_chunk
  read_chunk base_addr page_size num_pages offset chunk_size pages t =
      add_chunk base_addr page_size num_pages offset chunk_size pages (t + 1)
        (target.read_memory t (base_addr + offset) chunk_size)

  -- while offset < size: `none` where the fuel does not suffice.
  unfoldable pub read_chunks : ℕ → ℕ → ℕ → ℕ → ℕ → ℕ → ℕ → Pages → ℕ → Option (Pages × ℕ)
  unfolding read_chunk
  read_chunks zero max_chunk base_addr size page_size num_pages offset pages t =
      if ltb offset size then none else some (pages, t)
  read_chunks (suc fuel) max_chunk base_addr size page_size num_pages offset pages t =
      let chunk_size = min max_chunk (size - offset) in
      let (pages', t') = read_chunk base_addr page_size num_pages offset chunk_size pages (t + 1) in
      let rest =
        read_chunks fuel max_chunk base_addr size page_size num_pages (offset + chunk_size) pages'
          t' in
      if ltb offset size
      then (if target.is_aborted t then some (pages, t + 1) else rest)
      else some (pages, t)

  -- A region that is read at once, whose bytes were read or not.
  unfoldable pub whole_region : ℕ → ℕ → ℕ → ℕ → ℕ → Option Bytes → Pages × ℕ
  unfolding try_read_pages
  whole_region base_addr size page_size num_pages t (some b) =
      (record { states = replicate num_pages captured; chunks = b ∷ []; data_size = length b }, t)
  whole_region base_addr size page_size num_pages t none = try_read_pages base_addr size page_size t

  -- The states, the data and its size, before the region is made.
  unfoldable pub read_states : ℕ → ℕ → ℕ → ℕ → ℕ → Option (Pages × ℕ)
  unfolding read_chunks whole_region
  read_states max_chunk base_addr size page_size t =
      let num_pages = (size + page_size - 1) / page_size * page_size / page_size in
      let nothing : Pages = record {
        states = replicate num_pages failed;
        chunks = [];
        data_size = 0;
      } in
      if leb size max_chunk
      then some (
          whole_region base_addr size page_size num_pages (t + 1)
            (target.read_memory t base_addr size))
      else read_chunks size max_chunk base_addr size page_size num_pages 0 nothing t

  -- _read_region: the region, the size of its data, and the time
  unfoldable pub make_region : ℕ → ℕ → ℕ → Text → ℕ → Pages × ℕ → MemoryRegion × ℕ × ℕ
  unfolding classify_region
  make_region base_addr size protection file_path page_size (pages, t) = (
    record {
      base_addr = base_addr;
      region_size = (size + page_size - 1) / page_size * page_size;
      protection = protection;
      region_type = classify_region file_path;
      page_size = page_size;
      timestamp_ns = target.now_ns t;
      page_states = pages.states;
      page_data_chunks = pages.chunks;
    },
    pages.data_size,
    t + 1,
  )

  unfoldable pub read_region : ℕ → ℕ → ℕ → ℕ → Text → ℕ → ℕ → Option (MemoryRegion × ℕ × ℕ)
  unfolding read_states make_region
  read_region max_chunk base_addr size protection file_path page_size t =
      option_map (make_region base_addr size protection file_path page_size)
        (read_states max_chunk base_addr size page_size t)
