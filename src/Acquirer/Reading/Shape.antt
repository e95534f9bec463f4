-- ===== src/Acquirer/Reading/Shape.antt =====
-- The number of pages and bytes that reading a region ends with.
use memslicer.Prelude.{
  ℕ, zero, suc, ◌+◌, ◌-◌, ◌*◌, ◌/◌, ◌<◌, ◌≤◌, ◌≡◌, refl, sym, ap, ◌∙◌, false, Option, none, some,
  List, [], ◌∷◌, ◌++◌, length, min, replicate, set, leb, ltb, concat, arith, length-replicate,
  length-set, length-append, Bool-cases, Option-cases, inl, inr, append_assoc, append-nil,
}
use memslicer.Bytes.{Bytes}
use native.Mathlib.Nat.{mul-div_cancel}
use memslicer.Msl.Constants.{PageState, captured, failed}
use memslicer.Acquirer.Reading.{
  Target, Pages, try_pages_from, try_read_pages, mark_captured, put_pages, add_pages, add_chunk,
  read_chunk, whole_region, read_chunks, read_states,
}

pub concat-append : (a b : List Bytes) → concat (a ++ b) ≡ concat a ++ concat b
concat-append [] b = refl
concat-append (x ∷ a) b =
    ap (λ (t : Bytes). x ++ t) (concat-append a b) ∙ sym (append_assoc x (concat a) (concat b))

-- Pages for each of `n` places, with the size of their data.
abbrev pub IsSized : ℕ → Pages → Type 0
IsSized n pages = (length pages.states ≡ n) × (pages.data_size ≡ length (concat pages.chunks))

length-mark_captured :
    (first n : ℕ) (states : List PageState) → length (mark_captured first n states) ≡ length states
unfolding mark_captured
length-mark_captured first zero states = refl
length-mark_captured first (suc n) states =
    length-mark_captured (first + 1) n (set states first captured)
    ∙ length-set states first captured

length-put_pages :
    (num_pages first : ℕ) (ss states : List PageState)
    → length (put_pages num_pages first ss states) ≡ length states
unfolding put_pages
length-put_pages num_pages first [] states = refl
length-put_pages num_pages first (s ∷ ss) states =
    let ih = length-put_pages num_pages (first + 1) ss in
    elim (Bool-cases (ltb first num_pages)) [
      | inl e ↦ rw e (ih (set states first s) ∙ length-set states first s)
      | inr e ↦ rw e (ih states)
    ]

-- Two sized pieces of data, one behind the other.
sized-append :
    (n m : ℕ) (a b : List Bytes)
    → n ≡ length (concat a)
    → m ≡ length (concat b)
    → n + m ≡ length (concat (a ++ b))
sized-append n m a b hn hm =
    omega (arith, hn, hm, length-append (concat a) (concat b)) ∙ sym (ap length (concat-append a b))

module _ (target : Target) where
  pub try_pages_from-IsSized :
      (base size page_size n i t : ℕ)
      → IsSized n (try_pages_from target base size page_size n i t).0
  unfolding try_pages_from
  try_pages_from-IsSized base size page_size zero i t = (refl, refl)
  try_pages_from-IsSized base size page_size (suc n) i t =
      let (count, bytes) = try_pages_from-IsSized base size page_size n (i + 1) (t + 2) in
      elim (Bool-cases (target.is_aborted t)) [
        | inl e ↦ rw e (ap suc (length-replicate n failed), refl)
        | inr e ↦
            elim (Option-cases (
              target.read_memory (t + 1) (base + i * page_size)
                (min page_size (size - i * page_size)))) [
                  | inl missing ↦ rw (e, missing) (ap suc count, bytes)
                  | inr (b, found) ↦
                      rw (e, found)
                        (
                          ap suc count,
                          ap (λ (s : ℕ). length b + s) bytes
                              ∙ sym (
                                  length-append b (
                                    concat
                                      (try_pages_from target base size page_size n (i + 1)
                                        (t + 2)).0.chunks)),
                        )
                ]
      ]

  add_pages-IsSized :
      (num_pages first n m : ℕ) (pages fb : Pages)
      → IsSized n pages
      → IsSized m fb
      → IsSized n (add_pages num_pages first pages fb)
  unfolding add_pages
  add_pages-IsSized num_pages first n m pages fb (count, bytes) (_, sized) =
      elim (Bool-cases (ltb 0 fb.data_size)) [
        | inl some_data ↦ rw some_data (
          length-put_pages num_pages first fb.states pages.states ∙ count,
          sized-append pages.data_size fb.data_size pages.chunks fb.chunks bytes sized,
        )
        | inr no_data ↦ rw no_data (count, bytes)
      ]

  add_chunk-IsSized :
      (base page_size num_pages offset chunk_size n : ℕ) (pages : Pages) (t : ℕ)
      (read : Option Bytes)
      → IsSized n pages
      → IsSized n (add_chunk target base page_size num_pages offset chunk_size pages t read).0
  unfolding add_chunk try_read_pages
  add_chunk-IsSized base page_size num_pages offset chunk_size n pages t (some b) (count, bytes) =
      let first : ℕ = offset / page_size in
      let k : ℕ = (chunk_size + page_size - 1) / page_size in
      (
        length-mark_captured first (min (first + k) num_pages - first) pages.states ∙ count,
        sized-append pages.data_size (length b) pages.chunks (b ∷ []) bytes
            (ap length (sym (append-nil b))),
      )
  add_chunk-IsSized base page_size num_pages offset chunk_size n pages t none h =
      let k : ℕ = (chunk_size + page_size - 1) / page_size in
      add_pages-IsSized num_pages (offset / page_size) n k pages
        (try_pages_from target (base + offset) chunk_size page_size k 0 t).0 h
        (try_pages_from-IsSized (base + offset) chunk_size page_size k 0 t)

  -- With a positive size for chunks and fuel for each byte that is left, the loop ends.
  read_chunks-IsSized :
      (fuel max_chunk base size page_size num_pages offset n : ℕ) (pages : Pages) (t : ℕ)
      → 0 < max_chunk
      → size ≤ offset + fuel
      → IsSized n pages
      → (done : Pages × ℕ) × (read_chunks target fuel max_chunk base size page_size num_pages offset
            pages t
          ≡ some done)
        × IsSized n done.0
  unfolding read_chunks read_chunk
  read_chunks-IsSized zero max_chunk base size page_size num_pages offset n pages t pos enough h =
      let over : ltb offset size ≡ false = ground arith in ((pages, t), rw over refl, h)
  read_chunks-IsSized (suc fuel) max_chunk base size page_size num_pages offset n pages t pos enough
        h =
      let chunk : ℕ = min max_chunk (size - offset) in
      let next = read_chunk target base page_size num_pages offset chunk pages (t + 1) in
      elim (Bool-cases (ltb offset size)) [
        | inr over ↦ ((pages, t), rw over refl, h)
        | inl under ↦ elim (Bool-cases (target.is_aborted t)) [
          | inl stop ↦ ((pages, t + 1), rw (under, stop) refl, h)
          | inr go ↦
              let (done, run, sized) =
                read_chunks-IsSized fuel max_chunk base size page_size num_pages (offset + chunk) n
                  next.0 next.1 pos (ground arith)
                  (add_chunk-IsSized base page_size num_pages offset chunk n pages (t + 1 + 1)
                    (target.read_memory (t + 1) (base + offset) chunk) h) in
              (done, rw (under, go) run, sized)
        ]
      ]

  whole_region-IsSized :
      (base size page_size t : ℕ) (read : Option Bytes)
      → IsSized
          ((size + page_size - 1) / page_size)
          (whole_region target base size page_size ((size + page_size - 1) / page_size) t read).0
  unfolding whole_region try_read_pages
  whole_region-IsSized base size page_size t none =
      try_pages_from-IsSized base size page_size ((size + page_size - 1) / page_size) 0 t
  whole_region-IsSized base size page_size t (some b) = (
    length-replicate ((size + page_size - 1) / page_size) captured,
    ap length (sym (append-nil b)),
  )

  -- However the debugger and the abort flag answer, reading ends, with a state for each page.
  pub read_states-IsSized :
      (max_chunk base size page_size t : ℕ)
      → 0 < max_chunk
      → 0 < page_size
      → (done : Pages × ℕ) × (read_states target max_chunk base size page_size t ≡ some done)
        × IsSized ((size + page_size - 1) / page_size) done.0
  unfolding read_states
  read_states-IsSized max_chunk base size page_size t pos page =
      let n : ℕ = (size + page_size - 1) / page_size in
      let same : n * page_size / page_size ≡ n = mul-div_cancel n page in
      let read = target.read_memory t base size in
      elim (Bool-cases (leb size max_chunk)) [
        | inl small ↦ (
          whole_region target base size page_size n (t + 1) read,
          rw (small, same) refl,
          whole_region-IsSized base size page_size (t + 1) read,
        )
        | inr large ↦
            rw (large, same)
              (read_chunks-IsSized size max_chunk base size page_size n 0 n
                (record { states = replicate n failed; chunks = []; data_size = 0 }) t pos
                (omega arith) (length-replicate n failed, refl))
      ]
