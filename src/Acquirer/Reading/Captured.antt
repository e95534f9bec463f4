-- ===== src/Acquirer/Reading/Captured.antt =====
-- A region that is read from a memory has the bytes of the memory in its captured pages.
use memslicer.Prelude.{
  ℕ, zero, suc, ◌+◌, ◌-◌, ◌*◌, ◌/◌, ◌<◌, ◌≤◌, ◌≡◌, refl, sym, ap, ◌∙◌, true, false, Option, none,
  some, List, [], ◌++◌, length, min, replicate, ltb, leb, if◌then◌else◌, arith, length-replicate,
  length-append, append-nil, concat, Bool-cases, inl, inr,
}
use memslicer.Bytes.{Bytes}
use mathlib.Core.Path.{subst}
use native.Mathlib.Nat.{mul-div_cancel}
use memslicer.Msl.Constants.{PageState, captured, failed}
use memslicer.Acquirer.Reading.{
  Target, Pages, try_pages_from, try_read_pages, add_chunk, read_chunk, read_chunks, whole_region,
  read_states,
}
use memslicer.Acquirer.Reading.Shape.{try_pages_from-IsSized}
use memslicer.Acquirer.Reading.Genuine.{
  bytes_at, Genuine, Genuine-at, Genuine-append, Genuine-failed, Genuine-captured,
}
use memslicer.Acquirer.Reading.Partly.{
  Reads, whole_pages, min-mul, positive-left, mul-pos, IsPartly, try_pages_from-Genuine,
  add_chunk-IsPartly,
}

module _ (target : Target) (mem : ℕ → ℕ) (reads : Reads target mem) (page_size : ℕ)
    (positive : 0 < page_size) where
  -- One round of the loop.
  read_chunks-next :
      (fuel max_chunk base size num offset chunk behind : ℕ) (pages : Pages) (t : ℕ)
      → ltb offset size ≡ true
      → target.is_aborted t ≡ false
      → min max_chunk (size - offset) ≡ chunk
      → offset + chunk ≡ behind
      → read_chunks target (suc fuel) max_chunk base size page_size num offset pages t ≡ (
          let next =
            add_chunk target base page_size num offset chunk pages
              (t + 1 + 1)
              (target.read_memory (t + 1) (base + offset) chunk) in
          read_chunks target fuel max_chunk base size page_size num behind next.0 next.1)
  unfolding read_chunks read_chunk
  read_chunks-next fuel max_chunk base size num offset chunk behind pages t under go width at =
      rw (under, go, width, at) refl

  read_chunks-IsPartly :
      (fuel c base num k t : ℕ) (pages : Pages) (done : List PageState)
      → 0 < c
      → num * page_size ≤ length done * page_size + fuel
      → length done + k ≡ num
      → pages.states ≡ done ++ replicate k failed
      → Genuine mem page_size base done (concat pages.chunks)
      → (out : Pages × ℕ) × (read_chunks target fuel
            (c * page_size)
            base
            (num * page_size)
            page_size
            num
            (length done * page_size)
            pages
            t
          ≡ some out)
        × (left : ℕ) × IsPartly target mem reads page_size positive base num left out.0
  unfolding read_chunks read_chunk
  read_chunks-IsPartly zero c base num k t pages done pos enough sum made g =
      let over : ltb (length done * page_size) (num * page_size) ≡ false = ground arith in
      ((pages, t), rw over refl, k, (done, sum, made, g))
  read_chunks-IsPartly (suc fuel) c base num k t pages done pos enough sum made g =
      let offset : ℕ = length done * page_size in
      let m : ℕ = min c k in
      let left : num * page_size - offset ≡ k * page_size =
        ap (λ (n : ℕ). n * page_size - offset) (sym sum) ∙ grind arith in
      let chunk : min (c * page_size) (num * page_size - offset) ≡ m * page_size =
        ap (min (c * page_size)) left ∙ min-mul page_size c k in
      elim (Bool-cases (ltb offset (num * page_size))) [
        | inr over ↦ ((pages, t), rw over refl, k, (done, sum, made, g))
        | inl under ↦ elim (Bool-cases (target.is_aborted t)) [
          | inl stop ↦ ((pages, t + 1), rw (under, stop) refl, k, (done, sum, made, g))
          | inr go ↦
              let read = target.read_memory (t + 1) (base + offset) (m * page_size) in
              let parts : m + (k - m) ≡ k = omega arith in
              let (done', sum', made', g') =
                add_chunk-IsPartly target mem reads page_size positive base num (k - m) m pages
                  (t + 1 + 1) read done (omega arith)
                  (made ∙ ap (λ (n : ℕ). done ++ replicate n failed) (sym parts)) g
                  (λ b e. reads (t + 1) (base + offset) (m * page_size) b e) in
              let next =
                add_chunk target base page_size num offset (m * page_size) pages (t + 1 + 1) read in
              let further : length done' ≡ length done + m = omega arith in
              let at : length done' * page_size ≡ offset + m * page_size =
                ap (λ (n : ℕ). n * page_size) further ∙ grind arith in
              let some_left : 0 < k =
                positive-left (k * page_size) page_size k refl (ground arith) in
              let some_read : 0 < m * page_size = mul-pos page_size m positive (omega arith) in
              let (out, run, left', part) =
                read_chunks-IsPartly fuel c base num (k - m) next.1 next.0 done' pos (omega arith)
                  sum' made' g' in
              (
                out,
                read_chunks-next fuel (c * page_size) base (num * page_size) num offset
                      (m * page_size) (length done' * page_size) pages t under go chunk (sym at)
                    ∙ run,
                left',
                part,
              )
        ]
      ]

  Genuine-partly :
      (base num k : ℕ) (pages : Pages)
      → IsPartly target mem reads page_size positive base num k pages
      → (length pages.states ≡ num) × Genuine mem page_size base pages.states (concat pages.chunks)
  Genuine-partly base num k pages (done, sum, made, g) =
      let a : ℕ = base + length done * page_size in
      (
        ap length made
            ∙ omega (arith, length-append done (replicate k failed), length-replicate k failed),
        subst (λ (ss : List PageState). Genuine mem page_size base ss (concat pages.chunks))
            (sym made)
            (subst (Genuine mem page_size base (done ++ replicate k failed))
              (append-nil (concat pages.chunks))
              (Genuine-append mem page_size base done (replicate k failed) (concat pages.chunks) []
                g (Genuine-failed mem page_size a k))),
      )

  -- The pages of a region that is read at once, or whose single read fails.
  whole_region-Genuine :
      (base num t : ℕ) (read : Option Bytes)
      → ((b : Bytes) → read ≡ some b → b ≡ bytes_at mem base (num * page_size))
      → (let pages = (whole_region target base (num * page_size) page_size num t read).0 in
          (length pages.states ≡ num)
          × Genuine mem page_size base pages.states (concat pages.chunks))
  unfolding whole_region try_read_pages
  whole_region-Genuine base num t (some b) genuine = (
    length-replicate num captured,
    subst (Genuine mem page_size base (replicate num captured))
        (sym (genuine b refl) ∙ sym (append-nil b)) (Genuine-captured mem page_size base num),
  )
  whole_region-Genuine base num t none genuine =
      let count : (num * page_size + page_size - 1) / page_size ≡ num =
        whole_pages num page_size positive in
      let pages = (try_pages_from target base (num * page_size) page_size num 0 t).0 in
      rw count (
        (try_pages_from-IsSized target base (num * page_size) page_size num 0 t).0,
        Genuine-at mem page_size (base + 0 * page_size) base pages.states (concat pages.chunks)
            (omega arith)
            (try_pages_from-Genuine target mem reads page_size positive base (num * page_size) num 0
              t (ap (λ (x : ℕ). x * page_size) (omega arith))),
      )

  -- The two ways to read a region of `num` pages.
  read_states-eq :
      (max_chunk base num t : ℕ)
      → read_states target max_chunk base (num * page_size) page_size t ≡ (
          if leb (num * page_size) max_chunk
          then some (
              whole_region target base
                (num * page_size)
                page_size
                num
                (t + 1)
                (target.read_memory t base (num * page_size)))
          else read_chunks target
              (num * page_size)
              max_chunk
              base
              (num * page_size)
              page_size
              num
              (length {A = PageState} [] * page_size)
              (record { states = replicate num failed; chunks = []; data_size = 0 })
              t)
  unfolding read_states
  read_states-eq max_chunk base num t =
      let zero_at : 0 * page_size ≡ 0 = omega arith in
      rw (whole_pages num page_size positive, mul-div_cancel num positive, zero_at) refl

  pub read_states-Genuine :
      (c base num t : ℕ)
      → 0 < c
      → (out : Pages × ℕ) × (read_states target (c * page_size) base (num * page_size) page_size t
          ≡ some out)
        × (length out.0.states ≡ num)
        × Genuine mem page_size base out.0.states (concat out.0.chunks)
  read_states-Genuine c base num t pos =
      let size : ℕ = num * page_size in
      let read = target.read_memory t base size in
      let nothing : Pages = record { states = replicate num failed; chunks = []; data_size = 0 } in
      elim (Bool-cases (leb size (c * page_size))) [
        | inl small ↦
            let (counted, g) =
              whole_region-Genuine base num (t + 1) read (λ b e. reads t base size b e) in
            (
              whole_region target base size page_size num (t + 1) read,
              read_states-eq (c * page_size) base num t ∙ rw small refl,
              counted,
              g,
            )
        | inr large ↦
            let (out, run, left, part) =
              read_chunks-IsPartly size c base num num t nothing [] pos (omega arith) (omega arith)
                refl refl in
            let (counted, g) = Genuine-partly base num left out.0 part in
            (out, read_states-eq (c * page_size) base num t ∙ rw large run, counted, g)
      ]
