-- ===== src/Acquirer/Reading/Partly.antt =====
-- What has been read of a region, while it is read page by page or in chunks.
use memslicer.Prelude.{
  ℕ, zero, suc, ◌+◌, ◌-◌, ◌*◌, ◌/◌, ◌<◌, ◌≡◌, refl, sym, ap, ◌∙◌, Option, none, some, List, [], ◌∷◌,
  ◌++◌, length, min, replicate, ltb, arith, length-replicate, length-append, append_assoc,
  append-nil, concat, Bool-cases, Option-cases, inl, inr,
}
use memslicer.Bytes.{Bytes}
use mathlib.Core.Path.{subst}
use native.Mathlib.Nat.{div-eq_of_lt, mul-div_cancel, mul-add-div_right}
use memslicer.Msl.Constants.{PageState, captured, failed}
use memslicer.Acquirer.Reading.{
  Target, Pages, try_pages_from, try_read_pages, mark_captured, put_pages, add_pages, add_chunk,
}
use memslicer.Acquirer.Reading.Shape.{try_pages_from-IsSized, concat-append}
use memslicer.Acquirer.Reading.Genuine.{
  bytes_at, Genuine, Genuine-at, Genuine-append, Genuine-failed, Genuine-captured, Genuine-none,
  put_pages-failed, mark_captured-put_pages,
}

-- A read that does not fail returns the bytes at its address.
abbrev pub Reads : Target → (ℕ → ℕ) → Type 0
Reads target mem =
    (t a n : ℕ) (b : Bytes) → target.read_memory t a n ≡ some b → b ≡ bytes_at mem a n

pub length-zero : (b : Bytes) → length b ≡ 0 → b ≡ []
length-zero [] h = refl
length-zero (x ∷ b) h = absurd (omega arith)

replicate-add : (m k : ℕ) → replicate (m + k) failed ≡ replicate m failed ++ replicate k failed
replicate-add zero k = ap (λ (n : ℕ). replicate n failed) (let z : 0 + k ≡ k = omega arith in z)
replicate-add (suc m) k =
    ap (λ (n : ℕ). replicate n failed) (let z : suc m + k ≡ suc (m + k) = omega arith in z)
    ∙ ap (λ (t : List PageState). failed ∷ t) (replicate-add m k)

-- The number of pages of a size that is a whole number of pages.
pub whole_pages :
    (m page_size : ℕ) → 0 < page_size → (m * page_size + page_size - 1) / page_size ≡ m
whole_pages m page_size positive =
    let small : (page_size - 1) / page_size ≡ 0 = div-eq_of_lt (omega arith) in
    ap (λ (n : ℕ). n / page_size)
      (let z : m * page_size + page_size - 1 ≡ m * page_size + (page_size - 1) = omega arith in z)
    ∙ mul-add-div_right positive m (page_size - 1)
    ∙ omega arith

pub min-mul : (p c k : ℕ) → min (c * p) (k * p) ≡ min c k * p
min-mul p zero k =
    let none_left : min 0 k * p ≡ 0 * p = ap (λ (n : ℕ). n * p) (omega arith) in omega arith
min-mul p (suc c) zero =
    let none_left : min (suc c) 0 * p ≡ 0 * p = ap (λ (n : ℕ). n * p) (omega arith) in omega arith
min-mul p (suc c) (suc k) =
    let ih = min-mul p c k in
    let hc : suc c * p ≡ c * p + p = grind arith in
    let hk : suc k * p ≡ k * p + p = grind arith in
    let hm : min (suc c) (suc k) * p ≡ min c k * p + p =
      ap (λ (n : ℕ). n * p) (let z : min (suc c) (suc k) ≡ suc (min c k) = omega arith in z)
      ∙ grind arith in
    omega arith

pub positive-left : (n p k : ℕ) → n ≡ k * p → 0 < n → 0 < k
positive-left n p zero e h = absurd (omega arith)
positive-left n p (suc k) e h = omega arith

pub mul-pos : (p m : ℕ) → 0 < p → 0 < m → 0 < m * p
mul-pos p m hp hm = grind arith

module _ (target : Target) (mem : ℕ → ℕ) (reads : Reads target mem) (page_size : ℕ)
    (positive : 0 < page_size) where
  -- The pages of a chunk, tried one by one, from page i on.
  pub try_pages_from-Genuine :
      (base size n i t : ℕ)
      → size ≡ (i + n) * page_size
      → Genuine mem page_size
          (base + i * page_size)
          (try_pages_from target base size page_size n i t).0.states
          (concat (try_pages_from target base size page_size n i t).0.chunks)
  unfolding try_pages_from
  try_pages_from-Genuine base size zero i t e = refl
  try_pages_from-Genuine base size (suc n) i t e =
      let a : ℕ = base + i * page_size in
      let ih = try_pages_from-Genuine base size n (i + 1) (t + 2) (grind arith) in
      let next : base + (i + 1) * page_size ≡ a + page_size = grind arith in
      let more : (i + suc n) * page_size ≡ i * page_size + page_size + n * page_size =
        grind arith in
      let rest = (try_pages_from target base size page_size n (i + 1) (t + 2)).0 in
      let width : min page_size (size - i * page_size) ≡ page_size = omega arith in
      let later =
        Genuine-at mem page_size (base + (i + 1) * page_size) (a + page_size) rest.states
          (concat rest.chunks) next ih in
      elim (Bool-cases (target.is_aborted t)) [
        | inl stop ↦ rw stop (Genuine-failed mem page_size a (suc n))
        | inr go ↦
            elim (Option-cases
              (target.read_memory (t + 1) a (min page_size (size - i * page_size)))) [
                | inl missing ↦ rw (go, missing) later
                | inr (b, found) ↦
                    let page : b ≡ bytes_at mem a page_size =
                      reads (t + 1) a _ b found ∙ ap (bytes_at mem a) width in
                    rw (go, found)
                      (concat rest.chunks, ap (λ (x : Bytes). x ++ concat rest.chunks) page, later)
              ]
      ]

  -- What has been read of `num` pages: some are done, and the others still failed.
  abbrev pub IsPartly : ℕ → ℕ → ℕ → Pages → Type 0
  IsPartly base num k pages =
      (done : List PageState) × (length done + k ≡ num)
      × (pages.states ≡ done ++ replicate k failed)
      × Genuine mem page_size base done (concat pages.chunks)

  -- More pages are done.
  IsPartly-more :
      (base num k : ℕ) (done ss states : List PageState) (chunks more : List Bytes) (n : ℕ)
      → length done + (length ss + k) ≡ num
      → states ≡ done ++ (ss ++ replicate k failed)
      → Genuine mem page_size base done (concat chunks)
      → Genuine mem page_size (base + length done * page_size) ss (concat more)
      → IsPartly base num k (record { states = states; chunks = chunks ++ more; data_size = n })
  IsPartly-more base num k done ss states chunks more n sum made g h = (
    done ++ ss,
    omega (arith, length-append done ss),
    made ∙ sym (append_assoc done ss (replicate k failed)),
    subst (Genuine mem page_size base (done ++ ss)) (sym (concat-append chunks more))
        (Genuine-append mem page_size base done ss (concat chunks) (concat more) g h),
  )

  add_pages-IsPartly :
      (base num k m : ℕ) (pages fb : Pages) (done : List PageState)
      → length done + (m + k) ≡ num
      → pages.states ≡ done ++ replicate (m + k) failed
      → Genuine mem page_size base done (concat pages.chunks)
      → length fb.states ≡ m
      → fb.data_size ≡ length (concat fb.chunks)
      → Genuine mem page_size (base + length done * page_size) fb.states (concat fb.chunks)
      → IsPartly base num k (add_pages num (length done) pages fb)
  unfolding add_pages
  add_pages-IsPartly base num k m pages fb done sum made g sized bytes h =
      let a : ℕ = base + length done * page_size in
      elim (Bool-cases (ltb 0 fb.data_size)) [
        | inl some_data ↦ rw some_data (
            IsPartly-more base num k done fb.states
              (put_pages num (length done) fb.states pages.states) pages.chunks fb.chunks
              (pages.data_size + fb.data_size) (omega arith)
              (ap (put_pages num (length done) fb.states) made
                ∙ put_pages-failed fb.states done k num (length done) (m + k) refl (omega arith)
                    sum)
              g h)
        | inr no_data ↦
            let empty : concat fb.chunks ≡ [] = length-zero (concat fb.chunks) (ground arith) in
            let all_failed : fb.states ≡ replicate m failed =
              Genuine-none mem page_size a fb.states positive
                (subst (Genuine mem page_size a fb.states) empty h)
              ∙ ap (λ (n : ℕ). replicate n failed) sized in
            rw no_data (
              done ++ replicate m failed,
              omega (arith, length-append done (replicate m failed), length-replicate m failed),
              made
                  ∙ ap (λ (t : List PageState). done ++ t) (replicate-add m k)
                  ∙ sym (append_assoc done (replicate m failed) (replicate k failed)),
              subst (Genuine mem page_size base (done ++ replicate m failed))
                  (append-nil (concat pages.chunks))
                  (Genuine-append mem page_size base done (replicate m failed) (concat pages.chunks)
                    [] g (Genuine-failed mem page_size a m)),
            )
      ]

  -- A chunk of m pages, read at once or page by page, makes m more pages done.
  pub add_chunk-IsPartly :
      (base num k m : ℕ) (pages : Pages) (t : ℕ) (read : Option Bytes) (done : List PageState)
      → length done + (m + k) ≡ num
      → pages.states ≡ done ++ replicate (m + k) failed
      → Genuine mem page_size base done (concat pages.chunks)
      → ((b : Bytes)
          → read ≡ some b
          → b ≡ bytes_at mem (base + length done * page_size) (m * page_size))
      → IsPartly base num k
          (add_chunk target base page_size num
            (length done * page_size)
            (m * page_size)
            pages
            t
            read).0
  unfolding add_chunk try_read_pages
  add_chunk-IsPartly base num k m pages t (some b) done sum made g genuine =
      let first : ℕ = length done in
      let at : first * page_size / page_size ≡ first = mul-div_cancel first positive in
      let count : (m * page_size + page_size - 1) / page_size ≡ m =
        whole_pages m page_size positive in
      let bounded : min (first + m) num - first ≡ m = omega arith in
      let marked : mark_captured first m pages.states
          ≡ done ++ (replicate m captured ++ replicate k failed) =
        mark_captured-put_pages m first num pages.states (omega arith)
        ∙ ap (put_pages num first (replicate m captured)) made
        ∙ put_pages-failed (replicate m captured) done k num first (m + k) refl
            (omega (arith, length-replicate m captured)) sum in
      rw (at, count, bounded)
        (IsPartly-more base num k done (replicate m captured) (mark_captured first m pages.states)
          pages.chunks (b ∷ []) (pages.data_size + length b)
          (omega (arith, length-replicate m captured)) marked g
          (subst (Genuine mem page_size (base + first * page_size) (replicate m captured))
            (sym (genuine b refl) ∙ sym (append-nil b))
            (Genuine-captured mem page_size (base + first * page_size) m)))
  add_chunk-IsPartly base num k m pages t none done sum made g genuine =
      let first : ℕ = length done in
      let a : ℕ = base + first * page_size in
      let at : first * page_size / page_size ≡ first = mul-div_cancel first positive in
      let count : (m * page_size + page_size - 1) / page_size ≡ m =
        whole_pages m page_size positive in
      let fb : Pages = (try_pages_from target a (m * page_size) page_size m 0 t).0 in
      let (sized, bytes) = try_pages_from-IsSized target a (m * page_size) page_size m 0 t in
      let read =
        Genuine-at mem page_size (a + 0 * page_size) a fb.states (concat fb.chunks) (omega arith) (
          try_pages_from-Genuine a (m * page_size) m 0 t
            (ap (λ (x : ℕ). x * page_size) (omega arith))) in
      rw (at, count) (add_pages-IsPartly base num k m pages fb done sum made g sized bytes read)
