-- ===== src/Acquirer/Reading/Genuine.antt =====
-- Page states and data that are those of a memory.
use memslicer.Prelude.{
  ℕ, zero, suc, ◌+◌, ◌*◌, ◌<◌, ◌≤◌, ◌≡◌, refl, sym, ap, ◌∙◌, true, List, [], ◌∷◌, ◌++◌, length,
  take, drop, replicate, set, ltb, arith, length-append, append_assoc, All, take-append_length,
  drop-append_length, lt→ltb,
}
use mathlib.Core.Path.{subst}
use memslicer.Bytes.{Bytes}
use memslicer.Msl.Constants.{PageState, captured, failed, unmapped}
use memslicer.Emu.Loader.Captured.{captured_pages}
use memslicer.Acquirer.Reading.{mark_captured, put_pages}

-- The n bytes of a memory from an address on.
abbrev pub bytes_at : (ℕ → ℕ) → ℕ → ℕ → Bytes
bytes_at mem a zero = []
bytes_at mem a (suc n) = mem a ∷ bytes_at mem (a + 1) n

pub length-bytes_at : (mem : ℕ → ℕ) (a n : ℕ) → length (bytes_at mem a n) ≡ n
length-bytes_at mem a zero = refl
length-bytes_at mem a (suc n) = ap suc (length-bytes_at mem (a + 1) n)

bytes_at-add :
    (mem : ℕ → ℕ) (a n m : ℕ) → bytes_at mem a (n + m) ≡ bytes_at mem a n ++ bytes_at mem (a + n) m
bytes_at-add mem a zero m =
    ap (bytes_at mem a) (let z : 0 + m ≡ m = omega arith in z)
    ∙ ap (λ (x : ℕ). bytes_at mem x m) (let z : a ≡ a + 0 = omega arith in z)
bytes_at-add mem a (suc n) m =
    ap (bytes_at mem a) (let z : suc n + m ≡ suc (n + m) = omega arith in z)
    ∙ ap (λ (t : Bytes). mem a ∷ t)
        (bytes_at-add mem (a + 1) n m
          ∙ ap (λ (x : ℕ). bytes_at mem (a + 1) n ++ bytes_at mem x m)
              (let z : a + 1 + n ≡ a + suc n = omega arith in z))

module _ (mem : ℕ → ℕ) (page_size : ℕ) where
  -- The data has the bytes of the captured pages from an address on, and no other.
  abbrev pub Genuine : ℕ → List PageState → Bytes → Type 0
  Genuine a [] d = d ≡ []
  Genuine a (captured ∷ ss) d =
      (rest : Bytes) × (d ≡ bytes_at mem a page_size ++ rest) × Genuine (a + page_size) ss rest
  Genuine a (failed ∷ ss) d = Genuine (a + page_size) ss d
  Genuine a (unmapped ∷ ss) d = ⊥

  pub Genuine-at :
      (a b : ℕ) (ss : List PageState) (d : Bytes) → a ≡ b → Genuine a ss d → Genuine b ss d
  Genuine-at a b ss d e g = subst (λ (x : ℕ). Genuine x ss d) e g

  pub Genuine-append :
      (a : ℕ) (ss us : List PageState) (d e : Bytes)
      → Genuine a ss d
      → Genuine (a + length ss * page_size) us e
      → Genuine a (ss ++ us) (d ++ e)
  Genuine-append a [] us d e g h =
      subst (λ (t : Bytes). Genuine a us (t ++ e)) (sym g)
        (Genuine-at (a + 0 * page_size) a us e (omega arith) h)
  Genuine-append a (captured ∷ ss) us d e (rest, made, g) h = (
    rest ++ e,
    ap (λ (t : Bytes). t ++ e) made ∙ append_assoc (bytes_at mem a page_size) rest e,
    Genuine-append (a + page_size) ss us rest e g (
        Genuine-at (a + suc (length ss) * page_size) (a + page_size + length ss * page_size) us e
          (grind arith) h),
  )
  Genuine-append a (failed ∷ ss) us d e g h = Genuine-append (a + page_size) ss us d e g (
      Genuine-at (a + suc (length ss) * page_size) (a + page_size + length ss * page_size) us e
        (grind arith) h)
  Genuine-append a (unmapped ∷ ss) us d e g h = absurd g

  pub Genuine-failed : (a n : ℕ) → Genuine a (replicate n failed) []
  Genuine-failed a zero = refl
  Genuine-failed a (suc n) = Genuine-failed (a + page_size) n

  pub Genuine-captured :
      (a n : ℕ) → Genuine a (replicate n captured) (bytes_at mem a (n * page_size))
  Genuine-captured a zero = ap (bytes_at mem a) (let z : 0 * page_size ≡ 0 = omega arith in z)
  Genuine-captured a (suc n) = (
    bytes_at mem (a + page_size) (n * page_size),
    ap (bytes_at mem a) (let z : suc n * page_size ≡ page_size + n * page_size = grind arith in z)
        ∙ bytes_at-add mem a page_size (n * page_size),
    Genuine-captured (a + page_size) n,
  )

  -- Without data, no page is captured.
  pub Genuine-none :
      (a : ℕ) (ss : List PageState)
      → 0 < page_size
      → Genuine a ss []
      → ss ≡ replicate (length ss) failed
  Genuine-none a [] pos g = refl
  Genuine-none a (captured ∷ ss) pos (rest, made, g) = absurd (
      omega (
        arith,
        ap length made,
        length-append (bytes_at mem a page_size) rest,
        length-bytes_at mem a page_size,
      ))
  Genuine-none a (failed ∷ ss) pos g =
      ap (λ (t : List PageState). failed ∷ t) (Genuine-none (a + page_size) ss pos g)
  Genuine-none a (unmapped ∷ ss) pos g = absurd g

  -- Each page that the loader takes has the bytes of the memory at its address.
  pub captured_pages-Genuine :
      (base i : ℕ) (ss : List PageState) (d rest : Bytes)
      → Genuine (base + i * page_size) ss d
      → All
          (λ page. page.1 ≡ bytes_at mem page.0 page_size)
          (captured_pages base page_size i ss (d ++ rest))
  captured_pages-Genuine base i [] d rest g = tt
  captured_pages-Genuine base i (captured ∷ ss) d rest (behind, made, g) =
      let a : ℕ = base + i * page_size in
      let page : Bytes = bytes_at mem a page_size in
      let whole : d ++ rest ≡ page ++ (behind ++ rest) =
        ap (λ (t : Bytes). t ++ rest) made ∙ append_assoc page behind rest in
      let left : drop page_size (d ++ rest) ≡ behind ++ rest =
        ap (drop page_size) whole
        ∙ drop-append_length page_size page (behind ++ rest) (length-bytes_at mem a page_size) in
      (
        ap (take page_size) whole
            ∙ take-append_length page_size page (behind ++ rest) (length-bytes_at mem a page_size),
        subst
            (λ (t : Bytes).
              All (λ p. p.1 ≡ bytes_at mem p.0 page_size)
                (captured_pages base page_size (i + 1) ss t))
            (sym left)
            (captured_pages-Genuine base (i + 1) ss behind rest
              (Genuine-at (a + page_size) (base + (i + 1) * page_size) ss behind (grind arith) g)),
      )
  captured_pages-Genuine base i (failed ∷ ss) d rest g =
      captured_pages-Genuine base (i + 1) ss d rest (
        Genuine-at (base + i * page_size + page_size) (base + (i + 1) * page_size) ss d
          (grind arith) g)
  captured_pages-Genuine base i (unmapped ∷ ss) d rest g = absurd g

set-append :
    (done rest : List PageState) (x s : PageState) (n : ℕ)
    → length done ≡ n
    → set (done ++ (x ∷ rest)) n s ≡ done ++ (s ∷ rest)
set-append [] rest x s zero h = refl
set-append [] rest x s (suc n) h = absurd (omega arith)
set-append (y ∷ done) rest x s zero h = absurd (omega arith)
set-append (y ∷ done) rest x s (suc n) h =
    ap (λ (t : List PageState). y ∷ t) (set-append done rest x s n (omega arith))

-- The pages behind the first ones, still failed, are set in order.
pub put_pages-failed :
    (ss done : List PageState) (k num first total : ℕ)
    → length done ≡ first
    → length ss + k ≡ total
    → first + total ≡ num
    → put_pages num first ss (done ++ replicate total failed) ≡ done ++ (ss ++ replicate k failed)
unfolding put_pages
put_pages-failed [] done k num first total at sum all =
    ap (λ (n : ℕ). done ++ replicate n failed) (let z : total ≡ k = omega arith in z)
put_pages-failed (s ∷ ss) done k num first zero at sum all = absurd (omega arith)
put_pages-failed (s ∷ ss) done k num first (suc total) at sum all =
    let rest : List PageState = replicate total failed in
    let inside : ltb first num ≡ true = lt→ltb first num (omega arith) in
    let next : set (done ++ (failed ∷ rest)) first s ≡ (done ++ s ∷ []) ++ rest =
      set-append done rest failed s first at ∙ sym (append_assoc done (s ∷ []) rest) in
    rw (inside, next)
      (put_pages-failed ss (done ++ s ∷ []) k num (first + 1) total
          (omega (arith, length-append done (s ∷ []))) (omega arith) (omega arith)
        ∙ append_assoc done (s ∷ []) (ss ++ replicate k failed))

-- The loop that marks pages is the loop that puts captured pages.
pub mark_captured-put_pages :
    (n first num : ℕ) (states : List PageState)
    → first + n ≤ num
    → mark_captured first n states ≡ put_pages num first (replicate n captured) states
unfolding mark_captured put_pages
mark_captured-put_pages zero first num states h = refl
mark_captured-put_pages (suc n) first num states h =
    rw (put_pages, lt→ltb first num (omega arith))
      (mark_captured-put_pages n (first + 1) num (set states first captured) (omega arith))
