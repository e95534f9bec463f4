-- ===== src/Emu/Loader/Captured.antt =====
-- That the pages of a region payload are read as the pages that were captured.
use memslicer.Prelude.{
  ℕ, suc, ◌+◌, ◌*◌, ◌<◌, ◌≤◌, ◌≡◌, refl, sym, ap, ◌∙◌, false, some, List, [], ◌∷◌, ◌++◌, length,
  take, drop, get_elem?, All, ◌==◌, Dict, dict_put, ok, arith, append_assoc, append-nil, drop-drop,
}
use memslicer.Bytes.{Bytes, slice}
use memslicer.Msl.Constants.{PageState, captured, failed, unmapped, page_code}
use memslicer.Msl.Payload.Pages.{page_state}
use memslicer.Emu.Loader.{read_pages}

-- The pages of a region from page i on: each captured page takes the next bytes of the data.
abbrev pub captured_pages : ℕ → ℕ → ℕ → List PageState → Bytes → Dict ℕ Bytes
captured_pages base page_size i [] chunk = []
captured_pages base page_size i (captured ∷ states) chunk =
    (base + i * page_size, take page_size chunk)
    ∷ captured_pages base page_size (i + 1) states (drop page_size chunk)
captured_pages base page_size i (failed ∷ states) chunk =
    captured_pages base page_size (i + 1) states chunk
captured_pages base page_size i (unmapped ∷ states) chunk =
    captured_pages base page_size (i + 1) states chunk

abbrev Below : ℕ → Dict ℕ Bytes → Type 0
Below n d = All (λ item. item.0 < n) d

-- A key above all others goes to the end.
dict_put-above :
    (d : Dict ℕ Bytes) (k : ℕ) (v : Bytes) → Below k d → dict_put ◌==◌ d k v ≡ d ++ (k, v) ∷ []
dict_put-above [] k v h = refl
dict_put-above ((j, w) ∷ d) k v (lt, h) =
    let other : (j == k) ≡ false = ground arith in
    rw other (ap (λ (t : Dict ℕ Bytes). (j, w) ∷ t) (dict_put-above d k v h))

Below-put :
    (d : Dict ℕ Bytes) (k n : ℕ) (v : Bytes) → Below k d → k < n → Below n (d ++ (k, v) ∷ [])
Below-put [] k n v h lt = (lt, tt)
Below-put ((j, w) ∷ d) k n v (hj, h) lt = (omega arith, Below-put d k n v h lt)

Below-weaken : (d : Dict ℕ Bytes) (m n : ℕ) → Below m d → m ≤ n → Below n d
Below-weaken [] m n h le = tt
Below-weaken ((j, w) ∷ d) m n (hj, h) le = (omega arith, Below-weaken d m n h le)

-- The loop reads the pages whose states the map gives, over any map that gives them.
module _ (psm chunk : Bytes) (base page_size : ℕ) (positive : 0 < page_size) where
  -- The map gives the states from page i on.
  abbrev Gives : List PageState → ℕ → Type 0
  Gives states i =
      (k : ℕ) (s : PageState)
      → get_elem? states k ≡ some s
      → page_state psm (i + k) ≡ ok (page_code s)

  first :
      (s : PageState) (states : List PageState) (i : ℕ)
      → Gives (s ∷ states) i
      → page_state psm i ≡ ok (page_code s)
  first s states i h = ap (page_state psm) (let e : i ≡ i + 0 = omega arith in e) ∙ h 0 s refl

  later :
      (s : PageState) (states : List PageState) (i : ℕ)
      → Gives (s ∷ states) i
      → Gives states (i + 1)
  later s states i h = λ k t e.
      ap (page_state psm) (let q : i + 1 + k ≡ i + suc k = omega arith in q) ∙ h (suc k) t e

  page_code-ne : (s : PageState) → (s ≡ captured → ⊥) → (page_code s == page_code captured) ≡ false
  unfolding page_code
  page_code-ne captured h = absurd (h refl)
  page_code-ne failed h = refl
  page_code-ne unmapped h = refl

  pub passed :
      (s : PageState) (states : List PageState) (i count : ℕ) (d : Dict ℕ Bytes)
      → Gives (s ∷ states) i
      → (s ≡ captured → ⊥)
      → read_pages psm chunk base page_size (length (s ∷ states)) i count d
        ≡ read_pages psm chunk base page_size (length states) (i + 1) count d
  unfolding read_pages
  passed s states i count d h other = rw (first s states i h, page_code-ne s other) refl

  pub read_pages-captured_pages :
      (states : List PageState) (i count : ℕ) (d : Dict ℕ Bytes)
      → Gives states i
      → Below (base + i * page_size) d
      → read_pages psm chunk base page_size (length states) i count d
        ≡ ok (d ++ captured_pages base page_size i states (drop (count * page_size) chunk))
  unfolding read_pages
  read_pages-captured_pages [] i count d h below = ap ok (sym (append-nil d))
  read_pages-captured_pages (captured ∷ states) i count d h below =
      let page : Bytes = take page_size (drop (count * page_size) chunk) in
      let cut : slice (count * page_size) (count * page_size + page_size) chunk ≡ page =
        ap (λ (n : ℕ). take n (drop (count * page_size) chunk)) (omega arith) in
      let next : (count + 1) * page_size ≡ count * page_size + page_size = grind arith in
      let above : (i + 1) * page_size ≡ i * page_size + page_size = grind arith in
      let put = dict_put-above d (base + i * page_size) page below in
      let ih =
        read_pages-captured_pages states (i + 1) (count + 1)
          (d ++ (base + i * page_size, page) ∷ []) (later captured states i h)
          (Below-put d (base + i * page_size) (base + (i + 1) * page_size) page below
            (omega arith)) in
      let page_rest =
        drop-drop (count * page_size) page_size ((count + 1) * page_size) chunk (sym next) in
      rw (first captured states i h, cut, put, ih, page_rest)
        (ap ok (
          append_assoc d ((base + i * page_size, page) ∷ [])
            (captured_pages base page_size (i + 1) states (drop ((count + 1) * page_size) chunk))))
  read_pages-captured_pages (failed ∷ states) i count d h below =
      passed failed states i count d h (λ p. cc)
      ∙ read_pages-captured_pages states (i + 1) count d (later failed states i h)
          (Below-weaken d (base + i * page_size) (base + (i + 1) * page_size) below (grind arith))
  read_pages-captured_pages (unmapped ∷ states) i count d h below =
      passed unmapped states i count d h (λ p. cc)
      ∙ read_pages-captured_pages states (i + 1) count d (later unmapped states i h)
          (Below-weaken d (base + i * page_size) (base + (i + 1) * page_size) below (grind arith))
