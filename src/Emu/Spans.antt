-- ===== src/Emu/Spans.antt =====
-- memslicer/emu/engine.py: the spans of addresses that the emulator maps and writes. A span is its
-- first address and the one behind its last.
pub mod Laws
pub mod Free
use memslicer.Prelude.{
  ℕ, zero, suc, ◌+◌, ◌-◌, ◌*◌, ◌/◌, ◌^◌, Bool, true, false, not, ◌&&◌, ◌||◌, List, [], ◌∷◌, ◌++◌,
  map, ltb, leb, ◌==◌, any_of, if◌then◌else◌, Result, ok, err, runtime_error,
}

abbrev pub Span : Type 0
Span = ℕ × ℕ

abbrev pub uc_page : ℕ
uc_page = 0x1000

-- x & ~(_UC_PAGE - 1)
unfoldable pub page_floor : ℕ → ℕ
page_floor x = x / uc_page * uc_page

-- (x + _UC_PAGE - 1) & ~(_UC_PAGE - 1)
unfoldable pub page_ceil : ℕ → ℕ
unfolding page_floor
page_ceil x = page_floor (x + uc_page - 1)

-- sorted(spans): tuples are compared item by item.
abbrev pub span_before : Span → Span → Bool
span_before (a, b) (c, d) = ltb a c || (a == c && ltb b d)

unfoldable pub insert_span : Span → List Span → List Span
insert_span s [] = s ∷ []
insert_span s (t ∷ ts) =
    let rest = insert_span s ts in if span_before t s then t ∷ rest else s ∷ t ∷ ts

unfoldable pub sort_spans : List Span → List Span
unfolding insert_span
sort_spans [] = []
sort_spans (s ∷ ss) = insert_span s (sort_spans ss)

abbrev pub larger : ℕ → ℕ → ℕ
larger a b = if ltb a b then b else a

-- The loop of _coalesce, from its second round on: the first span is `out[-1]`.
unfoldable pub merge_spans : Span → List Span → List Span
merge_spans last [] = last ∷ []
merge_spans (lo, hi) ((start, end) ∷ spans) =
    let merged = merge_spans (lo, larger hi end) spans in
    let apart = merge_spans (start, end) spans in if leb start hi then merged else (lo, hi) ∷ apart

abbrev pub merge_sorted : List Span → List Span
merge_sorted [] = []
merge_sorted (s ∷ ss) = merge_spans s ss

unfoldable pub coalesce : List Span → List Span
unfolding sort_spans merge_spans
coalesce spans = merge_sorted (sort_spans spans)

-- lo <= addr < hi
abbrev pub in_span : ℕ → Span → Bool
in_span addr (lo, hi) = leb lo addr && ltb addr hi

-- _is_written
unfoldable pub covered : List Span → ℕ → Bool
covered spans addr = any_of (in_span addr) spans

-- sorted(candidates)
unfoldable pub insert_address : ℕ → List ℕ → List ℕ
insert_address a [] = a ∷ []
insert_address a (b ∷ bs) =
    let rest = insert_address a bs in if ltb b a then b ∷ rest else a ∷ b ∷ bs

unfoldable pub sort_addresses : List ℕ → List ℕ
unfolding insert_address
sort_addresses [] = []
sort_addresses (a ∷ as') = insert_address a (sort_addresses as')

-- c < hi and c + size > lo
abbrev pub meets : ℕ → ℕ → Span → Bool
meets c size (lo, hi) = ltb c hi && ltb lo (c + size)

-- for c in sorted(candidates)
unfoldable pub first_free : List Span → ℕ → ℕ → List ℕ → Result ℕ
first_free mapped limit size [] = err runtime_error
first_free mapped limit size (c ∷ cs) =
    let rest = first_free mapped limit size cs in
    if ltb limit (c + size) then rest else if not (any_of (meets c size) mapped) then ok c else rest

unfoldable pub find_free_page : List Span → ℕ → ℕ → Result ℕ
unfolding page_ceil sort_addresses first_free
find_free_page mapped bits size =
    first_free mapped (2 ^ bits) (page_ceil size)
      (sort_addresses (map (λ span. page_ceil span.1) mapped ++ uc_page ∷ []))
