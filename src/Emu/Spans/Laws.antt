-- ===== src/Emu/Spans/Laws.antt =====
-- What merging spans keeps: the addresses, in fewer spans that do not touch.
use memslicer.Prelude.{
  ℕ, ◌<◌, ◌≤◌, ◌≡◌, inl, inr, refl, ap, ◌∙◌, Bool, true, false, ◌||◌, List, [], ◌∷◌, All, leb,
  Bool-cases, arith,
}
use mathlib.Core.Path.{subst}
use memslicer.Emu.Spans.{
  Span, span_before, insert_span, sort_spans, larger, merge_spans, merge_sorted, coalesce, in_span,
  covered,
}

-- Each span starts behind the end of the one before it.
abbrev pub IsApart : List Span → Type 0
IsApart [] = Unit {0}
IsApart (s ∷ []) = Unit {0}
IsApart ((lo, hi) ∷ (start, end) ∷ spans) = (hi < start) × IsApart ((start, end) ∷ spans)

-- No span starts before this address.
abbrev From : ℕ → List Span → Type 0
From n spans = All (λ s. n ≤ s.0) spans

abbrev IsSorted : List Span → Type 0
IsSorted [] = Unit {0}
IsSorted (s ∷ spans) = From s.0 spans × IsSorted spans

From-weaken : (m n : ℕ) (spans : List Span) → m ≤ n → From n spans → From m spans
From-weaken m n [] le h = tt
From-weaken m n (s ∷ ss) le (first, h) = (omega arith, From-weaken m n ss le h)

From-insert_span :
    (n : ℕ) (s : Span) (spans : List Span) → n ≤ s.0 → From n spans → From n (insert_span s spans)
unfolding insert_span
From-insert_span n s [] le h = (le, tt)
From-insert_span n s (t ∷ ts) le (first, h) = elim (Bool-cases (span_before t s)) [
  | inl e ↦ rw e (first, From-insert_span n s ts le h)
  | inr e ↦ rw e (le, (first, h))
]

before→le : (s t : Span) → span_before s t ≡ true → s.0 ≤ t.0
before→le (a, b) (c, d) h = ground arith

not_before→le : (s t : Span) → span_before s t ≡ false → t.0 ≤ s.0
not_before→le (a, b) (c, d) h = ground arith

insert_span-IsSorted :
    (s : Span) (spans : List Span) → IsSorted spans → IsSorted (insert_span s spans)
unfolding insert_span
insert_span-IsSorted s [] h = (tt, tt)
insert_span-IsSorted s (t ∷ ts) (from, h) = elim (Bool-cases (span_before t s)) [
  | inl e ↦ rw e (From-insert_span t.0 s ts (before→le t s e) from, insert_span-IsSorted s ts h)
  | inr e ↦
      rw e ((not_before→le t s e, From-weaken s.0 t.0 ts (not_before→le t s e) from), (from, h))
]

sort_spans-IsSorted : (spans : List Span) → IsSorted (sort_spans spans)
unfolding sort_spans
sort_spans-IsSorted [] = tt
sort_spans-IsSorted (s ∷ ss) = insert_span-IsSorted s (sort_spans ss) (sort_spans-IsSorted ss)

or_swap : (a b c : Bool) → (a || (b || c)) ≡ (b || (a || c))
or_swap true true c = refl
or_swap true false c = refl
or_swap false true c = refl
or_swap false false c = refl

covered-insert_span :
    (s : Span) (spans : List Span) (x : ℕ)
    → covered (insert_span s spans) x ≡ (in_span x s || covered spans x)
unfolding covered insert_span
covered-insert_span s [] x = refl
covered-insert_span s (t ∷ ts) x = elim (Bool-cases (span_before t s)) [
  | inl e ↦ rw e (
      ap (λ (b : Bool). in_span x t || b) (covered-insert_span s ts x)
      ∙ or_swap (in_span x t) (in_span x s) (covered ts x))
  | inr e ↦ rw e refl
]

covered-sort_spans : (spans : List Span) (x : ℕ) → covered (sort_spans spans) x ≡ covered spans x
unfolding covered sort_spans
covered-sort_spans [] x = refl
covered-sort_spans (s ∷ ss) x =
    covered-insert_span s (sort_spans ss) x
    ∙ ap (λ (b : Bool). in_span x s || b) (covered-sort_spans ss x)

-- Two spans of which the second starts in the first, or at its end.
in_span-merged :
    (lo hi start end x : ℕ)
    → lo ≤ start
    → leb start hi ≡ true
    → in_span x (lo, larger hi end) ≡ (in_span x (lo, hi) || in_span x (start, end))
in_span-merged lo hi start end x le h = ground arith

or_assoc : (a b c : Bool) → ((a || b) || c) ≡ (a || (b || c))
or_assoc true b c = refl
or_assoc false b c = refl

covered-merge_spans :
    (s : Span) (spans : List Span) (x : ℕ)
    → IsSorted (s ∷ spans)
    → covered (merge_spans s spans) x ≡ (in_span x s || covered spans x)
unfolding covered merge_spans
covered-merge_spans s [] x h = refl
covered-merge_spans (lo, hi) ((start, end) ∷ spans) x ((le, from), (later, h)) =
    elim (Bool-cases (leb start hi)) [
      | inl e ↦ rw e (
          covered-merge_spans (lo, larger hi end) spans x (from, h)
          ∙ ap (λ (b : Bool). b || covered spans x) (in_span-merged lo hi start end x le e)
          ∙ or_assoc (in_span x (lo, hi)) (in_span x (start, end)) (covered spans x))
      | inr e ↦ rw e (
          ap (λ (b : Bool). in_span x (lo, hi) || b)
            (covered-merge_spans (start, end) spans x (later, h)))
    ]

-- Merging keeps the start of the first span.
merge_spans-head :
    (start end : ℕ) (spans : List Span)
    → (e : ℕ) × (rest : List Span) × (merge_spans (start, end) spans ≡ (start, e) ∷ rest)
unfolding merge_spans
merge_spans-head start end [] = (end, [], refl)
merge_spans-head start end ((a, b) ∷ spans) = elim (Bool-cases (leb a end)) [
  | inl e ↦ rw e (merge_spans-head start (larger end b) spans)
  | inr e ↦ rw e (end, merge_spans (a, b) spans, refl)
]

IsApart-cons :
    (lo hi start e : ℕ) (rest spans : List Span)
    → spans ≡ (start, e) ∷ rest
    → hi < start
    → IsApart spans
    → IsApart ((lo, hi) ∷ spans)
IsApart-cons lo hi start e rest spans q lt h = rw q (lt, subst IsApart q h)

IsApart-merge_spans : (s : Span) (spans : List Span) → IsApart (merge_spans s spans)
unfolding merge_spans
IsApart-merge_spans s [] = tt
IsApart-merge_spans (lo, hi) ((start, end) ∷ spans) = elim (Bool-cases (leb start hi)) [
  | inl e ↦ rw e (IsApart-merge_spans (lo, larger hi end) spans)
  | inr e ↦ rw e (
      let (c, rest, q) = merge_spans-head start end spans in
      IsApart-cons lo hi start c rest (merge_spans (start, end) spans) q (ground arith)
        (IsApart-merge_spans (start, end) spans))
]

IsApart-merge_sorted :
    (spans : List Span)
    → IsSorted spans
    → IsApart (merge_sorted spans) × ((x : ℕ) → covered (merge_sorted spans) x ≡ covered spans x)
unfolding covered
IsApart-merge_sorted [] h = (tt, λ x. refl)
IsApart-merge_sorted (s ∷ ss) h = (IsApart-merge_spans s ss, λ x. covered-merge_spans s ss x h)

-- The merged spans cover the addresses that the given spans cover and no others, and each of them
-- starts behind the end of the one before it, so that no two of them overlap or touch.
pub coalesce-IsApart-covered :
    (spans : List Span)
    → IsApart (coalesce spans) × ((x : ℕ) → covered (coalesce spans) x ≡ covered spans x)
unfolding coalesce
coalesce-IsApart-covered spans =
    let (apart, same) = IsApart-merge_sorted (sort_spans spans) (sort_spans-IsSorted spans) in
    (apart, λ x. same x ∙ covered-sort_spans spans x)
