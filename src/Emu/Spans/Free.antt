-- ===== src/Emu/Spans/Free.antt =====
-- The page that is found for the synthetic descriptor table.
use memslicer.Prelude.{
  ℕ, ◌+◌, ◌^◌, ◌<◌, ◌≤◌, ◌≡◌, inl, inr, refl, ◌⊎◌, Bool, true, false, ◌||◌, List, [], ◌∷◌, ◌++◌,
  map, All, ltb, any_of, Bool-cases, ok, arith,
}
use memslicer.Emu.Spans.{
  Span, uc_page, page_floor, page_ceil, covered, in_span, insert_address, sort_addresses, meets,
  first_free, find_free_page,
}

-- The address is one of the list's.
abbrev Has : ℕ → List ℕ → Type 0
Has a [] = ⊥
Has a (b ∷ bs) = (a ≡ b) ⊎ Has a bs

Has-insert_address : (a b : ℕ) (bs : List ℕ) → Has a (b ∷ bs) → Has a (insert_address b bs)
unfolding insert_address
Has-insert_address a b [] h = h
Has-insert_address a b (c ∷ cs) h = elim (Bool-cases (ltb c b)) [
  | inl e ↦ rw e (elim h [
    | inl same ↦ inr (Has-insert_address a b cs (inl same))
    | inr (inl same) ↦ inl same
    | inr (inr among) ↦ inr (Has-insert_address a b cs (inr among))
  ])
  | inr e ↦ rw e h
]

Has-sort_addresses : (a : ℕ) (bs : List ℕ) → Has a bs → Has a (sort_addresses bs)
unfolding sort_addresses
Has-sort_addresses a [] h = h
Has-sort_addresses a (b ∷ bs) (inl same) = Has-insert_address a b (sort_addresses bs) (inl same)
Has-sort_addresses a (b ∷ bs) (inr among) =
    Has-insert_address a b (sort_addresses bs) (inr (Has-sort_addresses a bs among))

pub or_false : (a b : Bool) → (a || b) ≡ false → (a ≡ false) × (b ≡ false)
or_false true b h = cc
or_false false b h = (refl, h)

-- An address of a range that meets no span is in no span.
meets-covered :
    (c size : ℕ) (spans : List Span) (x : ℕ)
    → any_of (meets c size) spans ≡ false
    → c ≤ x
    → x < c + size
    → covered spans x ≡ false
unfolding covered
meets-covered c size [] x h low high = refl
meets-covered c size ((lo, hi) ∷ spans) x h low high =
    let (here, later) = or_false (meets c size (lo, hi)) (any_of (meets c size) spans) h in
    let out : in_span x (lo, hi) ≡ false = ground arith in
    rw out (meets-covered c size spans x later low high)

-- What is found lies below the limit, and its addresses are in no span.
abbrev pub IsFree : List Span → ℕ → ℕ → ℕ → Type 0
IsFree mapped limit size c =
    (c + size ≤ limit) × ((x : ℕ) → c ≤ x → x < c + size → covered mapped x ≡ false)

first_free-found :
    (mapped : List Span) (limit size good : ℕ) (cs : List ℕ)
    → Has good cs
    → good + size ≤ limit
    → any_of (meets good size) mapped ≡ false
    → (c : ℕ) × (first_free mapped limit size cs ≡ ok c) × IsFree mapped limit size c
unfolding first_free
first_free-found mapped limit size good [] h fits free = absurd h
first_free-found mapped limit size good (c ∷ cs) h fits free =
    elim (Bool-cases (ltb limit (c + size))) [
      | inl over ↦ rw over (elim h [
        | inl same ↦ absurd (ground arith)
        | inr among ↦ first_free-found mapped limit size good cs among fits free
      ])
      | inr under ↦ rw under (elim (Bool-cases (any_of (meets c size) mapped)) [
        | inl taken ↦ rw taken (elim h [
          | inl same ↦ cc
          | inr among ↦ first_free-found mapped limit size good cs among fits free
        ])
        | inr clear ↦
            rw clear
              (c, refl, (ground arith, λ x low high. meets-covered c size mapped x clear low high))
      ])
    ]

page_ceil_le : (x : ℕ) → x ≤ page_ceil x
unfolding page_ceil page_floor
page_ceil_le x = omega arith

-- No span of the list ends behind this address.
abbrev pub Within : ℕ → List Span → Type 0
Within top spans = All (λ s. s.1 ≤ top) spans

Within-meets :
    (c size top : ℕ) (spans : List Span)
    → top ≤ c
    → Within top spans
    → any_of (meets c size) spans ≡ false
Within-meets c size top [] le h = refl
Within-meets c size top ((lo, hi) ∷ spans) le (first, h) =
    let below : ltb c hi ≡ false = ground arith in rw below (Within-meets c size top spans le h)

Has-ends :
    (before after : List Span) (lo hi : ℕ) (more : List ℕ)
    → Has (page_ceil hi) (map (λ s. page_ceil s.1) (before ++ (lo, hi) ∷ after) ++ more)
Has-ends [] after lo hi more = inl refl
Has-ends (s ∷ before) after lo hi more = inr (Has-ends before after lo hi more)

-- Where the whole pages asked for fit between the highest mapped span and the end of the address
-- space, an address is found from which they lie below that end and in no mapped span.
pub find_free_page-IsFree :
    (before after : List Span) (lo hi bits size : ℕ)
    → Within hi (before ++ (lo, hi) ∷ after)
    → page_ceil hi + page_ceil size ≤ 2 ^ bits
    → (c : ℕ) × (find_free_page (before ++ (lo, hi) ∷ after) bits size ≡ ok c)
      × IsFree (before ++ (lo, hi) ∷ after) (2 ^ bits) (page_ceil size) c
unfolding find_free_page
find_free_page-IsFree before after lo hi bits size top fits =
    let mapped : List Span = before ++ (lo, hi) ∷ after in
    let candidates : List ℕ = map (λ s. page_ceil s.1) mapped ++ uc_page ∷ [] in
    first_free-found mapped (2 ^ bits) (page_ceil size) (page_ceil hi) (sort_addresses candidates)
      (Has-sort_addresses (page_ceil hi) candidates (Has-ends before after lo hi (uc_page ∷ [])))
      fits (Within-meets (page_ceil hi) (page_ceil size) hi mapped (page_ceil_le hi) top)
