-- ===== src/Acquirer/RegionFilter/Settings.antt =====
-- What each setting of the filter asks of a region.
use memslicer.Prelude.{
  ℕ, ◌+◌, ◌≤◌, ◌<◌, ◌≡◌, ◌⊎◌, refl, inl, inr, Bool, true, false, not, ◌&&◌, ◌||◌, List, [], ◌∷◌,
  All, ltb, ◌==◌, bit_and, any_of, arith, Bool-cases,
}
use memslicer.Utils.{Text}
use memslicer.Utils.Rights.{rights, granted_all, bit_and-rights, bit_and-read}
use memslicer.Acquirer.RegionFilter.{
  SkipReason, no_read, max_size, min_prot, addr_range, path_include, path_exclude, RegionFilter,
  overlaps, found_in, has_items,
}

abbrev pub Some {ℓ} : {A : Type ℓ} → (A → Type 0) → List A → Type 0
Some P [] = ⊥
Some P (x ∷ xs) = P x ⊎ Some P xs

-- The region has an address of the range.
abbrev pub Shares : ℕ → ℕ → ℕ × ℕ → Type 0
Shares base size (start, end) = (a : ℕ) × (base ≤ a) × (a < base + size) × (start ≤ a) × (a < end)

abbrev pub IsRange : ℕ × ℕ → Type 0
IsRange (start, end) = start < end

-- A Boolean test fails exactly where the property does not hold.
abbrev pub Decides {ℓ} : Type ℓ → Bool → Type ℓ
Decides P fails = (P × (fails ≡ false)) ⊎ ((P → ⊥) × (fails ≡ true))

module _ {ℓ} {A : Type ℓ} where
  any_of-Some :
      (P : A → Type 0) (test : A → Bool) (xs : List A)
      → All (λ x. Decides (P x) (not (test x))) xs
      → Decides (Some P xs) (not (any_of test xs))
  any_of-Some P test [] h = inr (λ x. x, refl)
  any_of-Some P test (x ∷ xs) (inl (p, e), h) = inl (inl p, ground arith)
  any_of-Some P test (x ∷ xs) (inr (n, e), h) = elim (any_of-Some P test xs h) [
    | inl (p, f) ↦ inl (inr p, ground arith)
    | inr (m, f) ↦ inr (λ s. elim s [ inl p ↦ n p | inr q ↦ m q ], ground arith)
  ]

any_of-All {ℓ} :
    {A : Type ℓ} (test : A → Bool) (xs : List A)
    → Decides (All (λ x. test x ≡ false) xs) (any_of test xs)
any_of-All test [] = inl (tt, refl)
any_of-All test (x ∷ xs) = elim (Bool-cases (test x)) [
  | inl e ↦ inr (λ h. cc, rw e refl)
  | inr e ↦ elim (any_of-All test xs) [
    | inl (h, f) ↦ inl ((e, h), rw (e, f) refl)
    | inr (n, f) ↦ inr (λ h. n h.1, rw (e, f) refl)
  ]
]

overlaps-Shares :
    (base size : ℕ) (range : ℕ × ℕ)
    → 0 < size
    → IsRange range
    → Decides (Shares base size range) (not (overlaps base (base + size) range))
unfolding overlaps
overlaps-Shares base size (start, end) h k =
    elim (Bool-cases (ltb base end && ltb start (base + size))) [
      | inl e ↦ inl (
        elim (Bool-cases (ltb base start)) [
          | inl later ↦ (start, ground arith, ground arith, ground arith, ground arith)
          | inr not_later ↦ (base, ground arith, ground arith, ground arith, ground arith)
        ],
        rw e refl,
      )
      | inr e ↦ inr (λ (a, from, to, from2, to2). absurd (ground arith), rw e refl)
    ]

each_overlap :
    (base size : ℕ) (ranges : List (ℕ × ℕ))
    → 0 < size
    → All IsRange ranges
    → All
        (λ range. Decides (Shares base size range) (not (overlaps base (base + size) range)))
        ranges
each_overlap base size [] h hs = tt
each_overlap base size (range ∷ ranges) h (k, hs) =
    (overlaps-Shares base size range h k, each_overlap base size ranges h hs)

each_pattern :
    {Pattern : Type 0} (search : Pattern → Text → Bool) (path : Text) (patterns : List Pattern)
    → All (λ pat. Decides (search pat path ≡ true) (not (search pat path))) patterns
each_pattern search path [] = tt
each_pattern search path (pat ∷ patterns) = (
  elim (Bool-cases (search pat path)) [
    | inl e ↦ inl (e, rw e refl)
    | inr e ↦ inr (λ h. cc, rw e refl)
  ],
  each_pattern search path patterns,
)

and_decided :
    {P Q : Type 0} (a b : Bool)
    → Decides P (not a)
    → Decides Q (not b)
    → Decides (P × Q) (not (a && b))
and_decided a b (inl (p, e)) (inl (q, f)) = inl ((p, q), ground arith)
and_decided a b (inl (p, e)) (inr (n, f)) = inr (λ h. n h.1, ground arith)
and_decided a b (inr (n, e)) d = inr (λ h. n h.0, ground arith)

granted_decided : (p r : Bool) → Decides ((p ≡ false) ⊎ (r ≡ true)) (not (not p || r))
granted_decided false r = inl (inl refl, refl)
granted_decided true true = inl (inr refl, refl)
granted_decided true false = inr (λ h. elim h [ inl e ↦ cc e | inr e ↦ cc e ], refl)

module _ {ℓ} {A : Type ℓ} where
  or_empty :
      {P : Type 0} (xs : List A) (fails : Bool)
      → Decides P fails
      → Decides ((xs ≡ []) ⊎ P) (has_items xs && fails)
  or_empty [] fails d = inl (inl refl, refl)
  or_empty (x ∷ xs) fails (inl (p, e)) = inl (inr p, e)
  or_empty (x ∷ xs) fails (inr (n, e)) = inr (λ h. elim h [ inl empty ↦ cc empty | inr p ↦ n p ], e)

  include_decided :
      {P : Type 0} (xs : List A) (path : Text) (found : Bool)
      → Decides P (not found)
      → Decides
          ((xs ≡ []) ⊎ ((path ≡ [] → ⊥) × P))
          ((has_items xs && has_items path && not found) || (has_items xs && not (has_items path)))
  include_decided [] path found d = inl (inl refl, refl)
  include_decided (x ∷ xs) [] found d =
      inr (λ h. elim h [ inl empty ↦ cc empty | inr p ↦ p.0 refl ], refl)
  include_decided (x ∷ xs) (c ∷ cs) found (inl (p, e)) = inl (inr (λ empty. cc empty, p), rw e refl)
  include_decided (x ∷ xs) (c ∷ cs) found (inr (n, e)) =
      inr (λ h. elim h [ inl empty ↦ cc empty | inr p ↦ n p.1 ], rw e refl)

  exclude_decided :
      (test : A → Bool) (xs : List A) (path : Text)
      → Decides
          ((path ≡ []) ⊎ All (λ x. test x ≡ false) xs)
          (has_items xs && has_items path && any_of test xs)
  exclude_decided test [] path = inl (inr tt, refl)
  exclude_decided test (x ∷ xs) [] = inl (inl refl, refl)
  exclude_decided test (x ∷ xs) (c ∷ cs) = elim (any_of-All test (x ∷ xs)) [
    | inl (h, e) ↦ inl (inr h, rw e refl)
    | inr (n, e) ↦ inr (λ h. elim h [ inl empty ↦ cc empty | inr p ↦ n p ], rw e refl)
  ]

read_decided : (skip r : Bool) → Decides ((skip ≡ false) ⊎ (r ≡ true)) (skip && not r)
read_decided false r = inl (inl refl, refl)
read_decided true true = inl (inr refl, refl)
read_decided true false = inr (λ h. elim h [ inl e ↦ cc e | inr e ↦ cc e ], refl)

size_decided : (max size : ℕ) → Decides ((max ≡ 0) ⊎ (size ≤ max)) (ltb 0 max && ltb max size)
size_decided max size = elim (Bool-cases (ltb 0 max && ltb max size)) [
  | inl e ↦ inr (λ h. ground arith, e)
  | inr e ↦ inl (ground arith, e)
]

module _ {Pattern : Type 0} (search : Pattern → Text → Bool) (f : RegionFilter Pattern)
    (base size : ℕ) (r w x : Bool) (path : Text) where
  -- What the setting asks that the reason names; a setting that is empty asks nothing. The region has
  -- the rights `r`, `w` and `x`, and the setting asks for the rights `p`, `q` and `s`.
  abbrev pub Meets : (p q s : Bool) → SkipReason → Type 0
  Meets p q s no_read = (f.skip_no_read ≡ false) ⊎ (r ≡ true)
  Meets p q s max_size = (f.max_region_size ≡ 0) ⊎ (size ≤ f.max_region_size)
  Meets p q s min_prot =
      ((p ≡ false) ⊎ (r ≡ true)) × (((q ≡ false) ⊎ (w ≡ true)) × ((s ≡ false) ⊎ (x ≡ true)))
  Meets p q s addr_range = (f.addr_ranges ≡ []) ⊎ Some (Shares base size) f.addr_ranges
  Meets p q s path_include =
      (f.includes ≡ []) ⊎ ((path ≡ [] → ⊥) × Some (λ pat. search pat path ≡ true) f.includes)
  Meets p q s path_exclude = (path ≡ []) ⊎ All (λ pat. search pat path ≡ false) f.excludes

  -- The test of the code for each of them.
  abbrev pub fails : (asked : ℕ) → SkipReason → Bool
  fails asked no_read = f.skip_no_read && (bit_and (rights r w x) 1 == 0)
  fails asked max_size = ltb 0 f.max_region_size && ltb f.max_region_size size
  fails asked min_prot = not (asked == 0) && not (bit_and (rights r w x) asked == asked)
  fails asked addr_range =
      has_items f.addr_ranges && not (any_of (overlaps base (base + size)) f.addr_ranges)
  fails asked path_include =
      (has_items f.includes && has_items path && not (found_in search f.includes path))
      || (has_items f.includes && not (has_items path))
  fails asked path_exclude =
      has_items f.excludes && has_items path && found_in search f.excludes path

  granted_by : (p q s : Bool) → Decides (Meets p q s min_prot) (not (granted_all p q s r w x))
  granted_by p q s =
      and_decided (not p || r) _ (granted_decided p r)
        (and_decided (not q || w) (not s || x) (granted_decided q w) (granted_decided s x))

  decides_rights :
      (p q s : Bool)
      → Decides (Meets p q s min_prot) (not (rights p q s == 0) && not (granted_all p q s r w x))
  decides_rights false false false = inl ((inl refl, (inl refl, inl refl)), refl)
  decides_rights true true true = granted_by true true true
  decides_rights true true false = granted_by true true false
  decides_rights true false true = granted_by true false true
  decides_rights true false false = granted_by true false false
  decides_rights false true true = granted_by false true true
  decides_rights false true false = granted_by false true false
  decides_rights false false true = granted_by false false true

  pub decides :
      (p q s : Bool)
      → 0 < size
      → All IsRange f.addr_ranges
      → (why : SkipReason) → Decides (Meets p q s why) (fails (rights p q s) why)
  unfolding found_in
  decides p q s h hs no_read = rw (bit_and-read r w x) (read_decided f.skip_no_read r)
  decides p q s h hs max_size = size_decided f.max_region_size size
  decides p q s h hs min_prot = rw (bit_and-rights p q s r w x) (decides_rights p q s)
  decides p q s h hs addr_range = or_empty f.addr_ranges _ (
      any_of-Some (Shares base size) (overlaps base (base + size)) f.addr_ranges
        (each_overlap base size f.addr_ranges h hs))
  decides p q s h hs path_include =
      include_decided f.includes path (found_in search f.includes path) (
        any_of-Some (λ pat. search pat path ≡ true) (λ pat. search pat path) f.includes
          (each_pattern search path f.includes))
  decides p q s h hs path_exclude = exclude_decided (λ pat. search pat path) f.excludes path
