-- ===== src/Acquirer/RegionFilter/Laws.antt =====
-- What the filter keeps, and which reason it gives for a region that it skips.
use memslicer.Prelude.{
  ℕ, ◌<◌, ◌≡◌, ◌↔◌, refl, sym, inl, inr, ◌||◌, if◌then◌else◌, Bool, true, false, Option, none, some,
  List, [], ◌∷◌, All,
}
use mathlib.Core.Path.{subst}
use memslicer.Utils.{Text}
use memslicer.Utils.Rights.{rights}
use memslicer.Acquirer.RegionFilter.{
  SkipReason, no_read, max_size, min_prot, addr_range, path_include, path_exclude, RegionFilter,
  skip_reason, matches, is_none,
}
use memslicer.Acquirer.RegionFilter.Settings.{IsRange, Decides, Meets, fails, decides}

-- The reasons whose settings are asked before this one.
abbrev pub before : SkipReason → List SkipReason
before no_read = []
before max_size = no_read ∷ []
before min_prot = no_read ∷ max_size ∷ []
before addr_range = no_read ∷ max_size ∷ min_prot ∷ []
before path_include = no_read ∷ max_size ∷ min_prot ∷ addr_range ∷ []
before path_exclude = no_read ∷ max_size ∷ min_prot ∷ addr_range ∷ path_include ∷ []

-- The first setting whose test fails.
abbrev first_failing : (SkipReason → Bool) → Option SkipReason
first_failing fails =
    if fails no_read
    then some no_read
    else if fails max_size
    then some max_size
    else if fails min_prot
    then some min_prot
    else if fails addr_range
    then some addr_range
    else if fails path_include
    then some path_include
    else if fails path_exclude
    then some path_exclude
    else none

if_or {ℓ} :
    {A : Type ℓ} (a b : Bool) (u v : A)
    → (if a then u else if b then u else v) ≡ (if a || b then u else v)
if_or true b u v = refl
if_or false b u v = refl

module _ {Pattern : Type 0} (search : Pattern → Text → Bool) (f : RegionFilter Pattern)
    (base size : ℕ) (r w x : Bool) (path : Text) (p q s : Bool) where
  -- No reason for a region that meets every setting; otherwise the first setting that is not met.
  abbrev pub IsAnswer : Option SkipReason → Type 0
  IsAnswer none = (why : SkipReason) → Meets search f base size r w x path p q s why
  IsAnswer (some why) =
      (Meets search f base size r w x path p q s why → ⊥)
      × All (Meets search f base size r w x path p q s) (before why)

  decided :
      f.min_prot ≡ rights p q s
      → 0 < size
      → All IsRange f.addr_ranges
      → (why : SkipReason)
      → Decides
          (Meets search f base size r w x path p q s why)
          (fails search f base size r w x path f.min_prot why)
  decided asked h hs why = rw asked (decides search f base size r w x path p q s h hs why)

  first_failing-IsAnswer :
      (test : SkipReason → Bool)
      → ((why : SkipReason) → Decides (Meets search f base size r w x path p q s why) (test why))
      → IsAnswer (first_failing test)
  first_failing-IsAnswer test d = elim (d no_read) [
    | inr (n1, e1) ↦ rw e1 (n1, tt)
    | inl (m1, e1) ↦ elim (d max_size) [
      | inr (n2, e2) ↦ rw (e1, e2) (n2, (m1, tt))
      | inl (m2, e2) ↦ elim (d min_prot) [
        | inr (n3, e3) ↦ rw (e1, e2, e3) (n3, (m1, (m2, tt)))
        | inl (m3, e3) ↦ elim (d addr_range) [
          | inr (n4, e4) ↦ rw (e1, e2, e3, e4) (n4, (m1, (m2, (m3, tt))))
          | inl (m4, e4) ↦ elim (d path_include) [
            | inr (n5, e5) ↦ rw (e1, e2, e3, e4, e5) (n5, (m1, (m2, (m3, (m4, tt)))))
            | inl (m5, e5) ↦ elim (d path_exclude) [
              | inr (n6, e6) ↦ rw (e1, e2, e3, e4, e5, e6) (n6, (m1, (m2, (m3, (m4, (m5, tt))))))
              | inl (m6, e6) ↦
                  rw (e1, e2, e3, e4, e5, e6)
                    (λ why. elim why as (λ k. Meets search f base size r w x path p q s k) [
                      | no_read ↦ m1
                      | max_size ↦ m2
                      | min_prot ↦ m3
                      | addr_range ↦ m4
                      | path_include ↦ m5
                      | path_exclude ↦ m6
                    ])
            ]
          ]
        ]
      ]
    ]
  ]

  skip_reason-first_failing :
      skip_reason search f base size (rights r w x) path
      ≡ first_failing (fails search f base size r w x path f.min_prot)
  unfolding skip_reason
  skip_reason-first_failing = simp (if_or)

  IsAnswer-is_none :
      (answer : Option SkipReason)
      → IsAnswer answer
      → (is_none answer ≡ true)
        ↔ ((why : SkipReason) → Meets search f base size r w x path p q s why)
  IsAnswer-is_none none h = (λ e. h, λ all. refl)
  IsAnswer-is_none (some why) (n, h) = (λ e. cc e, λ all. absurd (n (all why)))

  -- For a filter whose least protection is a set of rights and whose address ranges are not empty, and
  -- a region of some bytes with some rights: the filter lets the region pass exactly where it meets
  -- each setting. In the order of the settings: it is readable if that is asked for, is not too large,
  -- has each right asked for, has an address in one of the ranges, has a path in which an including
  -- pattern is found, and none in which an excluding one is; a setting that is empty asks nothing.
  -- Where the region is skipped, the reason names the first setting in this order that it does not
  -- meet.
  pub skip_reason-IsAnswer :
      f.min_prot ≡ rights p q s
      → 0 < size
      → All IsRange f.addr_ranges
      → IsAnswer (skip_reason search f base size (rights r w x) path)
        × ((matches search f base size (rights r w x) path ≡ true)
            ↔ ((why : SkipReason) → Meets search f base size r w x path p q s why))
  unfolding matches
  skip_reason-IsAnswer asked h hs =
      let answer =
        subst IsAnswer (sym skip_reason-first_failing)
          (first_failing-IsAnswer _ (decided asked h hs)) in
      (answer, IsAnswer-is_none _ answer)
