-- ===== src/Acquirer/RegionFilter.antt =====
-- memslicer/acquirer/region_filter.py. A compiled pattern is a value of a type of its own, and
-- `search` is what `pattern.search(text)` answers: whether it finds anything.
pub mod Settings
pub mod Laws
use memslicer.Prelude.{
  ℕ, ◌+◌, Bool, true, false, not, ◌&&◌, ◌||◌, Option, none, some, List, [], ◌∷◌, ltb, ◌==◌, bit_and,
  any_of, if◌then◌else◌,
}
use memslicer.Utils.{Text}

pub data SkipReason : Type 0 where
  no_read max_size min_prot addr_range path_include path_exclude : SkipReason

-- `include_paths` and `exclude_paths` compiled, as `__post_init__` leaves them
pub record RegionFilter (Pattern : Type 0) : Type 0 where
  pub addr_ranges : List (ℕ × ℕ)
  pub min_prot : ℕ
  pub includes : List Pattern
  pub excludes : List Pattern
  pub skip_no_read : Bool
  pub max_region_size : ℕ

abbrev pub is_none {ℓ} : {A : Type ℓ} → Option A → Bool
is_none none = true
is_none (some a) = false

abbrev pub has_items {ℓ} : {A : Type ℓ} → List A → Bool
has_items [] = false
has_items (a ∷ as') = true

-- base_addr < range_end and region_end > range_start
unfoldable pub overlaps : ℕ → ℕ → ℕ × ℕ → Bool
overlaps base_addr region_end (range_start, range_end) =
    ltb base_addr range_end && ltb range_start region_end

module _ {Pattern : Type 0} (search : Pattern → Text → Bool) where
  -- any(pat.search(file_path) for pat in patterns)
  unfoldable pub found_in : List Pattern → Text → Bool
  found_in patterns path = any_of (λ pat. search pat path) patterns

  unfoldable pub skip_reason : RegionFilter Pattern → ℕ → ℕ → ℕ → Text → Option SkipReason
  unfolding overlaps found_in
  skip_reason f base_addr size protection path =
      let region_end = base_addr + size in
      if f.skip_no_read && (bit_and protection 1 == 0)
      then some no_read
      else if ltb 0 f.max_region_size && ltb f.max_region_size size
      then some max_size
      else if not (f.min_prot == 0) && not (bit_and protection f.min_prot == f.min_prot)
      then some min_prot
      else if has_items f.addr_ranges && not (any_of (overlaps base_addr region_end) f.addr_ranges)
      then some addr_range
      else if has_items f.includes && has_items path && not (found_in f.includes path)
      then some path_include
      else if has_items f.includes && not (has_items path)
      then some path_include
      else if has_items f.excludes && has_items path && found_in f.excludes path
      then some path_exclude
      else none

  unfoldable pub matches : RegionFilter Pattern → ℕ → ℕ → ℕ → Text → Bool
  unfolding skip_reason
  matches f base_addr size protection path = is_none (skip_reason f base_addr size protection path)
