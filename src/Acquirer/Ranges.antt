-- ===== src/Acquirer/Ranges.antt =====
-- memslicer/acquirer/engine.py: the kinds of memory ranges, and the order in which they are read.
pub mod Order
use memslicer.Prelude.{
  ℕ, ◌+◌, Bool, true, false, not, ◌&&◌, ◌||◌, List, [], ◌∷◌, ltb, leb, ◌==◌, bit_and, has_part,
  ends_with, any_of, if◌then◌else◌,
}
use memslicer.Utils.{Text, parse_protection, prot_r, prot_w, prot_x, is_rwx}
use memslicer.Msl.Constants.{RegionType, anon, heap, stack, image, mapped_file, unknown_region}
use memslicer.Acquirer.Bridge.{MemoryRange}

unfoldable pub classify_region : Text → RegionType
classify_region [] = anon
classify_region (c ∷ cs) =
    let file_path = c ∷ cs in
    if has_part file_path (b'[' ∷ b'h' ∷ b'e' ∷ b'a' ∷ b'p' ∷ b']' ∷ [])
    then heap
    else if has_part file_path (b'[' ∷ b's' ∷ b't' ∷ b'a' ∷ b'c' ∷ b'k' ∷ b']' ∷ [])
    then stack
    else if any_of (ends_with file_path) (
        (b'.' ∷ b's' ∷ b'o' ∷ [])
        ∷ (b'.' ∷ b'd' ∷ b'y' ∷ b'l' ∷ b'i' ∷ b'b' ∷ [])
        ∷ (b'.' ∷ b'd' ∷ b'l' ∷ b'l' ∷ [])
        ∷ (b'.' ∷ b'e' ∷ b'x' ∷ b'e' ∷ [])
        ∷ [])
    then image
    else if has_part file_path (b'/' ∷ []) || has_part file_path (b'\\' ∷ [])
    then mapped_file
    else unknown_region

abbrev is_live : RegionType → Bool
is_live anon = true
is_live heap = true
is_live stack = true
is_live _ = false

-- The first item of the key.
unfoldable pub volatility : ℕ → RegionType → ℕ
unfolding is_rwx
volatility prot region_type =
    let has_r = not (bit_and prot prot_r == 0) in
    let has_w = not (bit_and prot prot_w == 0) in
    let has_x = not (bit_and prot prot_x == 0) in
    if has_r && has_w && not has_x && is_live region_type
    then 0
    else if is_rwx prot
    then 1
    else if has_r && has_x && not has_w
    then 2
    else if has_r && not has_w && not has_x
    then 3
    else 4

unfoldable pub volatility_key : MemoryRange → ℕ × ℕ
unfolding parse_protection classify_region volatility
volatility_key r =
    (volatility (parse_protection r.protection) (classify_region r.file_path), r.base)

-- Tuples are compared item by item.
abbrev pub key_before : ℕ × ℕ → ℕ × ℕ → Bool
key_before (p, a) (q, b) = ltb p q || (p == q && ltb a b)

-- ranges.sort(key=volatility_key): a stable sort
unfoldable pub insert_range : MemoryRange → List MemoryRange → List MemoryRange
unfolding volatility_key
insert_range r [] = r ∷ []
insert_range r (s ∷ ss) =
    let rest = insert_range r ss in
    if key_before (volatility_key s) (volatility_key r) then s ∷ rest else r ∷ s ∷ ss

unfoldable pub sort_ranges : List MemoryRange → List MemoryRange
unfolding insert_range
sort_ranges [] = []
sort_ranges (r ∷ rs) = insert_range r (sort_ranges rs)
