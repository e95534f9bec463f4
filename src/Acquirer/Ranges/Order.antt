-- ===== src/Acquirer/Ranges/Order.antt =====
-- The order in which the ranges are read.
use memslicer.Prelude.{
  ◌<◌, ◌≤◌, ◌⊎◌, Bool, ◌||◌, has_part, codes, ℕ, ◌≡◌, true, false, List, [], ◌∷◌, All,
}
use mathlib.Core.List.{Perm}
use mathlib.Core.List.Perm
use memslicer.Utils.{Text}
use memslicer.Utils.Rights.{may_read, may_write, may_execute}
use memslicer.Acquirer.Bridge.{MemoryRange}
use memslicer.Acquirer.Ranges.{volatility_key, key_before, is_live}

-- No key after the first is before it.
abbrev Least : MemoryRange → List MemoryRange → Type 0
Least r rs = All (λ s. key_before (volatility_key s) (volatility_key r) ≡ false) rs

abbrev IsSorted : List MemoryRange → Type 0
IsSorted [] = Unit {0}
IsSorted (r ∷ rs) = Least r rs × IsSorted rs

-- The part of a process that a range belongs to, as its protection and its path tell: 0 is what may
-- be read and written, but not executed, and has no path or that of a heap or a stack; 1 may be read,
-- written and executed, 2 read and executed, 3 only read, and 4 is all else.
abbrev pub rank : (may_read may_write may_execute is_live : Bool) → ℕ
rank true true false true = 0
rank true true true live = 1
rank true false true live = 2
rank true false false live = 3
rank r w x live = 4

abbrev pub has_live_path : Text → Bool
has_live_path [] = true
has_live_path (c ∷ cs) = has_part (c ∷ cs) (codes "[heap]") || has_part (c ∷ cs) (codes "[stack]")

abbrev pub rank_of : MemoryRange → ℕ
rank_of m =
    rank (may_read m.protection) (may_write m.protection) (may_execute m.protection)
      (has_live_path m.file_path)

-- The first is of a lower rank, or of the same rank and of no greater address.
abbrev pub NotAfter : MemoryRange → MemoryRange → Type 0
NotAfter m n = (rank_of m < rank_of n) ⊎ ((rank_of m ≡ rank_of n) × (m.base ≤ n.base))

abbrev pub IsOrdered : List MemoryRange → Type 0
IsOrdered [] = Unit {0}
IsOrdered (m ∷ ms) = All (NotAfter m) ms × IsOrdered ms
