-- ===== src/Behavior/Resolver.antt =====
-- memslicer/behavior/resolver.py, of a resolver that is made by `from_image`: it reads no memory, so
-- it has no exports.
pub mod Laws
use memslicer.Prelude.{
  ℕ, suc, ◌+◌, ◌-◌, Bool, true, false, ◌&&◌, Option, none, some, List, [], ◌∷◌, ◌++◌, leb, ltb,
  ◌==◌, if◌then◌else◌,
}
use memslicer.Utils.{Text}
use memslicer.Emu.Loader.{EmuModule, SliceImage, module_name}
use memslicer.Behavior.Graph.{code_id}

-- sorted(modules, key=lambda m: m.base)
unfoldable pub insert_module : EmuModule → List EmuModule → List EmuModule
insert_module m [] = m ∷ []
insert_module m (n ∷ ns) =
    let rest = insert_module m ns in if ltb n.base m.base then n ∷ rest else m ∷ n ∷ ns

unfoldable pub sort_modules : List EmuModule → List EmuModule
unfolding insert_module
sort_modules [] = []
sort_modules (m ∷ ms) = insert_module m (sort_modules ms)

unfoldable pub from_image : SliceImage → List EmuModule
unfolding sort_modules
from_image image = sort_modules image.modules

unfoldable pub in_module : ℕ → EmuModule → Bool
in_module addr m = leb m.base addr && ltb addr (m.base + m.size)

unfoldable pub module_at : ℕ → List EmuModule → Option EmuModule
unfolding in_module
module_at addr [] = none
module_at addr (m ∷ ms) = if in_module addr m then some m else module_at addr ms

-- f"{mod.name}+{off:#x}" if off else mod.name
unfoldable pub module_offset : EmuModule → ℕ → Text
unfolding module_name code_id
module_offset m off =
    if off == 0 then module_name m else module_name m ++ ((b'+' ∷ []) ++ code_id off)

unfoldable pub resolve : ℕ → List EmuModule → Option Text
unfolding module_at module_offset
resolve addr ms = elim (module_at addr ms) [
  | none ↦ none
  | some m ↦ some (module_offset m (addr - m.base))
]

abbrev or_hex : Option Text → ℕ → Text
or_hex none addr = code_id addr
or_hex (some []) addr = code_id addr
or_hex (some (c ∷ cs)) addr = c ∷ cs

unfoldable pub label : ℕ → List EmuModule → Text
unfolding resolve code_id
label addr ms = or_hex (resolve addr ms) addr
