-- ===== src/Behavior/Resolver/Laws.antt =====
-- The module that an address resolves to.
use memslicer.Prelude.{
  ap, ◌++◌, ℕ, ◌≤◌, ◌≡◌, inl, inr, refl, true, false, Option, none, some, List, [], ◌∷◌, ltb, All,
  Bool-cases, arith,
}
use mathlib.Core.List.{Perm}
use mathlib.Core.List.Perm
use memslicer.Emu.Loader.{EmuModule, SliceImage}
use memslicer.Behavior.Resolver.{insert_module, sort_modules, from_image, in_module, module_at}

-- Every module stands before those of a greater base.
abbrev pub IsByBase : List EmuModule → Type 0
IsByBase [] = Unit {0}
IsByBase (m ∷ ms) = All (λ n. m.base ≤ n.base) ms × IsByBase ms

All-insert :
    (b : ℕ) (m : EmuModule) (ms : List EmuModule)
    → b ≤ m.base
    → All (λ n. b ≤ n.base) ms
    → All (λ n. b ≤ n.base) (insert_module m ms)
unfolding insert_module
All-insert b m [] h all = (h, tt)
All-insert b m (n ∷ ns) h (hn, all) = elim (Bool-cases (ltb n.base m.base)) [
  | inl e ↦ rw e (hn, All-insert b m ns h all)
  | inr e ↦ rw e (h, (hn, all))
]

All-weaken :
    (a b : ℕ) (ms : List EmuModule) → a ≤ b → All (λ n. b ≤ n.base) ms → All (λ n. a ≤ n.base) ms
All-weaken a b [] h all = tt
All-weaken a b (m ∷ ms) h (hm, all) = (omega arith, All-weaken a b ms h all)

insert_module-IsByBase :
    (m : EmuModule) (ms : List EmuModule) → IsByBase ms → IsByBase (insert_module m ms)
unfolding insert_module
insert_module-IsByBase m [] h = (tt, tt)
insert_module-IsByBase m (n ∷ ns) (all, h) = elim (Bool-cases (ltb n.base m.base)) [
  | inl e ↦ rw e (All-insert n.base m ns (ground arith) all, insert_module-IsByBase m ns h)
  | inr e ↦
      let le : m.base ≤ n.base = ground arith in
      rw e ((le, All-weaken m.base n.base ns le all), (all, h))
]

insert_module-Perm : (m : EmuModule) (ms : List EmuModule) → Perm (insert_module m ms) (m ∷ ms)
unfolding insert_module
insert_module-Perm m [] = Perm.refl (m ∷ [])
insert_module-Perm m (n ∷ ns) = elim (Bool-cases (ltb n.base m.base)) [
  | inl e ↦ rw e (Perm.trans (Perm.cons n (insert_module-Perm m ns)) (Perm.swap m n ns))
  | inr e ↦ rw e (Perm.refl (m ∷ n ∷ ns))
]

sort_modules-Perm : (ms : List EmuModule) → Perm (sort_modules ms) ms
unfolding sort_modules
sort_modules-Perm [] = Perm.refl []
sort_modules-Perm (m ∷ ms) =
    Perm.trans (insert_module-Perm m (sort_modules ms)) (Perm.cons m (sort_modules-Perm ms))

sort_modules-IsByBase : (ms : List EmuModule) → IsByBase (sort_modules ms)
unfolding sort_modules
sort_modules-IsByBase [] = tt
sort_modules-IsByBase (m ∷ ms) =
    insert_module-IsByBase m (sort_modules ms) (sort_modules-IsByBase ms)

-- How a scan of modules in order ends: with the first that has the address, or with none that has it.
abbrev pub Scanned : ℕ → List EmuModule → Option EmuModule → Type 0
Scanned addr ms none = All (λ m. in_module addr m ≡ false) ms
Scanned addr ms (some m) =
    (before : List EmuModule) × (behind : List EmuModule) × (ms ≡ before ++ (m ∷ behind))
    × (in_module addr m ≡ true)
    × All (λ n. in_module addr n ≡ false) before
    × All (λ n. m.base ≤ n.base) behind

Scanned-cons :
    (addr : ℕ) (m : EmuModule) (ms : List EmuModule) (found : Option EmuModule)
    → in_module addr m ≡ false
    → Scanned addr ms found
    → Scanned addr (m ∷ ms) found
Scanned-cons addr m ms none out h = (out, h)
Scanned-cons addr m ms (some n) out (before, behind, split, inside, passed, order) =
    (m ∷ before, behind, ap (λ (t : List EmuModule). m ∷ t) split, inside, (out, passed), order)

module_at-Scanned :
    (addr : ℕ) (ms : List EmuModule) → IsByBase ms → Scanned addr ms (module_at addr ms)
unfolding module_at
module_at-Scanned addr [] h = tt
module_at-Scanned addr (m ∷ ms) (order, h) = elim (Bool-cases (in_module addr m)) [
  | inl e ↦ rw e ([], ms, refl, e, tt, order)
  | inr e ↦ rw e (Scanned-cons addr m ms (module_at addr ms) e (module_at-Scanned addr ms h))
]

-- An address resolves to the module of the least base among those of the image that contain it, and
-- to no module only where none contains it; the modules scanned are those of the image.
pub module_at-from_image :
    (image : SliceImage) (addr : ℕ)
    → Perm (from_image image) image.modules
      × Scanned addr (from_image image) (module_at addr (from_image image))
unfolding from_image
module_at-from_image image addr = (
  sort_modules-Perm image.modules,
  module_at-Scanned addr (sort_modules image.modules) (sort_modules-IsByBase image.modules),
)
