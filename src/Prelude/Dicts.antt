-- ===== src/Prelude/Dicts.antt =====
-- Python's `dict` as its items in the order of insertion, over a test for equal keys.
use mathlib.Core.Bool.{Bool}
use mathlib.Core.Option.{Option, none, some}
use mathlib.Core.List.{List, [], ◌∷◌}
use memslicer.Prelude.Tests.{if◌then◌else◌}

abbrev pub Dict {ℓ κ} : Type ℓ → Type κ → Type (ℓ ⊔ κ)
Dict K V = List (K × V)

module _ {ℓ κ} {K : Type ℓ} {V : Type κ} (same : K → K → Bool) where
  -- d.get(k)
  abbrev pub dict_get : Dict K V → K → Option V
  dict_get [] k = none
  dict_get ((j, v) ∷ d) k = let rest = dict_get d k in if same j k then some v else rest

  -- d[k] = v: a new key goes to the end.
  abbrev pub dict_put : Dict K V → K → V → Dict K V
  dict_put [] k v = (k, v) ∷ []
  dict_put ((j, w) ∷ d) k v =
      let rest = dict_put d k v in if same j k then (j, v) ∷ d else (j, w) ∷ rest
