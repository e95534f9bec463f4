-- ===== src/Behavior/Dataflow/Sources.antt =====
-- What an event of a trace can be the source of, and dictionaries of which each item has a property.
use memslicer.Prelude.{
  ℕ, ◌≡◌, ◌⊎◌, inl, inr, refl, sym, Bool, true, false, some, List, [], ◌∷◌, ◌++◌, get_elem?, ◌==◌,
  ==_iff, ==_refl, same_text, Dict, dict_get, dict_put, All, Bool-cases,
}
use mathlib.Core.Path.{subst}
use memslicer.Utils.{Text}
use memslicer.Behavior.Graph.{
  EdgeType, fallthrough, jump, call, ret_edge, seq_edge, invoke, dataflow, buffer, Edge,
  SystemEvent, system_id,
}
use memslicer.Behavior.Dataflow.{is_taintable}

pub same_text_refl : (s : Text) → same_text s s ≡ true
same_text_refl [] = refl
same_text_refl (c ∷ cs) = rw (==_refl c) (same_text_refl cs)

abbrev pub id_of : SystemEvent → Text
id_of ev = system_id ev.kind ev.name

-- An event stands in a trace.
abbrev pub Stands : SystemEvent → List SystemEvent → Type 0
Stands ev past = (a : List SystemEvent) × (b : List SystemEvent) × (past ≡ a ++ (ev ∷ b))

-- A call of the node returned the value.
abbrev pub Returned : List SystemEvent → ℕ → Text → Type 0
Returned past v src =
    (ev : SystemEvent) × Stands ev past × (system_id ev.kind ev.name ≡ src) × (ev.ret ≡ some v)

-- A call of the node had the value as an argument.
abbrev pub Used : List SystemEvent → ℕ → Text → Type 0
Used past v src =
    (ev : SystemEvent) × (i : ℕ) × Stands ev past
    × (system_id ev.kind ev.name ≡ src)
    × (get_elem? ev.args i ≡ some (some v))

-- What links the source of an edge to the value: edges of control flow carry none.
abbrev pub Because : EdgeType → List SystemEvent → ℕ → Text → Type 0
Because fallthrough past v src = Unit {0}
Because jump past v src = Unit {0}
Because call past v src = Unit {0}
Because ret_edge past v src = Unit {0}
Because seq_edge past v src = Unit {0}
Because invoke past v src = Unit {0}
Because dataflow past v src = Returned past v src
Because buffer past v src = Used past v src

abbrev pub is_flow : EdgeType → Bool
is_flow fallthrough = false
is_flow jump = false
is_flow call = false
is_flow ret_edge = false
is_flow seq_edge = false
is_flow invoke = false
is_flow dataflow = true
is_flow buffer = true

-- The target is a call with the value as the argument of the index, and the source has it from
-- before that call.
abbrev pub Explained : ℕ → List SystemEvent → Edge → Type 0
Explained min_value trace e =
    (is_flow e.edge_type ≡ false)
    ⊎ ((past : List SystemEvent) × (ev : SystemEvent) × (rest : List SystemEvent) × (v : ℕ)
        × (i : ℕ) × (trace ≡ past ++ (ev ∷ rest))
        × (e.value ≡ some (v, i))
        × (is_taintable min_value v ≡ true)
        × (e.target ≡ system_id ev.kind ev.name)
        × (get_elem? ev.args i ≡ some (some v))
        × Because e.edge_type past v e.source)

module _ {ℓ κ μ} {K : Type ℓ} {V : Type κ} (P : K → V → Type μ) where
  abbrev pub Items : Dict K V → Type μ
  Items d = All (λ item. P item.0 item.1) d

  pub Items-get :
      (same : K → K → Bool) (respects : (j k : K) (v : V) → same j k ≡ true → P j v → P k v)
      (d : Dict K V) (k : K) (v : V)
      → Items d
      → dict_get same d k ≡ some v
      → P k v
  Items-get same respects [] k v h e = cc e
  Items-get same respects ((j, w) ∷ d) k v (hw, h) e = elim (Bool-cases (same j k)) [
    | inl t ↦
        let same_value : w ≡ v = cc (rw t at e) in subst (P k) same_value (respects j k w t hw)
    | inr f ↦ Items-get same respects d k v h (rw f at e)
  ]

  pub Items-put :
      (same : K → K → Bool) (respects : (j k : K) (v : V) → same j k ≡ true → P k v → P j v)
      (d : Dict K V) (k : K) (v : V)
      → Items d
      → P k v
      → Items (dict_put same d k v)
  Items-put same respects [] k v h hv = (hv, tt)
  Items-put same respects ((j, w) ∷ d) k v (hw, h) hv = elim (Bool-cases (same j k)) [
    | inl t ↦ rw t (respects j k v t hv, h)
    | inr f ↦ rw f (hw, Items-put same respects d k v h hv)
  ]

pub number_respects : (P : ℕ → Text → Type 0) (j k : ℕ) (v : Text) → (j == k) ≡ true → P j v → P k v
number_respects P j k v e h = subst (λ (n : ℕ). P n v) ((==_iff j k).0 e) h

pub number_respects_back :
    (P : ℕ → Text → Type 0) (j k : ℕ) (v : Text) → (j == k) ≡ true → P k v → P j v
number_respects_back P j k v e h = subst (λ (n : ℕ). P n v) (sym ((==_iff j k).0 e)) h
