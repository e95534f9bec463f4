-- ===== src/Behavior/Dataflow/Sound.antt =====
-- Every link between calls has its reason in the trace.
use memslicer.Prelude.{
  ℕ, suc, ◌+◌, ◌≡◌, ◌⊎◌, inl, inr, refl, sym, ap, ◌∙◌, Bool, true, false, Option, none, some, List,
  [], ◌∷◌, ◌++◌, get_elem?, ◌==◌, same_text, Dict, dict_get, All, Bool-cases, Option-cases,
  append_assoc, arith,
}
use memslicer.Utils.{Text}
use memslicer.Behavior.Graph.{
  EdgeType, dataflow, buffer, Edge, Key, BehaviorGraph, SystemEvent, same_key,
}
use memslicer.Behavior.Dataflow.{
  is_taintable, counted_value, add_value_edge, edge_from, Links, link_arg, link_args, produce,
  link_events, link_dataflow,
}
use memslicer.Behavior.Dataflow.Sources.{
  same_text_refl, id_of, Stands, Returned, Used, Because, Explained, Items, Items-get, Items-put,
  number_respects, number_respects_back,
}

module _ (m : ℕ) (trace : List SystemEvent) where
  abbrev AllExplained : Dict Key Edge → Type 0
  AllExplained edges = Items (λ k e. Explained m trace e) edges

  add_value_edge-AllExplained :
      (edges : Dict Key Edge) (src dst : Text) (etype : EdgeType) (v i : ℕ)
      → AllExplained edges
      → Explained m trace
          (record { source = src; target = dst; edge_type = etype; count = 1; value = some (v, i) })
      → AllExplained (add_value_edge edges src dst etype v i)
  unfolding add_value_edge counted_value
  add_value_edge-AllExplained edges src dst etype v i h fresh =
      let key : Key = (src, dst, etype) in
      Items-put (λ k e. Explained m trace e) same_key (λ j k w t p. p) edges key
        (counted_value src dst etype v i (dict_get same_key edges key)) h
        (elim (Option-cases (dict_get same_key edges key)) [
          | inl missing ↦ rw missing fresh
          | inr (e, found) ↦
              rw found (
                Items-get (λ k e. Explained m trace e) same_key (λ j k w t p. p) edges key e h
                  found)
        ])

  -- While a call is linked, with the trace before it
  module _ (past rest : List SystemEvent) (ev : SystemEvent)
      (split : trace ≡ past ++ (ev ∷ rest)) where
    abbrev IsArg : ℕ → ℕ → Type 0
    IsArg v i = get_elem? ev.args i ≡ some (some v)

    edge_from-AllExplained :
        (edges : Dict Key Edge) (src : Option Text) (etype : EdgeType) (v i : ℕ)
        → AllExplained edges
        → is_taintable m v ≡ true
        → IsArg v i
        → ((s : Text) → src ≡ some s → same_text s (id_of ev) ≡ false → Because etype past v s)
        → AllExplained (edge_from edges src (id_of ev) etype v i)
    unfolding edge_from
    edge_from-AllExplained edges none etype v i h taint arg why = h
    edge_from-AllExplained edges (some s) etype v i h taint arg why =
        elim (Bool-cases (same_text s (id_of ev))) [
          | inl own ↦ rw own h
          | inr other ↦ rw other (
              add_value_edge-AllExplained edges s (id_of ev) etype v i h
                (inr (past, ev, rest, v, i, split, refl, taint, refl, arg, why s refl other)))
        ]

    not_self : (s : Text) → s ≡ id_of ev → same_text s (id_of ev) ≡ false → ⊥
    not_self s own other = cc (sym (same_text_refl s) ∙ ap (same_text s) own ∙ other)

    -- The last user of a value: a call before, or this one.
    abbrev UsedSoFar : ℕ → Text → Type 0
    UsedSoFar v s = Used past v s ⊎ ((s ≡ id_of ev) × (i : ℕ) × IsArg v i)

    link_arg-AllExplained :
        (buffers : Bool) (produced : Dict ℕ Text) (i : ℕ) (arg : Option ℕ) (links : Links)
        → get_elem? ev.args i ≡ some arg
        → Items (Returned past) produced
        → AllExplained links.0
        → Items UsedSoFar links.1
        → (let out = link_arg m buffers produced (id_of ev) i arg links in
            AllExplained out.0 × Items UsedSoFar out.1)
    unfolding link_arg
    link_arg-AllExplained buffers produced i none links at hp he hu = (he, hu)
    link_arg-AllExplained buffers produced i (some v) (edges, users) at hp he hu =
        elim (Bool-cases (is_taintable m v)) [
          | inr trivial ↦ rw trivial (he, hu)
          | inl taint ↦
              let flow =
                edge_from-AllExplained edges (dict_get ◌==◌ produced v) dataflow v i he taint at
                  (λ s found other.
                    Items-get (Returned past) ◌==◌ (number_respects (Returned past)) produced v s hp
                      found) in
              elim (Bool-cases buffers) [
                | inr off ↦ rw (taint, off) (flow, hu)
                | inl on ↦
                    rw (taint, on)
                      (
                        edge_from-AllExplained
                            (edge_from edges (dict_get ◌==◌ produced v) (id_of ev) dataflow v i)
                            (dict_get ◌==◌ users v) buffer v i flow taint at
                            (λ s found other.
                              elim (Items-get UsedSoFar ◌==◌ (number_respects UsedSoFar) users v s
                                hu found) [
                                  | inl before ↦ before
                                  | inr (own, _, _) ↦ absurd (not_self s own other)
                                ]),
                        Items-put UsedSoFar ◌==◌ (number_respects_back UsedSoFar) users v (id_of ev)
                            hu (inr (refl, i, at)),
                      )
              ]
        ]

    link_args-AllExplained :
        (buffers : Bool) (produced : Dict ℕ Text) (i : ℕ) (args : List (Option ℕ)) (links : Links)
        → ((k : ℕ) → get_elem? ev.args (i + k) ≡ get_elem? args k)
        → Items (Returned past) produced
        → AllExplained links.0
        → Items UsedSoFar links.1
        → (let out = link_args m buffers produced (id_of ev) i args links in
            AllExplained out.0 × Items UsedSoFar out.1)
    unfolding link_args
    link_args-AllExplained buffers produced i [] links at hp he hu = (he, hu)
    link_args-AllExplained buffers produced i (arg ∷ args) links at hp he hu =
        let here : get_elem? ev.args i ≡ some arg =
          ap (get_elem? ev.args) (let z : i ≡ i + 0 = omega arith in z) ∙ at 0 in
        let (he', hu') = link_arg-AllExplained buffers produced i arg links here hp he hu in
        link_args-AllExplained buffers produced (i + 1) args
          (link_arg m buffers produced (id_of ev) i arg links)
          (λ k.
            ap (get_elem? ev.args) (let z : i + 1 + k ≡ i + suc k = omega arith in z) ∙ at (suc k))
          hp he' hu'

-- What stood in a trace stands in a longer one.
Stands-more :
    (past : List SystemEvent) (ev e : SystemEvent) → Stands e past → Stands e (past ++ ev ∷ [])
Stands-more past ev e (a, b, made) = (
  a,
  b ++ ev ∷ [],
  ap (λ (t : List SystemEvent). t ++ ev ∷ []) made ∙ append_assoc a (e ∷ b) (ev ∷ []),
)

Items-map {ℓ κ μ ν} :
    {K : Type ℓ} {V : Type κ} (P : K → V → Type μ) (Q : K → V → Type ν) (d : Dict K V)
    → ((k : K) (v : V) → P k v → Q k v)
    → Items P d
    → Items Q d
Items-map P Q [] f h = tt
Items-map P Q ((k, v) ∷ d) f (hv, h) = (f k v hv, Items-map P Q d f h)

Returned-more :
    (past : List SystemEvent) (ev : SystemEvent) (v : ℕ) (s : Text)
    → Returned past v s
    → Returned (past ++ ev ∷ []) v s
Returned-more past ev v s (e, stands, own, ret) = (e, Stands-more past ev e stands, own, ret)

Used-more :
    (past : List SystemEvent) (ev : SystemEvent) (v : ℕ) (s : Text)
    → Used past v s ⊎ ((s ≡ id_of ev) × (i : ℕ) × (get_elem? ev.args i ≡ some (some v)))
    → Used (past ++ ev ∷ []) v s
Used-more past ev v s (inl (e, i, stands, own, arg)) =
    (e, i, Stands-more past ev e stands, own, arg)
Used-more past ev v s (inr (own, i, arg)) = (ev, i, (past, [], refl), sym own, arg)

produce-Returned :
    (m : ℕ) (past : List SystemEvent) (ev : SystemEvent) (ret : Option ℕ) (produced : Dict ℕ Text)
    → ev.ret ≡ ret
    → Items (Returned past) produced
    → Items (Returned (past ++ ev ∷ [])) (produce m (id_of ev) ret produced)
unfolding produce
produce-Returned m past ev none produced e h =
    Items-map (Returned past) (Returned (past ++ ev ∷ [])) produced (Returned-more past ev) h
produce-Returned m past ev (some v) produced e h =
    let R = Returned (past ++ ev ∷ []) in
    let kept = Items-map (Returned past) R produced (Returned-more past ev) h in
    elim (Bool-cases (is_taintable m v)) [
      | inr trivial ↦ rw trivial kept
      | inl taint ↦ rw taint (
          Items-put R ◌==◌ (number_respects_back R) produced v (id_of ev) kept
            (ev, (past, [], refl), refl, e))
    ]

link_events-AllExplained :
    (m : ℕ) (buffers : Bool) (trace evs past : List SystemEvent) (produced : Dict ℕ Text)
    (links : Links)
    → trace ≡ past ++ evs
    → Items (Returned past) produced
    → AllExplained m trace links.0
    → Items (Used past) links.1
    → AllExplained m trace (link_events m buffers evs produced links)
unfolding link_events
link_events-AllExplained m buffers trace [] past produced links split hp he hu = he
link_events-AllExplained m buffers trace (ev ∷ evs) past produced links split hp he hu =
    let so_far =
      Items-map (Used past) (UsedSoFar m trace past evs ev split) links.1 (λ v s u. inl u) hu in
    let (he', hu') =
      link_args-AllExplained m trace past evs ev split buffers produced 0 ev.args links
        (λ k. ap (get_elem? ev.args) (omega arith)) hp he so_far in
    link_events-AllExplained m buffers trace evs (past ++ ev ∷ [])
      (produce m (id_of ev) ev.ret produced)
      (link_args m buffers produced (id_of ev) 0 ev.args links)
      (split ∙ sym (append_assoc past (ev ∷ []) evs))
      (produce-Returned m past ev ev.ret produced refl hp) he'
      (Items-map (UsedSoFar m trace past evs ev split) (Used (past ++ ev ∷ []))
        (link_args m buffers produced (id_of ev) 0 ev.args links).1 (Used-more past ev) hu')

-- The values that edges carry are in the trace: where the graph has such edges, or none, before,
-- each data-flow edge afterwards leads from a call that returned its value, and each buffer edge
-- from a call that had it as an argument, to a later call that has the value as the argument of the
-- edge's index, and the value is a real datum.
pub link_dataflow-Explained :
    (m : ℕ) (buffers : Bool) (g : BehaviorGraph)
    → All (λ item. Explained m g.events item.1) g.edges
    → All (λ item. Explained m g.events item.1) (link_dataflow m buffers g).1.edges
unfolding link_dataflow
link_dataflow-Explained m buffers g h =
    link_events-AllExplained m buffers g.events g.events [] [] (g.edges, []) refl tt h tt
