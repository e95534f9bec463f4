-- ===== src/Behavior/Dataflow.antt =====
-- memslicer/behavior/dataflow.py: links between the calls of a trace that share a value.
pub mod Sources
pub mod Sound
use memslicer.Prelude.{
  ℕ, ◌+◌, ◌-◌, Bool, true, false, not, ◌&&◌, ◌||◌, Option, none, some, List, [], ◌∷◌, ◌++◌, length,
  leb, any_of, ◌==◌, same_text, Dict, dict_get, dict_put, if◌then◌else◌,
}
use memslicer.Utils.{Text}
use memslicer.Behavior.Graph.{
  EdgeType, dataflow, buffer, Edge, Key, BehaviorGraph, SystemEvent, same_key, system_id,
}

abbrev pub min_taint_value : ℕ
min_taint_value = 0x100

abbrev pub sentinels : List ℕ
sentinels = 0 ∷ 1 ∷ 0xFFFFFFFF ∷ 0xFFFFFFFFFFFFFFFF ∷ 0x7FFFFFFF ∷ []

-- value not in SENTINELS and value >= min_value
unfoldable pub is_taintable : ℕ → ℕ → Bool
is_taintable min_value value = not (any_of (λ s. value == s) sentinels) && leb min_value value

unfoldable pub counted_value : Text → Text → EdgeType → ℕ → ℕ → Option Edge → Edge
counted_value src dst etype value arg_index none = record {
  source = src;
  target = dst;
  edge_type = etype;
  count = 1;
  value = some (value, arg_index);
}
counted_value src dst etype value arg_index (some e) = record e { count = e.count + 1 }

-- _add_edge
unfoldable pub add_value_edge : Dict Key Edge → Text → Text → EdgeType → ℕ → ℕ → Dict Key Edge
unfolding same_key counted_value
add_value_edge edges src dst etype value arg_index =
    let key : Key = (src, dst, etype) in
    dict_put same_key edges key
      (counted_value src dst etype value arg_index (dict_get same_key edges key))

-- An edge from a node that is known and is another one
unfoldable pub edge_from : Dict Key Edge → Option Text → Text → EdgeType → ℕ → ℕ → Dict Key Edge
unfolding add_value_edge
edge_from edges none nid etype value arg_index = edges
edge_from edges (some src) nid etype value arg_index =
    if same_text src nid then edges else add_value_edge edges src nid etype value arg_index

-- The edges, and the last node that used each value as an argument
abbrev pub Links : Type 0
Links = Dict Key Edge × Dict ℕ Text

-- One argument
unfoldable pub link_arg : ℕ → Bool → Dict ℕ Text → Text → ℕ → Option ℕ → Links → Links
unfolding is_taintable edge_from
link_arg min_value buffers produced nid idx none links = links
link_arg min_value buffers produced nid idx (some arg) (edges, users) =
    let flow = edge_from edges (dict_get ◌==◌ produced arg) nid dataflow arg idx in
    let shared = edge_from flow (dict_get ◌==◌ users arg) nid buffer arg idx in
    if is_taintable min_value arg
    then (if buffers then (shared, dict_put ◌==◌ users arg nid) else (flow, users))
    else (edges, users)

-- for idx, arg in enumerate(args), from an index on
unfoldable pub link_args : ℕ → Bool → Dict ℕ Text → Text → ℕ → List (Option ℕ) → Links → Links
unfolding link_arg
link_args min_value buffers produced nid idx [] links = links
link_args min_value buffers produced nid idx (arg ∷ args) links =
    link_args min_value buffers produced nid (idx + 1) args
      (link_arg min_value buffers produced nid idx arg links)

-- The value that a call returned, if it is a real datum
unfoldable pub produce : ℕ → Text → Option ℕ → Dict ℕ Text → Dict ℕ Text
unfolding is_taintable
produce min_value nid none produced = produced
produce min_value nid (some ret) produced =
    if is_taintable min_value ret then dict_put ◌==◌ produced ret nid else produced

-- for ev in graph.events
unfoldable pub link_events : ℕ → Bool → List SystemEvent → Dict ℕ Text → Links → Dict Key Edge
unfolding link_args produce system_id
link_events min_value buffers [] produced (edges, users) = edges
link_events min_value buffers (ev ∷ evs) produced links =
    let nid = system_id ev.kind ev.name in
    link_events min_value buffers evs (produce min_value nid ev.ret produced)
      (link_args min_value buffers produced nid 0 ev.args links)

-- The number of edges created, and the graph with them
unfoldable pub link_dataflow : ℕ → Bool → BehaviorGraph → ℕ × BehaviorGraph
unfolding link_events
link_dataflow min_value buffers g =
    let edges = link_events min_value buffers g.events [] (g.edges, []) in
    (length edges - length g.edges, record g { edges = edges })
