-- ===== src/Behavior/Graph/Counts.antt =====
-- What the counters of a graph count.
use memslicer.Prelude.{
  ℕ, ◌+◌, ◌≡◌, inl, inr, refl, ap, ◌∙◌, Bool, ◌||◌, Option, none, some, List, [], ◌∷◌, length, Dict,
  dict_get, dict_put, if◌then◌else◌, Bool-cases, arith, length-append, same_text,
}
use memslicer.Utils.{Text}
use memslicer.Behavior.Graph.{
  EventKind, node, edge, syscall, api, mem_access, BehaviorEvent, Node, Edge, Key, BehaviorGraph,
  SystemEvent, same_key, is_empty_text, touched, touch_node, counted, touch_edge, called, system_id,
  code_id, consume_system, consume_as, consume, consume_all, EdgeType,
}

-- The sum of the weights of a dictionary's values
abbrev pub total {ℓ κ} : {K : Type ℓ} {V : Type κ} → (V → ℕ) → Dict K V → ℕ
total weight [] = 0
total weight ((k, v) ∷ d) = weight v + total weight d

-- A value that is put in the place of the one that was there, weighing one more.
total-dict_put {ℓ κ} :
    {K : Type ℓ} {V : Type κ} (same : K → K → Bool) (weight : V → ℕ) (f : Option V → V) (k : K)
    (d : Dict K V)
    → weight (f none) ≡ 1
    → ((v : V) → weight (f (some v)) ≡ weight v + 1)
    → total weight (dict_put same d k (f (dict_get same d k))) ≡ total weight d + 1
total-dict_put same weight f k [] fresh more = omega (arith, fresh)
total-dict_put same weight f k ((j, v) ∷ d) fresh more =
    let ih = total-dict_put same weight f k d fresh more in
    elim (Bool-cases (same j k)) [
      | inl e ↦ rw e (omega (arith, more v))
      | inr e ↦ rw e (omega (arith, ih))
    ]

abbrev pub node_event : EventKind → ℕ
node_event node = 1
node_event edge = 0
node_event syscall = 1
node_event api = 1
node_event mem_access = 0

abbrev pub system_event : EventKind → ℕ
system_event node = 0
system_event edge = 0
system_event syscall = 1
system_event api = 1
system_event mem_access = 0

-- An edge event counts where both of its ends are given.
abbrev pub edge_event : EventKind → Text → Text → ℕ
edge_event node src dst = 0
edge_event edge src dst = if is_empty_text src || is_empty_text dst then 0 else 1
edge_event syscall src dst = 0
edge_event api src dst = 0
edge_event mem_access src dst = 0

abbrev pub sum_of {ℓ} : {A : Type ℓ} → (A → ℕ) → List A → ℕ
sum_of f [] = 0
sum_of f (a ∷ as') = f a + sum_of f as'

-- The hits of all nodes, the counts of all edges, and the length of the trace
abbrev pub IsCounted : ℕ → ℕ → ℕ → BehaviorGraph → Type 0
IsCounted hits counts traced g =
    (total (λ n. n.hits) g.nodes ≡ hits)
    × (total (λ e. e.count) g.edges ≡ counts)
    × (length g.events ≡ traced)

touch_edge-total :
    (src dst : Text) (etype : EdgeType) (edges : Dict Key Edge)
    → total (λ e. e.count) (touch_edge src dst etype edges)
      ≡ total (λ e. e.count) edges + edge_event edge src dst
unfolding touch_edge counted
touch_edge-total src dst etype edges = elim (Bool-cases (is_empty_text src || is_empty_text dst)) [
  | inl e ↦ rw e (omega arith)
  | inr e ↦ rw e (
      total-dict_put same_key (λ e. e.count) (counted src dst etype) (src, dst, etype) edges refl
        (λ v. refl))
]

touch_node-total :
    (nid kind label : Text) (addr : ℕ) (nodes : Dict Text Node)
    → total (λ n. n.hits) (touch_node nid kind label addr nodes) ≡ total (λ n. n.hits) nodes + 1
unfolding touch_node touched
touch_node-total nid kind label addr nodes =
    total-dict_put same_text (λ n. n.hits) (touched nid kind label addr) nid nodes refl (λ v. refl)

consume_system-IsCounted :
    (ev : BehaviorEvent) (g : BehaviorGraph) (h c t : ℕ)
    → IsCounted h c t g
    → IsCounted (h + 1) (c + 0) (t + 1) (consume_system ev g)
unfolding consume_system called touched
consume_system-IsCounted ev g h c t (hits, counts, traced) = (
  total-dict_put same_text (λ n. n.hits) (called ev) (system_id ev.kind ev.label) g.nodes refl
        (λ v. refl)
      ∙ ap (λ (n : ℕ). n + 1) hits,
  omega (arith, counts),
  omega (arith, length-append g.events (let z : List SystemEvent = _ ∷ [] in z)),
)

consume_as-IsCounted :
    (k : EventKind) (ev : BehaviorEvent) (g : BehaviorGraph) (h c t : ℕ)
    → IsCounted h c t g
    → IsCounted
        (h + node_event k)
        (c + edge_event k ev.src ev.dst)
        (t + system_event k)
        (consume_as k ev g)
unfolding consume_as
consume_as-IsCounted node ev g h c t (hits, counts, traced) = (
  touch_node-total (code_id ev.addr) _ ev.label ev.addr g.nodes ∙ ap (λ (n : ℕ). n + 1) hits,
  omega arith,
  omega arith,
)
consume_as-IsCounted edge ev g h c t (hits, counts, traced) = (
  omega arith,
  touch_edge-total ev.src ev.dst ev.edge_type g.edges
      ∙ ap (λ (n : ℕ). n + edge_event edge ev.src ev.dst) counts,
  omega arith,
)
consume_as-IsCounted syscall ev g h c t counted_so_far =
    consume_system-IsCounted ev g h c t counted_so_far
consume_as-IsCounted api ev g h c t counted_so_far =
    consume_system-IsCounted ev g h c t counted_so_far
consume_as-IsCounted mem_access ev g h c t (hits, counts, traced) =
    (omega arith, omega arith, omega arith)

-- The hits of the nodes add up to the node, system call and API events consumed, the counts of the
-- edges to the edge events with both ends, and the trace has an entry for each system call and API
-- event, all on top of what the graph had before.
pub consume_all-IsCounted :
    (evs : List BehaviorEvent) (g : BehaviorGraph) (h c t : ℕ)
    → IsCounted h c t g
    → IsCounted
        (h + sum_of (λ ev. node_event ev.kind) evs)
        (c + sum_of (λ ev. edge_event ev.kind ev.src ev.dst) evs)
        (t + sum_of (λ ev. system_event ev.kind) evs)
        (consume_all evs g)
unfolding consume_all consume
consume_all-IsCounted [] g h c t (hits, counts, traced) = (omega arith, omega arith, omega arith)
consume_all-IsCounted (ev ∷ evs) g h c t counted_so_far =
    let (hits, counts, traced) =
      consume_all-IsCounted evs (consume ev g) (h + node_event ev.kind)
        (c + edge_event ev.kind ev.src ev.dst) (t + system_event ev.kind)
        (consume_as-IsCounted ev.kind ev g h c t counted_so_far) in
    (omega arith, omega arith, omega arith)
