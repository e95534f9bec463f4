-- ===== src/Behavior/Graph.antt =====
-- memslicer/behavior/graph.py: the graph that the events build. Of a node's `attrs` the two that
-- `consume` sets are kept; a system event's `attrs` are its arguments and its return value, a value
-- that is missing, negative or no integer being `none`.
pub mod Counts
use memslicer.Prelude.{
  ℕ, zero, suc, ◌+◌, ◌/◌, ◌%◌, Bool, true, false, ◌&&◌, ◌||◌, Option, none, some, List, [], ◌∷◌,
  ◌++◌, length, ltb, ◌==◌, same_text, Dict, dict_get, dict_put, if◌then◌else◌,
}
use memslicer.Utils.{Text}

pub data EventKind : Type 0 where
  node edge syscall api mem_access : EventKind

unfoldable pub kind_text : EventKind → Text
kind_text node = (b'n' ∷ b'o' ∷ b'd' ∷ b'e' ∷ [])
kind_text edge = (b'e' ∷ b'd' ∷ b'g' ∷ b'e' ∷ [])
kind_text syscall = (b's' ∷ b'y' ∷ b's' ∷ b'c' ∷ b'a' ∷ b'l' ∷ b'l' ∷ [])
kind_text api = (b'a' ∷ b'p' ∷ b'i' ∷ [])
kind_text mem_access = (b'm' ∷ b'e' ∷ b'm' ∷ [])

pub data EdgeType : Type 0 where
  fallthrough jump call ret_edge seq_edge invoke dataflow buffer : EdgeType

pub record BehaviorEvent : Type 0 where
  pub kind : EventKind
  pub seq : ℕ
  pub addr : ℕ
  pub node_kind : Text
  pub label : Text
  pub src : Text
  pub dst : Text
  pub edge_type : EdgeType
  pub category : Text
  pub args : List (Option ℕ)
  pub ret : Option ℕ

pub record Node : Type 0 where
  pub id : Text
  pub kind : Text
  pub label : Text
  pub addr : ℕ
  pub hits : ℕ
  pub calls : Option ℕ
  pub category : Text

-- `value` has the shared value and the index of the argument, where an edge has them.
pub record Edge : Type 0 where
  pub source : Text
  pub target : Text
  pub edge_type : EdgeType
  pub count : ℕ
  pub value : Option (ℕ × ℕ)

pub record SystemEvent : Type 0 where
  pub seq : ℕ
  pub kind : EventKind
  pub name : Text
  pub site : Text
  pub args : List (Option ℕ)
  pub ret : Option ℕ

abbrev pub Key : Type 0
Key = Text × Text × EdgeType

pub record BehaviorGraph : Type 0 where
  pub nodes : Dict Text Node
  pub edges : Dict Key Edge
  pub events : List SystemEvent

unfoldable pub edge_type_code : EdgeType → ℕ
edge_type_code fallthrough = 0
edge_type_code jump = 1
edge_type_code call = 2
edge_type_code ret_edge = 3
edge_type_code seq_edge = 4
edge_type_code invoke = 5
edge_type_code dataflow = 6
edge_type_code buffer = 7

unfoldable pub same_key : Key → Key → Bool
unfolding edge_type_code
same_key (a, b, t) (c, d, u) =
    same_text a c && same_text b d && (edge_type_code t == edge_type_code u)

abbrev pub is_empty_text : Text → Bool
is_empty_text [] = true
is_empty_text (c ∷ cs) = false

abbrev or_text : Text → Text → Text
or_text a b = if is_empty_text a then b else a

abbrev hex_digit : ℕ → ℕ
hex_digit d = if ltb d 10 then d + 48 else d + 87

-- The hexadecimal digits of a number, with fuel for the divisions, in front of others
unfoldable pub hex_from : ℕ → ℕ → Text → Text
hex_from zero n rest = rest
hex_from (suc fuel) n rest =
    let longer = hex_from fuel (n / 16) (hex_digit (n % 16) ∷ rest) in
    if n / 16 == 0 then hex_digit (n % 16) ∷ rest else longer

-- f"0x{addr:x}"
unfoldable pub code_id : ℕ → Text
unfolding hex_from
code_id addr = (b'0' ∷ b'x' ∷ []) ++ hex_from (suc addr) addr []

-- The node to touch, which is new where the graph has none.
unfoldable pub touched : Text → Text → Text → ℕ → Option Node → Node
touched nid kind label addr none = record {
  id = nid;
  kind = kind;
  label = or_text label nid;
  addr = addr;
  hits = 1;
  calls = none;
  category = [];
}
touched nid kind label addr (some n) = record n { label = or_text label n.label; hits = n.hits + 1 }

unfoldable pub touch_node : Text → Text → Text → ℕ → Dict Text Node → Dict Text Node
unfolding touched
touch_node nid kind label addr nodes =
    dict_put same_text nodes nid (touched nid kind label addr (dict_get same_text nodes nid))

unfoldable pub counted : Text → Text → EdgeType → Option Edge → Edge
counted src dst etype none = record {
  source = src;
  target = dst;
  edge_type = etype;
  count = 1;
  value = none;
}
counted src dst etype (some e) = record e { count = e.count + 1 }

unfoldable pub touch_edge : Text → Text → EdgeType → Dict Key Edge → Dict Key Edge
unfolding same_key counted
touch_edge src dst etype edges =
    let key : Key = (src, dst, etype) in
    if is_empty_text src || is_empty_text dst
    then edges
    else dict_put same_key edges key (counted src dst etype (dict_get same_key edges key))

abbrev calls_of : Option ℕ → ℕ
calls_of none = 0
calls_of (some n) = n

-- f"{ev.kind}:{ev.label}"
unfoldable pub system_id : EventKind → Text → Text
unfolding kind_text
system_id kind label = kind_text kind ++ ((b':' ∷ []) ++ label)

-- A node of a system call or an API, with its count of calls and its category
unfoldable pub called : BehaviorEvent → Option Node → Node
unfolding touched system_id kind_text
called ev found =
    let n = touched (system_id ev.kind ev.label) (kind_text ev.kind) ev.label 0 found in
    record n { calls = some (calls_of n.calls + 1); category = or_text ev.category n.category }

unfoldable pub consume_system : BehaviorEvent → BehaviorGraph → BehaviorGraph
unfolding called system_id code_id
consume_system ev g =
    let nid = system_id ev.kind ev.label in
    record {
      nodes = dict_put same_text g.nodes nid (called ev (dict_get same_text g.nodes nid));
      edges = g.edges;
      events =
          g.events
          ++ record {
            seq = ev.seq;
            kind = ev.kind;
            name = ev.label;
            site = code_id ev.addr;
            args = ev.args;
            ret = ev.ret;
          }
            ∷ [];
    }

unfoldable pub consume_as : EventKind → BehaviorEvent → BehaviorGraph → BehaviorGraph
unfolding touch_node touch_edge consume_system code_id
consume_as node ev g = record g {
  nodes =
      touch_node (code_id ev.addr) (or_text ev.node_kind (b'b' ∷ b'l' ∷ b'o' ∷ b'c' ∷ b'k' ∷ []))
        ev.label ev.addr g.nodes;
}
consume_as edge ev g = record g { edges = touch_edge ev.src ev.dst ev.edge_type g.edges }
consume_as syscall ev g = consume_system ev g
consume_as api ev g = consume_system ev g
consume_as mem_access ev g = g

unfoldable pub consume : BehaviorEvent → BehaviorGraph → BehaviorGraph
unfolding consume_as
consume ev g = consume_as ev.kind ev g

-- The events of a run, in order
unfoldable pub consume_all : List BehaviorEvent → BehaviorGraph → BehaviorGraph
unfolding consume
consume_all [] g = g
consume_all (ev ∷ evs) g = consume_all evs (consume ev g)
