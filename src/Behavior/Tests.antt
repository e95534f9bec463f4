-- ===== src/Behavior/Tests.antt =====
-- The theorems on the behaviour graph at concrete inputs.
use memslicer.Prelude.{◌+◌, ◌≡◌, refl, true, none, some, List, [], ◌∷◌, All}
use mathlib.Core.List.{Perm}
use memslicer.Msl.Constants.{x86_64, linux}
use memslicer.Emu.Loader.{SliceImage}
use memslicer.Behavior.Resolver.{from_image, module_at, resolve}
use memslicer.Behavior.Resolver.Laws.{Scanned, module_at-from_image}
use memslicer.Behavior.Graph.{api, edge, jump, BehaviorEvent, BehaviorGraph, consume_all, code_id}
use memslicer.Behavior.Graph.Counts.{
  IsCounted, consume_all-IsCounted, sum_of, node_event, edge_event, system_event,
}
use memslicer.Behavior.Dataflow.{link_dataflow}
use memslicer.Behavior.Dataflow.Sound.{link_dataflow-Explained}
use memslicer.Behavior.Dataflow.Sources.{Explained}

abbrev empty_graph : BehaviorGraph
empty_graph = record { nodes = []; edges = []; events = [] }

-- A file is created, and its handle is written to.
abbrev two_calls : List BehaviorEvent
two_calls =
    (record {
      kind = api;
      seq = 1;
      addr = 0x1000;
      node_kind = [];
      label = (b'C' ∷ b'r' ∷ b'e' ∷ b'a' ∷ b't' ∷ b'e' ∷ b'F' ∷ b'i' ∷ b'l' ∷ b'e' ∷ b'A' ∷ []);
      src = [];
      dst = [];
      edge_type = jump;
      category = (b'f' ∷ b'i' ∷ b'l' ∷ b'e' ∷ []);
      args = [];
      ret = some 0x204;
    })
    ∷ (record {
      kind = edge;
      seq = 2;
      addr = 0;
      node_kind = [];
      label = [];
      src = (b'0' ∷ b'x' ∷ b'1' ∷ b'0' ∷ b'0' ∷ b'0' ∷ []);
      dst = (b'0' ∷ b'x' ∷ b'1' ∷ b'0' ∷ b'1' ∷ b'0' ∷ []);
      edge_type = jump;
      category = [];
      args = [];
      ret = none;
    })
    ∷ (record {
      kind = api;
      seq = 3;
      addr = 0x1010;
      node_kind = [];
      label = (b'W' ∷ b'r' ∷ b'i' ∷ b't' ∷ b'e' ∷ b'F' ∷ b'i' ∷ b'l' ∷ b'e' ∷ []);
      src = [];
      dst = [];
      edge_type = jump;
      category = (b'f' ∷ b'i' ∷ b'l' ∷ b'e' ∷ []);
      args = some 0x204 ∷ none ∷ [];
      ret = some 1;
    })
    ∷ []

code_id_ff : code_id 0x10ff ≡ (b'0' ∷ b'x' ∷ b'1' ∷ b'0' ∷ b'f' ∷ b'f' ∷ [])
unfolding code_id
code_id_ff = refl

-- The handle links the two calls.
handle_edge : (link_dataflow 0x100 true (consume_all two_calls empty_graph)).0 ≡ 1
unfolding link_dataflow consume_all
handle_edge = refl

consume_all-IsCounted_example :
    IsCounted
      (0 + sum_of (λ ev. node_event ev.kind) two_calls)
      (0 + sum_of (λ ev. edge_event ev.kind ev.src ev.dst) two_calls)
      (0 + sum_of (λ ev. system_event ev.kind) two_calls)
      (consume_all two_calls empty_graph)
consume_all-IsCounted_example = consume_all-IsCounted two_calls empty_graph 0 0 0 (refl, refl, refl)

abbrev traced_graph : BehaviorGraph
traced_graph = record {
  nodes = [];
  edges = [];
  events =
      (record {
        seq = 1;
        kind = api;
        name = (b'C' ∷ b'r' ∷ b'e' ∷ b'a' ∷ b't' ∷ b'e' ∷ b'F' ∷ b'i' ∷ b'l' ∷ b'e' ∷ b'A' ∷ []);
        site = [];
        args = [];
        ret = some 0x204;
      })
      ∷ (record {
        seq = 3;
        kind = api;
        name = (b'W' ∷ b'r' ∷ b'i' ∷ b't' ∷ b'e' ∷ b'F' ∷ b'i' ∷ b'l' ∷ b'e' ∷ []);
        site = [];
        args = some 0x204 ∷ [];
        ret = some 1;
      })
      ∷ [];
}

link_dataflow-Explained_example :
    All
      (λ item. Explained 0x100 traced_graph.events item.1)
      (link_dataflow 0x100 true traced_graph).1.edges
link_dataflow-Explained_example = link_dataflow-Explained 0x100 true traced_graph tt

abbrev two_modules : SliceImage
two_modules = record {
  arch = x86_64;
  os = linux;
  regions = [];
  threads = [];
  modules =
      (record { base = 0x9000; size = 0x100; path = (b'/' ∷ b'b' ∷ []) })
      ∷ (record {
        base = 0x1000;
        size = 0x100;
        path = (b'/' ∷ b'l' ∷ b'i' ∷ b'b' ∷ b'/' ∷ b'a' ∷ []);
      })
      ∷ [];
}

inside_a :
    resolve 0x1010 (from_image two_modules) ≡ some (b'a' ∷ b'+' ∷ b'0' ∷ b'x' ∷ b'1' ∷ b'0' ∷ [])
unfolding resolve from_image
inside_a = refl

module_at-from_image_example :
    Perm (from_image two_modules) two_modules.modules
    × Scanned 0x1010 (from_image two_modules) (module_at 0x1010 (from_image two_modules))
module_at-from_image_example = module_at-from_image two_modules 0x1010
