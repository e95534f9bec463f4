-- ===== src/Msl/Slice/Ops.antt =====
-- Calls of the writer's methods `write_...` in any order, an exception ending only its call.
use memslicer.Prelude.{refl, inl, Option, List, [], ◌∷◌, ◌++◌}
use memslicer.Bytes.{Bytes}
use memslicer.Msl.Constants.{HashAlgo, block_code}
use memslicer.Msl.Types.{
  MemoryRegion, ModuleEntry, ThreadContext, ProcessIdentity, SystemContext, ProcessEntry,
  ConnectionEntry, HandleEntry, KeyHint, ImportProvenance, RelatedDump, KernelSymbolBundle,
  PhysicalMemoryMap, ConnectivityTable, KernelModuleList, TargetIntrospection,
  ModuleBuildIdManifest, PersistenceManifest,
}
use memslicer.Msl.Host.{Host, HasSizes, DecompressesAll}
use memslicer.Msl.Writer.{Writer, Exec}
use memslicer.Msl.Writer.Methods
use memslicer.Msl.Slice.{Block, IsSlice}
use memslicer.Msl.Slice.Session.{
  Extends, Extends-trans, with_payload-Extends, write_module_list-Extends, warned-IsSlice,
}

-- A call of one of the public methods `write_...`. `finalize`, the only other one, is no such call.
pub data Call : Type 0 where
  process_identity : ProcessIdentity → Call
  memory_region : MemoryRegion → Option Bytes → Call
  module_list : List ModuleEntry → Call
  thread_context : ThreadContext → Option Bytes → Call
  system_context : SystemContext → Call
  process_table : List ProcessEntry → Bytes → Call
  connection_table : List ConnectionEntry → Bytes → Call
  handle_table : List HandleEntry → Bytes → Call
  key_hint : KeyHint → Call
  import_provenance : ImportProvenance → Call
  related_dump : RelatedDump → Call
  kernel_symbol_bundle : KernelSymbolBundle → Call
  physical_memory_map : PhysicalMemoryMap → Call
  connectivity_table : ConnectivityTable → Call
  kernel_module_list : KernelModuleList → Call
  target_introspection : TargetIntrospection → Call
  build_id_manifest : ModuleBuildIdManifest → Call
  persistence_manifest : PersistenceManifest → Call

module _ (host : Host) where
  unfoldable pub run : Call → Exec Bytes
  run (process_identity p) = Methods.write_process_identity host p
  run (memory_region r parent) = Methods.write_memory_region host r parent
  run (module_list ms) = Methods.write_module_list host ms
  run (thread_context t parent) = Methods.write_thread_context host t parent
  run (system_context c) = Methods.write_system_context host c
  run (process_table ps parent) = Methods.write_process_table host ps parent
  run (connection_table cs parent) = Methods.write_connection_table host cs parent
  run (handle_table hs parent) = Methods.write_handle_table host hs parent
  run (key_hint k) = Methods.write_key_hint host k
  run (import_provenance p) = Methods.write_import_provenance host p
  run (related_dump r) = Methods.write_related_dump host r
  run (kernel_symbol_bundle b) = Methods.write_kernel_symbol_bundle host b
  run (physical_memory_map m) = Methods.write_physical_memory_map host m
  run (connectivity_table t) = Methods.write_connectivity_table host t
  run (kernel_module_list m) = Methods.write_kernel_module_list host m
  run (target_introspection i) = Methods.write_target_introspection host i
  run (build_id_manifest m) = Methods.write_module_build_id_manifest host m
  run (persistence_manifest m) = Methods.write_persistence_manifest host m

  unfoldable pub run_all : List Call → Writer → Writer
  unfolding run
  run_all [] w = w
  run_all (c ∷ calls) w = run_all calls (run c w).1

module _ (host : Host) (sizes : HasSizes host) (d : DecompressesAll host) (algo : HashAlgo)
    (header : Bytes) where
  -- Any call, raising or not, leaves the blocks that were there and adds whole linked blocks.
  pub run-Extends :
      (c : Call) (bs : List Block) (w : Writer)
      → IsSlice host algo header bs w
      → Extends host algo header bs (run host c w).1
  unfolding run block_code Methods.write_process_identity Methods.write_memory_region
      Methods.write_thread_context Methods.write_system_context Methods.write_process_table
      Methods.write_connection_table Methods.write_handle_table Methods.write_key_hint
      Methods.write_import_provenance Methods.write_related_dump Methods.write_kernel_symbol_bundle
      Methods.write_physical_memory_map Methods.write_connectivity_table
      Methods.write_kernel_module_list Methods.write_target_introspection
      Methods.write_module_build_id_manifest Methods.write_persistence_manifest
  run-Extends (module_list ms) bs w s = write_module_list-Extends host sizes d algo header ms bs w s
  run-Extends (memory_region r parent) bs w s =
      with_payload-Extends host sizes d algo header _ _ _ _ _ bs w s s.comp_flags refl
  run-Extends (process_identity p) bs w s =
      with_payload-Extends host sizes d algo header _ _ _ _ _ bs _
        (warned-IsSlice host sizes d algo header _ bs w s) (inl refl) refl
  run-Extends _ bs w s =
      with_payload-Extends host sizes d algo header _ _ _ _ _ bs w s (inl refl) refl

  -- On an unencrypted writer whose file is a header and linked blocks: whichever of the methods
  -- `write_...` are called (all public methods but `finalize`), and whether or not they raise, the file
  -- is that header, those blocks, and further linked blocks behind them, none of which ends the
  -- capture.
  pub run_all-Extends :
      (calls : List Call) (bs : List Block) (w : Writer)
      → IsSlice host algo header bs w
      → Extends host algo header bs (run_all host calls w)
  unfolding run_all
  run_all-Extends [] bs w s = ([], s, tt)
  run_all-Extends (c ∷ calls) bs w s =
      let (more, s2, middle) = run-Extends c bs w s in
      Extends-trans host algo header bs more _ middle
        (run_all-Extends calls (more ++ bs) (run host c w).1 s2)
