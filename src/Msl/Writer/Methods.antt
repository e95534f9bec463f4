-- ===== src/Msl/Writer/Methods.antt =====
-- The public methods of the writer, each a payload and a call of `_write_block`.
use memslicer.Prelude.{
  ◌+◌, Bool, true, false, Option, none, some, List, [], ◌∷◌, ◌++◌, ◌==◌, Result, ok, err, ◌>>=◌,
}
use memslicer.Bytes.{Bytes, u64, str, pack, zeros}
use memslicer.Msl.Constants.{
  BlockType, memory_region, module_entry, module_list_index, thread_context, key_hint,
  import_provenance, process_identity, related_dump, system_context, process_table,
  connection_table, handle_table, connectivity_table, kernel_symbol_bundle, persistence_manifest,
  kernel_module_list, target_introspection, physical_memory_map, module_build_id_manifest,
  end_of_capture, has_children,
}
use memslicer.Msl.Types.{
  MemoryRegion, ModuleEntry, ThreadContext, ProcessIdentity, SystemContext, ProcessEntry,
  ConnectionEntry, HandleEntry, KeyHint, ImportProvenance, RelatedDump, KernelSymbolBundle,
  PhysicalMemoryMap, ConnectivityTable, KernelModuleList, TargetIntrospection,
  ModuleBuildIdManifest, PersistenceManifest,
}
use memslicer.Msl.Host.{Host}
use memslicer.Msl.Integrity
use memslicer.Msl.Encryption.{encrypt_finalize}
use memslicer.Msl.Payload.{region_payload}
use memslicer.Msl.Payload.Core.{
  process_identity_payload, module_list_payload, module_entry_payload, thread_context_payload,
}
use memslicer.Msl.Payload.Tables.{
  system_context_payload, process_table_payload, connection_table_payload, handle_table_payload,
  key_hint_payload, import_provenance_payload, related_dump_payload,
}
use memslicer.Msl.Payload.Extensions.{
  kernel_symbol_payload, physical_memory_payload, kernel_module_payload,
  target_introspection_payload, build_id_payload, persistence_payload,
}
use memslicer.Msl.Payload.Extensions.Connectivity.{connectivity_payload}
use memslicer.Msl.Writer.{Writer, Exec, write_block}

-- An exception while the payload is built leaves the writer alone.
abbrev pub with_payload : Result Bytes → (Bytes → Exec Bytes) → Exec Bytes
with_payload (ok payload) k w = k payload w
with_payload (err e) k w = (err e, w)

-- warnings.warn(...) where the block does not stand where the format wants it
abbrev pub warn_unless : Bool → Writer → Writer
warn_unless true w = w
warn_unless false w = record w { warned = w.warned + 1 }

module _ (host : Host) where
  -- A payload written as a block with no flags and a drawn identifier.
  abbrev pub plain_block : BlockType → Result Bytes → Option Bytes → Exec Bytes
  plain_block type payload parent =
      with_payload payload (λ p. write_block host type p 0 parent none)

  unfoldable pub write_process_identity : ProcessIdentity → Exec Bytes
  write_process_identity p w =
      plain_block process_identity (process_identity_payload p) none
        (warn_unless (w.block_index == 0) w)

  unfoldable pub write_memory_region : MemoryRegion → Option Bytes → Exec Bytes
  write_memory_region r parent w =
      with_payload (region_payload r)
        (λ p. write_block host memory_region p w.comp_flags parent none) w

  unfoldable pub write_module_entry : ModuleEntry → Bytes → Bytes → Exec Bytes
  write_module_entry m parent uuid =
      with_payload (module_entry_payload m)
        (λ p. write_block host module_entry p 0 (some parent) (some uuid))

  -- [uuid.uuid4().bytes for _ in modules], zipped with the modules
  unfoldable pub draw_for : List ModuleEntry → Writer → List (ModuleEntry × Bytes) × Writer
  draw_for [] w = ([], w)
  draw_for (m ∷ ms) w =
      let (rest, w') = draw_for ms (record w { drawn = w.drawn + 1 }) in
      ((m, host.uuid4 w.drawn) ∷ rest, w')

  -- The children of the index, in order; the first exception ends the loop.
  unfoldable pub write_children : Bytes → List (ModuleEntry × Bytes) → Exec Bytes
  unfolding write_module_entry
  write_children index [] w = (ok index, w)
  write_children index ((m, uuid) ∷ rest) w =
      let (r, w') = write_module_entry m index uuid w in
      let more = write_children index rest w' in elim r [ ok id ↦ more | err e ↦ (err e, w') ]

  unfoldable pub write_module_list : List ModuleEntry → Exec Bytes
  unfolding draw_for write_children
  write_module_list modules w =
      let (entries, w1) = draw_for modules (warn_unless (w.block_index == 1) w) in
      let (r, w2) =
        with_payload (module_list_payload entries)
          (λ p. write_block host module_list_index p has_children none none) w1 in
      elim r [ ok index ↦ write_children index entries w2 | err e ↦ (err e, w2) ]

  unfoldable pub write_thread_context : ThreadContext → Option Bytes → Exec Bytes
  write_thread_context t = plain_block thread_context (thread_context_payload t)

  unfoldable pub write_system_context : SystemContext → Exec Bytes
  write_system_context c = plain_block system_context (system_context_payload c) none

  unfoldable pub write_process_table : List ProcessEntry → Bytes → Exec Bytes
  write_process_table ps parent = plain_block process_table (process_table_payload ps) (some parent)

  unfoldable pub write_connection_table : List ConnectionEntry → Bytes → Exec Bytes
  write_connection_table cs parent =
      plain_block connection_table (connection_table_payload cs) (some parent)

  unfoldable pub write_handle_table : List HandleEntry → Bytes → Exec Bytes
  write_handle_table hs parent = plain_block handle_table (handle_table_payload hs) (some parent)

  unfoldable pub write_key_hint : KeyHint → Exec Bytes
  write_key_hint k = plain_block key_hint (key_hint_payload k) none

  unfoldable pub write_import_provenance : ImportProvenance → Exec Bytes
  write_import_provenance p = plain_block import_provenance (import_provenance_payload p) none

  unfoldable pub write_related_dump : RelatedDump → Exec Bytes
  write_related_dump r = plain_block related_dump (related_dump_payload r) none

  unfoldable pub write_kernel_symbol_bundle : KernelSymbolBundle → Exec Bytes
  write_kernel_symbol_bundle b = plain_block kernel_symbol_bundle (kernel_symbol_payload b) none

  unfoldable pub write_physical_memory_map : PhysicalMemoryMap → Exec Bytes
  write_physical_memory_map m = plain_block physical_memory_map (physical_memory_payload m) none

  unfoldable pub write_connectivity_table : ConnectivityTable → Exec Bytes
  write_connectivity_table t = plain_block connectivity_table (connectivity_payload t) none

  unfoldable pub write_kernel_module_list : KernelModuleList → Exec Bytes
  write_kernel_module_list m = plain_block kernel_module_list (kernel_module_payload m) none

  unfoldable pub write_target_introspection : TargetIntrospection → Exec Bytes
  write_target_introspection i =
      plain_block target_introspection (target_introspection_payload i) none

  unfoldable pub write_module_build_id_manifest : ModuleBuildIdManifest → Exec Bytes
  write_module_build_id_manifest m = plain_block module_build_id_manifest (build_id_payload m) none

  unfoldable pub write_persistence_manifest : PersistenceManifest → Exec Bytes
  write_persistence_manifest m = plain_block persistence_manifest (persistence_payload m) none

  -- FileHash(32) + AcqEnd(8) + Reserved(8)
  unfoldable pub end_payload : Writer → Result Bytes
  unfolding zeros
  end_payload w = do
    rest ← pack (u64 ∷ str 8 ∷ []) (host.now_ns, (zeros 8, tt))
    ok (Integrity.finalize host w.chain ++ rest)

  -- The ciphertext and its tag, behind the cleartext header.
  unfoldable pub flush_encryptor : Exec (Unit {0})
  flush_encryptor w = elim w.encryptor [
    | none ↦ (ok tt, w)
    | some c ↦
        let (r, c') = encrypt_finalize host c in
        elim r [
          | ok (cipher, tag) ↦
              (ok tt, record w { output = w.output ++ (cipher ++ tag); encryptor = some c' })
          | err e ↦ (err e, record w { encryptor = some c' })
        ]
  ]

  unfoldable pub finalize : Exec (Unit {0})
  unfolding end_payload flush_encryptor
  finalize w =
      let (r, w') = plain_block end_of_capture (end_payload w) none w in
      elim r [ ok id ↦ flush_encryptor w' | err e ↦ (err e, w') ]
