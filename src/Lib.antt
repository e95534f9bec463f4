-- ===== src/Lib.antt =====
-- Verification of memslicer, a tool that acquires the memory of a process into a slice file (MSL) and
-- reads such files back. The development covers the file format, src/memslicer/msl, the padding and
-- protection helpers of src/memslicer/utils, the acquisition of memory in src/memslicer/acquirer, the
-- loader and the emulator of src/memslicer/emu, and the behaviour graph of src/memslicer/behavior.
--
-- The parts. The acquisition engine (src/memslicer/acquirer/engine.py) asks a debugger for the threads
-- and the memory ranges of a process, sorts the ranges, passes each by the filter
-- (src/memslicer/acquirer/region_filter.py), reads it whole, in chunks, or page by page, and hands it to
-- the writer. `MSLWriter` (src/memslicer/msl/writer.py) keeps an open file, a chain of hashes, a count of
-- blocks and, for an encrypted file, an encryptor. It writes a header of 64 bytes (128 with the
-- encryption extension), then blocks of an 80-byte header and a payload, which may be compressed; every
-- block header carries the hash of what stands before it. `finalize` writes the end-of-capture block
-- with the hash of the whole file. `iterate_blocks` (src/memslicer/msl/iterator.py) reads a file block by
-- block, and `load_slice` (src/memslicer/emu/loader.py) makes regions, threads and modules of the blocks.
-- The chain is src/memslicer/msl/integrity.py, the codecs src/memslicer/msl/compression.py, the extension
-- header and the streaming ciphers src/memslicer/msl/encryption.py.
--
-- The files.
--   Prelude and its children: library names, Boolean tests, lists over native numbers, dictionaries,
--   text methods, `Result`.
--   Bytes: byte strings, little-endian integers, and the `struct` module for the formats in use.
--   Utils: src/memslicer/utils/padding.py and protection.py; Rights: protection bits as three rights.
--   Msl/Constants, Msl/Types: src/memslicer/msl/constants.py and types.py.
--   Msl/Host: the interface to code outside the repository: digests, codecs, AES-GCM, identifiers, clock.
--   Msl/Integrity, Msl/Compression, Msl/Encryption: the modules of those names.
--   Msl/Payload and its children: the payloads that the `write_` methods build.
--   Msl/Payload/Pages: the reader of the page state map in src/memslicer/emu/loader.py.
--   Msl/Writer: the state, the header and `_write_block`; Msl/Writer/Methods: the public methods.
--   Msl/Iterator: the header check and the generator.
--   Msl/Slice: the abstract view of a file, a header and blocks linked by their hashes, and the proofs
--   about the writer and the iterator in its terms.
--   Acquirer/RegionFilter: src/memslicer/acquirer/region_filter.py; Settings: what a filter asks.
--   Acquirer/Bridge: the records and register names of src/memslicer/acquirer/bridge.py.
--   Acquirer/Ranges, Acquirer/Reading, Acquirer/Engine, Acquirer/Threads: `classify_region` and
--   `volatility_key`, `_read_region` and `_try_read_pages`, the loop of `acquire`, and
--   `_build_thread_contexts` of src/memslicer/acquirer/engine.py. Acquirer/Reading/Genuine: page states
--   with the data of a memory; Partly, Captured and Loaded: the proofs about reading.
--   Acquirer/Projections: `_hex_to_bytes`, `_build_kernel_symbol_bundle` and
--   `_connectivity_table_is_empty` of engine.py.
--   Acquirer/ElfNotes: src/memslicer/acquirer/elf_notes.py.
--   Acquirer/Texts: Python's methods on texts, as lists of code points.
--   Acquirer/Escaping, Acquirer/Collected, Acquirer/OsDetail: src/memslicer/acquirer/os_detail.py, the
--   escaped form of values, the pairs that are packed, and the packer and the parser; Projected has
--   the fields of system and process.
--   Acquirer/Collectors: of src/memslicer/acquirer/collectors, Environ is `redact_environ` of linux.py,
--   Addresses addr_utils.py and the connection tables of linux.py, Connectivity and Counters
--   linux_connectivity.py.
--   Emu/Loader: src/memslicer/emu/loader.py; its children are about regions and modules.
--   Emu/Unicorn: the interface to the packages unicorn and capstone, with the laws that are relied on.
--   Emu/Spans: `_coalesce`, `_find_free_page` and `_is_written` of src/memslicer/emu/engine.py.
--   Emu/Engine: `MSLEmulator` of the same file: Arch is its table of architectures, Setup builds it and
--   seeds it from a thread, Frames finds modules and callers; the other files beside them are the proofs.
--   Behavior/Graph, Behavior/Dataflow, Behavior/Resolver: the building of the graph in
--   src/memslicer/behavior/graph.py with the records of events.py, dataflow.py, and resolver.py for a
--   resolver without exports.
--   Msl/Tests, Utils/Tests, Behavior/Tests, Acquirer/Tests, Emu/Tests: concrete hosts and targets, and the theorems at
--   concrete inputs.
--
-- Conventions. A method is a function from the writer to its answer or exception and the writer
-- after it; `output` is the bytes written so far. A Python `str` is its UTF-8 bytes, but
-- in Acquirer/Texts, in the modules on os_detail.py and in Acquirer/Collectors its code points. Integers are natural
-- numbers, and where `struct` would raise for one out of range, so does `pack`. The iterator works on
-- the bytes of the file in place of a seekable stream. Its loop runs on fuel, one more than the bytes
-- of the file; every round takes 80 of them, so that the value for spent fuel is never reached. The
-- debugger, the abort flag and the clock are functions of a time that counts the questions asked, so
-- that every sequence of answers is a target. The loop over the chunks of a region has a round of fuel
-- for each byte of the region, and a chunk has a byte at least; the loop over ELF notes has one for each
-- byte, and a note has twelve at least. The loop that drops pairs from a packed text has one for each
-- pair. A run of the emulated processor is a value of the interface: the states at which its hook for
-- writes is called, and how it ends.
--
-- Not modelled: `derive_key` (a call of argon2), the flush of the stream, the texts of messages, reads
-- of a stream that return fewer bytes than it has, and the type annotations' violation by callers (a
-- negative number, a text that is no UTF-8). Of `acquire`, what stands before the loop over the ranges
-- (platform, modules, capability bits, system context and tables) and the logging. The rest of the
-- repository, the debuggers' bridges, the other collectors, the serializers and the other readers of the
-- behaviour analysis, symbolic execution and the command lines, is not modelled.
pub mod Prelude
pub mod Bytes
pub mod Utils
pub mod Msl
pub mod Acquirer
pub mod Emu
pub mod Behavior
