-- ===== src/Msl/Constants.antt =====
-- memslicer/msl/constants.py: sizes, flags and the enumerations with their codes.
use memslicer.Prelude.{ℕ, Option, none, some, [], ◌∷◌, ◌==◌, if◌then◌else◌}
use memslicer.Bytes.{Bytes}

-- b"MEMSLICE" and b"MSLC"
abbrev pub file_magic : Bytes
file_magic = b'M' ∷ b'E' ∷ b'M' ∷ b'S' ∷ b'L' ∷ b'I' ∷ b'C' ∷ b'E' ∷ []

abbrev pub block_magic : Bytes
block_magic = b'M' ∷ b'S' ∷ b'L' ∷ b'C' ∷ []

abbrev pub header_size : ℕ
header_size = 64

abbrev pub encrypted_header_size : ℕ
encrypted_header_size = 128

abbrev pub block_header_size : ℕ
block_header_size = 80

abbrev pub hash_size : ℕ
hash_size = 32

-- Block flags.
abbrev pub compressed : ℕ
compressed = 0x0001

abbrev pub compalgo_mask : ℕ
compalgo_mask = 0x0006

abbrev pub has_key_hints : ℕ
has_key_hints = 0x0008

abbrev pub has_children : ℕ
has_children = 0x0010

abbrev pub continuation : ℕ
continuation = 0x0020

-- File header flags.
abbrev pub flag_imported : ℕ
flag_imported = 0x0001

abbrev pub flag_investigation : ℕ
flag_investigation = 0x0002

abbrev pub flag_encrypted : ℕ
flag_encrypted = 0x0004

-- Thread and register flags.
abbrev pub thread_flag_current : ℕ
thread_flag_current = 0x0001

abbrev pub thread_flag_suspended : ℕ
thread_flag_suspended = 0x0004

abbrev pub thread_flag_partial : ℕ
thread_flag_partial = 0x0008

abbrev pub reg_flag_pc : ℕ
reg_flag_pc = 0x0001

abbrev pub reg_flag_sp : ℕ
reg_flag_sp = 0x0002

abbrev pub reg_flag_fp : ℕ
reg_flag_fp = 0x0004

abbrev pub reg_flag_flags : ℕ
reg_flag_flags = 0x0008

abbrev pub reg_flag_tls : ℕ
reg_flag_tls = 0x0010

abbrev pub reg_flag_lr : ℕ
reg_flag_lr = 0x0020

pub data Endianness : Type 0 where
  little big : Endianness

unfoldable pub endianness_code : Endianness → ℕ
endianness_code little = 1
endianness_code big = 2

pub data OsType : Type 0 where
  windows linux macos android ios freebsd netbsd openbsd qnx fuchsia unknown_os : OsType

unfoldable pub os_code : OsType → ℕ
os_code windows = 0
os_code linux = 1
os_code macos = 2
os_code android = 3
os_code ios = 4
os_code freebsd = 5
os_code netbsd = 6
os_code openbsd = 7
os_code qnx = 8
os_code fuchsia = 9
os_code unknown_os = 0xFFFF

-- OSType(code): `none` stands for the ValueError of an unknown code.
unfoldable pub os_of_code : ℕ → Option OsType
os_of_code n =
    if n == 0
    then some windows
    else if n == 1
    then some linux
    else if n == 2
    then some macos
    else if n == 3
    then some android
    else if n == 4
    then some ios
    else if n == 5
    then some freebsd
    else if n == 6
    then some netbsd
    else if n == 7
    then some openbsd
    else if n == 8
    then some qnx
    else if n == 9
    then some fuchsia
    else if n == 0xFFFF
    then some unknown_os
    else none

pub data ArchType : Type 0 where
  x86 x86_64 arm64 arm32 mips32 mips64 riscv32 riscv64 ppc32 ppc64 s390x : ArchType
  loongarch64 unknown_arch : ArchType

unfoldable pub arch_code : ArchType → ℕ
arch_code x86 = 0
arch_code x86_64 = 1
arch_code arm64 = 2
arch_code arm32 = 3
arch_code mips32 = 4
arch_code mips64 = 5
arch_code riscv32 = 6
arch_code riscv64 = 7
arch_code ppc32 = 8
arch_code ppc64 = 9
arch_code s390x = 10
arch_code loongarch64 = 11
arch_code unknown_arch = 0xFFFF

-- ArchType(code)
unfoldable pub arch_of_code : ℕ → Option ArchType
arch_of_code n =
    if n == 0
    then some x86
    else if n == 1
    then some x86_64
    else if n == 2
    then some arm64
    else if n == 3
    then some arm32
    else if n == 4
    then some mips32
    else if n == 5
    then some mips64
    else if n == 6
    then some riscv32
    else if n == 7
    then some riscv64
    else if n == 8
    then some ppc32
    else if n == 9
    then some ppc64
    else if n == 10
    then some s390x
    else if n == 11
    then some loongarch64
    else if n == 0xFFFF
    then some unknown_arch
    else none

pub data BlockType : Type 0 where
  memory_region module_entry module_list_index thread_context file_descriptor : BlockType
  network_connection environment_block security_token key_hint import_provenance : BlockType
  process_identity related_dump system_context process_table connection_table : BlockType
  handle_table connectivity_table kernel_symbol_bundle persistence_manifest : BlockType
  kernel_module_list target_introspection physical_memory_map : BlockType
  module_build_id_manifest region_omission_manifest end_of_extension end_of_capture : BlockType
  vas_map pointer_graph analysis_findings : BlockType

unfoldable pub block_code : BlockType → ℕ
block_code memory_region = 0x0001
block_code module_entry = 0x0002
block_code module_list_index = 0x0010
block_code thread_context = 0x0011
block_code file_descriptor = 0x0012
block_code network_connection = 0x0013
block_code environment_block = 0x0014
block_code security_token = 0x0015
block_code key_hint = 0x0020
block_code import_provenance = 0x0030
block_code process_identity = 0x0040
block_code related_dump = 0x0041
block_code system_context = 0x0050
block_code process_table = 0x0051
block_code connection_table = 0x0052
block_code handle_table = 0x0053
block_code connectivity_table = 0x0054
block_code kernel_symbol_bundle = 0x0055
block_code persistence_manifest = 0x0056
block_code kernel_module_list = 0x0057
block_code target_introspection = 0x0058
block_code physical_memory_map = 0x0059
block_code module_build_id_manifest = 0x005A
block_code region_omission_manifest = 0x005B
block_code end_of_extension = 0x0FFE
block_code end_of_capture = 0x0FFF
block_code vas_map = 0x1001
block_code pointer_graph = 0x1003
block_code analysis_findings = 0x1B70

pub data ThreadState : Type 0 where
  unknown_state running sleeping stopped waiting uninterruptible halted zombie : ThreadState

unfoldable pub thread_state_code : ThreadState → ℕ
thread_state_code unknown_state = 0
thread_state_code running = 1
thread_state_code sleeping = 2
thread_state_code stopped = 3
thread_state_code waiting = 4
thread_state_code uninterruptible = 5
thread_state_code halted = 6
thread_state_code zombie = 7

-- ThreadState(code), and `Unknown` for the ValueError of an unknown code
unfoldable pub thread_state_of_code : ℕ → ThreadState
thread_state_of_code n =
    if n == 1
    then running
    else if n == 2
    then sleeping
    else if n == 3
    then stopped
    else if n == 4
    then waiting
    else if n == 5
    then uninterruptible
    else if n == 6
    then halted
    else if n == 7
    then zombie
    else unknown_state

pub data CompAlgo : Type 0 where
  uncompressed zstd lz4 : CompAlgo

unfoldable pub comp_code : CompAlgo → ℕ
comp_code uncompressed = 0
comp_code zstd = 1
comp_code lz4 = 2

-- CompAlgo(code)
unfoldable pub comp_of_code : ℕ → Option CompAlgo
comp_of_code n =
    if n == 0
    then some uncompressed
    else if n == 1
    then some zstd
    else if n == 2
    then some lz4
    else none

pub data PageState : Type 0 where
  captured failed unmapped : PageState

unfoldable pub page_code : PageState → ℕ
page_code captured = 0
page_code failed = 1
page_code unmapped = 2

pub data RegionType : Type 0 where
  unknown_region heap stack image mapped_file anon shared_mem other_region : RegionType

unfoldable pub region_code : RegionType → ℕ
region_code unknown_region = 0
region_code heap = 1
region_code stack = 2
region_code image = 3
region_code mapped_file = 4
region_code anon = 5
region_code shared_mem = 6
region_code other_region = 0xFF

pub data ClockSource : Type 0 where
  unknown_clock clock_realtime clock_monotonic_raw query_performance_counter : ClockSource
  mach_absolute_time other_clock : ClockSource

unfoldable pub clock_code : ClockSource → ℕ
clock_code unknown_clock = 0
clock_code clock_realtime = 1
clock_code clock_monotonic_raw = 2
clock_code query_performance_counter = 3
clock_code mach_absolute_time = 4
clock_code other_clock = 0xFF

pub data HashAlgo : Type 0 where
  blake3 sha256 sha512_256 other_hash : HashAlgo

unfoldable pub hash_code : HashAlgo → ℕ
hash_code blake3 = 0
hash_code sha256 = 1
hash_code sha512_256 = 2
hash_code other_hash = 0xFF

-- HashAlgo(code)
unfoldable pub hash_of_code : ℕ → Option HashAlgo
hash_of_code n =
    if n == 0
    then some blake3
    else if n == 1
    then some sha256
    else if n == 2
    then some sha512_256
    else if n == 0xFF
    then some other_hash
    else none
