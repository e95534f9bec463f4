-- ===== src/Acquirer/Projections.antt =====
-- memslicer/acquirer/engine.py: what the engine makes of the collector's record of a system. Of
-- `TargetSystemInfo` (memslicer/acquirer/investigation.py) the fields that it reads are kept.
pub mod Laws
use memslicer.Prelude.{
  ℕ, suc, ◌+◌, ◌-◌, ◌*◌, Bool, true, false, not, ◌&&◌, ◌||◌, Option, none, some, List, [], ◌∷◌,
  length, leb, ◌==◌, same_text, if◌then◌else◌,
}
use memslicer.Bytes.{Bytes}
use memslicer.Utils.{Text}
use memslicer.Msl.Types.{KernelSymbolBundle, ConnectivityTable}

pub record TargetSystemInfo : Type 0 where
  pub page_size : ℕ
  pub kernel_build_id : Text
  pub kaslr_text_va : ℕ
  pub kernel_page_offset : ℕ
  pub la57_enabled : Text
  pub pti_active : Text
  pub btf_sha256 : Text
  pub btf_size_bytes : ℕ
  pub vmcoreinfo_sha256 : Text
  pub kernel_config_sha256 : Text
  pub clock_realtime_ns : ℕ
  pub clock_monotonic_ns : ℕ
  pub clock_boottime_ns : ℕ
  pub clocksource : Text
  pub zram_devices : Text
  pub zswap_enabled : Text
  pub thp_mode : Text
  pub ksm_active : Text
  pub directmap_4k : ℕ
  pub directmap_2m : ℕ
  pub directmap_1g : ℕ

unfoldable pub hex_value : ℕ → Option ℕ
hex_value c =
    if leb 48 c && leb c 57
    then some (c - 48)
    else if leb 97 c && leb c 102
    then some (c - 87)
    else if leb 65 c && leb c 70
    then some (c - 55)
    else none

-- ASCII white space, which `bytes.fromhex` skips between bytes
unfoldable pub is_space : ℕ → Bool
is_space c = c == 32 || (leb 9 c && leb c 13)

abbrev pub byte_before : Option ℕ → Option ℕ → Option Bytes → Option Bytes
byte_before (some h) (some l) (some b) = some ((h * 16 + l) ∷ b)
byte_before _ _ _ = none

-- bytes.fromhex, with `none` for the ValueError
unfoldable pub from_hex : Text → Option Bytes
unfolding hex_value is_space
from_hex [] = some []
from_hex (c ∷ []) = if is_space c then some [] else none
from_hex (c ∷ d ∷ cs) =
    let skipped = from_hex (d ∷ cs) in
    let pair = byte_before (hex_value c) (hex_value d) (from_hex cs) in
    if is_space c then skipped else pair

abbrev or_empty : Option Bytes → Bytes
or_empty none = []
or_empty (some b) = b

abbrev of_length : Option ℕ → Bytes → Bytes
of_length none raw = raw
of_length (some n) raw = if length raw == n then raw else []

unfoldable pub hex_to_bytes : Text → Option ℕ → Bytes
unfolding from_hex
hex_to_bytes hex_str expected_len = of_length expected_len (or_empty (from_hex hex_str))

-- _str_flag_to_u8
unfoldable pub str_flag : Text → ℕ
str_flag value = if same_text value (b'1' ∷ []) then 1 else 0

unfoldable pub build_kernel_symbol_bundle : TargetSystemInfo → KernelSymbolBundle
unfolding hex_to_bytes str_flag
build_kernel_symbol_bundle s = record {
  page_size = s.page_size;
  kernel_build_id = hex_to_bytes s.kernel_build_id none;
  kaslr_text_va = s.kaslr_text_va;
  kernel_page_offset = s.kernel_page_offset;
  la57_enabled = str_flag s.la57_enabled;
  pti_active = str_flag s.pti_active;
  btf_sha256 = hex_to_bytes s.btf_sha256 (some 32);
  btf_size_bytes = s.btf_size_bytes;
  vmcoreinfo_sha256 = hex_to_bytes s.vmcoreinfo_sha256 (some 32);
  kernel_config_sha256 = hex_to_bytes s.kernel_config_sha256 (some 32);
  clock_realtime_ns = s.clock_realtime_ns;
  clock_monotonic_ns = s.clock_monotonic_ns;
  clock_boottime_ns = s.clock_boottime_ns;
  clocksource = s.clocksource;
  thp_mode = s.thp_mode;
  ksm_active = str_flag s.ksm_active;
  directmap_4k_kib = s.directmap_4k;
  directmap_2m_kib = s.directmap_2m;
  directmap_1g_kib = s.directmap_1g;
  zram_devices_json = s.zram_devices;
  zswap_enabled = str_flag s.zswap_enabled;
}

abbrev no_rows {ℓ} : {A : Type ℓ} → List A → Bool
no_rows [] = true
no_rows (r ∷ rs) = false

unfoldable pub connectivity_table_is_empty : Option ConnectivityTable → Bool
connectivity_table_is_empty none = true
connectivity_table_is_empty (some t) =
    no_rows t.ipv4_routes
    && no_rows t.ipv6_routes
    && no_rows t.arp_entries
    && no_rows t.packet_sockets
    && no_rows t.netdev_stats
    && no_rows t.sockstat_families
    && no_rows t.snmp_counters
