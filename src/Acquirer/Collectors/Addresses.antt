-- ===== src/Acquirer/Collectors/Addresses.antt =====
-- memslicer/acquirer/collectors: the addresses in addr_utils.py and in linux_connectivity.py, and the
-- lines of connection tables in linux.py. `little` is whether the host is little-endian.
pub mod Order
use memslicer.Prelude.{
  ℕ, zero, suc, ◌+◌, ◌*◌, ◌^◌, Bool, true, false, not, ◌&&◌, ◌||◌, Option, none, some, List, [],
  ◌∷◌, ◌++◌, map, length, take, drop, replicate, ltb, ◌==◌, starts_with, codes, if◌then◌else◌, Dict,
  dict_get, Result, Exn, ok, err, value_error, no_integer, no_pair, struct_error, require, ◌>>=◌,
  ◌>>◌, get_elem?,
}
use memslicer.Bytes.{Bytes, to_le, from_le, fixed, slice, zeros}
use memslicer.Utils.{Text}
use memslicer.Msl.Types.{ConnectionEntry}
use memslicer.Acquirer.ElfNotes.{reverse}
use memslicer.Acquirer.Projections.{from_hex}
use memslicer.Acquirer.Texts.{parse_int, split_at, split_words}

abbrev pub af_unix : ℕ
af_unix = 0x01

abbrev pub af_inet6 : ℕ
af_inet6 = 0x0A

abbrev pub ht_file : ℕ
ht_file = 0x01

abbrev pub ht_dir : ℕ
ht_dir = 0x02

abbrev pub ht_socket : ℕ
ht_socket = 0x03

abbrev pub ht_pipe : ℕ
ht_pipe = 0x04

abbrev pub ht_device : ℕ
ht_device = 0x05

-- struct.pack("=I", n), for a number that fits
abbrev pub native_u32 : Bool → ℕ → Bytes
native_u32 true n = to_le 4 n
native_u32 false n = reverse (to_le 4 n)

-- `struct` refuses a number that is below zero or does not fit.
abbrev pub u32_of : Option (Bool × ℕ) → Result ℕ
u32_of none = err (value_error no_integer)
u32_of (some (negative, n)) = if not negative && ltb n (256 ^ 4) then ok n else err struct_error

-- struct.pack("!I", struct.unpack("<I", struct.pack("=I", n))[0])
unfoldable pub swapped_word : Bool → ℕ → Bytes
unfolding to_le from_le
swapped_word little n = reverse (to_le 4 (from_le (native_u32 little n)))

module _ (wide_digit : ℕ → Option ℕ) (wide_space : ℕ → Bool) (little : Bool) where
  abbrev pub hex_u32 : Text → Result ℕ
  hex_u32 t = u32_of (parse_int wide_digit wide_space 16 t)

  -- _proc_net_hex_u32_to_bytes
  unfoldable pub proc_net_hex_u32_to_bytes : Text → Result Bytes
  unfolding parse_int to_le
  proc_net_hex_u32_to_bytes hex_str = do n ← hex_u32 hex_str; ok (to_le 4 n)

  unfoldable pub decode_proc_net_ipv4 : Text → Result Bytes
  unfolding parse_int swapped_word zeros
  decode_proc_net_ipv4 [] = ok (zeros 16)
  decode_proc_net_ipv4 (c ∷ cs) = do n ← hex_u32 (c ∷ cs); ok (swapped_word little n ++ zeros 12)

  -- for i in range(4): `n` words are left, from word i on.
  unfoldable pub decode_words : Text → ℕ → ℕ → Result Bytes
  unfolding parse_int swapped_word
  decode_words hex_addr i zero = ok []
  decode_words hex_addr i (suc n) = do
    word ← hex_u32 (slice (i * 8) ((i + 1) * 8) hex_addr)
    rest ← decode_words hex_addr (i + 1) n
    ok (swapped_word little word ++ rest)

  unfoldable pub decode_proc_net_ipv6 : Text → Result Bytes
  unfolding decode_words zeros
  decode_proc_net_ipv6 [] = ok (zeros 16)
  decode_proc_net_ipv6 (c ∷ cs) = decode_words (c ∷ cs) 0 4

  unfoldable pub decode_proc_net_addr : Text → Bool → Result Bytes
  unfolding decode_proc_net_ipv4 decode_proc_net_ipv6 zeros
  decode_proc_net_addr [] is_ipv6 = ok (zeros 16)
  decode_proc_net_addr (c ∷ cs) is_ipv6 =
      if is_ipv6 then decode_proc_net_ipv6 (c ∷ cs) else decode_proc_net_ipv4 (c ∷ cs)

  abbrev pub network_order : Bool → Option Bytes → Result Bytes
  network_order is_ipv6 none = err (value_error no_integer)
  network_order is_ipv6 (some raw) =
      ok (if is_ipv6 then fixed 16 (take 16 raw) else fixed 16 (take 4 raw))

  unfoldable pub decode_network_order_addr : Text → Bool → Result Bytes
  unfolding from_hex fixed zeros
  decode_network_order_addr [] is_ipv6 = ok (zeros 16)
  decode_network_order_addr (c ∷ cs) is_ipv6 = network_order is_ipv6 (from_hex (c ∷ cs))

  -- A number that the kernel does not write below zero; the sign is passed over.
  abbrev pub number_of : ℕ → Text → Result ℕ
  number_of base t = elim (parse_int wide_digit wide_space base t) [
    | none ↦ err (value_error no_integer)
    | some n ↦ ok n.1
  ]

  abbrev pub address_and_port : List Text → Bool → Result (Bytes × ℕ)
  address_and_port (addr ∷ port ∷ []) is_ipv6 = do
    n ← number_of 16 port
    addr_bytes ← (if is_ipv6 then decode_proc_net_ipv6 addr else decode_proc_net_ipv4 addr)
    ok (addr_bytes, n)
  address_and_port _ is_ipv6 = err (value_error no_pair)

  -- _parse_hex_addr
  unfoldable pub parse_hex_addr : Text → Bool → Result (Bytes × ℕ)
  unfolding split_at decode_proc_net_ipv6 decode_proc_net_ipv4 parse_int
  parse_hex_addr addr_port is_ipv6 = address_and_port (split_at 58 addr_port) is_ipv6

  abbrev pub pid_of : Dict ℕ ℕ → ℕ → ℕ
  pid_of inode_pid inode = elim (dict_get ◌==◌ inode_pid inode) [ none ↦ 0 | some pid ↦ pid ]

  abbrev pub connection : List Text → ℕ → ℕ → Bool → Dict ℕ ℕ → Result ConnectionEntry
  connection (f0 ∷ f1 ∷ f2 ∷ f3 ∷ f4 ∷ f5 ∷ f6 ∷ f7 ∷ f8 ∷ f9 ∷ rest) family protocol is_ipv6
        inode_pid =
      do
        (local_addr, local_port) ← parse_hex_addr f1 is_ipv6
        (remote_addr, remote_port) ← parse_hex_addr f2 is_ipv6
        state ← number_of 16 f3
        inode ← number_of 10 f9
        ok (record {
          pid = pid_of inode_pid inode;
          family = family;
          protocol = protocol;
          state = state;
          local_addr = local_addr;
          local_port = local_port;
          remote_addr = remote_addr;
          remote_port = remote_port;
        })
  connection _ family protocol is_ipv6 inode_pid = err (value_error no_pair)

  -- A ValueError gives no entry; any other exception is passed on.
  abbrev pub entry_or_none : Result ConnectionEntry → Result (Option ConnectionEntry)
  entry_or_none (ok entry) = ok (some entry)
  entry_or_none (err (value_error reason)) = ok none
  entry_or_none (err exn) = err exn

  -- _parse_net_line
  unfoldable pub parse_net_line : Text → ℕ → ℕ → Bool → Dict ℕ ℕ → Result (Option ConnectionEntry)
  unfolding split_words parse_hex_addr parse_int
  parse_net_line line family protocol is_ipv6 inode_pid =
      entry_or_none
        (connection (split_words wide_digit wide_space line) family protocol is_ipv6 inode_pid)

  abbrev pub onto_some : Option ConnectionEntry → List ConnectionEntry → List ConnectionEntry
  onto_some none entries = entries
  onto_some (some e) entries = e ∷ entries

  unfoldable pub parse_net_lines :
      List Text → ℕ → ℕ → Bool → Dict ℕ ℕ → Result (List ConnectionEntry)
  unfolding parse_net_line
  parse_net_lines [] family protocol is_ipv6 inode_pid = ok []
  parse_net_lines (line ∷ lines) family protocol is_ipv6 inode_pid = do
    entry ← parse_net_line line family protocol is_ipv6 inode_pid
    rest ← parse_net_lines lines family protocol is_ipv6 inode_pid
    ok (onto_some entry rest)

  -- _parse_net_file, on the lines of a file that can be read: the header is skipped.
  unfoldable pub parse_net_file : List Text → ℕ → ℕ → Dict ℕ ℕ → Result (List ConnectionEntry)
  unfolding parse_net_lines
  parse_net_file lines family protocol inode_pid =
      parse_net_lines (drop 1 lines) family protocol (family == af_inet6) inode_pid

  abbrev pub unix_row : ℕ → ConnectionEntry
  unix_row pid = record {
    pid = pid;
    family = af_unix;
    protocol = 0;
    state = 0;
    local_addr = replicate 16 0;
    local_port = 0;
    remote_addr = replicate 16 0;
    remote_port = 0;
  }

  abbrev pub unix_inode : Option Text → Dict ℕ ℕ → List ConnectionEntry → List ConnectionEntry
  unix_inode none inode_pid rest = rest
  unix_inode (some field) inode_pid rest = elim (parse_int wide_digit wide_space 10 field) [
    | none ↦ rest
    | some inode ↦ unix_row (pid_of inode_pid inode.1) ∷ rest
  ]

  unfoldable pub parse_unix_lines : List Text → Dict ℕ ℕ → List ConnectionEntry
  unfolding split_words parse_int
  parse_unix_lines [] inode_pid = []
  parse_unix_lines (line ∷ lines) inode_pid =
      unix_inode (get_elem? (split_words wide_digit wide_space line) 6) inode_pid
        (parse_unix_lines lines inode_pid)

  -- _parse_unix_file, on the lines of a file that can be read
  unfoldable pub parse_unix_file : List Text → Dict ℕ ℕ → List ConnectionEntry
  unfolding parse_unix_lines
  parse_unix_file lines inode_pid = parse_unix_lines (drop 1 lines) inode_pid

-- _classify_handle; `is_dir` is os.path.isdir.
unfoldable pub classify_handle : (Text → Bool) → Text → ℕ
classify_handle is_dir target =
    if starts_with target (codes "socket:")
    then ht_socket
    else if starts_with target (codes "pipe:")
    then ht_pipe
    else if starts_with target (codes "/dev/")
    then ht_device
    else if is_dir target
    then ht_dir
    else ht_file
