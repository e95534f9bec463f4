-- ===== src/Acquirer/Collectors/Connectivity.antt =====
-- memslicer/acquirer/collectors/linux_connectivity.py: the tables below /proc/net, on the lines of a
-- file, or `none` where it cannot be read. `inet_aton` is the function of the socket module.
use memslicer.Prelude.{
  ℕ, Bool, true, not, ◌&&◌, Option, none, some, List, [], ◌∷◌, length, drop, ltb, ◌==◌,
  if◌then◌else◌, Dict, replicate, Result, ok, err, value_error, no_integer, no_pair, ◌>>=◌,
}
use memslicer.Bytes.{Bytes, bytes_eq}
use memslicer.Utils.{Text}
use memslicer.Msl.Types.{Ipv4RouteRow, Ipv6RouteRow, ArpEntryRow, PacketSocketRow}
use memslicer.Acquirer.Projections.{from_hex}
use memslicer.Acquirer.Texts.{parse_int, split_at, split_words, partition}
use memslicer.Acquirer.Collectors.Addresses.{proc_net_hex_u32_to_bytes, number_of, pid_of}

abbrev pub Lines : Type 0
Lines = Option (List Text)

abbrev pub lines_of : Lines → List Text
lines_of none = []
lines_of (some lines) = lines

-- A ValueError gives no row; any other exception is passed on.
abbrev pub row_or_none {ℓ} : {R : Type ℓ} → Result R → Result (Option R)
row_or_none (ok row) = ok (some row)
row_or_none (err (value_error reason)) = ok none
row_or_none (err exn) = err exn

abbrev onto_rows {ℓ} : {R : Type ℓ} → Option R → List R → List R
onto_rows none rows = rows
onto_rows (some row) rows = row ∷ rows

-- for line in lines
unfoldable pub each_line {ℓ} :
    {R : Type ℓ} → (Text → Result (Option R)) → List Text → Result (List R)
each_line parse [] = ok []
each_line parse (line ∷ lines) = do
  row ← parse line
  rows ← each_line parse lines
  ok (onto_rows row rows)

-- head, _, rest = line.partition(":")
abbrev pub colon_parts : Text → Text × Text
colon_parts line = elim (partition line (58 ∷ [])) [ none ↦ (line, []) | some parts ↦ parts ]

abbrev hex_bytes : Text → Result Bytes
hex_bytes t = elim (from_hex t) [ none ↦ err (value_error no_integer) | some b ↦ ok b ]

-- bytes(numbers): each must be from 0 to 255.
abbrev byte_of : Option (Bool × ℕ) → Result ℕ
byte_of none = err (value_error no_integer)
byte_of (some (negative, n)) =
    if not negative && ltb n 256 then ok n else err (value_error no_integer)

module _ (wide_digit : ℕ → Option ℕ) (wide_space : ℕ → Bool) (inet_aton : Text → Option Bytes) where
  abbrev fields_of : Text → List Text
  fields_of line = split_words wide_digit wide_space line

  abbrev number : ℕ → Text → Result ℕ
  number base t = number_of wide_digit wide_space true base t

  abbrev route_address : Text → Result Bytes
  route_address t = proc_net_hex_u32_to_bytes wide_digit wide_space true t

  abbrev ipv4_route_of : List Text → Result Ipv4RouteRow
  ipv4_route_of (f0 ∷ f1 ∷ f2 ∷ f3 ∷ f4 ∷ f5 ∷ f6 ∷ f7 ∷ f8 ∷ f9 ∷ f10 ∷ rest) = do
    dest ← route_address f1
    gateway ← route_address f2
    flags ← number 16 f3
    metric ← number 10 f6
    mask ← route_address f7
    mtu ← number 10 f8
    ok (record {
      iface = f0;
      dest = dest;
      gateway = gateway;
      mask = mask;
      flags = flags;
      metric = metric;
      mtu = mtu;
    })
  ipv4_route_of _ = err (value_error no_pair)

  unfoldable pub parse_ipv4_routes : Lines → Result (List Ipv4RouteRow)
  unfolding each_line split_words parse_int proc_net_hex_u32_to_bytes
  parse_ipv4_routes file =
      each_line (λ line. row_or_none (ipv4_route_of (fields_of line))) (drop 1 (lines_of file))

  abbrev ipv6_row : Bytes → ℕ → Bytes → ℕ → ℕ → Text → Result Ipv6RouteRow
  ipv6_row dest dest_prefix next_hop metric flags iface =
      if length dest == 16 && length next_hop == 16
      then ok (record {
        iface = iface;
        dest = dest;
        dest_prefix = dest_prefix;
        next_hop = next_hop;
        metric = metric;
        flags = flags;
      })
      else err (value_error no_pair)

  abbrev ipv6_route_of : List Text → Result Ipv6RouteRow
  ipv6_route_of (f0 ∷ f1 ∷ f2 ∷ f3 ∷ f4 ∷ f5 ∷ f6 ∷ f7 ∷ f8 ∷ f9 ∷ rest) = do
    dest ← hex_bytes f0
    dest_prefix ← number 16 f1
    next_hop ← hex_bytes f4
    metric ← number 16 f5
    flags ← number 16 f8
    ipv6_row dest dest_prefix next_hop metric flags f9
  ipv6_route_of _ = err (value_error no_pair)

  unfoldable pub parse_ipv6_routes : Lines → Result (List Ipv6RouteRow)
  unfolding each_line split_words parse_int from_hex
  parse_ipv6_routes file =
      each_line (λ line. row_or_none (ipv6_route_of (fields_of line))) (lines_of file)

  abbrev mac_bytes : List Text → Result Bytes
  mac_bytes [] = ok []
  mac_bytes (p ∷ ps) = do
    b ← byte_of (parse_int wide_digit wide_space 16 p)
    rest ← mac_bytes ps
    ok (b ∷ rest)

  -- _parse_mac; None is the ValueError of no row.
  unfoldable pub parse_mac : Text → Result Bytes
  unfolding split_at parse_int
  parse_mac mac_str =
      if length (split_at 58 mac_str) == 6
      then mac_bytes (split_at 58 mac_str)
      else err (value_error no_pair)

  abbrev ip_of : Text → Result Bytes
  ip_of t = elim (inet_aton t) [ none ↦ err (value_error no_integer) | some ip ↦ ok ip ]

  abbrev arp_row : Text → Text → Text → Bytes → Text → Result ArpEntryRow
  arp_row ip_str hw_type_str flags_str hw_addr iface =
      if bytes_eq hw_addr (replicate 6 0) then err (value_error no_pair) else (do
        ip ← ip_of ip_str
        hw_type ← number 16 hw_type_str
        flags ← number 16 flags_str
        ok (record {
          family = 0x02;
          ip = ip;
          hw_type = hw_type;
          flags = flags;
          hw_addr = hw_addr;
          iface = iface;
        }))

  abbrev arp_entry_of : List Text → Result ArpEntryRow
  arp_entry_of (ip_str ∷ hw_type ∷ flags ∷ mac_str ∷ mask ∷ iface ∷ rest) = do
    hw_addr ← parse_mac mac_str
    arp_row ip_str hw_type flags hw_addr iface
  arp_entry_of _ = err (value_error no_pair)

  unfoldable pub parse_arp_entries : Lines → Result (List ArpEntryRow)
  unfolding each_line split_words parse_mac bytes_eq parse_int
  parse_arp_entries file =
      each_line (λ line. row_or_none (arp_entry_of (fields_of line))) (drop 1 (lines_of file))

  abbrev packet_socket_of : Dict ℕ ℕ → List Text → Result PacketSocketRow
  packet_socket_of inode_pid (f0 ∷ f1 ∷ f2 ∷ f3 ∷ f4 ∷ f5 ∷ f6 ∷ f7 ∷ f8 ∷ rest) = do
    proto ← number 16 f3
    iface_index ← number 10 f4
    rmem ← number 10 f6
    user ← number 10 f7
    inode ← number 10 f8
    ok (record {
      pid = pid_of wide_digit wide_space true inode_pid inode;
      inode = inode;
      proto = proto;
      iface_index = iface_index;
      user = user;
      rmem = rmem;
    })
  packet_socket_of inode_pid _ = err (value_error no_pair)

  unfoldable pub parse_packet_sockets : Lines → Dict ℕ ℕ → Result (List PacketSocketRow)
  unfolding each_line split_words parse_int
  parse_packet_sockets file inode_pid =
      each_line (λ line. row_or_none (packet_socket_of inode_pid (fields_of line)))
        (drop 1 (lines_of file))
