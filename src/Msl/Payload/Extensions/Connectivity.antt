-- ===== src/Msl/Payload/Extensions/Connectivity.antt =====
-- The payload of the connectivity table: seven kinds of tagged rows.
use memslicer.Prelude.{ℕ, ◌+◌, [], ◌∷◌, ◌++◌, length, Result, ok, ◌>>=◌}
use memslicer.Bytes.{Bytes, Format, u8, u16, u32, u64, pack}
use memslicer.Utils.{Text}
use memslicer.Msl.Types.{
  Ipv4RouteRow, Ipv6RouteRow, ArpEntryRow, PacketSocketRow, NetdevStatsRow, SockstatFamilyRow,
  SnmpCounterRow, ConnectivityTable,
}
use memslicer.Msl.Payload.{pack_rows}

-- A text behind its length.
unfoldable pub str_field : Text → Result Bytes
str_field s = do size ← pack (u16 ∷ []) (length s, tt); ok (size ++ s)

-- struct.pack("<BH", row_type, len(body)) + body
unfoldable pub tagged_row : ℕ → Bytes → Result Bytes
tagged_row row_type body = do
  head ← pack (u8 ∷ u16 ∷ []) (row_type, (length body, tt))
  ok (head ++ body)

unfoldable pub ipv4_route : Ipv4RouteRow → Result Bytes
unfolding str_field tagged_row
ipv4_route r = do
  iface ← str_field r.iface
  rest ← pack (u16 ∷ u32 ∷ u32 ∷ []) (r.flags, (r.metric, (r.mtu, tt)))
  tagged_row 0x01 (iface ++ (r.dest ++ (r.gateway ++ (r.mask ++ rest))))

unfoldable pub ipv6_route : Ipv6RouteRow → Result Bytes
unfolding str_field tagged_row
ipv6_route r = do
  iface ← str_field r.iface
  prefix ← pack (u8 ∷ []) (r.dest_prefix, tt)
  rest ← pack (u32 ∷ u32 ∷ []) (r.metric, (r.flags, tt))
  tagged_row 0x02 (iface ++ (r.dest ++ (prefix ++ (r.next_hop ++ rest))))

unfoldable pub arp_entry : ArpEntryRow → Result Bytes
unfolding str_field tagged_row
arp_entry r = do
  family ← pack (u8 ∷ []) (r.family, tt)
  kind ← pack (u16 ∷ u16 ∷ []) (r.hw_type, (r.flags, tt))
  iface ← str_field r.iface
  tagged_row 0x03 (family ++ (r.ip ++ (kind ++ (r.hw_addr ++ iface))))

unfoldable pub packet_socket : PacketSocketRow → Result Bytes
unfolding tagged_row
packet_socket r = do
  body ←
      pack (u32 ∷ u64 ∷ u16 ∷ u32 ∷ u32 ∷ u64 ∷ [])
        (r.pid, (r.inode, (r.proto, (r.iface_index, (r.user, (r.rmem, tt))))))
  tagged_row 0x04 body

-- "<QQQQQQQQ"
abbrev pub counters_format : Format
counters_format = u64 ∷ u64 ∷ u64 ∷ u64 ∷ u64 ∷ u64 ∷ u64 ∷ u64 ∷ []

unfoldable pub netdev_stats : NetdevStatsRow → Result Bytes
unfolding str_field tagged_row
netdev_stats r = do
  iface ← str_field r.iface
  counters ← pack counters_format (
    r.rx_bytes,
    (
      r.rx_packets,
      (r.rx_errs, (r.rx_drop, (r.tx_bytes, (r.tx_packets, (r.tx_errs, (r.tx_drop, tt)))))),
    ),
  )
  tagged_row 0x05 (iface ++ counters)

unfoldable pub sockstat_family : SockstatFamilyRow → Result Bytes
unfolding tagged_row
sockstat_family r = do
  body ← pack (u8 ∷ u32 ∷ u32 ∷ u64 ∷ []) (r.family, (r.in_use, (r.alloc, (r.mem, tt))))
  tagged_row 0x06 body

unfoldable pub snmp_counter : SnmpCounterRow → Result Bytes
unfolding str_field tagged_row
snmp_counter r = do
  mib ← str_field r.mib
  counter ← str_field r.counter
  value ← pack (u64 ∷ []) (r.value, tt)
  tagged_row 0x07 (mib ++ (counter ++ value))

unfoldable pub connectivity_payload : ConnectivityTable → Result Bytes
unfolding pack_rows ipv4_route ipv6_route arp_entry packet_socket netdev_stats sockstat_family
    snmp_counter
connectivity_payload t = do
  v4 ← pack_rows ipv4_route t.ipv4_routes
  v6 ← pack_rows ipv6_route t.ipv6_routes
  arp ← pack_rows arp_entry t.arp_entries
  sockets ← pack_rows packet_socket t.packet_sockets
  devices ← pack_rows netdev_stats t.netdev_stats
  families ← pack_rows sockstat_family t.sockstat_families
  snmp ← pack_rows snmp_counter t.snmp_counters
  head ← pack (u32 ∷ u32 ∷ []) (
    length t.ipv4_routes
        + length t.ipv6_routes
        + length t.arp_entries
        + length t.packet_sockets
        + length t.netdev_stats
        + length t.sockstat_families
        + length t.snmp_counters,
    (0, tt),
  )
  ok (head ++ (v4 ++ (v6 ++ (arp ++ (sockets ++ (devices ++ (families ++ snmp)))))))
