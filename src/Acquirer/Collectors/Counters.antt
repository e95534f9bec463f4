-- ===== src/Acquirer/Collectors/Counters.antt =====
-- memslicer/acquirer/collectors/linux_connectivity.py: the counters below /proc/net, on the lines of a
-- file, or `none` where it cannot be read.
use memslicer.Prelude.{
  ℕ, zero, suc, Bool, true, false, not, ◌&&◌, Option, none, some, List, [], ◌∷◌, ◌++◌, drop,
  same_text, codes, if◌then◌else◌, Dict, dict_get, dict_put, Result, ok, err, value_error,
  struct_error, no_pair, ◌>>=◌,
}
use memslicer.Utils.{Text}
use memslicer.Msl.Types.{NetdevStatsRow, SockstatFamilyRow, SnmpCounterRow}
use memslicer.Acquirer.Texts.{parse_int, split_words, partition, strip, strip_left, strip_right}
use memslicer.Acquirer.Collectors.Addresses.{number_of}
use memslicer.Acquirer.Collectors.Connectivity.{
  Lines, lines_of, row_or_none, each_line, colon_parts,
}

-- _SOCKSTAT_TAGS_V4 and _SOCKSTAT_TAGS_V6
abbrev pub sockstat_tags_v4 : Dict Text ℕ
sockstat_tags_v4 =
    (codes "TCP", 0x02) ∷ (codes "UDP", 0x11) ∷ (codes "RAW", 0x03) ∷ (codes "FRAG", 0x04) ∷ []

abbrev pub sockstat_tags_v6 : Dict Text ℕ
sockstat_tags_v6 =
    (codes "TCP6", 0x0A) ∷ (codes "UDP6", 0x0B) ∷ (codes "RAW6", 0x83) ∷ (codes "FRAG6", 0x84) ∷ []

-- A counter as it is read: whether it is below zero, and how far it is from zero
pub record ReadCounter : Type 0 where
  pub mib : Text
  pub counter : Text
  pub below_zero : Bool
  pub value : ℕ

-- What struct.pack("<Q", r.value) makes of it in the writer
unfoldable pub packed_counter : ReadCounter → Result SnmpCounterRow
packed_counter r =
    if r.below_zero
    then err struct_error
    else ok (record { mib = r.mib; counter = r.counter; value = r.value })

-- kv.get(key, other)
abbrev value_of : Dict Text ℕ → Text → ℕ → ℕ
value_of kv key other = elim (dict_get same_text kv key) [ none ↦ other | some n ↦ n ]

abbrev is_empty : Text → Bool
is_empty [] = true
is_empty (c ∷ cs) = false

module _ (wide_digit : ℕ → Option ℕ) (wide_space : ℕ → Bool) where
  abbrev words_of : Text → List Text
  words_of t = split_words wide_digit wide_space t

  abbrev decimal_number : Text → Result ℕ
  decimal_number t = number_of wide_digit wide_space true 10 t

  abbrev netdev_row : Text → List Text → Result NetdevStatsRow
  netdev_row iface
        (c0 ∷ c1 ∷ c2 ∷ c3 ∷ c4 ∷ c5 ∷ c6 ∷ c7 ∷ c8 ∷ c9 ∷ c10 ∷ c11 ∷ c12 ∷ c13 ∷ c14 ∷ c15
          ∷ rest) =
      do
        rx_bytes ← decimal_number c0
        rx_packets ← decimal_number c1
        rx_errs ← decimal_number c2
        rx_drop ← decimal_number c3
        tx_bytes ← decimal_number c8
        tx_packets ← decimal_number c9
        tx_errs ← decimal_number c10
        tx_drop ← decimal_number c11
        ok (record {
          iface = strip wide_digit wide_space iface;
          rx_bytes = rx_bytes;
          rx_packets = rx_packets;
          rx_errs = rx_errs;
          rx_drop = rx_drop;
          tx_bytes = tx_bytes;
          tx_packets = tx_packets;
          tx_errs = tx_errs;
          tx_drop = tx_drop;
        })
  netdev_row iface _ = err (value_error no_pair)

  abbrev netdev_line : Option (Text × Text) → Result NetdevStatsRow
  netdev_line none = err (value_error no_pair)
  netdev_line (some (iface, counters)) = netdev_row iface (words_of counters)

  -- Two lines are the header.
  unfoldable pub parse_netdev_stats : Lines → Result (List NetdevStatsRow)
  unfolding each_line split_words parse_int partition strip_left strip_right
  parse_netdev_stats file =
      each_line (λ line. row_or_none (netdev_line (partition line (58 ∷ []))))
        (drop 2 (lines_of file))

  abbrev put_number : Dict Text ℕ → Text → Result ℕ → Dict Text ℕ
  put_number out key (err exn) = out
  put_number out key (ok n) = dict_put same_text out key n

  -- for i in range(0, len(tokens) - 1, 2)
  unfoldable pub key_values : List Text → Dict Text ℕ → Dict Text ℕ
  unfolding parse_int
  key_values [] out = out
  key_values (key ∷ []) out = out
  key_values (key ∷ value ∷ tokens) out =
      key_values tokens (put_number out key (decimal_number value))

  -- _parse_kv_line
  unfoldable pub parse_kv_line : Text → Dict Text ℕ
  unfolding split_words key_values
  parse_kv_line rest = key_values (words_of rest) []

  abbrev family_rows : Option ℕ → Dict Text ℕ → List SockstatFamilyRow
  family_rows none kv = []
  family_rows (some tag) kv =
      record {
        family = tag;
        in_use = value_of kv (codes "inuse") 0;
        alloc = value_of kv (codes "alloc") 0;
        mem = value_of kv (codes "mem") (value_of kv (codes "memory") 0);
      }
      ∷ []

  unfoldable pub sockstat_line : Dict Text ℕ → Text → Text → List SockstatFamilyRow
  unfolding parse_kv_line
  sockstat_line tag_map head rest =
      if same_text head (codes "sockets")
      then record {
        family = 0xFF;
        in_use = value_of (parse_kv_line rest) (codes "used") 0;
        alloc = 0;
        mem = 0;
      }
        ∷ []
      else family_rows (dict_get same_text tag_map head) (parse_kv_line rest)

  -- _parse_sockstat_file
  unfoldable pub parse_sockstat_file : List Text → Dict Text ℕ → List SockstatFamilyRow
  unfolding partition strip_left strip_right sockstat_line
  parse_sockstat_file [] tag_map = []
  parse_sockstat_file (line ∷ lines) tag_map =
      let parts = colon_parts line in
      sockstat_line tag_map (strip wide_digit wide_space parts.0) parts.1
      ++ parse_sockstat_file lines tag_map

  unfoldable pub parse_sockstat : Lines → Lines → List SockstatFamilyRow
  unfolding parse_sockstat_file
  parse_sockstat file_v4 file_v6 =
      parse_sockstat_file (lines_of file_v4) sockstat_tags_v4
      ++ parse_sockstat_file (lines_of file_v6) sockstat_tags_v6

  abbrev counter_rows :
      Text → Text → Option (Bool × ℕ) → List ReadCounter → List ReadCounter → List ReadCounter
  counter_rows mib name none passed counted = passed
  counter_rows mib name (some (below_zero, n)) passed counted =
      record { mib = mib; counter = name; below_zero = below_zero; value = n } ∷ counted

  -- for name, value_str in zip(names, values), while `left` rows may still be emitted
  unfoldable pub mib_rows : ℕ → Text → List Text → List Text → List ReadCounter
  unfolding parse_int
  mib_rows zero mib names values = []
  mib_rows (suc left) mib [] values = []
  mib_rows (suc left) mib (name ∷ names) [] = []
  mib_rows (suc left) mib (name ∷ names) (value ∷ values) =
      let passed = mib_rows (suc left) mib names values in
      let counted = mib_rows left mib names values in
      counter_rows mib name (parse_int wide_digit wide_space 10 value) passed counted

  -- hprefix and hprefix == dprefix and hrest and drest
  abbrev pub is_pair : Text × Text → Text × Text → Bool
  is_pair (hprefix, hrest) (dprefix, drest) =
      not (is_empty hprefix)
      && same_text hprefix dprefix
      && not (is_empty hrest)
      && not (is_empty drest)

  -- _parse_mib_file: a header line with the data line behind it, or a line that is passed over
  unfoldable pub parse_mib_file : List Text → ℕ → List ReadCounter
  unfolding partition split_words strip_left strip_right mib_rows
  parse_mib_file [] max_per_mib = []
  parse_mib_file (header ∷ []) max_per_mib = []
  parse_mib_file (header ∷ data_line ∷ lines) max_per_mib =
      let head = colon_parts header in
      let row = colon_parts data_line in
      let paired = parse_mib_file lines max_per_mib in
      let passed = parse_mib_file (data_line ∷ lines) max_per_mib in
      if is_pair head row
      then mib_rows max_per_mib (strip wide_digit wide_space head.0) (words_of head.1)
          (words_of row.1)
        ++ paired
      else passed

  unfoldable pub parse_snmp_counters : Lines → Lines → ℕ → List ReadCounter
  unfolding parse_mib_file
  parse_snmp_counters snmp_file netstat_file max_per_mib =
      parse_mib_file (lines_of snmp_file) max_per_mib
      ++ parse_mib_file (lines_of netstat_file) max_per_mib
