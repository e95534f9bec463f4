-- ===== src/Acquirer/Tests/Details.antt =====
-- The theorems on the packed system details at concrete inputs.
use memslicer.Prelude.{
  ℕ, true, false, map, replicate, struct_error, All, ◌++◌, ◌≤◌, ◌≡◌, ◌⊎◌, refl, Bool, false, Option,
  none, [], ◌∷◌, codes, ok, err, value_error, chr_range, arith,
}
use memslicer.Acquirer.OsDetail.{
  human_key, build_human_os_string, utf8_length, render, body_of, pack_os_detail, parse_os_detail,
  drop_pairs, drop_one, is_provenance, parse_pairs,
}
use memslicer.Acquirer.Collected.{
  word, count, Fields, Pairs, collected, known_pairs, maybe_add, text_of, sort_keys, insert_key,
  other_keys, valid_key,
}
use memslicer.Acquirer.Escaping.{
  escape_value, escape_char, is_reserved, unescape_value, unescape_from, parse_hex,
}
use memslicer.Acquirer.Texts.{
  decimal_from, join, strip_right, strip_left, partition, split_at, digit_value, is_space_char,
}
use memslicer.Acquirer.OsDetail.RoundTrip.{parse_os_detail-pack_os_detail}
use memslicer.Bytes.{Bytes, to_le, from_le, zeros}
use memslicer.Utils.{Text}
use memslicer.Acquirer.Collectors.Environ.{
  redact_environ, redact_entries, is_secret, any_secret, without_newline,
}
use memslicer.Acquirer.Collectors.Environ.Redacted.{IsHarmless, redact_environ-IsHarmless}
use memslicer.Acquirer.ElfNotes.{reverse}
use memslicer.Acquirer.Texts.{words_from, split_words, digits_from, parse_int}
use memslicer.Acquirer.Collectors.Addresses.{
  swapped_word, decode_proc_net_ipv4, proc_net_hex_u32_to_bytes,
}
use memslicer.Acquirer.Collectors.Addresses.Order.{decode_proc_net_ipv4-reverse}
use memslicer.Acquirer.Collectors.Counters.{parse_mib_file, mib_rows, packed_counter}
use memslicer.Acquirer.OsDetail.Projected.{Attributes, system_info_to_fields}
use memslicer.Acquirer.OsDetail.Projected.Gates.{IsAbsent, system_info_to_fields-IsAbsent}
use memslicer.Acquirer.OsDetail.Budget.{
  IsFitted, provenance_of, drop_pairs-IsFitted, utf8_length-pack_os_detail,
}

abbrev no_wide_digit : ℕ → Option ℕ
no_wide_digit c = none

abbrev no_wide_space : ℕ → Bool
no_wide_space c = false

abbrev two_fields : Fields
two_fields =
    (codes "hw_model", word (codes "a;b=c|d"))
    ∷ (codes "cpu_count", count 12)
    ∷ (codes "distro", word (codes "Debian"))
    ∷ []

parse_os_detail-pack_os_detail_example :
    parse_os_detail no_wide_digit no_wide_space
      (pack_os_detail no_wide_digit no_wide_space two_fields none 61440 4096)
    ≡ ok ((human_key, codes "Debian") ∷ collected two_fields)
unfolding collected known_pairs maybe_add text_of decimal_from sort_keys insert_key other_keys
    valid_key build_human_os_string join utf8_length render body_of escape_value escape_char
    is_reserved strip_right
parse_os_detail-pack_os_detail_example =
    parse_os_detail-pack_os_detail no_wide_digit no_wide_space two_fields none 61440 4096 b'D'
      (codes "ebian") refl (refl, (refl, (refl, (refl, (refl, (refl, tt))))))
      ((refl, tt), ((refl, (refl, tt)), ((refl, (refl, (refl, tt))), tt))) (omega arith)
      (omega arith)

utf8_length-pack_os_detail_example :
    utf8_length (pack_os_detail no_wide_digit no_wide_space two_fields none 16 0) ≤ 16
utf8_length-pack_os_detail_example =
    utf8_length-pack_os_detail no_wide_digit no_wide_space two_fields none 16 0 (omega arith)

abbrev two_pairs : Pairs
two_pairs = (codes "mode", codes "live") ∷ (codes "zone", codes "x") ∷ []

drop_pairs_example :
    drop_pairs no_wide_digit no_wide_space 2 (codes "A") 20 two_pairs
    ≡ (codes "mode", codes "live") ∷ []
unfolding drop_pairs render body_of join utf8_length drop_one is_provenance strip_right
drop_pairs_example = refl

drop_pairs-IsFitted_example :
    IsFitted no_wide_digit no_wide_space
      (codes "A")
      20
      (drop_pairs no_wide_digit no_wide_space 2 (codes "A") 20 two_pairs)
    × (provenance_of (drop_pairs no_wide_digit no_wide_space 2 (codes "A") 20 two_pairs)
        ≡ provenance_of two_pairs)
drop_pairs-IsFitted_example =
    drop_pairs-IsFitted no_wide_digit no_wide_space (codes "A") 20 two_pairs

-- A sign behind a "%" makes the parser raise.
parse_os_detail_example :
    parse_os_detail no_wide_digit no_wide_space (codes "msl.memslicer/1 x | k=%-1")
    ≡ err (value_error chr_range)
unfolding parse_os_detail partition split_at parse_pairs valid_key strip_left strip_right
    unescape_value unescape_from parse_hex digit_value is_space_char is_reserved
parse_os_detail_example = refl

-- A distribution's name can add a field, and hide its own.
pack_os_detail_example :
    parse_os_detail no_wide_digit no_wide_space (
      pack_os_detail no_wide_digit no_wide_space
        ((codes "distro", word (codes "X | mode=live;")) ∷ [])
        none
        61440
        4096)
    ≡ ok ((human_key, codes "X") ∷ (codes "mode", codes "live") ∷ [])
unfolding parse_os_detail partition split_at parse_pairs valid_key strip_left strip_right
    unescape_value unescape_from parse_hex digit_value is_space_char is_reserved pack_os_detail
pack_os_detail_example = refl

-- A system whose every attribute is "x".
abbrev any_system : Attributes
any_system name = word (codes "x")

system_info_to_fields-IsAbsent_example :
    ((false ≡ true)
      ⊎ (IsAbsent (codes "machine_id") (system_info_to_fields any_system false true false true)
          × IsAbsent (codes "hw_serial") (system_info_to_fields any_system false true false true)))
    × ((true ≡ true)
        ⊎ IsAbsent (codes "nic_macs") (system_info_to_fields any_system false true false true))
    × ((false ≡ true)
        ⊎ IsAbsent (codes "fingerprint") (system_info_to_fields any_system false true false true))
system_info_to_fields-IsAbsent_example =
    system_info_to_fields-IsAbsent any_system false true false true

abbrev same_bytes : Bytes → Text
same_bytes b = b

abbrev same_char : ℕ → ℕ
same_char c = c

abbrev small_environ : Bytes
small_environ = codes "HOME=/" ++ 0 ∷ codes "GH_Token=abc" ++ 0 ∷ codes "KEYBOARD=us"

redact_environ_example : redact_environ same_bytes same_char small_environ ≡ (
  codes "HOME=/" ++ 0 ∷ codes "GH_Token=<redacted>" ++ 0 ∷ codes "KEYBOARD=us",
  codes "GH_Token" ∷ [],
)
unfolding redact_environ redact_entries split_at partition is_secret any_secret without_newline join
redact_environ_example = refl

redact_environ-IsHarmless_example :
    All
      (IsHarmless same_bytes same_char)
      (split_at 0 (redact_environ same_bytes same_char small_environ).0)
redact_environ-IsHarmless_example =
    redact_environ-IsHarmless same_bytes same_char (λ b h. h) small_environ

-- A counter below zero, as the kernel's MaxConn, cannot be packed.
parse_mib_file_example :
    map packed_counter
      (parse_mib_file no_wide_digit no_wide_space (codes "Tcp: MaxConn" ∷ codes "Tcp: -1" ∷ []) 50)
    ≡ err struct_error ∷ []
unfolding parse_mib_file partition split_words words_from strip_left strip_right mib_rows parse_int
    digits_from digit_value is_space_char packed_counter
parse_mib_file_example = refl

-- 127.0.0.1 as /proc/net/tcp shows it
decode_proc_net_ipv4_example :
    decode_proc_net_ipv4 no_wide_digit no_wide_space true (codes "0100007F")
    ≡ ok (1 ∷ 0 ∷ 0 ∷ 127 ∷ replicate 12 0)
unfolding decode_proc_net_ipv4 parse_int digits_from digit_value is_space_char strip_left
    strip_right swapped_word to_le from_le zeros
decode_proc_net_ipv4_example = refl

decode_proc_net_ipv4-reverse_example :
    decode_proc_net_ipv4 no_wide_digit no_wide_space true (codes "0100007F")
    ≡ ok (reverse (127 ∷ 0 ∷ 0 ∷ 1 ∷ []) ++ zeros 12)
unfolding proc_net_hex_u32_to_bytes parse_int digits_from digit_value is_space_char strip_left
    strip_right to_le
decode_proc_net_ipv4-reverse_example =
    decode_proc_net_ipv4-reverse no_wide_digit no_wide_space b'0' (codes "100007F")
      (127 ∷ 0 ∷ 0 ∷ 1 ∷ []) refl
