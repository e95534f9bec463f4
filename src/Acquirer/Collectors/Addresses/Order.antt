-- ===== src/Acquirer/Collectors/Addresses/Order.antt =====
-- The order of the bytes of decoded IPv4 addresses.
use memslicer.Prelude.{
  ℕ, ◌^◌, ◌<◌, ◌≡◌, ap, ◌∙◌, inl, inr, Bool, true, not, ◌&&◌, Option, none, some, ◌∷◌, ◌++◌, ltb,
  ok, err, ok-injective, >>=-eq-ok, Bool-cases, arith,
}
use memslicer.Bytes.{Bytes, to_le, zeros}
use memslicer.Bytes.Laws.{from_le-to_le}
use memslicer.Utils.{Text}
use memslicer.Acquirer.ElfNotes.{reverse}
use memslicer.Acquirer.Texts.{parse_int}
use memslicer.Acquirer.Collectors.Addresses.{
  u32_of, hex_u32, swapped_word, proc_net_hex_u32_to_bytes, decode_proc_net_ipv4,
}

u32_of-lt : (o : Option (Bool × ℕ)) (n : ℕ) → u32_of o ≡ ok n → n < 256 ^ 4
u32_of-lt none n h = cc
u32_of-lt (some (negative, m)) n h = elim (Bool-cases (not negative && ltb m (256 ^ 4))) [
  | inl q ↦
      let same : ok m ≡ ok n = rw q at h in
      let fits : m < 256 ^ 4 = ground arith in let at : m ≡ n = cc in omega arith
  | inr q ↦ let bad : err _ ≡ ok n = rw q at h in cc
]

swapped_word-reverse : (n : ℕ) → n < 256 ^ 4 → swapped_word true n ≡ reverse (to_le 4 n)
unfolding swapped_word
swapped_word-reverse n fits = ap (λ (m : ℕ). reverse (to_le 4 m)) (from_le-to_le 4 n fits)

module _ (wide_digit : ℕ → Option ℕ) (wide_space : ℕ → Bool) where
  -- On a little-endian host the decoder of the connection tables gives the four bytes of an IPv4
  -- address in the reverse of the order in which the decoder of the routing table gives them.
  pub decode_proc_net_ipv4-reverse :
      (c : ℕ) (cs : Text) (b : Bytes)
      → proc_net_hex_u32_to_bytes wide_digit wide_space true (c ∷ cs) ≡ ok b
      → decode_proc_net_ipv4 wide_digit wide_space true (c ∷ cs) ≡ ok (reverse b ++ zeros 12)
  unfolding proc_net_hex_u32_to_bytes decode_proc_net_ipv4
  decode_proc_net_ipv4-reverse c cs b h =
      let (n, parsed, made) = >>=-eq-ok (hex_u32 wide_digit wide_space true (c ∷ cs)) _ h in
      let fits = u32_of-lt (parse_int wide_digit wide_space 16 (c ∷ cs)) n parsed in
      let same : to_le 4 n ≡ b = ok-injective made in
      rw parsed
        (ap (λ (w : Bytes). ok (w ++ zeros 12)) (swapped_word-reverse n fits ∙ ap reverse same))
