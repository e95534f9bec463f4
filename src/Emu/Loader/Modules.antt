-- ===== src/Emu/Loader/Modules.antt =====
-- The module that the loader reads from the writer's payload of a module entry.
use memslicer.Prelude.{
  ◌-◌, ◌+◌, ◌≡◌, refl, sym, ap, ◌∙◌, true, false, [], ◌∷◌, ◌++◌, length, replicate, take, drop,
  ◌==◌, ok, >>=-eq-ok, arith, append_assoc, drop-append_length, take-append_length,
}
use memslicer.Bytes.{Bytes, Tuple, encode, in_range, pack, u32}
use memslicer.Bytes.Laws.{pack-eq-ok, unpack-take-encode, length-encode}
use memslicer.Utils.{Text, pad8, nul_terminated, encode_string, pad_bytes}
use memslicer.Msl.Types.{ModuleEntry}
use memslicer.Msl.Payload.{text_or_nothing, pad_if_any}
use memslicer.Msl.Payload.Core.{module_format, module_entry_payload}
use memslicer.Emu.Loader.{before_nul, parse_module}

-- No byte of the text is NUL.
abbrev pub NoNul : Text → Type 0
NoNul [] = Unit {0}
NoNul (c ∷ cs) = ((c == 0) ≡ false) × NoNul cs

before_nul-nul_terminated : (s : Text) → NoNul s → before_nul (nul_terminated s) ≡ s
unfolding before_nul nul_terminated
before_nul-nul_terminated [] h = refl
before_nul-nul_terminated (c ∷ cs) (ne, h) =
    rw ne (ap (λ (t : Text). c ∷ t) (before_nul-nul_terminated cs h))

abbrev module_fields : ModuleEntry → Tuple module_format
module_fields m = (
  m.base_addr,
  (m.module_size, (length (nul_terminated m.path), (length (text_or_nothing m.version), (0, tt)))),
)

-- The payload starts with the packed header and the path behind it.
module_entry_payload-eq-ok :
    (m : ModuleEntry) (p : Bytes)
    → module_entry_payload m ≡ ok p
    → (in_range module_format (module_fields m) ≡ true)
      × (rest : Bytes) × (p
          ≡ encode module_format (module_fields m) ++ (nul_terminated m.path ++ rest))
unfolding module_entry_payload encode_string pad_bytes nul_terminated
module_entry_payload-eq-ok m p e =
    let (head, packed, e1) = >>=-eq-ok (pack module_format (module_fields m)) _ e in
    let (blob_head, _, e2) =
      >>=-eq-ok (pack (u32 ∷ u32 ∷ []) (length m.native_blob, (0, tt))) _ e1 in
    let (head_eq, fits) = pack-eq-ok module_format (module_fields m) packed in
    let path : Bytes = nul_terminated m.path in
    let fill : Bytes = replicate (pad8 (length path) - length path) 0 in
    let rest : Bytes =
      pad_if_any (text_or_nothing m.version) ++ (m.disk_hash ++ (blob_head ++ m.native_blob)) in
    let whole : head ++ (encode_string m.path ++ rest) ≡ p = cc e2 in
    (
      fits,
      fill ++ rest,
      sym whole
          ∙ ap (λ (h : Bytes). h ++ (encode_string m.path ++ rest)) head_eq
          ∙ ap (λ (t : Bytes). encode module_format (module_fields m) ++ t)
              (append_assoc path fill rest),
    )

module _ (decode : Bytes → Text) where
  -- The payload that the writer packs for a module is read back as its base address, its size and
  -- its path, where the path has no NUL and decodes to itself.
  pub parse_module-module_entry_payload :
      (m : ModuleEntry) (p : Bytes)
      → NoNul m.path
      → decode m.path ≡ m.path
      → module_entry_payload m ≡ ok p
      → parse_module decode p
        ≡ ok (record { base = m.base_addr; size = m.module_size; path = m.path })
  unfolding parse_module
  parse_module-module_entry_payload m p clean same e =
      let (fits, rest, made) = module_entry_payload-eq-ok m p e in
      let path : Bytes = nul_terminated m.path in
      let opened = unpack-take-encode module_format (module_fields m) 24 (path ++ rest) refl fits in
      let behind : drop 24 (encode module_format (module_fields m) ++ (path ++ rest))
          ≡ path ++ rest =
        drop-append_length 24 (encode module_format (module_fields m)) (path ++ rest)
          (length-encode module_format (module_fields m)) in
      let cut : take (24 + length path - 24) (path ++ rest) ≡ path =
        take-append_length (24 + length path - 24) path rest (omega arith) in
      let shown : decode (before_nul path) ≡ m.path =
        ap decode (before_nul-nul_terminated m.path clean) ∙ same in
      rw (made, opened, behind, cut, shown) refl
