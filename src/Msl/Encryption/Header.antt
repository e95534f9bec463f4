-- ===== src/Msl/Encryption/Header.antt =====
-- The extension header, written and read.
use memslicer.Prelude.{
  ◌<◌, ◌^◌, ◌≡◌, refl, sym, ap, ◌∙◌, ok, ◌++◌, length, take, drop, arith, length-append,
  take-append_length, drop-append_length, drop-drop,
}
use memslicer.Bytes.{Bytes, encode, zeros, slice}
use memslicer.Bytes.Laws.{length-encode, length-zeros, pack-Fits, decode-encode}
use memslicer.Msl.Encryption.{
  EncryptionParams, pack_encryption_extension, unpack_encryption_extension, extension_format,
}

-- What the 64 bytes can hold: integers in range, a 12-byte nonce and a 16-byte salt.
pub record IsStorable (p : EncryptionParams) : Type 0 where
  pub enc_algo : p.enc_algo < 256
  pub kdf_type : p.kdf_type < 256
  pub key_encap : p.key_encap < 256
  pub kdf_time : p.kdf_time < 2 ^ 32
  pub kdf_memory : p.kdf_memory < 2 ^ 32
  pub kdf_lanes : p.kdf_lanes < 256
  pub kem_ct_len : p.kem_ct_len < 2 ^ 16
  pub nonce : length p.nonce ≡ 12
  pub kdf_salt : length p.kdf_salt ≡ 16

module _ (p : EncryptionParams) (s : IsStorable p) where
  abbrev head : Bytes
  head = encode extension_format (
    p.enc_algo,
    (p.kdf_type, (p.key_encap, (p.kdf_time, (p.kdf_memory, (p.kdf_lanes, (p.kem_ct_len, tt)))))),
  )

  abbrev packed : Bytes
  packed = head ++ ((p.nonce ++ zeros 12) ++ (p.kdf_salt ++ zeros 8))

  length-head : length head ≡ 16
  length-head = length-encode extension_format _

  pub length-pack_encryption_extension : length packed ≡ 64
  length-pack_encryption_extension = omega (
    arith,
    length-head,
    length-append head ((p.nonce ++ zeros 12) ++ (p.kdf_salt ++ zeros 8)),
    length-append (p.nonce ++ zeros 12) (p.kdf_salt ++ zeros 8),
    length-append p.nonce (zeros 12),
    length-append p.kdf_salt (zeros 8),
    length-zeros 12,
    length-zeros 8,
    s.nonce,
    s.kdf_salt,
  )

  pack-packed : pack_encryption_extension p ≡ ok packed
  unfolding pack_encryption_extension
  pack-packed = rw (
    pack-Fits extension_format
        (
          p.enc_algo,
          (
            p.kdf_type,
            (p.key_encap, (p.kdf_time, (p.kdf_memory, (p.kdf_lanes, (p.kem_ct_len, tt))))),
          ),
        )
        (omega arith),
    s.nonce,
    length-pack_encryption_extension,
  )

  -- Parameters whose integers fit their fields, with a nonce of 12 and a salt of 16 bytes, are written
  -- to an extension header of 64 bytes, which reads back as them.
  pub unpack-pack_encryption_extension :
      (raw : Bytes) × (pack_encryption_extension p ≡ ok raw)
      × (length raw ≡ 64)
      × (unpack_encryption_extension raw ≡ ok p)
  unfolding unpack_encryption_extension
  unpack-pack_encryption_extension =
      let back =
        decode-encode extension_format
          (
            p.enc_algo,
            (
              p.kdf_type,
              (p.key_encap, (p.kdf_time, (p.kdf_memory, (p.kdf_lanes, (p.kem_ct_len, tt))))),
            ),
          )
          ((p.nonce ++ zeros 12) ++ (p.kdf_salt ++ zeros 8)) (omega arith) in
      let behind : drop 16 packed ≡ (p.nonce ++ zeros 12) ++ (p.kdf_salt ++ zeros 8) =
        drop-append_length 16 head _ length-head in
      let field : length (p.nonce ++ zeros 12) ≡ 24 =
        omega (arith, length-append p.nonce (zeros 12), length-zeros 12, s.nonce) in
      let nonce_back : take 12 (slice 16 40 packed) ≡ p.nonce =
        rw (behind, take-append_length 24 (p.nonce ++ zeros 12) (p.kdf_salt ++ zeros 8) field)
          (take-append_length 12 p.nonce (zeros 12) s.nonce) in
      let salt_at : drop 40 packed ≡ p.kdf_salt ++ zeros 8 =
        sym (drop-drop 16 24 40 packed refl)
        ∙ ap (drop 24) behind
        ∙ drop-append_length 24 (p.nonce ++ zeros 12) (p.kdf_salt ++ zeros 8) field in
      let salt_back : slice 40 56 packed ≡ p.kdf_salt =
        rw salt_at (take-append_length 16 p.kdf_salt (zeros 8) s.kdf_salt) in
      (
        packed,
        pack-packed,
        length-pack_encryption_extension,
        rw (length-pack_encryption_extension, back, nonce_back, salt_back, s.nonce, s.kdf_salt),
      )
