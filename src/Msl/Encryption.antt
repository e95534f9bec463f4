-- ===== src/Msl/Encryption.antt =====
-- memslicer/msl/encryption.py: the extension header, and the two buffers in front of AES-256-GCM.
-- Argon2id (`derive_key`) is a call of a package and is not modelled.
pub mod Header
pub mod Stream
use memslicer.Prelude.{
  ℕ, ◌-◌, Bool, true, false, List, [], ◌∷◌, ◌++◌, length, take, drop, concat, ◌==◌, if◌then◌else◌,
  none, some, Option, overflow_error, assertion_error, Result, ok, err, value_error, runtime_error,
  invalid_tag, nonce_length, salt_length, key_length, tag_length, extension_length, require, ◌>>=◌,
  ◌>>◌,
}
use memslicer.Bytes.{Bytes, Format, u8, u16, u32, pad, pack, decode, slice, zeros}
use memslicer.Msl.Host.{Host}

abbrev pub aes_gcm_nonce_len : ℕ
aes_gcm_nonce_len = 12

abbrev pub aes_gcm_tag_len : ℕ
aes_gcm_tag_len = 16

abbrev pub aes_256_key_len : ℕ
aes_256_key_len = 32

abbrev pub kdf_salt_len : ℕ
kdf_salt_len = 16

abbrev pub nonce_field_len : ℕ
nonce_field_len = 24

abbrev pub extension_header_len : ℕ
extension_header_len = 64

pub record EncryptionParams : Type 0 where
  pub enc_algo : ℕ
  pub kdf_type : ℕ
  pub key_encap : ℕ
  pub kdf_time : ℕ
  pub kdf_memory : ℕ
  pub kdf_lanes : ℕ
  pub kem_ct_len : ℕ
  pub nonce : Bytes
  pub kdf_salt : Bytes

-- EncryptionParams(...), with its `__post_init__`
unfoldable pub new_params : EncryptionParams → Result EncryptionParams
new_params p = do
  require (length p.nonce == aes_gcm_nonce_len) (value_error nonce_length)
  require (length p.kdf_salt == kdf_salt_len) (value_error salt_length)
  ok p

-- "<BBB x II B x H"
abbrev pub extension_format : Format
extension_format = u8 ∷ u8 ∷ u8 ∷ pad 1 ∷ u32 ∷ u32 ∷ u8 ∷ pad 1 ∷ u16 ∷ []

unfoldable pub pack_encryption_extension : EncryptionParams → Result Bytes
unfolding zeros
pack_encryption_extension p = do
  head ← pack extension_format (
    p.enc_algo,
    (p.kdf_type, (p.key_encap, (p.kdf_time, (p.kdf_memory, (p.kdf_lanes, (p.kem_ct_len, tt)))))),
  )
  let packed =
      head ++ ((p.nonce ++ zeros (nonce_field_len - length p.nonce)) ++ (p.kdf_salt ++ zeros 8))
  require (length packed == extension_header_len) assertion_error
  ok packed

-- The parameters whose integers the tuple holds.
abbrev pub params_of :
    ℕ × (ℕ × (ℕ × (ℕ × (ℕ × (ℕ × (ℕ × Unit {0})))))) → Bytes → Bytes → EncryptionParams
params_of (a, (k, (e, (t, (m, (l, (c, u))))))) nonce salt = record {
  enc_algo = a;
  kdf_type = k;
  key_encap = e;
  kdf_time = t;
  kdf_memory = m;
  kdf_lanes = l;
  kem_ct_len = c;
  nonce = nonce;
  kdf_salt = salt;
}

unfoldable pub unpack_encryption_extension : Bytes → Result EncryptionParams
unfolding new_params
unpack_encryption_extension raw = do
  require (length raw == extension_header_len) (value_error extension_length)
  let fields = decode extension_format raw
  new_params (params_of fields (take aes_gcm_nonce_len (slice 16 40 raw)) (slice 40 56 raw))

unfoldable pub validate_key_nonce : Bytes → Bytes → Result (Unit {0})
validate_key_nonce key nonce = do
  require (length key == aes_256_key_len) (value_error key_length)
  require (length nonce == aes_gcm_nonce_len) (value_error nonce_length)
  ok tt

-- StreamingEncryptor and StreamingDecryptor keep the same fields.
pub record Cipher : Type 0 where
  pub key : Bytes
  pub nonce : Bytes
  pub aad : Bytes
  pub chunks : List Bytes
  pub finalized : Bool

unfoldable pub new_cipher : Bytes → Bytes → Bytes → Result Cipher
unfolding validate_key_nonce
new_cipher key nonce aad = do
  validate_key_nonce key nonce
  ok (record { key = key; nonce = nonce; aad = aad; chunks = []; finalized = false })

-- `update` of both classes
unfoldable pub update : Cipher → Bytes → Result Cipher
update c b =
    if c.finalized then err runtime_error else ok (record c { chunks = c.chunks ++ (b ∷ []) })

-- The ciphertext and the tag behind it; encryption of data beyond the limit raises.
abbrev pub split_tag : Option Bytes → Result (Bytes × Bytes)
split_tag none = err overflow_error
split_tag (some both) = let n = length both - aes_gcm_tag_len in ok (take n both, drop n both)

module _ (host : Host) where
  -- StreamingEncryptor.finalize, with the object's new state. The object is finalized and its chunks
  -- are dropped before the data is encrypted.
  unfoldable pub encrypt_finalize : Cipher → Result (Bytes × Bytes) × Cipher
  encrypt_finalize c =
      let answer = split_tag (host.gcm_encrypt c.key c.nonce (concat c.chunks) c.aad) in
      if c.finalized
      then (err runtime_error, c)
      else (answer, record c { chunks = []; finalized = true })

  -- StreamingDecryptor.finalize. The object is finalized before the tag is checked.
  unfoldable pub decrypt_finalize : Cipher → Bytes → Result Bytes × Cipher
  decrypt_finalize c tag =
      let answer : Result Bytes =
        elim (host.gcm_decrypt c.key c.nonce (concat c.chunks ++ tag) c.aad) [
          | none ↦ err invalid_tag
          | some plain ↦ ok plain
        ] in
      if c.finalized
      then (err runtime_error, c)
      else if length tag == aes_gcm_tag_len
      then (answer, record c { chunks = []; finalized = true })
      else (err (value_error tag_length), c)
