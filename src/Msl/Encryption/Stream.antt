-- ===== src/Msl/Encryption/Stream.antt =====
-- Encrypting and decrypting a stream, in whatever pieces it comes.
use memslicer.Prelude.{
  ◌≤◌, ◌<◌, ◌⊎◌, inl, inr, refl, overflow_error, ℕ, ◌-◌, ◌≡◌, sym, ◌∙◌, false, List, [], ◌∷◌, ◌++◌,
  concat, length, take, drop, Result, ok, err, runtime_error, ◌>>=◌, arith, append_assoc,
  append-nil, length-drop, length-take, take-append-drop,
}
use memslicer.Bytes.{Bytes}
use memslicer.Msl.Host.{Host, Authenticates, gcm_limit}
use memslicer.Msl.Encryption.{Cipher, new_cipher, update, encrypt_finalize, decrypt_finalize}

-- for data in pieces: cipher.update(data)
unfoldable pub update_all : Cipher → List Bytes → Result Cipher
unfolding update
update_all c [] = ok c
update_all c (b ∷ bs) = do c' ← update c b; update_all c' bs

-- The usage that the class comments show.
module _ (host : Host) (key nonce aad : Bytes) where
  unfoldable pub encrypt_stream : List Bytes → Result (Bytes × Bytes)
  unfolding new_cipher update_all encrypt_finalize
  encrypt_stream pieces = do
    c ← new_cipher key nonce aad
    c' ← update_all c pieces
    (encrypt_finalize host c').0

  unfoldable pub decrypt_stream : List Bytes → Bytes → Result Bytes
  unfolding new_cipher update_all decrypt_finalize
  decrypt_stream pieces tag = do
    c ← new_cipher key nonce aad
    c' ← update_all c pieces
    (decrypt_finalize host c' tag).0

module _ (key nonce aad : Bytes) where
  abbrev opened : List Bytes → Cipher
  opened bs = record { key = key; nonce = nonce; aad = aad; chunks = bs; finalized = false }

  -- An open cipher takes every piece, in order.
  update_all-opened : (had bs : List Bytes) → update_all (opened had) bs ≡ ok (opened (had ++ bs))
  unfolding update_all
  update_all-opened had [] = λ i. ok (opened (sym (append-nil had) i))
  update_all-opened had (b ∷ bs) =
      update_all-opened (had ++ (b ∷ [])) bs ∙ (λ i. ok (opened (append_assoc had (b ∷ []) bs i)))

  new_cipher-opened :
      length key ≡ 32 → length nonce ≡ 12 → new_cipher key nonce aad ≡ ok (opened [])
  unfolding new_cipher
  new_cipher-opened hk hn = rw (hk, hn)

-- What came of encrypting the data: a ciphertext of its length and a tag, of which every cutting into
-- pieces is decrypted to the data.
abbrev pub Sealed : Host → Bytes → Bytes → Bytes → List Bytes → Type 0
Sealed host key nonce aad pieces =
    (cipher : Bytes) × (tag : Bytes) × (encrypt_stream host key nonce aad pieces ≡ ok (cipher, tag))
    × (length cipher ≡ length (concat pieces))
    × (length tag ≡ 16)
    × ((parts : List Bytes)
        → concat parts ≡ cipher
        → decrypt_stream host key nonce aad parts tag ≡ ok (concat pieces))

short_or_long :
    (m n : ℕ) → ((m ≤ gcm_limit) × (n ≤ gcm_limit)) ⊎ ((gcm_limit < m) ⊎ (gcm_limit < n))
short_or_long m n = ground arith

encrypt_stream-Sealed :
    (host : Host) (key nonce aad : Bytes) (pieces : List Bytes)
    → Authenticates host
    → length key ≡ 32
    → length nonce ≡ 12
    → length (concat pieces) ≤ gcm_limit
    → length aad ≤ gcm_limit
    → Sealed host key nonce aad pieces
unfolding encrypt_stream decrypt_stream
encrypt_stream-Sealed host key nonce aad pieces a hk hn plain_short aad_short =
    let (both, sealed, size, back) =
      a.encrypts key nonce (concat pieces) aad hk hn plain_short aad_short in
    let n : ℕ = length both - 16 in
    (
      take n both,
      drop n both,
      rw (new_cipher-opened key nonce aad hk hn, update_all-opened key nonce aad [] pieces, sealed)
          refl,
      omega (arith, size, length-take n both),
      omega (arith, size, length-drop n both),
      λ parts e.
          let tag_size : length (drop n both) ≡ 16 = omega (arith, size, length-drop n both) in
          rw (
            new_cipher-opened key nonce aad hk hn,
            update_all-opened key nonce aad [] parts,
            tag_size,
            e,
            take-append-drop n both,
            back,
          ),
    )

encrypt_stream-refused :
    (host : Host) (key nonce aad : Bytes) (pieces : List Bytes)
    → Authenticates host
    → length key ≡ 32
    → length nonce ≡ 12
    → (gcm_limit < length (concat pieces)) ⊎ (gcm_limit < length aad)
    → encrypt_stream host key nonce aad pieces ≡ err overflow_error
unfolding encrypt_stream
encrypt_stream-refused host key nonce aad pieces a hk hn long = rw (
  new_cipher-opened key nonce aad hk hn,
  update_all-opened key nonce aad [] pieces,
  a.refuses key nonce (concat pieces) aad hk hn long,
)

-- Over a host whose AES-GCM is as it should be, with a key of 32 and a nonce of 12 bytes, and data
-- given to the encryptor in any pieces. If the data and the associated data have at most 2^31 - 1
-- bytes each, there are a ciphertext of the data's length and a tag of 16 bytes, and the decryptor,
-- given that ciphertext in any pieces and the tag, answers the data. If one of the two is longer, the
-- encryptor raises OverflowError.
pub decrypt-encrypt_stream :
    (host : Host) (key nonce aad : Bytes) (pieces : List Bytes)
    → Authenticates host
    → length key ≡ 32
    → length nonce ≡ 12
    → ((length (concat pieces) ≤ gcm_limit)
        × (length aad ≤ gcm_limit)
        × Sealed host key nonce aad pieces)
      ⊎ (((gcm_limit < length (concat pieces)) ⊎ (gcm_limit < length aad))
          × (encrypt_stream host key nonce aad pieces ≡ err overflow_error))
decrypt-encrypt_stream host key nonce aad pieces a hk hn =
    elim (short_or_long (length (concat pieces)) (length aad)) [
      | inl (h, k) ↦ inl (h, k, encrypt_stream-Sealed host key nonce aad pieces a hk hn h k)
      | inr long ↦ inr (long, encrypt_stream-refused host key nonce aad pieces a hk hn long)
    ]

-- After `finalize` an encryptor refuses to update and to finalize again, which leaves it as it is.
pub encrypt_once :
    (host : Host) (c : Cipher) (b : Bytes)
    → (update (encrypt_finalize host c).1 b ≡ err runtime_error)
      × (encrypt_finalize host (encrypt_finalize host c).1
          ≡ (err runtime_error, (encrypt_finalize host c).1))
unfolding update encrypt_finalize
encrypt_once host c b = ground arith
