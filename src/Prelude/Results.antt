-- ===== src/Prelude/Results.antt =====
-- Python exceptions as values. A `ValueError` carries the reason that the source writes into its
-- message; the other classes are told apart by their name alone.
use mathlib.Core.Path.{◌≡◌, refl}
use mathlib.Core.Bool.{Bool, true, false}
use mathlib.Core.Logic.{◌⊎◌, inl, inr}

pub data Reason : Type 0 where
  bad_file_magic encrypted_slice unknown_hash_algo : Reason
  truncated_block_header bad_block_magic short_block_length truncated_payload : Reason
  missing_size_prefix decompression_failed size_mismatch unknown_comp_algo : Reason
  payload_too_large page_size_not_power region_not_aligned page_count_mismatch : Reason
  page_size_log2_range build_id_too_long disk_hash_too_long bytes_range : Reason
  nonce_length salt_length key_length tag_length extension_length kdf_type : Reason
  hash_algo_unsupported no_end_of_capture chr_range no_integer no_pair : Reason

pub data Exn : Type 0 where
  value_error : Reason → Exn
  struct_error index_error key_error runtime_error assertion_error : Exn
  not_implemented invalid_tag overflow_error codec_error type_error engine_error : Exn

-- What a call comes to: an exception, or a value.
pub data Result {ℓ} (V : Type ℓ) : Type ℓ where
  err : Exn → Result V
  ok : V → Result V

-- `if not test: raise x`
abbrev pub require : (test : Bool) (x : Exn) → Result (Unit {0})
require false x = err x
require true x = ok tt

pub require-eq-ok : (test : Bool) (x : Exn) {u : Unit {0}} → require test x ≡ ok u → test ≡ true
require-eq-ok false x h = cc
require-eq-ok true x h = refl

pub ok-injective {ℓ} : {V : Type ℓ} {v w : V} → ok v ≡ ok w → v ≡ w
ok-injective h = cc

pub Result-cases {ℓ} :
    {V : Type ℓ} (r : Result V) → ((v : V) × (r ≡ ok v)) ⊎ ((x : Exn) × (r ≡ err x))
Result-cases (err x) = inr (x, refl)
Result-cases (ok v) = inl (v, refl)

module _ {ℓ κ} {V : Type ℓ} {W : Type κ} where
  infixl 5 ◌>>=◌
  -- The first exception ends the chain.
  abbrev pub ◌>>=◌ : Result V → (V → Result W) → Result W
  err x >>= next = err x
  ok v >>= next = next v

  -- A chain that ends in a value has passed through one.
  pub >>=-eq-ok :
      (first : Result V) (next : V → Result W) {w : W}
      → (first >>= next) ≡ ok w
      → (v : V) × (first ≡ ok v) × (next v ≡ ok w)
  >>=-eq-ok (err x) next h = cc
  >>=-eq-ok (ok v) next h = (v, refl, h)

module _ {κ} {W : Type κ} where
  infixl 5 ◌>>◌
  abbrev pub ◌>>◌ : Result (Unit {0}) → Result W → Result W
  check >> next = check >>= λ done. next
