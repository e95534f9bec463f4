-- ===== src/Msl/Integrity.antt =====
-- memslicer/msl/integrity.py. A hasher is its algorithm and the bytes it was given so far:
-- `update` appends, and `digest` is the host's digest of them all.
pub mod Laws
use memslicer.Prelude.{
  ◌≡◌, List, [], ◌∷◌, ◌++◌, Result, ok, err, value_error, hash_algo_unsupported, ◌>>=◌,
}
use memslicer.Bytes.{Bytes, zeros}
use memslicer.Msl.Constants.{HashAlgo, blake3, sha256, sha512_256, other_hash}
use memslicer.Msl.Host.{Host}

pub record Hasher : Type 0 where
  pub algo : HashAlgo
  pub fed : Bytes

unfoldable pub make_hasher : HashAlgo → Result Hasher
make_hasher blake3 = ok (record { algo = blake3; fed = [] })
make_hasher sha256 = ok (record { algo = sha256; fed = [] })
make_hasher sha512_256 = ok (record { algo = sha512_256; fed = [] })
make_hasher other_hash = err (value_error hash_algo_unsupported)

unfoldable pub update : Hasher → Bytes → Hasher
update h b = record h { fed = h.fed ++ b }

pub record Chain : Type 0 where
  pub hash_algo : HashAlgo
  pub prev_hash : Bytes
  pub file_hasher : Hasher

-- IntegrityChain(hash_algo)
unfoldable pub new_chain : HashAlgo → Result Chain
unfolding make_hasher zeros
new_chain algo = do
  h ← make_hasher algo
  ok (record { hash_algo = algo; prev_hash = zeros 32; file_hasher = h })

module _ (host : Host) where
  unfoldable pub digest : Hasher → Bytes
  digest h = host.digest h.algo h.fed

  unfoldable pub feed_header : Chain → Bytes → Result Chain
  unfolding make_hasher update digest
  feed_header c header = do
    let all = update c.file_hasher header
    h ← make_hasher c.hash_algo
    ok (record c { prev_hash = digest (update h header); file_hasher = all })

  unfoldable pub feed_block : Chain → Bytes → Result Chain
  unfolding make_hasher update digest
  feed_block c block = do
    let all = update c.file_hasher block
    h ← make_hasher c.hash_algo
    ok (record c { prev_hash = digest (update h block); file_hasher = all })

  -- for part in parts: both hashers take it
  unfoldable pub feed_parts : List Bytes → Hasher → Hasher → Hasher × Hasher
  unfolding update
  feed_parts [] all own = (all, own)
  feed_parts (p ∷ ps) all own = feed_parts ps (update all p) (update own p)

  unfoldable pub feed_block_parts : Chain → List Bytes → Result Chain
  unfolding make_hasher feed_parts digest
  feed_block_parts c parts = do
    own ← make_hasher c.hash_algo
    let fed = feed_parts parts c.file_hasher own
    ok (record c { prev_hash = digest fed.1; file_hasher = fed.0 })

  -- the digest of the file so far
  unfoldable pub finalize : Chain → Bytes
  unfolding digest
  finalize c = digest c.file_hasher
