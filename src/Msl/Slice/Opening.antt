-- ===== src/Msl/Slice/Opening.antt =====
-- A new writer without a key, and the iterator on its header.
use memslicer.Prelude.{
  bit_or, ℕ, ◌+◌, ◌≤◌, ◌≡◌, refl, sym, ap, ◌∙◌, inl, inr, true, false, none, some, [], ◌∷◌, ◌++◌,
  length, take, drop, bit_and, ok, arith, >>=-eq-ok, ◌==◌, drop-drop, take_all, length-take,
  length-drop, length-append,
}
use memslicer.Bytes.{Bytes, Tuple, u8, u32, decode, pack, unpack, fixed, from_le}
use memslicer.Bytes.Laws.{pack-eq-ok, length-encode, decode-encode-trim, trim}
use memslicer.Msl.Constants.{
  HashAlgo, blake3, sha256, sha512_256, other_hash, CompAlgo, uncompressed, zstd, lz4,
  endianness_code, os_code, arch_code, clock_code, hash_code, hash_of_code, flag_encrypted,
  header_size, file_magic,
}
use memslicer.Msl.Types.{FileHeader}
use memslicer.Msl.Host.{Host}
use memslicer.Msl.Integrity.{Hasher, Chain, make_hasher, new_chain, feed_header}
use memslicer.Bytes.{zeros, uint}
use memslicer.Prelude.{◌<◌, ◌*◌}
use mathlib.Core.Path.{subst}
use memslicer.Msl.Writer.{Writer, base_header, file_header_format, flags_of, new_writer}
use memslicer.Msl.Iterator.{read_hash_algo}
use memslicer.Msl.Slice.{IsSlice, IsWriterFlags}

ok-injective {ℓ} : {A : Type ℓ} {a b : A} → ok a ≡ ok b → a ≡ b
ok-injective p = cc p

flags_of-IsWriterFlags : (a : CompAlgo) → IsWriterFlags (flags_of a)
unfolding flags_of
flags_of-IsWriterFlags uncompressed = inl refl
flags_of-IsWriterFlags zstd = inr (inr (inl refl))
flags_of-IsWriterFlags lz4 = inr (inr (inr refl))

make_hasher-eq-ok :
    (a : HashAlgo) (h : Hasher) → make_hasher a ≡ ok h → h ≡ record { algo = a; fed = [] }
unfolding make_hasher
make_hasher-eq-ok blake3 h e = cc
make_hasher-eq-ok sha256 h e = cc
make_hasher-eq-ok sha512_256 h e = cc
make_hasher-eq-ok other_hash h e = cc

-- The writer that stands behind its header.
abbrev opened : Host → FileHeader → CompAlgo → Bytes → Writer
opened host h a bytes = record {
  output = bytes;
  chain = record {
    hash_algo = h.hash_algo;
    prev_hash = host.digest h.hash_algo bytes;
    file_hasher = record { algo = h.hash_algo; fed = bytes };
  };
  block_index = 0;
  encrypted = false;
  encryptor = none;
  comp_flags = flags_of a;
  drawn = 0;
  warned = 0;
}

feed_header-made :
    (host : Host) (c : Chain) (bytes : Bytes) (algo : HashAlgo)
    → make_hasher c.hash_algo ≡ ok (record { algo = algo; fed = [] })
    → feed_header host c bytes
      ≡ ok (record {
        hash_algo = c.hash_algo;
        prev_hash = host.digest algo bytes;
        file_hasher = record { algo = c.file_hasher.algo; fed = c.file_hasher.fed ++ bytes };
      })
unfolding feed_header
feed_header-made host c bytes algo made = rw made

-- A writer that opens without a key has made its hasher and packed its header.
pub new_writer-eq-ok :
    (host : Host) (h : FileHeader) (a : CompAlgo) (w : Writer)
    → new_writer host h a none ≡ ok w
    → (bytes : Bytes) × (base_header h header_size ≡ ok bytes)
      × (make_hasher h.hash_algo ≡ ok (record { algo = h.hash_algo; fed = [] }))
      × (ok (opened host h a bytes) ≡ ok w)
unfolding new_writer
new_writer-eq-ok host h a w e =
    let (chain, ec, e1) = >>=-eq-ok (new_chain h.hash_algo) _ e in
    let (bytes, eb, e2) = >>=-eq-ok (base_header h header_size) _ e1 in
    let (hasher, em, e3) = >>=-eq-ok (make_hasher h.hash_algo) _ ec in
    let made : make_hasher h.hash_algo ≡ ok (record { algo = h.hash_algo; fed = [] }) =
      em ∙ ap ok (make_hasher-eq-ok h.hash_algo hasher em) in
    let start : Chain = record {
      hash_algo = h.hash_algo;
      prev_hash = zeros 32;
      file_hasher = record { algo = h.hash_algo; fed = [] };
    } in
    let chained : new_chain h.hash_algo ≡ ok start = rw made in
    let forward : new_writer host h a none ≡ ok (opened host h a bytes) =
      rw (chained, eb, feed_header-made host start bytes h.hash_algo made) in
    (bytes, eb, made, sym forward ∙ e)

-- A new writer without a key is one with its header and no blocks.
pub new_writer-IsSlice :
    (host : Host) (h : FileHeader) (a : CompAlgo) (w : Writer)
    → new_writer host h a none ≡ ok w
    → (header : Bytes) × (base_header h header_size ≡ ok header)
      × IsSlice host h.hash_algo header [] w
new_writer-IsSlice host h a w e =
    let (bytes, eb, made, same) = new_writer-eq-ok host h a w e in
    (
      bytes,
      eb,
      subst (IsSlice host h.hash_algo bytes []) (ok-injective same) (record {
        output = refl;
        index = refl;
        plain = refl;
        clear = refl;
        chain_algo = refl;
        file_algo = refl;
        hashed = refl;
        prev = refl;
        comp_flags = flags_of-IsWriterFlags a;
        supported = made;
        blocks_are = tt;
        linked = tt;
      }),
    )

-- The three fields that the iterator reads, by their offsets in the header.
fields_at :
    (b : Bytes)
    → (take 8 b ≡ (decode file_header_format b).0)
      × (from_le (take 4 (drop 12 b)) ≡ (decode file_header_format b).1.1.1.1.0)
      × (from_le (take 1 (drop 61 b)) ≡ (decode file_header_format b).1.1.1.1.1.1.1.1.1.1.1.1.1.0)
unfolding decode
fields_at b = (
  refl,
  rw (drop-drop 8 1 9 b refl, drop-drop 9 1 10 b refl, drop-drop 10 2 12 b refl) refl,
  rw
      (
        drop-drop 8 1 9 b refl,
        drop-drop 9 1 10 b refl,
        drop-drop 10 2 12 b refl,
        drop-drop 12 4 16 b refl,
        drop-drop 16 8 24 b refl,
        drop-drop 24 16 40 b refl,
        drop-drop 40 8 48 b refl,
        drop-drop 48 2 50 b refl,
        drop-drop 50 2 52 b refl,
        drop-drop 52 4 56 b refl,
        drop-drop 56 1 57 b refl,
        drop-drop 57 4 61 b refl,
      )
      refl,
)

-- The header's fields.
abbrev head_tuple : FileHeader → Tuple file_header_format
head_tuple h = (
  file_magic,
  (
    endianness_code h.endianness,
    (
      header_size,
      (
        bit_or (h.version.0 * 256) h.version.1,
        (
          h.flags,
          (
            h.cap_bitmap,
            (
              h.dump_uuid,
              (
                h.timestamp_ns,
                (
                  os_code h.os_type,
                  (
                    arch_code h.arch_type,
                    (
                      h.pid,
                      (
                        clock_code h.clock_source,
                        (h.block_count, (hash_code h.hash_algo, (zeros 2, tt))),
                      ),
                    ),
                  ),
                ),
              ),
            ),
          ),
        ),
      ),
    ),
  ),
)

base_header-eq-ok :
    (h : FileHeader) (header : Bytes)
    → base_header h header_size ≡ ok header
    → pack file_header_format (head_tuple h) ≡ ok header
unfolding base_header
base_header-eq-ok h header e = e

hash_of_code-hash_code : (a : HashAlgo) → hash_of_code (hash_code a) ≡ some a
unfolding hash_of_code hash_code
hash_of_code-hash_code a = ground arith

hash_code-lt : (a : HashAlgo) → hash_code a < 256
unfolding hash_code
hash_code-lt a = ground arith

unpack_one : (w : ℕ) (b : Bytes) → length b ≡ w → unpack (uint w ∷ []) b ≡ ok (from_le b, tt)
unfolding unpack decode
unpack_one w b h =
    rw (h, take_all w b (omega arith)) (let e : (w == w + 0) ≡ true = ground arith in rw e refl)

-- The header that a writer without a key packs, its bit for encryption clear, has 64 bytes, and with
-- anything behind it `read_hash_algo` answers the hash algorithm that it was made with.
pub read_hash_algo-base_header :
    (h : FileHeader) (header rest : Bytes)
    → base_header h header_size ≡ ok header
    → bit_and h.flags flag_encrypted ≡ 0
    → (length header ≡ 64) × (read_hash_algo (header ++ rest) ≡ ok h.hash_algo)
unfolding read_hash_algo fixed
read_hash_algo-base_header h header rest e clear =
    let (shape, fits) = pack-eq-ok file_header_format _ (base_header-eq-ok h header e) in
    let file : Bytes = header ++ rest in
    let size : length header ≡ 64 =
      ap length shape ∙ length-encode file_header_format (head_tuple h) in
    let (magic, flags, code) = fields_at file in
    let whole : decode file_header_format file ≡ trim file_header_format (head_tuple h) =
      ap (λ (b : Bytes). decode file_header_format (b ++ rest)) shape
      ∙ decode-encode-trim file_header_format (head_tuple h) rest fits in
    let magic_is : take 8 file ≡ file_magic = magic ∙ ap (λ t. t.0) whole in
    let flags_is : from_le (take 4 (drop 12 file)) ≡ h.flags =
      flags ∙ ap (λ t. t.1.1.1.1.0) whole in
    let code_is : from_le (take 1 (drop 61 file)) ≡ hash_code h.hash_algo =
      code ∙ ap (λ t. t.1.1.1.1.1.1.1.1.1.1.1.1.1.0) whole in
    let long : 64 ≤ length file = omega (arith, length-append header rest, size) in
    let flags_read : unpack (u32 ∷ []) (take 4 (drop 12 file)) ≡ ok (h.flags, tt) =
      unpack_one 4 _ (omega (arith, length-take 4 (drop 12 file), length-drop 12 file, long))
      ∙ ap (λ (n : ℕ). ok (n, tt)) flags_is in
    let code_read : unpack (u8 ∷ []) (take 1 (drop 61 file)) ≡ ok (hash_code h.hash_algo, tt) =
      unpack_one 1 _ (omega (arith, length-take 1 (drop 61 file), length-drop 61 file, long))
      ∙ ap (λ (n : ℕ). ok (n, tt)) code_is in
    (size, rw (magic_is, flags_read, clear, code_read, hash_of_code-hash_code h.hash_algo))
