-- ===== src/Msl/Tests/Runs.antt =====
-- The format's theorems at concrete inputs.
use memslicer.Prelude.{
  ◌≡◌, ◌++◌, refl, inl, inr, none, some, List, [], ◌∷◌, ok, All, arith, length, replicate,
}
use memslicer.Bytes.{Bytes, encode, to_le, pack, in_range, zeros}
use memslicer.Utils.{pad_bytes, pad8}
use memslicer.Msl.Constants.{sha256, zstd, lz4, key_hint, comp_of_code}
use memslicer.Msl.Constants.{captured, failed, unmapped, page_code}
use memslicer.Msl.Payload.{encode_page_state_map}
use memslicer.Msl.Payload.Pages.{page_state, page_state-encode_page_state_map}
use memslicer.Msl.Compression.{compress, decompress}
use memslicer.Msl.Compression.Laws.{decompress-compress}
use memslicer.Msl.Encryption.{pack_encryption_extension, unpack_encryption_extension}
use memslicer.Msl.Encryption.Header.{unpack-pack_encryption_extension}
use memslicer.Msl.Encryption.Stream.{encrypt_stream, Sealed, decrypt-encrypt_stream}
use memslicer.Msl.Host.{gcm_limit}
use memslicer.Prelude.{◌≤◌, ◌<◌, ◌⊎◌, err, overflow_error}
use memslicer.Msl.Writer.{
  Writer, base_header, new_writer, on_disk_payload, write_block, identify, parent_or_zeros,
}
use memslicer.Msl.Writer.Methods.{finalize}
use memslicer.Msl.Iterator.{done, yield, iterate_blocks, read_payload, read_hash_algo}
use memslicer.Msl.Iterator.Total.{IsOrderly, iterate_blocks-IsOrderly}
use memslicer.Msl.Slice.{Block, IsSlice, IsLinked, file_bytes}
use memslicer.Msl.Slice.Stored.{read_payload-on_disk}
use memslicer.Msl.Slice.Session.{IsMiddle, Extends, Outcome, write_block-Outcome}
use memslicer.Msl.Slice.Ops.{Call, run_all, run_all-Extends}
use memslicer.Msl.Slice.Opening.{read_hash_algo-base_header}
use memslicer.Msl.Slice.Ending.{IsEnd, finalize-IsSlice, plain_block_of, write_block-plain}
use memslicer.Msl.Slice.Read.{record_of, end_of, yields}
use memslicer.Msl.Slice.RoundTrip.{iterate_blocks-session}
use memslicer.Msl.Tests.{
  plain_host, plain_host-HasSizes, plain_host-DecompressesAll, plain_host-Authenticates,
  linux_header, linux_bytes, linux_writer, linux_writer-IsSlice, tls_hint, argon_params,
  argon_params-IsStorable,
}

abbrev two_hints : List Call
two_hints = Call.key_hint tls_hint ∷ Call.key_hint tls_hint ∷ []

iterate_blocks-session_example :
    (header : Bytes) × (bs : List Block) × (b : Block) × (w2 : Writer) × (finalize plain_host
        (run_all plain_host two_hints linux_writer)
      ≡ (ok tt, w2))
    × (w2.output ≡ file_bytes header (b ∷ bs))
    × (iterate_blocks plain_host w2.output ≡ yields 64 bs (yield (record_of (end_of 64 bs) b) done))
    × IsLinked plain_host sha256 header (b ∷ bs)
    × All IsMiddle bs
    × IsEnd plain_host sha256 header bs b
unfolding new_writer pack in_range
iterate_blocks-session_example =
    iterate_blocks-session plain_host plain_host-HasSizes plain_host-DecompressesAll linux_header
      zstd two_hints linux_writer refl refl

write_block-Outcome_example :
    Outcome plain_host plain_host-HasSizes plain_host-DecompressesAll sha256 linux_bytes key_hint
      (1 ∷ 2 ∷ [])
      3
      (replicate 16 0)
      (replicate 16 0)
      []
      (write_block plain_host key_hint (1 ∷ 2 ∷ []) 3 none none linux_writer)
unfolding identify parent_or_zeros zeros
write_block-Outcome_example =
    write_block-Outcome plain_host plain_host-HasSizes plain_host-DecompressesAll sha256 linux_bytes
      key_hint (1 ∷ 2 ∷ []) 3 none none [] linux_writer linux_writer-IsSlice (inr (inr (inl refl)))

run_all-Extends_example :
    Extends plain_host sha256 linux_bytes [] (run_all plain_host two_hints linux_writer)
run_all-Extends_example =
    run_all-Extends plain_host plain_host-HasSizes plain_host-DecompressesAll sha256 linux_bytes
      two_hints [] linux_writer linux_writer-IsSlice

iterate_blocks-IsOrderly_example :
    IsOrderly 64
      (length (linux_bytes ++ replicate 81 5))
      (iterate_blocks plain_host (linux_bytes ++ replicate 81 5))
iterate_blocks-IsOrderly_example =
    iterate_blocks-IsOrderly plain_host (linux_bytes ++ replicate 81 5)

finalize-IsSlice_example :
    (b : Block) × (w2 : Writer) × (finalize plain_host linux_writer ≡ (ok tt, w2))
    × IsSlice plain_host sha256 linux_bytes (b ∷ []) w2
    × IsEnd plain_host sha256 linux_bytes [] b
finalize-IsSlice_example =
    finalize-IsSlice plain_host plain_host-HasSizes plain_host-DecompressesAll sha256 linux_bytes []
      linux_writer linux_writer-IsSlice

read_hash_algo-base_header_example :
    (length linux_bytes ≡ 64) × (read_hash_algo (linux_bytes ++ (1 ∷ [])) ≡ ok sha256)
unfolding base_header pack in_range
read_hash_algo-base_header_example =
    read_hash_algo-base_header linux_header linux_bytes (1 ∷ []) refl refl

read_payload-on_disk_example :
    read_payload plain_host 5 (
      8 ∷ 0 ∷ 0 ∷ 0 ∷ 0 ∷ 0 ∷ 0 ∷ 0 ∷ 1 ∷ 7 ∷ 1 ∷ 0 ∷ 1 ∷ 0 ∷ 1 ∷ 0 ∷ 1 ∷ 0 ∷ 1 ∷ 0 ∷ 1 ∷ 0 ∷ 1 ∷ 0
      ∷ 0 ∷ 0 ∷ 0 ∷ 0 ∷ 0 ∷ 0 ∷ 0 ∷ 0 ∷ [])
    ≡ ok (7 ∷ 0 ∷ 0 ∷ 0 ∷ 0 ∷ 0 ∷ 0 ∷ 0 ∷ [])
unfolding on_disk_payload pad_bytes comp_of_code pack in_range encode to_le compress
read_payload-on_disk_example =
    read_payload-on_disk plain_host plain_host-DecompressesAll (7 ∷ []) _ 5 (inr (inr (inr refl)))
      refl

decompress-compress_example :
    decompress plain_host (compress plain_host (1 ∷ 2 ∷ []) lz4 ++ replicate 3 0) lz4 (some 2)
    ≡ ok (1 ∷ 2 ∷ [])
decompress-compress_example =
    decompress-compress plain_host plain_host-DecompressesAll (1 ∷ 2 ∷ []) 3 lz4 (λ p. cc)
      (omega arith)

decrypt-encrypt_stream_example :
    ((3 ≤ gcm_limit)
      × (length linux_bytes ≤ gcm_limit)
      × Sealed plain_host
          (replicate 32 1)
          (replicate 12 2)
          linux_bytes
          ((1 ∷ 2 ∷ []) ∷ (3 ∷ []) ∷ []))
    ⊎ (((gcm_limit < 3) ⊎ (gcm_limit < length linux_bytes))
        × (encrypt_stream plain_host
              (replicate 32 1)
              (replicate 12 2)
              linux_bytes
              ((1 ∷ 2 ∷ []) ∷ (3 ∷ []) ∷ [])
            ≡ err overflow_error))
decrypt-encrypt_stream_example =
    decrypt-encrypt_stream plain_host (replicate 32 1) (replicate 12 2) linux_bytes
      ((1 ∷ 2 ∷ []) ∷ (3 ∷ []) ∷ []) plain_host-Authenticates refl refl

unpack-pack_encryption_extension_example :
    (raw : Bytes) × (pack_encryption_extension argon_params ≡ ok raw)
    × (length raw ≡ 64)
    × (unpack_encryption_extension raw ≡ ok argon_params)
unpack-pack_encryption_extension_example =
    unpack-pack_encryption_extension argon_params argon_params-IsStorable

write_block-plain_example :
    ((write_block plain_host key_hint (1 ∷ 2 ∷ []) 0 none none linux_writer).0
      ≡ ok (replicate 16 0))
    × IsSlice plain_host sha256 linux_bytes
        (plain_block_of plain_host plain_host-HasSizes plain_host-DecompressesAll sha256 linux_bytes
            key_hint
            (1 ∷ 2 ∷ [])
            (parent_or_zeros none)
            (replicate 16 0)
            []
          ∷ [])
        (write_block plain_host key_hint (1 ∷ 2 ∷ []) 0 none none linux_writer).1
write_block-plain_example =
    write_block-plain plain_host plain_host-HasSizes plain_host-DecompressesAll sha256 linux_bytes
      key_hint (1 ∷ 2 ∷ []) none [] linux_writer linux_writer-IsSlice
      (unfold pad_bytes in unfold pad8 in omega arith)

page_state-encode_page_state_map_example :
    page_state
      (encode_page_state_map (captured ∷ captured ∷ failed ∷ captured ∷ unmapped ∷ failed ∷ []))
      4
    ≡ ok 2
unfolding page_code
page_state-encode_page_state_map_example =
    page_state-encode_page_state_map
      (captured ∷ captured ∷ failed ∷ captured ∷ unmapped ∷ failed ∷ []) 4 unmapped refl
