-- ===== src/Msl/Iterator/Total.antt =====
-- The iterator on any file at all: how it ends, and where its records lie.
use memslicer.Prelude.{
  ℕ, zero, suc, ◌+◌, ◌-◌, ◌<◌, ◌≤◌, ◌≡◌, refl, ap, ◌∙◌, Bool, true, false, Option, none, some, [],
  ◌∷◌, length, take, drop, Result, ok, err, arith, >>=-eq-ok, ==_iff, ◌==◌, leb, leb→le, require,
  require-eq-ok, length-take, length-drop, bit_and, if◌then◌else◌, value_error, truncated_payload,
  not_implemented, bad_block_magic, short_block_length, truncated_block_header,
}
use mathlib.Core.Path.{subst}
use memslicer.Bytes.{Bytes, Tuple, decode, bytes_eq}
use memslicer.Msl.Constants.{
  block_magic, block_header_size, continuation, block_code, end_of_capture, HashAlgo,
}
use memslicer.Msl.Host.{Host}
use memslicer.Msl.Writer.{block_header_format}
use memslicer.Msl.Iterator.{
  BlockRecord, Walk, done, fail, yield, stuck, read_payload, read_block, next_block, walk,
  iterate_blocks, read_hash_algo,
}

-- The records lie one behind the other from `start` on, each of 80 bytes at least and inside the
-- first `limit` bytes, and the generator ends or raises.
abbrev pub IsOrderly : ℕ → ℕ → Walk → Type 0
IsOrderly start limit done = Unit {0}
IsOrderly start limit (fail e) = Unit {0}
IsOrderly start limit stuck = ⊥
IsOrderly start limit (yield r more) =
    (r.start_offset ≡ start)
    × (start + 80 ≤ r.end_offset)
    × (r.end_offset ≤ limit)
    × IsOrderly r.end_offset limit more

ok-injective {ℓ} : {A : Type ℓ} {a b : A} → ok a ≡ ok b → a ≡ b
ok-injective p = cc p

some-injective {ℓ} : {A : Type ℓ} {a b : A} → some a ≡ some b → a ≡ b
some-injective p = cc p

module _ (host : Host) where
  -- A record, and the bytes behind its block, account for the bytes before.
  abbrev Accounts : ℕ → ℕ → BlockRecord × Bytes → Type 0
  Accounts start size out =
      (out.0.start_offset ≡ start)
      × (start + 80 ≤ out.0.end_offset)
      × ((80 + size) + start ≡ length out.1 + out.0.end_offset)

  read_block-Accounts :
      (start : ℕ) (rest : Bytes) (t : Tuple block_header_format) (out : BlockRecord × Bytes)
      → read_block host start rest t ≡ ok out
      → Accounts start (length rest) out
  unfolding read_block
  read_block-Accounts start rest
        (magic, (code, (flags, (size, (version, (reserved, (uuid, (parent, (prev, u))))))))) out h =
      let (a, _, h1) =
        >>=-eq-ok (require (bytes_eq magic block_magic) (value_error bad_block_magic)) _ h in
      let (b, _, h2) = >>=-eq-ok (require (bit_and flags continuation == 0) not_implemented) _ h1 in
      let (c, long, h3) =
        >>=-eq-ok (require (leb block_header_size size) (value_error short_block_length)) _ h2 in
      let disk : Bytes = take (size - block_header_size) rest in
      let (e, full, h4) =
        >>=-eq-ok
          (require (length disk == size - block_header_size) (value_error truncated_payload)) _
          h3 in
      let (p, _, h5) = >>=-eq-ok (read_payload host flags disk) _ h4 in
      let drawn : length disk ≡ size - 80 =
        (==_iff (length disk) (size - 80)).0 (require-eq-ok _ _ full) in
      subst (Accounts start (length rest)) (ok-injective h5) (
        refl,
        omega (arith, leb→le _ _ (require-eq-ok _ _ long)),
        omega (
          arith,
          leb→le _ _ (require-eq-ok _ _ long),
          drawn,
          length-take (size - 80) rest,
          length-drop (size - 80) rest,
        ),
      )

  next_block-Accounts :
      (start : ℕ) (file : Bytes) (out : BlockRecord × Bytes)
      → next_block host start file ≡ ok (some out)
      → (80 ≤ length file) × Accounts start (length file - 80) out
  unfolding next_block
  next_block-Accounts start [] out h = cc
  next_block-Accounts start (x ∷ file) out h =
      let whole : Bytes = x ∷ file in
      let (a, full, h1) =
        >>=-eq-ok
          (require (length (take block_header_size whole) == block_header_size)
            (value_error truncated_block_header))
          _ h in
      let (r, read, h2) =
        >>=-eq-ok
          (read_block host start (drop 80 whole) (decode block_header_format (take 80 whole))) _
          h1 in
      let took : length (take 80 whole) ≡ 80 =
        (==_iff (length (take 80 whole)) 80).0 (require-eq-ok _ _ full) in
      let same : r ≡ out = some-injective (ok-injective h2) in
      (
        omega (arith, took, length-take 80 whole),
        subst (λ n. Accounts start n out) (length-drop 80 whole)
            (read_block-Accounts start (drop 80 whole) (decode block_header_format (take 80 whole))
              out (read ∙ ap ok same)),
      )

  -- What a round does with a record.
  pub walk-next :
      (fuel start : ℕ) (file : Bytes) (r : BlockRecord) (behind : Bytes)
      → next_block host start file ≡ ok (some (r, behind))
      → walk host (suc fuel) start file
        ≡ yield r (
            if r.block_type == block_code end_of_capture
            then done
            else walk host fuel r.end_offset behind)
  unfolding walk block_code
  walk-next fuel start file r behind e = rw (e, walk) refl

  yield-IsOrderly :
      (start limit : ℕ) (r : BlockRecord) (last : Bool) (more : Walk)
      → r.start_offset ≡ start
      → start + 80 ≤ r.end_offset
      → r.end_offset ≤ limit
      → IsOrderly r.end_offset limit more
      → IsOrderly start limit (yield r (if last then done else more))
  yield-IsOrderly start limit r true more s long inside m = (s, long, inside, tt)
  yield-IsOrderly start limit r false more s long inside m = (s, long, inside, m)

  round-IsOrderly :
      (fuel start limit : ℕ) (file : Bytes)
      → length file < suc fuel
      → length file ≡ limit - start
      → ((s : ℕ) (f : Bytes)
          → length f < fuel
          → length f ≡ limit - s
          → IsOrderly s limit (walk host fuel s f))
      → (r : Result (Option (BlockRecord × Bytes))) → next_block host start file ≡ r
      → IsOrderly start limit (walk host (suc fuel) start file)
  unfolding walk
  round-IsOrderly fuel start limit file h e ih (err x) n = rw (n, walk) tt
  round-IsOrderly fuel start limit file h e ih (ok none) n = rw (n, walk) tt
  round-IsOrderly fuel start limit file h e ih (ok (some (r, behind))) n =
      let (long, (s, grows, accounts)) = next_block-Accounts start file (r, behind) n in
      rw (walk-next fuel start file r behind n) (
        yield-IsOrderly start limit r (r.block_type == block_code end_of_capture)
          (walk host fuel r.end_offset behind) s grows (omega arith)
          (ih r.end_offset behind (omega arith) (omega arith)))

  -- One round either ends the walk or leaves fewer bytes.
  walk-IsOrderly :
      (fuel start limit : ℕ) (file : Bytes)
      → length file < fuel
      → length file ≡ limit - start
      → IsOrderly start limit (walk host fuel start file)
  walk-IsOrderly zero start limit file h e = absurd (omega arith)
  walk-IsOrderly (suc fuel) start limit file h e =
      round-IsOrderly fuel start limit file h e (λ s f hf ef. walk-IsOrderly fuel s limit f hf ef)
        (next_block host start file) refl

  open-IsOrderly :
      (file : Bytes) (r : Result HashAlgo)
      → read_hash_algo file ≡ r
      → IsOrderly 64 (length file) (iterate_blocks host file)
  unfolding iterate_blocks
  open-IsOrderly file (err x) e = rw (e, iterate_blocks) tt
  open-IsOrderly file (ok algo) e =
      rw (e, iterate_blocks)
        (walk-IsOrderly (suc (length file)) 64 (length file) (drop 64 file)
          (omega (arith, length-drop 64 file)) (length-drop 64 file))

  -- On any file, whatever its bytes, the generator ends or raises; its records lie one behind the
  -- other from offset 64 on, each of 80 bytes at least, and inside the file.
  pub iterate_blocks-IsOrderly :
      (file : Bytes) → IsOrderly 64 (length file) (iterate_blocks host file)
  iterate_blocks-IsOrderly file = open-IsOrderly file (read_hash_algo file) refl
