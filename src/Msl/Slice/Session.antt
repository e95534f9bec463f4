-- ===== src/Msl/Slice/Session.antt =====
-- `_write_block` and the module list on an unencrypted writer, with their exceptions.
use memslicer.Prelude.{
  ℕ, ◌≡◌, refl, sym, inl, inr, Bool, true, false, Option, none, some, List, [], ◌∷◌, ◌++◌, Result,
  Result-cases, ok, err, Exn, ◌⊎◌, All, ◌==◌, append_assoc,
}
use memslicer.Bytes.{Bytes}
use memslicer.Msl.Constants.{
  BlockType, block_code, end_of_capture, HashAlgo, has_children, module_entry, module_list_index,
}
use memslicer.Msl.Types.{ModuleEntry}
use memslicer.Msl.Host.{Host, HasSizes, DecompressesAll}
use memslicer.Msl.Payload.Core.{module_entry_payload, module_list_payload}
use memslicer.Msl.Writer.{Writer, parent_or_zeros, identify, write_identified, write_block}
use memslicer.Msl.Writer.Methods.{
  with_payload, warn_unless, write_module_entry, draw_for, write_children, write_module_list,
}
use memslicer.Msl.Slice.{Block, IsWriterFlags, IsSlice}
use memslicer.Msl.Slice.Write.{block_of, write_identified-IsSlice}
use mathlib.Core.Path.{subst}

abbrev pub IsMiddle : Block → Type 0
IsMiddle b = (b.code == block_code end_of_capture) ≡ false

abbrev pub IsMiddleType : BlockType → Type 0
IsMiddleType t = (block_code t == block_code end_of_capture) ≡ false

All-append {ℓ κ} :
    {A : Type ℓ} (P : A → Type κ) (xs ys : List A) → All P xs → All P ys → All P (xs ++ ys)
All-append P [] ys hx hy = hy
All-append P (x ∷ xs) ys (h, hx) hy = (h, All-append P xs ys hx hy)

module _ (host : Host) (algo : HashAlgo) (header : Bytes) where
  -- The counters of identifiers and warnings are no part of the file.
  pub IsSlice-counters :
      (bs : List Block) (w : Writer) (drawn warned : ℕ)
      → IsSlice host algo header bs w
      → IsSlice host algo header bs (record w { drawn = drawn; warned = warned })
  IsSlice-counters bs w drawn warned s = record {
    output = s.output;
    index = s.index;
    plain = s.plain;
    clear = s.clear;
    chain_algo = s.chain_algo;
    file_algo = s.file_algo;
    hashed = s.hashed;
    prev = s.prev;
    comp_flags = s.comp_flags;
    supported = s.supported;
    blocks_are = s.blocks_are;
    linked = s.linked;
  }

  -- The writer's blocks are `bs` with others on top, none of which ends the capture.
  abbrev pub Extends : List Block → Writer → Type 0
  Extends bs w = (more : List Block) × IsSlice host algo header (more ++ bs) w × All IsMiddle more

  pub Extends-trans :
      (bs more : List Block) (w : Writer)
      → All IsMiddle more
      → Extends (more ++ bs) w
      → Extends bs w
  Extends-trans bs more w hm (extra, s, he) = (
    extra ++ more,
    subst (λ l. IsSlice host algo header l w) (sym (append_assoc extra more bs)) s,
    All-append IsMiddle extra more he hm,
  )

module _ (host : Host) (sizes : HasSizes host) (d : DecompressesAll host) (algo : HashAlgo)
    (header : Bytes) where
  -- How a call of `_write_block` ends: with the identifier and one block more, of the given type,
  -- flags, parent and identifier, over the given payload, or with an exception and no block.
  abbrev pub Outcome :
      BlockType → Bytes → ℕ → Bytes → Bytes → List Block → Result Bytes × Writer → Type 0
  Outcome type payload flags parent uuid bs out =
      ((disk : Bytes) × (out.0 ≡ ok uuid)
        × IsSlice host algo header
            (block_of host sizes algo header type payload flags parent uuid bs disk ∷ bs) out.1)
      ⊎ ((e : Exn) × (out.0 ≡ err e) × IsSlice host algo header bs out.1)

  identified-Outcome :
      (type : BlockType) (payload : Bytes) (flags : ℕ) (parent uuid : Bytes) (bs : List Block)
      (w : Writer)
      → IsSlice host algo header bs w
      → IsWriterFlags flags
      → (r : Result Writer) → write_identified host type payload flags parent uuid w ≡ r
      → Outcome type payload flags parent uuid bs
          (elim r [ ok w2 ↦ (ok uuid, w2) | err e ↦ (err e, w) ])
  identified-Outcome type payload flags parent uuid bs w s f (ok w2) e =
      let (disk, s2) =
        write_identified-IsSlice host sizes algo header d type payload flags parent uuid bs w s f
          e in
      inl (disk, refl, s2)
  identified-Outcome type payload flags parent uuid bs w s f (err x) e = inr (x, refl, s)

  -- On an unencrypted writer whose file is a header and linked blocks, and for flags that the writer
  -- gives: `_write_block` either answers the identifier and has added one linked block of the given
  -- type, flags, parent and identifier over the payload filled to eight bytes, or it raises and has
  -- added none.
  pub write_block-Outcome :
      (type : BlockType) (payload : Bytes) (flags : ℕ) (parent given : Option Bytes)
      (bs : List Block) (w : Writer)
      → IsSlice host algo header bs w
      → IsWriterFlags flags
      → Outcome type payload flags
          (parent_or_zeros parent)
          (identify host given w).0
          bs
          (write_block host type payload flags parent given w)
  unfolding write_block
  write_block-Outcome type payload flags parent none bs w s f =
      identified-Outcome type payload flags _ _ bs _ (IsSlice-counters host algo header bs w _ _ s)
        f _ refl
  write_block-Outcome type payload flags parent (some id) bs w s f =
      identified-Outcome type payload flags _ id bs w s f _ refl

  pub write_block-Extends :
      (type : BlockType) (payload : Bytes) (flags : ℕ) (parent given : Option Bytes)
      (bs : List Block) (w : Writer)
      → IsSlice host algo header bs w
      → IsWriterFlags flags
      → IsMiddleType type
      → Extends host algo header bs (write_block host type payload flags parent given w).1
  write_block-Extends type payload flags parent given bs w s f middle =
      elim (write_block-Outcome type payload flags parent given bs w s f) [
        | inl (disk, e, s2) ↦ (_ ∷ [], s2, (middle, tt))
        | inr (x, e, s2) ↦ ([], s2, tt)
      ]

  pub with_payload-Extends :
      (r : Result Bytes) (type : BlockType) (flags : ℕ) (parent given : Option Bytes)
      (bs : List Block) (w : Writer)
      → IsSlice host algo header bs w
      → IsWriterFlags flags
      → IsMiddleType type
      → Extends host algo header bs
          (with_payload r (λ p. write_block host type p flags parent given) w).1
  with_payload-Extends (ok p) type flags parent given bs w s f middle =
      write_block-Extends type p flags parent given bs w s f middle
  with_payload-Extends (err e) type flags parent given bs w s f middle = ([], s, tt)

  write_children-Extends :
      (index : Bytes) (entries : List (ModuleEntry × Bytes)) (bs : List Block) (w : Writer)
      → IsSlice host algo header bs w
      → Extends host algo header bs (write_children host index entries w).1
  unfolding write_children
  write_children-Extends index [] bs w s = ([], s, tt)
  write_children-Extends index ((m, uuid) ∷ rest) bs w s =
      let out : Result Bytes × Writer = write_module_entry host m index uuid w in
      let (more, s2, middle) =
        with_payload-Extends (module_entry_payload m) module_entry 0 (some index) (some uuid) bs w s
          (inl refl) (unfold block_code in refl) in
      elim (Result-cases out.0) [
        | inl (id, e) ↦
            rw (e, write_children)
              (Extends-trans host algo header bs more _ middle
                (write_children-Extends index rest (more ++ bs) out.1 s2))
        | inr (x, e) ↦ rw (e, write_children) (more, s2, middle)
      ]

  draw_for-IsSlice :
      (ms : List ModuleEntry) (bs : List Block) (w : Writer)
      → IsSlice host algo header bs w
      → IsSlice host algo header bs (draw_for host ms w).1
  unfolding draw_for
  draw_for-IsSlice [] bs w s = s
  draw_for-IsSlice (m ∷ ms) bs w s =
      draw_for-IsSlice ms bs _ (IsSlice-counters host algo header bs w _ _ s)

  pub warned-IsSlice :
      (b : Bool) (bs : List Block) (w : Writer)
      → IsSlice host algo header bs w
      → IsSlice host algo header bs (warn_unless b w)
  warned-IsSlice true bs w s = s
  warned-IsSlice false bs w s = IsSlice-counters host algo header bs w _ _ s

  pub write_module_list-Extends :
      (ms : List ModuleEntry) (bs : List Block) (w : Writer)
      → IsSlice host algo header bs w
      → Extends host algo header bs (write_module_list host ms w).1
  unfolding write_module_list
  write_module_list-Extends ms bs w s =
      let w0 : Writer = warn_unless (w.block_index == 1) w in
      let drawn : List (ModuleEntry × Bytes) × Writer = draw_for host ms w0 in
      let s1 = draw_for-IsSlice ms bs w0 (warned-IsSlice (w.block_index == 1) bs w s) in
      let out : Result Bytes × Writer =
        with_payload (module_list_payload drawn.0)
          (λ p. write_block host module_list_index p has_children none none) drawn.1 in
      let (more, s2, middle) =
        with_payload-Extends (module_list_payload drawn.0) module_list_index has_children none none
          bs drawn.1 s1 (inr (inl refl)) (unfold block_code in refl) in
      elim (Result-cases out.0) [
        | inl (index, e) ↦
            rw (e, write_module_list)
              (Extends-trans host algo header bs more _ middle
                (write_children-Extends index drawn.0 (more ++ bs) out.1 s2))
        | inr (x, e) ↦ rw (e, write_module_list) (more, s2, middle)
      ]
