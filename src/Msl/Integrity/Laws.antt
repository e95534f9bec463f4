-- ===== src/Msl/Integrity/Laws.antt =====
-- The two ways to feed a block to the chain.
use memslicer.Prelude.{◌≡◌, sym, ◌∙◌, List, [], ◌∷◌, ◌++◌, append_assoc, append-nil, concat}
use memslicer.Bytes.{Bytes}
use memslicer.Msl.Host.{Host}
use memslicer.Msl.Integrity.{Hasher, Chain, update, feed_block, feed_parts, feed_block_parts}

update-append : (h : Hasher) (a b : Bytes) → update (update h a) b ≡ update h (a ++ b)
unfolding update
update-append h a b = λ i. record h { fed = append_assoc h.fed a b i }

update-nil : (h : Hasher) → update h [] ≡ h
unfolding update
update-nil h = λ i. record h { fed = append-nil h.fed i }

pub feed_parts-concat :
    (host : Host) (parts : List Bytes) (all own : Hasher)
    → feed_parts host parts all own ≡ (update all (concat parts), update own (concat parts))
unfolding feed_parts
feed_parts-concat host [] all own = λ i. (sym (update-nil all) i, sym (update-nil own) i)
feed_parts-concat host (p ∷ ps) all own =
    feed_parts-concat host ps (update all p) (update own p)
    ∙ (λ i. (update-append all p (concat ps) i, update-append own p (concat ps) i))

-- Feeding a block in parts gives what feeding the concatenated block gives, the chain or the
-- exception.
pub feed_block_parts-eq-feed_block :
    (host : Host) (c : Chain) (parts : List Bytes)
    → feed_block_parts host c parts ≡ feed_block host c (concat parts)
unfolding feed_block feed_block_parts
feed_block_parts-eq-feed_block host c parts = simp feed_parts-concat
