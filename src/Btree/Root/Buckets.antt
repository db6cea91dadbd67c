-- ===== src/Btree/Root/Buckets.antt =====
-- The capacity of the buckets where the tree may not split.
use hexmagnet.Prelude.{
  ℕ, ◌≤◌, ◌<◌, ◌≡◌, sym, ap, ◌∙◌, true, false, some, arith, ltb, Bool-cases, inl, inr, some_pair,
}
use hexmagnet.Btree.Bits.{NodeId, PutResult, leading_zeros}
use hexmagnet.Btree.Bits.Index.{bit_list, bits_lem}
use hexmagnet.Btree.Bits.Masks.{IsId}
use hexmagnet.Btree.Root.{RootNode, put, has_room}
use hexmagnet.Btree.Root.Invariant.{distance, in_bucket, IsRoot, tally_bucket}
use hexmagnet.Btree.Root.Put.{PutOutcome, own, present, full, added, put_lem}

-- Without splitting, room means room in the identifier's own bucket.
room_in_bucket :
    (t : RootNode) (xor : NodeId)
    → t.splitting_enabled ≡ false
    → has_room t xor ≡ some true
    → t.bucket_counts (leading_zeros (bit_list xor)) < t.k
unfolding has_room
room_in_bucket t xor off e =
    elim (Bool-cases (ltb (t.bucket_counts (leading_zeros (bit_list xor))) t.k)) [
      | inl room ↦ ground arith
      | inr crowded ↦ absurd (clash (sym e ∙ rw (bits_lem xor, crowded, off)))
    ]
  where
    clash : some true ≡ some false → ⊥
    clash p = cc

-- Where splitting is off and no bucket is past the capacity, no bucket is past it after a put of
-- an identifier of the root's width, whatever the put's result.
pub put_capacity :
    (w : ℕ) (t t' : RootNode) (id : NodeId) (r : PutResult)
    → IsRoot w t
    → IsId w id
    → t.splitting_enabled ≡ false
    → ((bucket : ℕ) → t.bucket_counts bucket ≤ t.k)
    → put t id ≡ some (t', r)
    → (bucket : ℕ) → t'.bucket_counts bucket ≤ t'.k
put_capacity w t t' id r h x off fit e bucket =
    let d = put_lem w t id h x in
    let (same, result) = some_pair t' d.root r d.result e d.returns in
    go d.root d.is_root same d.outcome
  where
    unchanged : (m : RootNode) → t' ≡ m → m ≡ t → t'.bucket_counts bucket ≤ t'.k
    unchanged m p q = rw (p ∙ q) (fit bucket)

    go :
        (m : RootNode) {r : PutResult}
        → IsRoot w m
        → t' ≡ m
        → PutOutcome t id m r
        → t'.bucket_counts bucket ≤ t'.k
    go m k same (own _ _ q) = unchanged m same q
    go m k same (present _ _ q) = unchanged m same q
    go m k same (full _ _ _ q) = unchanged m same q
    go m k same (added _ room _ _ capacity adds) = rw same (
        ground (
          arith,
          capacity,
          fit bucket,
          room_in_bucket t (distance t id) off room,
          h.buckets bucket,
          k.buckets bucket,
          adds (in_bucket bucket),
          tally_bucket (distance t id) bucket,
          ap (t.bucket_counts) {x = leading_zeros (bit_list (distance t id))} {y = bucket},
        ))
