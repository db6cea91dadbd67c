-- ===== src/Ktable/Hash/Bound.antt =====
-- How many peers a hash keeps.
use hexmagnet.Prelude.{
  ℕ, zero, suc, ◌+◌, ◌-◌, ◌≤◌, ◌≡◌, refl, sym, ap, ◌∙◌, none, some, List, [], ◌∷◌, arith, length,
  lookup, insert, delete, lookup-delete, lookup-insert, length-insert, beq_self, length-delete,
  insert-Distinct, delete-Distinct, Visits, Distinct, Bool-cases, inl, inr, str_eq, string_eq,
}
use Prim.Native.String.{String}
use hexmagnet.Btree.Bits.{NodeId}
use hexmagnet.Ktable.ReverseMap.{ReverseMap, put_addr_hashes, drop_hash_for_addrs}
use hexmagnet.Ktable.Hash.{
  Hash, HashPeer, Peers, max_peers_per_hash, put_peers, new_hash, drop_excess, update,
}

-- The keys of `order` are in `peers`.
abbrev Covers : Peers → Peers → Type 0
Covers order peers =
    (k : String) (p : HashPeer)
    → lookup k order ≡ some p
    → (p' : HashPeer) × (lookup k peers ≡ some p')

-- Deleting the first key of the order leaves the later ones.
Covers-delete :
    (k : String) (p : HashPeer) (order peers : Peers)
    → lookup k order ≡ none
    → Covers ((k, p) ∷ order) peers
    → Covers order (delete k peers)
unfolding lookup
Covers-delete k p order peers fresh h j q e = elim (Bool-cases (str_eq k j)) [
  | inl same ↦
      absurd (
        clash
          (sym fresh ∙ ap (λ (a : String). lookup a order) ((string_eq.beq_iff k j).0 same) ∙ e))
  | inr differ ↦ let (p', f) = h j q (rw differ e) in (p', lookup-delete k j peers ∙ rw differ f)
]
  where
    clash : none ≡ some q → ⊥
    clash c = cc

-- Each deletion takes one entry away.
length-drop_excess :
    (id : NodeId) (excess : ℕ) (order peers : Peers) (m : ReverseMap)
    → Distinct order
    → Covers order peers
    → excess ≤ length order
    → length (drop_excess id excess order (peers, m)).0 + excess ≤ length peers
unfolding drop_excess
length-drop_excess id zero order peers m d h l = omega arith
length-drop_excess id (suc excess) [] peers m d h l = absurd (omega arith)
length-drop_excess id (suc excess) ((k, p) ∷ order) peers m d h l =
    let (p', found) = h k p (unfold lookup in rw (beq_self k)) in
    let ih =
      length-drop_excess id excess order (delete k peers)
        (drop_hash_for_addrs m id (p.addr.addr ∷ [])) d.1 (Covers-delete k p order peers d.0 h)
        (omega arith) in
    omega (arith, ih, length-delete k p' peers found)

Distinct-put_peers :
    (id : NodeId) (ps : List HashPeer) (peers : Peers) (m : ReverseMap)
    → Distinct peers
    → Distinct (put_peers id ps (peers, m)).0
unfolding put_peers
Distinct-put_peers id [] peers m d = d
Distinct-put_peers id (p ∷ ps) peers m d =
    Distinct-put_peers id ps (insert p.addr.addr p peers) (put_addr_hashes m p.addr.addr (id ∷ []))
      (insert-Distinct p.addr.addr p peers d)

Distinct-drop_excess :
    (id : NodeId) (excess : ℕ) (order peers : Peers) (m : ReverseMap)
    → Distinct peers
    → Distinct (drop_excess id excess order (peers, m)).0
unfolding drop_excess
Distinct-drop_excess id zero order peers m d = d
Distinct-drop_excess id (suc excess) [] peers m d = d
Distinct-drop_excess id (suc excess) ((k, p) ∷ order) peers m d =
    Distinct-drop_excess id excess order (delete k peers)
      (drop_hash_for_addrs m id (p.addr.addr ∷ [])) (delete-Distinct k peers d)

-- If Go visits each entry of a map once and the hash has one entry for an address, then after an
-- update it still has one entry for an address, and at most thirty peers.
pub update-le :
    (visit : Peers → Peers) (h : Hash) (ps : List HashPeer) (m : ReverseMap)
    → ((peers : Peers) → Distinct peers → Visits (visit peers) peers)
    → Distinct h.peers
    → Distinct (update visit h ps m).0.peers
      × (length (update visit h ps m).0.peers ≤ max_peers_per_hash)
unfolding update
update-le visit h ps m visits d =
    let state = put_peers h.id ps (h.peers, m) in
    let put_distinct = Distinct-put_peers h.id ps h.peers m d in
    let v = visits state.0 put_distinct in
    let excess : ℕ = length state.0 - max_peers_per_hash in
    (
      Distinct-drop_excess h.id excess (visit state.0) state.0 state.1 put_distinct,
      omega (
        arith,
        length-drop_excess h.id excess (visit state.0) state.0 state.1 v.distinct
            (λ k p e. (p, sym (v.same k) ∙ e)) (omega (arith, v.number)),
      ),
    )

-- Peers by the text of their address.
abbrev pub entries : List HashPeer → Peers
entries [] = []
entries (p ∷ ps) = (p.addr.addr, p) ∷ entries ps

-- None of these addresses is in `peers`.
abbrev Fresh : List HashPeer → Peers → Type 0
Fresh ps peers =
    (k : String) (p : HashPeer) → lookup k (entries ps) ≡ some p → lookup k peers ≡ none

Fresh-insert :
    (p : HashPeer) (ps : List HashPeer) (peers : Peers)
    → lookup p.addr.addr (entries ps) ≡ none
    → Fresh (p ∷ ps) peers
    → Fresh ps (insert p.addr.addr p peers)
unfolding lookup
Fresh-insert p ps peers new h j q e = elim (Bool-cases (str_eq p.addr.addr j)) [
  | inl same ↦ absurd (
      clash
        (sym new ∙ ap (λ (a : String). lookup a (entries ps)) ((string_eq.beq_iff _ j).0 same) ∙ e))
  | inr differ ↦ lookup-insert p.addr.addr j p peers ∙ rw differ (h j q (rw differ e))
]
  where
    clash : none ≡ some q → ⊥
    clash c = cc

length-put_peers :
    (id : NodeId) (ps : List HashPeer) (peers : Peers) (m : ReverseMap)
    → Distinct (entries ps)
    → Fresh ps peers
    → length (put_peers id ps (peers, m)).0 ≡ length peers + length ps
unfolding put_peers
length-put_peers id [] peers m d h = omega arith
length-put_peers id (p ∷ ps) peers m d h = omega (
  arith,
  length-insert p.addr.addr p peers (h p.addr.addr p (unfold lookup in rw (beq_self p.addr.addr))),
  length-put_peers id ps (insert p.addr.addr p peers) (put_addr_hashes m p.addr.addr (id ∷ [])) d.1
      (Fresh-insert p ps peers d.0 h),
)

-- A hash that is made from peers with different addresses has as many peers as it was given,
-- whatever their number.
pub length-new_hash :
    (now : ℕ) (id : NodeId) (ps : List HashPeer) (m : ReverseMap)
    → Distinct (entries ps)
    → length (new_hash now id ps m).0.peers ≡ length ps
unfolding new_hash
length-new_hash now id ps m d =
    length-put_peers id ps [] m d (λ k p e. unfold lookup in refl) ∙ omega arith
