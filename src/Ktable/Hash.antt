-- ===== src/Ktable/Hash.antt =====
-- internal/protocol/dht/ktable/hash.go: a hash with the peers that have it.
pub mod Bound
use Prim.Native.String.{String}
use hexmagnet.Prelude.{
  ℕ, zero, suc, ◌-◌, Bool, true, false, Option, none, some, List, [], ◌∷◌, length, insert, delete,
  map, string_eq,
}
use hexmagnet.Btree.Bits.{NodeId}
use hexmagnet.Ktable.Base.{AddrPort}
use hexmagnet.Ktable.ReverseMap.{ReverseMap, put_addr_hashes, drop_hash_for_addrs}

pub record HashPeer : Type 0 where
  pub addr : AddrPort

abbrev pub Peers : Type 0
Peers = List (String × HashPeer)

abbrev pub max_peers_per_hash : ℕ
max_peers_per_hash = 30

pub record Hash : Type 0 where
  pub id : NodeId
  pub peers : Peers
  pub discovered_at : ℕ
  pub dropped_reason : Option String

-- The loop of the factory and of `update`: each peer under its address.
unfoldable pub put_peers : NodeId → List HashPeer → Peers × ReverseMap → Peers × ReverseMap
put_peers id [] (peers, m) = (peers, m)
put_peers id (p ∷ ps) (peers, m) =
    put_peers id ps (insert p.addr.addr p peers, put_addr_hashes m p.addr.addr (id ∷ []))

-- The factory of the table's hashes.
unfoldable pub new_hash : ℕ → NodeId → List HashPeer → ReverseMap → Hash × ReverseMap
unfolding put_peers
new_hash now id ps m =
    let (peers, m') = put_peers id ps ([], m) in
    (record { id = id; peers = peers; discovered_at = now; dropped_reason = none }, m')

-- The loop that drops the excess, over the entries in the order of the iteration.
unfoldable pub drop_excess : NodeId → ℕ → Peers → Peers × ReverseMap → Peers × ReverseMap
drop_excess id zero order state = state
drop_excess id (suc excess) [] state = state
drop_excess id (suc excess) ((k, p) ∷ order) (peers, m) =
    drop_excess id excess order (delete k peers, drop_hash_for_addrs m id (p.addr.addr ∷ []))

-- `visit` is the order in which Go iterates over a map.
unfoldable pub update : (Peers → Peers) → Hash → List HashPeer → ReverseMap → Hash × ReverseMap
unfolding put_peers drop_excess
update visit h ps m =
    let (peers, m') = put_peers h.id ps (h.peers, m) in
    let (peers', m'') =
      drop_excess h.id (length peers - max_peers_per_hash) (visit peers) (peers, m') in
    (record h { peers = peers' }, m'')

-- `Peers`, in the order of the iteration.
unfoldable pub peers_of : (Peers → Peers) → Hash → List HashPeer
peers_of visit h = map (λ e. e.1) (visit h.peers)

unfoldable pub dropped : Hash → Bool
dropped h = elim h.dropped_reason [ none ↦ false | some reason ↦ true ]
