-- ===== src/Ktable/ReverseMap.antt =====
-- internal/protocol/dht/ktable/reverse_map.go: from an address to the node and the hashes at it.
use Prim.Native.String.{String}
use hexmagnet.Prelude.{
  Bool, true, false, ◌&&◌, ◌==◌, none, some, List, [], ◌∷◌, if◌then◌else◌, lookup, insert, delete,
  string_eq,
}
use hexmagnet.Btree.Bits.{NodeId}
use hexmagnet.Ktable.Base.{IdSet, id_eq}

pub record InfoForAddr : Type 0 where
  pub peer_id : NodeId
  pub hashes : IdSet

-- Keys are the texts of addresses.
abbrev pub ReverseMap : Type 0
ReverseMap = List (String × InfoForAddr)

unfoldable pub add_hashes : List NodeId → InfoForAddr → InfoForAddr
add_hashes [] i = i
add_hashes (h ∷ hashes) i = add_hashes hashes (record i { hashes = insert h tt i.hashes })

unfoldable pub drop_hashes : List NodeId → InfoForAddr → InfoForAddr
drop_hashes [] i = i
drop_hashes (h ∷ hashes) i = drop_hashes hashes (record i { hashes = delete h i.hashes })

unfoldable pub new_info_for_addr : NodeId → List NodeId → InfoForAddr
unfolding add_hashes
new_info_for_addr peer_id hashes = add_hashes hashes (record { peer_id = peer_id; hashes = [] })

unfoldable pub put_addr_peer_id : ReverseMap → String → NodeId → ReverseMap
unfolding new_info_for_addr
put_addr_peer_id m str id = elim (lookup str m) [
  | some info ↦ insert str (record info { peer_id = id }) m
  | none ↦ insert str (new_info_for_addr id []) m
]

-- `ID{}`, twenty zero bytes.
abbrev pub zero_id : NodeId
zero_id = 0 ∷ 0 ∷ 0 ∷ 0 ∷ 0 ∷ 0 ∷ 0 ∷ 0 ∷ 0 ∷ 0 ∷ 0 ∷ 0 ∷ 0 ∷ 0 ∷ 0 ∷ 0 ∷ 0 ∷ 0 ∷ 0 ∷ 0 ∷ []

-- `id == [20]byte{}`
unfoldable pub is_zero : NodeId → Bool
is_zero [] = true
is_zero (b ∷ id) = b == 0 && is_zero id

unfoldable pub put_addr_hashes : ReverseMap → String → List NodeId → ReverseMap
unfolding new_info_for_addr add_hashes
put_addr_hashes m str hashes = elim (lookup str m) [
  | some info ↦ insert str (add_hashes hashes info) m
  | none ↦ insert str (new_info_for_addr zero_id hashes) m
]

unfoldable pub drop_addr : ReverseMap → String → ReverseMap × Bool
drop_addr m str = elim (lookup str m) [ some info ↦ (delete str m, true) | none ↦ (m, false) ]

abbrev pub is_empty {ℓ} : {A : Type ℓ} → List A → Bool
is_empty [] = true
is_empty (x ∷ xs) = false

-- The body of the loop of `dropHashForAddrs`.
unfoldable pub drop_hash_for_addr : ReverseMap → NodeId → String → ReverseMap
unfolding drop_hashes is_zero
drop_hash_for_addr m hash str = elim (lookup str m) [
  | some info ↦
      let info' = drop_hashes (hash ∷ []) info in
      if is_empty info'.hashes && is_zero info'.peer_id then delete str m else insert str info' m
  | none ↦ m
]

unfoldable pub drop_hash_for_addrs : ReverseMap → NodeId → List String → ReverseMap
unfolding drop_hash_for_addr
drop_hash_for_addrs m hash [] = m
drop_hash_for_addrs m hash (addr ∷ addrs) =
    drop_hash_for_addrs (drop_hash_for_addr m hash addr) hash addrs
