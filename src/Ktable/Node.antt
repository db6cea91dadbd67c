-- ===== src/Ktable/Node.antt =====
-- internal/protocol/dht/ktable/node.go: a node of the routing table, what updates it, and the
-- options that a put applies. `time.Now()` is an argument.
use Prim.Native.String.{String}
use hexmagnet.Prelude.{
  ℕ, ◌+◌, ◌*◌, Bool, true, false, not, ◌&&◌, ◌==◌, ltb, Option, none, some, List, [], ◌∷◌,
  if◌then◌else◌, str_eq,
}
use hexmagnet.Btree.Bits.{NodeId}
use hexmagnet.Ktable.Base.{AddrPort, second, minute}
use hexmagnet.Ktable.ReverseMap.{ReverseMap, put_addr_peer_id, drop_addr}

pub data ProtocolSupport : Type 0 where
  unknown supported unsupported : ProtocolSupport

pub record Node : Type 0 where
  pub id : NodeId
  pub addr : AddrPort
  pub discovered_at : ℕ
  pub last_responded_at : ℕ
  pub drop_reason : Option String
  pub bep51_support : ProtocolSupport
  pub sampled_num : ℕ
  pub last_discovered_num : ℕ
  pub total_num : ℕ
  pub next_sample_info_hashes_time : ℕ

-- The factory of the table's nodes.
unfoldable pub new_node : ℕ → NodeId → AddrPort → Node
new_node now id addr = record {
  id = id;
  addr = addr;
  discovered_at = now;
  last_responded_at = 0;
  drop_reason = none;
  bep51_support = unknown;
  sampled_num = 0;
  last_discovered_num = 0;
  total_num = 0;
  next_sample_info_hashes_time = 0;
}

-- `==` of two `netip.AddrPort`.
unfoldable pub same_addr : AddrPort → AddrPort → Bool
same_addr a b =
    str_eq a.addr b.addr && (a.port == b.port && (if a.valid then b.valid else not b.valid))

unfoldable pub update : Node → AddrPort → ReverseMap → Node × ReverseMap
unfolding same_addr put_addr_peer_id drop_addr
update n addr m =
    let moved = if same_addr n.addr addr then m else (drop_addr m n.addr.addr).0 in
    (record n { addr = addr }, put_addr_peer_id moved addr.addr n.id)

unfoldable pub drop : Node → String → ReverseMap → Node × ReverseMap
unfolding drop_addr
drop n reason m = (record n { drop_reason = some reason }, (drop_addr m n.addr.addr).0)

unfoldable pub dropped : Node → Bool
dropped n = elim n.drop_reason [ none ↦ false | some reason ↦ true ]

abbrev pub not_unsupported : ProtocolSupport → Bool
not_unsupported unsupported = false
not_unsupported _ = true

-- `t.Before(now.Add(-5s))` is `t + 5s` before now.
unfoldable pub is_sample_info_hashes_candidate : ℕ → Node → Bool
is_sample_info_hashes_candidate now n =
    not_unsupported n.bep51_support
    && (ltb n.next_sample_info_hashes_time now && ltb (n.last_responded_at + 5 * second) now)

pub data NodeOption : Type 0 where
  responded : NodeOption
  bep51 : Bool → NodeOption
  -- discovered, total, and the next time to sample
  sample_info_hashes_res : ℕ → ℕ → ℕ → NodeOption

unfoldable pub next_sample_time : ℕ → ℕ → ℕ → ℕ
next_sample_time now discovered_num next =
    if discovered_num == 0 then (if ltb next now then now else next) + 5 * minute else next

unfoldable pub apply : ℕ → NodeOption → Node → Node
unfolding next_sample_time
apply now responded n = record n { last_responded_at = now }
apply now (bep51 is_supported) n = record n {
  bep51_support = if is_supported then supported else unsupported;
}
apply now (sample_info_hashes_res discovered_num total_num next) n = record n {
  sampled_num = n.sampled_num + discovered_num;
  last_discovered_num = discovered_num;
  total_num = n.total_num + total_num;
  next_sample_info_hashes_time = next_sample_time now discovered_num next;
}

unfoldable pub get_last_responded_before : ℕ → List Node → List Node
get_last_responded_before t [] = []
get_last_responded_before t (it ∷ items) =
    let rest = get_last_responded_before t items in
    if ltb it.last_responded_at t then it ∷ rest else rest

-- The loop of `getCandidatesForSampleInfoHashes`, which stops once it has `n`: `so_far` it has.
unfoldable pub candidates_loop : ℕ → ℕ → ℕ → List Node → List Node
unfolding is_sample_info_hashes_candidate
candidates_loop now n so_far [] = []
candidates_loop now n so_far (it ∷ items) =
    let skip = candidates_loop now n so_far items in
    let more = it ∷ (if so_far + 1 == n then [] else candidates_loop now n (so_far + 1) items) in
    if is_sample_info_hashes_candidate now it then more else skip
