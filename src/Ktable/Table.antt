-- ===== src/Ktable/Table.antt =====
-- internal/protocol/dht/ktable: table.go, command.go, query.go and factory.go. The lock makes every
-- operation one step. `none` is a panic.
pub mod Commands
pub mod Queries
use Prim.Native.String.{String}
use hexmagnet.Prelude.{
  ℕ, ◌+◌, ◌-◌, Bool, true, false, ◌&&◌, Option, none, some, List, [], ◌∷◌, length, lookup, take,
  map, ◌>>=◌, if◌then◌else◌, ltb, leb, string_eq,
}
use hexmagnet.Btree.Bits.{NodeId, PutResult, rejected}
use hexmagnet.Ktable.Base.{AddrPort}
use hexmagnet.Ktable.ReverseMap.{ReverseMap}
use hexmagnet.Ktable.Node
use hexmagnet.Ktable.Node.{Node, NodeOption, new_node, get_last_responded_before, candidates_loop}
use hexmagnet.Ktable.Hash
use hexmagnet.Ktable.Hash.{Hash, HashPeer, Peers, new_hash}
use hexmagnet.Ktable.Keyspace
use hexmagnet.Ktable.Keyspace.{Methods, Keyspace, new_keyspace}

pub record Table : Type 0 where
  pub origin : NodeId
  pub nodes_k : ℕ
  pub hashes_k : ℕ
  pub nodes : Keyspace Node
  pub hashes : Keyspace Hash
  pub addrs : ReverseMap

abbrev pub k : ℕ
k = 80

unfoldable pub new : NodeId → Table
unfolding new_keyspace
new origin = record {
  origin = origin;
  nodes_k = k;
  hashes_k = k;
  nodes = new_keyspace origin k;
  hashes = new_keyspace origin k;
  addrs = [];
}

-- The methods of a node; `now` is the time of the call.
abbrev pub node_methods : ℕ → Methods AddrPort NodeOption Node ReverseMap
node_methods now = record {
  factory = λ id addr m. (new_node now id addr, m);
  update = Node.update;
  apply = Node.apply now;
  drop = Node.drop;
}

-- A hash has no `drop`, and the code has no option for one: `Opt` stands for its type.
abbrev pub hash_methods :
    (Peers → Peers)
    → (Opt : Type 0) → (Opt → Hash → Hash)
    → ℕ
    → Methods (List HashPeer) Opt Hash ReverseMap
hash_methods visit Opt apply_option now = record {
  factory = new_hash now;
  update = Hash.update visit;
  apply = apply_option;
  drop = λ h reason m. (h, m);
}

-- The nodes and the reverse map that an operation on the nodes leaves.
abbrev pub with_nodes : {R : Type 0} → Table → Keyspace Node × ReverseMap × R → Option (Table × R)
with_nodes t r = some (record t { nodes = r.0; addrs = r.1 }, r.2)

unfoldable pub put_node :
    ℕ → Table → NodeId → AddrPort → List NodeOption → Option (Table × PutResult)
put_node now t id addr options =
    if addr.valid
    then Keyspace.put (node_methods now) t.nodes id addr options t.addrs >>= with_nodes t
    else some (t, rejected)

unfoldable pub drop_node : ℕ → Table → NodeId → Option String → Option (Table × Bool)
drop_node now t id reason =
    Keyspace.drop (node_methods now) t.nodes id reason t.addrs >>= with_nodes t

unfoldable pub put_hash :
    (Peers → Peers)
    → (Opt : Type 0) → (Opt → Hash → Hash)
    → ℕ
    → Table
    → NodeId
    → List HashPeer
    → List Opt
    → Option (Table × PutResult)
put_hash visit Opt apply_option now t id peers options =
    Keyspace.put (hash_methods visit Opt apply_option now) t.hashes id peers options t.addrs
    >>= λ r. some (record t { hashes = r.0; addrs = r.1 }, r.2)

-- The commands of a batch, without options for hashes.
pub data Command : Type 0 where
  puts_node : NodeId → AddrPort → List NodeOption → Command
  drops_node : NodeId → Option String → Command
  puts_hash : NodeId → List HashPeer → Command

unfoldable pub exec : (Peers → Peers) → ℕ → Command → Table → Option Table
unfolding put_node drop_node put_hash
exec visit now (puts_node id addr options) t = put_node now t id addr options >>= λ r. some r.0
exec visit now (drops_node id reason) t = drop_node now t id reason >>= λ r. some r.0
exec visit now (puts_hash id peers) t =
    put_hash visit (Unit {0}) (λ o h. h) now t id peers [] >>= λ r. some r.0

unfoldable pub batch_command : (Peers → Peers) → ℕ → List Command → Table → Option Table
unfolding exec
batch_command visit now [] t = some t
batch_command visit now (c ∷ commands) t =
    exec visit now c t >>= λ t'. batch_command visit now commands t'

unfoldable pub get_closest_nodes : Table → NodeId → Option (List Node)
get_closest_nodes t id = Keyspace.get_closest t.nodes id

-- `visit` is the order of the iteration over the items, and `sort` stands for `sort.Slice` by the
-- time of the last response.
unfoldable pub get_oldest_nodes :
    (List (NodeId × Node) → List (NodeId × Node))
    → (List Node → List Node)
    → Table
    → ℕ
    → ℕ
    → List Node
get_oldest_nodes visit sort t cutoff n =
    let peers = sort (get_last_responded_before cutoff (map (λ e. e.1) (visit t.nodes.items))) in
    if ltb 0 n && ltb n (length peers) then take n peers else peers

unfoldable pub filter_known_addrs : Table → List String → List String
filter_known_addrs t [] = []
filter_known_addrs t (addr ∷ addrs) =
    let unknown = filter_known_addrs t addrs in
    elim (lookup addr t.addrs) [ none ↦ addr ∷ unknown | some info ↦ unknown ]

-- The loop of the query, which stops once it has `n`: `so_far` it has.
unfoldable pub up_to : ℕ → ℕ → List Node → List Node
up_to n so_far [] = []
up_to n so_far (p ∷ peers) = p ∷ (if leb n (so_far + 1) then [] else up_to n (so_far + 1) peers)

unfoldable pub get_nodes_for_sample_info_hashes :
    (List (NodeId × Node) → List (NodeId × Node)) → ℕ → Table → ℕ → List Node
unfolding up_to
get_nodes_for_sample_info_hashes visit now t n =
    up_to n 0 (candidates_loop now n 0 (map (λ e. e.1) (visit t.nodes.items)))

-- The hash, or the closest nodes.
pub data HashOrClosestNodes : Type 0 where
  found : Hash → HashOrClosestNodes
  closest_nodes : List Node → HashOrClosestNodes

unfoldable pub get_hash_or_closest_nodes : Table → NodeId → Option HashOrClosestNodes
get_hash_or_closest_nodes t id = elim (Keyspace.get t.hashes id) [
  | some h ↦ some (found h)
  | none ↦ Keyspace.get_closest t.nodes id >>= λ ns. some (closest_nodes ns)
]

pub record SampleResult : Type 0 where
  pub hashes : List Hash
  pub nodes : List Node
  pub total_hashes : ℕ

-- Nodes make up for the hashes that are missing from twenty.
unfoldable pub sample_hashes_and_nodes :
    (List (NodeId × Hash) → List (NodeId × Hash))
    → (List (NodeId × Node) → List (NodeId × Node))
    → Table
    → SampleResult
sample_hashes_and_nodes visit_hashes visit_nodes t =
    let hashes = Keyspace.get_random visit_hashes t.hashes 20 in
    let n_nodes = 20 + (20 - length hashes) in
    record {
      hashes = hashes;
      nodes = Keyspace.get_random visit_nodes t.nodes n_nodes;
      total_hashes = Keyspace.count t.hashes;
    }
