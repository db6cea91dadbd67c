-- ===== src/Ktable/Examples.antt =====
-- The theorems of the routing table at concrete inputs.
use hexmagnet.Prelude.{◌≡◌, refl, true, some, none, List, [], ◌∷◌, arith, string_eq}
use hexmagnet.Btree.Bits.{NodeId}
use hexmagnet.Btree.Bits.Masks.{IsId}
use hexmagnet.Ktable.Base.{AddrPort}
use hexmagnet.Ktable.ReverseMap.{zero_id}
use hexmagnet.Ktable.Node.{Node, responded}
use hexmagnet.Ktable.Hash.{HashPeer}
use hexmagnet.Ktable.Keyspace
use hexmagnet.Ktable.Keyspace.{Keyspace, new_keyspace, get_closest, count}
use hexmagnet.Ktable.Keyspace.InSync.{PutKeeps, put_keeps}
use hexmagnet.Ktable.Keyspace.Removal.{DropKeeps, drop_keeps}
use hexmagnet.Ktable.Keyspace.Nearest.{Nearby, get_closest-Nearby}
use hexmagnet.Ktable.Table.{
  Table, new, node_methods, Command, puts_node, drops_node, puts_hash, batch_command,
}
use hexmagnet.Ktable.Table.Commands.{IsTable, new-IsTable, batch_command_returns}

abbrev one_id : NodeId
one_id = 0 ∷ 0 ∷ 0 ∷ 0 ∷ 0 ∷ 0 ∷ 0 ∷ 0 ∷ 0 ∷ 0 ∷ 0 ∷ 0 ∷ 0 ∷ 0 ∷ 0 ∷ 0 ∷ 0 ∷ 0 ∷ 0 ∷ 1 ∷ []

zero_id-IsId : IsId 20 zero_id
zero_id-IsId = record { width = refl; bytes = omega arith }

one_id-IsId : IsId 20 one_id
one_id-IsId = record { width = refl; bytes = omega arith }

abbrev home : AddrPort
home = record { addr = "10.0.0.1"; port = 3334; valid = true }

abbrev peer : HashPeer
peer = record { addr = home }

start-IsTable : IsTable (new zero_id)
start-IsTable = new-IsTable zero_id zero_id-IsId

put_keeps_example :
    PutKeeps
      (node_methods 7)
      20
      (new zero_id).nodes
      one_id
      home
      (responded ∷ [])
      []
      (Keyspace.put (node_methods 7) (new zero_id).nodes one_id home (responded ∷ []) [])
put_keeps_example =
    put_keeps (node_methods 7) 20 (new zero_id).nodes one_id home (responded ∷ []) []
      start-IsTable.nodes one_id-IsId

drop_keeps_example :
    DropKeeps
      (node_methods 7)
      20
      (new zero_id).nodes
      one_id
      none
      []
      (Keyspace.drop (node_methods 7) (new zero_id).nodes one_id none [])
drop_keeps_example =
    drop_keeps (node_methods 7) 20 (new zero_id).nodes one_id none [] start-IsTable.nodes
      one_id-IsId

get_closest-Nearby_example :
    (its : List Node) × (get_closest (new zero_id).nodes one_id ≡ some its)
    × Nearby 20 (new zero_id).nodes one_id its
get_closest-Nearby_example =
    get_closest-Nearby 20 (new zero_id).nodes one_id start-IsTable.nodes one_id-IsId

abbrev commands : List Command
commands =
    puts_node one_id home (responded ∷ [])
    ∷ puts_hash one_id (peer ∷ [])
    ∷ drops_node one_id none
    ∷ []

batch_command_returns_example :
    (t' : Table) × (batch_command (λ m. m) 7 commands (new zero_id) ≡ some t') × IsTable t'
batch_command_returns_example =
    batch_command_returns (λ m. m) 7 commands (new zero_id) start-IsTable
      (one_id-IsId, (one_id-IsId, (one_id-IsId, tt)))
