-- ===== src/Ktable/Table/Commands.antt =====
-- The commands of the table: they return, and keep both keyspaces in sync.
use Prim.Native.String.{String}
use hexmagnet.Prelude.{
  ℕ, ◌≡◌, refl, ap, ◌∙◌, Bool, true, false, Option, some, List, [], ◌∷◌, ◌>>=◌, if◌then◌else◌, All,
  some_pair,
}
use hexmagnet.Btree.Bits.{NodeId, PutResult, rejected, accepted}
use hexmagnet.Btree.Bits.Masks.{IsId}
use hexmagnet.Ktable.Base.{AddrPort, id_eq}
use hexmagnet.Ktable.Node.{Node, NodeOption}
use hexmagnet.Ktable.Hash.{Hash, HashPeer, Peers}
use hexmagnet.Ktable.Keyspace
use hexmagnet.Ktable.Keyspace.{Keyspace}
use hexmagnet.Ktable.ReverseMap.{ReverseMap}
use hexmagnet.Ktable.Keyspace.InSync.{
  InSync, new_keyspace-InSync, PutKeeps, put_keeps, PutAnswer, refused, created, refreshed,
}
use hexmagnet.Ktable.Keyspace.Removal.{drop_keeps}
use hexmagnet.Ktable.Table.{
  Table, new, node_methods, hash_methods, with_nodes, put_node, drop_node, put_hash, Command,
  puts_node, drops_node, puts_hash, exec, batch_command,
}

-- Both keyspaces are in sync, for identifiers of twenty bytes.
pub record IsTable (t : Table) : Type 0 where
  pub nodes : InSync 20 t.nodes
  pub hashes : InSync 20 t.hashes

-- A result that returns a table in order.
pub record Returns {R : Type 0} (o : Option (Table × R)) : Type 0 where
  pub table : Table
  pub result : R
  pub returns : o ≡ some (table, result)
  pub is_table : IsTable table

pub new-IsTable : (origin : NodeId) → IsId 20 origin → IsTable (new origin)
unfolding new
new-IsTable origin h = record {
  nodes = new_keyspace-InSync 20 _ origin _ h;
  hashes = new_keyspace-InSync 20 _ origin _ h;
}

pub put_node-Returns :
    (now : ℕ) (t : Table) (id : NodeId) (addr : AddrPort) (options : List NodeOption)
    → IsTable t
    → IsId 20 id
    → Returns (put_node now t id addr options)
unfolding put_node
put_node-Returns now t id addr options h x =
    go addr.valid (put_keeps (node_methods now) 20 t.nodes id addr options t.addrs h.nodes x)
  where
    go :
        (valid : Bool)
        → PutKeeps
            (node_methods now)
            20
            t.nodes
            id
            addr
            options
            t.addrs
            (Keyspace.put (node_methods now) t.nodes id addr options t.addrs)
        → Returns (
            if valid
            then Keyspace.put (node_methods now) t.nodes id addr options t.addrs >>= with_nodes t
            else some (t, rejected))
    go false p = record { table = t; result = rejected; returns = refl; is_table = h }
    go true p = rw p.returns (record {
      table = record t { nodes = p.keyspace; addrs = p.state };
      result = p.result;
      returns = refl;
      is_table = record { nodes = p.in_sync; hashes = h.hashes };
    })

pub drop_node-Returns :
    (now : ℕ) (t : Table) (id : NodeId) (reason : Option String)
    → IsTable t
    → IsId 20 id
    → Returns (drop_node now t id reason)
unfolding drop_node
drop_node-Returns now t id reason h x =
    let p = drop_keeps (node_methods now) 20 t.nodes id reason t.addrs h.nodes x in
    rw p.returns (record {
      table = record t { nodes = p.keyspace; addrs = p.state };
      result = p.result;
      returns = refl;
      is_table = record { nodes = p.in_sync; hashes = h.hashes };
    })

pub put_hash-Returns :
    (visit : Peers → Peers) (Opt : Type 0) (apply_option : Opt → Hash → Hash) (now : ℕ) (t : Table)
    (id : NodeId) (peers : List HashPeer) (options : List Opt)
    → IsTable t
    → IsId 20 id
    → Returns (put_hash visit Opt apply_option now t id peers options)
unfolding put_hash
put_hash-Returns visit Opt apply_option now t id peers options h x =
    let p =
      put_keeps (hash_methods visit Opt apply_option now) 20 t.hashes id peers options t.addrs
        h.hashes x in
    rw p.returns (record {
      table = record t { hashes = p.keyspace; addrs = p.state };
      result = p.result;
      returns = refl;
      is_table = record { nodes = h.nodes; hashes = p.in_sync };
    })

-- The identifier that a command names has twenty bytes.
abbrev pub NamesId : Command → Type 0
NamesId (puts_node id addr options) = IsId 20 id
NamesId (drops_node id reason) = IsId 20 id
NamesId (puts_hash id peers) = IsId 20 id

exec_returns :
    (visit : Peers → Peers) (now : ℕ) (c : Command) (t : Table)
    → IsTable t
    → NamesId c
    → (t' : Table) × (exec visit now c t ≡ some t') × IsTable t'
unfolding exec
exec_returns visit now (puts_node id addr options) t h x =
    let r = put_node-Returns now t id addr options h x in (r.table, rw r.returns, r.is_table)
exec_returns visit now (drops_node id reason) t h x =
    let r = drop_node-Returns now t id reason h x in (r.table, rw r.returns, r.is_table)
exec_returns visit now (puts_hash id peers) t h x =
    let r = put_hash-Returns visit (Unit {0}) (λ o h. h) now t id peers [] h x in
    (r.table, rw r.returns, r.is_table)

-- From a table whose keyspaces are in sync, every batch of commands on identifiers of twenty bytes
-- returns without a panic, whatever the order of iteration over maps, and leaves both keyspaces in
-- sync.
pub batch_command_returns :
    (visit : Peers → Peers) (now : ℕ) (commands : List Command) (t : Table)
    → IsTable t
    → All NamesId commands
    → (t' : Table) × (batch_command visit now commands t ≡ some t') × IsTable t'
unfolding batch_command
batch_command_returns visit now [] t h x = (t, refl, h)
batch_command_returns visit now (c ∷ commands) t h x =
    let (t', e, h') = exec_returns visit now c t h x.0 in
    let (t'', f, h'') = batch_command_returns visit now commands t' h' x.1 in (t'', rw (e, f), h'')

-- On a table whose keyspaces are in sync, an accepted put of a node with an identifier of twenty
-- bytes leaves the reverse map of addresses as it was.
pub addrs-put_node :
    (now : ℕ) (t t' : Table) (id : NodeId) (addr : AddrPort) (options : List NodeOption)
    → IsTable t
    → IsId 20 id
    → put_node now t id addr options ≡ some (t', accepted)
    → t'.addrs ≡ t.addrs
unfolding put_node
addrs-put_node now t t' id addr options h x e =
    go addr.valid (put_keeps (node_methods now) 20 t.nodes id addr options t.addrs h.nodes x) e
  where
    answer :
        (s : ReverseMap) (ks : Keyspace Node) {r : PutResult}
        → PutAnswer (node_methods now) 20 t.nodes id addr options t.addrs ks s r
        → accepted ≡ r
        → s ≡ t.addrs
    answer s ks (refused q _ _) f = absurd (cc)
    answer s ks (created _ _ _ same) f = same
    answer s ks (refreshed it q _ _ _) f = absurd (cc)

    go :
        (valid : Bool)
        → PutKeeps
            (node_methods now)
            20
            t.nodes
            id
            addr
            options
            t.addrs
            (Keyspace.put (node_methods now) t.nodes id addr options t.addrs)
        → (if valid
            then Keyspace.put (node_methods now) t.nodes id addr options t.addrs >>= with_nodes t
            else some (t, rejected))
          ≡ some (t', accepted)
        → t'.addrs ≡ t.addrs
    go false p f = absurd (clash (some_pair t t' rejected accepted refl f).1)
      where
        clash : rejected ≡ accepted → ⊥
        clash q = cc
    go true p f =
        let (same, result) =
          some_pair t' (record t { nodes = p.keyspace; addrs = p.state }) accepted p.result f
            (rw p.returns) in
        ap (λ (u : Table). u.addrs) same ∙ answer p.state p.keyspace p.answer result
