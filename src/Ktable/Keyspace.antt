-- ===== src/Ktable/Keyspace.antt =====
-- internal/protocol/dht/ktable/keyspace.go: the items of one kind, by identifier, beside the tree
-- that decides which are kept. Items are pointers in the source: what updates one here writes it
-- back under its identifier. `none` is a panic.
pub mod InSync
pub mod Removal
pub mod Nearest
use Prim.Native.String.{String}
use hexmagnet.Prelude.{
  ℕ, zero, suc, ◌-◌, min, Bool, true, false, Option, none, some, List, [], ◌∷◌, length, lookup,
  insert, delete, map, take, ◌>>=◌, if◌then◌else◌, ltb,
}
use hexmagnet.Btree.Bits.{NodeId, PutResult, rejected, accepted, already_exists}
use hexmagnet.Btree.Root
use hexmagnet.Btree.Root.{RootNode}
use hexmagnet.Ktable.Base.{id_eq}

-- The items, whose methods may write to the state `S` that they share.
pub record Methods (Input Opt Item S : Type 0) : Type 0 where
  pub factory : NodeId → Input → S → Item × S
  pub update : Item → Input → S → Item × S
  pub apply : Opt → Item → Item
  -- `drop`, or nothing where the item has no such method
  pub drop : Item → String → S → Item × S

pub record Keyspace (Item : Type 0) : Type 0 where
  pub origin : NodeId
  pub k : ℕ
  pub btree : RootNode
  pub items : List (NodeId × Item)

unfoldable pub new_keyspace : {Item : Type 0} → NodeId → ℕ → Keyspace Item
new_keyspace origin k = record {
  origin = origin;
  k = k;
  btree = Root.new origin k true;
  items = [];
}

module _ {Input Opt Item S : Type 0} (methods : Methods Input Opt Item S) where
  unfoldable pub apply_all : List Opt → Item → Item
  apply_all [] it = it
  apply_all (o ∷ options) it = apply_all options (methods.apply o it)

  -- The item that an accepted put keeps.
  unfoldable pub or_new : Option Item → NodeId → Input → S → Item × S
  or_new (some it) id input s = (it, s)
  or_new none id input s = methods.factory id input s

  -- The item that is there is updated: a nil dereference if there is none.
  unfoldable pub updated : Option Item → Input → S → Option (Item × S)
  updated (some it) input s = some (methods.update it input s)
  updated none input s = none

  unfoldable pub store :
      Keyspace Item
      → RootNode
      → NodeId
      → List Opt
      → PutResult
      → Item × S
      → Keyspace Item × S × PutResult
  unfolding apply_all
  store ks btree id options r (it, s) =
      (record ks { btree = btree; items = insert id (apply_all options it) ks.items }, s, r)

  unfoldable pub finish_put :
      Keyspace Item
      → NodeId
      → Input
      → List Opt
      → S
      → RootNode × PutResult
      → Option (Keyspace Item × S × PutResult)
  unfolding or_new updated store
  finish_put ks id input options s (btree, rejected) =
      some (record ks { btree = btree }, s, rejected)
  finish_put ks id input options s (btree, accepted) =
      some (store ks btree id options accepted (or_new (lookup id ks.items) id input s))
  finish_put ks id input options s (btree, already_exists) =
      updated (lookup id ks.items) input s >>= λ it.
      some (store ks btree id options already_exists it)

  unfoldable pub put :
      Keyspace Item → NodeId → Input → List Opt → S → Option (Keyspace Item × S × PutResult)
  unfolding finish_put
  put ks id input options s = Root.put ks.btree id >>= λ r. finish_put ks id input options s r

  -- The reason for a drop without one.
  abbrev pub reason_or_default : Option String → String
  reason_or_default none = "drop reason not provided"
  reason_or_default (some reason) = reason

  unfoldable pub drop :
      Keyspace Item → NodeId → Option String → S → Option (Keyspace Item × S × Bool)
  drop ks id reason s = elim (lookup id ks.items) [
    | none ↦ some (ks, s, false)
    | some it ↦
        let (it', s') = methods.drop it (reason_or_default reason) s in
        Root.drop ks.btree id >>= λ r.
        some (record ks { btree = r.0; items = delete id ks.items }, s', r.1)
  ]

module _ {Item : Type 0} where
  unfoldable pub count : Keyspace Item → ℕ
  count ks = length ks.items

  unfoldable pub get : Keyspace Item → NodeId → Option Item
  get ks id = lookup id ks.items

  -- `visit` is the order in which Go iterates over a map; the loop stops at `n` items.
  unfoldable pub get_random :
      (List (NodeId × Item) → List (NodeId × Item)) → Keyspace Item → ℕ → List Item
  get_random visit ks n = map (λ e. e.1) (take (min n (length ks.items)) (visit ks.items))

  -- A nil dereference where an identifier of the tree has no item.
  unfoldable pub items_at : List (NodeId × Item) → List NodeId → Option (List Item)
  items_at items [] = some []
  items_at items (id ∷ ids) =
      lookup id items >>= λ it. items_at items ids >>= λ its. some (it ∷ its)

  unfoldable pub get_closest : Keyspace Item → NodeId → Option (List Item)
  unfolding items_at
  get_closest ks id = elim (lookup id ks.items) [
    | some it ↦ some (it ∷ [])
    | none ↦ Root.closest ks.btree id 8 >>= λ ids. items_at ks.items ids
  ]
