-- ===== src/Btree/Root.antt =====
-- internal/protocol/dht/ktable/btree/node.go: `rootNode`, the tree with its origin, its capacity
-- and the counts of its buckets. `none` is a panic.
pub mod Invariant
pub mod Put
pub mod Drop
pub mod Members
pub mod Closest
pub mod Buckets
use hexmagnet.Prelude.{
  ℕ, ◌+◌, ◌-◌, ◌*◌, Bool, true, false, not, Option, none, some, List, [], ◌∷◌, ltb, leb, ◌==◌, ◌||◌,
  if◌then◌else◌, ◌>>=◌, length,
}
use hexmagnet.Btree.Bits.{
  NodeId, PutResult, rejected, accepted, already_exists, leading_zeros, bits, equals, must_xor,
}
use hexmagnet.Btree.Node
use hexmagnet.Btree.Node.{Node, BaseNode, empty, count_closer_than_subpath, xors_closest_to_subpath}

pub record RootNode : Type 0 where
  pub base : BaseNode
  pub k : ℕ
  pub node : Node
  pub splitting_enabled : Bool
  -- by leading zeros; a missing key reads 0
  pub bucket_counts : ℕ → ℕ

unfoldable pub new : NodeId → ℕ → Bool → RootNode
new origin k splitting_enabled = record {
  base = record { origin = origin; bit = false; path = [] };
  k = k;
  node = empty (record { origin = origin; bit = false; path = [] });
  splitting_enabled = splitting_enabled;
  bucket_counts = λ _. 0;
}

-- The number of bits.
unfoldable pub n : RootNode → ℕ
n t = length t.base.origin * 8

unfoldable pub has : RootNode → NodeId → Option Bool
has t id = must_xor id t.base.origin >>= λ xor. Node.has t.node xor

-- `bucketCounts[bucket] = value`
abbrev pub update : (ℕ → ℕ) → ℕ → ℕ → ℕ → ℕ
update counts bucket value j = if bucket == j then value else counts j

unfoldable pub put_bucket_count : RootNode → NodeId → Option RootNode
put_bucket_count t xor = bits xor >>= λ path.
    let bucket = leading_zeros path in
    some (record t { bucket_counts = update t.bucket_counts bucket (t.bucket_counts bucket + 1) })

unfoldable pub drop_bucket_count : RootNode → NodeId → Option RootNode
drop_bucket_count t xor = bits xor >>= λ path.
    let bucket = leading_zeros path in
    some (record t { bucket_counts = update t.bucket_counts bucket (t.bucket_counts bucket - 1) })

unfoldable pub get_bucket_count : RootNode → NodeId → Option ℕ
get_bucket_count t xor = bits xor >>= λ path. some (t.bucket_counts (leading_zeros path))

-- The bucket has room, or the tree may split for want of closer nodes.
unfoldable pub has_room : RootNode → NodeId → Option Bool
unfolding get_bucket_count
has_room t xor = get_bucket_count t xor >>= λ in_bucket.
    if ltb in_bucket t.k
    then some true
    else if not t.splitting_enabled
    then some false
    else bits xor
      >>= (λ path. count_closer_than_subpath t.node path >>= (λ closer. some (ltb closer t.k)))

-- Enough for a put from the root: two for each bit, and two.
abbrev pub put_fuel : NodeId → ℕ
put_fuel xor = length xor * 16 + 2

unfoldable pub finish_put : RootNode → NodeId → Node × PutResult → Option (RootNode × PutResult)
unfolding put_bucket_count
finish_put t xor (new_node, accepted) =
    put_bucket_count (record t { node = new_node }) xor >>= λ t'. some (t', accepted)
finish_put t xor (new_node, result) = some (t, result)

unfoldable pub put : RootNode → NodeId → Option (RootNode × PutResult)
unfolding has_room finish_put
put t id =
    if equals id t.base.origin
    then some (t, rejected)
    else must_xor id t.base.origin >>= (λ xor. Node.has t.node xor >>= (λ present.
      if present
      then some (t, already_exists)
      else has_room t xor >>= (λ room.
        if room
        then Node.put (put_fuel xor) t.node xor >>= (λ new. finish_put t xor new)
        else some (t, rejected))))

unfoldable pub finish_drop : RootNode → NodeId → Node × Bool → Option (RootNode × Bool)
unfolding drop_bucket_count
finish_drop t xor (new_node, true) =
    drop_bucket_count (record t { node = new_node }) xor >>= λ t'. some (t', true)
finish_drop t xor (new_node, false) = some (t, false)

unfoldable pub drop : RootNode → NodeId → Option (RootNode × Bool)
unfolding finish_drop
drop t id =
    must_xor id t.base.origin >>= λ xor. Node.drop t.node xor >>= λ new. finish_drop t xor new

unfoldable pub count : RootNode → ℕ
count t = Node.count t.node

unmask_all : NodeId → List NodeId → Option (List NodeId)
unmask_all origin [] = some []
unmask_all origin (xor ∷ xors) =
    must_xor xor origin >>= λ id. unmask_all origin xors >>= λ ids. some (id ∷ ids)

unfoldable pub closest : RootNode → NodeId → ℕ → Option (List NodeId)
unfolding unmask_all
closest t id m = must_xor id t.base.origin >>= λ xor.
    bits xor >>= λ path. unmask_all t.base.origin (xors_closest_to_subpath t.node path m)
