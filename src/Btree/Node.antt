-- ===== src/Btree/Node.antt =====
-- internal/protocol/dht/ktable/btree/node.go: the three kinds of node and their operations. `none`
-- is a panic. The two entries of a branch's maps are its fields; a branch's map is shared by no
-- other node, so writing to it is returning the new branch.
pub mod Shape
pub mod Has
pub mod Put
pub mod Drop
pub mod Closest
pub mod Closer
use hexmagnet.Prelude.{
  ℕ, zero, suc, ◌+◌, ◌-◌, ◌*◌, Bool, true, false, not, Option, none, some, List, [], ◌∷◌, ◌++◌, ltb,
  leb, ◌==◌, if◌then◌else◌, ◌>>=◌, length,
}
use hexmagnet.Btree.Bits.{
  Bit, Bits, NodeId, PutResult, rejected, accepted, already_exists, get_bit, equals, append_to_path,
}

pub record BaseNode : Type 0 where
  pub origin : NodeId
  pub bit : Bit
  pub path : Bits

pub data Node : Type 0 where
  empty : BaseNode → Node
  leaf : BaseNode → NodeId → Node
  -- the branches for 0 and 1, and their counts
  branch : BaseNode → Node → Node → ℕ → ℕ → Node

-- A map with both bits for keys, read at a bit.
abbrev pub at_bit {ℓ} : {A : Type ℓ} → Bit → A → A → A
at_bit false zero_value one_value = zero_value
at_bit true zero_value one_value = one_value

unfoldable pub has : Node → NodeId → Option Bool
has (empty b) xor = some false
has (leaf b id) xor = some (equals id xor)
has (branch b n0 n1 c0 c1) xor =
    get_bit xor (length b.path) >>= λ bit. elim bit [ false ↦ has n0 xor | true ↦ has n1 xor ]

unfoldable pub count : Node → ℕ
count (empty b) = 0
count (leaf b id) = 1
count (branch b n0 n1 c0 c1) = c0 + c1

unfoldable pub all_xors : Node → List NodeId
all_xors (empty b) = []
all_xors (leaf b id) = id ∷ []
all_xors (branch b n0 n1 c0 c1) = all_xors n0 ++ all_xors n1

-- The branch that replaces a full leaf, with nothing below it yet.
unfoldable pub init_node : BaseNode → Node
unfolding append_to_path
init_node b =
    let child = λ (bit : Bit).
      let base : BaseNode = record {
        origin = b.origin;
        bit = bit;
        path = append_to_path b.path bit;
      } in
      empty base in
    branch b (child false) (child true) 0 0

-- `n.branches[bit] = new`, `n.counts[bit] = c`
unfoldable pub set_branch : BaseNode → Node → Node → ℕ → ℕ → Bit → Node → ℕ → Node
set_branch b n0 n1 c0 c1 false new c = branch b new n1 c c1
set_branch b n0 n1 c0 c1 true new c = branch b n0 new c0 c

unfoldable pub put_branch :
    BaseNode → Node → Node → ℕ → ℕ → Bit → Node × PutResult → Node × PutResult
unfolding set_branch count
put_branch b n0 n1 c0 c1 bit (new, accepted) =
    (set_branch b n0 n1 c0 c1 bit new (count new), accepted)
put_branch b n0 n1 c0 c1 bit (new, result) = (branch b n0 n1 c0 c1, result)

-- A leaf is put into its fresh branch before the new identifier is: anything but an accepted put of
-- it is a panic.
unfoldable pub expect_accepted : Node × PutResult → Option Node
expect_accepted (n, accepted) = some n
expect_accepted (n, _) = none

-- On fuel, since a leaf is put again one level down.
unfoldable pub put : ℕ → Node → NodeId → Option (Node × PutResult)
unfolding init_node put_branch expect_accepted
put zero n xor = none
put (suc fuel) (empty b) xor = some (leaf b xor, accepted)
put (suc fuel) (leaf b id) xor = elim (equals id xor) [
  | true ↦ some (leaf b id, already_exists)
  | false ↦ put fuel (init_node b) id >>= expect_accepted >>= λ new_node. put fuel new_node xor
]
put (suc fuel) (branch b n0 n1 c0 c1) xor = get_bit xor (length b.path) >>= λ bit.
    put fuel (at_bit bit n0 n1) xor >>= λ new. some (put_branch b n0 n1 c0 c1 bit new)

-- `allXors[0]`, and a panic unless that is the only one.
unfoldable pub only : List NodeId → Option NodeId
only (id ∷ []) = some id
only _ = none

-- A branch after a drop below it: an emptied child whose sibling has at most one identifier takes
-- the branch with it.
unfoldable pub collapse : BaseNode → Node → ℕ → Node → Node → Option (Node × Bool)
unfolding count all_xors only
collapse b sibling sibling_count new updated =
    if count new == 0
    then (if sibling_count == 0
        then some (empty b, true)
        else if sibling_count == 1
        then only (all_xors sibling) >>= (λ id. some (leaf b id, true))
        else some (updated, true))
    else some (updated, true)

unfoldable pub drop_branch :
    BaseNode → Node → Node → ℕ → ℕ → Bit → Node × Bool → Option (Node × Bool)
unfolding set_branch count collapse
drop_branch b n0 n1 c0 c1 bit (new, false) = some (branch b n0 n1 c0 c1, false)
drop_branch b n0 n1 c0 c1 bit (new, true) =
    collapse b (at_bit bit n1 n0) (at_bit bit c1 c0) new
      (set_branch b n0 n1 c0 c1 bit new (count new))

unfoldable pub drop : Node → NodeId → Option (Node × Bool)
unfolding drop_branch
drop (empty b) xor = some (empty b, false)
drop (leaf b id) xor = some (if equals id xor then (empty b, true) else (leaf b id, false))
drop (branch b n0 n1 c0 c1) xor = get_bit xor (length b.path) >>= λ bit.
    elim bit [ false ↦ drop n0 xor | true ↦ drop n1 xor ] >>= λ new.
    drop_branch b n0 n1 c0 c1 bit new

-- The loop of the leaf, from the index `i` of the path's next bit.
leaf_loop : BaseNode → NodeId → ℕ → Bits → Option ℕ
leaf_loop b id i [] = some 1
leaf_loop b id i (bit ∷ path) = elim bit [
  | false ↦ leaf_loop b id (i + 1) path
  | true ↦ get_bit id (i + length b.path) >>= λ own. elim own [
    | false ↦ some 0
    | true ↦ leaf_loop b id (i + 1) path
  ]
]

unfoldable pub count_closer_than_subpath : Node → Bits → Option ℕ
unfolding leaf_loop
count_closer_than_subpath (empty b) path = some 0
count_closer_than_subpath (leaf b id) path = leaf_loop b id 0 path
count_closer_than_subpath (branch b n0 n1 c0 c1) [] = some 0
count_closer_than_subpath (branch b n0 n1 c0 c1) (false ∷ []) = some c0
count_closer_than_subpath (branch b n0 n1 c0 c1) (true ∷ []) = some (c0 + c1)
count_closer_than_subpath (branch b n0 n1 c0 c1) (false ∷ path) = count_closer_than_subpath n0 path
count_closer_than_subpath (branch b n0 n1 c0 c1) (true ∷ path) =
    count_closer_than_subpath n1 path >>= λ n. some (c0 + n)

-- The far branch is asked only for what the near one leaves missing.
abbrev pub with_rest : List NodeId → ℕ → (ℕ → List NodeId) → List NodeId
with_rest closest n far =
    if ltb (length closest) n then closest ++ far (n - length closest) else closest

unfoldable pub xors_closest_to_subpath : Node → Bits → ℕ → List NodeId
xors_closest_to_subpath (empty b) path n = []
xors_closest_to_subpath (leaf b id) path n = if ltb n 1 then [] else id ∷ []
xors_closest_to_subpath (branch b n0 n1 c0 c1) [] n =
    with_rest (xors_closest_to_subpath n0 [] n) n (λ m. xors_closest_to_subpath n1 [] m)
xors_closest_to_subpath (branch b n0 n1 c0 c1) (false ∷ path) n =
    with_rest (xors_closest_to_subpath n0 path n) n (λ m. xors_closest_to_subpath n1 [] m)
xors_closest_to_subpath (branch b n0 n1 c0 c1) (true ∷ path) n =
    with_rest (xors_closest_to_subpath n1 path n) n (λ m. xors_closest_to_subpath n0 [] m)
