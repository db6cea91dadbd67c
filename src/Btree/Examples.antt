-- ===== src/Btree/Examples.antt =====
-- Tests of the tree on identifiers of one byte, and the theorems at them.
use hexmagnet.Prelude.{◌≡◌, refl, sym, subst, some_pair, true, false, some, List, [], ◌∷◌, arith}
use hexmagnet.Btree.Bits.{NodeId, accepted, get_bit, bits, must_xor, equals, leading_zeros}
use hexmagnet.Btree.Bits.Masks.{IsId}
use hexmagnet.Btree.Node
use hexmagnet.Btree.Node.{
  Node, BaseNode, empty, leaf, branch, count_closer_than_subpath, xors_closest_to_subpath,
}
use hexmagnet.Btree.Root.{RootNode, new, put, drop, has, closest, update}
use hexmagnet.Btree.Root.Invariant.{IsRoot, new-IsRoot}
use hexmagnet.Btree.Root.Put.{PutDone, put_lem}
use hexmagnet.Btree.Root.Drop.{DropDone, drop_lem}
use hexmagnet.Btree.Root.Members.{has-put, has-drop}
use hexmagnet.Btree.Root.Closest.{IsClosest, closest-IsClosest}

abbrev origin : NodeId
origin = 0 ∷ []

abbrev five : NodeId
five = 5 ∷ []

abbrev six : NodeId
six = 6 ∷ []

origin-IsId : IsId 1 origin
origin-IsId = record { width = refl; bytes = omega arith }

five-IsId : IsId 1 five
five-IsId = record { width = refl; bytes = omega arith }

six-IsId : IsId 1 six
six-IsId = record { width = refl; bytes = omega arith }

-- No node yet, with room for two in a bucket.
abbrev vacant : RootNode
vacant = new origin 2 false

abbrev base : BaseNode
base = record { origin = origin; bit = false; path = [] }

-- After a put of five.
abbrev with_five : RootNode
with_five = record {
  base = base;
  k = 2;
  node = leaf base five;
  splitting_enabled = false;
  bucket_counts = update (λ _. 0) 5 1;
}

-- After a drop of five.
abbrev vacated : RootNode
vacated = record {
  base = base;
  k = 2;
  node = empty base;
  splitting_enabled = false;
  bucket_counts = update (update (λ _. 0) 5 1) 5 0;
}

put-five : put vacant five ≡ some (with_five, accepted)
unfolding new put hexmagnet.Btree.Node.has hexmagnet.Btree.Node.put must_xor equals bits
    leading_zeros get_bit
put-five = refl

drop_five : drop with_five five ≡ some (vacated, true)
unfolding drop hexmagnet.Btree.Node.drop must_xor equals bits leading_zeros get_bit
drop_five = refl

vacant-IsRoot : IsRoot 1 vacant
vacant-IsRoot = new-IsRoot 1 origin 2 false origin-IsId

with_five-IsRoot : IsRoot 1 with_five
with_five-IsRoot =
    let d = put_lem 1 vacant five vacant-IsRoot five-IsId in
    let (same, result) = some_pair with_five d.root accepted d.result put-five d.returns in
    subst (IsRoot 1) (sym same) d.is_root

put_lem_example : PutDone 1 with_five six (put with_five six)
put_lem_example = put_lem 1 with_five six with_five-IsRoot six-IsId

drop_lem_example : DropDone 1 with_five five (drop with_five five)
drop_lem_example = drop_lem 1 with_five five with_five-IsRoot five-IsId

has-put_example : has with_five five ≡ some true
unfolding equals
has-put_example = has-put 1 vacant with_five five five vacant-IsRoot five-IsId five-IsId put-five

has-drop_example : has vacated five ≡ some false
unfolding equals
has-drop_example =
    has-drop 1 with_five vacated five five with_five-IsRoot five-IsId five-IsId drop_five

closest-IsClosest_example :
    (ids : List NodeId) × (closest with_five six 8 ≡ some ids) × IsClosest 1 with_five six 8 ids
closest-IsClosest_example = closest-IsClosest 1 with_five six 8 with_five-IsRoot six-IsId
