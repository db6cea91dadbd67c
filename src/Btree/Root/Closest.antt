-- ===== src/Btree/Root/Closest.antt =====
-- What `closest` returns.
use hexmagnet.Prelude.{
  ℕ, ◌≤◌, ◌<◌, min, ◌≡◌, refl, sym, ap, ◌∙◌, Bool, true, some, List, [], ◌∷◌, ◌++◌, map, arith,
  length, length-map, All, All-mono,
}
use hexmagnet.Btree.Bits.{Bits, NodeId, equals}
use hexmagnet.Btree.Bits.Index.{bit_list, bits_lem}
use hexmagnet.Btree.Bits.Masks.{IsId, mask, mask-IsId, mask-mask, must_xor_lem, equals_self}
use hexmagnet.Btree.Node.{all_xors, xors_closest_to_subpath}
use hexmagnet.Btree.Node.Shape.{Fits, tally, is, all_xors-Fits, count-all_xors}
use hexmagnet.Btree.Node.Closest.{shares, length-closest, closest-le, closest_shares, closest-All}
use hexmagnet.Btree.Root.{RootNode, has, closest, count, unmask_all}
use hexmagnet.Btree.Root.Invariant.{distance, held, IsRoot}
use hexmagnet.Btree.Root.Members.{has-held}

-- The identifiers at the given distances from the origin.
abbrev ids_of : NodeId → List NodeId → List NodeId
ids_of origin xors = map (λ x. mask x origin) xors

unmask_all_lem :
    (w : ℕ) (origin : NodeId) (xors : List NodeId)
    → IsId w origin
    → All (IsId w) xors
    → unmask_all origin xors ≡ some (ids_of origin xors)
unfolding unmask_all
unmask_all_lem w origin [] h x = refl
unmask_all_lem w origin (a ∷ xors) h x =
    rw (must_xor_lem w a origin x.0 h, unmask_all_lem w origin xors h x.1)

tally-ids_of :
    (w : ℕ) (origin : NodeId) (test : NodeId → Bool) (xors : List NodeId)
    → IsId w origin
    → All (IsId w) xors
    → tally (λ id. test (mask id origin)) (ids_of origin xors) ≡ tally test xors
unfolding tally
tally-ids_of w origin test [] h x = refl
tally-ids_of w origin test (a ∷ xors) h x =
    rw (mask-mask w a origin x.0 h) (omega (arith, tally-ids_of w origin test xors h x.1))

-- A member of a list is counted in it.
members_held : (xs : List NodeId) → All (λ x. 0 < tally (is x) xs) xs
members_held xs = go xs xs (λ x h. h)
  where
    head : (x : NodeId) (xs : List NodeId) → 0 < tally (is x) (x ∷ xs)
    head x xs = unfold tally in rw (equals_self x) (omega arith)

    go :
        (ys all : List NodeId)
        → ((x : NodeId) → 0 < tally (is x) ys → 0 < tally (is x) all)
        → All (λ x. 0 < tally (is x) all) ys
    go [] all f = tt
    go (y ∷ ys) all f = (f y (head y ys), go ys all (λ x h. f x (unfold tally in omega (arith, h))))

ids_in_tree :
    (w : ℕ) (t : RootNode) (xors : List NodeId)
    → IsRoot w t
    → All (IsId w) xors
    → All (λ a. 0 < held (is a) t) xors
    → All (λ j. has t j ≡ some true) (ids_of t.base.origin xors)
ids_in_tree w t [] h x f = tt
ids_in_tree w t (a ∷ xors) h x f = (
  has-held w t h (mask a t.base.origin) (mask-IsId w a t.base.origin x.0 h.origin)
      ∙ rw (mask-mask w a t.base.origin x.0 h.origin) (ground (arith, f.0)),
  ids_in_tree w t xors h x.1 f.1,
)

ids_are_ids :
    (w : ℕ) (origin : NodeId) (xors : List NodeId)
    → IsId w origin
    → All (IsId w) xors
    → All (IsId w) (ids_of origin xors)
ids_are_ids w origin [] h x = tt
ids_are_ids w origin (a ∷ xors) h x = (mask-IsId w a origin x.0 h, ids_are_ids w origin xors h x.1)

-- The answer to a query for `m` identifiers near `id`.
pub record IsClosest (w : ℕ) (t : RootNode) (id : NodeId) (m : ℕ) (ids : List NodeId) : Type 0 where
  -- as many as were asked for, or all of them
  pub number : length ids ≡ min m (count t)
  pub are_ids : All (IsId w) ids
  -- each is in the tree
  pub in_tree : All (λ j. has t j ≡ some true) ids
  -- none is returned twice
  pub distinct : (j : NodeId) → tally (λ i. equals (distance t i) (distance t j)) ids ≤ 1
  -- whatever number of leading bits is compared, no identifier of the tree that shares them with `id`
  -- is left out for one that does not
  pub nearest :
      (q r : Bits)
      → bit_list (distance t id) ≡ q ++ r
      → tally (λ j. shares q (distance t j)) ids ≡ min m (held (shares q) t)

-- On a root that keeps its invariant, a query for m identifiers near an identifier of the root's
-- width returns; the answer has m identifiers, or all if there are fewer, all different and all in
-- the tree, and for every number of leading bits it has as many identifiers that share them with
-- the target as the tree has, up to m.
pub closest-IsClosest :
    (w : ℕ) (t : RootNode) (id : NodeId) (m : ℕ)
    → IsRoot w t
    → IsId w id
    → (ids : List NodeId) × (closest t id m ≡ some ids) × IsClosest w t id m ids
unfolding closest count
closest-IsClosest w t id m h x =
    let xor = distance t id in
    let xors = xors_closest_to_subpath t.node (bit_list xor) m in
    let fits = all_xors-Fits w [] t.node h.tree in
    let are_ids =
      closest-All (IsId w) t.node (bit_list xor) m
        (All-mono (Fits w []) (IsId w) (all_xors t.node) (λ a f. f.is_id) fits) in
    (
      ids_of t.base.origin xors,
      rw (must_xor_lem w id t.base.origin x h.origin, bits_lem xor)
          (unmask_all_lem w t.base.origin xors h.origin are_ids),
      record {
        number =
            length-map (λ a. mask a t.base.origin) xors
            ∙ length-closest t.node (bit_list xor) m
            ∙ ap (min m) (sym (count-all_xors w [] t.node h.tree));
        are_ids = ids_are_ids w t.base.origin xors h.origin are_ids;
        in_tree = ids_in_tree w t xors h are_ids (
            closest-All (λ a. 0 < held (is a) t) t.node (bit_list xor) m
              (members_held (all_xors t.node)));
        distinct = λ j. omega (
          arith,
          tally-ids_of w t.base.origin (is (distance t j)) xors h.origin are_ids,
          closest-le t.node (bit_list xor) m (is (distance t j)),
          h.once (distance t j),
        );
        nearest = λ q r e.
            tally-ids_of w t.base.origin (shares q) xors h.origin are_ids
            ∙ ap (λ (path : Bits). tally (shares q) (xors_closest_to_subpath t.node path m)) e
            ∙ closest_shares w [] t.node q r m h.tree;
      },
    )
