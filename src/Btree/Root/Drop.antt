-- ===== src/Btree/Root/Drop.antt =====
-- `drop` keeps the invariant of the root, and what it does on every branch.
use hexmagnet.Prelude.{
  ℕ, ◌+◌, ◌-◌, ◌<◌, ◌≡◌, refl, ap, Bool, true, false, Option, some, List, [], ◌∷◌, arith, ◌>>=◌,
}
use hexmagnet.Btree.Bits.{NodeId, leading_zeros}
use hexmagnet.Btree.Bits.Index.{bit_list, bits_lem}
use hexmagnet.Btree.Bits.Masks.{IsId, mask-IsId, must_xor_lem}
use hexmagnet.Btree.Node.{Node, all_xors}
use hexmagnet.Btree.Node.Shape.{IsTree, Fits-root, tally, is}
use hexmagnet.Btree.Node.Drop as NodeDrop
use hexmagnet.Btree.Node.Drop.{drop-Done}
use hexmagnet.Btree.Root.{RootNode, update, drop, finish_drop}
use hexmagnet.Btree.Root.Invariant.{in_bucket, distance, held, IsRoot, updated_counts, tally_bucket}

-- What a drop does, on each branch.
pub data DropOutcome (t : RootNode) (id : NodeId) (t' : RootNode) (done : Bool) : Type 0 where
  missed : held (is (distance t id)) t ≡ 0 → done ≡ false → t' ≡ t → DropOutcome t id t' done
  removed :
      0 < t.bucket_counts (leading_zeros (bit_list (distance t id)))
      → done ≡ true
      → t'.base ≡ t.base
      → t'.k ≡ t.k
      → ((test : NodeId → Bool) → held test t ≡ held test t' + tally test (distance t id ∷ []))
      → DropOutcome t id t' done

pub record DropDone (w : ℕ) (t : RootNode) (id : NodeId) (o : Option (RootNode × Bool))
    : Type 0 where
  pub root : RootNode
  pub result : Bool
  pub returns : o ≡ some (root, result)
  pub is_root : IsRoot w root
  pub outcome : DropOutcome t id root result

drop_buckets :
    (counts : ℕ → ℕ) (xor : NodeId) (xs ys : List NodeId)
    → ((j : ℕ) → counts j ≡ tally (in_bucket j) xs)
    → ((test : NodeId → Bool) → tally test xs ≡ tally test ys + tally test (xor ∷ []))
    → (j : ℕ)
    → update counts (leading_zeros (bit_list xor)) (counts (leading_zeros (bit_list xor)) - 1) j
      ≡ tally (in_bucket j) ys
drop_buckets counts xor xs ys h drops j =
    let bucket = leading_zeros (bit_list xor) in
    updated_counts counts xor (counts bucket - 1) j (tally (in_bucket j) ys)
      (λ e. ground (arith, drops (in_bucket j), tally_bucket xor j, h j, ap counts e))
      (λ e. ground (arith, drops (in_bucket j), tally_bucket xor j, h j))

remove_done :
    (w : ℕ) (t : RootNode) (id : NodeId) (m : Node)
    → IsRoot w t
    → IsTree w [] m
    → ((test : NodeId → Bool)
        → held test t ≡ tally test (all_xors m) + tally test (distance t id ∷ []))
    → DropDone w t id (finish_drop t (distance t id) (m, true))
unfolding finish_drop
remove_done w t id m h tree drops =
    let xor = distance t id in
    let bucket = leading_zeros (bit_list xor) in
    record {
      root = record t {
        node = m;
        bucket_counts = update t.bucket_counts bucket (t.bucket_counts bucket - 1);
      };
      result = true;
      returns = rw (bits_lem xor);
      is_root = record {
        origin = h.origin;
        tree = tree;
        buckets = drop_buckets t.bucket_counts xor (all_xors t.node) (all_xors m) h.buckets drops;
        once = λ x. omega (arith, h.once x, drops (is x));
        no_origin = omega (arith, h.no_origin, drops (is (distance t t.base.origin)));
      };
      outcome =
          removed
            (ground (arith, h.buckets bucket, drops (in_bucket bucket), tally_bucket xor bucket))
            refl refl refl drops;
    }

drop_rest-Done :
    (w : ℕ) (t : RootNode) (id : NodeId) (o : Option (Node × Bool))
    → IsRoot w t
    → NodeDrop.Done w [] t.node (distance t id) o
    → DropDone w t id (o >>= (λ new. finish_drop t (distance t id) new))
unfolding finish_drop
drop_rest-Done w t id o h d = go d.outcome
  where
    go :
        NodeDrop.Outcome (distance t id) t.node d.node d.result
        → DropDone w t id (o >>= (λ new. finish_drop t (distance t id) new))
    go (NodeDrop.Outcome.removed e drops) =
        rw (d.returns, e) (remove_done w t id d.node h d.tree drops)
    go (NodeDrop.Outcome.missed e none_there same) =
        rw (d.returns, e)
          (record {
            root = t;
            result = false;
            returns = refl;
            is_root = h;
            outcome = missed none_there refl refl;
          })

-- On a root that keeps its invariant, a drop of an identifier of the root's width returns and
-- keeps the invariant; it answers false and changes nothing where the identifier is not held, and
-- otherwise answers true, removes exactly that identifier, and the count of its bucket was
-- positive before.
pub drop_lem :
    (w : ℕ) (t : RootNode) (id : NodeId) → IsRoot w t → IsId w id → DropDone w t id (drop t id)
unfolding drop
drop_lem w t id h x = rw (must_xor_lem w id t.base.origin x h.origin) (
    drop_rest-Done w t id _ h (
      drop-Done w [] t.node (distance t id) h.tree
        (Fits-root w _ (mask-IsId w id t.base.origin x h.origin))))
