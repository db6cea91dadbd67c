-- ===== src/Btree/Root/Invariant.antt =====
-- The invariant of the root: a well-formed tree of single identifiers, other than the origin, and
-- buckets that count them.
use hexmagnet.Prelude.{
  ℕ, ◌≤◌, ◌≡◌, refl, ◌≢◌, Bool, true, false, [], ◌∷◌, arith, ◌==◌, ==_iff, if◌then◌else◌,
  Bool-cases, inl, inr,
}
use hexmagnet.Btree.Bits.{NodeId, leading_zeros}
use hexmagnet.Btree.Bits.Index.{bit_list}
use hexmagnet.Btree.Bits.Masks.{IsId, mask}
use hexmagnet.Btree.Node.{all_xors}
use hexmagnet.Btree.Node.Shape.{IsTree, tally, is}
use hexmagnet.Btree.Root.{RootNode, update, new}

abbrev pub in_bucket : ℕ → NodeId → Bool
in_bucket bucket xor = leading_zeros (bit_list xor) == bucket

-- The distance from the origin.
abbrev pub distance : RootNode → NodeId → NodeId
distance t id = mask id t.base.origin

-- How often the tree holds what passes a test on the distance.
abbrev pub held : (NodeId → Bool) → RootNode → ℕ
held test t = tally test (all_xors t.node)

pub record IsRoot (w : ℕ) (t : RootNode) : Type 0 where
  pub origin : IsId w t.base.origin
  pub tree : IsTree w [] t.node
  pub buckets : (bucket : ℕ) → t.bucket_counts bucket ≡ held (in_bucket bucket) t
  pub once : (x : NodeId) → held (is x) t ≤ 1
  pub no_origin : held (is (distance t t.base.origin)) t ≡ 0

pub new-IsRoot :
    (w : ℕ) (origin : NodeId) (k : ℕ) (splitting : Bool)
    → IsId w origin
    → IsRoot w (new origin k splitting)
unfolding new all_xors tally
new-IsRoot w origin k splitting h = record {
  origin = h;
  tree = refl;
  buckets = λ _. refl;
  once = λ _. omega arith;
  no_origin = refl;
}

-- One more, or one less, in the bucket of an identifier.
pub updated_counts :
    (counts : ℕ → ℕ) (xor : NodeId) (value j a : ℕ)
    → (leading_zeros (bit_list xor) ≡ j → value ≡ a)
    → (leading_zeros (bit_list xor) ≢ j → counts j ≡ a)
    → update counts (leading_zeros (bit_list xor)) value j ≡ a
updated_counts counts xor value j a f g = elim (Bool-cases (leading_zeros (bit_list xor) == j)) [
  | inl e ↦ rw e (f ((==_iff _ _).0 e))
  | inr e ↦ rw e (g (λ p. clash ((==_iff _ _).1 p) e))
]
  where
    clash : {b : Bool} → b ≡ true → b ≡ false → ⊥
    clash p q = cc

pub tally_bucket :
    (xor : NodeId) (j : ℕ)
    → tally (in_bucket j) (xor ∷ []) ≡ (if leading_zeros (bit_list xor) == j then 1 else 0)
unfolding tally
tally_bucket xor j = omega arith
