-- ===== src/Btree/Node/Put.antt =====
-- `put` on a well-formed tree.
use hexmagnet.Prelude.{
  ℕ, zero, suc, ◌+◌, ◌*◌, ◌≤◌, ◌<◌, ◌≡◌, refl, ap, subst, ◌∙◌, Bool, true, false, Option, some,
  List, [], ◌∷◌, ◌++◌, arith, length, Bool-cases, inl, inr, get_elem?, length-append,
}
use native.Mathlib.Decide.{dec_lt}
use hexmagnet.Btree.Bits.{
  Bit, Bits, NodeId, equals, get_bit, PutResult, rejected, accepted, already_exists, append_to_path,
}
use hexmagnet.Btree.Bits.Index.{bit_list, get_bit-bit_list}
use hexmagnet.Btree.Bits.Masks.{equals_iff}
use hexmagnet.Btree.Node.{
  Node, BaseNode, empty, leaf, branch, at_bit, all_xors, put, put_branch, init_node, count,
}
use hexmagnet.Btree.Node.Shape.{
  IsTree, Fits-length, bit_at_path, Fits, Fits-snoc, Fits-eq, next_bit, tally, tally-append, is,
  absent,
}

-- What a put did: it added the identifier, which was not there, or found it there.
pub data Outcome (x : NodeId) (n n' : Node) (r : PutResult) : Type 0 where
  added :
      r ≡ accepted
      → tally (is x) (all_xors n) ≡ 0
      → ((test : NodeId → Bool)
          → tally test (all_xors n') ≡ tally test (all_xors n) + tally test (x ∷ []))
      → Outcome x n n' r
  kept : r ≡ already_exists → 0 < tally (is x) (all_xors n) → n' ≡ n → Outcome x n n' r

pub record Done (w : ℕ) (p : Bits) (n : Node) (x : NodeId) (o : Option (Node × PutResult))
    : Type 0 where
  pub node : Node
  pub result : PutResult
  pub returns : o ≡ some (node, result)
  pub tree : IsTree w p node
  pub outcome : Outcome x n node result

-- The branch, once the put below it is done.
put_branch-Done :
    (w : ℕ) (p : Bits) (b : BaseNode) (n0 n1 : Node) (c0 c1 : ℕ) (x : NodeId) (bit : Bit) (m : Node)
    (r : PutResult)
    → IsTree w p (branch b n0 n1 c0 c1)
    → get_elem? (bit_list x) (length p) ≡ some bit
    → IsTree w (p ++ bit ∷ []) m
    → Outcome x (at_bit bit n0 n1) m r
    → Done w p (branch b n0 n1 c0 c1) x (some (put_branch b n0 n1 c0 c1 bit (m, r)))
unfolding put_branch all_xors
put_branch-Done w p b n0 n1 c0 c1 x false m accepted h at t (added e none_yet adds) = record {
  node = branch b m n1 (count m) c1;
  result = accepted;
  returns = refl;
  tree = (h.0, h.1, t, h.3, refl, h.5);
  outcome =
      added refl
        (omega
          (arith, tally-append (is x) (all_xors n0) (all_xors n1), absent w p true x n1 h.3 at))
        (λ test. omega (
          arith,
          adds test,
          tally-append test (all_xors n0) (all_xors n1),
          tally-append test (all_xors m) (all_xors n1),
        ));
}
put_branch-Done w p b n0 n1 c0 c1 x true m accepted h at t (added e none_yet adds) = record {
  node = branch b n0 m c0 (count m);
  result = accepted;
  returns = refl;
  tree = (h.0, h.1, h.2, t, h.4, refl);
  outcome =
      added refl
        (omega
          (arith, tally-append (is x) (all_xors n0) (all_xors n1), absent w p false x n0 h.2 at))
        (λ test. omega (
          arith,
          adds test,
          tally-append test (all_xors n0) (all_xors n1),
          tally-append test (all_xors n0) (all_xors m),
        ));
}
put_branch-Done w p b n0 n1 c0 c1 x bit m rejected h at t (added e none_yet adds) = absurd (cc)
put_branch-Done w p b n0 n1 c0 c1 x bit m already_exists h at t (added e none_yet adds) =
    absurd (cc)
put_branch-Done w p b n0 n1 c0 c1 x bit m accepted h at t (kept e there same) = absurd (cc)
put_branch-Done w p b n0 n1 c0 c1 x bit m rejected h at t (kept e there same) = absurd (cc)
put_branch-Done w p b n0 n1 c0 c1 x false m already_exists h at t (kept e there same) = record {
  node = branch b n0 n1 c0 c1;
  result = already_exists;
  returns = refl;
  tree = h;
  outcome = kept refl (omega (arith, tally-append (is x) (all_xors n0) (all_xors n1))) refl;
}
put_branch-Done w p b n0 n1 c0 c1 x true m already_exists h at t (kept e there same) = record {
  node = branch b n0 n1 c0 c1;
  result = already_exists;
  returns = refl;
  tree = h;
  outcome = kept refl (omega (arith, tally-append (is x) (all_xors n0) (all_xors n1))) refl;
}

at_bit-IsTree :
    (w : ℕ) (p : Bits) (n0 n1 : Node) (bit : Bit)
    → IsTree w (p ++ false ∷ []) n0
    → IsTree w (p ++ true ∷ []) n1
    → IsTree w (p ++ bit ∷ []) (at_bit bit n0 n1)
at_bit-IsTree w p n0 n1 false h k = h
at_bit-IsTree w p n0 n1 true h k = k

-- One level, given what the put below does.
put_level :
    (fuel w : ℕ) (p : Bits) (b : BaseNode) (n0 n1 : Node) (c0 c1 : ℕ) (x : NodeId)
    → IsTree w p (branch b n0 n1 c0 c1)
    → Fits w p x
    → ((bit : Bit)
        → get_elem? (bit_list x) (length p) ≡ some bit
        → Done w (p ++ bit ∷ []) (at_bit bit n0 n1) x (put fuel (at_bit bit n0 n1) x))
    → Done w p (branch b n0 n1 c0 c1) x (put (suc fuel) (branch b n0 n1 c0 c1) x)
unfolding put
put_level fuel w p b n0 n1 c0 c1 x h fits below =
    let (bit, at) = next_bit w p x fits h.1 in
    let d = below bit at in
    rw (bit_at_path w p b n0 n1 c0 c1 x bit h at, d.returns)
      (put_branch-Done w p b n0 n1 c0 c1 x bit d.node d.result h at d.tree d.outcome)

empty-Done :
    (w : ℕ) (p : Bits) (b : BaseNode) (x : NodeId)
    → b.path ≡ p
    → Fits w p x
    → Done w p (empty b) x (some (leaf b x, accepted))
unfolding all_xors tally
empty-Done w p b x h fits = record {
  node = leaf b x;
  result = accepted;
  returns = refl;
  tree = (h, fits);
  outcome = added refl refl (λ test. omega arith);
}

-- What replaces the leaf, and its identifier in it.
fresh_branch : BaseNode → NodeId → Bit → Node
unfolding put_branch init_node
fresh_branch b id bit =
    let base = λ (k : Bit).
      let r : BaseNode = record { origin = b.origin; bit = k; path = append_to_path b.path k } in
      r in
    (put_branch b (empty (base false)) (empty (base true)) 0 0 bit (leaf (base bit) id, accepted)).0

put_init :
    (fuel w : ℕ) (p : Bits) (b : BaseNode) (id : NodeId) (bit : Bit)
    → b.path ≡ p
    → get_elem? (bit_list id) (length p) ≡ some bit
    → put (suc (suc fuel)) (init_node b) id ≡ some (fresh_branch b id bit, accepted)
unfolding put fresh_branch
put_init fuel w p b id false e at =
    rw (ap (λ (t : Bits). get_bit id (length t)) e ∙ get_bit-bit_list id (length p) ∙ at)
put_init fuel w p b id true e at =
    rw (ap (λ (t : Bits). get_bit id (length t)) e ∙ get_bit-bit_list id (length p) ∙ at)

fresh_branch-IsTree :
    (w : ℕ) (p : Bits) (b : BaseNode) (id : NodeId) (bit : Bit)
    → b.path ≡ p
    → length p < w * 8
    → Fits w (p ++ bit ∷ []) id
    → IsTree w p (fresh_branch b id bit)
unfolding fresh_branch append_to_path count
fresh_branch-IsTree w p b id false e l fits = (
  e,
  l,
  (ap (λ (t : Bits). t ++ false ∷ []) e, fits),
  ap (λ (t : Bits). t ++ true ∷ []) e,
  refl,
  refl,
)
fresh_branch-IsTree w p b id true e l fits = (
  e,
  l,
  ap (λ (t : Bits). t ++ false ∷ []) e,
  (ap (λ (t : Bits). t ++ true ∷ []) e, fits),
  refl,
  refl,
)

all_xors-fresh_branch :
    (b : BaseNode) (id : NodeId) (bit : Bit) → all_xors (fresh_branch b id bit) ≡ id ∷ []
unfolding fresh_branch all_xors
all_xors-fresh_branch b id false = refl
all_xors-fresh_branch b id true = refl

fresh_level :
    (fuel w : ℕ) (p : Bits) (b : BaseNode) (id x : NodeId) (bit : Bit)
    → IsTree w p (fresh_branch b id bit)
    → Fits w p x
    → ((k : Bit) (m : Node)
        → IsTree w (p ++ k ∷ []) m
        → get_elem? (bit_list x) (length p) ≡ some k
        → Done w (p ++ k ∷ []) m x (put fuel m x))
    → Done w p (fresh_branch b id bit) x (put (suc fuel) (fresh_branch b id bit) x)
unfolding fresh_branch
fresh_level fuel w p b id x false h fits below =
    put_level fuel w p b _ _ _ _ x h fits (λ k at. below k _ (at_bit-IsTree w p _ _ k h.2 h.3) at)
fresh_level fuel w p b id x true h fits below =
    put_level fuel w p b _ _ _ _ x h fits (λ k at. below k _ (at_bit-IsTree w p _ _ k h.2 h.3) at)

-- What is added to the fresh branch is added to the leaf.
split-Outcome :
    (b : BaseNode) (id x : NodeId) (bit : Bit) (m : Node) (r : PutResult)
    → equals id x ≡ false
    → Outcome x (fresh_branch b id bit) m r
    → Outcome x (leaf b id) m r
unfolding all_xors tally
split-Outcome b id x bit m r differ (added e none_yet adds) = added e (rw differ) (λ test.
    adds test
    ∙ ap (λ (l : List NodeId). tally test l + tally test (x ∷ [])) (all_xors-fresh_branch b id bit))
split-Outcome b id x bit m r differ (kept e there same) = absurd (
    lone differ
      (subst (λ (l : List NodeId). 0 < tally (is x) l) (all_xors-fresh_branch b id bit) there))
  where
    lone : equals id x ≡ false → 0 < tally (is x) (id ∷ []) → ⊥
    lone e h = ground arith

split-Done :
    (fuel w : ℕ) (p : Bits) (b : BaseNode) (id x : NodeId) (bit : Bit)
    → equals id x ≡ false
    → b.path ≡ p
    → get_elem? (bit_list id) (length p) ≡ some bit
    → Done w p (fresh_branch b id bit) x (put (suc (suc fuel)) (fresh_branch b id bit) x)
    → Done w p (leaf b id) x (put (suc (suc (suc fuel))) (leaf b id) x)
unfolding put
split-Done fuel w p b id x bit differ e at d = record {
  node = d.node;
  result = d.result;
  returns = rw (differ, put, put_init fuel w p b id bit e at) d.returns;
  tree = d.tree;
  outcome = split-Outcome b id x bit d.node d.result differ d.outcome;
}

found-Done :
    (w : ℕ) (p : Bits) (b : BaseNode) (id x : NodeId)
    → equals id x ≡ true
    → IsTree w p (leaf b id)
    → Done w p (leaf b id) x (some (leaf b id, already_exists))
unfolding all_xors tally
found-Done w p b id x e h = record {
  node = leaf b id;
  result = already_exists;
  returns = refl;
  tree = h;
  outcome = kept refl (rw e (omega arith)) refl;
}

-- A leaf with another identifier stands above the last level.
leaf_above :
    (w : ℕ) (p : Bits) (b : BaseNode) (id x : NodeId)
    → equals id x ≡ false
    → IsTree w p (leaf b id)
    → Fits w p x
    → length p < w * 8
leaf_above w p b id x differ h fits = elim (dec_lt (length p) (w * 8)) [
  | yes l ↦ l
  | no l ↦ absurd (clash ((equals_iff id x).1 (Fits-eq w p id x h.1 fits (omega arith))))
]
  where
    clash : equals id x ≡ true → ⊥
    clash e = cc

leaf-Done :
    (fuel w : ℕ) (p : Bits) (b : BaseNode) (id x : NodeId)
    → equals id x ≡ false
    → IsTree w p (leaf b id)
    → Fits w p x
    → ((k : Bit) (m : Node)
        → IsTree w (p ++ k ∷ []) m
        → get_elem? (bit_list x) (length p) ≡ some k
        → Done w (p ++ k ∷ []) m x (put (suc fuel) m x))
    → Done w p (leaf b id) x (put (suc (suc (suc fuel))) (leaf b id) x)
leaf-Done fuel w p b id x differ h fits below =
    let above = leaf_above w p b id x differ h fits in
    let (bit, at) = next_bit w p id h.1 above in
    let fresh = fresh_branch-IsTree w p b id bit h.0 above (Fits-snoc w p id bit h.1 at) in
    split-Done fuel w p b id x bit differ h.0 at
      (fresh_level (suc fuel) w p b id x bit fresh fits below)

-- With this much fuel `put` neither runs out nor panics.
abbrev pub Enough : ℕ → ℕ → Bits → Type 0
Enough fuel w p = w * 16 + 2 ≤ fuel + 2 * length p

Enough-snoc :
    (fuel w : ℕ) (p : Bits) (k : Bit) → Enough (suc fuel) w p → Enough fuel w (p ++ k ∷ [])
Enough-snoc fuel w p k h = omega (arith, length-append p (k ∷ []))

Enough-snoc_twice :
    (fuel w : ℕ) (p : Bits) (k : Bit) → Enough (suc (suc fuel)) w p → Enough fuel w (p ++ k ∷ [])
Enough-snoc_twice fuel w p k h = omega (arith, length-append p (k ∷ []))

leaf_cases :
    (fuel w : ℕ) (p : Bits) (b : BaseNode) (id x : NodeId)
    → IsTree w p (leaf b id)
    → (equals id x ≡ false → Done w p (leaf b id) x (put (suc fuel) (leaf b id) x))
    → Done w p (leaf b id) x (put (suc fuel) (leaf b id) x)
unfolding put
leaf_cases fuel w p b id x h other = elim (Bool-cases (equals id x)) [
  | inl same ↦ rw (same, put) (found-Done w p b id x same h)
  | inr differ ↦ other differ
]

low_fuel :
    (fuel w : ℕ) (p : Bits) (b : BaseNode) (id x : NodeId)
    → fuel ≤ 3
    → IsTree w p (leaf b id)
    → Fits w p x
    → Enough fuel w p
    → equals id x ≡ false
    → ⊥
low_fuel fuel w p b id x l h fits e differ = omega (arith, leaf_above w p b id x differ h fits)

-- On a well-formed tree below a path, with fuel of two for each bit that is left and two more, a
-- put of an identifier below that path returns a well-formed tree, which has the identifier added
-- if it was not there and is unchanged if it was.
pub put-Done :
    (fuel w : ℕ) (p : Bits) (n : Node) (x : NodeId)
    → IsTree w p n
    → Fits w p x
    → Enough fuel w p
    → Done w p n x (put fuel n x)
unfolding put
put-Done zero w p n x h fits e = absurd (omega (arith, Fits-length w p x fits))
put-Done (suc zero) w p (leaf b id) x h fits e =
    leaf_cases 0 w p b id x h
      (λ differ. absurd (low_fuel 1 w p b id x (omega arith) h fits e differ))
put-Done (suc (suc zero)) w p (leaf b id) x h fits e =
    leaf_cases 1 w p b id x h
      (λ differ. absurd (low_fuel 2 w p b id x (omega arith) h fits e differ))
put-Done (suc (suc (suc fuel))) w p (leaf b id) x h fits e =
    leaf_cases (suc (suc fuel)) w p b id x h (λ differ.
      leaf-Done fuel w p b id x differ h fits (λ k m t at.
        put-Done (suc fuel) w (p ++ k ∷ []) m x t (Fits-snoc w p x k fits at)
          (Enough-snoc_twice (suc fuel) w p k e)))
put-Done (suc fuel) w p (empty b) x h fits e = empty-Done w p b x h fits
put-Done (suc fuel) w p (branch b n0 n1 c0 c1) x h fits e =
    put_level fuel w p b n0 n1 c0 c1 x h fits (λ k at.
      put-Done fuel w (p ++ k ∷ []) (at_bit k n0 n1) x (at_bit-IsTree w p n0 n1 k h.2 h.3)
        (Fits-snoc w p x k fits at) (Enough-snoc fuel w p k e))
