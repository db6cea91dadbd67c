-- ===== src/Btree/Node/Closer.antt =====
-- `count_closer_than_subpath`, whose leaf case compares the bits the other way round.
use hexmagnet.Prelude.{
  ℕ, suc, ◌+◌, ◌*◌, ◌≤◌, ◌≡◌, refl, ap, ◌∙◌, true, false, some, [], ◌∷◌, ◌++◌, arith, length,
  length-append, get_elem?, Option,
}
use hexmagnet.Btree.Bits.{Bit, Bits, NodeId, get_bit}
use hexmagnet.Btree.Bits.Index.{bit_list, length-bit_list, get_bit-bit_list}
use hexmagnet.Btree.Node.{
  BaseNode, Node, empty, leaf, branch, count, leaf_loop, count_closer_than_subpath,
}
use hexmagnet.Btree.Node.Shape.{IsTree, some_bit}

-- A count that returns, and at most `m`.
pub record Counts (m : ℕ) (o : Option ℕ) : Type 0 where
  pub value : ℕ
  pub returns : o ≡ some value
  pub bound : value ≤ m

leaf_loop-Counts :
    (w : ℕ) (b : BaseNode) (id : NodeId) (path : Bits) (i : ℕ)
    → length (bit_list id) ≡ w
    → i + length b.path + length path ≤ w
    → Counts 1 (leaf_loop b id i path)
unfolding leaf_loop
leaf_loop-Counts w b id [] i e h = record { value = 1; returns = refl; bound = omega arith }
leaf_loop-Counts w b id (false ∷ path) i e h = leaf_loop-Counts w b id path (i + 1) e (omega arith)
leaf_loop-Counts w b id (true ∷ path) i e h =
    let (own, at) = some_bit (bit_list id) (i + length b.path) (omega arith) in
    go own (get_bit-bit_list id (i + length b.path) ∙ at)
      (leaf_loop-Counts w b id path (i + 1) e (omega arith))
  where
    go :
        (own : Bit)
        → get_bit id (i + length b.path) ≡ some own
        → Counts 1 (leaf_loop b id (i + 1) path)
        → Counts 1 (leaf_loop b id i (true ∷ path))
    go false g ih = rw g (record { value = 0; returns = refl; bound = omega arith })
    go true g ih = rw g ih

-- On a path that goes on for no more bits than an identifier has, the count returns, and counts no
-- more than the tree has.
pub closer-Counts :
    (w : ℕ) (p : Bits) (n : Node) (path : Bits)
    → IsTree w p n
    → length p + length path ≤ w * 8
    → Counts (count n) (count_closer_than_subpath n path)
unfolding count count_closer_than_subpath
closer-Counts w p (empty b) path h l = record { value = 0; returns = refl; bound = omega arith }
closer-Counts w p (leaf b id) path h l =
    leaf_loop-Counts (w * 8) b id path 0
      (omega (arith, length-bit_list id, ap (λ (t : ℕ). t * 8) h.1.is_id.width))
      (omega (arith, ap length h.0))
closer-Counts w p (branch b n0 n1 c0 c1) [] h l = record {
  value = 0;
  returns = refl;
  bound = omega arith;
}
closer-Counts w p (branch b n0 n1 c0 c1) (false ∷ []) h l = record {
  value = c0;
  returns = refl;
  bound = omega arith;
}
closer-Counts w p (branch b n0 n1 c0 c1) (true ∷ []) h l = record {
  value = c0 + c1;
  returns = refl;
  bound = omega arith;
}
closer-Counts w p (branch b n0 n1 c0 c1) (false ∷ x ∷ path) h l =
    let c =
      closer-Counts w (p ++ false ∷ []) n0 (x ∷ path) h.2
        (omega (arith, length-append p (false ∷ []))) in
    record { value = c.value; returns = c.returns; bound = omega (arith, c.bound, h.4) }
closer-Counts w p (branch b n0 n1 c0 c1) (true ∷ x ∷ path) h l =
    let c =
      closer-Counts w (p ++ true ∷ []) n1 (x ∷ path) h.3
        (omega (arith, length-append p (true ∷ []))) in
    record { value = c0 + c.value; returns = rw c.returns; bound = omega (arith, c.bound, h.5) }

read_bit :
    (b : BaseNode) (id : NodeId) (i : ℕ) (bit : Bit)
    → get_elem? (bit_list id) (i + length b.path + 0) ≡ some bit
    → get_bit id (i + length b.path) ≡ some bit
read_bit b id i bit e =
    get_bit-bit_list id (i + length b.path) ∙ ap (get_elem? (bit_list id)) (omega arith) ∙ e

next_read :
    (b : BaseNode) (id : NodeId) (i j : ℕ)
    → get_elem? (bit_list id) (i + 1 + length b.path + j)
      ≡ get_elem? (bit_list id) (i + length b.path + suc j)
next_read b id i j = ap (get_elem? (bit_list id)) (omega arith)

-- The loop over the part of the path that the identifier shares.
leaf_loop_shared :
    (b : BaseNode) (id : NodeId) (q rest : Bits) (i : ℕ) (ys : Bits)
    → ((j : ℕ) → get_elem? (bit_list id) (i + length b.path + j) ≡ get_elem? (q ++ false ∷ ys) j)
    → leaf_loop b id i (q ++ true ∷ rest) ≡ some 0
unfolding leaf_loop
leaf_loop_shared b id [] rest i ys h = rw (read_bit b id i false (h 0)) refl
leaf_loop_shared b id (false ∷ q) rest i ys h =
    leaf_loop_shared b id q rest (i + 1) ys (λ j. next_read b id i j ∙ h (suc j))
leaf_loop_shared b id (true ∷ q) rest i ys h =
    rw (read_bit b id i true (h 0))
      (leaf_loop_shared b id q rest (i + 1) ys (λ j. next_read b id i j ∙ h (suc j)))

get_elem?-append : (p zs : Bits) (j : ℕ) → get_elem? (p ++ zs) (length p + j) ≡ get_elem? zs j
get_elem?-append [] zs j = ap (get_elem? zs) (omega arith)
get_elem?-append (x ∷ p) zs j =
    let e : suc (length p) + j ≡ suc (length p + j) = omega arith in rw e (get_elem?-append p zs j)

-- A leaf is counted as not closer than a path wherever it is strictly closer: if its bits below
-- its own path agree with the path up to a place where the path has 1 and the leaf has 0, the
-- count is 0.
pub closer-leaf :
    (b : BaseNode) (id : NodeId) (q rest ys : Bits)
    → bit_list id ≡ b.path ++ (q ++ false ∷ ys)
    → count_closer_than_subpath (leaf b id) (q ++ true ∷ rest) ≡ some 0
unfolding count_closer_than_subpath
closer-leaf b id q rest ys e = leaf_loop_shared b id q rest 0 ys (λ j.
    ap (get_elem? (bit_list id)) (omega arith)
    ∙ ap (λ (l : Bits). get_elem? l (length b.path + j)) e
    ∙ get_elem?-append b.path (q ++ false ∷ ys) j)
