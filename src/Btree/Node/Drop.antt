-- ===== src/Btree/Node/Drop.antt =====
-- `drop` on a well-formed tree.
use hexmagnet.Prelude.{
  ℕ, ◌+◌, ◌≡◌, refl, sym, ap, subst, ◌∙◌, Bool, true, false, Option, some, List, [], ◌∷◌, ◌++◌,
  arith, ◌==◌, if◌then◌else◌, ==_iff, length, Bool-cases, inl, inr, get_elem?, ◌>>=◌, All, All-mono,
}
use hexmagnet.Btree.Bits.{Bit, Bits, NodeId, equals}
use hexmagnet.Btree.Bits.Index.{bit_list}
use hexmagnet.Btree.Bits.Masks.{equals_iff}
use hexmagnet.Btree.Node.{
  Node, BaseNode, empty, leaf, branch, at_bit, all_xors, drop, drop_branch, collapse, only, count,
}
use hexmagnet.Btree.Node.Shape.{
  IsTree, Fits, Fits-snoc, Fits-init, next_bit, tally, tally-append, is, absent, bit_at_path,
  count-all_xors, all_xors-Fits,
}

-- What a drop did: it removed the identifier once, or did not find it.
pub data Outcome (x : NodeId) (n n' : Node) (done : Bool) : Type 0 where
  removed :
      done ≡ true
      → ((test : NodeId → Bool)
          → tally test (all_xors n) ≡ tally test (all_xors n') + tally test (x ∷ []))
      → Outcome x n n' done
  missed : done ≡ false → tally (is x) (all_xors n) ≡ 0 → n' ≡ n → Outcome x n n' done

pub record Done (w : ℕ) (p : Bits) (n : Node) (x : NodeId) (o : Option (Node × Bool)) : Type 0 where
  pub node : Node
  pub result : Bool
  pub returns : o ≡ some (node, result)
  pub tree : IsTree w p node
  pub outcome : Outcome x n node result

tally_none : (test : NodeId → Bool) (xs : List NodeId) → length xs ≡ 0 → tally test xs ≡ 0
unfolding tally
tally_none test [] e = refl
tally_none test (x ∷ xs) e = absurd (omega arith)

only_lem : (xs : List NodeId) → length xs ≡ 1 → (id : NodeId) × (only xs ≡ some id) × (xs ≡ id ∷ [])
unfolding only
only_lem [] e = absurd (omega arith)
only_lem (x ∷ []) e = (x, refl, refl)
only_lem (x ∷ y ∷ xs) e = absurd (omega arith)

module _ (w : ℕ) (p : Bits) (b : BaseNode) (x : NodeId) (n sibling new updated : Node) (c : ℕ)
    (path : b.path ≡ p) (below : All (Fits w p) (all_xors sibling))
    (counted : c ≡ length (all_xors sibling)) (new_counted : count new ≡ length (all_xors new))
    (tree : IsTree w p updated)
    (parts : (test : NodeId → Bool)
      → tally test (all_xors n)
        ≡ tally test (all_xors new) + tally test (all_xors sibling) + tally test (x ∷ []))
    (whole : (test : NodeId → Bool)
      → tally test (all_xors updated)
        ≡ tally test (all_xors new) + tally test (all_xors sibling)) where
  stays : Done w p n x (some (updated, true))
  stays = record {
    node = updated;
    result = true;
    returns = refl;
    tree = tree;
    outcome = removed refl (λ test. omega (arith, parts test, whole test));
  }

  vanishes : count new ≡ 0 → c ≡ 0 → Done w p n x (some (empty b, true))
  unfolding all_xors tally
  vanishes e f = record {
    node = empty b;
    result = true;
    returns = refl;
    tree = path;
    outcome = removed refl (λ test. omega (
      arith,
      parts test,
      tally_none test (all_xors new) (sym new_counted ∙ e),
      tally_none test (all_xors sibling) (sym counted ∙ f),
    ));
  }

  merges :
      count new ≡ 0
      → c ≡ 1
      → Done w p n x (only (all_xors sibling) >>= (λ id. some (leaf b id, true)))
  unfolding all_xors
  merges e f =
      let (id, found, alone) = only_lem (all_xors sibling) (sym counted ∙ f) in
      record {
        node = leaf b id;
        result = true;
        returns = rw found;
        tree = (path, (subst (All (Fits w p)) alone below).0);
        outcome = removed refl (λ test. omega (
          arith,
          parts test,
          tally_none test (all_xors new) (sym new_counted ∙ e),
          ap (tally test) alone,
        ));
      }

  collapse-Done : Done w p n x (collapse b sibling c new updated)
  unfolding collapse
  collapse-Done = elim (Bool-cases (count new == 0)) [
    | inr e ↦ rw e stays
    | inl e ↦ rw e (elim (Bool-cases (c == 0)) [
      | inl f ↦ rw f (vanishes ((==_iff _ _).0 e) ((==_iff _ _).0 f))
      | inr f ↦ rw f (elim (Bool-cases (c == 1)) [
        | inl g ↦ rw g (merges ((==_iff _ _).0 e) ((==_iff _ _).0 g))
        | inr g ↦ rw g stays
      ])
    ])
  ]

-- The branch, once the drop below it is done.
drop_branch-Done :
    (w : ℕ) (p : Bits) (b : BaseNode) (n0 n1 : Node) (c0 c1 : ℕ) (x : NodeId) (bit : Bit) (m : Node)
    (done : Bool)
    → IsTree w p (branch b n0 n1 c0 c1)
    → get_elem? (bit_list x) (length p) ≡ some bit
    → IsTree w (p ++ bit ∷ []) m
    → Outcome x (at_bit bit n0 n1) m done
    → Done w p (branch b n0 n1 c0 c1) x (drop_branch b n0 n1 c0 c1 bit (m, done))
unfolding drop_branch all_xors
drop_branch-Done w p b n0 n1 c0 c1 x bit m false h at t (removed e drops) = absurd (cc)
drop_branch-Done w p b n0 n1 c0 c1 x bit m true h at t (missed e none_there same) = absurd (cc)
drop_branch-Done w p b n0 n1 c0 c1 x false m false h at t (missed e none_there same) = record {
  node = branch b n0 n1 c0 c1;
  result = false;
  returns = refl;
  tree = h;
  outcome =
      missed refl
        (omega
          (arith, tally-append (is x) (all_xors n0) (all_xors n1), absent w p true x n1 h.3 at))
        refl;
}
drop_branch-Done w p b n0 n1 c0 c1 x true m false h at t (missed e none_there same) = record {
  node = branch b n0 n1 c0 c1;
  result = false;
  returns = refl;
  tree = h;
  outcome =
      missed refl
        (omega
          (arith, tally-append (is x) (all_xors n0) (all_xors n1), absent w p false x n0 h.2 at))
        refl;
}
drop_branch-Done w p b n0 n1 c0 c1 x false m true h at t (removed e drops) =
    collapse-Done w p b x (branch b n0 n1 c0 c1) n1 m (branch b m n1 (count m) c1) c1 h.0
      (All-mono (Fits w (p ++ true ∷ [])) (Fits w p) (all_xors n1) (λ id. Fits-init w p id true)
        (all_xors-Fits w (p ++ true ∷ []) n1 h.3))
      (h.5 ∙ count-all_xors w (p ++ true ∷ []) n1 h.3) (count-all_xors w (p ++ false ∷ []) m t)
      (h.0, h.1, t, h.3, refl, h.5)
      (λ test. omega (arith, drops test, tally-append test (all_xors n0) (all_xors n1)))
      (λ test. tally-append test (all_xors m) (all_xors n1))
drop_branch-Done w p b n0 n1 c0 c1 x true m true h at t (removed e drops) =
    collapse-Done w p b x (branch b n0 n1 c0 c1) n0 m (branch b n0 m c0 (count m)) c0 h.0
      (All-mono (Fits w (p ++ false ∷ [])) (Fits w p) (all_xors n0) (λ id. Fits-init w p id false)
        (all_xors-Fits w (p ++ false ∷ []) n0 h.2))
      (h.4 ∙ count-all_xors w (p ++ false ∷ []) n0 h.2) (count-all_xors w (p ++ true ∷ []) m t)
      (h.0, h.1, h.2, t, h.4, refl)
      (λ test. omega (arith, drops test, tally-append test (all_xors n0) (all_xors n1)))
      (λ test. omega (arith, tally-append test (all_xors n0) (all_xors m)))

leaf-Done :
    (w : ℕ) (p : Bits) (b : BaseNode) (id x : NodeId)
    → IsTree w p (leaf b id)
    → Done w p (leaf b id) x (some (if equals id x then (empty b, true) else (leaf b id, false)))
unfolding all_xors tally
leaf-Done w p b id x h = elim (Bool-cases (equals id x)) [
  | inl e ↦ record {
    node = empty b;
    result = true;
    returns = rw e;
    tree = h.0;
    outcome =
        removed refl
          (λ test. omega (arith, ap (λ (t : NodeId). tally test (t ∷ [])) ((equals_iff id x).0 e)));
  }
  | inr e ↦ record {
    node = leaf b id;
    result = false;
    returns = rw e;
    tree = h;
    outcome = missed refl (rw e) refl;
  }
]

pub drop-Done :
    (w : ℕ) (p : Bits) (n : Node) (x : NodeId) → IsTree w p n → Fits w p x → Done w p n x (drop n x)
unfolding drop
drop-Done w p (empty b) x h fits = record {
  node = empty b;
  result = false;
  returns = refl;
  tree = h;
  outcome = missed refl (unfold all_xors tally in refl) refl;
}
drop-Done w p (leaf b id) x h fits = leaf-Done w p b id x h
drop-Done w p (branch b n0 n1 c0 c1) x h fits =
    let (bit, at) = next_bit w p x fits h.1 in
    go bit at (drop-Done w (p ++ false ∷ []) n0 x h.2) (drop-Done w (p ++ true ∷ []) n1 x h.3)
  where
    go :
        (bit : Bit)
        → get_elem? (bit_list x) (length p) ≡ some bit
        → (Fits w (p ++ false ∷ []) x → Done w (p ++ false ∷ []) n0 x (drop n0 x))
        → (Fits w (p ++ true ∷ []) x → Done w (p ++ true ∷ []) n1 x (drop n1 x))
        → Done w p (branch b n0 n1 c0 c1) x (drop (branch b n0 n1 c0 c1) x)
    go false at d0 d1 =
        let d = d0 (Fits-snoc w p x false fits at) in
        rw (bit_at_path w p b n0 n1 c0 c1 x false h at, d.returns)
          (drop_branch-Done w p b n0 n1 c0 c1 x false d.node d.result h at d.tree d.outcome)
    go true at d0 d1 =
        let d = d1 (Fits-snoc w p x true fits at) in
        rw (bit_at_path w p b n0 n1 c0 c1 x true h at, d.returns)
          (drop_branch-Done w p b n0 n1 c0 c1 x true d.node d.result h at d.tree d.outcome)
