-- ===== src/Btree/Node/Has.antt =====
-- `has` against the identifiers of the tree.
use hexmagnet.Prelude.{
  ℕ, ◌≡◌, refl, true, false, some, [], ◌∷◌, ◌++◌, arith, ltb, length, Bool-cases, inl, inr,
  get_elem?,
}
use hexmagnet.Btree.Bits.{Bit, Bits, NodeId, equals}
use hexmagnet.Btree.Bits.Index.{bit_list, get_bit-bit_list}
use hexmagnet.Btree.Node.{Node, empty, leaf, branch, has, all_xors}
use hexmagnet.Btree.Node.Shape.{IsTree, Fits, Fits-snoc, next_bit, tally, tally-append, is, absent}

-- A well-formed tree's `has` returns, and says whether the identifier is among those of the tree.
pub has-tally :
    (w : ℕ) (p : Bits) (n : Node) (x : NodeId)
    → IsTree w p n
    → Fits w p x
    → has n x ≡ some (ltb 0 (tally (is x) (all_xors n)))
unfolding has all_xors tally
has-tally w p (empty b) x h fits = refl
has-tally w p (leaf b id) x h fits = elim (Bool-cases (equals id x)) [ inl e ↦ rw e | inr e ↦ rw e ]
has-tally w p (branch b n0 n1 c0 c1) x h fits =
    let (bit, at) = next_bit w p x fits h.1 in
    go bit at (λ e. has-tally w (p ++ false ∷ []) n0 x h.2 (Fits-snoc w p x false fits e))
      (λ e. has-tally w (p ++ true ∷ []) n1 x h.3 (Fits-snoc w p x true fits e))
  where
    go :
        (bit : Bit)
        → get_elem? (bit_list x) (length p) ≡ some bit
        → (get_elem? (bit_list x) (length p) ≡ some false
            → has n0 x ≡ some (ltb 0 (tally (is x) (all_xors n0))))
        → (get_elem? (bit_list x) (length p) ≡ some true
            → has n1 x ≡ some (ltb 0 (tally (is x) (all_xors n1))))
        → has (branch b n0 n1 c0 c1) x ≡ some (ltb 0 (tally (is x) (all_xors n0 ++ all_xors n1)))
    go false at ih0 ih1 =
        rw
          (
            h.0,
            get_bit-bit_list x (length p),
            at,
            ih0 at,
            tally-append (is x) (all_xors n0) (all_xors n1),
            absent w p true x n1 h.3 at,
          )
          (ground arith)
    go true at ih0 ih1 =
        rw
          (
            h.0,
            get_bit-bit_list x (length p),
            at,
            ih1 at,
            tally-append (is x) (all_xors n0) (all_xors n1),
            absent w p false x n0 h.2 at,
          )
          (ground arith)
