-- ===== src/Btree/Root/Members.antt =====
-- The tree as a set of identifiers: what `has` answers after a put and a drop, and what `closest`
-- returns.
use hexmagnet.Prelude.{
  ℕ, ◌+◌, ◌≤◌, ◌≡◌, sym, ap, ◌∙◌, Bool, true, false, some, [], ◌∷◌, arith, ltb, if◌then◌else◌,
  Bool-cases, some_pair, inl, inr,
}
use hexmagnet.Btree.Bits.{NodeId, PutResult, accepted, equals}
use hexmagnet.Btree.Bits.Masks.{IsId, mask, mask-IsId, mask-mask, must_xor_lem, equals_iff}
use hexmagnet.Btree.Node.Shape.{Fits-root, tally, is}
use hexmagnet.Btree.Node.Has.{has-tally}
use hexmagnet.Btree.Root.{RootNode, put, drop, has}
use hexmagnet.Btree.Root.Invariant.{distance, held, IsRoot}
use hexmagnet.Btree.Root.Put.{PutOutcome, own, present, full, added, put_lem}
use hexmagnet.Btree.Root.Drop.{DropOutcome, missed, removed, drop_lem}

module _ (w : ℕ) (t : RootNode) (h : IsRoot w t) where
  -- `has` asks for the identifier's distance.
  pub has-held : (id : NodeId) → IsId w id → has t id ≡ some (ltb 0 (held (is (distance t id)) t))
  unfolding has
  has-held id x = rw (must_xor_lem w id t.base.origin x h.origin) (
      has-tally w [] t.node (distance t id) h.tree
        (Fits-root w _ (mask-IsId w id t.base.origin x h.origin)))

  -- Two identifiers are at one distance only if they are the same.
  distance_injective :
      (id j : NodeId) → IsId w id → IsId w j → equals (distance t id) (distance t j) ≡ equals id j
  distance_injective id j x y = elim (Bool-cases (equals id j)) [
    | inl e ↦ rw e ((equals_iff _ _).1 (ap (distance t) ((equals_iff id j).0 e)))
    | inr e ↦ elim (Bool-cases (equals (distance t id) (distance t j))) [
      | inr f ↦ rw (e, f)
      | inl f ↦ absurd (
          clash e (
            (equals_iff id j).1 (
              sym (mask-mask w id t.base.origin x h.origin)
              ∙ ap (λ (d : NodeId). mask d t.base.origin) ((equals_iff _ _).0 f)
              ∙ mask-mask w j t.base.origin y h.origin)))
    ]
  ]
    where
      clash : {b : Bool} → b ≡ false → b ≡ true → ⊥
      clash p q = cc

tally_lone : (x y : NodeId) → tally (is y) (x ∷ []) ≡ (if equals x y then 1 else 0)
unfolding tally
tally_lone x y = omega arith

-- An accepted put, in terms of what the tree holds.
put-held :
    (w : ℕ) (t t' : RootNode) (id j : NodeId)
    → IsRoot w t
    → IsId w id
    → IsId w j
    → put t id ≡ some (t', accepted)
    → IsRoot w t'
      × (t'.base ≡ t.base)
      × (held (is (distance t j)) t' ≡ held (is (distance t j)) t + (if equals id j then 1 else 0))
put-held w t t' id j h x y e =
    let d = put_lem w t id h x in
    let (same, result) = some_pair t' d.root accepted d.result e d.returns in
    go d.root d.result d.is_root same result d.outcome
  where
    go :
        (m : RootNode) (r : PutResult)
        → IsRoot w m
        → t' ≡ m
        → accepted ≡ r
        → PutOutcome t id m r
        → IsRoot w t'
          × (t'.base ≡ t.base)
          × (held (is (distance t j)) t'
              ≡ held (is (distance t j)) t + (if equals id j then 1 else 0))
    go m r k same q (own _ f _) = absurd (cc)
    go m r k same q (present _ f _) = absurd (cc)
    go m r k same q (full _ _ f _) = absurd (cc)
    go m r k same q (added none_yet room f base _ adds) = rw same (
        (
          k,
          base,
          omega (
            arith,
            adds (is (distance t j)),
            tally_lone (distance t id) (distance t j),
            ap {B = ℕ} (λ (b : Bool). if b then 1 else 0) (distance_injective w t h id j x y),
          ),
        ))

-- After an accepted put on a root that keeps its invariant, the tree has the identifier that was
-- put, and any other identifier exactly if it had it before.
pub has-put :
    (w : ℕ) (t t' : RootNode) (id j : NodeId)
    → IsRoot w t
    → IsId w id
    → IsId w j
    → put t id ≡ some (t', accepted)
    → has t' j ≡ (if equals id j then some true else has t j)
has-put w t t' id j h x y e =
    let (k, base, grown) = put-held w t t' id j h x y e in
    has-held w t' k j y
    ∙ ap (λ b. some (ltb 0 (held (is (mask j b.origin)) t'))) base
    ∙ answer grown
    ∙ sym (ap (λ r. if equals id j then some true else r) (has-held w t h j y))
  where
    answer :
        held (is (distance t j)) t' ≡ held (is (distance t j)) t + (if equals id j then 1 else 0)
        → some (ltb 0 (held (is (distance t j)) t'))
          ≡ (if equals id j then some true else some (ltb 0 (held (is (distance t j)) t)))
    answer g = ground arith

-- After a drop that answered true on a root that keeps its invariant, the tree does not have the
-- identifier that was dropped, and any other identifier exactly if it had it before.
pub has-drop :
    (w : ℕ) (t t' : RootNode) (id j : NodeId)
    → IsRoot w t
    → IsId w id
    → IsId w j
    → drop t id ≡ some (t', true)
    → has t' j ≡ (if equals id j then some false else has t j)
has-drop w t t' id j h x y e =
    let d = drop_lem w t id h x in
    let (same, result) = some_pair t' d.root true d.result e d.returns in
    go d.root d.result d.is_root same result d.outcome
  where
    answer :
        (m : RootNode)
        → held (is (distance t j)) t ≡ held (is (distance t j)) m + (if equals id j then 1 else 0)
        → held (is (distance t j)) t ≤ 1
        → some (ltb 0 (held (is (distance t j)) m))
          ≡ (if equals id j then some false else some (ltb 0 (held (is (distance t j)) t)))
    answer g l = ground arith

    go :
        (m : RootNode) (r : Bool)
        → IsRoot w m
        → t' ≡ m
        → true ≡ r
        → DropOutcome t id m r
        → has t' j ≡ (if equals id j then some false else has t j)
    go m r k same q (missed _ f _) = absurd (cc)
    go m r k same q (removed _ f base _ drops) = rw same (
        has-held w m k j y
        ∙ ap (λ b. some (ltb 0 (held (is (mask j b.origin)) m))) base
        ∙ answer m
            (omega (
              arith,
              drops (is (distance t j)),
              tally_lone (distance t id) (distance t j),
              ap {B = ℕ} (λ (b : Bool). if b then 1 else 0) (distance_injective w t h id j x y),
            ))
            (h.once (distance t j))
        ∙ sym (ap (λ r. if equals id j then some false else r) (has-held w t h j y)))
