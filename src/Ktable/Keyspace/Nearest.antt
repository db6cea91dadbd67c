-- ===== src/Ktable/Keyspace/Nearest.antt =====
-- `get_closest` on a keyspace in sync.
use hexmagnet.Prelude.{
  ℕ, ◌≡◌, refl, sym, ap, ◌∙◌, true, false, none, some, List, [], ◌∷◌, lookup, Option-cases, inl,
  inr, All, All-both,
}
use hexmagnet.Btree.Bits.{NodeId}
use hexmagnet.Btree.Bits.Masks.{IsId}
use hexmagnet.Btree.Root.{has}
use hexmagnet.Btree.Root.Closest.{IsClosest, closest-IsClosest}
use hexmagnet.Ktable.Base.{id_eq}
use hexmagnet.Ktable.Keyspace.{Keyspace, items_at, get_closest}
use hexmagnet.Ktable.Keyspace.InSync.{InSync, is_some}

-- A query on a keyspace in sync dereferences no nil item: it returns the item itself, if the
-- identifier has one, and otherwise the items of 8 identifiers, or of all that there are, which share
-- as many leading bits with it as 8 can. They need not be the nearest by distance: among those that
-- share the same number of leading bits, any may be the answer.
pub data Nearby (w : ℕ) {Item : Type 0} (ks : Keyspace Item) (id : NodeId) (its : List Item)
    : Type 0 where
  itself : (it : Item) → lookup id ks.items ≡ some it → its ≡ it ∷ [] → Nearby w ks id its
  others :
      (ids : List NodeId)
      → lookup id ks.items ≡ none
      → IsClosest w ks.btree id 8 ids
      → items_at ks.items ids ≡ some its
      → Nearby w ks id its

items_at_total :
    (w : ℕ) {Item : Type 0} (ks : Keyspace Item) (ids : List NodeId)
    → InSync w ks
    → All (λ j. (IsId w j) × (has ks.btree j ≡ some true)) ids
    → (its : List Item) × (items_at ks.items ids ≡ some its)
unfolding items_at
items_at_total w ks [] h x = ([], refl)
items_at_total w ks (id ∷ ids) h x = elim (Option-cases (lookup id ks.items)) [
  | inl e ↦ absurd (clash (sym x.0.1 ∙ h.same id x.0.0 ∙ ap (λ o. some (is_some o)) e))
  | inr (it, e) ↦ let (its, f) = items_at_total w ks ids h x.1 in (it ∷ its, rw (e, f))
]
  where
    clash : some true ≡ some false → ⊥
    clash p = cc

-- On a keyspace whose tree and items hold the same identifiers, a query near an identifier of its
-- width dereferences no missing item: it returns the identifier's own item alone, if it has one,
-- and otherwise the items of eight distinct identifiers of the tree, or of all if there are fewer,
-- of which for every number of leading bits as many share these with the query as the tree has, up
-- to eight.
pub get_closest-Nearby :
    (w : ℕ) {Item : Type 0} (ks : Keyspace Item) (id : NodeId)
    → InSync w ks
    → IsId w id
    → (its : List Item) × (get_closest ks id ≡ some its) × Nearby w ks id its
unfolding get_closest
get_closest-Nearby w ks id h x = elim (Option-cases (lookup id ks.items)) [
  | inr (it, e) ↦ (it ∷ [], rw (e, get_closest), itself it e refl)
  | inl e ↦
      let (ids, f, near) = closest-IsClosest w ks.btree id 8 h.root x in
      let (its, g) =
        items_at_total w ks ids h
          (All-both (IsId w) (λ j. has ks.btree j ≡ some true) ids near.are_ids near.in_tree) in
      (its, rw (e, get_closest, f) g, others ids e near g)
]
