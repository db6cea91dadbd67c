-- ===== src/Ktable/Keyspace/Removal.antt =====
-- `drop` on a keyspace in sync.
use Prim.Native.String.{String}
use hexmagnet.Prelude.{
  ℕ, ◌≡◌, refl, sym, ap, ◌∙◌, Bool, true, false, Option, none, some, lookup, delete, lookup-delete,
  arith, ltb, Option-cases, inl, inr, if◌then◌else◌,
}
use hexmagnet.Btree.Bits.{NodeId, equals}
use hexmagnet.Btree.Bits.Masks.{IsId}
use hexmagnet.Btree.Node.Shape.{is}
use hexmagnet.Btree.Root
use hexmagnet.Btree.Root.{RootNode, has}
use hexmagnet.Btree.Root.Invariant.{IsRoot, held, distance}
use hexmagnet.Btree.Root.Drop.{DropOutcome, missed, removed, drop_lem}
use hexmagnet.Btree.Root.Members.{has-held, has-drop}
use hexmagnet.Ktable.Base.{id_eq}
use hexmagnet.Ktable.Keyspace.{Methods, Keyspace, drop, reason_or_default}
use hexmagnet.Ktable.Keyspace.InSync.{InSync, is_some}

module _ {Input Opt Item S : Type 0} (methods : Methods Input Opt Item S) (w : ℕ)
    (ks : Keyspace Item) (id : NodeId) (reason : Option String) (s : S) where
  -- What a drop leaves behind, by its result.
  pub data DropAnswer (ks' : Keyspace Item) (s' : S) (done : Bool) : Type 0 where
    unknown_id :
        done ≡ false → lookup id ks.items ≡ none → ks' ≡ ks → s' ≡ s → DropAnswer ks' s' done
    dropped_item :
        (it : Item)
        → done ≡ true
        → lookup id ks.items ≡ some it
        → ks'.items ≡ delete id ks.items
        → s' ≡ (methods.drop it (reason_or_default methods reason) s).1
        → DropAnswer ks' s' done

  pub record DropKeeps (o : Option (Keyspace Item × S × Bool)) : Type 0 where
    pub keyspace : Keyspace Item
    pub state : S
    pub result : Bool
    pub returns : o ≡ some (keyspace, state, result)
    pub in_sync : InSync w keyspace
    pub answer : DropAnswer keyspace state result

  delete-InSync :
      (h : InSync w ks) (t' : RootNode)
      → IsRoot w t'
      → ((j : NodeId) → IsId w j → has t' j ≡ (if equals id j then some false else has ks.btree j))
      → InSync w (record ks { btree = t'; items = delete id ks.items })
  delete-InSync h t' root now_has = record {
    root = root;
    same = λ j y.
        now_has j y
        ∙ ap (λ r. if equals id j then some false else r) (h.same j y)
        ∙ both (equals id j) (lookup j ks.items)
        ∙ ap (λ o. some (is_some o)) (sym (lookup-delete id j ks.items));
  }
    where
      both :
          (b : Bool) (o : Option Item)
          → (if b then some false else some (is_some o)) ≡ some (is_some (if b then none else o))
      both true o = refl
      both false o = refl

  -- An identifier with an item is in the tree.
  item_held :
      (h : InSync w ks) (it : Item)
      → IsId w id
      → lookup id ks.items ≡ some it
      → held (is (distance ks.btree id)) ks.btree ≡ 0
      → ⊥
  item_held h it x e nil =
      clash (sym (has-held w ks.btree h.root id x) ∙ h.same id x ∙ ap (λ o. some (is_some o)) e) nil
    where
      clash : {m : ℕ} → some (ltb 0 m) ≡ some true → m ≡ 0 → ⊥
      clash p q = ground arith

  remove_keeps :
      (h : InSync w ks) (it : Item)
      → IsId w id
      → lookup id ks.items ≡ some it
      → (t' : RootNode) (done : Bool) → IsRoot w t'
      → Root.drop ks.btree id ≡ some (t', done)
      → DropOutcome ks.btree id t' done
      → DropKeeps (
          some (
            record ks { btree = t'; items = delete id ks.items },
            (methods.drop it (reason_or_default methods reason) s).1,
            done,
          ))
  remove_keeps h it x e t' done k f (missed nil q p) = absurd (item_held h it x e nil)
  remove_keeps h it x e t' done k f (removed pos q base cap drops) = record {
    keyspace = record ks { btree = t'; items = delete id ks.items };
    state = (methods.drop it (reason_or_default methods reason) s).1;
    result = done;
    returns = refl;
    in_sync =
        delete-InSync h t' k
          (λ j y. has-drop w ks.btree t' id j h.root x y (f ∙ ap (λ a. some (t', a)) q));
    answer = dropped_item it q e refl refl;
  }

  -- On a keyspace whose tree and items hold the same identifiers, a drop of an identifier of its
  -- width returns and keeps them the same; it answers true exactly for an identifier with an item,
  -- whose item it deletes, and otherwise changes nothing.
  pub drop_keeps : InSync w ks → IsId w id → DropKeeps (drop methods ks id reason s)
  unfolding drop
  drop_keeps h x = elim (Option-cases (lookup id ks.items)) [
    | inl e ↦
        rw (e, drop)
          (record {
            keyspace = ks;
            state = s;
            result = false;
            returns = refl;
            in_sync = h;
            answer = unknown_id refl e refl refl;
          })
    | inr (it, e) ↦
        let d = drop_lem w ks.btree id h.root x in
        rw (e, drop, d.returns)
          (remove_keeps h it x e d.root d.result d.is_root d.returns d.outcome)
  ]
