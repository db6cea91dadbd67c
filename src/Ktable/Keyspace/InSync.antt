-- ===== src/Ktable/Keyspace/InSync.antt =====
-- The tree and the items of a keyspace hold the same identifiers. `put` and `drop` keep this, and
-- with it `put` and `get_closest` dereference no nil item.
use hexmagnet.Prelude.{
  ℕ, ◌<◌, ◌≡◌, refl, sym, ap, ◌∙◌, Bool, true, false, Option, none, some, List, lookup, insert,
  lookup-insert, arith, ltb, Bool-cases, Option-cases, inl, inr, if◌then◌else◌,
}
use hexmagnet.Btree.Bits.{NodeId, PutResult, rejected, accepted, already_exists, equals}
use hexmagnet.Btree.Bits.Masks.{IsId, equals_iff}
use hexmagnet.Btree.Node.{all_xors}
use hexmagnet.Btree.Node.Shape.{is, tally}
use hexmagnet.Btree.Root
use hexmagnet.Btree.Root.{RootNode, has}
use hexmagnet.Btree.Root.Invariant.{IsRoot, held, distance, new-IsRoot}
use hexmagnet.Btree.Root.Put.{PutOutcome, own, present, full, added, put_lem}
use hexmagnet.Btree.Root.Members.{has-held, has-put}
use hexmagnet.Ktable.Base.{id_eq}
use hexmagnet.Ktable.Keyspace.{
  Methods, Keyspace, new_keyspace, apply_all, or_new, updated, finish_put, put,
}

abbrev pub is_some {ℓ} : {A : Type ℓ} → Option A → Bool
is_some none = false
is_some (some a) = true

pub record InSync (w : ℕ) {Item : Type 0} (ks : Keyspace Item) : Type 0 where
  pub root : IsRoot w ks.btree
  pub same : (id : NodeId) → IsId w id → has ks.btree id ≡ some (is_some (lookup id ks.items))

module _ {Input Opt Item S : Type 0} (methods : Methods Input Opt Item S) (w : ℕ)
    (ks : Keyspace Item) (id : NodeId) (input : Input) (options : List Opt) (s : S) where
  -- What a put leaves behind, by its result.
  pub data PutAnswer (ks' : Keyspace Item) (s' : S) (r : PutResult) : Type 0 where
    refused : r ≡ rejected → ks'.items ≡ ks.items → s' ≡ s → PutAnswer ks' s' r
    created :
        r ≡ accepted
        → lookup id ks.items ≡ none
        → ks'.items ≡ insert id (apply_all methods options (methods.factory id input s).0) ks.items
        → s' ≡ (methods.factory id input s).1
        → PutAnswer ks' s' r
    refreshed :
        (it : Item)
        → r ≡ already_exists
        → lookup id ks.items ≡ some it
        → ks'.items ≡ insert id (apply_all methods options (methods.update it input s).0) ks.items
        → s' ≡ (methods.update it input s).1
        → PutAnswer ks' s' r

  pub record PutKeeps (o : Option (Keyspace Item × S × PutResult)) : Type 0 where
    pub keyspace : Keyspace Item
    pub state : S
    pub result : PutResult
    pub returns : o ≡ some (keyspace, state, result)
    pub in_sync : InSync w keyspace
    pub answer : PutAnswer keyspace state result

  held-some :
      (h : InSync w ks)
      → IsId w id
      → 0 < held (is (distance ks.btree id)) ks.btree
      → (it : Item) × (lookup id ks.items ≡ some it)
  held-some h x pos = elim (Option-cases (lookup id ks.items)) [
    | inr found ↦ found
    | inl e ↦ absurd (
        clash (sym (has-held w ks.btree h.root id x) ∙ h.same id x ∙ ap (λ o. some (is_some o)) e)
          pos)
  ]
    where
      clash : {m : ℕ} → some (ltb 0 m) ≡ some false → 0 < m → ⊥
      clash p q = ground arith

  held-none :
      (h : InSync w ks)
      → IsId w id
      → held (is (distance ks.btree id)) ks.btree ≡ 0
      → lookup id ks.items ≡ none
  held-none h x nil = elim (Option-cases (lookup id ks.items)) [
    | inl e ↦ e
    | inr (it, e) ↦ absurd (
        clash (sym (has-held w ks.btree h.root id x) ∙ h.same id x ∙ ap (λ o. some (is_some o)) e)
          nil)
  ]
    where
      clash : {m : ℕ} → some (ltb 0 m) ≡ some true → m ≡ 0 → ⊥
      clash p q = ground arith

  store-InSync :
      (h : InSync w ks) (t' : RootNode) (it : Item)
      → IsRoot w t'
      → ((j : NodeId) → IsId w j → has t' j ≡ (if equals id j then some true else has ks.btree j))
      → InSync w (record ks { btree = t'; items = insert id it ks.items })
  store-InSync h t' it root now_has = record {
    root = root;
    same = λ j y.
        now_has j y
        ∙ ap (λ r. if equals id j then some true else r) (h.same j y)
        ∙ both (equals id j) (lookup j ks.items)
        ∙ ap (λ o. some (is_some o)) (sym (lookup-insert id j it ks.items));
  }
    where
      both :
          (b : Bool) (o : Option Item)
          → (if b then some true else some (is_some o)) ≡ some (is_some (if b then some it else o))
      both true o = refl
      both false o = refl

  refuse_keeps :
      InSync w ks → PutKeeps (finish_put methods ks id input options s (ks.btree, rejected))
  unfolding finish_put
  refuse_keeps h = record {
    keyspace = ks;
    state = s;
    result = rejected;
    returns = refl;
    in_sync = h;
    answer = refused refl refl refl;
  }

  create_keeps :
      (h : InSync w ks) (t' : RootNode)
      → IsId w id
      → IsRoot w t'
      → ((j : NodeId) → IsId w j → has t' j ≡ (if equals id j then some true else has ks.btree j))
      → lookup id ks.items ≡ none
      → PutKeeps (finish_put methods ks id input options s (t', accepted))
  unfolding finish_put
  create_keeps h t' x root now_has missing =
      rw (missing, or_new)
        (record {
          keyspace = record ks {
            btree = t';
            items = insert id (apply_all methods options (methods.factory id input s).0) ks.items;
          };
          state = (methods.factory id input s).1;
          result = accepted;
          returns = refl;
          in_sync = store-InSync h t' _ root now_has;
          answer = created refl missing refl refl;
        })

  refresh_keeps :
      (h : InSync w ks) (it : Item)
      → IsId w id
      → lookup id ks.items ≡ some it
      → PutKeeps (finish_put methods ks id input options s (ks.btree, already_exists))
  unfolding finish_put
  refresh_keeps h it x found =
      rw (found, updated)
        (record {
          keyspace = record ks {
            items = insert id (apply_all methods options (methods.update it input s).0) ks.items;
          };
          state = (methods.update it input s).1;
          result = already_exists;
          returns = refl;
          in_sync = store-InSync h ks.btree _ h.root still_has;
          answer = refreshed it refl found refl refl;
        })
    where
      still_has :
          (j : NodeId)
          → IsId w j
          → has ks.btree j ≡ (if equals id j then some true else has ks.btree j)
      still_has j y = elim (Bool-cases (equals id j)) [
        | inr e ↦ rw e
        | inl e ↦ rw e (
            h.same j y
            ∙ ap (λ (a : NodeId). some (is_some (lookup a ks.items))) (sym ((equals_iff id j).0 e))
            ∙ ap (λ o. some (is_some o)) found)
      ]

  -- On a keyspace whose tree and items hold the same identifiers, a put of an identifier of its
  -- width returns and keeps them the same; it refuses the identifier and changes no item, or
  -- stores a new item for one that had none, or updates and stores the item that it had, by the
  -- result that it returns, and the options are applied to what it stores.
  pub put_keeps : InSync w ks → IsId w id → PutKeeps (put methods ks id input options s)
  unfolding put
  put_keeps h x =
      let d = put_lem w ks.btree id h.root x in
      rw d.returns (go d.root d.result d.is_root d.returns d.outcome)
    where
      go :
          (t' : RootNode) (r : PutResult)
          → IsRoot w t'
          → Root.put ks.btree id ≡ some (t', r)
          → PutOutcome ks.btree id t' r
          → PutKeeps (finish_put methods ks id input options s (t', r))
      go t' r k e (own same q p) = rw (q, p) (refuse_keeps h)
      go t' r k e (full nil room q p) = rw (q, p) (refuse_keeps h)
      go t' r k e (present pos q p) =
          let (it, found) = held-some h x pos in rw (q, p) (refresh_keeps h it x found)
      go t' r k e (added nil room q base cap adds) = rw q (
          create_keeps h t' x k
            (λ j y. has-put w ks.btree t' id j h.root x y (e ∙ ap (λ a. some (t', a)) q))
            (held-none h x nil))

-- A keyspace starts in sync.
pub new_keyspace-InSync :
    (w : ℕ) (Item : Type 0) (origin : NodeId) (k : ℕ)
    → IsId w origin
    → InSync w (new_keyspace {Item = Item} origin k)
unfolding new_keyspace lookup
new_keyspace-InSync w Item origin k h =
    let root = new-IsRoot w origin k true h in
    record {
      root = root;
      same = λ id x. has-held w _ root id x ∙ (unfold Root.new all_xors tally in refl);
    }
