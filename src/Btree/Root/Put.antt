-- ===== src/Btree/Root/Put.antt =====
-- `put` keeps the invariant of the root, and what it does on every branch.
use hexmagnet.Prelude.{
  ℕ, ◌+◌, ◌*◌, ◌≤◌, ◌<◌, ◌≡◌, refl, sym, ap, ◌∙◌, Bool, true, false, Option, some, List, [], ◌∷◌,
  arith, ltb, ltb→lt, if◌then◌else◌, Bool-cases, inl, inr, ◌>>=◌,
}
use hexmagnet.Btree.Bits.{
  NodeId, PutResult, rejected, accepted, already_exists, equals, leading_zeros,
}
use hexmagnet.Btree.Bits.Index.{bit_list, length-bit_list, bits_lem}
use hexmagnet.Btree.Bits.Masks.{IsId, mask, mask-IsId, mask-mask, must_xor_lem, equals_iff}
use hexmagnet.Btree.Node
use hexmagnet.Btree.Node.{Node, all_xors}
use hexmagnet.Btree.Node.Shape.{IsTree, Fits-root, tally, is}
use hexmagnet.Btree.Node.Has.{has-tally}
use hexmagnet.Btree.Node.Put
use hexmagnet.Btree.Node.Put.{put-Done}
use hexmagnet.Btree.Node.Closer.{closer-Counts}
use hexmagnet.Btree.Root.{RootNode, update, put, finish_put, has_room, put_fuel}
use hexmagnet.Btree.Root.Invariant.{in_bucket, distance, held, IsRoot, updated_counts, tally_bucket}

-- What a put does, on each branch.
pub data PutOutcome (t : RootNode) (id : NodeId) (t' : RootNode) (r : PutResult) : Type 0 where
  own : id ≡ t.base.origin → r ≡ rejected → t' ≡ t → PutOutcome t id t' r
  present : 0 < held (is (distance t id)) t → r ≡ already_exists → t' ≡ t → PutOutcome t id t' r
  full :
      held (is (distance t id)) t ≡ 0
      → has_room t (distance t id) ≡ some false
      → r ≡ rejected
      → t' ≡ t
      → PutOutcome t id t' r
  added :
      held (is (distance t id)) t ≡ 0
      → has_room t (distance t id) ≡ some true
      → r ≡ accepted
      → t'.base ≡ t.base
      → t'.k ≡ t.k
      → ((test : NodeId → Bool) → held test t' ≡ held test t + tally test (distance t id ∷ []))
      → PutOutcome t id t' r

pub record PutDone (w : ℕ) (t : RootNode) (id : NodeId) (o : Option (RootNode × PutResult))
    : Type 0 where
  pub root : RootNode
  pub result : PutResult
  pub returns : o ≡ some (root, result)
  pub is_root : IsRoot w root
  pub outcome : PutOutcome t id root result

-- The test for room returns.
pub has_room_total :
    (w : ℕ) (t : RootNode) (xor : NodeId)
    → IsRoot w t
    → IsId w xor
    → (room : Bool) × (has_room t xor ≡ some room)
unfolding has_room
has_room_total w t xor h x =
    let closer =
      closer-Counts w [] t.node (bit_list xor) h.tree
        (omega (arith, length-bit_list xor, ap (λ (a : ℕ). a * 8) x.width)) in
    elim (Bool-cases (ltb (t.bucket_counts (leading_zeros (bit_list xor))) t.k)) [
      | inl room ↦ (true, rw (bits_lem xor, room))
      | inr crowded ↦ elim (Bool-cases t.splitting_enabled) [
        | inr off ↦ (false, rw (bits_lem xor, crowded, off))
        | inl on ↦ (ltb closer.value t.k, rw (bits_lem xor, crowded, on, closer.returns))
      ]
    ]

tally_one_le : (test : NodeId → Bool) (x : NodeId) → tally test (x ∷ []) ≤ 1
unfolding tally
tally_one_le test x = ground arith

-- Adding what was not there keeps every identifier single.
added_once :
    (xs ys : List NodeId) (xor : NodeId)
    → ((x : NodeId) → tally (is x) xs ≤ 1)
    → tally (is xor) xs ≡ 0
    → ((test : NodeId → Bool) → tally test ys ≡ tally test xs + tally test (xor ∷ []))
    → (x : NodeId) → tally (is x) ys ≤ 1
unfolding tally
added_once xs ys xor once none_yet adds x = elim (Bool-cases (equals xor x)) [
  | inl same ↦ omega (
    arith,
    adds (is x),
    tally_one_le (is x) xor,
    ap (λ (i : NodeId). tally (is i) xs) ((equals_iff xor x).0 same),
    none_yet,
  )
  | inr differ ↦ omega (arith, adds (is x), once x, lone differ)
]
  where
    lone : equals xor x ≡ false → tally (is x) (xor ∷ []) ≡ 0
    lone e = rw e

put_buckets :
    (counts : ℕ → ℕ) (xor : NodeId) (xs ys : List NodeId)
    → ((j : ℕ) → counts j ≡ tally (in_bucket j) xs)
    → ((test : NodeId → Bool) → tally test ys ≡ tally test xs + tally test (xor ∷ []))
    → (j : ℕ)
    → update counts (leading_zeros (bit_list xor)) (counts (leading_zeros (bit_list xor)) + 1) j
      ≡ tally (in_bucket j) ys
put_buckets counts xor xs ys h adds j =
    let bucket = leading_zeros (bit_list xor) in
    updated_counts counts xor (counts bucket + 1) j (tally (in_bucket j) ys)
      (λ e. ground (arith, adds (in_bucket j), tally_bucket xor j, h j, ap counts e))
      (λ e. ground (arith, adds (in_bucket j), tally_bucket xor j, h j))

-- Identifiers other than the origin are at another distance from it.
distance_ne :
    (w : ℕ) (id origin : NodeId)
    → IsId w id
    → IsId w origin
    → equals id origin ≡ false
    → equals (mask id origin) (mask origin origin) ≡ false
distance_ne w id origin h k e = elim (Bool-cases (equals (mask id origin) (mask origin origin))) [
  | inr differ ↦ differ
  | inl same ↦ absurd (
      clash (
        sym (mask-mask w id origin h k)
        ∙ ap (λ (x : NodeId). mask x origin) ((equals_iff _ _).0 same)
        ∙ mask-mask w origin origin k k))
]
  where
    clash : id ≡ origin → ⊥
    clash p = cc ((equals_iff id origin).1 p)

added_no_origin :
    (xs ys : List NodeId) (xor zeros : NodeId)
    → equals xor zeros ≡ false
    → tally (is zeros) xs ≡ 0
    → ((test : NodeId → Bool) → tally test ys ≡ tally test xs + tally test (xor ∷ []))
    → tally (is zeros) ys ≡ 0
unfolding tally
added_no_origin xs ys xor zeros differ h adds = ground (arith, adds (is zeros))

-- The put below the root is done: the root after it.
accept_done :
    (w : ℕ) (t : RootNode) (id : NodeId) (m : Node)
    → IsRoot w t
    → IsId w id
    → equals id t.base.origin ≡ false
    → held (is (distance t id)) t ≡ 0
    → has_room t (distance t id) ≡ some true
    → IsTree w [] m
    → ((test : NodeId → Bool)
        → tally test (all_xors m) ≡ held test t + tally test (distance t id ∷ []))
    → PutDone w t id (finish_put t (distance t id) (m, accepted))
unfolding finish_put
accept_done w t id m h x other none_yet room tree adds =
    let xor = distance t id in
    let bucket = leading_zeros (bit_list xor) in
    record {
      root = record t {
        node = m;
        bucket_counts = update t.bucket_counts bucket (t.bucket_counts bucket + 1);
      };
      result = accepted;
      returns = rw (bits_lem xor);
      is_root = record {
        origin = h.origin;
        tree = tree;
        buckets = put_buckets t.bucket_counts xor (all_xors t.node) (all_xors m) h.buckets adds;
        once = added_once (all_xors t.node) (all_xors m) xor h.once none_yet adds;
        no_origin =
            added_no_origin (all_xors t.node) (all_xors m) xor (distance t t.base.origin)
              (distance_ne w id t.base.origin x h.origin other) h.no_origin adds;
      };
      outcome = added none_yet room refl refl refl adds;
    }

-- Everything below the root's own tests.
put_rest-Done :
    (w : ℕ) (t : RootNode) (id : NodeId) (o : Option (Node × PutResult))
    → IsRoot w t
    → IsId w id
    → equals id t.base.origin ≡ false
    → held (is (distance t id)) t ≡ 0
    → has_room t (distance t id) ≡ some true
    → Put.Done w [] t.node (distance t id) o
    → PutDone w t id (o >>= (λ new. finish_put t (distance t id) new))
put_rest-Done w t id o h x other none_yet room d = go d.outcome
  where
    go :
        Put.Outcome (distance t id) t.node d.node d.result
        → PutDone w t id (o >>= (λ new. finish_put t (distance t id) new))
    go (Put.Outcome.added e _ adds) =
        rw (d.returns, e) (accept_done w t id d.node h x other none_yet room d.tree adds)
    go (Put.Outcome.kept e there same) = absurd (omega (arith, there, none_yet))

-- Past the tests for the origin and for presence.
new_id_done :
    (w : ℕ) (t : RootNode) (id : NodeId) (room : Bool)
    → IsRoot w t
    → IsId w id
    → equals id t.base.origin ≡ false
    → held (is (distance t id)) t ≡ 0
    → has_room t (distance t id) ≡ some room
    → PutDone w t id (
        if room
        then Node.put (put_fuel (distance t id)) t.node (distance t id)
          >>= (λ new. finish_put t (distance t id) new)
        else some (t, rejected))
new_id_done w t id false h x other none_yet room = record {
  root = t;
  result = rejected;
  returns = refl;
  is_root = h;
  outcome = full none_yet room refl refl;
}
new_id_done w t id true h x other none_yet room =
    let xor_id = mask-IsId w id t.base.origin x h.origin in
    put_rest-Done w t id _ h x other none_yet room (
      put-Done (put_fuel (distance t id)) w [] t.node (distance t id) h.tree (Fits-root w _ xor_id)
        (omega (arith, xor_id.width)))

-- On a root that keeps its invariant, a put of an identifier of the root's width returns (no
-- panic, no want of fuel), keeps the invariant, and has one of four outcomes: rejected for the
-- origin itself, already exists for one that is held, rejected for want of room, with the root
-- unchanged in these three, or accepted, which adds exactly that identifier.
pub put_lem :
    (w : ℕ) (t : RootNode) (id : NodeId) → IsRoot w t → IsId w id → PutDone w t id (put t id)
unfolding put
put_lem w t id h x = elim (Bool-cases (equals id t.base.origin)) [
  | inl same ↦ rw same (record {
    root = t;
    result = rejected;
    returns = refl;
    is_root = h;
    outcome = own ((equals_iff id t.base.origin).0 same) refl refl;
  })
  | inr other ↦
      rw
        (
          other,
          must_xor_lem w id t.base.origin x h.origin,
          has-tally w [] t.node (distance t id) h.tree
              (Fits-root w _ (mask-IsId w id t.base.origin x h.origin)),
        )
        (elim (Bool-cases (ltb 0 (held (is (distance t id)) t))) [
          | inl there ↦ rw there (record {
            root = t;
            result = already_exists;
            returns = refl;
            is_root = h;
            outcome = present (ltb→lt _ _ there) refl refl;
          })
          | inr absent ↦
              let (room, e) =
                has_room_total w t (distance t id) h (mask-IsId w id t.base.origin x h.origin) in
              rw (absent, e) (new_id_done w t id room h x other (not_lt absent) e)
        ])
]
  where
    not_lt : {m : ℕ} → ltb 0 m ≡ false → m ≡ 0
    not_lt e = ground arith
