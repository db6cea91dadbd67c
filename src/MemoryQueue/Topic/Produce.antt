-- ===== src/MemoryQueue/Topic/Produce.antt =====
-- internal/queue/memoryqueue/queue.go: a message produced on the ring of a topic.
use Prim.Native.String.{String}
use native.Mathlib.Nat.{mod-lt, mod-eq_of_lt, add-mod_right, mod-add-mod}
use hexmagnet.Prelude.{
  ℕ, suc, ◌+◌, ◌-◌, ◌%◌, ◌^◌, ◌<◌, ◌≡◌, refl, sym, ◌∙◌, ap, subst, true, ◌==◌, ltb, if◌then◌else◌,
  Bool-cases, List, [], ◌∷◌, ◌++◌, map, some, length, get_elem?, drop, ==_iff, ltb→lt,
  length-append, arith, inl, inr,
}
use hexmagnet.MemoryQueue.Topic.{Message, TopicState, set_at, produce_topic, send}
use hexmagnet.MemoryQueue.Topic.Ring.{
  Holds, Numbered, IsTopic, keep_last, length-set_at, get_elem?-set_at, wrap, Holds-around,
  Holds-store, Holds-append, Numbered-append, slots_differ,
}

-- The message that is put in the ring.
abbrev pub produced : String → List ℕ → TopicState → Message
produced key value ts = record { seq = ts.next_seq; key = key; value = value }

abbrev pub with_tail : String → List ℕ → TopicState → ℕ → TopicState
with_tail key value ts head = record {
  messages = set_at ts.messages ts.tail (some (produced key value ts));
  next_seq = (ts.next_seq + 1) % 2 ^ 64;
  capacity = ts.capacity;
  head = head;
  tail = (ts.tail + 1) % ts.capacity;
  consumers = map (send (produced key value ts)) ts.consumers;
}

module _ (key : String) (value : List ℕ) (ts : TopicState) where
  abbrev pub new_head : ℕ
  new_head = if (ts.tail + 1) % ts.capacity == ts.head then (ts.head + 1) % ts.capacity else ts.head

  pub produce_topic-some :
      ts.tail < length ts.messages
      → produce_topic key value ts ≡ some (with_tail key value ts new_head)
  unfolding produce_topic
  produce_topic-some h = rw (inside h) refl
    where
      inside : ts.tail < length ts.messages → ltb ts.tail (length ts.messages) ≡ true
      inside h = ground arith

  pub tail_inside : (xs : List Message) → IsTopic ts xs → ts.tail < length ts.messages
  tail_inside xs t =
      omega (arith, t.tail, t.slots, t.head, mod-lt (ts.head + length xs) (positive t.head))
    where
      positive : ts.head < ts.capacity → 0 < ts.capacity
      positive h = omega arith

  all_held :
      (xs : List Message)
      → IsTopic ts xs
      → Holds
          (with_tail key value ts 0).messages
          ts.capacity
          ts.head
          (xs ++ produced key value ts ∷ [])
  all_held xs t =
      Holds-append (with_tail key value ts 0).messages ts.capacity ts.head xs
        (produced key value ts)
        (subst
          (λ (i : ℕ).
            Holds (set_at ts.messages i (some (produced key value ts))) ts.capacity ts.head xs)
          (ap (λ (k : ℕ). k % ts.capacity) (omega arith) ∙ sym t.tail)
          (subst
            (λ (k : ℕ).
              Holds
                (set_at ts.messages ((ts.head + 0 + length xs) % ts.capacity)
                  (some (produced key value ts)))
                ts.capacity k xs)
            (omega arith)
            (Holds-store ts.messages ts.capacity ts.head 0 xs (some (produced key value ts)) t.head
              (omega (arith, t.fits))
              (subst (λ (k : ℕ). Holds ts.messages ts.capacity k xs) (omega arith) t.held))))
        (ap (get_elem? (with_tail key value ts 0).messages) (sym t.tail)
          ∙ get_elem?-set_at ts.messages ts.tail (some (produced key value ts)) (tail_inside xs t))

  produced-Numbered :
      (xs : List Message)
      → IsTopic ts xs
      → suc ts.next_seq < 2 ^ 64
      → (first : ℕ) × Numbered first (xs ++ produced key value ts ∷ []) ((ts.next_seq + 1) % 2 ^ 64)
  produced-Numbered xs t h = (
    t.numbered.0,
    subst (Numbered t.numbered.0 (xs ++ produced key value ts ∷ [])) (omega (arith, h))
        (Numbered-append t.numbered.0 ts.next_seq xs (produced key value ts) t.numbered.1 refl),
  )

  new_tail :
      (xs : List Message)
      → IsTopic ts xs
      → (ts.tail + 1) % ts.capacity ≡ (ts.head + suc (length xs)) % ts.capacity
  new_tail xs t =
      ap (λ (k : ℕ). (k + 1) % ts.capacity) t.tail
      ∙ (mod-add-mod (ts.head + length xs) ts.capacity 1
          ∙ ap (λ (k : ℕ). k % ts.capacity) (omega arith))

  -- A ring with room takes the message.
  produce-roomy :
      (xs : List Message)
      → IsTopic ts xs
      → suc ts.next_seq < 2 ^ 64
      → suc (length xs) < ts.capacity
      → IsTopic (with_tail key value ts ts.head) (xs ++ produced key value ts ∷ [])
  produce-roomy xs t h r = record {
    slots = length-set_at ts.messages ts.tail (some (produced key value ts)) ∙ t.slots;
    room = t.room;
    head = t.head;
    fits = omega (arith, r, length-append xs (produced key value ts ∷ []));
    tail =
        new_tail xs t
        ∙ ap (λ (k : ℕ). (ts.head + k) % ts.capacity)
            (omega (arith, length-append xs (produced key value ts ∷ [])));
    held = all_held xs t;
    numbered = produced-Numbered xs t h;
  }

  -- A full ring gives up its oldest message.
  produce-full :
      (x : Message) (xs : List Message)
      → IsTopic ts (x ∷ xs)
      → suc ts.next_seq < 2 ^ 64
      → suc (suc (length xs)) ≡ ts.capacity
      → IsTopic
          (with_tail key value ts ((ts.head + 1) % ts.capacity))
          (xs ++ produced key value ts ∷ [])
  produce-full x xs t h r = record {
    slots = length-set_at ts.messages ts.tail (some (produced key value ts)) ∙ t.slots;
    room = t.room;
    head = mod-lt (ts.head + 1) (omega (arith, r));
    fits = omega (arith, r, length-append xs (produced key value ts ∷ []));
    tail =
        new_tail (x ∷ xs) t
        ∙ (ap (λ (k : ℕ). k % ts.capacity)
              (omega (arith, length-append xs (produced key value ts ∷ [])))
            ∙ sym (
                mod-add-mod (ts.head + 1) ts.capacity (length (xs ++ produced key value ts ∷ []))));
    held = elim (wrap (ts.head + 1) ts.capacity (omega (arith, r)) (omega (arith, r, t.head))) [
      | inl (a, b) ↦
          subst
            (λ (k : ℕ).
              Holds (with_tail key value ts 0).messages ts.capacity k
                (xs ++ produced key value ts ∷ []))
            (omega (arith, b)) (all_held (x ∷ xs) t).1
      | inr (a, b) ↦
          subst
            (λ (k : ℕ).
              Holds (with_tail key value ts 0).messages ts.capacity k
                (xs ++ produced key value ts ∷ []))
            (omega (arith, a, b, t.head))
            (Holds-around (with_tail key value ts 0).messages ts.capacity 0
              (xs ++ produced key value ts ∷ [])
              (subst
                (λ (k : ℕ).
                  Holds (with_tail key value ts 0).messages ts.capacity k
                    (xs ++ produced key value ts ∷ []))
                (omega (arith, a, t.head)) (all_held (x ∷ xs) t).1))
    ];
    numbered = let n = produced-Numbered (x ∷ xs) t h in (suc n.0, n.1.1);
  }

  same_head :
      (xs : List Message) → IsTopic ts xs → suc (length xs) < ts.capacity → new_head ≡ ts.head
  same_head xs t r = elim (Bool-cases ((ts.tail + 1) % ts.capacity == ts.head)) [
    | inr e ↦ rw e refl
    | inl e ↦ absurd (
        slots_differ ts.capacity ts.head 0 (suc (length xs)) t.head (omega arith) r (
          sym (new_tail xs t)
          ∙ ((==_iff ((ts.tail + 1) % ts.capacity) ts.head).0 e
              ∙ (sym (mod-eq_of_lt t.head) ∙ ap (λ (k : ℕ). k % ts.capacity) (omega arith)))))
  ]

  next_head :
      (xs : List Message)
      → IsTopic ts xs
      → suc (length xs) ≡ ts.capacity
      → new_head ≡ (ts.head + 1) % ts.capacity
  next_head xs t r = rw ((==_iff ((ts.tail + 1) % ts.capacity) ts.head).1 around) refl
    where
      around : (ts.tail + 1) % ts.capacity ≡ ts.head
      around =
          new_tail xs t
          ∙ (ap (λ (k : ℕ). (ts.head + k) % ts.capacity) r
              ∙ (add-mod_right ts.head ts.capacity ∙ mod-eq_of_lt t.head))

  produced-IsTopic :
      (xs : List Message)
      → IsTopic ts xs
      → suc ts.next_seq < 2 ^ 64
      → IsTopic
          (with_tail key value ts new_head)
          (keep_last (ts.capacity - 1) (xs ++ produced key value ts ∷ []))
  produced-IsTopic xs t h = elim (Bool-cases (ltb (suc (length xs)) ts.capacity)) [
    | inl e ↦
        let r : suc (length xs) < ts.capacity = ltb→lt (suc (length xs)) ts.capacity e in
        subst (IsTopic (with_tail key value ts new_head)) (keep_all xs t r) (
          subst (λ (k : ℕ). IsTopic (with_tail key value ts k) (xs ++ produced key value ts ∷ []))
            (sym (same_head xs t r)) (produce-roomy xs t h r))
    | inr e ↦ last_full xs t (ground (arith, e, t.fits))
  ]
    where
      keep_all :
          (xs : List Message)
          → IsTopic ts xs
          → suc (length xs) < ts.capacity
          → xs ++ produced key value ts ∷ []
            ≡ keep_last (ts.capacity - 1) (xs ++ produced key value ts ∷ [])
      keep_all xs t r =
          let none_dropped : 0 ≡ length (xs ++ produced key value ts ∷ []) - (ts.capacity - 1) =
            omega (arith, r, length-append xs (produced key value ts ∷ [])) in
          ap (λ (k : ℕ). drop k (xs ++ produced key value ts ∷ [])) none_dropped

      one_dropped :
          (x : Message) (xs : List Message)
          → suc (suc (length xs)) ≡ ts.capacity
          → xs ++ produced key value ts ∷ []
            ≡ keep_last (ts.capacity - 1) (x ∷ (xs ++ produced key value ts ∷ []))
      one_dropped x xs r =
          let dropped : 1 ≡ suc (length (xs ++ produced key value ts ∷ [])) - (ts.capacity - 1) =
            omega (arith, r, length-append xs (produced key value ts ∷ [])) in
          ap (λ (k : ℕ). drop k (x ∷ (xs ++ produced key value ts ∷ []))) dropped

      last_full :
          (xs : List Message)
          → IsTopic ts xs
          → suc (length xs) ≡ ts.capacity
          → IsTopic
              (with_tail key value ts new_head)
              (keep_last (ts.capacity - 1) (xs ++ produced key value ts ∷ []))
      last_full [] t r = absurd (omega (arith, t.room, r))
      last_full (x ∷ xs) t r =
          subst (IsTopic (with_tail key value ts new_head)) (one_dropped x xs r) (
            subst (λ (k : ℕ). IsTopic (with_tail key value ts k) (xs ++ produced key value ts ∷ []))
              (sym (next_head (x ∷ xs) t r)) (produce-full x xs t h r))

  -- On a ring that stands for a list of messages, with a next sequence number plus one below 2^64,
  -- producing returns a ring of the same capacity that stands for the list with the new message at
  -- the end, cut to the last of one fewer than the capacity.
  pub produce_topic-IsTopic :
      (xs : List Message)
      → IsTopic ts xs
      → suc ts.next_seq < 2 ^ 64
      → (ts' : TopicState) × (produce_topic key value ts ≡ some ts')
        × (IsTopic ts' (keep_last (ts.capacity - 1) (xs ++ produced key value ts ∷ []))
            × (ts'.capacity ≡ ts.capacity))
  produce_topic-IsTopic xs t h = (
    with_tail key value ts new_head,
    produce_topic-some (tail_inside xs t),
    (produced-IsTopic xs t h, refl),
  )
