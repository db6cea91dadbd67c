-- ===== src/MemoryQueue/Topic/Restore.antt =====
-- internal/queue/memoryqueue/queue.go: a topic that is made anew from its snapshot.
use native.Mathlib.Nat.{mod-eq_of_lt}
use hexmagnet.Prelude.{
  ℕ, zero, suc, ◌+◌, ◌%◌, ◌≤◌, ◌<◌, ◌≡◌, refl, ◌∙◌, ap, subst, true, ltb, List, [], ◌∷◌, map,
  Option, none, some, ◌>>=◌, length, get_elem?, arith,
}
use hexmagnet.MemoryQueue.Topic.{
  Message, TopicState, TopicSnapshot, default_capacity, replicate, set_at, restore, recover_topic,
}
use hexmagnet.MemoryQueue.Topic.Ring.{
  IsTopic, Holds, length-set_at, get_elem?-set_at, get_elem?-set_at_other,
}

record Refilled (slots : List (Option Message)) (tail : ℕ) (xs : List Message)
    (r : List (Option Message) × ℕ) : Type 0 where
  next : r.1 ≡ tail + length xs
  number : length r.0 ≡ length slots
  held : Holds r.0 (length slots) tail xs
  before : (j : ℕ) → j < tail → get_elem? r.0 j ≡ get_elem? slots j

restore_lem :
    (xs : List Message) (slots : List (Option Message)) (tail : ℕ)
    → tail + length xs ≤ length slots
    → (r : List (Option Message) × ℕ) × (restore (map some xs) slots tail ≡ some r)
      × Refilled slots tail xs r
unfolding restore
restore_lem [] slots tail h = (
  (slots, tail),
  refl,
  record { next = omega arith; number = refl; held = tt; before = λ j k. refl },
)
restore_lem (x ∷ xs) slots tail h =
    let stored = set_at slots tail (some x) in
    let same_length : length stored ≡ length slots = length-set_at slots tail (some x) in
    let rest = restore_lem xs stored (tail + 1) (omega (arith, h, same_length)) in
    (
      rest.0,
      rw (inside h) rest.1,
      record {
        next = omega (arith, rest.2.next);
        number = rest.2.number ∙ same_length;
        held = (
          ap (get_elem? rest.0.0) (mod-eq_of_lt (omega (arith, h)))
              ∙ (rest.2.before tail (omega arith)
                  ∙ get_elem?-set_at slots tail (some x) (omega (arith, h))),
          subst (λ (k : ℕ). Holds rest.0.0 k (suc tail) xs) same_length
              (subst (λ (k : ℕ). Holds rest.0.0 (length stored) k xs) (omega arith) rest.2.held),
        );
        before = λ j k.
            rest.2.before j (omega (arith, k))
            ∙ get_elem?-set_at_other slots tail j (some x) (λ e. omega (arith, e, k));
      },
    )
  where
    inside : tail + suc (length xs) ≤ length slots → ltb tail (length slots) ≡ true
    inside h = ground arith

fresh_slots : (n : ℕ) → length (replicate {A = Option Message} n none) ≡ n
fresh_slots zero = refl
fresh_slots (suc n) = ap suc (fresh_slots n)

abbrev pub snapshot : TopicState → List Message → TopicSnapshot
snapshot ts xs = record { messages = map some xs; next_seq = ts.next_seq; tail = ts.tail }

-- What is recovered of a topic.
pub record Recovered (ts ts' : TopicState) (xs : List Message) : Type 0 where
  pub stands : IsTopic ts' xs
  pub capacity : ts'.capacity ≡ default_capacity
  pub next_seq : ts'.next_seq ≡ ts.next_seq

pub recover_topic-Recovered :
    (ts : TopicState) (xs : List Message)
    → IsTopic ts xs
    → ts.capacity ≡ default_capacity
    → (ts' : TopicState) × (recover_topic (snapshot ts xs) ≡ some ts') × Recovered ts ts' xs
unfolding recover_topic
recover_topic-Recovered ts xs t c =
    let enough : 0 + length xs ≤ length (replicate {A = Option Message} default_capacity none) =
      omega (arith, t.fits, c, fresh_slots default_capacity) in
    let r = restore_lem xs (replicate default_capacity none) 0 enough in
    (
      record {
        messages = r.0.0;
        next_seq = ts.next_seq;
        capacity = default_capacity;
        head = 0;
        tail = r.0.1 % default_capacity;
        consumers = [];
      },
      ap
          (λ o. o >>= λ p. some (record {
            messages = p.0;
            next_seq = ts.next_seq;
            capacity = default_capacity;
            head = 0;
            tail = p.1 % default_capacity;
            consumers = [];
          }))
          r.1,
      record {
        stands = record {
          slots = r.2.number ∙ fresh_slots default_capacity;
          room = omega arith;
          head = omega arith;
          fits = omega (arith, t.fits, c);
          tail = ap (λ (k : ℕ). k % default_capacity) r.2.next;
          held = subst (λ (k : ℕ). Holds r.0.0 k 0 xs) (fresh_slots default_capacity) r.2.held;
          numbered = t.numbered;
        };
        capacity = refl;
        next_seq = refl;
      },
    )
