-- ===== src/MemoryQueue/Topic/Ring.antt =====
-- internal/queue/memoryqueue/queue.go: the ring of a topic as the bounded queue that it stands for.
use native.Mathlib.Nat.{mod-eq_of_lt, mod-eq-sub-mod, add-mod_right}
use hexmagnet.Prelude.{
  ℕ, zero, suc, ◌+◌, ◌-◌, ◌%◌, ◌≤◌, ◌<◌, ◌≡◌, ◌≢◌, refl, sym, ◌∙◌, ap, subst, Bool, true, false,
  ◌==◌, ltb, Bool-cases, List, [], ◌∷◌, ◌++◌, Option, some, length, get_elem?, drop, arith, ◌⊎◌,
  inl, inr,
}
use hexmagnet.MemoryQueue.Topic.{
  Message, TopicState, set_at, keep_slot, collect, slot_count, any_message,
  serialize_topic_messages,
}

-- The messages stand in the slots from a place on.
abbrev pub Holds : List (Option Message) → ℕ → ℕ → List Message → Type 0
Holds slots capacity pos [] = Unit
Holds slots capacity pos (x ∷ xs) =
    (get_elem? slots (pos % capacity) ≡ some (some x)) × Holds slots capacity (suc pos) xs

-- Sequence numbers without a gap, from the first up to the next to be given.
abbrev pub Numbered : ℕ → List Message → ℕ → Type 0
Numbered first [] next = first ≡ next
Numbered first (x ∷ xs) next = (x.seq ≡ first) × Numbered (suc first) xs next

-- The topic stands for the queue `xs`, oldest first.
pub record IsTopic (ts : TopicState) (xs : List Message) : Type 0 where
  pub slots : length ts.messages ≡ ts.capacity
  pub room : 2 ≤ ts.capacity
  pub head : ts.head < ts.capacity
  pub fits : length xs < ts.capacity
  pub tail : ts.tail ≡ (ts.head + length xs) % ts.capacity
  pub held : Holds ts.messages ts.capacity ts.head xs
  pub numbered : (first : ℕ) × Numbered first xs ts.next_seq

-- The last `n` members.
abbrev pub keep_last : ℕ → List Message → List Message
keep_last n xs = drop (length xs - n) xs

module _ {ℓ} {A : Type ℓ} where
  pub length-set_at : (xs : List A) (i : ℕ) (a : A) → length (set_at xs i a) ≡ length xs
  length-set_at [] i a = refl
  length-set_at (x ∷ xs) zero a = refl
  length-set_at (x ∷ xs) (suc i) a = ap suc (length-set_at xs i a)

  pub get_elem?-set_at :
      (xs : List A) (i : ℕ) (a : A) → i < length xs → get_elem? (set_at xs i a) i ≡ some a
  get_elem?-set_at [] i a h = absurd (omega arith)
  get_elem?-set_at (x ∷ xs) zero a h = refl
  get_elem?-set_at (x ∷ xs) (suc i) a h = get_elem?-set_at xs i a (omega arith)

  pub get_elem?-set_at_other :
      (xs : List A) (i j : ℕ) (a : A) → i ≢ j → get_elem? (set_at xs i a) j ≡ get_elem? xs j
  get_elem?-set_at_other [] i j a h = refl
  get_elem?-set_at_other (x ∷ xs) zero zero a h = absurd (h refl)
  get_elem?-set_at_other (x ∷ xs) zero (suc j) a h = refl
  get_elem?-set_at_other (x ∷ xs) (suc i) zero a h = refl
  get_elem?-set_at_other (x ∷ xs) (suc i) (suc j) a h =
      get_elem?-set_at_other xs i j a (λ e. h (ap suc e))

-- A place below twice the capacity, reduced.
pub wrap : (a c : ℕ) → 0 < c → a < c + c → (a < c × (a % c ≡ a)) ⊎ (c ≤ a × (a % c ≡ a - c))
wrap a c p h = elim (Bool-cases (ltb a c)) [
  | inl e ↦ let lt = below e in inl (lt, mod-eq_of_lt lt)
  | inr e ↦ let ge = above e in inr (ge, mod-eq-sub-mod ge ∙ mod-eq_of_lt (omega arith))
]
  where
    below : ltb a c ≡ true → a < c
    below e = ground arith

    above : ltb a c ≡ false → c ≤ a
    above e = ground arith

-- Places closer than the capacity are different slots.
pub slots_differ : (c head i j : ℕ) → head < c → i < j → j < c → (head + j) % c ≢ (head + i) % c
slots_differ c head i j p q r e = elim (wrap (head + j) c (omega arith) (omega arith)) [
  | inl (a, b) ↦ elim (wrap (head + i) c (omega arith) (omega arith)) [
    | inl (a', b') ↦ omega arith
    | inr (a', b') ↦ omega arith
  ]
  | inr (a, b) ↦ elim (wrap (head + i) c (omega arith) (omega arith)) [
    | inl (a', b') ↦ omega arith
    | inr (a', b') ↦ omega arith
  ]
]

-- A place a whole capacity later is the same slot.
pub Holds-around :
    (slots : List (Option Message)) (c pos : ℕ) (xs : List Message)
    → Holds slots c (pos + c) xs
    → Holds slots c pos xs
Holds-around slots c pos [] h = tt
Holds-around slots c pos (x ∷ xs) h = (
  ap (get_elem? slots) (sym (add-mod_right pos c)) ∙ h.0,
  Holds-around slots c (suc pos) xs (subst (λ (k : ℕ). Holds slots c k xs) (omega arith) h.1),
)

pub Holds-store :
    (slots : List (Option Message)) (c head i : ℕ) (xs : List Message) (a : Option Message)
    → head < c
    → i + length xs < c
    → Holds slots c (head + i) xs
    → Holds (set_at slots ((head + i + length xs) % c) a) c (head + i) xs
Holds-store slots c head i [] a p q h = tt
Holds-store slots c head i (x ∷ xs) a p q h = (
  get_elem?-set_at_other slots ((head + i + suc (length xs)) % c) ((head + i) % c) a differs ∙ h.0,
  subst (λ (k : ℕ). Holds (set_at slots (k % c) a) c (suc (head + i)) xs) (omega arith)
      (subst (λ (k : ℕ). Holds (set_at slots ((k + length xs) % c) a) c k xs) (omega arith)
        (Holds-store slots c head (suc i) xs a p (omega arith)
          (subst (λ (k : ℕ). Holds slots c k xs) (omega arith) h.1))),
)
  where
    differs : (head + i + suc (length xs)) % c ≢ (head + i) % c
    differs e =
        slots_differ c head i (i + suc (length xs)) p (omega arith) (omega arith)
          (ap (λ (k : ℕ). k % c) (omega arith) ∙ e)

pub Holds-append :
    (slots : List (Option Message)) (c pos : ℕ) (xs : List Message) (x : Message)
    → Holds slots c pos xs
    → get_elem? slots ((pos + length xs) % c) ≡ some (some x)
    → Holds slots c pos (xs ++ x ∷ [])
Holds-append slots c pos [] x h e = (ap (λ (k : ℕ). get_elem? slots (k % c)) (omega arith) ∙ e, tt)
Holds-append slots c pos (y ∷ ys) x h e = (
  h.0,
  Holds-append slots c (suc pos) ys x h.1
      (ap (λ (k : ℕ). get_elem? slots (k % c)) (omega arith) ∙ e),
)

pub Numbered-append :
    (first next : ℕ) (xs : List Message) (x : Message)
    → Numbered first xs next
    → x.seq ≡ next
    → Numbered first (xs ++ x ∷ []) (suc next)
Numbered-append first next [] x h e = (e ∙ sym h, ap suc h)
Numbered-append first next (y ∷ ys) x h e = (h.0, Numbered-append (suc first) next ys x h.1 e)

-- What the loop over the slots finds.
pub keep_wanted : (Message → Bool) → List Message → List Message
keep_wanted wanted [] = []
keep_wanted wanted (x ∷ xs) = keep_slot wanted (some x) (keep_wanted wanted xs)

pub collect-Holds :
    (wanted : Message → Bool) (slots : List (Option Message)) (c pos : ℕ) (xs : List Message)
    → Holds slots c pos xs
    → collect wanted slots c pos (length xs) ≡ some (keep_wanted wanted xs)
unfolding collect keep_wanted
collect-Holds wanted slots c pos [] h = refl
collect-Holds wanted slots c pos (x ∷ xs) h =
    rw (h.0, collect-Holds wanted slots c (suc pos) xs h.1) refl

pub slot_count_lem :
    (ts : TopicState) (xs : List Message) → IsTopic ts xs → slot_count ts ≡ length xs
slot_count_lem ts xs t =
    elim (wrap (ts.head + length xs) ts.capacity (omega (arith, t.head))
      (omega (arith, t.head, t.fits))) [
        | inl (a, b) ↦
            ap (λ (k : ℕ). k % ts.capacity) (omega (arith, t.tail, b, t.head))
            ∙ (add-mod_right (length xs) ts.capacity ∙ mod-eq_of_lt t.fits)
        | inr (a, b) ↦
            ap (λ (k : ℕ). k % ts.capacity) (omega (arith, t.tail, b, t.head)) ∙ mod-eq_of_lt t.fits
      ]

pub keep_wanted-any : (xs : List Message) → keep_wanted any_message xs ≡ xs
unfolding keep_wanted
keep_wanted-any [] = refl
keep_wanted-any (x ∷ xs) = ap (λ t. x ∷ t) (keep_wanted-any xs)

pub collect_all :
    (wanted : Message → Bool) (ts : TopicState) (xs : List Message)
    → IsTopic ts xs
    → collect wanted ts.messages ts.capacity ts.head (slot_count ts) ≡ some (keep_wanted wanted xs)
collect_all wanted ts xs t =
    ap (collect wanted ts.messages ts.capacity ts.head) (slot_count_lem ts xs t)
    ∙ collect-Holds wanted ts.messages ts.capacity ts.head xs t.held

-- The messages that are serialised of a ring that stands for a list are that list.
pub serialize-IsTopic :
    (ts : TopicState) (xs : List Message) → IsTopic ts xs → serialize_topic_messages ts ≡ some xs
unfolding serialize_topic_messages
serialize-IsTopic ts xs t = elim (Bool-cases (ts.head == ts.tail)) [
  | inl e ↦ rw e (ap some (none_left xs t (ground (arith, e))))
  | inr e ↦ rw e (collect_all any_message ts xs t ∙ ap some (keep_wanted-any xs))
]
  where
    none_left : (xs : List Message) → IsTopic ts xs → ts.head ≡ ts.tail → [] ≡ xs
    none_left [] t e = refl
    none_left (x ∷ xs) t e = absurd (
        slots_differ ts.capacity ts.head 0 (suc (length xs)) t.head (omega arith) t.fits (
          sym t.tail
          ∙ (sym e ∙ (sym (mod-eq_of_lt t.head) ∙ ap (λ (k : ℕ). k % ts.capacity) (omega arith)))))
