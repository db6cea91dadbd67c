-- ===== src/Webhook/Publisher/Conserved.antt =====
-- internal/webhook/publisher.go: what holds of the publisher's channels and its worker in every state
-- that can be reached.
use mathlib.Core.List.{append_assoc}
use hexmagnet.Prelude.{
  ℕ, suc, ◌≡◌, ◌≢◌, ◌⊎◌, refl, sym, ap, subst, ◌∙◌, Bool, true, false, ◌==◌, ==_iff, if◌then◌else◌,
  Bool-cases, Option-cases, inl, inr, List, [], ◌∷◌, ◌++◌, length, none, some, arith,
}
use hexmagnet.Webhook.{Outside, Config, CompiledFilter, Envelope, publishable, queue_capacity}
use hexmagnet.Webhook.Publisher.{
  Phase, off, looping, waiting, draining, System, update, swap, start, stop, receive, store_filter,
  update_config, Step, Reach, begin, next, publishes, configures, swaps, moves, wakes, starts,
  stops, looks, takes, is_woken, cancels_loop, cancels_wait, drains, ends,
}
use hexmagnet.Webhook.Publisher.Sends.{
  count, count-append, held, IsSafe, initial-IsSafe, update_same, update_other, publish-IsSafe,
  move-IsSafe,
}

-- A channel with an envelope is the queue's, or the one that a resize empties.
full_channel :
    (s : System) (k : ℕ) (e : Envelope) (rest : List Envelope)
    → s.publisher.channels k ≡ e ∷ rest
    → IsSafe s
    → (k ≡ s.publisher.queue) ⊎ (s.writer ≡ some k)
full_channel s k e rest first v = elim (Bool-cases (k == s.publisher.queue)) [
  | inl h ↦ inl ((==_iff k s.publisher.queue).0 h)
  | inr h ↦ elim (Option-cases s.writer) [
    | inl free ↦ absurd (empty h (λ g. clash (sym free ∙ g)))
    | inr (w, busy) ↦ elim (Bool-cases (w == k)) [
      | inl g ↦ inr (busy ∙ ap some ((==_iff w k).0 g))
      | inr g ↦ absurd (empty h (λ x. other g (sym busy ∙ x)))
    ]
  ]
]
  where
    clash : none ≡ some k → ⊥
    clash p = cc

    other : {w : ℕ} → (w == k) ≡ false → some w ≡ some k → ⊥
    other h p = ground arith

    empty : (k == s.publisher.queue) ≡ false → s.writer ≢ some k → ⊥
    empty h g = ground (arith, v.stale k (λ (x : k ≡ s.publisher.queue). ground arith) g, first)

receive-IsSafe :
    (s : System) (k : ℕ) (e : Envelope) (rest : List Envelope) (next_phase : Phase)
    → s.publisher.channels k ≡ e ∷ rest
    → ((n : ℕ) → next_phase ≡ waiting n → ⊥)
    → IsSafe s
    → IsSafe (receive k rest e next_phase s)
unfolding receive
receive-IsSafe s k e rest next_phase first awake v = record {
  stale = λ n h g. update_other ch k n rest (apart n h g) ∙ v.stale n h g;
  writes = v.writes;
  woken = λ n h. absurd (awake n h);
  bound = elim (full_channel s k e rest first v) [
    | inl h ↦ omega (
      arith,
      ap length (update_same ch k q rest h),
      ap length first,
      ap (λ j. length (ch j)) h,
      v.bound,
    )
    | inr h ↦ omega (arith, ap length (update_other ch k q rest (later h)), v.bound)
  ];
  conserved = λ p. elim (full_channel s k e rest first v) [
    | inl h ↦ omega (
      arith,
      v.conserved p,
      ap (count p) (update_same ch k q rest h),
      ap (count p) first,
      ap (λ j. count p (ch j)) h,
      count-append p s.received (e ∷ []),
      ap (count p) (not_held h),
    )
    | inr h ↦ omega (
      arith,
      v.conserved p,
      ap (count p) (update_other ch k q rest (later h)),
      ap (count p) first,
      ap (count p) (update_same ch k k rest refl),
      count-append p s.received (e ∷ []),
      ap (λ w. count p (held w ch)) h,
      ap (λ w. count p (held w (update ch k rest))) h,
    )
  ];
  ordered = λ z. elim (full_channel s k e rest first v) [
    | inr h ↦ absurd (omega (arith, v.writes k h))
    | inl h ↦
        v.ordered z
        ∙ (ap (λ l. s.received ++ l) (ap ch (sym z ∙ sym h) ∙ first)
            ∙ (sym (append_assoc s.received (e ∷ []) rest)
                ∙ ap (λ l. (s.received ++ e ∷ []) ++ l) (sym (update_same ch k 0 rest (h ∙ z)))))
  ];
}
  where
    q : ℕ
    q = s.publisher.queue

    ch : ℕ → List Envelope
    ch = s.publisher.channels

    later : s.writer ≡ some k → q ≡ k → ⊥
    later busy h = omega (arith, v.writes k busy)

    apart : (n : ℕ) → n ≢ q → s.writer ≢ some n → n ≡ k → ⊥
    apart n h g same = elim (full_channel s k e rest first v) [
      | inl x ↦ h (same ∙ x)
      | inr x ↦ g (x ∙ ap some (sym same))
    ]

    not_held : k ≡ q → held s.writer (update ch k rest) ≡ held s.writer ch
    not_held h = elim (Option-cases s.writer) [
      | inl free ↦ rw free refl
      | inr (w, busy) ↦
          rw busy (update_other ch k w rest (λ (x : w ≡ k). omega (arith, v.writes w busy)))
    ]

swap-IsSafe : (s : System) (size : ℕ) → s.writer ≡ none → IsSafe s → IsSafe (swap size s)
unfolding swap
swap-IsSafe s size free v = elim (Bool-cases (s.publisher.capacity q == size)) [
  | inl same ↦ rw same v
  | inr new ↦ rw new (record {
    stale = λ n h g.
        update_other ch (suc q) n [] h
        ∙ v.stale n (λ x. g (ap some (sym x))) (λ x. clash n (sym free ∙ x));
    writes = λ n h. cc;
    woken = λ n h g x. cc;
    bound = omega (arith, ap length (update_same ch (suc q) (suc q) [] refl));
    conserved = λ p. omega (
      arith,
      v.conserved p,
      ap (count p) (update_same ch (suc q) (suc q) [] refl),
      ap (count p) (update_other ch (suc q) q [] (λ (x : q ≡ suc q). omega arith)),
      ap (λ w. count p (held w ch)) free,
    );
    ordered = λ z. absurd (omega arith);
  })
]
  where
    q : ℕ
    q = s.publisher.queue

    ch : ℕ → List Envelope
    ch = s.publisher.channels

    clash : (n : ℕ) → none ≡ some n → ⊥
    clash n p = cc

wakes-IsSafe :
    (s : System) (old : ℕ)
    → s.writer ≡ some old
    → s.publisher.channels old ≡ []
    → IsSafe s
    → IsSafe (record s { publisher = record (s.publisher) { wake = true }; writer = none })
wakes-IsSafe s old busy last v = record {
  stale = λ n h g. elim (Bool-cases (old == n)) [
    | inl x ↦ subst (λ k. s.publisher.channels k ≡ []) ((==_iff old n).0 x) last
    | inr x ↦ v.stale n h (λ y. other n x (sym busy ∙ y))
  ];
  writes = λ n h. cc;
  woken = λ n h g x. refl;
  bound = v.bound;
  conserved = λ p. omega (
    arith,
    v.conserved p,
    ap (count p) last,
    ap (λ w. count p (held w s.publisher.channels)) busy,
  );
  ordered = v.ordered;
}
  where
    other : (n : ℕ) → (old == n) ≡ false → some old ≡ some n → ⊥
    other n h p = ground arith

-- A step that leaves the channels and the lock as they are.
same-IsSafe :
    (s : System) (cfg : Config) (f : CompiledFilter) (wake started canceled : Bool) (now : Phase)
    → ((n : ℕ) → now ≡ waiting n → n ≢ s.publisher.queue → s.writer ≡ none → wake ≡ true)
    → IsSafe s
    → IsSafe (record s {
      publisher = record (s.publisher) {
        config = cfg;
        filters = f;
        wake = wake;
        started = started;
        canceled = canceled;
      };
      phase = now;
    })
same-IsSafe s cfg f wake started canceled now w v = record {
  stale = v.stale;
  writes = v.writes;
  woken = w;
  bound = v.bound;
  conserved = v.conserved;
  ordered = v.ordered;
}

if-IsSafe : (b : Bool) (s t : System) → IsSafe s → IsSafe t → IsSafe (if b then s else t)
if-IsSafe true s t v w = v
if-IsSafe false s t v w = w

draining_now : (s : System) → IsSafe s → IsSafe (record s { phase = draining s.publisher.queue })
draining_now s v =
    same-IsSafe s s.publisher.config s.publisher.filters s.publisher.wake s.publisher.started
      s.publisher.canceled (draining s.publisher.queue) (λ n h. cc) v

module _ (o : Outside) (cfg : Config) where
  step-IsSafe : {s t : System} → Step o s t → IsSafe s → IsSafe t
  unfolding start stop update_config store_filter
  step-IsSafe (publishes s cfg' f e free) v = publish-IsSafe s (publishable o cfg' f e) free v
  step-IsSafe (configures s cfg') v =
      same-IsSafe s cfg' (store_filter o cfg' s.publisher).filters s.publisher.wake
        s.publisher.started s.publisher.canceled s.phase v.woken v
  step-IsSafe (swaps s size free) v = swap-IsSafe s (queue_capacity size) free v
  step-IsSafe (moves s old e rest busy first) v = move-IsSafe s old e rest busy first v
  step-IsSafe (wakes s old busy last) v = wakes-IsSafe s old busy last v
  step-IsSafe (starts s idle) v = if-IsSafe s.publisher.started s _ v (
      same-IsSafe s s.publisher.config s.publisher.filters s.publisher.wake true false looping
        (λ n h. cc) v)
  step-IsSafe (stops s) v =
      if-IsSafe s.publisher.started _ s
        (same-IsSafe s s.publisher.config s.publisher.filters s.publisher.wake false true s.phase
          v.woken v)
        v
  step-IsSafe (looks s at free) v =
      same-IsSafe s s.publisher.config s.publisher.filters s.publisher.wake s.publisher.started
        s.publisher.canceled (waiting s.publisher.queue) (λ n h g x. absurd (g (cc))) v
  step-IsSafe (takes s k e rest at first) v = receive-IsSafe s k e rest looping first (λ n h. cc) v
  step-IsSafe (is_woken s k at token) v =
      same-IsSafe s s.publisher.config s.publisher.filters false s.publisher.started
        s.publisher.canceled looping (λ n h. cc) v
  step-IsSafe (cancels_loop s at done free) v = draining_now s v
  step-IsSafe (cancels_wait s k at done free) v = draining_now s v
  step-IsSafe (drains s k e rest at first) v =
      receive-IsSafe s k e rest (draining k) first (λ n h. cc) v
  step-IsSafe (ends s k at last) v =
      same-IsSafe s s.publisher.config s.publisher.filters s.publisher.wake s.publisher.started
        s.publisher.canceled off (λ n h. cc) v

  -- For a publisher and its worker, under any interleaving of Publish, Update, Start, Stop and the
  -- worker's steps, where a start waits for the worker before: the queue's channel holds no more
  -- than its capacity, and every channel but it and the one that a resize empties is empty; every
  -- accepted envelope has been received once, is once in the queue or still to be moved, or was
  -- dropped in a resize; before the first resize the received are the first accepted, in order;
  -- and a worker that waits on a channel that is no longer the queue's, after the resize, has a
  -- wake-up.
  pub Reach-IsSafe : (s : System) → Reach o cfg s → IsSafe s
  Reach-IsSafe s begin = initial-IsSafe o cfg
  Reach-IsSafe s (next {s = r} reached step) = step-IsSafe step (Reach-IsSafe r reached)
