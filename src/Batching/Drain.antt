-- ===== src/Batching/Drain.antt =====
-- internal/concurrency/batching_channel.go: that all that is accepted can be taken.
use mathlib.Core.List.{append_assoc, append-nil}
use hexmagnet.Prelude.{
  ℕ, suc, ◌⊎◌, ◌≤◌, ◌≡◌, refl, sym, subst, ◌∙◌, ap, Bool, true, false, if◌then◌else◌, leb, inl, inr,
  List, [], ◌∷◌, ◌++◌, length, some, arith,
}
use hexmagnet.Batching.{
  Worker, selecting, sending, BatchingChannel, Operation, receive_in, tick, put, take, flush,
  append_next, receive_from, step,
}
use hexmagnet.Batching.Account.{concat, accepted, taken, Keeps, Reach}
use hexmagnet.Batching.Order.{step-Keeps, Reach-Keeps}

-- The operations that accept nothing and close nothing.
abbrev pub IsInner : {A : Type 0} → Operation A → Type 0
IsInner o = (o ≡ receive_in) ⊎ ((o ≡ tick) ⊎ ((o ≡ put) ⊎ (o ≡ take)))

module _ {A : Type 0} (capacity max_batch_size : ℕ) where
  -- Some such operations, and the batches that are taken by them.
  pub data Drains : BatchingChannel A → List (List A) → BatchingChannel A → Type 0 where
    stop : (s : BatchingChannel A) → Drains s [] s
    go :
        (s s₁ s' : BatchingChannel A) (bs : List (List A)) (o : Operation A)
        → IsInner o
        → step capacity max_batch_size o s ≡ some s₁
        → Drains s₁ bs s'
        → Drains s (taken o s ++ bs) s'

  Drains-trans :
      (s t u : BatchingChannel A) (bs cs : List (List A))
      → Drains s bs t
      → Drains t cs u
      → Drains s (bs ++ cs) u
  Drains-trans s t u bs cs (stop s₀) e = e
  Drains-trans s t u bs cs (go s₀ s₁ t₀ bs₁ o i h d) e =
      subst (λ l. Drains s₀ l u) (sym (append_assoc (taken o s₀) bs₁ cs))
        (go s₀ s₁ u (bs₁ ++ cs) o i h (Drains-trans s₁ t₀ u bs₁ cs d e))

  inner-accepted : (o : Operation A) → IsInner o → accepted o ≡ []
  inner-accepted o (inl e) = rw e refl
  inner-accepted o (inr (inl e)) = rw e refl
  inner-accepted o (inr (inr (inl e))) = rw e refl
  inner-accepted o (inr (inr (inr e))) = rw e refl

  Drains-Keeps :
      (s s' : BatchingChannel A) (xs : List A) (bs cs : List (List A))
      → 1 ≤ max_batch_size
      → Keeps capacity max_batch_size s xs bs
      → Drains s cs s'
      → Keeps capacity max_batch_size s' xs (bs ++ cs)
  Drains-Keeps s s' xs bs cs m k (stop s₀) = rw (append-nil bs) k
  Drains-Keeps s s' xs bs cs m k (go s₀ s₁ s₂ cs₁ o i h d) =
      subst (Keeps capacity max_batch_size s₂ xs) (append_assoc bs (taken o s₀) cs₁) (
        Drains-Keeps s₁ s₂ xs (bs ++ taken o s₀) cs₁ m
          (subst (λ l. Keeps capacity max_batch_size s₁ l (bs ++ taken o s₀))
            (ap (λ l. xs ++ l) (inner-accepted o i) ∙ append-nil xs)
            (step-Keeps capacity max_batch_size s₀ s₁ xs bs o m k h))
          d)

  -- What is left when all is out but the buffer and the input.
  record Idle (s : BatchingChannel A) (buffer input : List A) : Type 0 where
    pub batches : List (List A)
    pub state : BatchingChannel A
    pub drains : Drains s batches state
    pub output_nil : state.output ≡ []
    pub waits : state.worker ≡ selecting
    pub buffer_same : state.buffer ≡ buffer
    pub input_same : state.input ≡ input

  put_out :
      (s : BatchingChannel A) (w : Worker A)
      → s.worker ≡ w
      → s.output ≡ []
      → Idle s s.buffer s.input
  unfolding step
  put_out s selecting ew eo = record {
    batches = [];
    state = s;
    drains = stop s;
    output_nil = eo;
    waits = ew;
    buffer_same = refl;
    input_same = refl;
  }
  put_out s (sending b) ew eo = record {
    batches = b ∷ [];
    state = record s { output = []; worker = selecting };
    drains =
        go s (record s { output = b ∷ []; worker = selecting })
          (record s { output = []; worker = selecting }) (b ∷ []) put (inr (inr (inl refl)))
          (rw (ew, eo) refl)
          (go (record s { output = b ∷ []; worker = selecting })
            (record s { output = []; worker = selecting })
            (record s { output = []; worker = selecting }) [] take (inr (inr (inr refl))) refl
            (stop (record s { output = []; worker = selecting })));
    output_nil = refl;
    waits = refl;
    buffer_same = refl;
    input_same = refl;
  }

  take_out :
      (s : BatchingChannel A) (u : List (List A))
      → s.output ≡ u
      → length u ≤ 1
      → Idle s s.buffer s.input
  unfolding step
  take_out s [] e l = put_out s s.worker refl e
  take_out s (b ∷ (b' ∷ u)) e l = absurd (two l)
    where
      two : suc (suc (length u)) ≤ 1 → ⊥
      two l = omega (arith, l)
  take_out s (b ∷ []) e l =
      let r = put_out (record s { output = [] }) s.worker refl refl in
      record {
        batches = taken take s ++ r.batches;
        state = r.state;
        drains =
            go s (record s { output = [] }) r.state r.batches take (inr (inr (inr refl)))
              (rw e refl) r.drains;
        output_nil = r.output_nil;
        waits = r.waits;
        buffer_same = r.buffer_same;
        input_same = r.input_same;
      }

  -- A state with nothing in it, and the batches that are taken on the way to it.
  pub record Emptied (s : BatchingChannel A) : Type 0 where
    pub batches : List (List A)
    pub state : BatchingChannel A
    pub drains : Drains s batches state
    pub output_nil : state.output ≡ []
    pub waits : state.worker ≡ selecting
    pub buffer_nil : state.buffer ≡ []
    pub input_nil : state.input ≡ []

  after : (s t : BatchingChannel A) (bs : List (List A)) → Drains s bs t → Emptied t → Emptied s
  after s t bs d e = record {
    batches = bs ++ e.batches;
    state = e.state;
    drains = Drains-trans s t e.state bs e.batches d e.drains;
    output_nil = e.output_nil;
    waits = e.waits;
    buffer_nil = e.buffer_nil;
    input_nil = e.input_nil;
  }

  one_step :
      (s t : BatchingChannel A) (o : Operation A)
      → IsInner o
      → step capacity max_batch_size o s ≡ some t
      → Drains s (taken o s ++ []) t
  one_step s t o i h = go s t t [] o i h (stop t)

  empty_buffer :
      (t : BatchingChannel A) (u : List A)
      → t.buffer ≡ u
      → t.output ≡ []
      → t.worker ≡ selecting
      → t.input ≡ []
      → Emptied t
  unfolding step
  empty_buffer t [] eb eo ew ei = record {
    batches = [];
    state = t;
    drains = stop t;
    output_nil = eo;
    waits = ew;
    buffer_nil = eb;
    input_nil = ei;
  }
  empty_buffer t (y ∷ u) eb eo ew ei =
      let r = put_out (flush capacity max_batch_size t) (sending t.buffer) refl eo in
      after t (flush capacity max_batch_size t) (taken tick t ++ [])
        (one_step t (flush capacity max_batch_size t) tick (inr (inl refl)) (rw (ew, eb) refl))
        (record {
          batches = r.batches;
          state = r.state;
          drains = r.drains;
          output_nil = r.output_nil;
          waits = r.waits;
          buffer_nil = r.buffer_same;
          input_nil = r.input_same ∙ ei;
        })

  append_next-input :
      (x : A) (t : BatchingChannel A) → (append_next capacity max_batch_size x t).input ≡ t.input
  append_next-input x t = by_case (leb max_batch_size (length (t.buffer ++ x ∷ [])))
    where
      by_case :
          (b : Bool)
          → (if b
              then flush capacity max_batch_size (record t { buffer = t.buffer ++ x ∷ [] })
              else record t { buffer = t.buffer ++ x ∷ [] }).input
            ≡ t.input
      by_case true = refl
      by_case false = refl

  receive_step :
      (x : A) (i : List A) (s : BatchingChannel A)
      → s.input ≡ x ∷ i
      → s.worker ≡ selecting
      → step capacity max_batch_size receive_in s
        ≡ some (append_next capacity max_batch_size x (record s { input = i }))
  unfolding step
  receive_step x i s ei ew = from s.input s.worker ei ew
    where
      from :
          (j : List A) (w : Worker A)
          → j ≡ x ∷ i
          → w ≡ selecting
          → receive_from capacity max_batch_size j s.input_closed w s
            ≡ some (append_next capacity max_batch_size x (record s { input = i }))
      from j w e e' = rw (e, e') refl

  empty_all :
      (i : List A) (s : BatchingChannel A) (xs : List A) (bs : List (List A))
      → 1 ≤ max_batch_size
      → Keeps capacity max_batch_size s xs bs
      → s.input ≡ i
      → Emptied s
  empty_all [] s xs bs m k ei =
      let r = take_out s s.output refl k.output_size in
      after s r.state r.batches r.drains
        (empty_buffer r.state r.state.buffer refl r.output_nil r.waits (r.input_same ∙ ei))
  empty_all (x ∷ i) s xs bs m k ei =
      let r = take_out s s.output refl k.output_size in
      let t = append_next capacity max_batch_size x (record (r.state) { input = i }) in
      let d : Drains r.state (taken receive_in r.state ++ []) t =
        one_step r.state t receive_in (inl refl)
          (receive_step x i r.state (r.input_same ∙ ei) r.waits) in
      let d' = Drains-trans s r.state t r.batches (taken receive_in r.state ++ []) r.drains d in
      after s t (r.batches ++ (taken receive_in r.state ++ [])) d' (
        empty_all i t xs (bs ++ (r.batches ++ (taken receive_in r.state ++ []))) m
          (Drains-Keeps s t xs bs (r.batches ++ (taken receive_in r.state ++ [])) m k d')
          (append_next-input x (record (r.state) { input = i })))

  -- From every state of a history of a batching channel whose maximum is at least one, the
  -- goroutine and those who take batches can go on, with nothing more accepted and whether or not
  -- the input is closed, until the batches that have been taken are all that was accepted, in its
  -- order.
  pub Reach-Drains :
      1 ≤ max_batch_size
      → (s : BatchingChannel A) (xs : List A) (bs : List (List A))
      → Reach capacity max_batch_size s xs bs
      → (s' : BatchingChannel A) × (cs : List (List A)) × Drains s cs s' × (concat (bs ++ cs) ≡ xs)
  Reach-Drains m s xs bs r =
      let k = Reach-Keeps capacity max_batch_size m s xs bs r in
      let e = empty_all s.input s xs bs m k refl in
      let k' = Drains-Keeps s e.state xs bs e.batches m k e.drains in
      (
        e.state,
        e.batches,
        e.drains,
        sym (append-nil (concat (bs ++ e.batches)))
            ∙ (rw (e.output_nil, e.waits, e.buffer_nil, e.input_nil) at k'.order),
      )
