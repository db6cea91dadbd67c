-- ===== src/Batching/Order.antt =====
-- internal/concurrency/batching_channel.go: the order and the size of the batches.
use mathlib.Core.List.{append_assoc, append-nil}
use hexmagnet.Prelude.{
  ℕ, suc, ◌≤◌, ◌≡◌, refl, sym, subst, ◌∙◌, ap, Bool, true, false, not, ◌&&◌, if◌then◌else◌, leb,
  ltb, ltb→lt, List, [], ◌∷◌, ◌++◌, length, All-append, none, some, arith,
}
use hexmagnet.Batching.{
  Worker, selecting, sending, BatchingChannel, Operation, send_in, handoff, close_input, receive_in,
  tick, put, take, is_nonempty, flush, tick_from, put_from, handoff_to, take_from, step,
}
use hexmagnet.Batching.Account.{
  concat, pending, accepted, head_of, taken, concat-append, IsBatch, Keeps, Reach, start, next,
  flush-Keeps, receive-Keeps, handoff-Keeps, send-Keeps,
}

module _ {A : Type 0} (capacity max_batch_size : ℕ) where
  tick-Keeps :
      (s : BatchingChannel A) (xs : List A) (bs : List (List A))
      → 1 ≤ max_batch_size
      → Keeps capacity max_batch_size s xs bs
      → (w : Worker A) → s.worker ≡ w
      → Keeps capacity max_batch_size (tick_from capacity max_batch_size w s) xs bs
  tick-Keeps s xs bs m k (sending b) ew = k
  tick-Keeps s xs bs m k selecting ew = by_case s.buffer refl
    where
      by_case :
          (u : List A)
          → s.buffer ≡ u
          → Keeps capacity max_batch_size
              (if is_nonempty u then flush capacity max_batch_size s else s)
              xs
              bs
      by_case [] e = k
      by_case (y ∷ u) e =
          flush-Keeps capacity max_batch_size s xs bs m (rw e (omega arith))
            (let l = k.buffer_size in omega (arith, l)) (rw ew at k.order) k.taken_sizes
            k.output_sizes k.input_size k.output_size

  put-Keeps :
      (s s' : BatchingChannel A) (xs : List A) (bs : List (List A))
      → Keeps capacity max_batch_size s xs bs
      → (w : Worker A) → s.worker ≡ w
      → put_from capacity max_batch_size w s ≡ some s'
      → Keeps capacity max_batch_size s' xs bs
  put-Keeps s s' xs bs k selecting ew h = cc
  put-Keeps s s' xs bs k (sending b) ew h = by_case s.output refl h
    where
      some-eq : {y : BatchingChannel A} → some y ≡ some s' → y ≡ s'
      some-eq h = cc

      full : (n : ℕ) → leb 1 (suc n) ≡ true
      full n = ground arith

      clash : none ≡ some s' → ⊥
      clash h = cc

      by_case :
          (u : List (List A))
          → s.output ≡ u
          → (if leb 1 (length u)
              then none
              else some (record s { output = s.output ++ b ∷ []; worker = selecting }))
            ≡ some s'
          → Keeps capacity max_batch_size s' xs bs
      by_case (y ∷ u) e h = absurd (clash (rw (full (length u)) at h))
      by_case [] e h =
          subst (λ y. Keeps capacity max_batch_size y xs bs) (some-eq h)
            (record {
              order = rw e (rw (append-nil b) (rw (ew, e) at k.order));
              taken_sizes = k.taken_sizes;
              output_sizes = rw e ((rw ew at k.worker_size).0, tt);
              worker_size = tt;
              buffer_size = k.buffer_size;
              input_size = k.input_size;
              output_size = rw e (omega arith);
            })

  take-Keeps :
      (s s' : BatchingChannel A) (xs : List A) (bs : List (List A))
      → Keeps capacity max_batch_size s xs bs
      → (u : List (List A)) → s.output ≡ u
      → take_from capacity max_batch_size u s ≡ some s'
      → Keeps capacity max_batch_size s' xs (bs ++ head_of u)
  take-Keeps s s' xs bs k [] e h = cc
  take-Keeps s s' xs bs k (b ∷ u) e h =
      subst (λ y. Keeps capacity max_batch_size y xs (bs ++ b ∷ [])) (some-eq h)
        (record {
          order = moved (pending s.worker ++ (s.buffer ++ s.input)) (rw e at k.order);
          taken_sizes =
              All-append (IsBatch capacity max_batch_size) bs (b ∷ []) k.taken_sizes
                ((rw e at k.output_sizes).0, tt);
          output_sizes = (rw e at k.output_sizes).1;
          worker_size = k.worker_size;
          buffer_size = k.buffer_size;
          input_size = k.input_size;
          output_size = le (rw e at k.output_size);
        })
    where
      some-eq : {y : BatchingChannel A} → some y ≡ some s' → y ≡ s'
      some-eq h = cc

      moved :
          (r : List A)
          → concat bs ++ ((b ++ concat u) ++ r) ≡ xs
          → concat (bs ++ b ∷ []) ++ (concat u ++ r) ≡ xs
      moved r p = rw (concat-append bs (b ∷ [])) (
          rw (append-nil b) (
            append_assoc (concat bs) b (concat u ++ r)
            ∙ (ap (λ l. concat bs ++ l) (sym (append_assoc b (concat u) r)) ∙ p)))

      le : suc (length u) ≤ 1 → length u ≤ 1
      le l = omega (arith, l)

  pub step-Keeps :
      (s s' : BatchingChannel A) (xs : List A) (bs : List (List A)) (o : Operation A)
      → 1 ≤ max_batch_size
      → Keeps capacity max_batch_size s xs bs
      → step capacity max_batch_size o s ≡ some s'
      → Keeps capacity max_batch_size s' (xs ++ accepted o) (bs ++ taken o s)
  unfolding step
  step-Keeps s s' xs bs (send_in x) m k h =
      rw (append-nil bs) (by_case s.input_closed (ltb (length s.input) capacity) refl h)
    where
      some-eq : {y : BatchingChannel A} → some y ≡ some s' → y ≡ s'
      some-eq h = cc

      by_case :
          (c f : Bool)
          → ltb (length s.input) capacity ≡ f
          → (if not c && f then some (record s { input = s.input ++ x ∷ [] }) else none) ≡ some s'
          → Keeps capacity max_batch_size s' (xs ++ x ∷ []) bs
      by_case true f e h = cc
      by_case false false e h = cc
      by_case false true e h =
          subst (λ y. Keeps capacity max_batch_size y (xs ++ x ∷ []) bs) (some-eq h)
            (send-Keeps capacity max_batch_size s xs bs x k (ltb→lt (length s.input) capacity e))
  step-Keeps s s' xs bs (handoff x) m k h = rw (append-nil bs) (by_case s.input_closed h)
    where
      by_case :
          (c : Bool)
          → (if c then none else handoff_to capacity max_batch_size x s.input s.worker s) ≡ some s'
          → Keeps capacity max_batch_size s' (xs ++ x ∷ []) bs
      by_case true h = cc
      by_case false h =
          handoff-Keeps capacity max_batch_size s s' xs bs x m k s.input s.worker refl refl h
  step-Keeps s s' xs bs close_input m k h =
      rw (append-nil bs) (rw (append-nil xs) (by_case s.input_closed h))
    where
      some-eq : {y : BatchingChannel A} → some y ≡ some s' → y ≡ s'
      some-eq h = cc

      by_case :
          (c : Bool)
          → (if c then none else some (record s { input_closed = true })) ≡ some s'
          → Keeps capacity max_batch_size s' xs bs
      by_case true h = cc
      by_case false h =
          subst (λ y. Keeps capacity max_batch_size y xs bs) (some-eq h)
            (record {
              order = k.order;
              taken_sizes = k.taken_sizes;
              output_sizes = k.output_sizes;
              worker_size = k.worker_size;
              buffer_size = k.buffer_size;
              input_size = k.input_size;
              output_size = k.output_size;
            })
  step-Keeps s s' xs bs receive_in m k h = rw (append-nil bs) (
      rw (append-nil xs) (
        receive-Keeps capacity max_batch_size s s' xs bs m k s.input s.input_closed s.worker refl
          refl h))
  step-Keeps s s' xs bs tick m k h = rw (append-nil bs) (
      rw (append-nil xs) (
        subst (λ y. Keeps capacity max_batch_size y xs bs) (some-eq h)
          (tick-Keeps s xs bs m k s.worker refl)))
    where
      some-eq : {y : BatchingChannel A} → some y ≡ some s' → y ≡ s'
      some-eq h = cc
  step-Keeps s s' xs bs put m k h =
      rw (append-nil bs) (rw (append-nil xs) (put-Keeps s s' xs bs k s.worker refl h))
  step-Keeps s s' xs bs take m k h = rw (append-nil xs) (take-Keeps s s' xs bs k s.output refl h)

  -- In every history of a batching channel whose maximum is at least one, the elements that are
  -- accepted are, in their order, in the batches that have been taken, in those that have not, in
  -- the buffer and in the input; and every batch has at least one element and at most the maximum.
  pub Reach-Keeps :
      1 ≤ max_batch_size
      → (s : BatchingChannel A) (xs : List A) (bs : List (List A))
      → Reach capacity max_batch_size s xs bs
      → Keeps capacity max_batch_size s xs bs
  Reach-Keeps m s xs bs start = record {
    order = refl;
    taken_sizes = tt;
    output_sizes = tt;
    worker_size = tt;
    buffer_size = omega (arith, m);
    input_size = omega arith;
    output_size = omega arith;
  }
  Reach-Keeps m s xs bs (next s₀ s₁ xs₀ bs₀ o r h) =
      step-Keeps s₀ s₁ xs₀ bs₀ o m (Reach-Keeps m s₀ xs₀ bs₀ r) h
