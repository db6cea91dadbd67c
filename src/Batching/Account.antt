-- ===== src/Batching/Account.antt =====
-- internal/concurrency/batching_channel.go: where the accepted elements are, and the steps that accept them
-- or receive them from the input.
use mathlib.Core.List.{append_assoc, append-nil}
use hexmagnet.Prelude.{
  ℕ, suc, ◌<◌, ◌≤◌, ◌≡◌, refl, sym, subst, ◌∙◌, ap, Bool, true, false, leb, Bool-cases, inl, inr,
  List, [], ◌∷◌, ◌++◌, length, length-append, All, some, arith,
}
use hexmagnet.Batching.{
  Worker, selecting, sending, BatchingChannel, Operation, send_in, handoff, close_input, receive_in,
  tick, put, take, new, flush, append_next, receive_from, handoff_to, step,
}

abbrev pub concat : {A : Type 0} → List (List A) → List A
concat [] = []
concat (b ∷ bs) = b ++ concat bs

abbrev pub pending : {A : Type 0} → Worker A → List A
pending selecting = []
pending (sending b) = b

-- What has been accepted, and what is taken.
abbrev pub accepted : {A : Type 0} → Operation A → List A
accepted (send_in x) = x ∷ []
accepted (handoff x) = x ∷ []
accepted close_input = []
accepted receive_in = []
accepted tick = []
accepted put = []
accepted take = []

abbrev pub head_of : {A : Type 0} → List (List A) → List (List A)
head_of [] = []
head_of (b ∷ bs) = b ∷ []

abbrev pub taken : {A : Type 0} → Operation A → BatchingChannel A → List (List A)
taken take s = head_of s.output
taken (send_in x) s = []
taken (handoff x) s = []
taken close_input s = []
taken receive_in s = []
taken tick s = []
taken put s = []

pub concat-append :
    {A : Type 0} (bs cs : List (List A)) → concat (bs ++ cs) ≡ concat bs ++ concat cs
concat-append [] cs = refl
concat-append (b ∷ bs) cs =
    ap (λ l. b ++ l) (concat-append bs cs) ∙ sym (append_assoc b (concat bs) (concat cs))

pub append-end :
    {A : Type 0} (a b c : List A) (x : A) → (a ++ (b ++ c)) ++ x ∷ [] ≡ a ++ (b ++ (c ++ x ∷ []))
append-end a b c x = append_assoc a (b ++ c) (x ∷ []) ∙ ap (λ u. a ++ u) (append_assoc b c (x ∷ []))

abbrev pub batch_of : {A : Type 0} → Worker A → List (List A)
batch_of selecting = []
batch_of (sending b) = b ∷ []

module _ {A : Type 0} (capacity max_batch_size : ℕ) where
  abbrev pub IsBatch : List A → Type 0
  IsBatch b = (0 < length b) × (length b ≤ max_batch_size)

  -- The accepted are, in their order, in the batches that have been taken, in those that have not, in the
  -- buffer and in the input.
  pub record Keeps (s : BatchingChannel A) (xs : List A) (bs : List (List A)) : Type 0 where
    pub order : concat bs ++ (concat s.output ++ (pending s.worker ++ (s.buffer ++ s.input))) ≡ xs
    pub taken_sizes : All IsBatch bs
    pub output_sizes : All IsBatch s.output
    pub worker_size : All IsBatch (batch_of s.worker)
    pub buffer_size : length s.buffer < max_batch_size
    pub input_size : length s.input ≤ capacity
    pub output_size : length s.output ≤ 1

  pub data Reach : BatchingChannel A → List A → List (List A) → Type 0 where
    start : Reach (new capacity max_batch_size) [] []
    next :
        (s s' : BatchingChannel A) (xs : List A) (bs : List (List A)) (o : Operation A)
        → Reach s xs bs
        → step capacity max_batch_size o s ≡ some s'
        → Reach s' (xs ++ accepted o) (bs ++ taken o s)

  pub flush-Keeps :
      (s : BatchingChannel A) (xs : List A) (bs : List (List A))
      → 1 ≤ max_batch_size
      → 0 < length s.buffer
      → length s.buffer ≤ max_batch_size
      → concat bs ++ (concat s.output ++ (s.buffer ++ s.input)) ≡ xs
      → All IsBatch bs
      → All IsBatch s.output
      → length s.input ≤ capacity
      → length s.output ≤ 1
      → Keeps (flush capacity max_batch_size s) xs bs
  flush-Keeps s xs bs m l l' e tb ob i o = record {
    order = e;
    taken_sizes = tb;
    output_sizes = ob;
    worker_size = ((l, l'), tt);
    buffer_size = omega (arith, m);
    input_size = i;
    output_size = o;
  }

  pub next-Keeps :
      (s : BatchingChannel A) (xs : List A) (bs : List (List A)) (x : A)
      → 1 ≤ max_batch_size
      → s.worker ≡ selecting
      → length s.buffer < max_batch_size
      → concat bs ++ (concat s.output ++ ((s.buffer ++ x ∷ []) ++ s.input)) ≡ xs
      → All IsBatch bs
      → All IsBatch s.output
      → length s.input ≤ capacity
      → length s.output ≤ 1
      → Keeps (append_next capacity max_batch_size x s) xs bs
  next-Keeps s xs bs x m w l e tb ob i o =
      elim (Bool-cases (leb max_batch_size (length (s.buffer ++ x ∷ [])))) [
        | inl g ↦ rw g (
            flush-Keeps (record s { buffer = s.buffer ++ x ∷ [] }) xs bs m (omega (arith, longer))
              (omega (arith, longer, l)) e tb ob i o)
        | inr g ↦ rw g (record {
          order = rw w e;
          taken_sizes = tb;
          output_sizes = ob;
          worker_size = rw w tt;
          buffer_size = not_leb g;
          input_size = i;
          output_size = o;
        })
      ]
    where
      longer : length (s.buffer ++ x ∷ []) ≡ suc (length s.buffer)
      longer = omega (arith, length-append s.buffer (x ∷ []))

      not_leb :
          leb max_batch_size (length (s.buffer ++ x ∷ [])) ≡ false
          → length (s.buffer ++ x ∷ []) < max_batch_size
      not_leb g = ground arith

  -- Each step keeps it.
  pub receive-Keeps :
      (s s' : BatchingChannel A) (xs : List A) (bs : List (List A))
      → 1 ≤ max_batch_size
      → Keeps s xs bs
      → (i : List A) (c : Bool) (w : Worker A) → s.input ≡ i
      → s.worker ≡ w
      → receive_from capacity max_batch_size i c w s ≡ some s'
      → Keeps s' xs bs
  receive-Keeps s s' xs bs m k [] true selecting ei ew h =
      let e : s ≡ s' = cc in subst (λ x. Keeps x xs bs) e k
  receive-Keeps s s' xs bs m k [] false selecting ei ew h = cc
  receive-Keeps s s' xs bs m k [] c (sending b) ei ew h = cc
  receive-Keeps s s' xs bs m k (x ∷ i) c (sending b) ei ew h = cc
  receive-Keeps s s' xs bs m k (x ∷ i) c selecting ei ew h =
      subst (λ y. Keeps y xs bs) (some-eq h)
        (next-Keeps (record s { input = i }) xs bs x m ew k.buffer_size
          (rw (append_assoc s.buffer (x ∷ []) i) (rw (ew, ei) at k.order)) k.taken_sizes
          k.output_sizes (le (rw ei at k.input_size)) k.output_size)
    where
      le : suc (length i) ≤ capacity → length i ≤ capacity
      le l = omega (arith, l)

      some-eq : {y : BatchingChannel A} → some y ≡ some s' → y ≡ s'
      some-eq h = cc

  pub handoff-Keeps :
      (s s' : BatchingChannel A) (xs : List A) (bs : List (List A)) (x : A)
      → 1 ≤ max_batch_size
      → Keeps s xs bs
      → (i : List A) (w : Worker A) → s.input ≡ i
      → s.worker ≡ w
      → handoff_to capacity max_batch_size x i w s ≡ some s'
      → Keeps s' (xs ++ x ∷ []) bs
  handoff-Keeps s s' xs bs x m k (y ∷ ys) selecting ei ew h = cc
  handoff-Keeps s s' xs bs x m k [] (sending b) ei ew h = cc
  handoff-Keeps s s' xs bs x m k (y ∷ ys) (sending b) ei ew h = cc
  handoff-Keeps s s' xs bs x m k [] selecting ei ew h =
      subst (λ y. Keeps y (xs ++ x ∷ []) bs) (some-eq h)
        (next-Keeps s (xs ++ x ∷ []) bs x m ew k.buffer_size
          (rw ei (moved (s.buffer) (rw (ew, ei) at k.order))) k.taken_sizes k.output_sizes
          k.input_size k.output_size)
    where
      some-eq : {y : BatchingChannel A} → some y ≡ some s' → y ≡ s'
      some-eq h = cc

      moved :
          (u : List A)
          → concat bs ++ (concat s.output ++ (u ++ [])) ≡ xs
          → concat bs ++ (concat s.output ++ ((u ++ x ∷ []) ++ [])) ≡ xs ++ x ∷ []
      moved u e = rw (append-nil (u ++ x ∷ [])) (
          sym (append-end (concat bs) (concat s.output) u x)
          ∙ ap (λ l. l ++ x ∷ []) (rw (append-nil u) at e))

  pub send-Keeps :
      (s : BatchingChannel A) (xs : List A) (bs : List (List A)) (x : A)
      → Keeps s xs bs
      → length s.input < capacity
      → Keeps (record s { input = s.input ++ x ∷ [] }) (xs ++ x ∷ []) bs
  send-Keeps s xs bs x k l = record {
    order =
        sym (
          append-end (concat bs) (concat s.output) (pending s.worker ++ (s.buffer ++ s.input)) x
          ∙ ap (λ u. concat bs ++ (concat s.output ++ u))
              (append_assoc (pending s.worker) (s.buffer ++ s.input) (x ∷ [])
                ∙ ap (λ u. pending s.worker ++ u) (append_assoc s.buffer s.input (x ∷ []))))
        ∙ ap (λ u. u ++ x ∷ []) k.order;
    taken_sizes = k.taken_sizes;
    output_sizes = k.output_sizes;
    worker_size = k.worker_size;
    buffer_size = k.buffer_size;
    input_size = let e = length-append s.input (x ∷ []) in omega (arith, e, l);
    output_size = k.output_size;
  }
