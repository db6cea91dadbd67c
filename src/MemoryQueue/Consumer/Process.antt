-- ===== src/MemoryQueue/Consumer/Process.antt =====
-- internal/queue/memoryqueue/consumer.go: what becomes of a message that is processed.
use hexmagnet.Prelude.{
  ℕ, zero, suc, ◌+◌, ◌^◌, ◌≤◌, ◌<◌, ◌≡◌, refl, inl, inr, Bool, true, false, leb, Bool-cases, Option,
  some, arith,
}
use hexmagnet.MemoryQueue.Topic.{Message}
use hexmagnet.MemoryQueue.Queue.{MemoryQueue}
use hexmagnet.MemoryQueue.Consumer.{
  Consumer, Attempt, Ending, continues, stops, panicked, Processed, advance_offset,
  already_processed, process_loop, process,
}
use hexmagnet.MemoryQueue.Consumer.Offsets.{already_processed-advance_offset}

-- What becomes of the queue by the first calls of the handler, and by others meanwhile.
abbrev pub effects : (ℕ → Attempt) → ℕ → MemoryQueue → MemoryQueue
effects env zero mq = mq
effects env (suc n) mq = (env (suc n)).effect (effects env n mq)

-- The first calls of the handler failed, and were to be tried again.
abbrev pub AreRetried : (ℕ → Attempt) → ℕ → Type 0
AreRetried env zero = Unit
AreRetried env (suc n) =
    ((env (suc n)).panics ≡ false)
    × ((env (suc n)).fails ≡ true)
    × ((env (suc n)).done ≡ false)
    × ((env (suc n)).permanent ≡ false)
    × ((env (suc n)).wait_fails ≡ false)
    × AreRetried env n

-- How the last attempt ends. With the answer that the loop is to go on: without an error, with a
-- permanent one, or as the last that is allowed; with the other answer: with an error, where the
-- context is done or the wait is broken off.
abbrev pub EndsBy : ℕ → ℕ → Attempt → Ending → Type 0
EndsBy limit calls last continues =
    (last.panics ≡ false) × (last.fails ≡ true → last.permanent ≡ false → calls ≡ limit)
EndsBy limit calls last stops =
    (last.panics ≡ false) × (last.fails ≡ true) × (last.done ≡ false → last.wait_fails ≡ true)
EndsBy limit calls last panicked = last.panics ≡ true

-- The queue at the end: past the message only if the loop is to go on.
abbrev pub left : Consumer → Message → Ending → MemoryQueue → MemoryQueue
left c msg continues met = advance_offset c met msg
left c msg stops met = met
left c msg panicked met = met

-- The message was taken before, or the handler is called for it, once at least.
pub data Settled (env : ℕ → Attempt) (c : Consumer) (mq : MemoryQueue) (msg : Message)
    (r : Processed) : Type 0 where
  known :
      already_processed c mq msg ≡ true
      → r ≡ record { queue = mq; ending = continues; calls = 0 }
      → Settled env c mq msg r
  tried :
      (n : ℕ)
      → already_processed c mq msg ≡ false
      → r.calls ≡ suc n
      → suc n ≤ mq.max_attempts
      → AreRetried env n
      → EndsBy mq.max_attempts (suc n) (env (suc n)) r.ending
      → r.queue ≡ left c msg r.ending (effects env (suc n) mq)
      → (r.ending ≡ continues → already_processed c r.queue msg ≡ true)
      → Settled env c mq msg r

module _ (env : ℕ → Attempt) (c : Consumer) (msg : Message) (mq : MemoryQueue)
    (fresh : already_processed c mq msg ≡ false) (h : suc msg.seq < 2 ^ 64) where
  Ends : Option Processed → Type 0
  Ends o = (r : Processed) × (o ≡ some r) × Settled env c mq msg r

  ends :
      (n : ℕ) (e : Ending)
      → suc n ≤ mq.max_attempts
      → AreRetried env n
      → EndsBy mq.max_attempts (suc n) (env (suc n)) e
      → Ends (
          some
            (record { queue = left c msg e (effects env (suc n) mq); ending = e; calls = suc n }))
  unfolding Ends
  ends n e k a b = (
    record { queue = left c msg e (effects env (suc n) mq); ending = e; calls = suc n },
    refl,
    tried n fresh refl k a b refl (taken e),
  )
    where
      taken :
          (e : Ending)
          → e ≡ continues
          → already_processed c (left c msg e (effects env (suc n) mq)) msg ≡ true
      taken continues p = already_processed-advance_offset c (effects env (suc n) mq) msg h
      taken stops p = cc
      taken panicked p = cc

  process_loop_settles :
      (fuel n : ℕ)
      → suc n ≤ mq.max_attempts
      → AreRetried env n
      → mq.max_attempts < suc n + fuel
      → Ends (process_loop env c msg mq.max_attempts (effects env n mq) (suc n) fuel)
  unfolding process_loop
  process_loop_settles zero n k a f = absurd (omega arith)
  process_loop_settles (suc fuel) n k a f = elim (Bool-cases (env (suc n)).panics) [
    | inl x ↦ rw x (ends n panicked k a x)
    | inr x ↦ elim (Bool-cases (env (suc n)).fails) [
      | inr e ↦ rw (x, e) (ends n continues k a (x, λ y z. absurd (clash e y)))
      | inl e ↦ elim (Bool-cases (env (suc n)).done) [
        | inl d ↦ rw (x, e, d) (ends n stops k a (x, e, λ y. absurd (clash y d)))
        | inr d ↦ elim (Bool-cases (env (suc n)).permanent) [
          | inl p ↦ rw (x, e, d, p) (ends n continues k a (x, λ y z. absurd (clash z p)))
          | inr p ↦ elim (Bool-cases (leb mq.max_attempts (suc n))) [
            | inl m ↦ rw (x, e, d, p, m) (ends n continues k a (x, λ y z. ground (arith, m, k)))
            | inr m ↦ elim (Bool-cases (env (suc n)).wait_fails) [
              | inl w ↦ rw (x, e, d, p, m, w) (ends n stops k a (x, e, λ y. w))
              | inr w ↦
                  rw (x, e, d, p, m, w)
                    (process_loop_settles fuel (suc n) (ground (arith, m)) (x, e, d, p, w, a)
                      (omega arith))
            ]
          ]
        ]
      ]
    ]
  ]
    where
      clash : {b : Bool} → b ≡ false → b ≡ true → ⊥
      clash p q = cc

-- With at least one attempt allowed and a sequence number plus one below 2^64, processing a
-- message ends, whatever the handler, context and waits do. A message that counts as processed is
-- passed over with the queue as it was. For any other the handler is called at least once and at
-- most as often as was allowed at first, again only after an error that is not permanent, with the
-- context not done and the wait not broken off. The loop is to go on after a call without an
-- error, with a permanent one or the last that is allowed, and the message then counts as
-- processed; it stops with an error where the context is done or the wait is broken off; and a
-- panic of the handler ends the consumer. The queue is what the handler and others made of it in
-- these calls, with the offset past the message only if the loop is to go on.
pub process_settles :
    (env : ℕ → Attempt) (c : Consumer) (msg : Message) (mq : MemoryQueue)
    → suc msg.seq < 2 ^ 64
    → 1 ≤ mq.max_attempts
    → (r : Processed) × (process env c mq.max_attempts mq msg ≡ some r) × Settled env c mq msg r
unfolding process Ends
process_settles env c msg mq h k = elim (Bool-cases (already_processed c mq msg)) [
  | inl e ↦ rw e (record { queue = mq; ending = continues; calls = 0 }, refl, known e refl)
  | inr e ↦ rw e (process_loop_settles env c msg mq e h mq.max_attempts 0 k tt (omega arith))
]
