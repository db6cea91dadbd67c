-- ===== src/Batching/Examples.antt =====
-- The theorems of the batching channel at a concrete history.
use hexmagnet.Prelude.{ℕ, List, ◌≡◌, refl, [], ◌∷◌, arith}
use hexmagnet.Batching.{BatchingChannel, sending, handoff, put, take, new, step}
use hexmagnet.Batching.Account.{concat, Keeps, Reach, start, next}
use hexmagnet.Batching.Order.{Reach-Keeps}
use hexmagnet.Batching.Drain.{Drains, Reach-Drains}

-- Two elements make a batch, which is taken.
abbrev one_in : BatchingChannel ℕ
one_in = record (new {A = ℕ} 1 2) { buffer = 7 ∷ [] }

abbrev two_in : BatchingChannel ℕ
two_in = record (new {A = ℕ} 1 2) { worker = sending (7 ∷ 8 ∷ []) }

abbrev one_out : BatchingChannel ℕ
one_out = record (new {A = ℕ} 1 2) { output = (7 ∷ 8 ∷ []) ∷ [] }

taken_batch : Reach {A = ℕ} 1 2 (new 1 2) (7 ∷ 8 ∷ []) ((7 ∷ 8 ∷ []) ∷ [])
unfolding step
taken_batch =
    next one_out (new 1 2) (7 ∷ 8 ∷ []) [] take
      (next two_in one_out (7 ∷ 8 ∷ []) [] put
        (next one_in two_in (7 ∷ []) [] (handoff 8)
          (next (new 1 2) one_in [] [] (handoff 7) start refl) refl)
        refl)
      refl

half_way : Reach {A = ℕ} 1 2 two_in (7 ∷ 8 ∷ []) []
unfolding step
half_way =
    next one_in two_in (7 ∷ []) [] (handoff 8) (next (new 1 2) one_in [] [] (handoff 7) start refl)
      refl

Reach-Keeps_example : Keeps 1 2 (new {A = ℕ} 1 2) (7 ∷ 8 ∷ []) ((7 ∷ 8 ∷ []) ∷ [])
Reach-Keeps_example =
    Reach-Keeps 1 2 (omega arith) (new 1 2) (7 ∷ 8 ∷ []) ((7 ∷ 8 ∷ []) ∷ []) taken_batch

Reach-Drains_example :
    (s' : BatchingChannel ℕ) × (cs : List (List ℕ)) × Drains 1 2 two_in cs s'
    × (concat cs ≡ 7 ∷ 8 ∷ [])
Reach-Drains_example = Reach-Drains 1 2 (omega arith) two_in (7 ∷ 8 ∷ []) [] half_way
