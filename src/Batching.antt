-- ===== src/Batching.antt =====
-- internal/concurrency/batching_channel.go: a channel that hands on what it is given in batches. The
-- state is that of the two channels and of the goroutine `batch`; a step is one operation on a channel,
-- by the goroutine or by those who send and receive. The ticker may fire at any time.
pub mod Account
pub mod Order
pub mod Drain
mod Examples
use hexmagnet.Prelude.{
  ℕ, Bool, true, false, not, ◌&&◌, if◌then◌else◌, leb, ltb, List, [], ◌∷◌, ◌++◌, length, Option,
  none, some,
}

-- What the goroutine does: it waits in its select, or it sends a batch.
pub data Worker (A : Type 0) : Type 0 where
  selecting : Worker A
  sending : List A → Worker A

pub record BatchingChannel (A : Type 0) : Type 0 where
  pub input : List A
  pub input_closed : Bool
  pub output : List (List A)
  pub buffer : List A
  pub worker : Worker A

-- `handoff` is a send that the goroutine receives at once.
pub data Operation (A : Type 0) : Type 0 where
  send_in : A → Operation A
  handoff : A → Operation A
  close_input : Operation A
  receive_in : Operation A
  tick : Operation A
  put : Operation A
  take : Operation A

abbrev pub is_nonempty {ℓ} : {A : Type ℓ} → List A → Bool
is_nonempty [] = false
is_nonempty (x ∷ xs) = true

module _ {A : Type 0} (capacity max_batch_size : ℕ) where
  abbrev pub new : BatchingChannel A
  new = record { input = []; input_closed = false; output = []; buffer = []; worker = selecting }

  abbrev pub flush : BatchingChannel A → BatchingChannel A
  flush s = record s { buffer = []; worker = sending s.buffer }

  abbrev pub append_next : A → BatchingChannel A → BatchingChannel A
  append_next next s =
      if leb max_batch_size (length (s.buffer ++ next ∷ []))
      then flush (record s { buffer = s.buffer ++ next ∷ [] })
      else record s { buffer = s.buffer ++ next ∷ [] }

  -- The break of the source leaves the select, not the loop.
  abbrev receive_from : List A → Bool → Worker A → BatchingChannel A → Option (BatchingChannel A)
  receive_from [] true selecting s = some s
  receive_from [] false selecting s = none
  receive_from (x ∷ xs) closed selecting s = some (append_next x (record s { input = xs }))
  receive_from xs closed (sending b) s = none

  abbrev tick_from : Worker A → BatchingChannel A → BatchingChannel A
  tick_from (sending b) s = s
  tick_from selecting s = if is_nonempty s.buffer then flush s else s

  abbrev put_from : Worker A → BatchingChannel A → Option (BatchingChannel A)
  put_from selecting s = none
  put_from (sending b) s =
      if leb 1 (length s.output)
      then none
      else some (record s { output = s.output ++ b ∷ []; worker = selecting })

  abbrev handoff_to : A → List A → Worker A → BatchingChannel A → Option (BatchingChannel A)
  handoff_to x [] selecting s = some (append_next x s)
  handoff_to x (y ∷ ys) selecting s = none
  handoff_to x ys (sending b) s = none

  abbrev take_from : List (List A) → BatchingChannel A → Option (BatchingChannel A)
  take_from [] s = none
  take_from (b ∷ bs) s = some (record s { output = bs })

  -- `none` is an operation that cannot happen: it would wait, or it would panic.
  unfoldable pub step : Operation A → BatchingChannel A → Option (BatchingChannel A)
  step (send_in x) s =
      if not s.input_closed && ltb (length s.input) capacity
      then some (record s { input = s.input ++ x ∷ [] })
      else none
  step (handoff x) s = if s.input_closed then none else handoff_to x s.input s.worker s
  step close_input s = if s.input_closed then none else some (record s { input_closed = true })
  step receive_in s = receive_from s.input s.input_closed s.worker s
  step tick s = some (tick_from s.worker s)
  step put s = put_from s.worker s
  step take s = take_from s.output s
