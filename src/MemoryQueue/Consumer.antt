-- ===== src/MemoryQueue/Consumer.antt =====
-- internal/queue/memoryqueue/consumer.go: a consumer takes the messages of its topic one by one and
-- moves the offset of its group past each. The handler, the context and the wait between attempts
-- are what each attempt meets, a parameter; logging and goroutines are left out.
pub mod Offsets
pub mod Process
pub mod Replay
use Prim.Native.String.{String}
use hexmagnet.Prelude.{
  ℕ, zero, suc, ◌+◌, ◌%◌, ◌^◌, Bool, true, false, not, ltb, leb, if◌then◌else◌, List, [], ◌∷◌, ◌++◌,
  Option, none, some, ◌>>=◌, lookup, insert, string_eq,
}
use hexmagnet.MemoryQueue.Topic.{Message, TopicState, ConsumerState, collect, slot_count}
use hexmagnet.MemoryQueue.Queue.{MemoryQueue, get_or_create_topic, offset_of, group_offsets}

pub record Consumer : Type 0 where
  pub topic : String
  pub group_id : String

unfoldable pub new_consumer : MemoryQueue → String → String → MemoryQueue × Consumer
unfolding get_or_create_topic offset_of
new_consumer mq topic group_id =
    let r = get_or_create_topic mq topic in
    let cs : ConsumerState = record {
      group_id = group_id;
      offset = offset_of mq group_id topic;
      channel = [];
    } in
    (
      record r.0 {
        topics = insert topic (record r.1 { consumers = r.1.consumers ++ cs ∷ [] }) r.0.topics;
      },
      record { topic = topic; group_id = group_id },
    )

unfoldable pub already_processed : Consumer → MemoryQueue → Message → Bool
unfolding offset_of
already_processed c mq msg = ltb msg.seq (offset_of mq c.group_id c.topic)

unfoldable pub advance_offset : Consumer → MemoryQueue → Message → MemoryQueue
unfolding offset_of
advance_offset c mq msg =
    let next = (msg.seq + 1) % 2 ^ 64 in
    let group = group_offsets mq.offsets c.group_id in
    if ltb (offset_of mq c.group_id c.topic) next
    then record mq { offsets = insert c.group_id (insert c.topic next group) mq.offsets }
    else record mq { offsets = insert c.group_id group mq.offsets }

-- What an attempt meets: what becomes of the queue until the consumer goes on, by the handler, which
-- may produce to it, and by all others; whether the handler panics or fails; and then whether the
-- context is done, the error is permanent, and the wait before the next attempt is broken off.
pub record Attempt : Type 0 where
  pub effect : MemoryQueue → MemoryQueue
  pub panics : Bool
  pub fails : Bool
  pub done : Bool
  pub permanent : Bool
  pub wait_fails : Bool

-- The answer of `process`, or a panic of the handler, which ends the consumer.
pub data Ending : Type 0 where
  continues stops panicked : Ending

-- The queue, the answer, and the number of calls of the handler.
pub record Processed : Type 0 where
  pub queue : MemoryQueue
  pub ending : Ending
  pub calls : ℕ

-- The loop over the attempts, with the number of them that was allowed when it began; `none` is
-- want of fuel.
unfoldable pub process_loop :
    (ℕ → Attempt) → Consumer → Message → ℕ → MemoryQueue → ℕ → ℕ → Option Processed
unfolding advance_offset
process_loop env c msg limit mq attempt zero = none
process_loop env c msg limit mq attempt (suc fuel) =
    let met = (env attempt).effect mq in
    let again = process_loop env c msg limit met (suc attempt) fuel in
    let acknowledged : Processed = record {
      queue = advance_offset c met msg;
      ending = continues;
      calls = attempt;
    } in
    let stopped : Processed = record { queue = met; ending = stops; calls = attempt } in
    if (env attempt).panics
    then some (record { queue = met; ending = panicked; calls = attempt })
    else if not (env attempt).fails
    then some acknowledged
    else if (env attempt).done
    then some stopped
    else if (env attempt).permanent
    then some acknowledged
    else if leb limit attempt
    then some acknowledged
    else if (env attempt).wait_fails
    then some stopped
    else again

unfoldable pub process : (ℕ → Attempt) → Consumer → ℕ → MemoryQueue → Message → Option Processed
unfolding already_processed process_loop
process env c fuel mq msg =
    if already_processed c mq msg
    then some (record { queue = mq; ending = continues; calls = 0 })
    else process_loop env c msg mq.max_attempts mq 1 fuel

-- The messages that `replay` takes, before it processes them.
unfoldable pub replay_messages : Consumer → MemoryQueue → Option (List Message)
unfolding offset_of collect
replay_messages c mq = elim (lookup c.topic mq.topics) [
  | none ↦ some []
  | some ts ↦
      collect (λ msg. leb (offset_of mq c.group_id c.topic) msg.seq) ts.messages ts.capacity ts.head
        (slot_count ts)
]

-- The loop of `replay`; `done` says whether the context is done before a message. It returns the
-- queue, and whether it came to its end without a panic.
unfoldable pub replay_loop :
    (Message → ℕ → Attempt)
    → (Message → Bool)
    → Consumer
    → ℕ
    → MemoryQueue
    → List Message
    → Option (MemoryQueue × Bool)
unfolding process
replay_loop env done c fuel mq [] = some (mq, true)
replay_loop env done c fuel mq (msg ∷ msgs) =
    if done msg
    then some (mq, true)
    else process (env msg) c fuel mq msg >>= λ r. elim r.ending [
      | panicked ↦ some (r.queue, false)
      | _ ↦ replay_loop env done c fuel r.queue msgs
    ]

unfoldable pub replay :
    (Message → ℕ → Attempt)
    → (Message → Bool)
    → Consumer
    → ℕ
    → MemoryQueue
    → Option (MemoryQueue × Bool)
unfolding replay_messages replay_loop
replay env done c fuel mq = replay_messages c mq >>= λ msgs. replay_loop env done c fuel mq msgs
