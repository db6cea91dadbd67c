-- ===== src/MemoryQueue/Examples.antt =====
-- The theorems of the queue in memory at concrete inputs.
use hexmagnet.Prelude.{
  ℕ, suc, ◌^◌, ◌≤◌, ◌<◌, ◌≡◌, refl, true, false, [], ◌∷◌, Option, none, some, string_eq, arith,
  lookup, leb, Distinct,
}
use hexmagnet.MemoryQueue.Topic.{
  Message, TopicState, new_topic, produce_topic, serialize_topic_messages,
}
use hexmagnet.MemoryQueue.Topic.Ring.{IsTopic}
use hexmagnet.MemoryQueue.Topic.Produce.{produce_topic-IsTopic}
use hexmagnet.MemoryQueue.Queue.{
  MemoryQueue, Bytes, PersistState, Store, Reader, new, set_pool, produce, build_persist_state,
  snapshots, persist, recover, get_or_create_topic,
}
use hexmagnet.MemoryQueue.Queue.Produce.{IsQueue, Produced, produce_lem, new_topic-IsTopic}
use hexmagnet.MemoryQueue.Queue.Recover.{Reread, AllTopics}
use hexmagnet.MemoryQueue.Queue.Roundtrip.{Keeps, recover-persist}
use hexmagnet.MemoryQueue.Consumer.{Consumer, Attempt, Processed, process}
use hexmagnet.MemoryQueue.Consumer.Process.{Settled, process_settles}

abbrev message : ℕ → Message
message n = record { seq = n; key = "k"; value = 1 ∷ [] }

-- A ring of three slots that is full, with the oldest message in the last slot.
abbrev small : TopicState
small = record {
  messages = some (message 6) ∷ none ∷ some (message 5) ∷ [];
  next_seq = 7;
  capacity = 3;
  head = 2;
  tail = 1;
  consumers = [];
}

small-IsTopic : IsTopic small (message 5 ∷ message 6 ∷ [])
small-IsTopic = record {
  slots = refl;
  room = omega arith;
  head = omega arith;
  fits = omega arith;
  tail = refl;
  held = (refl, (refl, tt));
  numbered = (5, (refl, (refl, refl)));
}

produce_topic-IsTopic_example :
    (ts' : TopicState) × (produce_topic "k" (1 ∷ []) small ≡ some ts')
    × (IsTopic ts' (message 6 ∷ message 7 ∷ []) × (ts'.capacity ≡ 3))
produce_topic-IsTopic_example =
    produce_topic-IsTopic "k" (1 ∷ []) small (message 5 ∷ message 6 ∷ []) small-IsTopic
      (omega arith)

empty-IsQueue : IsQueue new
unfolding new lookup
empty-IsQueue = record { topic = λ name ts e. absurd (clash e) }
  where
    clash : {ts : TopicState} → none ≡ some ts → ⊥
    clash e = cc

next_seq_small : suc (get_or_create_topic new "torrents").1.next_seq < 2 ^ 64
unfolding new lookup get_or_create_topic new_topic
next_seq_small = omega arith

running : new.stopped ≡ false
unfolding new
running = refl

produce_lem_example :
    (mq' : MemoryQueue) × (produce new "torrents" "k" (some (1 ∷ [])) ≡ some mq')
    × Produced new "torrents" "k" (1 ∷ []) mq'
produce_lem_example = produce_lem new "torrents" "k" (1 ∷ []) empty-IsQueue running next_seq_small

abbrev consumer : Consumer
consumer = record { topic = "torrents"; group_id = "g" }

-- What `produce` makes of a queue.
abbrev after_produce : MemoryQueue → MemoryQueue
after_produce mq = elim (produce mq "found" "k" (some (1 ∷ []))) [ none ↦ mq | some mq' ↦ mq' ]

-- The handler produces to another topic of the queue; it fails twice and then does not.
abbrev third_works : ℕ → Attempt
third_works n = record {
  effect = after_produce;
  panics = false;
  fails = leb n 2;
  done = false;
  permanent = false;
  wait_fails = false;
}

attempts_small : 1 ≤ new.max_attempts
unfolding new
attempts_small = omega arith

process_settles_example :
    (r : Processed) × (process third_works consumer new.max_attempts new (message 4) ≡ some r)
    × Settled third_works consumer new (message 4) r
process_settles_example =
    process_settles third_works consumer (message 4) new (omega arith) attempts_small

-- A queue with an empty topic and an offset.
abbrev used : MemoryQueue
used = record {
  topics = ("torrents", new_topic) ∷ [];
  offsets = ("g", ("torrents", 3) ∷ []) ∷ [];
  pool = true;
  signalled = false;
  stop_closed = false;
  stopped = false;
  dirty = true;
  max_attempts = 5;
}

abbrev used_state : PersistState
used_state = record {
  topics = ("torrents", record { messages = []; next_seq = 0; tail = 0 }) ∷ [];
  offsets = ("g", ("torrents", 3) ∷ []) ∷ [];
}

abbrev example_store : Store
example_store = record {
  marshal = λ ps. some (1 ∷ []);
  compress = λ text. some (2 ∷ text);
  upsert = λ bytes. true;
}

abbrev tail_of : Bytes → Option Bytes
tail_of [] = none
tail_of (b ∷ bs) = some bs

abbrev example_reader : Reader
example_reader = record { decompress = tail_of; unmarshal = λ text. some used_state }

used-Keeps :
    (ps : PersistState)
    → build_persist_state (record used { dirty = false }) ≡ some ps
    → Keeps example_store example_reader ps
unfolding build_persist_state snapshots serialize_topic_messages new_topic
used-Keeps ps e = record {
  text = 1 ∷ [];
  bytes = 2 ∷ 1 ∷ [];
  marshals = refl;
  compresses = refl;
  upserts = refl;
  some_bytes = refl;
  decompresses = refl;
  unmarshals = e;
}

used-AllTopics : AllTopics used.topics
unfolding new_topic
used-AllTopics = (([], (new_topic-IsTopic, refl)), tt)

pool_set : (set_pool new).pool ≡ true
unfolding set_pool
pool_set = refl

used-Distinct : Distinct used.topics
unfolding lookup
used-Distinct = (refl, tt)

recover-persist_example :
    (bytes : Bytes) × (found : MemoryQueue) × ((persist example_store used
        ≡ some (record used { dirty = false }, some bytes))
      × ((recover example_reader (some bytes) (set_pool new) ≡ some found)
          × (Reread used.topics (set_pool new).topics found.topics
              × (found.offsets ≡ used.offsets))))
recover-persist_example =
    recover-persist example_store example_reader used (set_pool new) used-Distinct used-AllTopics
      refl refl pool_set used-Keeps
