-- ===== src/MemoryQueue/Queue.antt =====
-- internal/queue/memoryqueue/queue.go and admin.go: the queue with its topics and the offsets of the
-- consumer groups. `none` is a panic. JSON, gzip and the table of keys and values are parameters.
pub mod Produce
pub mod Recover
pub mod Roundtrip
use Prim.Native.String.{String}
use hexmagnet.Prelude.{
  ℕ, ◌+◌, ◌-◌, max, Bool, true, false, not, if◌then◌else◌, List, [], ◌∷◌, ◌++◌, map, Option, none,
  some, ◌>>=◌, lookup, insert, string_eq, ◌||◌, str_eq,
}
use hexmagnet.MemoryQueue.Topic.{
  TopicState, TopicSnapshot, ConsumerState, Message, new_topic, produce_topic,
  serialize_topic_messages, recover_topic,
}

abbrev pub Bytes : Type 0
Bytes = List ℕ

-- The next sequence number that a group takes of each topic.
abbrev pub Offsets : Type 0
Offsets = List (String × List (String × ℕ))

-- `pool` is set or not, `stop_closed` says that `stopCh` is closed, `signalled` that `persistCh` has
-- its one signal; `max_attempts` is that of the delivery policy, normalised.
pub record MemoryQueue : Type 0 where
  pub topics : List (String × TopicState)
  pub offsets : Offsets
  pub pool : Bool
  pub signalled : Bool
  pub stop_closed : Bool
  pub stopped : Bool
  pub dirty : Bool
  pub max_attempts : ℕ

abbrev pub default_max_attempts : ℕ
default_max_attempts = 5

unfoldable pub new : MemoryQueue
new = record {
  topics = [];
  offsets = [];
  pool = false;
  signalled = false;
  stop_closed = false;
  stopped = false;
  dirty = false;
  max_attempts = default_max_attempts;
}

unfoldable pub set_pool : MemoryQueue → MemoryQueue
set_pool mq = record mq { pool = true }

-- The topic, and the queue that has it.
unfoldable pub get_or_create_topic : MemoryQueue → String → MemoryQueue × TopicState
unfolding new_topic
get_or_create_topic mq topic = elim (lookup topic mq.topics) [
  | some ts ↦ (mq, ts)
  | none ↦ (record mq { topics = insert topic new_topic mq.topics }, new_topic)
]

-- `Produce`, on what marshalling the value gives.
unfoldable pub produce : MemoryQueue → String → String → Option Bytes → Option MemoryQueue
unfolding get_or_create_topic produce_topic
produce mq topic key none = some mq
produce mq topic key (some value) =
    let r = get_or_create_topic mq topic in
    if mq.stopped
    then some mq
    else produce_topic key value r.1 >>= λ ts.
        some (record r.0 { topics = insert topic ts r.0.topics; dirty = true })

unfoldable pub reset : MemoryQueue → MemoryQueue
reset mq = record mq { stopped = false; stop_closed = false }

unfoldable pub signal_persist : MemoryQueue → MemoryQueue
signal_persist mq = record mq { signalled = true }

pub record PersistState : Type 0 where
  pub topics : List (String × TopicSnapshot)
  pub offsets : Offsets

unfoldable pub snapshots : List (String × TopicState) → Option (List (String × TopicSnapshot))
unfolding serialize_topic_messages
snapshots [] = some []
snapshots ((name, ts) ∷ topics) = serialize_topic_messages ts >>= λ msgs.
    snapshots topics >>= λ rest.
    some
      ((name, record { messages = map some msgs; next_seq = ts.next_seq; tail = ts.tail }) ∷ rest)

-- The time of the update is left out.
unfoldable pub build_persist_state : MemoryQueue → Option PersistState
unfolding snapshots
build_persist_state mq =
    snapshots mq.topics >>= λ topics. some (record { topics = topics; offsets = mq.offsets })

-- `json.Marshal`, the gzip writer, and the write to the database: whether it succeeds.
pub record Store : Type 0 where
  pub marshal : PersistState → Option Bytes
  pub compress : Bytes → Option Bytes
  pub upsert : Bytes → Bool

-- What is written, and the queue after it; the queue is dirty again where something failed.
unfoldable pub write_state : Store → MemoryQueue → PersistState → MemoryQueue × Option Bytes
write_state st mq ps = elim (st.marshal ps) [
  | none ↦ (record mq { dirty = true }, none)
  | some text ↦ elim (st.compress text) [
    | none ↦ (record mq { dirty = true }, none)
    | some bytes ↦ if st.upsert bytes then (mq, some bytes) else (record mq { dirty = true }, none)
  ]
]

-- One step here; the code marshals the offsets, a map that consumers write to, without the lock.
unfoldable pub persist : Store → MemoryQueue → Option (MemoryQueue × Option Bytes)
unfolding build_persist_state write_state
persist st mq =
    if not mq.dirty
    then some (mq, none)
    else if not mq.pool
    then some (record mq { dirty = true }, none)
    else build_persist_state (record mq { dirty = false }) >>= λ ps.
        some (write_state st (record mq { dirty = false }) ps)

-- `Close`; closing a closed channel is a panic.
unfoldable pub close : Store → MemoryQueue → Option (MemoryQueue × Option Bytes)
unfolding persist
close st mq =
    if mq.stop_closed then none else persist st (record mq { stopped = true; stop_closed = true })

unfoldable pub recover_topics :
    List (String × TopicSnapshot) → List (String × TopicState) → Option (List (String × TopicState))
unfolding recover_topic
recover_topics [] topics = some topics
recover_topics ((name, snap) ∷ snaps) topics =
    recover_topic snap >>= λ ts. recover_topics snaps (insert name ts topics)

-- Reading and unpacking the gzip text, and `json.Unmarshal`.
pub record Reader : Type 0 where
  pub decompress : Bytes → Option Bytes
  pub unmarshal : Bytes → Option PersistState

abbrev pub is_empty : Bytes → Bool
is_empty [] = true
is_empty (b ∷ bs) = false

-- `Recover`, on the value of the key: `none` where there is none. One step here; the code takes no lock.
unfoldable pub recover : Reader → Option Bytes → MemoryQueue → Option MemoryQueue
unfolding recover_topics
recover rd value mq = if not mq.pool then some mq else elim value [
  | none ↦ some mq
  | some bytes ↦ if is_empty bytes then some mq else elim (rd.decompress bytes) [
    | none ↦ some mq
    | some text ↦ elim (rd.unmarshal text) [
      | none ↦ some mq
      | some ps ↦ recover_topics ps.topics mq.topics >>= λ topics.
          some (record mq { topics = topics; offsets = ps.offsets })
    ]
  ]
]

-- `mq.offsets[groupID][topic]`
abbrev pub or_zero : Option ℕ → ℕ
or_zero none = 0
or_zero (some n) = n

-- A map that is not there reads as empty.
abbrev pub or_empty : Option (List (String × ℕ)) → List (String × ℕ)
or_empty none = []
or_empty (some m) = m

abbrev pub group_offsets : Offsets → String → List (String × ℕ)
group_offsets offsets group_id = or_empty (lookup group_id offsets)

unfoldable pub offset_of : MemoryQueue → String → String → ℕ
offset_of mq group_id topic = or_zero (lookup topic (group_offsets mq.offsets group_id))

-- admin.go, before the results are sorted by name.
abbrev pub has_group : String → List ConsumerState → Bool
has_group group_id [] = false
has_group group_id (cs ∷ css) = str_eq cs.group_id group_id || has_group group_id css

pub record PartitionOffset : Type 0 where
  pub current_offset : ℕ
  pub end_offset : ℕ
  pub lag : ℕ

unfoldable pub describe_topics :
    MemoryQueue → String → List (String × TopicState) → List (String × PartitionOffset)
unfolding offset_of
describe_topics mq group_id [] = []
describe_topics mq group_id ((topic, ts) ∷ topics) =
    let rest = describe_topics mq group_id topics in
    if has_group group_id ts.consumers
    then (
      topic,
      record {
        current_offset = offset_of mq group_id topic;
        end_offset = ts.next_seq;
        lag = ts.next_seq - offset_of mq group_id topic;
      },
    )
      ∷ rest
    else rest

unfoldable pub describe_consumer_group : MemoryQueue → String → List (String × PartitionOffset)
unfolding describe_topics
describe_consumer_group mq group_id = describe_topics mq group_id mq.topics
