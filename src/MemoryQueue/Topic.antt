-- ===== src/MemoryQueue/Topic.antt =====
-- internal/queue/memoryqueue/queue.go: the ring of a topic. An index past the slots is a panic,
-- `none`. A capacity is only ever 10,000, so no remainder by 0 is taken. Sequence numbers are below
-- 2 ^ 64.
pub mod Ring
pub mod Produce
pub mod Restore
use Prim.Native.String.{String}
use hexmagnet.Prelude.{
  ℕ, zero, suc, ◌+◌, ◌-◌, ◌%◌, ◌^◌, Bool, true, false, ◌==◌, ltb, if◌then◌else◌, List, [], ◌∷◌,
  ◌++◌, map, Option, none, some, ◌>>=◌, length, get_elem?,
}

abbrev pub default_capacity : ℕ
default_capacity = 10000

-- The buffer of a consumer's channel.
abbrev pub channel_capacity : ℕ
channel_capacity = 10000

pub record Message : Type 0 where
  pub seq : ℕ
  pub key : String
  pub value : List ℕ

-- A consumer with what its channel holds, oldest first.
pub record ConsumerState : Type 0 where
  pub group_id : String
  pub offset : ℕ
  pub channel : List Message

pub record TopicState : Type 0 where
  pub messages : List (Option Message)
  pub next_seq : ℕ
  pub capacity : ℕ
  pub head : ℕ
  pub tail : ℕ
  pub consumers : List ConsumerState

abbrev pub replicate {ℓ} : {A : Type ℓ} → ℕ → A → List A
replicate zero a = []
replicate (suc n) a = a ∷ replicate n a

unfoldable pub new_topic : TopicState
new_topic = record {
  messages = replicate default_capacity none;
  next_seq = 0;
  capacity = default_capacity;
  head = 0;
  tail = 0;
  consumers = [];
}

-- `messages[i] = x`
abbrev pub set_at {ℓ} : {A : Type ℓ} → List A → ℕ → A → List A
set_at [] i x = []
set_at (y ∷ ys) zero x = x ∷ ys
set_at (y ∷ ys) (suc i) x = y ∷ set_at ys i x

abbrev pub store {ℓ} : {A : Type ℓ} → List A → ℕ → A → Option (List A)
store ms i x = if ltb i (length ms) then some (set_at ms i x) else none

-- The send that drops the message where the channel is full.
unfoldable pub send : Message → ConsumerState → ConsumerState
send msg cs =
    if ltb (length cs.channel) channel_capacity
    then record cs { channel = cs.channel ++ msg ∷ [] }
    else cs

-- `Produce`, from where it has the topic.
unfoldable pub produce_topic : String → List ℕ → TopicState → Option TopicState
unfolding send
produce_topic key value ts =
    let msg : Message = record { seq = ts.next_seq; key = key; value = value } in
    let tail = (ts.tail + 1) % ts.capacity in
    store ts.messages ts.tail (some msg) >>= λ messages. some (record {
      messages = messages;
      next_seq = (ts.next_seq + 1) % 2 ^ 64;
      capacity = ts.capacity;
      head = if tail == ts.head then (ts.head + 1) % ts.capacity else ts.head;
      tail = tail;
      consumers = map (send msg) ts.consumers;
    })

-- The loop over `count` slots from the place `pos`, for the messages of which `wanted` holds.
abbrev pub keep_slot : (Message → Bool) → Option Message → List Message → List Message
keep_slot wanted none rest = rest
keep_slot wanted (some msg) rest = if wanted msg then msg ∷ rest else rest

unfoldable pub collect :
    (Message → Bool) → List (Option Message) → ℕ → ℕ → ℕ → Option (List Message)
collect wanted messages capacity pos zero = some []
collect wanted messages capacity pos (suc n) = get_elem? messages (pos % capacity) >>= λ slot.
    collect wanted messages capacity (suc pos) n >>= λ rest. some (keep_slot wanted slot rest)

abbrev pub slot_count : TopicState → ℕ
slot_count ts = (ts.tail + ts.capacity - ts.head) % ts.capacity

abbrev pub any_message : Message → Bool
any_message msg = true

unfoldable pub serialize_topic_messages : TopicState → Option (List Message)
unfolding collect
serialize_topic_messages ts =
    if ts.head == ts.tail
    then some []
    else collect any_message ts.messages ts.capacity ts.head (slot_count ts)

pub record TopicSnapshot : Type 0 where
  pub messages : List (Option Message)
  pub next_seq : ℕ
  pub tail : ℕ

-- The loop of `Recover` over the messages of a snapshot.
unfoldable pub restore :
    List (Option Message) → List (Option Message) → ℕ → Option (List (Option Message) × ℕ)
restore [] slots tail = some (slots, tail)
restore (none ∷ snap) slots tail = restore snap slots tail
restore (some msg ∷ snap) slots tail =
    store slots tail (some msg) >>= λ slots'. restore snap slots' (tail + 1)

unfoldable pub recover_topic : TopicSnapshot → Option TopicState
unfolding restore
recover_topic snap = restore snap.messages (replicate default_capacity none) 0 >>= λ r.
    some (record {
      messages = r.0;
      next_seq = snap.next_seq;
      capacity = default_capacity;
      head = 0;
      tail = r.1 % default_capacity;
      consumers = [];
    })
