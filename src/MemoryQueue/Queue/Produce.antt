-- ===== src/MemoryQueue/Queue/Produce.antt =====
-- internal/queue/memoryqueue/queue.go: a message produced on a queue, and the queue started afresh
-- from what it wrote.
use Prim.Native.String.{String}
use hexmagnet.Prelude.{
  ℕ, zero, suc, ◌-◌, ◌^◌, ◌<◌, ◌≡◌, refl, sym, ◌∙◌, ap, subst, inl, inr, true, false, if◌then◌else◌,
  Bool-cases, Option-cases, List, [], ◌∷◌, ◌++◌, Option, none, some, ◌>>=◌, length, lookup, insert,
  lookup-insert, string_eq, beq_self, arith,
}
use mathlib.Core.Option.{some-injective}
use hexmagnet.MemoryQueue.Topic.{
  Message, TopicState, default_capacity, replicate, new_topic, produce_topic,
}
use hexmagnet.MemoryQueue.Topic.Ring.{IsTopic, keep_last}
use hexmagnet.MemoryQueue.Topic.Produce.{produced, produce_topic-IsTopic}
use hexmagnet.MemoryQueue.Queue.{MemoryQueue, Bytes, get_or_create_topic, produce}

-- Every topic stands for a queue of fewer than 10,000 messages.
pub record IsQueue (mq : MemoryQueue) : Type 0 where
  pub topic :
      (name : String) (ts : TopicState)
      → lookup name mq.topics ≡ some ts
      → (xs : List Message) × (IsTopic ts xs × (ts.capacity ≡ default_capacity))

length-replicate : (n : ℕ) (a : Option Message) → length (replicate n a) ≡ n
length-replicate zero a = refl
length-replicate (suc n) a = ap suc (length-replicate n a)

pub new_topic-IsTopic : IsTopic new_topic []
unfolding new_topic
new_topic-IsTopic = record {
  slots = length-replicate default_capacity none;
  room = omega arith;
  head = omega arith;
  fits = omega arith;
  tail = refl;
  held = tt;
  numbered = (0, refl);
}

-- The topic that a message is put in, which is new where there was none.
record Got (mq : MemoryQueue) (topic : String) (r : MemoryQueue × TopicState) : Type 0 where
  content : List Message
  stands : IsTopic r.1 content
  capacity : r.1.capacity ≡ default_capacity
  others :
      (name : String)
      → string_eq.beq topic name ≡ false
      → lookup name r.0.topics ≡ lookup name mq.topics
  offsets : r.0.offsets ≡ mq.offsets

get_or_create_topic-Got :
    (mq : MemoryQueue) (topic : String) → IsQueue mq → Got mq topic (get_or_create_topic mq topic)
unfolding get_or_create_topic new_topic
get_or_create_topic-Got mq topic q = elim (Option-cases (lookup topic mq.topics)) [
  | inr (ts, e) ↦
      rw (get_or_create_topic, e)
        (record {
          content = (q.topic topic ts e).0;
          stands = (q.topic topic ts e).1.0;
          capacity = (q.topic topic ts e).1.1;
          others = λ name h. refl;
          offsets = refl;
        })
  | inl e ↦
      rw (get_or_create_topic, e)
        (record {
          content = [];
          stands = new_topic-IsTopic;
          capacity = new_capacity;
          others = λ name h.
              lookup-insert topic name new_topic mq.topics
              ∙ ap (λ b. if b then some new_topic else lookup name mq.topics) h;
          offsets = refl;
        })
]
  where
    new_capacity : new_topic.capacity ≡ default_capacity
    new_capacity = refl

-- What a message that is produced does to a queue.
pub record Produced (mq : MemoryQueue) (topic key : String) (value : Bytes) (mq' : MemoryQueue)
    : Type 0 where
  pub queue : IsQueue mq'
  pub before : List Message
  pub stood : IsTopic (get_or_create_topic mq topic).1 before
  pub after : TopicState
  pub found : lookup topic mq'.topics ≡ some after
  pub stands :
      IsTopic after
        (keep_last 9999 (before ++ produced key value (get_or_create_topic mq topic).1 ∷ []))
  pub others :
      (name : String)
      → string_eq.beq topic name ≡ false
      → lookup name mq'.topics ≡ lookup name mq.topics
  pub offsets : mq'.offsets ≡ mq.offsets
  pub dirty : mq'.dirty ≡ true

module _ (mq : MemoryQueue) (topic key : String) (value : Bytes) (q : IsQueue mq) where
  got : Got mq topic (get_or_create_topic mq topic)
  got = get_or_create_topic-Got mq topic q

  put_back : TopicState → MemoryQueue
  put_back ts = record (get_or_create_topic mq topic).0 {
    topics = insert topic ts (get_or_create_topic mq topic).0.topics;
    dirty = true;
  }

  put_back-Produced :
      (ts : TopicState)
      → IsTopic ts
          (keep_last 9999 (got.content ++ produced key value (get_or_create_topic mq topic).1 ∷ []))
      → ts.capacity ≡ default_capacity
      → Produced mq topic key value (put_back ts)
  unfolding put_back got
  put_back-Produced ts t c = record {
    queue = record { topic = every };
    before = got.content;
    stood = got.stands;
    after = ts;
    found =
        lookup-insert topic topic ts (get_or_create_topic mq topic).0.topics
        ∙ rw (beq_self {K = String} topic) refl;
    stands = t;
    others = other;
    offsets = got.offsets;
    dirty = refl;
  }
    where
      other :
          (name : String)
          → string_eq.beq topic name ≡ false
          → lookup name (put_back ts).topics ≡ lookup name mq.topics
      other name h =
          lookup-insert topic name ts (get_or_create_topic mq topic).0.topics
          ∙ (ap (λ b. if b then some ts else lookup name (get_or_create_topic mq topic).0.topics) h
              ∙ got.others name h)

      every :
          (name : String) (ts' : TopicState)
          → lookup name (put_back ts).topics ≡ some ts'
          → (xs : List Message) × (IsTopic ts' xs × (ts'.capacity ≡ default_capacity))
      every name ts' e = elim (Bool-cases (string_eq.beq topic name)) [
        | inr h ↦ q.topic name ts' (sym (other name h) ∙ e)
        | inl h ↦
            subst (λ k. (xs : List Message) × (IsTopic k xs × (k.capacity ≡ default_capacity)))
              (some-injective ts ts' (
                sym (
                  lookup-insert topic name ts (get_or_create_topic mq topic).0.topics
                  ∙ ap
                      (λ b.
                        if b then some ts else lookup name (get_or_create_topic mq topic).0.topics)
                      h)
                ∙ e))
              (
                keep_last 9999
                    (got.content ++ produced key value (get_or_create_topic mq topic).1 ∷ []),
                (t, c),
              )
      ]

  -- On a queue that runs and whose topics stand for lists of messages with the capacity of 10,000,
  -- and if the topic's next sequence number plus one is below 2^64, producing a marshalled value
  -- returns; its topic then stands for the last 9,999 messages of what it stood for with the new
  -- message at the end, other topics and the offsets are as before, the queue is dirty, and all
  -- topics still stand for lists.
  pub produce_lem :
      mq.stopped ≡ false
      → suc (get_or_create_topic mq topic).1.next_seq < 2 ^ 64
      → (mq' : MemoryQueue) × (produce mq topic key (some value) ≡ some mq')
        × Produced mq topic key value mq'
  unfolding produce put_back got
  produce_lem s h =
      let r =
        produce_topic-IsTopic key value (get_or_create_topic mq topic).1 got.content got.stands h in
      (
        put_back r.0,
        ap {B = Option MemoryQueue}
              (λ b.
                if b
                then some mq
                else produce_topic key value (get_or_create_topic mq topic).1 >>= λ ts.
                    some (put_back ts))
              s
            ∙ ap (λ o. o >>= λ ts. some (put_back ts)) r.1,
        put_back-Produced r.0
            (subst
              (λ (k : ℕ). IsTopic r.0 (
                keep_last (k - 1)
                  (got.content ++ produced key value (get_or_create_topic mq topic).1 ∷ [])))
              got.capacity r.2.0)
            (r.2.1 ∙ got.capacity),
      )
