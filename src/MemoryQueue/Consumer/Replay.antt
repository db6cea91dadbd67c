-- ===== src/MemoryQueue/Consumer/Replay.antt =====
-- internal/queue/memoryqueue/consumer.go: the messages that a consumer takes again when it starts.
use hexmagnet.Prelude.{◌≡◌, List, some, lookup, string_eq, leb}
use hexmagnet.MemoryQueue.Topic.{Message, TopicState}
use hexmagnet.MemoryQueue.Topic.Ring.{IsTopic, keep_wanted, collect_all}
use hexmagnet.MemoryQueue.Queue.{MemoryQueue, offset_of}
use hexmagnet.MemoryQueue.Consumer.{Consumer, replay_messages}

-- For a topic of the queue whose ring stands for a list of messages, a consumer replays those of
-- the list that are not before its group's offset, in their order.
pub replay_messages-IsTopic :
    (c : Consumer) (mq : MemoryQueue) (ts : TopicState) (xs : List Message)
    → lookup c.topic mq.topics ≡ some ts
    → IsTopic ts xs
    → replay_messages c mq
      ≡ some (keep_wanted (λ msg. leb (offset_of mq c.group_id c.topic) msg.seq) xs)
unfolding replay_messages
replay_messages-IsTopic c mq ts xs e t =
    rw (replay_messages, e)
      (collect_all (λ msg. leb (offset_of mq c.group_id c.topic) msg.seq) ts xs t)
