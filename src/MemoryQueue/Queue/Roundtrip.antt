-- ===== src/MemoryQueue/Queue/Roundtrip.antt =====
-- internal/queue/memoryqueue/queue.go: a queue written to the database and read back.
use hexmagnet.Prelude.{
  ◌≡◌, refl, ◌∙◌, ap, true, false, not, if◌then◌else◌, Option, none, some, ◌>>=◌, string_eq,
  Distinct,
}
use hexmagnet.MemoryQueue.Queue.{
  MemoryQueue, Bytes, PersistState, Store, Reader, build_persist_state, write_state, persist,
  recover_topics, is_empty, recover,
}
use hexmagnet.MemoryQueue.Queue.Recover.{AllTopics, Reread, reread}

-- JSON, gzip and the database at one state: each step succeeds and reading undoes it.
pub record Keeps (st : Store) (rd : Reader) (ps : PersistState) : Type 0 where
  pub text : Bytes
  pub bytes : Bytes
  pub marshals : st.marshal ps ≡ some text
  pub compresses : st.compress text ≡ some bytes
  pub upserts : st.upsert bytes ≡ true
  pub some_bytes : is_empty bytes ≡ false
  pub decompresses : rd.decompress bytes ≡ some text
  pub unmarshals : rd.unmarshal text ≡ some ps

module _ (st : Store) (rd : Reader) (mq fresh : MemoryQueue) (distinct : Distinct mq.topics)
    (all : AllTopics mq.topics) where
  clean : MemoryQueue
  clean = record mq { dirty = false }

  state : PersistState
  state = record { topics = (reread mq.topics fresh.topics distinct all).0; offsets = mq.offsets }

  build_state : build_persist_state clean ≡ some state
  unfolding build_persist_state state clean
  build_state =
      ap (λ o. o >>= λ s. some (record { topics = s; offsets = mq.offsets }))
        (reread mq.topics fresh.topics distinct all).1

  write_state-Keeps : (k : Keeps st rd state) → write_state st clean state ≡ (clean, some k.bytes)
  unfolding write_state
  write_state-Keeps k = rw (write_state, k.marshals, k.compresses, k.upserts) refl

  persist-Keeps :
      (k : Keeps st rd state)
      → mq.dirty ≡ true
      → mq.pool ≡ true
      → persist st mq ≡ some (clean, some k.bytes)
  unfolding persist clean
  persist-Keeps k d p =
      ap
        (λ b.
          if not b
          then some (mq, none)
          else if not mq.pool
          then some (record mq { dirty = true }, none)
          else build_persist_state clean >>= λ ps. some (write_state st clean ps))
        d
      ∙ (ap
            (λ b.
              if not b
              then some (record mq { dirty = true }, none)
              else build_persist_state clean >>= λ ps. some (write_state st clean ps))
            p
          ∙ (ap (λ o. o >>= λ ps. some (write_state st clean ps)) build_state
              ∙ ap some (write_state-Keeps k)))

  again : MemoryQueue
  again = record fresh {
    topics = (reread mq.topics fresh.topics distinct all).2.0;
    offsets = mq.offsets;
  }

  read_back : PersistState → Option MemoryQueue
  read_back ps = recover_topics ps.topics fresh.topics >>= λ topics.
      some (record fresh { topics = topics; offsets = ps.offsets })

  recover-Keeps :
      (k : Keeps st rd state) → fresh.pool ≡ true → recover rd (some k.bytes) fresh ≡ some again
  unfolding recover again read_back state
  recover-Keeps k p =
      ap
        (λ b.
          if not b
          then some fresh
          else if is_empty k.bytes
          then some fresh
          else elim (rd.decompress k.bytes) [
            | none ↦ some fresh
            | some text ↦ elim (rd.unmarshal text) [ none ↦ some fresh | some ps ↦ read_back ps ]
          ])
        p
      ∙ (rw (k.some_bytes, k.decompresses, k.unmarshals) refl
          ∙ ap (λ o. o >>= λ topics. some (record fresh { topics = topics; offsets = mq.offsets }))
              (reread mq.topics fresh.topics distinct all).2.1)

  -- For a dirty queue with a pool, whose topics have different names and stand for lists of
  -- messages, and a second queue with a pool, if marshalling, compressing and storing the queue's
  -- state succeed and reading undoes them, persist writes the state, and recovering from it gives
  -- the second queue the same offsets and, for each topic, one that stands for the same messages
  -- with the same next sequence number; other topics stay as they were.
  pub recover-persist :
      mq.dirty ≡ true
      → mq.pool ≡ true
      → fresh.pool ≡ true
      → ((ps : PersistState)
          → build_persist_state (record mq { dirty = false }) ≡ some ps
          → Keeps st rd ps)
      → (bytes : Bytes) × (found : MemoryQueue) × ((persist st mq
            ≡ some (record mq { dirty = false }, some bytes))
          × ((recover rd (some bytes) fresh ≡ some found)
              × (Reread mq.topics fresh.topics found.topics × (found.offsets ≡ mq.offsets))))
  unfolding again clean
  recover-persist d p f keeps =
      let k = keeps state build_state in
      (
        k.bytes,
        again,
        (
          persist-Keeps k d p,
          (recover-Keeps k f, ((reread mq.topics fresh.topics distinct all).2.2, refl)),
        ),
      )
