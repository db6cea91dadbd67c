-- ===== src/MemoryQueue/Consumer/Offsets.antt =====
-- internal/queue/memoryqueue/consumer.go: the offsets of the groups.
use Prim.Native.String.{String}
use hexmagnet.Prelude.{
  ℕ, suc, ◌+◌, ◌%◌, ◌^◌, ◌≤◌, ◌<◌, max, ◌≡◌, refl, sym, ◌∙◌, ap, List, ◌&&◌, true, false, ltb,
  if◌then◌else◌, Bool-cases, inl, inr, some, lookup, insert, lookup-insert, string_eq, beq_self,
  arith,
}
use hexmagnet.MemoryQueue.Topic.{Message}
use hexmagnet.MemoryQueue.Queue.{MemoryQueue, offset_of, group_offsets, or_zero, or_empty}
use hexmagnet.MemoryQueue.Consumer.{Consumer, advance_offset, already_processed}

module _ (c : Consumer) (mq : MemoryQueue) (msg : Message) where
  abbrev pub next_offset : ℕ
  next_offset = (msg.seq + 1) % 2 ^ 64

  -- The group's own offsets after the write.
  abbrev group_written : List (String × ℕ)
  group_written =
      if ltb (offset_of mq c.group_id c.topic) next_offset
      then insert c.topic next_offset (group_offsets mq.offsets c.group_id)
      else group_offsets mq.offsets c.group_id

  written : (advance_offset c mq msg).offsets ≡ insert c.group_id group_written mq.offsets
  unfolding advance_offset
  written = elim (Bool-cases (ltb (offset_of mq c.group_id c.topic) next_offset)) [
    | inl e ↦ rw e refl
    | inr e ↦ rw e refl
  ]

  other_group :
      (g : String)
      → string_eq.beq c.group_id g ≡ false
      → group_offsets (advance_offset c mq msg).offsets g ≡ group_offsets mq.offsets g
  other_group g h =
      ap (λ o. group_offsets o g) written
      ∙ (ap or_empty (lookup-insert c.group_id g group_written mq.offsets)
          ∙ ap (λ b. or_empty (if b then some group_written else lookup g mq.offsets)) h)

  own_group : group_offsets (advance_offset c mq msg).offsets c.group_id ≡ group_written
  own_group =
      ap (λ o. group_offsets o c.group_id) written
      ∙ (ap or_empty (lookup-insert c.group_id c.group_id group_written mq.offsets)
          ∙ ap (λ b. or_empty (if b then some group_written else lookup c.group_id mq.offsets))
              (beq_self {K = String} c.group_id))

  own_topic :
      or_zero (lookup c.topic group_written) ≡ max (offset_of mq c.group_id c.topic) next_offset
  unfolding offset_of
  own_topic = elim (Bool-cases (ltb (offset_of mq c.group_id c.topic) next_offset)) [
    | inl e ↦
        rw
          (
            e,
            lookup-insert c.topic c.topic next_offset (group_offsets mq.offsets c.group_id),
            beq_self {K = String} c.topic,
          )
          (ground (arith, e))
    | inr e ↦ rw e (ground (arith, e))
  ]

  other_topic :
      (t : String)
      → string_eq.beq c.topic t ≡ false
      → lookup t group_written ≡ lookup t (group_offsets mq.offsets c.group_id)
  other_topic t h = elim (Bool-cases (ltb (offset_of mq c.group_id c.topic) next_offset)) [
    | inl e ↦
        rw (e, lookup-insert c.topic t next_offset (group_offsets mq.offsets c.group_id), h) refl
    | inr e ↦ rw e refl
  ]

  -- Advancing past a message sets the group's offset of the topic to the larger of what it was and
  -- the message's sequence number plus one, modulo 2^64, and leaves every other group's and
  -- topic's offset.
  pub offset_of-advance_offset :
      (g t : String)
      → offset_of (advance_offset c mq msg) g t ≡ (
          if string_eq.beq c.group_id g && string_eq.beq c.topic t
          then max (offset_of mq c.group_id c.topic) next_offset
          else offset_of mq g t)
  unfolding offset_of
  offset_of-advance_offset g t = elim (Bool-cases (string_eq.beq c.group_id g)) [
    | inr e ↦ rw e (ap (λ m. or_zero (lookup t m)) (other_group g e))
    | inl e ↦
        rw (e, sym ((string_eq.beq_iff c.group_id g).0 e))
          (elim (Bool-cases (string_eq.beq c.topic t)) [
            | inr f ↦ rw f (ap (λ m. or_zero (lookup t m)) own_group ∙ ap or_zero (other_topic t f))
            | inl f ↦
                rw (f, sym ((string_eq.beq_iff c.topic t).0 f))
                  (ap (λ m. or_zero (lookup c.topic m)) own_group ∙ own_topic)
          ])
  ]

  pub already_processed-advance_offset :
      suc msg.seq < 2 ^ 64 → already_processed c (advance_offset c mq msg) msg ≡ true
  unfolding already_processed
  already_processed-advance_offset h = ground (arith, acknowledged h)
    where
      own_offset :
          offset_of (advance_offset c mq msg) c.group_id c.topic
          ≡ max (offset_of mq c.group_id c.topic) next_offset
      own_offset =
          offset_of-advance_offset c.group_id c.topic
          ∙ rw (beq_self {K = String} c.group_id, beq_self {K = String} c.topic) refl

      acknowledged :
          suc msg.seq < 2 ^ 64
          → suc msg.seq ≤ offset_of (advance_offset c mq msg) c.group_id c.topic
      acknowledged h = omega (arith, h, own_offset)
