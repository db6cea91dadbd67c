-- ===== src/Webhook/Publisher.antt =====
-- internal/webhook/publisher.go: the publisher's queue over its channels, as steps of Publish, Update,
-- Start, Stop and the delivery worker. Channels are numbered in the order in which they are made, and
-- `writer` is the old channel of a resize that holds the lock, which Publish and the worker's reading
-- of the reference wait for; the worker's receive takes no lock. A delivery is one step, since it
-- touches no channel, and Start comes after the worker of the run before has ended.
pub mod Sends
pub mod Conserved
use hexmagnet.Prelude.{
  ℤ, ℕ, zero, suc, ◌+◌, ◌≡◌, ◌≢◌, Bool, true, false, ltb, ◌==◌, if◌then◌else◌, List, [], ◌∷◌, ◌++◌,
  length, Option, none, some,
}
use hexmagnet.Webhook.{
  Outside, Event, Config, CompiledFilter, Envelope, publishable, compile_filter, queue_capacity,
}

pub data Phase : Type 0 where
  off looping : Phase
  waiting draining : ℕ → Phase

pub record Publisher : Type 0 where
  pub config : Config
  pub filters : CompiledFilter
  pub queue : ℕ
  pub channels : ℕ → List Envelope
  pub capacity : ℕ → ℕ
  pub wake : Bool
  pub started : Bool
  pub canceled : Bool

-- With the lock, the worker, and what has been accepted, received and dropped so far.
pub record System : Type 0 where
  pub publisher : Publisher
  pub writer : Option ℕ
  pub phase : Phase
  pub accepted : List Envelope
  pub received : List Envelope
  pub dropped : List Envelope

abbrev pub update {ℓ} : {A : Type ℓ} → (ℕ → A) → ℕ → A → ℕ → A
update f k v j = if k == j then v else f j

abbrev pub no_filter : CompiledFilter
no_filter = record { categories = []; title_patterns = []; filename_patterns = [] }

-- A failed compile keeps the filter that is there.
abbrev pub compiled_or : Option CompiledFilter → CompiledFilter → CompiledFilter
compiled_or none f = f
compiled_or (some g) f = g

-- Sending without waiting to a channel: whether it was accepted, and the channels.
unfoldable pub try_send : ℕ → Envelope → Publisher → Bool × (ℕ → List Envelope)
try_send k e p =
    if ltb (length (p.channels k)) (p.capacity k)
    then (true, update p.channels k (p.channels k ++ e ∷ []))
    else (false, p.channels)

module _ (o : Outside) where
  unfoldable pub store_filter : Config → Publisher → Publisher
  store_filter cfg p = record p { filters = compiled_or (compile_filter o cfg) p.filters }

  unfoldable pub new_publisher : Config → Publisher
  new_publisher cfg = store_filter cfg (record {
    config = cfg;
    filters = no_filter;
    queue = 0;
    channels = λ k. [];
    capacity = λ k. queue_capacity cfg.queue_size;
    wake = false;
    started = false;
    canceled = false;
  })

  -- Update before the queue is resized.
  pub update_config : Config → Publisher → Publisher
  update_config cfg p = store_filter cfg (record p { config = cfg })

  unfoldable pub initial : Config → System
  initial cfg = record {
    publisher = new_publisher cfg;
    writer = none;
    phase = off;
    accepted = [];
    received = [];
    dropped = [];
  }

-- Publish and a round of a resize's loop, after their sends.
after_publish : System → Envelope → Bool × (ℕ → List Envelope) → System
after_publish s e (true, channels) = record s {
  publisher = record (s.publisher) { channels = channels };
  accepted = s.accepted ++ e ∷ [];
}
after_publish s e (false, channels) = s

unfoldable pub publish : Option Envelope → System → System
unfolding after_publish
publish none s = s
publish (some e) s = after_publish s e (try_send s.publisher.queue e s.publisher)

after_move : System → ℕ → List Envelope → Envelope → Bool × (ℕ → List Envelope) → System
after_move s old rest e (true, channels) = record s {
  publisher = record (s.publisher) { channels = update channels old rest };
}
after_move s old rest e (false, channels) = record s {
  publisher = record (s.publisher) { channels = update channels old rest };
  dropped = s.dropped ++ e ∷ [];
}

pub move : ℕ → List Envelope → Envelope → System → System
unfolding after_move
move old rest e s = after_move s old rest e (try_send s.publisher.queue e s.publisher)

-- A resize up to its loop.
pub swap : ℕ → System → System
swap size s = if s.publisher.capacity s.publisher.queue == size then s else record s {
  publisher = record (s.publisher) {
    queue = suc s.publisher.queue;
    channels = update s.publisher.channels (suc s.publisher.queue) [];
    capacity = update s.publisher.capacity (suc s.publisher.queue) size;
  };
  writer = some s.publisher.queue;
}

pub start : System → System
start s = if s.publisher.started then s else record s {
  publisher = record (s.publisher) { started = true; canceled = false };
  phase = looping;
}

pub stop : System → System
stop s =
    if s.publisher.started
    then record s { publisher = record (s.publisher) { started = false; canceled = true } }
    else s

-- The worker receives the first envelope of a channel.
pub receive : ℕ → List Envelope → Envelope → Phase → System → System
receive k rest e next s = record s {
  publisher = record (s.publisher) { channels = update s.publisher.channels k rest };
  phase = next;
  received = s.received ++ e ∷ [];
}

module _ (o : Outside) where
  pub data Step : System → System → Type 0 where
    publishes :
        (s : System) (cfg : Config) (f : CompiledFilter) (e : Event)
        → s.writer ≡ none
        → Step s (publish (publishable o cfg f e) s)
    configures :
        (s : System) (cfg : Config)
        → Step s (record s { publisher = update_config o cfg s.publisher })
    swaps : (s : System) (size : ℤ) → s.writer ≡ none → Step s (swap (queue_capacity size) s)
    moves :
        (s : System) (old : ℕ) (e : Envelope) (rest : List Envelope)
        → s.writer ≡ some old
        → s.publisher.channels old ≡ e ∷ rest
        → Step s (move old rest e s)
    wakes :
        (s : System) (old : ℕ)
        → s.writer ≡ some old
        → s.publisher.channels old ≡ []
        → Step s (record s { publisher = record (s.publisher) { wake = true }; writer = none })
    starts : (s : System) → s.phase ≡ off → Step s (start s)
    stops : (s : System) → Step s (stop s)
    looks :
        (s : System)
        → s.phase ≡ looping
        → s.writer ≡ none
        → Step s (record s { phase = waiting s.publisher.queue })
    takes :
        (s : System) (k : ℕ) (e : Envelope) (rest : List Envelope)
        → s.phase ≡ waiting k
        → s.publisher.channels k ≡ e ∷ rest
        → Step s (receive k rest e looping s)
    is_woken :
        (s : System) (k : ℕ)
        → s.phase ≡ waiting k
        → s.publisher.wake ≡ true
        → Step s (record s { publisher = record (s.publisher) { wake = false }; phase = looping })
    cancels_loop :
        (s : System)
        → s.phase ≡ looping
        → s.publisher.canceled ≡ true
        → s.writer ≡ none
        → Step s (record s { phase = draining s.publisher.queue })
    cancels_wait :
        (s : System) (k : ℕ)
        → s.phase ≡ waiting k
        → s.publisher.canceled ≡ true
        → s.writer ≡ none
        → Step s (record s { phase = draining s.publisher.queue })
    drains :
        (s : System) (k : ℕ) (e : Envelope) (rest : List Envelope)
        → s.phase ≡ draining k
        → s.publisher.channels k ≡ e ∷ rest
        → Step s (receive k rest e (draining k) s)
    ends :
        (s : System) (k : ℕ)
        → s.phase ≡ draining k
        → s.publisher.channels k ≡ []
        → Step s (record s { phase = off })

  pub data Reach (cfg : Config) : System → Type 0 where
    begin : Reach cfg (initial o cfg)
    next : {s t : System} → Reach cfg s → Step s t → Reach cfg t
