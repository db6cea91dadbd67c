-- ===== src/RetryQueue.antt =====
-- internal/retryqueue/queue.go: torrents that are to be tried again, with the statements of
-- database/queries/torrent_retry_queue.sql on its table. Which calls of the store fail is a parameter, as
-- is the order in which the database lists due entries. Times are seconds; counts of failures are below
-- 2 ^ 31; logging is left out.

pub mod Enqueue
pub mod Dispatch
pub mod History
mod Examples
use Prim.Native.String.{String}
use hexmagnet.Prelude.{
  ℕ, zero, suc, ◌+◌, ◌-◌, Bool, true, false, not, ◌&&◌, ◌||◌, ◌==◌, ltb, leb, if◌then◌else◌, List,
  [], ◌∷◌, ◌++◌, map, Option, none, some, length, take, str_eq, ℤ, pos, negsuc, int32,
}

abbrev pub Bytes : Type 0
Bytes = List ℕ

abbrev pub stage_enrich : String
stage_enrich = "enrich"

abbrev pub topic_process_torrent : String
topic_process_torrent = "torrents.process"

abbrev pub topic_enriched : String
topic_enriched = "torrents.enriched"

abbrev pub topic_delete_torrent : String
topic_delete_torrent = "torrents.delete"

-- The delay of the backoff is a function of the count of failures, in whole seconds.
pub record Config : Type 0 where
  pub max_retries : ℤ
  pub backoff_delay : ℕ → ℕ
  pub batch_size : ℤ
  pub dispatch_lease : ℤ

-- A row of the table; `dispatched` says that `dispatched_at` is set.
pub record Entry : Type 0 where
  pub info_hash : String
  pub stage : String
  pub payload : Bytes
  pub fail_count : ℕ
  pub last_error : String
  pub next_retry_at : ℕ
  pub dispatched : Bool

-- An item with what marshalling its payload gives.
pub record RetryItem : Type 0 where
  pub stage : String
  pub info_hash : String
  pub payload : Option Bytes

-- What the upsert returns of an item.
pub record UpsertRow : Type 0 where
  pub info_hash : String
  pub stage : String
  pub fail_count : ℕ

-- The table, the torrents deleted, and the topics and keys of the messages produced, in order.
pub record RetryState : Type 0 where
  pub table : List Entry
  pub deleted : List String
  pub produced : List (String × String)

pub record Faults : Type 0 where
  pub store_fails : Bool
  pub upsert_fails : Bool
  pub backoff_fails : Bool
  pub list_fails : Bool
  pub delete_torrent_fails : String → Bool
  pub delete_retry_fails : String → Bool
  pub mark_fails : String → String → Bool

abbrev pub same_key : String → String → Entry → Bool
same_key info_hash stage e = str_eq e.info_hash info_hash && str_eq e.stage stage

abbrev pub bumped : RetryItem → Bytes → String → Entry → Entry
bumped i payload last_error e = record e {
  payload = payload;
  fail_count = e.fail_count + 1;
  last_error = last_error;
  dispatched = false;
}

-- `UpsertTorrentRetryBatch` on one item at the time `now`: the table and the entry's count.
unfoldable pub upsert_one : ℕ → RetryItem → Bytes → String → List Entry → List Entry × ℕ
upsert_one now i payload last_error [] = (
  record {
    info_hash = i.info_hash;
    stage = i.stage;
    payload = payload;
    fail_count = 1;
    last_error = last_error;
    next_retry_at = now;
    dispatched = false;
  }
      ∷ [],
  1,
)
upsert_one now i payload last_error (e ∷ es) =
    let rest = upsert_one now i payload last_error es in
    if same_key i.info_hash i.stage e
    then (bumped i payload last_error e ∷ es, e.fail_count + 1)
    else (e ∷ rest.0, rest.1)

-- A statement that would change a row twice is an error.
abbrev pub item_twice : RetryItem → List RetryItem → Bool
item_twice i [] = false
item_twice i (j ∷ js) =
    (str_eq i.info_hash j.info_hash && str_eq i.stage j.stage) || item_twice i js

abbrev pub has_twice : List RetryItem → Bool
has_twice [] = false
has_twice (i ∷ is) = item_twice i is || has_twice is

abbrev pub payload_of : Option Bytes → Bytes
payload_of none = []
payload_of (some b) = b

unfoldable pub upsert_batch : ℕ → String → List RetryItem → List Entry → List Entry × List UpsertRow
unfolding upsert_one
upsert_batch now last_error [] table = (table, [])
upsert_batch now last_error (i ∷ is) table =
    let one = upsert_one now i (payload_of i.payload) last_error table in
    let rest = upsert_batch now last_error is one.0 in
    (rest.0, record { info_hash = i.info_hash; stage = i.stage; fail_count = one.1 } ∷ rest.1)

unfoldable pub backoff_entry : ℕ → Config → List UpsertRow → Entry → Entry
backoff_entry now cfg [] e = e
backoff_entry now cfg (r ∷ rs) e = backoff_entry now cfg rs (
    if same_key r.info_hash r.stage e
    then record e { next_retry_at = now + cfg.backoff_delay r.fail_count }
    else e)

abbrev pub delete_retry : String → List Entry → List Entry
delete_retry info_hash [] = []
delete_retry info_hash (e ∷ es) =
    let rest = delete_retry info_hash es in if str_eq e.info_hash info_hash then rest else e ∷ rest

-- `cfg.MaxRetries >= 0 && failCount > int32(cfg.MaxRetries)`
abbrev pub lt_int : ℤ → ℕ → Bool
lt_int (pos m) n = ltb m n
lt_int (negsuc m) n = true

abbrev pub over_budget : ℤ → ℕ → Bool
over_budget (pos m) fail_count = lt_int (int32 m) fail_count
over_budget (negsuc m) fail_count = false

unfoldable pub evict : Faults → String → RetryState → RetryState
evict fl info_hash st = record {
  table = if fl.delete_retry_fails info_hash then st.table else delete_retry info_hash st.table;
  deleted = if fl.delete_torrent_fails info_hash then st.deleted else st.deleted ++ info_hash ∷ [];
  produced = st.produced ++ (topic_delete_torrent, info_hash) ∷ [];
}

-- The loop over the upserted rows: the state and the rows to back off.
unfoldable pub enqueue_rows :
    Config → Faults → List UpsertRow → RetryState → RetryState × List UpsertRow
unfolding evict
enqueue_rows cfg fl [] st = (st, [])
enqueue_rows cfg fl (r ∷ rs) st =
    let over = over_budget cfg.max_retries r.fail_count in
    let rest = enqueue_rows cfg fl rs (if over then evict fl r.info_hash st else st) in
    (rest.0, if over then rest.1 else r ∷ rest.1)

pub data EnqueueResult : Type 0 where
  ok : EnqueueResult
  exceeded : ℕ → EnqueueResult
  store_error marshal_error upsert_error : EnqueueResult

abbrev pub all_marshal : List RetryItem → Bool
all_marshal [] = true
all_marshal (i ∷ is) = elim i.payload [ none ↦ false | some b ↦ all_marshal is ]

abbrev pub has_items : List RetryItem → Bool
has_items [] = false
has_items (i ∷ is) = true

abbrev pub has_rows : List UpsertRow → Bool
has_rows [] = false
has_rows (r ∷ rs) = true

-- The rows to back off get their delay, where the statement does not fail.
unfoldable pub apply_backoff : ℕ → Config → Faults → List UpsertRow → RetryState → RetryState
unfolding backoff_entry
apply_backoff now cfg fl rows st =
    if has_rows rows && not fl.backoff_fails
    then record st { table = map (backoff_entry now cfg rows) st.table }
    else st

abbrev pub enqueue_result : ℕ → EnqueueResult
enqueue_result n = if n == 0 then ok else exceeded n

-- The part of `EnqueueBatch` after the upsert.
unfoldable pub enqueue_upserted :
    ℕ → Config → Faults → List UpsertRow → RetryState → RetryState × EnqueueResult
unfolding enqueue_rows apply_backoff
enqueue_upserted now cfg fl rows st =
    let looped = enqueue_rows cfg fl rows st in
    (apply_backoff now cfg fl looped.1 looped.0, enqueue_result (length rows - length looped.1))

unfoldable pub enqueue_batch :
    ℕ → Config → Faults → List RetryItem → String → RetryState → RetryState × EnqueueResult
unfolding upsert_batch enqueue_upserted
enqueue_batch now cfg fl items last_error st =
    if not (has_items items)
    then (st, ok)
    else if fl.store_fails
    then (st, store_error)
    else if not (all_marshal items)
    then (st, marshal_error)
    else if fl.upsert_fails || has_twice items
    then (st, upsert_error)
    else (let up = upsert_batch now last_error items st.table in
        enqueue_upserted now cfg fl up.1 (record st { table = up.0 }))

abbrev pub topic_of : String → String
topic_of stage = if str_eq stage stage_enrich then topic_enriched else topic_process_torrent

-- A dispatch that never reported counts as a failure.
abbrev pub count_due : Entry → ℕ
count_due e = if e.dispatched then e.fail_count + 1 else e.fail_count

abbrev pub mark_entry : Entry → ℕ → ℕ → Entry → Entry
mark_entry row fail_count next e =
    if same_key row.info_hash row.stage e
    then record e { fail_count = fail_count; next_retry_at = next; dispatched = true }
    else e

unfoldable pub dispatch_row : Config → Faults → ℕ → Entry → RetryState → RetryState
unfolding evict
dispatch_row cfg fl next row st =
    if over_budget cfg.max_retries (count_due row) then evict fl row.info_hash st else record st {
      table =
          if fl.mark_fails row.info_hash row.stage
          then st.table
          else map (mark_entry row (count_due row) next) st.table;
      produced = st.produced ++ (topic_of row.stage, row.info_hash) ∷ [];
    }

unfoldable pub dispatch_rows : Config → Faults → ℕ → List Entry → RetryState → RetryState
unfolding dispatch_row
dispatch_rows cfg fl next [] st = st
dispatch_rows cfg fl next (row ∷ rows) st =
    dispatch_rows cfg fl next rows (dispatch_row cfg fl next row st)

-- A number that is at most 0 stands for a default.
abbrev pub or_default : ℤ → ℕ → ℕ
or_default (pos zero) d = d
or_default (pos (suc n)) d = suc n
or_default (negsuc n) d = d

abbrev pub due_entries : ℕ → List Entry → List Entry
due_entries now [] = []
due_entries now (e ∷ es) =
    let rest = due_entries now es in if leb e.next_retry_at now then e ∷ rest else rest

-- The rows of a `LIMIT`; a negative one is an error of the database, and there are none.
abbrev pub limit_rows : ℤ → ℕ
limit_rows (pos n) = n
limit_rows (negsuc n) = 0

-- The entries that `ListDueTorrentRetry` gives for `int32(batchSize)`.
unfoldable pub list_due : (List Entry → List Entry) → Config → ℕ → List Entry → List Entry
list_due by_time cfg now table =
    take (limit_rows (int32 (or_default cfg.batch_size 100))) (by_time (due_entries now table))

unfoldable pub dispatch_due :
    (List Entry → List Entry) → Config → Faults → ℕ → RetryState → RetryState
unfolding dispatch_rows list_due
dispatch_due by_time cfg fl now st =
    if fl.store_fails || fl.list_fails
    then st
    else dispatch_rows cfg fl (now + or_default cfg.dispatch_lease 900)
        (list_due by_time cfg now st.table) st

unfoldable pub remove : Faults → List String → RetryState → RetryState
remove fl [] st = st
remove fl (h ∷ hs) st = remove fl hs (
    if fl.store_fails || fl.delete_retry_fails h
    then st
    else record st { table = delete_retry h st.table })

abbrev pub touch_entry : ℕ → String → Entry → Entry
touch_entry now info_hash e =
    if str_eq e.info_hash info_hash then record e { next_retry_at = now; dispatched = false } else e

-- `RetryNow`, where the store answers.
unfoldable pub retry_now : ℕ → String → RetryState → RetryState
retry_now now info_hash st = record st { table = map (touch_entry now info_hash) st.table }

unfoldable pub clear : RetryState → RetryState
clear st = record st { table = [] }
