-- ===== src/JobControl/Batch.antt =====
-- internal/jobcontrol/batch.go: the run of a batch job. Times are nanoseconds since the year 1, so 0 is
-- the zero `time.Time`; a text of an error is what it reports; the table of torrents is a list in the
-- order of the query, which nothing else changes during a run. What the context, the queries and the
-- function for a page do in each round is a parameter.
pub mod Pages
pub mod Saves
pub mod Account
use Prim.Native.String.{String}
use hexmagnet.Prelude.{
  ℕ, zero, suc, ◌+◌, ◌*◌, ◌^◌, Bool, true, false, not, ◌&&◌, ◌||◌, ◌==◌, ltb, leb, if◌then◌else◌,
  List, [], ◌∷◌, ◌++◌, Option, none, some, length, take,
}

abbrev pub Bytes : Type 0
Bytes = List ℕ

-- `pgtype.Timestamptz`
pub record Timestamptz : Type 0 where
  pub time : ℕ
  pub valid : Bool

abbrev pub no_time : Timestamptz
no_time = record { time = 0; valid = false }

-- `time.Unix(0, 0)`
abbrev pub epoch : ℕ
epoch = 62135596800 * 10 ^ 9

abbrev pub batch_page_size : ℕ
batch_page_size = 50

-- A row of the query, as what the job reads of it.
pub record Row : Type 0 where
  pub created_at : ℕ
  pub info_hash : Bytes

-- The order of texts.
abbrev pub lt_bytes : Bytes → Bytes → Bool
lt_bytes [] [] = false
lt_bytes [] (y ∷ ys) = true
lt_bytes (x ∷ xs) [] = false
lt_bytes (x ∷ xs) (y ∷ ys) = ltb x y || (x == y && lt_bytes xs ys)

-- `(t.created_at, t.info_hash) > (cursor_created_at, cursor_info_hash)`
abbrev pub after : ℕ → Bytes → Row → Bool
after created_at info_hash row =
    ltb created_at row.created_at
    || (created_at == row.created_at && lt_bytes info_hash row.info_hash)

abbrev pub select : (Row → Bool) → List Row → List Row
select p [] = []
select p (x ∷ xs) = let rest = select p xs in if p x then x ∷ rest else rest

-- The rows of the query `ListTorrentsPageAfter` without its limit.
abbrev pub rows_after : List Row → ℕ → ℕ → Bytes → List Row
rows_after table barrier created_at info_hash =
    select (λ row. leb row.created_at barrier && after created_at info_hash row) table

unfoldable pub list_torrents_page_after : List Row → ℕ → ℕ → Bytes → ℕ → List Row
list_torrents_page_after table barrier created_at info_hash size =
    take size (rows_after table barrier created_at info_hash)

unfoldable pub count_torrents_before : List Row → ℕ → ℕ
count_torrents_before table barrier = length (select (λ row. leb row.created_at barrier) table)

pub data Failure : Type 0 where
  canceled count_failed list_failed run_failed panicked : Failure

pub record BatchProgress : Type 0 where
  pub total : ℕ
  pub count : ℕ
  pub done : Bool
  pub running : Bool
  pub resumable : Bool
  pub config_changed : Bool
  pub err_msg : Option Failure
  pub barrier_time : Timestamptz
  pub cursor_created_at : Timestamptz
  pub cursor_info_hash : Bytes
  pub state_fingerprint : String

-- What is kept of a progress, but for the time of the save.
pub record State : Type 0 where
  pub barrier_time : ℕ
  pub cursor_created_at : ℕ
  pub cursor_info_hash : Bytes
  pub total : ℕ
  pub count : ℕ
  pub done : Bool
  pub fingerprint : String

abbrev pub state_of : BatchProgress → State
state_of p = record {
  barrier_time = p.barrier_time.time;
  cursor_created_at = p.cursor_created_at.time;
  cursor_info_hash = p.cursor_info_hash;
  total = p.total;
  count = p.count;
  done = p.done;
  fingerprint = p.state_fingerprint;
}

abbrev pub is_set : Timestamptz → Bool
is_set t = t.valid && not (t.time == 0)

unfoldable pub can_resume : BatchProgress → Bool
can_resume p = not p.done && is_set p.barrier_time

unfoldable pub fail : Failure → BatchProgress → BatchProgress
fail why p = record p { done = false; running = false; err_msg = some why }

unfoldable pub time_to_pgtype : ℕ → Timestamptz
time_to_pgtype t = if t == 0 then no_time else record { time = t; valid = true }

unfoldable pub cursor_param : Timestamptz → ℕ
cursor_param t = if is_set t then t.time else epoch

-- What a page's function gives.
pub data RunResult : Type 0 where
  processed : ℕ → RunResult
  run_error : RunResult
  run_panic : RunResult

-- The world in which a job runs: round by round, whether the context is done, whether the query
-- fails, and what the function for a page gives.
pub record World : Type 0 where
  pub table : List Row
  pub now : ℕ
  pub count_fails : Bool
  pub is_canceled : ℕ → Bool
  pub list_fails : ℕ → Bool
  pub run : ℕ → List Row → RunResult

-- The progress at the end, the rows of the pages that were dealt with, and the states that the store
-- was asked to save. Whether it saved them makes no difference to the run: an error is logged.
pub record Ran : Type 0 where
  pub progress : BatchProgress
  pub visited : List Row
  pub asked : List State

-- What the store has of the states that it was asked to save: the last one whose `Save` did not fail,
-- where `fails` says which did by their numbers, the first of them being `n`.
unfoldable pub last_saved : (ℕ → Bool) → ℕ → List State → Option State
last_saved fails n [] = none
last_saved fails n (s ∷ ss) = elim (last_saved fails (suc n) ss) [
  | some later ↦ some later
  | none ↦ if fails n then none else some s
]

-- `save` and return.
abbrev pub ends : BatchProgress → Ran
ends p = record { progress = p; visited = []; asked = state_of p ∷ [] }

abbrev pub last_row : Row → List Row → Row
last_row row [] = row
last_row row (r ∷ rs) = last_row r rs

unfoldable pub advance : ℕ → Row → BatchProgress → BatchProgress
advance n last p = record p {
  count = p.count + n;
  cursor_created_at = record { time = last.created_at; valid = true };
  cursor_info_hash = last.info_hash;
}

unfoldable pub finish : BatchProgress → BatchProgress
finish p = record p { done = true; resumable = false }

abbrev pub after_page : List Row → BatchProgress → Option Ran → Option Ran
after_page rows p none = none
after_page rows p (some r) =
    some
      (record { progress = r.progress; visited = rows ++ r.visited; asked = state_of p ∷ r.asked })

-- The loop over the pages, a page at a time; `none` is want of fuel.
unfoldable pub run_page :
    World → ℕ → List Row → BatchProgress → (BatchProgress → Option Ran) → Option Ran
unfolding advance fail finish
run_page w round [] p continue = some (ends (finish p))
run_page w round (row ∷ rows) p continue = elim (w.run round (row ∷ rows)) [
  | run_error ↦ some (ends (fail run_failed p))
  | run_panic ↦ some (ends (fail panicked p))
  | processed n ↦
      let p' = advance n (last_row row rows) p in
      after_page (row ∷ rows) p'
        (if ltb (length (row ∷ rows)) batch_page_size then some (ends (finish p')) else continue p')
]

unfoldable pub page_loop : World → ℕ → ℕ → BatchProgress → Option Ran
unfolding run_page list_torrents_page_after cursor_param
page_loop w zero round p = none
page_loop w (suc fuel) round p =
    let page =
      run_page w round
        (list_torrents_page_after w.table p.barrier_time.time (cursor_param p.cursor_created_at)
          p.cursor_info_hash batch_page_size)
        p (page_loop w fuel (round + 1)) in
    if w.is_canceled round
    then some (ends (fail canceled p))
    else if w.list_fails round
    then some (ends (fail list_failed p))
    else page

-- The barrier and the cursor that a run starts with.
unfoldable pub set_out : World → BatchProgress → BatchProgress
unfolding count_torrents_before
set_out w p =
    if is_set p.barrier_time
    then (if w.count_fails
        then p
        else record p { total = count_torrents_before w.table p.barrier_time.time })
    else record p {
      barrier_time = record { time = w.now; valid = true };
      total = if w.count_fails then 0 else count_torrents_before w.table w.now;
      count = 0;
      cursor_created_at = no_time;
      cursor_info_hash = [];
    }

-- `run`. There are fewer rounds than rows, and one.
unfoldable pub run : World → BatchProgress → Option Ran
unfolding set_out page_loop
run w p =
    if not (is_set p.barrier_time) && w.count_fails
    then some (ends (fail count_failed (set_out w p)))
    else page_loop w (suc (length w.table)) 0 (set_out w p)
