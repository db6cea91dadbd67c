-- ===== src/JobControl/Tracker.antt =====
-- internal/jobcontrol/controller.go and batch.go: the slot that jobs share, and the tracker of a job.
pub mod Slot
pub mod Invariant
pub mod Exclusive
use Prim.Native.String.{String}
use hexmagnet.Prelude.{
  ℕ, Bool, true, false, not, ◌&&◌, ◌==◌, if◌then◌else◌, List, [], ◌∷◌, Option, none, some, insert,
  delete, string_eq, str_eq,
}
use hexmagnet.JobControl.Batch.{
  Failure, BatchProgress, State, no_time, can_resume, time_to_pgtype, fail, finish,
}

-- The names of the jobs that run.
abbrev pub Controller : Type 0
Controller = List (String × Unit {0})

unfoldable pub new_controller : Controller
new_controller = []

unfoldable pub paused : Controller → Bool
paused [] = false
paused (job ∷ jobs) = true

unfoldable pub try_acquire : String → Controller → Controller × Bool
try_acquire name [] = (insert name tt [], true)
try_acquire name (job ∷ jobs) = (job ∷ jobs, false)

unfoldable pub release : String → Controller → Controller
release name c = delete name c

-- A tracker, its store and controller set; the store is a parameter of the operations.
pub record BatchTracker : Type 0 where
  pub progress : Option BatchProgress
  pub job : String

pub record BatchStatus : Type 0 where
  pub total : ℕ
  pub count : ℕ
  pub done : Bool
  pub running : Bool
  pub resumable : Bool
  pub config_changed : Bool
  pub error : Option Failure

unfoldable pub snapshot : BatchProgress → BatchStatus
snapshot p = record {
  total = p.total;
  count = p.count;
  done = p.done;
  running = p.running;
  resumable = p.resumable && (not p.done && not p.running);
  config_changed = p.config_changed;
  error = p.err_msg;
}

unfoldable pub progress_status : BatchTracker → BatchStatus
unfolding snapshot
progress_status t = elim t.progress [
  | some p ↦ snapshot p
  | none ↦ record {
    total = 0;
    count = 0;
    done = true;
    running = false;
    resumable = false;
    config_changed = false;
    error = none;
  }
]

abbrev pub at_work : BatchProgress → Bool
at_work p = p.running && not p.done

abbrev pub works : Option BatchProgress → Bool
works none = false
works (some p) = at_work p

unfoldable pub running : BatchTracker → Bool
running t = works t.progress

-- What a start is given: `prepare_fresh` is whether it succeeds, `none` where there is none.
pub record StartOptions : Type 0 where
  pub fingerprint : String
  pub force_fresh : Bool
  pub prepare_fresh : Option Bool

pub data StartResult : Type 0 where
  started already_in_progress another_operation prepare_failed : StartResult

unfoldable pub new_progress : String → BatchProgress
new_progress fingerprint = record {
  total = 0;
  count = 0;
  done = false;
  running = false;
  resumable = true;
  config_changed = false;
  err_msg = none;
  barrier_time = no_time;
  cursor_created_at = no_time;
  cursor_info_hash = [];
  state_fingerprint = fingerprint;
}

abbrev pub fresh : StartOptions → Option BatchProgress
fresh opts = elim opts.prepare_fresh [
  | some false ↦ none
  | some true ↦ some (new_progress opts.fingerprint)
  | none ↦ some (new_progress opts.fingerprint)
]

-- The progress that is resumed or new; `none` where preparing fails.
unfoldable pub choose : StartOptions → Option BatchProgress → Option BatchProgress
unfolding new_progress
choose opts none = fresh opts
choose opts (some p) =
    if not opts.force_fresh && can_resume p
    then some (record p { config_changed = not (str_eq p.state_fingerprint opts.fingerprint) })
    else fresh opts

abbrev pub mark : BatchProgress → BatchProgress
mark p = record p { running = true; err_msg = none }

abbrev pub launch :
    Controller → BatchTracker → Option BatchProgress → Controller × BatchTracker × StartResult
launch c t none = (release t.job c, t, prepare_failed)
launch c t (some p) = (c, record t { progress = some (mark p) }, started)

-- `Start`, up to where the goroutine is launched.
unfoldable pub start :
    StartOptions → Controller → BatchTracker → Controller × BatchTracker × StartResult
unfolding choose try_acquire release
start opts c t =
    if works t.progress
    then (c, t, already_in_progress)
    else if not (try_acquire t.job c).1
    then (c, t, another_operation)
    else launch (try_acquire t.job c).0 t (choose opts t.progress)

-- `Load`, on the state that the store has.
unfoldable pub load : Option State → String → BatchTracker → BatchTracker
unfolding time_to_pgtype
load none fingerprint t = t
load (some s) fingerprint t = record t {
  progress = some (record {
    total = s.total;
    count = s.count;
    done = s.done;
    running = false;
    resumable = not s.done && not (s.barrier_time == 0);
    config_changed = not (str_eq s.fingerprint fingerprint);
    err_msg = none;
    barrier_time = time_to_pgtype s.barrier_time;
    cursor_created_at = time_to_pgtype s.cursor_created_at;
    cursor_info_hash = s.cursor_info_hash;
    state_fingerprint = s.fingerprint;
  });
}

-- `Discard`: `false` where it is refused.
unfoldable pub discard : BatchTracker → BatchTracker × Bool
discard t = if works t.progress then (t, false) else (record t { progress = none }, true)
