-- ===== src/JobControl/Examples.antt =====
-- The theorems of the jobs at concrete inputs.
use Prim.Native.String.{String}
use hexmagnet.Prelude.{◌≡◌, refl, ℕ, Bool, ◌+◌, true, false, List, [], ◌∷◌, none, some, leb, arith}
use hexmagnet.JobControl.Batch.{
  Row, World, processed, run_error, epoch, Ran, State, run, set_out, last_saved, select,
  time_to_pgtype,
}
use hexmagnet.JobControl.Batch.Account.{IsTable, Calm}
use hexmagnet.JobControl.Batch.Saves.{IsTimed}
use hexmagnet.JobControl.Tracker.{
  BatchTracker, StartOptions, mark, new_progress, running, paused, start, choose, try_acquire,
}
use hexmagnet.JobControl.Tracker.Slot.{System, initial, Reach, begin, next, starts, after_start}
use hexmagnet.JobControl.Tracker.Exclusive.{running_once}
use hexmagnet.JobControl.Resume.{run-Resumes, run-Calm, Leads}

abbrev rows : List Row
rows =
    record { created_at = epoch + 1; info_hash = 97 ∷ [] }
    ∷ record { created_at = epoch + 1; info_hash = 98 ∷ [] }
    ∷ record { created_at = epoch + 5; info_hash = 97 ∷ [] }
    ∷ []

abbrev calm_world : World
calm_world = record {
  table = rows;
  now = epoch + 2;
  count_fails = false;
  is_canceled = λ round. false;
  list_fails = λ round. false;
  run = λ round page. processed 1;
}

-- The function for the first page fails.
abbrev broken_world : World
broken_world = record calm_world { run = λ round page. run_error }

rows-IsTable : IsTable calm_world
rows-IsTable = record {
  sorted = ((refl, (refl, tt)), ((refl, tt), (tt, tt)));
  recent = omega arith;
}

broken-IsTable : IsTable broken_world
broken-IsTable = record { sorted = rows-IsTable.sorted; recent = rows-IsTable.recent }

calm_world-Calm : Calm calm_world
calm_world-Calm = record {
  count = refl;
  canceled = λ round. refl;
  list = λ round. refl;
  run = λ round page. (1, refl);
}

run-Calm_example :
    (r : Ran) × (run calm_world (mark (new_progress "f")) ≡ some r)
    × ((r.progress.done ≡ true)
        × (r.visited ≡ select (λ row. leb row.created_at calm_world.now) calm_world.table))
run-Calm_example = run-Calm calm_world "f" rows-IsTable calm_world-Calm

abbrev options : StartOptions
options = record { fingerprint = "f"; force_fresh = false; prepare_fresh = none }

abbrev reindex : BatchTracker
reindex = record { progress = none; job = "embedding reindex" }

not_done : (new_progress "f").done ≡ false
unfolding new_progress
not_done = refl

IsTimed-start : IsTimed (set_out broken_world (new_progress "f")).cursor_created_at
unfolding set_out new_progress time_to_pgtype
IsTimed-start = refl

barrier_start : (set_out broken_world (new_progress "f")).barrier_time.time ≡ 0 → ⊥
unfolding set_out new_progress
barrier_start h = omega arith

run-Resumes_example :
    (r : Ran) × (run broken_world (new_progress "f") ≡ some r)
    × ((fails : ℕ → Bool) (s : State)
        → last_saved fails 0 r.asked ≡ some s
        → Leads broken_world calm_world (new_progress "f") reindex options "f" r fails s)
run-Resumes_example =
    run-Resumes broken_world calm_world (new_progress "f") reindex options "f" broken-IsTable refl
      calm_world-Calm not_done IsTimed-start barrier_start refl

abbrev one_runs : System
one_runs =
    after_start initial "embedding reindex"
      (start options initial.slot (initial.trackers "embedding reindex"))

one_runs-Reach : Reach one_runs
one_runs-Reach = next begin (starts initial "embedding reindex" options)

one_running : running (one_runs.trackers "embedding reindex") ≡ true
unfolding running start choose new_progress try_acquire
one_running = refl

running_once_example :
    (◌≡◌ {A = String} "embedding reindex" "embedding reindex") × (paused one_runs.slot ≡ true)
running_once_example =
    running_once one_runs "embedding reindex" "embedding reindex" one_runs-Reach one_running
      one_running
