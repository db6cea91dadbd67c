-- ===== src/JobControl/Tracker/Slot.antt =====
-- internal/jobcontrol: jobs that share a slot, as a relation of steps. A job's goroutine works on its
-- progress, closes when the progress has ended, and is idle once it has released the slot. A tracker is
-- loaded while its goroutine is idle, as at startup. A goroutine's progress is its tracker's, since
-- neither a start nor a discard replaces it while the job works.
use Prim.Native.String.{String}
use hexmagnet.Prelude.{ℕ, ◌≡◌, if◌then◌else◌, [], Option, none, some, string_eq}
use hexmagnet.JobControl.Batch.{
  Row, BatchProgress, State, Failure, World, fail, finish, advance, set_out,
}
use hexmagnet.JobControl.Tracker.{
  Controller, release, BatchTracker, StartOptions, StartResult, started, already_in_progress,
  another_operation, prepare_failed, start, load, discard,
}

pub data Phase : Type 0 where
  idle working closing : Phase

pub record System : Type 0 where
  pub slot : Controller
  pub trackers : String → BatchTracker
  pub phase : String → Phase

abbrev pub update {ℓ} : {A : Type ℓ} → (String → A) → String → A → String → A
update f k v j = if string_eq.beq k j then v else f j

abbrev pub with_progress : System → String → BatchProgress → System
with_progress s j p = record s {
  trackers = update s.trackers j (record (s.trackers j) { progress = some p });
}

abbrev pub phase_after : StartResult → Phase → Phase
phase_after started now = working
phase_after already_in_progress now = now
phase_after another_operation now = now
phase_after prepare_failed now = now

abbrev pub after_start : System → String → Controller × BatchTracker × StartResult → System
after_start s j (c, t, r) = record {
  slot = c;
  trackers = update s.trackers j t;
  phase = update s.phase j (phase_after r (s.phase j));
}

pub data Step : System → System → Type 0 where
  starts :
      (s : System) (j : String) (opts : StartOptions)
      → Step s (after_start s j (start opts s.slot (s.trackers j)))
  sets_out :
      (s : System) (j : String) (p : BatchProgress) (w : World)
      → s.phase j ≡ working
      → (s.trackers j).progress ≡ some p
      → Step s (with_progress s j (set_out w p))
  advances :
      (s : System) (j : String) (p : BatchProgress) (n : ℕ) (last : Row)
      → s.phase j ≡ working
      → (s.trackers j).progress ≡ some p
      → Step s (with_progress s j (advance n last p))
  fails :
      (s : System) (j : String) (p : BatchProgress) (why : Failure)
      → s.phase j ≡ working
      → (s.trackers j).progress ≡ some p
      → Step s (record (with_progress s j (fail why p)) { phase = update s.phase j closing })
  finishes :
      (s : System) (j : String) (p : BatchProgress)
      → s.phase j ≡ working
      → (s.trackers j).progress ≡ some p
      → Step s (record (with_progress s j (finish p)) { phase = update s.phase j closing })
  releases :
      (s : System) (j : String)
      → s.phase j ≡ closing
      → Step s (record s { slot = release j s.slot; phase = update s.phase j idle })
  discards :
      (s : System) (j : String)
      → Step s (record s { trackers = update s.trackers j (discard (s.trackers j)).0 })
  loads :
      (s : System) (j : String) (stored : Option State) (fingerprint : String)
      → s.phase j ≡ idle
      → Step s
          (record s { trackers = update s.trackers j (load stored fingerprint (s.trackers j)) })

abbrev pub initial : System
initial = record {
  slot = [];
  trackers = λ j. record { progress = none; job = j };
  phase = λ j. idle;
}

pub data Reach : System → Type 0 where
  begin : Reach initial
  next : {s t : System} → Reach s → Step s t → Reach t
