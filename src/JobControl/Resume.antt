-- ===== src/JobControl/Resume.antt =====
-- internal/jobcontrol: a run that was broken off, and the run that takes it up after a restart.
use Prim.Native.String.{String}
use mathlib.Core.List.{append-nil}
use hexmagnet.Prelude.{
  ℕ, ◌≡◌, refl, sym, ◌∙◌, ap, subst, Bool, length, suc, true, false, not, ◌==◌, Bool-cases, inl,
  inr, List, [], ◌∷◌, ◌++◌, none, some, str_eq, insert, string_eq, All, leb, lt→ltb, ◌<◌, arith,
}
use hexmagnet.JobControl.Batch.{
  BatchProgress, State, state_of, is_set, Timestamptz, time_to_pgtype, cursor_param, can_resume,
  World, Ran, Row, set_out, run, last_saved, rows_after, epoch, select,
}
use hexmagnet.JobControl.Batch.Pages.{Sorted}
use hexmagnet.JobControl.Batch.Saves.{pending, IsTimed, Keeps}
use hexmagnet.JobControl.Batch.Account.{IsTable, Calm, run-Accounts}
use hexmagnet.JobControl.Tracker.{
  BatchTracker, StartOptions, started, mark, choose, start, load, try_acquire, new_progress,
}

-- The progress that is loaded from a state and then resumed.
abbrev resumed : BatchProgress → StartOptions → BatchProgress
resumed p opts = record {
  total = p.total;
  count = p.count;
  done = false;
  running = true;
  resumable = not (p.barrier_time.time == 0);
  config_changed = not (str_eq p.state_fingerprint opts.fingerprint);
  err_msg = none;
  barrier_time = time_to_pgtype p.barrier_time.time;
  cursor_created_at = time_to_pgtype p.cursor_created_at.time;
  cursor_info_hash = p.cursor_info_hash;
  state_fingerprint = p.state_fingerprint;
}

is_set-timed : (t : ℕ) → (t ≡ 0 → ⊥) → is_set (time_to_pgtype t) ≡ true
unfolding time_to_pgtype
is_set-timed t h = ground (arith, h)

-- A start after a load takes up a run that is not done.
start-load :
    (p : BatchProgress) (t : BatchTracker) (opts : StartOptions) (fingerprint : String)
    → p.done ≡ false
    → (p.barrier_time.time ≡ 0 → ⊥)
    → opts.force_fresh ≡ false
    → start opts [] (load (some (state_of p)) fingerprint t)
      ≡ ((t.job, tt) ∷ [], record t { progress = some (resumed p opts) }, started)
unfolding start load choose can_resume try_acquire insert
start-load p t opts fingerprint d b f = rw (d, f, is_set-timed p.barrier_time.time b) refl

-- A run that has its barrier starts with what is pending.
pending-set_out :
    (w : World) (p : BatchProgress)
    → is_set p.barrier_time ≡ true
    → pending w (set_out w p) ≡ pending w p
unfolding set_out
pending-set_out w p b = elim (Bool-cases w.count_fails) [
  | inl c ↦ rw (set_out, b, c) refl
  | inr c ↦ rw (set_out, b, c) refl
]

time-time_to_pgtype : (t : ℕ) → (time_to_pgtype t).time ≡ t
unfolding time_to_pgtype
time-time_to_pgtype t = ground arith

-- What is pending for a run that is taken up is what was left.
pending-resumed :
    (w w' : World) (p : BatchProgress) (opts : StartOptions)
    → w'.table ≡ w.table
    → (p.barrier_time.time ≡ 0 → ⊥)
    → IsTimed p.cursor_created_at
    → pending w' (set_out w' (resumed p opts)) ≡ pending w p
pending-resumed w w' p opts e b c =
    pending-set_out w' (resumed p opts) (is_set-timed p.barrier_time.time b)
    ∙ (ap
          (λ l.
            rows_after l (time_to_pgtype p.barrier_time.time).time
              (cursor_param (time_to_pgtype p.cursor_created_at.time)) p.cursor_info_hash)
          e
        ∙ (ap
              (λ (k : ℕ).
                rows_after w.table k (cursor_param (time_to_pgtype p.cursor_created_at.time))
                  p.cursor_info_hash)
              (time-time_to_pgtype p.barrier_time.time)
            ∙ ap (λ k. rows_after w.table p.barrier_time.time (cursor_param k) p.cursor_info_hash)
                c))

-- The state in the store is loaded and taken up, and the second run does what the first left from
-- there on: the first's pages until then, and the second's, make up what there was to do. The pages
-- after it are done again; there are none if the first run's last save did not fail.
pub record Resumes (w w' : World) (p : BatchProgress) (t : BatchTracker) (opts : StartOptions)
    (fingerprint : String) (r : Ran) (fails : ℕ → Bool) (s : State) : Type 0 where
  pub taken : BatchProgress
  pub starts :
      start opts [] (load (some s) fingerprint t)
      ≡ ((t.job, tt) ∷ [], record t { progress = some taken }, started)
  pub second : Ran
  pub runs : run w' taken ≡ some second
  pub done : second.progress.done ≡ true
  pub kept : List Row
  pub redone : List Row
  pub split : r.visited ≡ kept ++ redone
  pub all : kept ++ second.visited ≡ pending w (set_out w p)
  pub exact : (k : ℕ) → suc k ≡ length r.asked → fails k ≡ false → redone ≡ []

-- What a state in the store says: all is done, or what was left can be taken up.
abbrev pub Leads :
    World
    → World
    → BatchProgress
    → BatchTracker
    → StartOptions
    → String
    → Ran
    → (ℕ → Bool)
    → State
    → Type 0
Leads w w' p t opts fingerprint r fails s =
    (s.done ≡ true → r.visited ≡ pending w (set_out w p))
    × (s.done ≡ false → Resumes w w' p t opts fingerprint r fails s)

done-set_out : (w : World) (p : BatchProgress) → (set_out w p).done ≡ p.done
unfolding set_out
done-set_out w p = ground arith

IsTable-same : (w w' : World) → w'.table ≡ w.table → IsTable w → IsTable w'
IsTable-same w w' e t = record {
  sorted = subst Sorted (sym e) t.sorted;
  recent = subst (All (λ y. epoch < y.created_at)) (sym e) t.recent;
}

module _ (w w' : World) (p : BatchProgress) (t : BatchTracker) (opts : StartOptions)
    (fingerprint : String) where
  whole-Keeps :
      (r : Ran) (fails : ℕ → Bool) (s : State)
      → (set_out w p).done ≡ false
      → Keeps w (set_out w p) r.visited r.asked fails 0 s
      → s.done ≡ true
      → r.visited ≡ pending w (set_out w p)
  whole-Keeps r fails s undone q d =
      let (e, f) = q.whole undone d in q.split ∙ (ap (λ l. q.kept ++ l) (f ∙ sym e) ∙ q.all)

  Resumes-Keeps :
      (r : Ran) (fails : ℕ → Bool) (s : State)
      → IsTable w
      → w'.table ≡ w.table
      → Calm w'
      → IsTimed (set_out w p).cursor_created_at
      → ((set_out w p).barrier_time.time ≡ 0 → ⊥)
      → opts.force_fresh ≡ false
      → Keeps w (set_out w p) r.visited r.asked fails 0 s
      → s.done ≡ false
      → Resumes w w' p t opts fingerprint r fails s
  Resumes-Keeps r fails s table same calm timed barrier force k undone =
      let set : (k.at.barrier_time.time ≡ 0 → ⊥) =
        λ e. barrier (sym (ap (λ (b : Timestamptz). b.time) k.barrier) ∙ e) in
      let q = run-Accounts w' (IsTable-same w w' same table) (resumed k.at opts) in
      record {
        taken = resumed k.at opts;
        starts =
            ap (λ x. start opts [] (load (some x) fingerprint t)) k.is_its
            ∙ start-load k.at t opts fingerprint
                (ap (λ (x : State). x.done) (sym k.is_its) ∙ undone) set force;
        second = q.0;
        runs = q.1;
        done = q.2.calm calm;
        kept = k.kept;
        redone = k.redone;
        split = k.split;
        all =
            ap (λ l. k.kept ++ l)
              (sym (append-nil q.0.visited)
                ∙ (ap (λ l. q.0.visited ++ l) (sym (q.2.finished (q.2.calm calm)))
                    ∙ (q.2.all ∙ pending-resumed w w' k.at opts same set (k.timed timed))))
            ∙ k.all;
        exact = λ i u. k.exact i (omega (arith, u));
      }

  -- Over one table that is in the order of the query with all rows later than the epoch, where the
  -- first run has a barrier and a cursor that reads back as it was written, the first run is not
  -- done before, and the start is not forced to be fresh: a run returns whatever fails in it, the
  -- saves of its state included. If the last state that the store has of it is done, its pages are
  -- the rows that were pending at its start, in order. If it is not, loading it and starting again
  -- with the slot free takes the run up; if nothing goes wrong in this second run it ends done,
  -- and the rows of the first run's pages until that state and of the second's are together, in
  -- order and each once, those that were pending at the first run's start; the first run's pages
  -- after that state are the ones that are done again, and there are none if its last save did not
  -- fail.
  pub run-Resumes :
      IsTable w
      → w'.table ≡ w.table
      → Calm w'
      → p.done ≡ false
      → IsTimed (set_out w p).cursor_created_at
      → ((set_out w p).barrier_time.time ≡ 0 → ⊥)
      → opts.force_fresh ≡ false
      → (r : Ran) × (run w p ≡ some r)
        × ((fails : ℕ → Bool) (s : State)
            → last_saved fails 0 r.asked ≡ some s
            → Leads w w' p t opts fingerprint r fails s)
  run-Resumes table same calm undone timed barrier force =
      let r = run-Accounts w table p in
      (
        r.0,
        r.1,
        λ fails s h.
            let k = r.2.stored fails 0 s h in
            (
              whole-Keeps r.0 fails s (done-set_out w p ∙ undone) k,
              Resumes-Keeps r.0 fails s table same calm timed barrier force k,
            ),
      )

All-recent :
    (barrier : ℕ) (rows : List Row)
    → All (λ y. epoch < y.created_at) rows
    → rows_after rows barrier epoch [] ≡ select (λ row. leb row.created_at barrier) rows
All-recent barrier [] h = refl
All-recent barrier (x ∷ xs) h = elim (Bool-cases (leb x.created_at barrier)) [
  | inl e ↦ rw (e, lt→ltb epoch x.created_at h.0) (ap (λ l. x ∷ l) (All-recent barrier xs h.1))
  | inr e ↦ rw e (All-recent barrier xs h.1)
]

-- Over a table in the order of the query with all rows later than the epoch, a fresh run in which
-- nothing goes wrong returns, is done, and has visited exactly the rows that are not later than
-- its start, in order.
pub run-Calm :
    (w : World) (fingerprint : String)
    → IsTable w
    → Calm w
    → (r : Ran) × (run w (mark (new_progress fingerprint)) ≡ some r)
      × ((r.progress.done ≡ true) × (r.visited ≡ select (λ row. leb row.created_at w.now) w.table))
unfolding new_progress set_out cursor_param
run-Calm w fingerprint table calm =
    let r = run-Accounts w table (mark (new_progress fingerprint)) in
    (
      r.0,
      r.1,
      (
        r.2.calm calm,
        sym (append-nil r.0.visited)
            ∙ (ap (λ l. r.0.visited ++ l) (sym (r.2.finished (r.2.calm calm)))
                ∙ (r.2.all ∙ (from_epoch ∙ All-recent w.now w.table table.recent))),
      ),
    )
  where
    from_epoch :
        pending w (set_out w (mark (new_progress fingerprint))) ≡ rows_after w.table w.now epoch []
    from_epoch = refl
