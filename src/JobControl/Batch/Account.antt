-- ===== src/JobControl/Batch/Account.antt =====
-- internal/jobcontrol/batch.go: what a run leaves to do, whatever happens in it.
use mathlib.Core.List.{append_assoc}
use hexmagnet.Prelude.{
  ℕ, zero, suc, ◌+◌, ◌≤◌, ◌<◌, ◌≡◌, refl, sym, ◌∙◌, ap, subst, Bool, true, false, ◌&&◌, not, ltb,
  if◌then◌else◌, Bool-cases, leb, inl, inr, ◌⊎◌, List, [], ◌∷◌, ◌++◌, Option, some, length, take,
  drop, All, arith,
}
use hexmagnet.JobControl.Batch.{
  Row, Failure, canceled, list_failed, run_failed, panicked, count_failed, BatchProgress, State,
  state_of, is_set, fail, finish, advance, epoch, cursor_param, time_to_pgtype, RunResult,
  processed, run_error, run_panic, World, Ran, ends, after_page, last_row, rows_after, run_page,
  page_loop, batch_page_size, list_torrents_page_after, select, set_out, run, after, last_saved,
}
use hexmagnet.JobControl.Batch.Saves.{pending, IsTimed, Keeps, ends-Keeps, after_page-Keeps}
use hexmagnet.JobControl.Batch.Pages.{Sorted, rows_after-last_row, All-last_row, select-All}

-- The table is in the order of the query, and all of it is later than the epoch.
pub record IsTable (w : World) : Type 0 where
  pub sorted : Sorted w.table
  pub recent : All (λ y. epoch < y.created_at) w.table

-- Nothing goes wrong.
pub record Calm (w : World) : Type 0 where
  pub count : w.count_fails ≡ false
  pub canceled : (round : ℕ) → w.is_canceled round ≡ false
  pub list : (round : ℕ) → w.list_fails round ≡ false
  pub run : (round : ℕ) (rows : List Row) → (n : ℕ) × (w.run round rows ≡ processed n)

-- The pages dealt with and what is left make up what there was to do; a run that is not done has
-- stopped with its failure; and whatever saves fail, what the store has of it leads on.
pub record Accounts (w : World) (p : BatchProgress) (r : Ran) : Type 0 where
  pub barrier : r.progress.barrier_time ≡ p.barrier_time
  pub all : r.visited ++ pending w r.progress ≡ pending w p
  pub finished : r.progress.done ≡ true → pending w r.progress ≡ []
  pub stopped :
      r.progress.done ≡ false
      → (r.progress.running ≡ false) × ((why : Failure) × (r.progress.err_msg ≡ some why))
  pub calm : Calm w → r.progress.done ≡ true
  pub asks : 0 < length r.asked
  pub stored :
      (fails : ℕ → Bool) (n : ℕ) (s : State)
      → last_saved fails n r.asked ≡ some s
      → Keeps w p r.visited r.asked fails n s

take-drop : (n : ℕ) (xs : List Row) → take n xs ++ drop n xs ≡ xs
take-drop zero xs = refl
take-drop (suc n) [] = refl
take-drop (suc n) (x ∷ xs) = ap (λ t. x ∷ t) (take-drop n xs)

length-drop : (n : ℕ) (xs : List Row) → length (drop n xs) ≤ length xs
length-drop zero xs = omega arith
length-drop (suc n) [] = omega arith
length-drop (suc n) (x ∷ xs) = omega (arith, length-drop n xs)

drop_short : (n : ℕ) (xs : List Row) → length (take n xs) < n → drop n xs ≡ []
drop_short zero xs h = absurd (omega arith)
drop_short (suc n) [] h = refl
drop_short (suc n) (x ∷ xs) h = drop_short n xs (omega (arith, h))

RunResult-cases :
    (r : RunResult) → ((n : ℕ) × (r ≡ processed n)) ⊎ ((r ≡ run_error) ⊎ (r ≡ run_panic))
RunResult-cases (processed n) = inl (n, refl)
RunResult-cases run_error = inr (inl refl)
RunResult-cases run_panic = inr (inr refl)

module _ (w : World) (t : IsTable w) where
  abbrev Settles : BatchProgress → Option Ran → Type 0
  Settles p o = (r : Ran) × (o ≡ some r) × Accounts w p r

  clash : true ≡ false → ⊥
  clash e = cc

  fail-Accounts :
      (why : Failure) (p : BatchProgress) → (Calm w → ⊥) → Accounts w p (ends (fail why p))
  unfolding fail
  fail-Accounts why p wild = record {
    barrier = refl;
    all = refl;
    finished = λ e. absurd (clash (sym e));
    stopped = λ e. (refl, (why, refl));
    calm = λ c. absurd (wild c);
    asks = omega arith;
    stored = λ fails n s.
        ends-Keeps w fails p (fail why p) n s refl (λ h. h) refl (λ e. absurd (clash (sym e)));
  }

  finish-Accounts : (p : BatchProgress) → pending w p ≡ [] → Accounts w p (ends (finish p))
  unfolding finish
  finish-Accounts p e = record {
    barrier = refl;
    all = refl;
    finished = λ d. e;
    stopped = λ d. absurd (clash d);
    calm = λ c. refl;
    asks = omega arith;
    stored = λ fails n s. ends-Keeps w fails p (finish p) n s refl (λ h. h) refl (λ d. e);
  }

  cursor_param_late : (k : ℕ) → epoch < k → cursor_param (record { time = k; valid = true }) ≡ k
  unfolding cursor_param
  cursor_param_late k h = ground arith

  -- The last row of a page is later than the epoch.
  late :
      (p : BatchProgress) (x : Row) (xs : List Row)
      → pending w p ≡ x ∷ xs
      → epoch < (last_row x (take 49 xs)).created_at
  late p x xs e =
      All-last_row (λ y. epoch < y.created_at) 49 x xs
        (subst (All (λ y. epoch < y.created_at)) e (
          select-All (λ y. epoch < y.created_at)
            (λ row.
              leb row.created_at p.barrier_time.time
              && after (cursor_param p.cursor_created_at) p.cursor_info_hash row)
            w.table t.recent))

  IsTimed-advance :
      (p : BatchProgress) (n : ℕ) (x : Row) (xs : List Row)
      → pending w p ≡ x ∷ xs
      → IsTimed (advance n (last_row x (take 49 xs)) p).cursor_created_at
  unfolding advance time_to_pgtype
  IsTimed-advance p n x xs e = ground (arith, late p x xs e)

  -- After a page the page is left out of what is to be done.
  pending-advance :
      (p : BatchProgress) (n : ℕ) (x : Row) (xs : List Row)
      → pending w p ≡ x ∷ xs
      → pending w (advance n (last_row x (take 49 xs)) p) ≡ drop 49 xs
  unfolding advance
  pending-advance p n x xs e =
      ap (λ (k : ℕ). rows_after w.table p.barrier_time.time k (last_row x (take 49 xs)).info_hash)
        (cursor_param_late (last_row x (take 49 xs)).created_at (late p x xs e))
      ∙ rows_after-last_row w.table p.barrier_time.time (cursor_param p.cursor_created_at)
          p.cursor_info_hash 49 x xs t.sorted e

  after_page-Accounts :
      (p p' : BatchProgress) (x : Row) (xs : List Row) (o : Option Ran)
      → p'.barrier_time ≡ p.barrier_time
      → p'.done ≡ p.done
      → pending w p ≡ x ∷ xs
      → pending w p' ≡ drop 49 xs
      → IsTimed p'.cursor_created_at
      → Settles p' o
      → Settles p (after_page (x ∷ take 49 xs) p' o)
  after_page-Accounts p p' x xs o b d e f i s = (
    record {
      progress = s.0.progress;
      visited = (x ∷ take 49 xs) ++ s.0.visited;
      asked = state_of p' ∷ s.0.asked;
    },
    ap (after_page (x ∷ take 49 xs) p') s.1,
    record {
      barrier = s.2.barrier ∙ b;
      all =
          append_assoc (x ∷ take 49 xs) s.0.visited (pending w s.0.progress)
          ∙ (ap (λ l. (x ∷ take 49 xs) ++ l) (s.2.all ∙ f)
              ∙ (ap (λ l. x ∷ l) (take-drop 49 xs) ∙ sym e));
      finished = s.2.finished;
      stopped = s.2.stopped;
      calm = s.2.calm;
      asks = omega arith;
      stored = λ fails n st.
          after_page-Keeps w fails p p' n st (x ∷ take 49 xs) s.0.visited s.0.asked b d i
            (ap (λ l. (x ∷ take 49 xs) ++ l) f ∙ (ap (λ l. x ∷ l) (take-drop 49 xs) ∙ sym e))
            s.2.asks (λ later. s.2.stored fails (suc n) later);
    },
  )

  -- One page, where what follows settles all that it is given.
  run_page-Accounts :
      (round : ℕ) (p : BatchProgress) (continue : BatchProgress → Option Ran) (rows : List Row)
      → pending w p ≡ rows
      → ((p' : BatchProgress)
          → suc (length (pending w p')) ≤ length rows
          → Settles p' (continue p'))
      → Settles p (run_page w round (take batch_page_size rows) p continue)
  unfolding run_page
  run_page-Accounts round p continue [] e k = (ends (finish p), refl, finish-Accounts p e)
  run_page-Accounts round p continue (x ∷ xs) e k =
      elim (RunResult-cases (w.run round (x ∷ take 49 xs))) [
        | inr (inl f) ↦
            rw (run_page, f)
              (
                ends (fail run_failed p),
                refl,
                fail-Accounts run_failed p (λ c. not_processed run_error f c (λ n e. cc)),
              )
        | inr (inr f) ↦
            rw (run_page, f)
              (
                ends (fail panicked p),
                refl,
                fail-Accounts panicked p (λ c. not_processed run_panic f c (λ n e. cc)),
              )
        | inl (n, f) ↦
            let p' = advance n (last_row x (take 49 xs)) p in
            let left = pending-advance p n x xs e in
            rw (run_page, f)
              (after_page-Accounts p p' x xs
                (if ltb (length (x ∷ take 49 xs)) batch_page_size
                  then some (ends (finish p'))
                  else continue p')
                (same_barrier n) refl e left (IsTimed-advance p n x xs e)
                (elim (Bool-cases (ltb (length (x ∷ take 49 xs)) batch_page_size)) [
                  | inl s ↦ rw s (
                    ends (finish p'),
                    refl,
                    finish-Accounts p' (left ∙ drop_short 49 xs (ground (arith, s))),
                  )
                  | inr s ↦ rw s (k p' (omega (arith, ap length left, length-drop 49 xs)))
                ]))
      ]
    where
      not_processed :
          (r : RunResult)
          → w.run round (x ∷ take 49 xs) ≡ r
          → Calm w
          → ((n : ℕ) → r ≡ processed n → ⊥)
          → ⊥
      not_processed r f c differs =
          let q = c.run round (x ∷ take 49 xs) in differs q.0 (sym f ∙ q.1)

      same_barrier : (n : ℕ) → (advance n (last_row x (take 49 xs)) p).barrier_time ≡ p.barrier_time
      same_barrier n = refl

  page_loop-Accounts :
      (fuel round : ℕ) (p : BatchProgress)
      → suc (length (pending w p)) ≤ fuel
      → Settles p (page_loop w fuel round p)
  unfolding page_loop list_torrents_page_after
  page_loop-Accounts zero round p h = absurd (omega arith)
  page_loop-Accounts (suc fuel) round p h = elim (Bool-cases (w.is_canceled round)) [
    | inl c ↦ rw c (
      ends (fail canceled p),
      refl,
      fail-Accounts canceled p (λ k. clash (sym c ∙ k.canceled round)),
    )
    | inr c ↦ elim (Bool-cases (w.list_fails round)) [
      | inl l ↦
          rw (c, l)
            (
              ends (fail list_failed p),
              refl,
              fail-Accounts list_failed p (λ k. clash (sym l ∙ k.list round)),
            )
      | inr l ↦
          rw (c, l)
            (run_page-Accounts round p (page_loop w fuel (round + 1)) (pending w p) refl
              (λ p' k. page_loop-Accounts fuel (round + 1) p' (omega (arith, k, h))))
    ]
  ]

  length-select : (q : Row → Bool) (xs : List Row) → length (select q xs) ≤ length xs
  length-select q [] = omega arith
  length-select q (x ∷ xs) = ground (arith, length-select q xs)

  -- What.
  pub run-Accounts :
      (p : BatchProgress) → (r : Ran) × (run w p ≡ some r) × Accounts w (set_out w p) r
  unfolding run
  run-Accounts p = elim (Bool-cases (not (is_set p.barrier_time) && w.count_fails)) [
    | inl e ↦ rw e (
      ends (fail count_failed (set_out w p)),
      refl,
      fail-Accounts count_failed (set_out w p) (λ k. uncounted e k.count),
    )
    | inr e ↦ rw e (
        page_loop-Accounts (suc (length w.table)) 0 (set_out w p) (
          omega (
            arith,
            length-select
                (λ row.
                  leb row.created_at (set_out w p).barrier_time.time
                  && after (cursor_param (set_out w p).cursor_created_at)
                      (set_out w p).cursor_info_hash row)
                w.table,
          )))
  ]
    where
      uncounted : (not (is_set p.barrier_time) && w.count_fails) ≡ true → w.count_fails ≡ false → ⊥
      uncounted e f = ground arith
