-- ===== src/RetryQueue/Dispatch.antt =====
-- internal/retryqueue/queue.go: due entries are dispatched or given up.
use Prim.Native.String.{String}
use mathlib.Core.List.{append-nil, append_assoc}
use hexmagnet.Prelude.{
  ℕ, ◌+◌, ◌≡◌, refl, sym, ◌∙◌, ap, inl, inr, Bool, true, false, ◌||◌, if◌then◌else◌, Bool-cases,
  List, [], ◌∷◌, ◌++◌, map,
}
use hexmagnet.RetryQueue.{
  Config, Entry, RetryState, Faults, topic_delete_torrent, same_key, delete_retry, over_budget,
  evict, topic_of, count_due, mark_entry, dispatch_row, dispatch_rows, or_default, list_due,
  dispatch_due, str_eq,
}
use hexmagnet.RetryQueue.Enqueue.{Within, Budget}

-- The message for a due entry.
pub message : Config → Entry → String × String
message cfg row =
    if over_budget cfg.max_retries (count_due row)
    then (topic_delete_torrent, row.info_hash)
    else (topic_of row.stage, row.info_hash)

module _ (cfg : Config) where
  pub delete_retry-Budget :
      (h : String) (table : List Entry) → Budget cfg table → Budget cfg (delete_retry h table)
  delete_retry-Budget h [] b = tt
  delete_retry-Budget h (e ∷ es) b = elim (Bool-cases (str_eq e.info_hash h)) [
    | inl s ↦ rw s (delete_retry-Budget h es b.1)
    | inr s ↦ rw s (b.0, delete_retry-Budget h es b.1)
  ]

  mark_entry-Within :
      (row : Entry) (next : ℕ) (e : Entry)
      → over_budget cfg.max_retries (count_due row) ≡ false
      → Within cfg e
      → Within cfg (mark_entry row (count_due row) next e)
  mark_entry-Within row next e o h = elim (Bool-cases (same_key row.info_hash row.stage e)) [
    | inl s ↦ rw s o
    | inr s ↦ rw s h
  ]

  marked-Budget :
      (row : Entry) (next : ℕ) (table : List Entry)
      → over_budget cfg.max_retries (count_due row) ≡ false
      → Budget cfg table
      → Budget cfg (map (mark_entry row (count_due row) next) table)
  marked-Budget row next [] o b = tt
  marked-Budget row next (e ∷ es) o b =
      (mark_entry-Within row next e o b.0, marked-Budget row next es o b.1)

  evict-Budget :
      (fl : Faults) (h : String) (st : RetryState)
      → Budget cfg st.table
      → Budget cfg (evict fl h st).table
  unfolding evict
  evict-Budget fl h st b = elim (Bool-cases (fl.delete_retry_fails h)) [
    | inl f ↦ rw f b
    | inr f ↦ rw f (delete_retry-Budget h st.table b)
  ]

  dispatch_row-Budget :
      (fl : Faults) (next : ℕ) (row : Entry) (st : RetryState)
      → Budget cfg st.table
      → Budget cfg (dispatch_row cfg fl next row st).table
  unfolding dispatch_row
  dispatch_row-Budget fl next row st b =
      elim (Bool-cases (over_budget cfg.max_retries (count_due row))) [
        | inl o ↦ rw o (evict-Budget fl row.info_hash st b)
        | inr o ↦ elim (Bool-cases (fl.mark_fails row.info_hash row.stage)) [
          | inl f ↦ rw (o, f) b
          | inr f ↦ rw (o, f) (marked-Budget row next st.table o b)
        ]
      ]

  dispatch_row-produced :
      (fl : Faults) (next : ℕ) (row : Entry) (st : RetryState)
      → (dispatch_row cfg fl next row st).produced ≡ st.produced ++ message cfg row ∷ []
  unfolding dispatch_row message evict
  dispatch_row-produced fl next row st =
      elim (Bool-cases (over_budget cfg.max_retries (count_due row))) [
        | inl o ↦ rw o refl
        | inr o ↦ rw o refl
      ]

  dispatch_rows-Budget :
      (fl : Faults) (next : ℕ) (rows : List Entry) (st : RetryState)
      → Budget cfg st.table
      → Budget cfg (dispatch_rows cfg fl next rows st).table
  unfolding dispatch_rows
  dispatch_rows-Budget fl next [] st b = b
  dispatch_rows-Budget fl next (row ∷ rows) st b =
      dispatch_rows-Budget fl next rows (dispatch_row cfg fl next row st)
        (dispatch_row-Budget fl next row st b)

  dispatch_rows-produced :
      (fl : Faults) (next : ℕ) (rows : List Entry) (st : RetryState)
      → (dispatch_rows cfg fl next rows st).produced ≡ st.produced ++ map (message cfg) rows
  unfolding dispatch_rows
  dispatch_rows-produced fl next [] st = sym (append-nil st.produced)
  dispatch_rows-produced fl next (row ∷ rows) st =
      dispatch_rows-produced fl next rows (dispatch_row cfg fl next row st)
      ∙ (ap (λ l. l ++ map (message cfg) rows) (dispatch_row-produced fl next row st)
          ∙ append_assoc st.produced (message cfg row ∷ []) (map (message cfg) rows))

-- What a scan does.
pub record Dispatched (by_time : List Entry → List Entry) (cfg : Config) (fl : Faults) (now : ℕ)
    (st after : RetryState) : Type 0 where
  pub unreachable : (fl.store_fails || fl.list_fails) ≡ true → after ≡ st
  pub messages :
      (fl.store_fails || fl.list_fails) ≡ false
      → after.produced ≡ st.produced ++ map (message cfg) (list_due by_time cfg now st.table)
  pub budget : Budget cfg st.table → Budget cfg after.table

-- A scan whose store or listing fails changes nothing; any other produces for each listed entry,
-- in order, one message: its deletion, if its count, with one more for a dispatch that never
-- reported, is over the budget, and else the message for its stage; and a scan keeps the budget
-- whatever fails.
pub dispatch_due-Dispatched :
    (by_time : List Entry → List Entry) (cfg : Config) (fl : Faults) (now : ℕ) (st : RetryState)
    → Dispatched by_time cfg fl now st (dispatch_due by_time cfg fl now st)
unfolding dispatch_due
dispatch_due-Dispatched by_time cfg fl now st = by_test (fl.store_fails || fl.list_fails) refl
  where
    next : ℕ
    next = now + or_default cfg.dispatch_lease 900

    rows : List Entry
    rows = list_due by_time cfg now st.table

    clash : true ≡ false → ⊥
    clash e = cc

    by_test :
        (b : Bool)
        → (fl.store_fails || fl.list_fails) ≡ b
        → Dispatched by_time cfg fl now st (if b then st else dispatch_rows cfg fl next rows st)
    by_test true e = record {
      unreachable = λ t. refl;
      messages = λ t. absurd (clash (sym e ∙ t));
      budget = λ b. b;
    }
    by_test false e = record {
      unreachable = λ t. absurd (clash (sym t ∙ e));
      messages = λ t. dispatch_rows-produced cfg fl next rows st;
      budget = λ b. dispatch_rows-Budget cfg fl next rows st b;
    }
