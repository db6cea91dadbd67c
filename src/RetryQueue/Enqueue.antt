-- ===== src/RetryQueue/Enqueue.antt =====
-- internal/retryqueue/queue.go: entries recorded again stay within the budget of retries.
use Prim.Native.String.{String}
use mathlib.Core.List.{append-nil, append_assoc}
use hexmagnet.Prelude.{
  ℕ, ◌+◌, ◌≡◌, refl, sym, ◌∙◌, ap, subst, ◌⊎◌, inl, inr, Bool, true, false, not, ◌&&◌, ◌||◌,
  if◌then◌else◌, Bool-cases, List, [], ◌∷◌, ◌++◌, map, length, All, All-mono, str_eq, eq_iff, arith,
}
use hexmagnet.RetryQueue.{
  Bytes, Config, Entry, RetryItem, UpsertRow, RetryState, Faults, topic_delete_torrent, same_key,
  bumped, upsert_one, upsert_batch, payload_of, has_twice, backoff_entry, delete_retry, over_budget,
  evict, enqueue_rows, EnqueueResult, ok, store_error, marshal_error, upsert_error, all_marshal,
  has_items, has_rows, apply_backoff, enqueue_result, enqueue_upserted, enqueue_batch,
}

-- An entry within the budget.
abbrev pub Within : Config → Entry → Type 0
Within cfg e = over_budget cfg.max_retries e.fail_count ≡ false

abbrev pub Budget : Config → List Entry → Type 0
Budget cfg table = All (Within cfg) table

-- A row over the budget for the torrent.
abbrev listed : Config → List UpsertRow → String → Bool
listed cfg [] h = false
listed cfg (r ∷ rs) h =
    (over_budget cfg.max_retries r.fail_count && str_eq r.info_hash h) || listed cfg rs h

-- The rows of the torrents that are given up.
pub over_rows : Config → List UpsertRow → List UpsertRow
over_rows cfg [] = []
over_rows cfg (r ∷ rs) =
    let rest = over_rows cfg rs in
    if over_budget cfg.max_retries r.fail_count then r ∷ rest else rest

abbrev pub delete_message : UpsertRow → String × String
delete_message r = (topic_delete_torrent, r.info_hash)

module _ (cfg : Config) where
  -- Within the budget, or for a torrent of which `known` holds.
  abbrev Known : (String → Type 0) → Entry → Type 0
  Known known e = Within cfg e ⊎ known e.info_hash

  -- The entry that is upserted.
  abbrev Upserted : (String → Type 0) → RetryItem → ℕ → String → Type 0
  Upserted known i count h =
      known h ⊎ ((over_budget cfg.max_retries count ≡ true) × (str_eq i.info_hash h ≡ true))

  new-Known :
      (known : String → Type 0) (i : RetryItem) (count : ℕ) (e : Entry)
      → e.fail_count ≡ count
      → i.info_hash ≡ e.info_hash
      → Known (Upserted known i count) e
  new-Known known i count e h k = elim (Bool-cases (over_budget cfg.max_retries e.fail_count)) [
    | inr w ↦ inl w
    | inl o ↦ inr (
        inr (
          subst (λ (n : ℕ). over_budget cfg.max_retries n ≡ true) h o,
          (eq_iff i.info_hash e.info_hash).1 k,
        ))
  ]

  abbrev new_entry : ℕ → RetryItem → Bytes → String → Entry
  new_entry now i payload text = record {
    info_hash = i.info_hash;
    stage = i.stage;
    payload = payload;
    fail_count = 1;
    last_error = text;
    next_retry_at = now;
    dispatched = false;
  }

  upsert_one-Known :
      (known : String → Type 0) (now : ℕ) (i : RetryItem) (payload : Bytes) (text : String)
      (table : List Entry)
      → All (Known known) table
      → All
          (Known (Upserted known i (upsert_one now i payload text table).1))
          (upsert_one now i payload text table).0
  unfolding upsert_one
  upsert_one-Known known now i payload text [] h =
      (new-Known known i 1 (new_entry now i payload text) refl refl, tt)
  upsert_one-Known known now i payload text (e ∷ es) h =
      elim (Bool-cases (same_key i.info_hash i.stage e)) [
        | inl s ↦
            rw (upsert_one, s)
              (
                new-Known known i (e.fail_count + 1) (bumped i payload text e) refl
                    (sym (key_hash e s)),
                All-mono (Known known) (Known (Upserted known i (e.fail_count + 1))) es
                    (λ x k. weaken (e.fail_count + 1) x k) h.1,
              )
        | inr s ↦
            rw (upsert_one, s)
              (
                weaken (upsert_one now i payload text es).1 e h.0,
                upsert_one-Known known now i payload text es h.1,
              )
      ]
    where
      weaken : (n : ℕ) (x : Entry) → Known known x → Known (Upserted known i n) x
      weaken n x (inl w) = inl w
      weaken n x (inr k) = inr (inl k)

      key_hash : (e : Entry) → same_key i.info_hash i.stage e ≡ true → e.info_hash ≡ i.info_hash
      key_hash e s = (eq_iff e.info_hash i.info_hash).0 (ground (arith, s))

  upsert_batch-Known :
      (known : String → Type 0) (now : ℕ) (text : String) (items : List RetryItem)
      (table : List Entry)
      → All (Known known) table
      → All
          (Known (λ h. known h ⊎ (listed cfg (upsert_batch now text items table).1 h ≡ true)))
          (upsert_batch now text items table).0
  unfolding upsert_batch
  upsert_batch-Known known now text [] table h =
      All-mono (Known known) (Known (λ h. known h ⊎ (listed cfg [] h ≡ true))) table
        (λ x k. weaken x k) h
    where
      weaken : (x : Entry) → Known known x → Known (λ h. known h ⊎ (listed cfg [] h ≡ true)) x
      weaken x (inl w) = inl w
      weaken x (inr k) = inr (inl k)
  upsert_batch-Known known now text (i ∷ is) table h =
      All-mono (Known (λ g. Upserted known i one.1 g ⊎ (listed cfg rest.1 g ≡ true)))
        (Known (λ g. known g ⊎ (listed cfg (row ∷ rest.1) g ≡ true))) rest.0 (λ x k. shift x k)
        (upsert_batch-Known (Upserted known i one.1) now text is one.0
          (upsert_one-Known known now i (payload_of i.payload) text table h))
    where
      one : List Entry × ℕ
      one = upsert_one now i (payload_of i.payload) text table

      rest : List Entry × List UpsertRow
      rest = upsert_batch now text is one.0

      row : UpsertRow
      row = record { info_hash = i.info_hash; stage = i.stage; fail_count = one.1 }

      shift :
          (x : Entry)
          → Known (λ g. Upserted known i one.1 g ⊎ (listed cfg rest.1 g ≡ true)) x
          → Known (λ g. known g ⊎ (listed cfg (row ∷ rest.1) g ≡ true)) x
      shift x (inl w) = inl w
      shift x (inr (inl (inl k))) = inr (inl k)
      shift x (inr (inl (inr (o, s)))) = inr (inr (rw (o, s) refl))
      shift x (inr (inr l)) = inr (inr (ground (arith, l)))

  -- The rows that are left still name what is over the budget.
  Listed : List UpsertRow → List Entry → Type 0
  Listed rows table = All (Known (λ h. listed cfg rows h ≡ true)) table

  delete_retry-Listed :
      (r : UpsertRow) (rs : List UpsertRow) (table : List Entry)
      → Listed (r ∷ rs) table
      → Listed rs (delete_retry r.info_hash table)
  unfolding Listed
  delete_retry-Listed r rs [] h = tt
  delete_retry-Listed r rs (e ∷ es) h = elim (Bool-cases (str_eq e.info_hash r.info_hash)) [
    | inl s ↦ rw s (delete_retry-Listed r rs es h.1)
    | inr s ↦ rw s (others s h.0, delete_retry-Listed r rs es h.1)
  ]
    where
      others :
          str_eq e.info_hash r.info_hash ≡ false
          → Known (λ h. listed cfg (r ∷ rs) h ≡ true) e
          → Known (λ h. listed cfg rs h ≡ true) e
      others s (inl w) = inl w
      others s (inr l) =
          inr (ground (arith, eq_iff e.info_hash r.info_hash, eq_iff r.info_hash e.info_hash))

  skip-Listed :
      (r : UpsertRow) (rs : List UpsertRow) (table : List Entry)
      → over_budget cfg.max_retries r.fail_count ≡ false
      → Listed (r ∷ rs) table
      → Listed rs table
  unfolding Listed
  skip-Listed r rs table o h =
      subst (λ b. All (Known (λ g. ((b && str_eq r.info_hash g) || listed cfg rs g) ≡ true)) table)
        o h

  module _ (fl : Faults) (deletes : (h : String) → fl.delete_retry_fails h ≡ false) where
    enqueue_rows-Budget :
        (rows : List UpsertRow) (st : RetryState)
        → Listed rows st.table
        → Budget cfg (enqueue_rows cfg fl rows st).0.table
    unfolding enqueue_rows Listed
    enqueue_rows-Budget [] st h =
        All-mono (Known (λ g. listed cfg [] g ≡ true)) (Within cfg) st.table (λ x k. within x k) h
      where
        clash : false ≡ true → ⊥
        clash e = cc

        within : (x : Entry) → Known (λ g. listed cfg [] g ≡ true) x → Within cfg x
        within x (inl w) = w
        within x (inr l) = absurd (clash l)
    enqueue_rows-Budget (r ∷ rs) st h =
        elim (Bool-cases (over_budget cfg.max_retries r.fail_count)) [
          | inl o ↦ rw o (enqueue_rows-Budget rs (evict fl r.info_hash st) (evicted h))
          | inr o ↦ rw o (enqueue_rows-Budget rs st (skip-Listed r rs st.table o h))
        ]
      where
        ap_table :
            Listed rs (delete_retry r.info_hash st.table)
            → Listed rs (evict fl r.info_hash st).table
        ap_table k = rw (evict, deletes r.info_hash) k

        evicted : Listed (r ∷ rs) st.table → Listed rs (evict fl r.info_hash st).table
        evicted h = ap_table (delete_retry-Listed r rs st.table h)

    backoff_entry-Within :
        (now : ℕ) (rows : List UpsertRow) (e : Entry)
        → Within cfg e
        → Within cfg (backoff_entry now cfg rows e)
    unfolding backoff_entry
    backoff_entry-Within now [] e h = h
    backoff_entry-Within now (r ∷ rs) e h = elim (Bool-cases (same_key r.info_hash r.stage e)) [
      | inl s ↦
          rw (backoff_entry, s)
            (backoff_entry-Within now rs
              (record e { next_retry_at = now + cfg.backoff_delay r.fail_count }) h)
      | inr s ↦ rw (backoff_entry, s) (backoff_entry-Within now rs e h)
    ]

    apply_backoff-Budget :
        (now : ℕ) (rows : List UpsertRow) (st : RetryState)
        → Budget cfg st.table
        → Budget cfg (apply_backoff now cfg fl rows st).table
    unfolding apply_backoff
    apply_backoff-Budget now rows st h = elim (Bool-cases (has_rows rows && not fl.backoff_fails)) [
      | inl b ↦ rw b (mapped st.table h)
      | inr b ↦ rw b h
    ]
      where
        mapped :
            (es : List Entry) → Budget cfg es → Budget cfg (map (backoff_entry now cfg rows) es)
        mapped [] h = tt
        mapped (e ∷ es) h = (backoff_entry-Within now rows e h.0, mapped es h.1)

  enqueue_rows-produced :
      (fl : Faults) (rows : List UpsertRow) (st : RetryState)
      → (enqueue_rows cfg fl rows st).0.produced
        ≡ st.produced ++ map delete_message (over_rows cfg rows)
  unfolding enqueue_rows over_rows evict
  enqueue_rows-produced fl [] st = sym (append-nil st.produced)
  enqueue_rows-produced fl (r ∷ rs) st =
      elim (Bool-cases (over_budget cfg.max_retries r.fail_count)) [
        | inl o ↦ rw o (
            enqueue_rows-produced fl rs (evict fl r.info_hash st)
            ∙ append_assoc st.produced (delete_message r ∷ [])
                (map delete_message (over_rows cfg rs)))
        | inr o ↦ rw o (enqueue_rows-produced fl rs st)
      ]

  enqueue_rows-length :
      (fl : Faults) (rows : List UpsertRow) (st : RetryState)
      → length (enqueue_rows cfg fl rows st).1 + length (over_rows cfg rows) ≡ length rows
  unfolding enqueue_rows over_rows
  enqueue_rows-length fl [] st = omega arith
  enqueue_rows-length fl (r ∷ rs) st =
      elim (Bool-cases (over_budget cfg.max_retries r.fail_count)) [
        | inl o ↦ rw o (omega (arith, enqueue_rows-length fl rs (evict fl r.info_hash st)))
        | inr o ↦ rw o (omega (arith, enqueue_rows-length fl rs st))
      ]

  apply_backoff-produced :
      (fl : Faults) (now : ℕ) (rows : List UpsertRow) (st : RetryState)
      → (apply_backoff now cfg fl rows st).produced ≡ st.produced
  unfolding apply_backoff
  apply_backoff-produced fl now rows st =
      elim (Bool-cases (has_rows rows && not fl.backoff_fails)) [
        | inl b ↦ rw b refl
        | inr b ↦ rw b refl
      ]

-- Where entries are recorded, the torrents over the budget are given up, the result says how many they
-- are, and the entries left are within the budget, unless deleting an entry fails.
pub record Recorded (now : ℕ) (cfg : Config) (fl : Faults) (items : List RetryItem) (text : String)
    (st : RetryState) (after : RetryState × EnqueueResult) : Type 0 where
  pub messages :
      after.0.produced
      ≡ st.produced ++ map delete_message (over_rows cfg (upsert_batch now text items st.table).1)
  pub result :
      after.1 ≡ enqueue_result (length (over_rows cfg (upsert_batch now text items st.table).1))
  pub budget :
      ((h : String) → fl.delete_retry_fails h ≡ false)
      → Budget cfg st.table
      → Budget cfg after.0.table

enqueue_upserted-Recorded :
    (now : ℕ) (cfg : Config) (fl : Faults) (items : List RetryItem) (text : String)
    (st : RetryState)
    → Recorded now cfg fl items text st (
        enqueue_upserted now cfg fl
          (upsert_batch now text items st.table).1
          (record st { table = (upsert_batch now text items st.table).0 }))
unfolding enqueue_upserted Listed
enqueue_upserted-Recorded now cfg fl items text st = record {
  messages =
      apply_backoff-produced cfg fl now (enqueue_rows cfg fl rows upserted).1
        (enqueue_rows cfg fl rows upserted).0
      ∙ enqueue_rows-produced cfg fl rows upserted;
  result = ap enqueue_result (omega (arith, enqueue_rows-length cfg fl rows upserted));
  budget = λ deletes h.
      apply_backoff-Budget cfg fl deletes now (enqueue_rows cfg fl rows upserted).1
        (enqueue_rows cfg fl rows upserted).0
        (enqueue_rows-Budget cfg fl deletes rows upserted (known h));
}
  where
    rows : List UpsertRow
    rows = (upsert_batch now text items st.table).1

    upserted : RetryState
    upserted = record st { table = (upsert_batch now text items st.table).0 }

    none_known : (x : Entry) → Within cfg x → Known cfg (λ h. ⊥) x
    none_known x w = inl w

    only_listed :
        (x : Entry)
        → Known cfg (λ h. ⊥ ⊎ (listed cfg rows h ≡ true)) x
        → Known cfg (λ h. listed cfg rows h ≡ true) x
    only_listed x (inl w) = inl w
    only_listed x (inr (inl k)) = absurd k
    only_listed x (inr (inr l)) = inr l

    known : Budget cfg st.table → Listed cfg rows upserted.table
    known h =
        All-mono (Known cfg (λ h. ⊥ ⊎ (listed cfg rows h ≡ true)))
          (Known cfg (λ h. listed cfg rows h ≡ true)) upserted.table only_listed
          (upsert_batch-Known cfg (λ h. ⊥) now text items st.table
            (All-mono (Within cfg) (Known cfg (λ h. ⊥)) st.table none_known h))

-- What an enqueue does: nothing, with the error that stands first, or it records.
pub record Enqueued (now : ℕ) (cfg : Config) (fl : Faults) (items : List RetryItem) (text : String)
    (st : RetryState) (after : RetryState × EnqueueResult) : Type 0 where
  pub no_items : has_items items ≡ false → after ≡ (st, ok)
  pub no_store : has_items items ≡ true → fl.store_fails ≡ true → after ≡ (st, store_error)
  pub no_payload :
      has_items items ≡ true
      → fl.store_fails ≡ false
      → all_marshal items ≡ false
      → after ≡ (st, marshal_error)
  pub no_upsert :
      has_items items ≡ true
      → fl.store_fails ≡ false
      → all_marshal items ≡ true
      → (fl.upsert_fails || has_twice items) ≡ true
      → after ≡ (st, upsert_error)
  pub recorded :
      has_items items ≡ true
      → fl.store_fails ≡ false
      → all_marshal items ≡ true
      → (fl.upsert_fails || has_twice items) ≡ false
      → Recorded now cfg fl items text st after

-- The tests before the upsert.
pick :
    Bool → Bool → Bool → Bool → RetryState → RetryState × EnqueueResult → RetryState × EnqueueResult
pick items store payloads upsert st rest =
    if not items
    then (st, ok)
    else if store
    then (st, store_error)
    else if not payloads
    then (st, marshal_error)
    else if upsert
    then (st, upsert_error)
    else rest

picked :
    (items store payloads upsert : Bool) (st : RetryState) (rest : RetryState × EnqueueResult)
    → items ≡ true
    → store ≡ false
    → payloads ≡ true
    → upsert ≡ false
    → rest ≡ pick items store payloads upsert st rest
unfolding pick
picked items store payloads upsert st rest a b c d = rw (a, b, c, d) refl

-- Recording nothing changes nothing; a store that cannot be reached, a payload that cannot be
-- marshalled and a failing upsert are reported in this order and change nothing; otherwise a
-- deletion is announced for exactly the upserted rows over the budget, in order, the result is the
-- number of them or success if there are none, and if no deletion of an entry fails the budget is
-- kept.
pub enqueue_batch-Enqueued :
    (now : ℕ) (cfg : Config) (fl : Faults) (items : List RetryItem) (text : String)
    (st : RetryState)
    → Enqueued now cfg fl items text st (enqueue_batch now cfg fl items text st)
unfolding enqueue_batch pick
enqueue_batch-Enqueued now cfg fl items text st = record {
  no_items = λ a. rw a refl;
  no_store = λ a b. rw (a, b) refl;
  no_payload = λ a b c. rw (a, b, c) refl;
  no_upsert = λ a b c d. rw (a, b, c, d) refl;
  recorded = λ a b c d.
      subst (Recorded now cfg fl items text st)
        (picked (has_items items) fl.store_fails (all_marshal items)
          (fl.upsert_fails || has_twice items) st
          (enqueue_upserted now cfg fl (upsert_batch now text items st.table).1
            (record st { table = (upsert_batch now text items st.table).0 }))
          a b c d)
        (enqueue_upserted-Recorded now cfg fl items text st);
}
