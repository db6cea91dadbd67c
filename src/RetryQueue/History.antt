-- ===== src/RetryQueue/History.antt =====
-- internal/retryqueue/queue.go: the queue over a history of operations.
use Prim.Native.String.{String}
use hexmagnet.Prelude.{ℕ, ◌≡◌, sym, subst, inl, inr, false, ◌||◌, Bool-cases, List, [], ◌∷◌, map}
use hexmagnet.RetryQueue.{
  Config, Entry, RetryItem, RetryState, Faults, delete_retry, has_items, all_marshal, has_twice,
  EnqueueResult, enqueue_batch, dispatch_due, remove, touch_entry, retry_now, clear, str_eq,
}
use hexmagnet.RetryQueue.Enqueue.{Budget, Enqueued, enqueue_batch-Enqueued}
use hexmagnet.RetryQueue.Dispatch.{delete_retry-Budget, dispatch_due-Dispatched}

-- One operation after another, where deleting an entry of the retry queue does not fail.
pub data History (by_time : List Entry → List Entry) (cfg : Config) : RetryState → Type 0 where
  begins : (st : RetryState) → st.table ≡ [] → History by_time cfg st
  enqueues :
      (st : RetryState) (now : ℕ) (fl : Faults) (items : List RetryItem) (text : String)
      → ((h : String) → fl.delete_retry_fails h ≡ false)
      → History by_time cfg st
      → History by_time cfg (enqueue_batch now cfg fl items text st).0
  dispatches :
      (st : RetryState) (now : ℕ) (fl : Faults)
      → History by_time cfg st
      → History by_time cfg (dispatch_due by_time cfg fl now st)
  removes :
      (st : RetryState) (fl : Faults) (hashes : List String)
      → History by_time cfg st
      → History by_time cfg (remove fl hashes st)
  retries :
      (st : RetryState) (now : ℕ) (info_hash : String)
      → History by_time cfg st
      → History by_time cfg (retry_now now info_hash st)
  clears : (st : RetryState) → History by_time cfg st → History by_time cfg (clear st)

module _ (cfg : Config) where
  enqueue_batch-Budget :
      (now : ℕ) (fl : Faults) (items : List RetryItem) (text : String) (st : RetryState)
      → ((h : String) → fl.delete_retry_fails h ≡ false)
      → Budget cfg st.table
      → Budget cfg (enqueue_batch now cfg fl items text st).0.table
  enqueue_batch-Budget now fl items text st d b = elim (Bool-cases (has_items items)) [
    | inr i ↦ unchanged (e.no_items i)
    | inl i ↦ elim (Bool-cases fl.store_fails) [
      | inl s ↦ unchanged (e.no_store i s)
      | inr s ↦ elim (Bool-cases (all_marshal items)) [
        | inr m ↦ unchanged (e.no_payload i s m)
        | inl m ↦ elim (Bool-cases (fl.upsert_fails || has_twice items)) [
          | inl u ↦ unchanged (e.no_upsert i s m u)
          | inr u ↦ (e.recorded i s m u).budget d b
        ]
      ]
    ]
  ]
    where
      e : Enqueued now cfg fl items text st (enqueue_batch now cfg fl items text st)
      e = enqueue_batch-Enqueued now cfg fl items text st

      unchanged :
          {r : EnqueueResult}
          → enqueue_batch now cfg fl items text st ≡ (st, r)
          → Budget cfg (enqueue_batch now cfg fl items text st).0.table
      unchanged q = subst (λ (x : RetryState × EnqueueResult). Budget cfg x.0.table) (sym q) b

  remove-Budget :
      (fl : Faults) (hashes : List String) (st : RetryState)
      → Budget cfg st.table
      → Budget cfg (remove fl hashes st).table
  unfolding remove
  remove-Budget fl [] st b = b
  remove-Budget fl (h ∷ hs) st b = elim (Bool-cases (fl.store_fails || fl.delete_retry_fails h)) [
    | inl f ↦ rw (remove, f) (remove-Budget fl hs st b)
    | inr f ↦
        rw (remove, f)
          (remove-Budget fl hs (record st { table = delete_retry h st.table })
            (delete_retry-Budget cfg h st.table b))
  ]

  touched-Budget :
      (now : ℕ) (h : String) (table : List Entry)
      → Budget cfg table
      → Budget cfg (map (touch_entry now h) table)
  touched-Budget now h [] b = tt
  touched-Budget now h (e ∷ es) b = (
    elim (Bool-cases (str_eq e.info_hash h)) [ inl s ↦ rw s b.0 | inr s ↦ rw s b.0 ],
    touched-Budget now h es b.1,
  )

-- After any history of recording, dispatching, removing, touching and clearing that begins with an
-- empty table under one configuration, where no deletion of an entry fails while recording, every
-- entry's count of failures is within the budget of retries.
pub History-Budget :
    (by_time : List Entry → List Entry) (cfg : Config) (st : RetryState)
    → History by_time cfg st
    → Budget cfg st.table
unfolding retry_now clear
History-Budget by_time cfg st (begins _ e) = subst (Budget cfg) (sym e) tt
History-Budget by_time cfg _ (enqueues st now fl items text d h) =
    enqueue_batch-Budget cfg now fl items text st d (History-Budget by_time cfg st h)
History-Budget by_time cfg _ (dispatches st now fl h) =
    (dispatch_due-Dispatched by_time cfg fl now st).budget (History-Budget by_time cfg st h)
History-Budget by_time cfg _ (removes st fl hashes h) =
    remove-Budget cfg fl hashes st (History-Budget by_time cfg st h)
History-Budget by_time cfg _ (retries st now info_hash h) =
    touched-Budget cfg now info_hash st.table (History-Budget by_time cfg st h)
History-Budget by_time cfg _ (clears st h) = tt
