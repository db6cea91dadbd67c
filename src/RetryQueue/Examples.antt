-- ===== src/RetryQueue/Examples.antt =====
-- The theorems of the retry queue at concrete inputs.
use hexmagnet.Prelude.{refl, false, List, [], ◌∷◌, some, pos}
use hexmagnet.RetryQueue.{Config, Entry, RetryItem, RetryState, Faults, enqueue_batch, dispatch_due}
use hexmagnet.RetryQueue.Enqueue.{Budget, Enqueued, enqueue_batch-Enqueued}
use hexmagnet.RetryQueue.Dispatch.{Dispatched, dispatch_due-Dispatched}
use hexmagnet.RetryQueue.History.{History, begins, enqueues, dispatches, History-Budget}

abbrev one_retry : Config
one_retry = record {
  max_retries = pos 1;
  backoff_delay = λ n. 300;
  batch_size = pos 100;
  dispatch_lease = pos 900;
}

abbrev no_faults : Faults
no_faults = record {
  store_fails = false;
  upsert_fails = false;
  backoff_fails = false;
  list_fails = false;
  delete_torrent_fails = λ h. false;
  delete_retry_fails = λ h. false;
  mark_fails = λ h s. false;
}

abbrev empty : RetryState
empty = record { table = []; deleted = []; produced = [] }

abbrev item : RetryItem
item = record { stage = "classify"; info_hash = "aa"; payload = some (49 ∷ []) }

abbrev as_listed : List Entry → List Entry
as_listed es = es

enqueue_batch-Enqueued_example :
    Enqueued 5 one_retry no_faults
      (item ∷ [])
      "timeout"
      empty
      (enqueue_batch 5 one_retry no_faults (item ∷ []) "timeout" empty)
enqueue_batch-Enqueued_example =
    enqueue_batch-Enqueued 5 one_retry no_faults (item ∷ []) "timeout" empty

abbrev enqueued : RetryState
enqueued = (enqueue_batch 5 one_retry no_faults (item ∷ []) "timeout" empty).0

dispatch_due-Dispatched_example :
    Dispatched as_listed one_retry no_faults 1000 enqueued
      (dispatch_due as_listed one_retry no_faults 1000 enqueued)
dispatch_due-Dispatched_example =
    dispatch_due-Dispatched as_listed one_retry no_faults 1000 enqueued

enqueued-History : History as_listed one_retry enqueued
enqueued-History = enqueues empty 5 no_faults (item ∷ []) "timeout" (λ h. refl) (begins empty refl)

History-Budget_example :
    Budget one_retry (dispatch_due as_listed one_retry no_faults 1000 enqueued).table
History-Budget_example =
    History-Budget as_listed one_retry (dispatch_due as_listed one_retry no_faults 1000 enqueued)
      (dispatches enqueued 1000 no_faults enqueued-History)
