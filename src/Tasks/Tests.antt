-- ===== src/Tasks/Tests.antt =====
-- The theorems of task handles at one child.
use thread_keeper.Common.{Text, codes, ◌≡◌, refl, true, Option, none, some, [], ◌∷◌}
use thread_keeper.Common.Int.{ℤ, pos}
use thread_keeper.Tasks.Handle.{
  working, failed, Handle, Internal, Store, sync_with, read_task, request_cancel, cancel_handle,
  update_terminal,
}
use thread_keeper.Tasks.Terminal.{created, then_cancel, Settled, first_read-final, Foreign-unknown}

abbrev handle : Handle
handle = record {
  task_id = codes "h1";
  internal_task_id = codes "tk_1";
  owner_key = codes "local-user:501";
  status = working;
  status_message = none;
  created_at = 10;
  last_updated_at = 10;
  result_json = none;
  cancel_requested_at = none;
  cancel_accepted_at = none;
}

abbrev ended : Internal
ended = record { id = codes "tk_1"; ended_at = some 20; return_code = some (pos 0) }

abbrev result_of : Text → Option ℤ → Text
result_of id code = codes "{}"

abbrev read_once : Handle
read_once = sync_with result_of 30 (some ended) handle

first_read-final_example : Settled read_once × (cancel_handle 40 true read_once ≡ read_once)
first_read-final_example =
    first_read-final result_of 30 ended handle (cancel_handle 40 true read_once) refl refl
      (then_cancel 40 true created)

abbrev store : Store
store = record { handles = handle ∷ []; tasks = ended ∷ [] }

Foreign-unknown_example :
    (read_task result_of 30 (codes "h1") (codes "local-user:502") store ≡ none)
    × (request_cancel 30 true (codes "h1") (codes "local-user:502") store ≡ none)
Foreign-unknown_example =
    Foreign-unknown result_of 30 true (codes "h1") (codes "local-user:502") store (refl, tt)

-- Once the child's row is gone, a read takes a completed handle to failed.
completed_then_failed : (sync_with result_of 50 none read_once).status ≡ failed
unfolding update_terminal
completed_then_failed = refl
