-- ===== src/Tasks/Handle.antt =====
use thread_keeper.Common.{
  if◌then◌else◌, ◌==◌, nat_eq, pair_eq, is_none, default, Text, codes, text_eq, ℕ, Bool, true,
  false, not, ◌&&◌, ◌||◌, Option, none, some, List, [], ◌∷◌, ◌++◌,
}
-- mcp_tasks.py: handles of tasks and their transitions.
use thread_keeper.Common.Int.{ℤ, pos, beq_ℤ}
use thread_keeper.Sync.Decimal.{fmt_int}

pub data Status : Type 0 where
  working : Status
  completed : Status
  cancelled : Status
  failed : Status

abbrev pub status_beq : Status → Status → Bool
status_beq working working = true
status_beq completed completed = true
status_beq cancelled cancelled = true
status_beq failed failed = true
status_beq _ _ = false

abbrev pub is_terminal : Status → Bool
is_terminal working = false
is_terminal _ = true

-- A row of `mcp_task_handles`.
pub record Handle : Type 0 where
  pub task_id : Text
  pub internal_task_id : Text
  pub owner_key : Text
  pub status : Status
  pub status_message : Option Text
  pub created_at : ℕ
  pub last_updated_at : ℕ
  pub result_json : Option Text
  pub cancel_requested_at : Option ℕ
  pub cancel_accepted_at : Option ℕ

-- The columns of `tasks` that a handle reads.
pub record Internal : Type 0 where
  pub id : Text
  pub ended_at : Option ℕ
  pub return_code : Option ℤ

-- The two tables. `result_of` is the text of `_task_result`, which reads a log file.
pub record Store : Type 0 where
  pub handles : List Handle
  pub tasks : List Internal

-- The fields of an answer on the wire, with the code of its error.
pub record Wire : Type 0 where
  pub task_id : Text
  pub status : Status
  pub created_at : ℕ
  pub last_updated_at : ℕ
  pub status_message : Option Text
  pub result : Option Text
  pub error : Option Text

unfoldable pub find_task : Text → List Internal → Option Internal
find_task id [] = none
find_task id (t ∷ ts) = if t.id == id then some t else find_task id ts

-- `SELECT * FROM mcp_task_handles WHERE task_id=? AND owner_key=?`
unfoldable pub owned : Text → Text → List Handle → Option Handle
owned task_id owner [] = none
owned task_id owner (h ∷ hs) =
    if h.task_id == task_id && h.owner_key == owner then some h else owned task_id owner hs

-- `UPDATE mcp_task_handles SET … WHERE task_id=?`
abbrev pub set_handle : Text → (Handle → Handle) → List Handle → List Handle
set_handle task_id f [] = []
set_handle task_id f (h ∷ hs) =
    if h.task_id == task_id then f h ∷ set_handle task_id f hs else h ∷ set_handle task_id f hs

-- The insert of `_create_task`, for a token that no handle has.
unfoldable pub create_task : Text → Text → Text → ℕ → Store → Option Store
create_task token internal owner now s =
    if is_none (find_task internal s.tasks)
    then none
    else some (record s {
      handles =
          record {
            task_id = token;
            internal_task_id = internal;
            owner_key = owner;
            status = working;
            status_message = none;
            created_at = now;
            last_updated_at = now;
            result_json = none;
            cancel_requested_at = none;
            cancel_accepted_at = none;
          }
          ∷ s.handles;
    })

abbrev option_text_beq : Option Text → Option Text → Bool
option_text_beq none none = true
option_text_beq (some a) (some b) = a == b
option_text_beq _ _ = false

abbrev coalesce : Option Text → Option Text → Option Text
coalesce none b = b
coalesce (some a) b = some a

-- `_update_terminal`: the row as it is after the update.
unfoldable pub update_terminal : ℕ → Status → Text → Option Text → Handle → Handle
update_terminal now status message result h =
    if not (status_beq h.status status) || not (option_text_beq h.result_json result)
    then record h {
      status = status;
      status_message = some message;
      last_updated_at = now;
      result_json = coalesce result h.result_json;
    }
    else h

abbrev exit_message : Option ℤ → Text
exit_message none = codes "Agent work completed."
exit_message (some code) =
    if beq_ℤ code (pos 0)
    then codes "Agent work completed."
    else codes "Agent work exited with code " ++ fmt_int 1 code ++ codes "."

-- `_sync_status`: the row as it is stored after a read, for the row of the internal task.
abbrev pub sync_with : (Text → Option ℤ → Text) → ℕ → Option Internal → Handle → Handle
sync_with result_of now none h =
    update_terminal now failed (codes "Underlying task is no longer retained.") none h
sync_with result_of now (some t) h =
    if status_beq h.status cancelled
    then h
    else if is_none t.ended_at
    then h
    else if not (is_none h.cancel_accepted_at)
    then update_terminal now cancelled (codes "Agent work was cancelled.") none h
    else update_terminal now completed (exit_message t.return_code)
        (some (default (result_of h.internal_task_id t.return_code) h.result_json)) h

-- The message of an answer that reports the work as running.
abbrev running_message : Handle → Option Text
running_message h =
    if is_none h.cancel_requested_at
    then some (codes "Agent work is running.")
    else some (codes "Cancellation requested.")

-- `_wire_values`, for the row after `_sync_status`.
abbrev pub wire_of : Status → Option Text → Handle → Wire
wire_of status message h = record {
  task_id = h.task_id;
  status = status;
  created_at = h.created_at;
  last_updated_at = h.last_updated_at;
  status_message = message;
  result = if status_beq status completed then some (default (codes "{}") h.result_json) else none;
  error = if status_beq status failed then some (default (codes "Task failed.") message) else none;
}

abbrev pub answer_of : Option Internal → Handle → Handle → Wire
answer_of none before after = wire_of failed after.status_message after
answer_of (some t) before after =
    if status_beq before.status cancelled
    then wire_of cancelled after.status_message after
    else if is_none t.ended_at
    then wire_of working (running_message before) after
    else wire_of after.status after.status_message after

-- `_read_task`, for tables that `_refresh_tasks` has just refreshed; `none` is the error that the
-- task is unknown.
abbrev read_row : (Text → Option ℤ → Text) → ℕ → Store → Option Handle → Option (Wire × Store)
read_row result_of now s none = none
read_row result_of now s (some h) =
    let internal = find_task h.internal_task_id s.tasks in
    let after = sync_with result_of now internal h in
    some (
      answer_of internal h after,
      record s { handles = set_handle h.task_id (sync_with result_of now internal) s.handles },
    )

unfoldable pub read_task :
    (Text → Option ℤ → Text) → ℕ → Text → Text → Store → Option (Wire × Store)
read_task result_of now task_id owner s = read_row result_of now s (owned task_id owner s.handles)

-- `_request_cancel`, for a `task_kill` whose outcome accepts or refuses.
abbrev pub cancel_handle : ℕ → Bool → Handle → Handle
cancel_handle now accepted h =
    if not (is_none h.cancel_requested_at) || is_terminal h.status then h else record h {
      cancel_requested_at = some now;
      cancel_accepted_at = if accepted then some now else none;
      status_message = some (codes "Cancellation requested.");
      last_updated_at = now;
    }

abbrev cancel_row : ℕ → Bool → Store → Option Handle → Option Store
cancel_row now accepted s none = none
cancel_row now accepted s (some h) =
    some (record s { handles = set_handle h.task_id (cancel_handle now accepted) s.handles })

unfoldable pub request_cancel : ℕ → Bool → Text → Text → Store → Option Store
request_cancel now accepted task_id owner s =
    cancel_row now accepted s (owned task_id owner s.handles)
