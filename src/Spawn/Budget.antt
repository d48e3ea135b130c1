-- ===== src/Spawn/Budget.antt =====
use thread_keeper.Common.{
  ltb, leb, if◌then◌else◌, ◌==◌, nat_eq, pair_eq, filter, is_none, default, Text, text_eq, ℕ, ◌+◌,
  ◌-◌, ◌*◌, Bool, true, false, not, ◌&&◌, Option, none, some, List, [], ◌∷◌, map,
}

-- spawn_budget.py: the memory and spend budgets that admit a child. A cost in dollars is counted in
-- 1/10000 of a dollar, so that costs are whole numbers.
-- A row of `tasks`, with the columns that the budgets and the watchdog use.
pub record Task : Type 0 where
  pub id : Text
  pub pid : ℕ
  pub spawned_cid : Text
  pub role : Text
  pub write_origin : Text
  pub slim : Bool
  pub started_at : Option ℕ
  pub ended_at : Option ℕ
  pub return_code : Option ℕ
  pub rss_kb : Option ℕ
  pub rss_updated_at : Option ℕ
  pub tokens_in : Option ℕ
  pub tokens_out : Option ℕ
  pub tokens_total : Option ℕ
  pub cost_usd : Option ℕ
  pub retry_of : Text
  pub retry_root : Text
  pub retry_attempt : ℕ
  pub timeout_respawned_as : Option Text

-- The knobs of config.py.
pub record Settings : Type 0 where
  pub budget_mb : ℕ
  pub estimate_slim_mb : ℕ
  pub estimate_full_mb : ℕ
  pub token_budget : ℕ
  pub cost_budget : ℕ
  pub visible_ttl : ℕ
  pub max_runtime : ℕ
  pub retry_limit : ℕ

unfoldable pub estimate_child_rss_kb : Settings → Bool → ℕ
estimate_child_rss_kb s slim = (if slim then s.estimate_slim_mb else s.estimate_full_mb) * 1024

abbrev pub is_running : Task → Bool
is_running t = is_none t.ended_at

-- `_running_tasks_rss`
unfoldable pub running_tasks_rss : Settings → List Task → ℕ
running_tasks_rss s [] = 0
running_tasks_rss s (t ∷ tasks) =
    let rest = running_tasks_rss s tasks in
    if is_running t then default (s.estimate_full_mb * 1024) t.rss_kb + rest else rest

-- `COALESCE(ended_at, started_at) >= cut`, which a NULL never satisfies.
abbrev since : ℕ → Option ℕ → Option ℕ → Bool
since cut (some t) _ = leb cut t
since cut none (some t) = leb cut t
since cut none none = false

-- `_daily_spawn_usage`: tokens and cost of the last 24 hours, where `cut` is 24 hours ago.
unfoldable pub daily_spawn_usage : ℕ → List Task → ℕ × ℕ
daily_spawn_usage cut [] = (0, 0)
daily_spawn_usage cut (t ∷ tasks) =
    let (tokens, cost) = daily_spawn_usage cut tasks in
    if since cut t.ended_at t.started_at
    then (
      default (default 0 t.tokens_in + default 0 t.tokens_out) t.tokens_total + tokens,
      default 0 t.cost_usd + cost,
    )
    else (tokens, cost)

pub data Verdict : Type 0 where
  spend_ok : Verdict
  token_budget_exceeded : Verdict
  cost_budget_exceeded : Verdict
  budget_disabled : Verdict
  budget_exceeded : Verdict
  fits : Verdict

abbrev pub is_ok : Verdict → Bool
is_ok token_budget_exceeded = false
is_ok cost_budget_exceeded = false
is_ok budget_exceeded = false
is_ok _ = true

-- `_check_daily_spend_budget`
unfoldable pub check_daily_spend_budget : Settings → ℕ → List Task → Verdict
check_daily_spend_budget s now tasks =
    let usage = daily_spawn_usage (now - 86400) tasks in
    if ltb 0 s.token_budget && leb s.token_budget usage.0
    then token_budget_exceeded
    else if ltb 0 s.cost_budget && leb s.cost_budget usage.1
    then cost_budget_exceeded
    else spend_ok

unfoldable pub check_budget : Settings → ℕ → List Task → ℕ → Verdict
check_budget s now tasks new_child_kb =
    let spend = check_daily_spend_budget s now tasks in
    if not (is_ok spend)
    then spend
    else if leb s.budget_mb 0
    then budget_disabled
    else if ltb (s.budget_mb * 1024) (running_tasks_rss s tasks + new_child_kb)
    then budget_exceeded
    else fits

-- What `_spawn_impl` is asked for, of the columns that are modelled.
pub record Request : Type 0 where
  pub task_id : Text
  pub child_cid : Text
  pub role : Text
  pub write_origin : Text
  pub slim : Bool
  pub retry_of : Text
  pub retry_root : Text
  pub retry_attempt : ℕ

unfoldable pub reserved_task : Settings → ℕ → Request → Task
reserved_task s now r = record {
  id = r.task_id;
  pid = 0;
  spawned_cid = r.child_cid;
  role = r.role;
  write_origin = r.write_origin;
  slim = r.slim;
  started_at = some now;
  ended_at = none;
  return_code = none;
  rss_kb = some (estimate_child_rss_kb s r.slim);
  rss_updated_at = some now;
  tokens_in = none;
  tokens_out = none;
  tokens_total = none;
  cost_usd = none;
  retry_of = r.retry_of;
  retry_root = r.retry_root;
  retry_attempt = r.retry_attempt;
  timeout_respawned_as = none;
}

-- `_reserve` of tools/spawn.py: the check and the row, in one transaction.
unfoldable pub reserve : Settings → ℕ → Request → List Task → Option (List Task)
reserve s now r tasks =
    if is_ok (check_budget s now tasks (estimate_child_rss_kb s r.slim))
    then some (reserved_task s now r ∷ tasks)
    else none

-- `_release`: a launch that never happens deletes its reservation.
unfoldable pub release : Text → List Task → List Task
release task_id = filter (λ (t : Task). not (t.id == task_id))

-- A child that ends.
abbrev pub finish_one : Text → ℕ → Task → Task
finish_one task_id now t =
    if t.id == task_id && is_none t.ended_at then record t { ended_at = some now } else t

unfoldable pub finish : Text → ℕ → List Task → List Task
finish task_id now = map (finish_one task_id now)
