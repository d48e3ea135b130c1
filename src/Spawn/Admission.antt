-- ===== src/Spawn/Admission.antt =====
-- What admission keeps: the estimates of the running children stay within the memory budget.
use thread_keeper.Common.{
  if◌then◌else◌, Text, ℕ, ◌+◌, ◌-◌, ◌*◌, ◌≤◌, ◌<◌, ◌≡◌, refl, subst, ◌↔◌, Bool, true, none, some,
  List, [], ◌∷◌, arith,
}
use thread_keeper.Spawn.Budget.{
  Task, Settings, estimate_child_rss_kb, running_tasks_rss, daily_spawn_usage, is_ok,
  check_daily_spend_budget, check_budget, Request, reserved_task, reserve, release, finish,
}

-- The memory of the running children is within the budget, if there is one.
abbrev pub Within : Settings → List Task → Type 0
Within s tasks = 0 < s.budget_mb → running_tasks_rss s tasks ≤ s.budget_mb * 1024

-- The spend of the last 24 hours is below each limit that is set.
abbrev pub SpendOk : Settings → ℕ → List Task → Type 0
SpendOk s now tasks =
    (0 < s.token_budget → (daily_spawn_usage (now - 86400) tasks).0 < s.token_budget)
    × (0 < s.cost_budget → (daily_spawn_usage (now - 86400) tasks).1 < s.cost_budget)

spend_iff :
    (s : Settings) (now : ℕ) (tasks : List Task)
    → (is_ok (check_daily_spend_budget s now tasks) ≡ true) ↔ SpendOk s now tasks
unfolding check_daily_spend_budget
spend_iff s now tasks = ground arith

-- A child is admitted exactly when the spend of the last 24 hours is below each limit that is set
-- and the memory of the running children, with the child's, is within the budget, if there is one.
pub check_budget_iff :
    (s : Settings) (now : ℕ) (tasks : List Task) (kb : ℕ)
    → (is_ok (check_budget s now tasks kb) ≡ true) ↔ (
        SpendOk s now tasks
        × (0 < s.budget_mb → running_tasks_rss s tasks + kb ≤ s.budget_mb * 1024))
unfolding check_budget
check_budget_iff s now tasks kb = ground (arith, spend_iff s now tasks)

reserved-rss :
    (s : Settings) (now : ℕ) (r : Request) (tasks : List Task)
    → running_tasks_rss s (reserved_task s now r ∷ tasks)
      ≡ estimate_child_rss_kb s r.slim + running_tasks_rss s tasks
unfolding running_tasks_rss reserved_task
reserved-rss s now r tasks = refl

admitted_only :
    (b : Bool) (x after : List Task)
    → (if b then some x else none) ≡ some after
    → (b ≡ true) × (x ≡ after)
admitted_only b x after e = ground arith

reserve-Within :
    (s : Settings) (now : ℕ) (r : Request) (tasks after : List Task)
    → reserve s now r tasks ≡ some after
    → Within s after
unfolding reserve
reserve-Within s now r tasks after e h =
    let (b, same) = admitted_only _ _ after e in
    subst (λ x. running_tasks_rss s x ≤ s.budget_mb * 1024) same
      (omega (
        arith,
        reserved-rss s now r tasks,
        ((check_budget_iff s now tasks (estimate_child_rss_kb s r.slim)).0 b).1 h,
      ))

release-le :
    (s : Settings) (task_id : Text) (tasks : List Task)
    → running_tasks_rss s (release task_id tasks) ≤ running_tasks_rss s tasks
unfolding release running_tasks_rss
release-le s task_id [] = omega arith
release-le s task_id (t ∷ tasks) = ground (arith, release-le s task_id tasks)

finish-le :
    (s : Settings) (task_id : Text) (now : ℕ) (tasks : List Task)
    → running_tasks_rss s (finish task_id now tasks) ≤ running_tasks_rss s tasks
unfolding finish running_tasks_rss
finish-le s task_id now [] = omega arith
finish-le s task_id now (t ∷ tasks) = ground (arith, finish-le s task_id now tasks)

-- One transaction of a spawner, or the end of a child.
pub data Step (s : Settings) : List Task → List Task → Type 0 where
  admitted :
      (now : ℕ) (r : Request) {tasks after : List Task}
      → reserve s now r tasks ≡ some after
      → Step s tasks after
  released : (task_id : Text) {tasks : List Task} → Step s tasks (release task_id tasks)
  finished :
      (task_id : Text) (now : ℕ) {tasks : List Task} → Step s tasks (finish task_id now tasks)

-- Any number of steps, of any spawners, in any order.
pub data Run (s : Settings) : List Task → List Task → Type 0 where
  still : {tasks : List Task} → Run s tasks tasks
  then_step : {a b c : List Task} → Run s a b → Step s b c → Run s a c

Step-Within : (s : Settings) (a b : List Task) → Step s a b → Within s a → Within s b
Step-Within s a b (admitted now r e) h k = reserve-Within s now r a b e k
Step-Within s a b (released task_id) h k = omega (arith, release-le s task_id a, h k)
Step-Within s a b (finished task_id now) h k = omega (arith, finish-le s task_id now a, h k)

-- However admissions, released reservations and ends of children interleave, the memory counted for
-- the running children stays within the budget.
pub Run-Within : (s : Settings) (a b : List Task) → Run s a b → Within s a → Within s b
Run-Within s a b still h = h
Run-Within s a b (then_step r step) h = Step-Within s _ b step (Run-Within s a _ r h)
