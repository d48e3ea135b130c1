-- ===== src/Spawn/Tests.antt =====
-- The theorems of admission and of the watchdog at one hung child.
use thread_keeper.Common.{
  if◌then◌else◌, ◌==◌, nat_eq, pair_eq, length, All, contains, codes, text_eq, ℕ, ◌*◌, ◌≡◌, refl,
  ◌↔◌, true, ◌||◌, Option, none, some, List, [], ◌∷◌, map, arith,
}
use thread_keeper.Spawn.Tree.{Pairs, measure_tree_rss_kb, tree_of, grow, next_level, kids, Descends}
use thread_keeper.Spawn.Walk.{measure_tree_rss_kb-Descends}
use thread_keeper.Spawn.Budget.{
  Task, Settings, Request, reserve, reserved_task, check_budget, running_tasks_rss,
  check_daily_spend_budget, estimate_child_rss_kb,
}
use thread_keeper.Spawn.Admission.{Within, still, then_step, admitted, Run-Within}
use thread_keeper.Spawn.Watchdog.{
  Probe, Launcher, sweep, timed_out, refresh_all_running, look, over_runtime_cap, respawn_timed_out,
  skips_retry, update, continuation,
}
use thread_keeper.Spawn.Caps.{Healthy, Bounded, sweep-Healthy, refresh_all_running-Bounded}

abbrev settings : Settings
settings = record {
  budget_mb = 3072;
  estimate_slim_mb = 500;
  estimate_full_mb = 800;
  token_budget = 0;
  cost_budget = 0;
  visible_ttl = 3600;
  max_runtime = 600;
  retry_limit = 2;
}

abbrev request : Request
request = record {
  task_id = codes "tk_1";
  child_cid = codes "c1";
  role = codes "curator";
  write_origin = codes "spawned";
  slim = true;
  retry_of = [];
  retry_root = [];
  retry_attempt = 0;
}

abbrev hung : Task
hung = record (reserved_task settings 100000 request) { pid = 41; retry_attempt = 1 }

abbrev probe : Probe
probe = record { alive = λ pid. true; tree_rss = λ pid. some 700; pid_for_cid = λ cid. none }

abbrev launcher : Launcher
launcher = record {
  new_task_id = λ id n. codes "tk_2";
  new_cid = λ id n. codes "c2";
  curator_launch = λ id. true;
  launches = λ r. true;
}

abbrev one : List Task
one = reserved_task settings 100000 request ∷ []

reserve_run : reserve settings 100000 request [] ≡ some one
unfolding reserve check_budget check_daily_spend_budget running_tasks_rss estimate_child_rss_kb
reserve_run = refl

none-Within : Within settings []
unfolding running_tasks_rss
none-Within h = omega arith

Run-Within_example : Within settings one
Run-Within_example =
    Run-Within settings [] one (then_step still (admitted 100000 request reserve_run)) none-Within

sweep-Healthy_example :
    All (Healthy probe settings 200000) (sweep probe settings true 200000 (hung ∷ []))
sweep-Healthy_example = sweep-Healthy probe settings 200000 (hung ∷ [])

refresh_all_running-Bounded_example :
    All (Bounded settings) (refresh_all_running probe launcher settings true 200000 (hung ∷ []))
refresh_all_running-Bounded_example =
    refresh_all_running-Bounded probe launcher settings true 200000 (hung ∷ []) (omega arith, tt)

-- The watchdog does kill the child, and restarts it.
timed_out_run : timed_out probe settings true 200000 (hung ∷ []) ≡ hung ∷ []
unfolding timed_out reserved_task look over_runtime_cap
timed_out_run = refl

refresh_run :
    map
      (λ (t : Task). t.retry_attempt)
      (refresh_all_running probe launcher settings true 200000 (hung ∷ []))
    ≡ 2 ∷ 1 ∷ []
unfolding refresh_all_running timed_out reserved_task look over_runtime_cap respawn_timed_out
    skips_retry reserve check_budget check_daily_spend_budget running_tasks_rss sweep update
    estimate_child_rss_kb continuation
refresh_run = refl

-- A child (10) has started a shell (11), which has started a tool (12); 20 is another process.
abbrev ps_pairs : Pairs
ps_pairs = (10, 1) ∷ (11, 10) ∷ (20, 1) ∷ (12, 11) ∷ []

abbrev depth_of : ℕ → ℕ
depth_of pid =
    if pid == 10 || pid == 20 then 1 else if pid == 11 then 2 else if pid == 12 then 3 else 0

abbrev one_mb_each : List ℕ → Option ℕ
one_mb_each pids = some (length pids * 1024)

three_processes : measure_tree_rss_kb ps_pairs one_mb_each 10 ≡ some 3072
unfolding measure_tree_rss_kb tree_of grow next_level kids
three_processes = refl

measure_tree_rss_kb-Descends_example :
    (tree : List ℕ) × (measure_tree_rss_kb ps_pairs one_mb_each 10 ≡ one_mb_each tree)
    × ((x : ℕ) → (contains tree x ≡ true) ↔ ∥ Descends ps_pairs 10 x ∥₁)
measure_tree_rss_kb-Descends_example =
    measure_tree_rss_kb-Descends ps_pairs one_mb_each 10 depth_of
      (
        (omega arith, omega arith),
        (
          (omega arith, omega arith),
          ((omega arith, omega arith), ((omega arith, omega arith), tt)),
        ),
      )
      refl refl
