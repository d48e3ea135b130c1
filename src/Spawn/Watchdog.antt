-- ===== src/Spawn/Watchdog.antt =====
-- spawn_budget.py: the sweep that measures running children, reaps those that are gone or hung, and
-- restarts those that the watchdog killed.
use thread_keeper.Common.{
  ltb, leb, if◌then◌else◌, ◌==◌, nat_eq, pair_eq, filter, Text, codes, text_eq, is_empty, ℕ, ◌+◌,
  ◌-◌, Bool, true, false, not, ◌&&◌, ◌||◌, Option, none, some, List, [], ◌∷◌, map, foldl,
}
use thread_keeper.Spawn.Budget.{Task, Settings, is_running, Request, reserve}

-- What the operating system answers during a sweep: whether a process lives, the memory of its
-- tree, and the process that carries a session id.
pub record Probe : Type 0 where
  pub alive : ℕ → Bool
  pub tree_rss : ℕ → Option ℕ
  pub pid_for_cid : Text → Option ℕ

-- `row["started_at"]` that is set, and at least `cap` seconds ago.
abbrev pub older_than : ℕ → ℕ → Option ℕ → Bool
older_than cap now none = false
older_than cap now (some started) = ltb 0 started && leb cap (now - started)

-- `_over_runtime_cap`
unfoldable pub over_runtime_cap : Settings → Task → ℕ → Bool
over_runtime_cap s t now = not (leb s.max_runtime 0) && older_than s.max_runtime now t.started_at

-- What a row's turn in the sweep does.
pub data Outcome : Type 0 where
  idle : Outcome
  refreshed : ℕ → Outcome
  reaped : Outcome
  killed : Outcome

abbrev pub of_rss : Option ℕ → Outcome
of_rss none = idle
of_rss (some rss) = refreshed rss

-- `_measure_visible`, for the process that carries the session id.
abbrev pub visible_at : Probe → Settings → ℕ → Task → Option ℕ → Outcome
visible_at p s now t none =
    if ltb 0 s.visible_ttl && older_than s.visible_ttl now t.started_at then reaped else idle
visible_at p s now t (some pid) =
    if ltb 0 pid
    then of_rss (p.tree_rss pid)
    else if ltb 0 s.visible_ttl && older_than s.visible_ttl now t.started_at
    then reaped
    else idle

unfoldable pub measure_visible : Probe → Settings → ℕ → Task → Outcome
measure_visible p s now t =
    visible_at p s now t (if is_empty t.spawned_cid then none else p.pid_for_cid t.spawned_cid)

-- One turn of the loop of `_refresh_all_running`.
unfoldable pub look : Probe → Settings → Bool → ℕ → Task → Outcome
look p s enforce now t =
    if leb t.pid 0
    then measure_visible p s now t
    else if not (p.alive t.pid)
    then reaped
    else if enforce && over_runtime_cap s t now
    then killed
    else of_rss (p.tree_rss t.pid)

-- The row after its turn; 124 is `SPAWN_TIMEOUT_RETURN_CODE`.
unfoldable pub update : ℕ → Outcome → Task → Task
update now idle t = t
update now (refreshed rss) t = record t { rss_kb = some rss; rss_updated_at = some now }
update now reaped t = record t { ended_at = some now }
update now killed t = record t { ended_at = some now; return_code = some 124 }

-- The sweep over the running rows. A row's id is a primary key, so that each UPDATE meets one row.
unfoldable pub sweep : Probe → Settings → Bool → ℕ → List Task → List Task
sweep p s enforce now [] = []
sweep p s enforce now (t ∷ tasks) =
    let rest = sweep p s enforce now tasks in
    if is_running t then update now (look p s enforce now t) t ∷ rest else t ∷ rest

abbrev pub is_killed : Outcome → Bool
is_killed killed = true
is_killed _ = false

-- `timed_out`: the rows that the watchdog killed, as they were.
unfoldable pub timed_out : Probe → Settings → Bool → ℕ → List Task → List Task
timed_out p s enforce now =
    filter (λ (t : Task). is_running t && is_killed (look p s enforce now t))

-- `_retry_chain_root`
unfoldable pub retry_chain_root : Task → Text
retry_chain_root t =
    if not (is_empty t.retry_root)
    then t.retry_root
    else if not (is_empty t.retry_of)
    then t.retry_of
    else t.id

-- What a restart uses of the rest of the program: the ids of the new child, whether a curator's
-- launch may be continued, and whether the launch succeeds once it is admitted.
pub record Launcher : Type 0 where
  pub new_task_id : Text → ℕ → Text
  pub new_cid : Text → ℕ → Text
  pub curator_launch : Text → Bool
  pub launches : Request → Bool

abbrev pub is_curator : Text → Text → Bool
is_curator role origin =
    (role == codes "curator" && origin == codes "curator")
    || (role == codes "curator_researcher" && origin == codes "curator_research")

unfoldable pub continuation : Launcher → Task → Request
continuation l t = record {
  task_id = l.new_task_id t.id (t.retry_attempt + 1);
  child_cid = l.new_cid t.id (t.retry_attempt + 1);
  role = t.role;
  write_origin = t.write_origin;
  slim = t.slim;
  retry_of = t.id;
  retry_root = retry_chain_root t;
  retry_attempt = t.retry_attempt + 1;
}

-- `UPDATE tasks SET timeout_respawned_as=?`
abbrev pub respawned_as : Text → Text → Task → Task
respawned_as id new t = if t.id == id then record t { timeout_respawned_as = some new } else t

abbrev pub respawned : Text → Text → List Task → Option (List Task) → List Task
respawned id new tasks none = tasks
respawned id new tasks (some after) = map (respawned_as id new) after

-- The guards of `_respawn_timed_out`, each of which returns before anything is launched.
unfoldable pub skips_retry : Launcher → Settings → Task → Bool
skips_retry l s t =
    leb s.retry_limit 0
    || t.role == codes "model_router"
    || ltb s.retry_limit (t.retry_attempt + 1)
    || (is_curator t.role t.write_origin && not (l.curator_launch t.id))

-- `_respawn_timed_out`
unfoldable pub respawn_timed_out : Launcher → Settings → ℕ → List Task → Task → List Task
respawn_timed_out l s now tasks t =
    if skips_retry l s t || not (l.launches (continuation l t))
    then tasks
    else respawned t.id (continuation l t).task_id tasks (reserve s now (continuation l t) tasks)

-- `_refresh_all_running`, for the rows in the order of the query.
unfoldable pub refresh_all_running : Probe → Launcher → Settings → Bool → ℕ → List Task → List Task
refresh_all_running p l s enforce now tasks =
    let swept = sweep p s enforce now tasks in
    if enforce
    then foldl (respawn_timed_out l s now) swept (timed_out p s enforce now tasks)
    else swept
