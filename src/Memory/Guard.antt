-- ===== src/Memory/Guard.antt =====
-- memory_guard.py: the aggregate state, the coordinator and the plan of servers to retire.
use thread_keeper.Common.{
  ltb, leb, if◌then◌else◌, ◌==◌, nat_eq, pair_eq, length, filter, contains, text_eq, ℕ, ◌+◌, ◌-◌,
  ◌/◌, min, max, Bool, true, false, not, ◌&&◌, ◌||◌, Option, none, some, List, [], ◌∷◌, map,
}

-- A row of `process_health.scan()`; a pid or a size that is missing is 0.
pub record Process : Type 0 where
  pub pid : ℕ
  pub rss_kb : ℕ
  pub heartbeat_age_s : Option ℕ
  pub is_self : Bool
  pub is_orphaned : Bool
  pub parent_alive : Bool

-- The `MEMORY_GUARD_*` options and `DAEMON_HOST_ENABLED`. A negative option acts as 0 does.
pub record Settings : Type 0 where
  pub agg_warn_mb : ℕ
  pub agg_kill_mb : ℕ
  pub target_servers : ℕ
  pub retire_idle_s : ℕ
  pub retire_live : Bool
  pub host_enabled : Bool

pub record Aggregate : Type 0 where
  pub rss_mb : ℕ
  pub warn : Bool
  pub kill : Bool
  pub warn_mb : ℕ

-- `_rss_mb`
unfoldable pub process_rss_mb : Process → ℕ
process_rss_mb p = p.rss_kb / 1024

-- `sum(_rss_mb(p) for p in procs)`
unfoldable pub total_rss_mb : List Process → ℕ
total_rss_mb [] = 0
total_rss_mb (p ∷ ps) = process_rss_mb p + total_rss_mb ps

unfoldable pub aggregate_state : Settings → List Process → Aggregate
aggregate_state s procs = record {
  rss_mb = total_rss_mb procs;
  warn = ltb 0 s.agg_warn_mb && leb s.agg_warn_mb (total_rss_mb procs);
  kill = ltb 0 s.agg_kill_mb && leb s.agg_kill_mb (total_rss_mb procs);
  warn_mb = s.agg_warn_mb;
}

-- `min(candidates) if candidates else None`
unfoldable pub least : List ℕ → Option ℕ
least [] = none
least (n ∷ ns) = elim (least ns) [ none ↦ some n | some m ↦ some (min n m) ]

abbrev pub pids : List Process → List ℕ
pids procs = map (λ p. p.pid) (filter (λ p. ltb 0 p.pid) procs)

abbrev pub live_pids : List Process → List ℕ
live_pids procs = map (λ p. p.pid) (filter (λ p. ltb 0 p.pid && not p.is_orphaned) procs)

-- The least of `candidates`, or of `all_pids` where there is none.
unfoldable pub least_or : List ℕ → List ℕ → Option ℕ
least_or [] all_pids = least all_pids
least_or (m ∷ ms) all_pids = least (m ∷ ms)

unfoldable pub global_guard_coordinator_pid : List Process → Option ℕ
global_guard_coordinator_pid procs = least_or (live_pids procs) (pids procs)

-- `is_global_guard_coordinator` in the process `self`
unfoldable pub is_global_guard_coordinator : ℕ → List Process → Bool
is_global_guard_coordinator self procs =
    if not (contains (pids procs) self)
    then true
    else elim (global_guard_coordinator_pid procs) [ none ↦ false | some m ↦ self == m ]

-- The key `(no_hb_first, -hb_age, -rss_mb)`, as the age and the size.
abbrev pub key : Process → Option ℕ × ℕ
key p = (p.heartbeat_age_s, process_rss_mb p)

-- The order of the keys: no heartbeat first, then the older heartbeat, then the larger size.
unfoldable pub key_ltb : Option ℕ × ℕ → Option ℕ × ℕ → Bool
key_ltb (none, a) (none, b) = ltb b a
key_ltb (none, a) (some n, b) = true
key_ltb (some m, a) (none, b) = false
key_ltb (some m, a) (some n, b) = ltb n m || (n == m && ltb b a)

-- `sorted(candidates, key=key)`: equal keys keep their order.
unfoldable pub insert_by_key : Process → List Process → List Process
insert_by_key p [] = p ∷ []
insert_by_key p (q ∷ qs) =
    let rest = insert_by_key p qs in if key_ltb (key q) (key p) then q ∷ rest else p ∷ q ∷ qs

unfoldable pub sorted : List Process → List Process
sorted [] = []
sorted (p ∷ ps) = insert_by_key p (sorted ps)

-- The test of `_idle_retire_candidates` on a process.
unfoldable pub is_idle : Settings → Process → Bool
is_idle s p =
    if p.is_self
    then false
    else if p.parent_alive && not s.retire_live
    then false
    else elim p.heartbeat_age_s [ none ↦ true | some age ↦ leb s.retire_idle_s age ]

unfoldable pub idle_retire_candidates : Settings → List Process → List Process
idle_retire_candidates s procs = if s.host_enabled then [] else sorted (filter (is_idle s) procs)

-- `max(1, int(MEMORY_GUARD_TARGET_SERVERS or 1))`
unfoldable pub target : Settings → ℕ
target s = max 1 s.target_servers

-- The loop of `_retire_plan`. `total` stops at 0 where the code goes below: its test is the same.
unfoldable pub plan_from : ℕ → Aggregate → ℕ → ℕ → List Process → List Process
plan_from goal agg total count [] = []
plan_from goal agg total count (p ∷ ps) =
    let rest = plan_from goal agg (total - process_rss_mb p) (count - 1) ps in
    if leb count goal
    then []
    else if not agg.kill && ltb 0 agg.warn_mb && leb total agg.warn_mb
    then []
    else p ∷ rest

unfoldable pub retire_plan : Settings → List Process → Aggregate → List Process
retire_plan s procs agg =
    if leb (length procs) (target s)
    then []
    else if not agg.warn && not agg.kill
    then []
    else plan_from (target s) agg agg.rss_mb (length procs) (idle_retire_candidates s procs)
