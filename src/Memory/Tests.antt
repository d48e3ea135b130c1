-- ===== src/Memory/Tests.antt =====
-- The theorems of the memory guard at a scan of four servers.
use thread_keeper.Common.{
  nat_beq, nat_eq, pair_eq, length, filter, All, contains, codes, text_eq, ℕ, ◌-◌, ◌≤◌, ◌≡◌, refl,
  Bool, true, false, Option, none, some, List, [], ◌∷◌, map, arith,
}
use thread_keeper.Memory.Guard.{
  Process, Settings, aggregate_state, global_guard_coordinator_pid, key_ltb, sorted, is_idle,
  target, idle_retire_candidates, retire_plan, least_or, least, total_rss_mb, process_rss_mb,
  plan_from, insert_by_key,
}
use thread_keeper.Memory.Retire.{Eligible, Leaves, retire_plan-Eligible, retire_plan-Leaves}
use thread_keeper.Memory.Health.{
  Presence, Listed, heartbeat_age_for_pid, like, pid_pattern, newest_heartbeat, classify, scan,
  sent, cleanup, pid_alive, signal_all, is_orphan, signal_one,
}
use thread_keeper.Memory.Cleanup.{session, abandoned_pids, accounted, cleanup_abandoned}
use thread_keeper.Sync.Decimal.{fmt_nat}

abbrev server : ℕ → ℕ → Option ℕ → Bool → Process
server n kb age self = record {
  pid = n;
  rss_kb = kb;
  heartbeat_age_s = age;
  is_self = self;
  is_orphaned = nat_beq n 7;
  parent_alive = self;
}

-- The process 9 runs the guard; the process 7 is an orphan.
abbrev servers : List Process
servers =
    server 9 409600 (some 1) true
    ∷ server 7 204800 (some 900) false
    ∷ server 12 614400 none false
    ∷ server 15 307200 (some 5000) false
    ∷ []

abbrev settings : Settings
settings = record {
  agg_warn_mb = 1000;
  agg_kill_mb = 4000;
  target_servers = 1;
  retire_idle_s = 600;
  retire_live = false;
  host_enabled = false;
}

coordinator_of_scan : global_guard_coordinator_pid servers ≡ some 9
unfolding global_guard_coordinator_pid least_or least
coordinator_of_scan = refl

-- The orders of the candidates and the plan, which stops at the warn threshold.
plan_of_scan :
    map (λ p. p.pid) (retire_plan settings servers (aggregate_state settings servers)) ≡ 12 ∷ []
unfolding retire_plan target aggregate_state total_rss_mb process_rss_mb plan_from
    idle_retire_candidates sorted is_idle insert_by_key key_ltb
plan_of_scan = refl

order_of_scan : map (λ p. p.pid) (idle_retire_candidates settings servers) ≡ 12 ∷ 15 ∷ 7 ∷ []
unfolding idle_retire_candidates sorted is_idle insert_by_key key_ltb
order_of_scan = refl

retire_plan-Eligible_example :
    All (Eligible settings) (retire_plan settings servers (aggregate_state settings servers))
    × (length (retire_plan settings servers (aggregate_state settings servers))
        ≤ length servers - target settings)
retire_plan-Eligible_example = retire_plan-Eligible settings servers

retire_plan-Leaves_example :
    Leaves settings servers (retire_plan settings servers (aggregate_state settings servers))
unfolding target aggregate_state total_rss_mb process_rss_mb
retire_plan-Leaves_example = retire_plan-Leaves settings servers (omega arith) refl

abbrev listed : List Listed
listed =
    record { pid = 12; ppid = 1; rss_kb = 614400 }
    ∷ record { pid = 30; ppid = 9; rss_kb = 1000 }
    ∷ record { pid = 44; ppid = 1; rss_kb = 2000 }
    ∷ []

abbrev presence : List Presence
presence = session 44 (codes "ab") 500 ∷ session 12 (codes "cd") 990 ∷ []

-- The pattern of the pid 12 takes a session of the pid 123.
heartbeat_of_another : heartbeat_age_for_pid 1000 (session 123 (codes "ab") 990 ∷ []) 12 ≡ some 10
unfolding heartbeat_age_for_pid newest_heartbeat like pid_pattern fmt_nat
heartbeat_of_another = refl

cleanup_kills :
    (cleanup false (λ n. sent) (scan 9 (λ n. true) 1000 presence listed)).killed ≡ 44 ∷ []
unfolding cleanup scan signal_all classify is_orphan pid_alive heartbeat_age_for_pid
    newest_heartbeat like pid_pattern fmt_nat signal_one
cleanup_kills = refl

cleanup_abandoned_example :
    All
      (λ n. contains (abandoned_pids 9 (λ m. true) listed) n ≡ true)
      (cleanup false (λ n. sent) (scan 9 (λ m. true) 1000 presence listed)).killed
    × (accounted (cleanup false (λ n. sent) (scan 9 (λ m. true) 1000 presence listed))
        ≡ length (filter (λ p. p.is_orphaned) (scan 9 (λ m. true) 1000 presence listed)))
cleanup_abandoned_example = cleanup_abandoned 9 (λ m. true) 1000 presence listed false (λ n. sent)
