-- ===== src/Spawn/Caps.antt =====
-- What the watchdog keeps: no hung child runs on, a restart is bounded, an end is final.
use thread_keeper.Common.{
  ltb, leb, if◌then◌else◌, Bool-cases, Option-cases, ◌==◌, nat_eq, pair_eq, All, Text, codes,
  text_eq, is_empty, ℕ, ◌+◌, ◌≤◌, ◌<◌, ◌≡◌, refl, subst, inl, inr, Bool, true, false, not, ◌&&◌,
  ◌||◌, Option, none, some, List, [], ◌∷◌, map, foldl, arith,
}
use thread_keeper.Spawn.Budget.{
  Task, Settings, is_running, Request, reserve, reserved_task, check_budget, is_ok,
  estimate_child_rss_kb,
}
use thread_keeper.Spawn.Watchdog.{
  Probe, Outcome, look, update, sweep, over_runtime_cap, timed_out, Launcher, continuation,
  respawned_as, respawned, respawn_timed_out, refresh_all_running, is_killed, measure_visible, idle,
  refreshed, reaped, killed, visible_at, skips_retry, is_curator, of_rss,
}

-- A child with a process of its own runs only while it lives and is within the runtime cap.
abbrev pub Healthy : Probe → Settings → ℕ → Task → Type 0
Healthy p s now t =
    is_running t ≡ true → 0 < t.pid → (p.alive t.pid ≡ true) × (over_runtime_cap s t now ≡ false)

abbrev is_end : Outcome → Bool
is_end reaped = true
is_end killed = true
is_end _ = false

update-end :
    (now : ℕ) (o : Outcome) (t : Task) → is_running (update now o t) ≡ true → is_end o ≡ false
unfolding update
update-end now idle t h = refl
update-end now (refreshed rss) t h = refl
update-end now reaped t h = absurd (cc h)
update-end now killed t h = absurd (cc h)

-- A turn changes neither the process nor the start, nor what the restart reads.
record Same (t u : Task) : Type 0 where
  pid_same : u.pid ≡ t.pid
  started_same : u.started_at ≡ t.started_at
  attempt_same : u.retry_attempt ≡ t.retry_attempt

update-Same : (now : ℕ) (o : Outcome) (t : Task) → Same t (update now o t)
unfolding update
update-Same now idle t = record { pid_same = refl; started_same = refl; attempt_same = refl }
update-Same now (refreshed rss) t = record {
  pid_same = refl;
  started_same = refl;
  attempt_same = refl;
}
update-Same now reaped t = record { pid_same = refl; started_same = refl; attempt_same = refl }
update-Same now killed t = record { pid_same = refl; started_same = refl; attempt_same = refl }

look_lem :
    (p : Probe) (s : Settings) (now : ℕ) (t : Task)
    → is_end (look p s true now t) ≡ false
    → 0 < t.pid
    → (p.alive t.pid ≡ true) × (over_runtime_cap s t now ≡ false)
unfolding look
look_lem p s now t e h = ground arith

update-Healthy :
    (p : Probe) (s : Settings) (now : ℕ) (t : Task)
    → Healthy p s now (update now (look p s true now t) t)
unfolding over_runtime_cap
update-Healthy p s now t r h =
    let k = update-Same now (look p s true now t) t in
    rw (k.pid_same, k.started_same)
      (look_lem p s now t (update-end now (look p s true now t) t r)
        (subst (λ x. 0 < x) k.pid_same h))

-- After a sweep that enforces the caps, every running child with a process of its own is alive and
-- within the runtime cap.
pub sweep-Healthy :
    (p : Probe) (s : Settings) (now : ℕ) (tasks : List Task)
    → All (Healthy p s now) (sweep p s true now tasks)
unfolding sweep
sweep-Healthy p s now [] = tt
sweep-Healthy p s now (t ∷ tasks) = elim (Bool-cases (is_running t)) [
  | inl e ↦ rw e (update-Healthy p s now t, sweep-Healthy p s now tasks)
  | inr e ↦ rw e ((λ r h. absurd (cc (e, r))), sweep-Healthy p s now tasks)
]

-- No task is a later restart than the limit allows.
abbrev pub Bounded : Settings → Task → Type 0
Bounded s t = t.retry_attempt ≤ s.retry_limit

sweep-Bounded :
    (p : Probe) (s : Settings) (e : Bool) (now : ℕ) (tasks : List Task)
    → All (Bounded s) tasks
    → All (Bounded s) (sweep p s e now tasks)
unfolding sweep
sweep-Bounded p s e now [] h = tt
sweep-Bounded p s e now (t ∷ tasks) h = elim (Bool-cases (is_running t)) [
  | inl r ↦ rw r (
    omega (arith, h.0, (update-Same now (look p s e now t) t).attempt_same),
    sweep-Bounded p s e now tasks h.1,
  )
  | inr r ↦ rw r (h.0, sweep-Bounded p s e now tasks h.1)
]

respawned_as-Bounded :
    (s : Settings) (id new : Text) (tasks : List Task)
    → All (Bounded s) tasks
    → All (Bounded s) (map (respawned_as id new) tasks)
respawned_as-Bounded s id new [] h = tt
respawned_as-Bounded s id new (t ∷ tasks) h =
    (ground (arith, h.0), respawned_as-Bounded s id new tasks h.1)

reserve-Bounded :
    (s : Settings) (now : ℕ) (r : Request) (id : Text) (tasks : List Task)
    → r.retry_attempt ≤ s.retry_limit
    → All (Bounded s) tasks
    → All (Bounded s) (respawned id r.task_id tasks (reserve s now r tasks))
unfolding reserve reserved_task
reserve-Bounded s now r id tasks a h =
    elim (Bool-cases (is_ok (check_budget s now tasks (estimate_child_rss_kb s r.slim)))) [
      | inl e ↦ rw e (respawned_as-Bounded s id r.task_id (reserved_task s now r ∷ tasks) (a, h))
      | inr e ↦ rw e h
    ]

All-if :
    (s : Settings) (b : Bool) (xs ys : List Task)
    → (b ≡ true → All (Bounded s) xs)
    → (b ≡ false → All (Bounded s) ys)
    → All (Bounded s) (if b then xs else ys)
All-if s true xs ys f g = f refl
All-if s false xs ys f g = g refl

next-le :
    (l : Launcher) (s : Settings) (t : Task) (b : Bool)
    → (skips_retry l s t || b) ≡ false
    → (continuation l t).retry_attempt ≤ s.retry_limit
unfolding skips_retry continuation
next-le l s t b h =
    next_le (leb s.retry_limit 0) (t.role == codes "model_router")
      (is_curator t.role t.write_origin && not (l.curator_launch t.id)) b h
  where
    next_le :
        (x y z b : Bool)
        → ((x || y || ltb s.retry_limit (t.retry_attempt + 1) || z) || b) ≡ false
        → t.retry_attempt + 1 ≤ s.retry_limit
    next_le x y z b h = ground arith

respawn-Bounded :
    (l : Launcher) (s : Settings) (now : ℕ) (tasks : List Task) (t : Task)
    → All (Bounded s) tasks
    → All (Bounded s) (respawn_timed_out l s now tasks t)
unfolding respawn_timed_out
respawn-Bounded l s now tasks t h =
    All-if s (skips_retry l s t || not (l.launches (continuation l t))) tasks
      (respawned t.id (continuation l t).task_id tasks (reserve s now (continuation l t) tasks))
      (λ _. h) (λ e. reserve-Bounded s now (continuation l t) t.id tasks (next-le l s t _ e) h)

respawn-All-Bounded :
    (l : Launcher) (s : Settings) (now : ℕ) (killed_rows tasks : List Task)
    → All (Bounded s) tasks
    → All (Bounded s) (foldl (respawn_timed_out l s now) tasks killed_rows)
respawn-All-Bounded l s now [] tasks h = h
respawn-All-Bounded l s now (t ∷ rows) tasks h =
    respawn-All-Bounded l s now rows (respawn_timed_out l s now tasks t)
      (respawn-Bounded l s now tasks t h)

-- However often the watchdog kills and restarts, no task's `retry_attempt` passes the limit.
pub refresh_all_running-Bounded :
    (p : Probe) (l : Launcher) (s : Settings) (e : Bool) (now : ℕ) (tasks : List Task)
    → All (Bounded s) tasks
    → All (Bounded s) (refresh_all_running p l s e now tasks)
unfolding refresh_all_running
refresh_all_running-Bounded p l s e now tasks h =
    All-if s e
      (foldl (respawn_timed_out l s now) (sweep p s e now tasks) (timed_out p s e now tasks))
      (sweep p s e now tasks)
      (λ _.
        respawn-All-Bounded l s now (timed_out p s e now tasks) (sweep p s e now tasks)
          (sweep-Bounded p s e now tasks h))
      (λ _. sweep-Bounded p s e now tasks h)

visible-not-killed :
    (p : Probe) (s : Settings) (now : ℕ) (t : Task) (o : Option ℕ)
    → is_killed (visible_at p s now t o) ≡ false
visible-not-killed p s now t none = ground arith
visible-not-killed p s now t (some pid) = ground (arith, Option-cases (p.tree_rss pid))

rss-not-killed : (o : Option ℕ) → is_killed (of_rss o) ≡ false
rss-not-killed none = refl
rss-not-killed (some rss) = refl

Healthy-not-killed :
    (p : Probe) (s : Settings) (now : ℕ) (t : Task)
    → Healthy p s now t
    → (is_running t && is_killed (look p s true now t)) ≡ false
unfolding look measure_visible
Healthy-not-killed p s now t h = ground (
  arith,
  h,
  rss-not-killed (p.tree_rss t.pid),
  visible-not-killed p s now t
      (if is_empty t.spawned_cid then none else p.pid_for_cid t.spawned_cid),
)

none_killed :
    (p : Probe) (s : Settings) (now : ℕ) (tasks : List Task)
    → All (Healthy p s now) tasks
    → timed_out p s true now tasks ≡ []
unfolding timed_out
none_killed p s now [] h = refl
none_killed p s now (t ∷ tasks) h =
    rw (Healthy-not-killed p s now t h.0) (none_killed p s now tasks h.1)

-- A sweep that enforces the caps, after another at the same time, kills no child: the kill and the
-- restart of a hung child happen once.
pub timed_out-sweep :
    (p : Probe) (s : Settings) (now : ℕ) (tasks : List Task)
    → timed_out p s true now (sweep p s true now tasks) ≡ []
timed_out-sweep p s now tasks =
    none_killed p s now (sweep p s true now tasks) (sweep-Healthy p s now tasks)
