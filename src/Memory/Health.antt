-- ===== src/Memory/Health.antt =====
-- process_health.py: the classification of the servers that `ps` lists, and `cleanup`.
use thread_keeper.Common.{
  ltb, leb, if◌then◌else◌, ◌==◌, nat_eq, pair_eq, filter, Text, codes, text_eq, is_empty,
  lower_char, ℕ, ◌-◌, max, Bool, true, false, ◌&&◌, ◌||◌, Option, none, some, List, [], ◌∷◌, ◌++◌,
  map,
}
use thread_keeper.Sync.Decimal.{fmt_nat}
use thread_keeper.Memory.Guard.{Process}

-- A row of `presence`.
pub record Presence : Type 0 where
  pub session_id : Text
  pub heartbeat_at : ℕ

-- A server that `ps` lists.
pub record Listed : Type 0 where
  pub pid : ℕ
  pub ppid : ℕ
  pub rss_kb : ℕ

abbrev pub any_suffix : (Text → Bool) → Text → Bool
any_suffix f [] = f []
any_suffix f (c ∷ s) = f (c ∷ s) || any_suffix f s

abbrev pub match_char : (ℕ → Bool) → (Text → Bool) → Text → Bool
match_char t f [] = false
match_char t f (c ∷ s) = t c && f s

-- SQL's `LIKE`: `%` is any text, `_` any character, and the case of ASCII letters does not count.
unfoldable pub like : Text → Text → Bool
like [] = is_empty
like (p ∷ ps) =
    if p == 37
    then any_suffix (like ps)
    else if p == 95
    then match_char (λ c. true) (like ps)
    else match_char (λ c. lower_char c == lower_char p) (like ps)

-- `f"s_{pid}_%"`
unfoldable pub pid_pattern : ℕ → Text
pid_pattern pid = (codes "s_" ++ fmt_nat 1 pid ++ codes "_") ++ codes "%"

-- The first row of `ORDER BY heartbeat_at DESC`.
unfoldable pub newest_heartbeat : Text → List Presence → Option ℕ
newest_heartbeat pattern [] = none
newest_heartbeat pattern (r ∷ rs) =
    let rest = newest_heartbeat pattern rs in
    if like pattern r.session_id
    then elim rest [ none ↦ some r.heartbeat_at | some h ↦ some (max r.heartbeat_at h) ]
    else rest

-- A heartbeat is not later than `now`.
unfoldable pub heartbeat_age_for_pid : ℕ → List Presence → ℕ → Option ℕ
heartbeat_age_for_pid now presence pid = elim (newest_heartbeat (pid_pattern pid) presence) [
  | none ↦ none
  | some h ↦ if h == 0 then none else some (now - h)
]

-- `_pid_alive`, where `alive` is the answer of the operating system.
unfoldable pub pid_alive : (ℕ → Bool) → ℕ → Bool
pid_alive alive pid = if leb pid 1 then false else alive pid

abbrev pub stale_heartbeat : ℕ
stale_heartbeat = 300

unfoldable pub is_orphan : Bool → Bool → Option ℕ → Bool
is_orphan self parent age =
    if self
    then false
    else if parent
    then false
    else elim age [ none ↦ true | some a ↦ ltb stale_heartbeat a ]

-- `classify` in the process `self`.
unfoldable pub classify : ℕ → (ℕ → Bool) → ℕ → List Presence → Listed → Process
classify self alive now presence p = record {
  pid = p.pid;
  rss_kb = p.rss_kb;
  heartbeat_age_s = heartbeat_age_for_pid now presence p.pid;
  is_self = p.pid == self;
  is_orphaned =
      is_orphan (p.pid == self) (pid_alive alive p.ppid) (heartbeat_age_for_pid now presence p.pid);
  parent_alive = pid_alive alive p.ppid;
}

unfoldable pub scan : ℕ → (ℕ → Bool) → ℕ → List Presence → List Listed → List Process
scan self alive now presence listed = map (classify self alive now presence) listed

-- What `signal_if_threadkeeper` does: it sends, finds another program, or `os.kill` raises.
pub data Signal : Type 0 where
  sent not_server raised : Signal

pub record Cleanup : Type 0 where
  pub orphans : List Process
  pub killed : List ℕ
  pub skipped : List ℕ
  pub failed : List ℕ

-- One turn of the loop of `cleanup`.
unfoldable pub signal_one : Signal → ℕ → Cleanup → Cleanup
signal_one sent n c = record c { killed = n ∷ c.killed }
signal_one not_server n c = record c { skipped = n ∷ c.skipped }
signal_one raised n c = record c { failed = n ∷ c.failed }

unfoldable pub signal_all : (ℕ → Signal) → List Process → List Process → Cleanup
signal_all signal orphans [] = record { orphans = orphans; killed = []; skipped = []; failed = [] }
signal_all signal orphans (p ∷ ps) = signal_one (signal p.pid) p.pid (signal_all signal orphans ps)

unfoldable pub cleanup : Bool → (ℕ → Signal) → List Process → Cleanup
cleanup dry_run signal procs =
    let plan = filter (λ p. p.is_orphaned) procs in
    signal_all signal plan (if dry_run then [] else plan)
