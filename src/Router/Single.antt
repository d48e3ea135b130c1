-- ===== src/Router/Single.antt =====
-- The passes that are running.
use thread_keeper.Common.{
  if◌then◌else◌, Bool-cases, Option-cases, ◌==◌, nat_eq, pair_eq, All, Text, text_eq, is_empty, ℕ,
  ◌+◌, ◌≤◌, ◌≡◌, refl, sym, ◌∙◌, subst, ◌≢◌, inl, inr, Bool, false, ◌&&◌, none, some, List, [], ◌∷◌,
  ◌++◌, map, arith,
}
use thread_keeper.Router.Latest.{
  running_passes, option_map, Keeps, running-map, latest-map, latest-running,
}
use thread_keeper.Router.Routes.{
  Attempt, primary, fallback, Status, complete, failed, is_running, RouterPass, latest_pass, opened,
  open_pass, set_attempt, finish_pass,
}
use thread_keeper.Router.Tick.{
  Db, Inputs, TickState, Action, skip, wait, rerun, fail, backoff, start, idle, Spawned, raised,
  answered, decide, pending_action, launch, act, record_decisions,
}
use thread_keeper.Router.Runs.{Run, begin, tick, write, others, tick-cases, write-cases}

-- At most one pass is running, and none if the last one is not; none is started after the time.
pub record IsSingle (t : ℕ) (ps : List RouterPass) : Type 0 where
  pub at_most_one : running_passes ps ≤ 1
  pub is_last :
      (p : RouterPass)
      → latest_pass ps ≡ some p
      → is_running p.status ≡ false
      → running_passes ps ≡ 0
  pub in_past : All (λ p. p.started_at ≤ t) ps

All-map :
    (t : ℕ) (f : RouterPass → RouterPass)
    → Keeps f
    → (ps : List RouterPass) → All (λ p. p.started_at ≤ t) ps
    → All (λ p. p.started_at ≤ t) (map f ps)
All-map t f k [] h = tt
All-map t f k (p ∷ ps) (a, b) = (omega (arith, a, (k p).0), All-map t f k ps b)

map-IsSingle :
    (t : ℕ) (f : RouterPass → RouterPass)
    → Keeps f
    → (ps : List RouterPass) → IsSingle t ps
    → IsSingle t (map f ps)
unfolding option_map
map-IsSingle t f k ps s = record {
  at_most_one = omega (arith, s.at_most_one, running-map f k ps);
  is_last = λ q e r. elim (Option-cases (latest_pass ps)) [
    | inl n ↦ absurd (ground (arith, n, e, latest-map f k ps))
    | inr (p, n) ↦
        let g : f p ≡ q = ground (arith, n, e, latest-map f k ps) in
        let d : is_running (f p).status ≡ false =
          subst (λ x. is_running x.status ≡ false) (sym g) r in
        elim (Bool-cases (is_running p.status)) [
          | inl b ↦ omega (arith, s.at_most_one, latest-running f k ps p n b d)
          | inr b ↦ omega (arith, s.is_last p n b, running-map f k ps)
        ]
  ];
  in_past = All-map t f k ps s.in_past;
}

later-IsSingle : (t now : ℕ) (ps : List RouterPass) → t ≤ now → IsSingle t ps → IsSingle now ps
later-IsSingle t now ps h s = record {
  at_most_one = s.at_most_one;
  is_last = s.is_last;
  in_past = later ps s.in_past;
}
  where
    later :
        (ps : List RouterPass) → All (λ p. p.started_at ≤ t) ps → All (λ p. p.started_at ≤ now) ps
    later [] a = tt
    later (p ∷ ps) (a, b) = (omega (arith, a, h), later ps b)

running-append :
    (ps qs : List RouterPass) → running_passes (ps ++ qs) ≡ running_passes ps + running_passes qs
running-append [] qs = omega arith
running-append (p ∷ ps) qs = ground (arith, running-append ps qs)

All-append :
    (t : ℕ) (ps : List RouterPass) (p : RouterPass)
    → All (λ q. q.started_at ≤ t) ps
    → p.started_at ≤ t
    → All (λ q. q.started_at ≤ t) (ps ++ p ∷ [])
All-append t [] p h k = (k, tt)
All-append t (q ∷ ps) p (a, b) k = (a, All-append t ps p b k)

latest-append :
    (ps : List RouterPass) (p : RouterPass)
    → All (λ q. q.started_at ≤ p.started_at) ps
    → latest_pass (ps ++ p ∷ []) ≡ some p
unfolding latest_pass
latest-append [] p h = refl
latest-append (q ∷ ps) p (a, b) = rw (latest-append ps p b) (ground (arith, a))

open-IsSingle :
    (id : Text) (roles : List Text) (now : ℕ) (ps : List RouterPass)
    → running_passes ps ≡ 0
    → IsSingle now ps
    → IsSingle now (open_pass id roles now ps)
unfolding open_pass
open-IsSingle id roles now ps z s = record {
  at_most_one = omega (arith, z, running-append ps (opened id roles now ∷ []));
  is_last = λ q e r.
      let g : opened id roles now ≡ q =
        ground (arith, e, latest-append ps (opened id roles now) s.in_past) in
      absurd (ground (arith, subst (λ x. is_running x.status ≡ false) (sym g) r));
  in_past = All-append now ps (opened id roles now) s.in_past (omega arith);
}

set_attempt-Keeps :
    (id task_id : Text) (a : Attempt)
    → Keeps (λ p. if p.pass_id == id then record p { attempt = a; task_id = task_id } else p)
set_attempt-Keeps id task_id a p = ground arith

finish-Keeps :
    (id : Text) (x : Status) (now : ℕ)
    → is_running x ≡ false
    → Keeps (λ p.
      if p.pass_id == id && is_running p.status
      then record p { status = x; ended_at = some now }
      else p)
finish-Keeps id x now h p = ground (arith, h)

launch-IsSingle :
    (t : ℕ) (x : Spawned) (id : Text) (a : Attempt) (db : Db)
    → IsSingle t db.passes
    → IsSingle t (launch x id a db).passes
unfolding launch set_attempt
launch-IsSingle t raised id a db s = s
launch-IsSingle t (answered task_id) id a db s =
    map-IsSingle t _ (set_attempt-Keeps id task_id a) db.passes s

finish-IsSingle :
    (t : ℕ) (id : Text) (x : Status) (now : ℕ) (ps : List RouterPass)
    → is_running x ≡ false
    → IsSingle t ps
    → IsSingle t (finish_pass id x now ps)
unfolding finish_pass
finish-IsSingle t id x now ps h s = map-IsSingle t _ (finish-Keeps id x now h) ps s

-- A pass is started only while the last one is not running.
Idle : TickState → Type 0
Idle s = (p : RouterPass) → s.last_pass ≡ some p → is_running p.status ≡ false

pending-start : (p : RouterPass) (live : Bool) → pending_action p live ≢ start
unfolding pending_action
pending-start p live e = ground (arith, e)

decide-start : (s : TickState) → decide s ≡ start → Idle s
unfolding decide Idle
decide-start s e p n = elim (Bool-cases (is_running p.status)) [
  | inr r ↦ r
  | inl r ↦ absurd (ground (arith, n, r, e, pending-start p s.child_running))
]

no_pass : (ps : List RouterPass) → latest_pass ps ≡ none → ps ≡ []
unfolding latest_pass
no_pass [] e = refl
no_pass (p ∷ ps) e = elim (Option-cases (latest_pass ps)) [
  | inl n ↦ absurd (ground (arith, n, e))
  | inr (q, n) ↦ absurd (ground (arith, n, e))
]

idle-running :
    (t : ℕ) (ps : List RouterPass)
    → ((p : RouterPass) → latest_pass ps ≡ some p → is_running p.status ≡ false)
    → IsSingle t ps
    → running_passes ps ≡ 0
idle-running t ps h s = elim (Option-cases (latest_pass ps)) [
  | inl n ↦ rw (no_pass ps n) refl
  | inr (p, n) ↦ s.is_last p n (h p n)
]

act-IsSingle :
    (i : Inputs) (s : TickState) (a : Action) (db : Db)
    → s.last_pass ≡ latest_pass db.passes
    → (a ≡ start → Idle s)
    → IsSingle s.now db.passes
    → IsSingle s.now (act i s a db).passes
unfolding act Idle
act-IsSingle i s skip db l r c = c
act-IsSingle i s wait db l r c = c
act-IsSingle i s backoff db l r c = c
act-IsSingle i s idle db l r c = c
act-IsSingle i s rerun db l r c = elim (Option-cases s.last_pass) [
  | inl n ↦ rw n c
  | inr (p, n) ↦ rw n (launch-IsSingle s.now i.spawned p.pass_id fallback db c)
]
act-IsSingle i s fail db l r c = elim (Option-cases s.last_pass) [
  | inl n ↦ rw n c
  | inr (p, n) ↦ rw n (finish-IsSingle s.now p.pass_id failed s.now db.passes refl c)
]
act-IsSingle i s start db l r c = elim (Bool-cases (is_empty i.refreshed)) [
  | inl e ↦ rw e c
  | inr e ↦ rw e (
      launch-IsSingle s.now i.spawned i.new_id primary
        (record db { passes = open_pass i.new_id s.roles s.now db.passes })
        (open-IsSingle i.new_id s.roles s.now db.passes
          (idle-running s.now db.passes (λ p n. r refl p (l ∙ n)) c) c))
]

Run-IsSingle : {t : ℕ} {db : Db} → Run t db → IsSingle t db.passes
unfolding record_decisions finish_pass
Run-IsSingle (begin tasks) = record {
  at_most_one = omega arith;
  is_last = λ p e r. refl;
  in_past = tt;
}
Run-IsSingle (tick {t = t} {db = db} i r l f) =
    let c = later-IsSingle t i.now db.passes l (Run-IsSingle r) in
    tick-cases (λ d. IsSingle i.now d.passes) i db c (λ d. c)
      (λ s d ts e n o.
        subst (λ u. IsSingle u (act i s (decide s) (record db { tasks = ts; daemons = d })).passes)
          n
          (act-IsSingle i s (decide s) (record db { tasks = ts; daemons = d }) e (decide-start s)
            (subst (λ u. IsSingle u db.passes) (sym n) c)))
Run-IsSingle (write {t = t} {db = db} c options now id decisions r l) =
    let k = later-IsSingle t now db.passes l (Run-IsSingle r) in
    write-cases (λ d. IsSingle now d.passes) c options now id decisions db k
      (λ p ds g x v. finish-IsSingle now p.pass_id complete now db.passes refl k)
Run-IsSingle (others tasks r) = Run-IsSingle r

-- Whatever ticks, writes and ends of children happen, at most one pass is running.
pub Run-running : (t : ℕ) (db : Db) → Run t db → running_passes db.passes ≤ 1
Run-running t db r = (Run-IsSingle r).at_most_one
