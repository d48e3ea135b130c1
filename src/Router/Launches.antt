-- ===== src/Router/Launches.antt =====
-- The launches of a pass.
use thread_keeper.Common.{
  Bool-cases, Option-cases, Text, is_empty, ℕ, ◌≤◌, ◌≡◌, refl, sym, ◌∙◌, inl, inr, Bool, some, List,
  arith,
}
use thread_keeper.Router.Counted.{
  IsCounted, launch_primary-IsCounted, launch_fallback-IsCounted, finish-IsCounted,
}
use thread_keeper.Router.Attempts.{launched, fallbacks-le}
use thread_keeper.Router.Runs.{others, write, tick, begin, Run, number, tick-cases, write-cases}
use thread_keeper.Router.Tick.{
  start, fail, idle, backoff, wait, skip, Action, Task, Db, TickState, pending_action, decide, act,
  Inputs, rerun, record_decisions,
}
use thread_keeper.Router.Routes.{
  failed, is_running, primary, fallback, RouterPass, latest_pass, complete,
}
use thread_keeper.Router.Decisions.{Decision}
use thread_keeper.Daemon.State.{State}

-- A rerun is that of the last pass, at its primary settings.
abbrev Reruns : TickState → Type 0
Reruns s = (p : RouterPass) × (s.last_pass ≡ some p) × (p.attempt ≡ primary)

pending-rerun : (p : RouterPass) (live : Bool) → pending_action p live ≡ rerun → p.attempt ≡ primary
unfolding pending_action
pending-rerun p live e = ground (arith, e)

decide-rerun : (s : TickState) → decide s ≡ rerun → Reruns s
unfolding decide
decide-rerun s e = elim (Option-cases s.last_pass) [
  | inl n ↦ absurd (ground (arith, n, e))
  | inr (p, n) ↦ elim (Bool-cases (is_running p.status)) [
    | inl r ↦ (p, n, pending-rerun p s.child_running (ground (arith, n, r, e)))
    | inr r ↦ absurd (ground (arith, n, r, e))
  ]
]

act-IsCounted :
    (i : Inputs) (s : TickState) (a : Action) (db : Db)
    → s.last_pass ≡ latest_pass db.passes
    → (a ≡ rerun → Reruns s)
    → number i.new_id db.passes ≡ 0
    → IsCounted db
    → IsCounted (act i s a db)
unfolding act
act-IsCounted i s skip db l r f c = c
act-IsCounted i s wait db l r f c = c
act-IsCounted i s backoff db l r f c = c
act-IsCounted i s idle db l r f c = c
act-IsCounted i s rerun db l r f c =
    let (p, e, a) = r refl in rw e (launch_fallback-IsCounted i.spawned p db (sym l ∙ e) a c)
act-IsCounted i s fail db l r f c = elim (Option-cases s.last_pass) [
  | inl n ↦ rw n c
  | inr (p, n) ↦ rw n (finish-IsCounted p.pass_id failed s.now db c)
]
act-IsCounted i s start db l r f c = elim (Bool-cases (is_empty i.refreshed)) [
  | inl e ↦ rw e c
  | inr e ↦ rw e (launch_primary-IsCounted i.spawned i.new_id s.roles s.now db f c)
]

fields-IsCounted :
    (db : Db) (ts : List Task) (d : State)
    → IsCounted db
    → IsCounted (record db { tasks = ts; daemons = d })
fields-IsCounted db ts d c = record {
  is_unique = c.is_unique;
  of_primary = c.of_primary;
  of_fallback = c.of_fallback;
}

recorded-IsCounted :
    (p : RouterPass) (ds : List Decision) (now : ℕ) (db : Db)
    → IsCounted db
    → IsCounted (record_decisions p ds now db)
unfolding record_decisions
recorded-IsCounted p ds now db c =
    let f = finish-IsCounted p.pass_id complete now db c in
    record { is_unique = f.is_unique; of_primary = f.of_primary; of_fallback = f.of_fallback }

Run-IsCounted : {t : ℕ} {db : Db} → Run t db → IsCounted db
Run-IsCounted (begin tasks) = record {
  is_unique = λ j. omega arith;
  of_primary = λ j. omega arith;
  of_fallback = λ j. omega arith;
}
Run-IsCounted (tick {db = db} i r l f) =
    let c = Run-IsCounted r in
    tick-cases IsCounted i db c (λ d. fields-IsCounted db db.tasks d c)
      (λ s d ts e n o.
        act-IsCounted i s (decide s) (record db { tasks = ts; daemons = d }) e (decide-rerun s) f
          (fields-IsCounted db ts d c))
Run-IsCounted (write {db = db} c options now id decisions r l) =
    let k = Run-IsCounted r in
    write-cases IsCounted c options now id decisions db k
      (λ p ds g x v. recorded-IsCounted p ds now db k)
Run-IsCounted (others {db = db} tasks r) = fields-IsCounted db tasks db.daemons (Run-IsCounted r)

-- Whatever ticks, writes and ends of children happen, a pass launches at most one child on the
-- primary settings and at most one on the fallback.
pub Run-launched :
    (t : ℕ) (db : Db)
    → Run t db
    → (id : Text) → (launched id primary db.launches ≤ 1) × (launched id fallback db.launches ≤ 1)
Run-launched t db r id =
    let c = Run-IsCounted r in
    (
      omega (arith, c.of_primary id, c.is_unique id),
      omega (arith, c.of_fallback id, fallbacks-le id db.passes, c.is_unique id),
    )
