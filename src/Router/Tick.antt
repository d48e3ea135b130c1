-- ===== src/Router/Tick.antt =====
-- model_router.py: one tick of the router; tools/model_router.py: `model_route_write`.
use thread_keeper.Common.{
  ltb, leb, if◌then◌else◌, ◌==◌, nat_eq, pair_eq, any, is_none, Text, codes, text_eq, is_empty,
  strip, ℕ, ◌-◌, Bool, true, false, not, ◌&&◌, ◌||◌, Option, none, some, List, [], ◌∷◌, map,
}
use thread_keeper.Daemon.State.{State, claim_pass}
use thread_keeper.Router.Routes.{
  Attempt, primary, fallback, Status, complete, failed, is_running, is_failed, RouterPass, Options,
  Route, router_role, active_route, get_pass, latest_pass, open_pass, set_attempt, finish_pass,
  last_complete_at,
}
use thread_keeper.Router.Decisions.{Decision, Refusal, decision_errors, insert_routes}

-- A row of `tasks`.
pub record Task : Type 0 where
  pub id : Text
  pub ended_at : Option ℕ

-- The tables that the router reads and writes, and the launches of children so far.
pub record Db : Type 0 where
  pub routes : List Route
  pub passes : List RouterPass
  pub tasks : List Task
  pub daemons : State
  pub launches : List (Text × Attempt)

pub record TickState : Type 0 where
  pub roles : List Text
  pub last_pass : Option RouterPass
  pub child_running : Bool
  pub last_complete_at : Option ℕ
  pub missing_route : Bool
  pub now : ℕ
  pub interval_s : ℕ
  pub force : Bool

pub data Action : Type 0 where
  skip wait rerun fail backoff start idle : Action

-- `_BACKOFF_S`
abbrev pub backoff_s : ℕ
backoff_s = 21600

abbrev pub default_zero : Option ℕ → ℕ
default_zero none = 0
default_zero (some n) = n

unfoldable pub pending_action : RouterPass → Bool → Action
pending_action p child_running =
    if child_running then wait else elim p.attempt [ primary ↦ rerun | fallback ↦ fail ]

-- Times do not go back, so that the difference is not negative.
unfoldable pub in_backoff : Option RouterPass → ℕ → Bool
in_backoff none now = false
in_backoff (some p) now =
    if not (is_failed p.status) then false else ltb (now - default_zero p.ended_at) backoff_s

unfoldable pub due : TickState → Bool
due s =
    s.missing_route
    || elim s.last_complete_at [ none ↦ true | some t ↦ leb s.interval_s (s.now - t) ]

abbrev pub is_pending : Option RouterPass → Bool
is_pending none = false
is_pending (some p) = is_running p.status

unfoldable pub decide : TickState → Action
decide s =
    let rest =
      if s.force
      then start
      else if in_backoff s.last_pass s.now
      then backoff
      else if due s
      then start
      else idle in
    if is_empty s.roles then skip else elim s.last_pass [
      | none ↦ rest
      | some p ↦ if is_running p.status then pending_action p s.child_running else rest
    ]

unfoldable pub task_of : Text → List Task → Option Task
task_of id [] = none
task_of id (t ∷ ts) = if t.id == id then some t else task_of id ts

abbrev pub end_task : Text → ℕ → List Task → List Task
end_task id now ts =
    map (λ t. if t.id == id && is_none t.ended_at then record t { ended_at = some now } else t) ts

-- `_child_running`: the answer, and the tasks after the reap. `alive` tells whether the process of a
-- task lives.
unfoldable pub child_running : (Text → Bool) → Text → ℕ → List Task → Bool × List Task
child_running alive id now ts = if is_empty id then (false, ts) else elim (task_of id ts) [
  | none ↦ (false, ts)
  | some t ↦
      if not (is_none t.ended_at)
      then (false, ts)
      else if alive id
      then (true, ts)
      else (false, end_task id now ts)
]

-- What a launch comes to: an error before a child exists, or an answer with a task's id, which is
-- empty if no child was launched.
pub data Spawned : Type 0 where
  raised : Spawned
  answered : Text → Spawned

-- What a tick reads from outside the tables.
pub record Inputs : Type 0 where
  pub force : Bool
  pub scheduled : Bool
  pub claim_fails : Bool
  pub locked : Bool
  pub interval_s : ℕ
  pub roles : List Text
  pub options : Options
  pub refreshed : Options
  pub alive : Text → Bool
  pub new_id : Text
  pub spawned : Spawned
  pub now : ℕ

abbrev pub pending_task : Option RouterPass → Text
pending_task none = []
pending_task (some p) = if is_running p.status then p.task_id else []

-- `_tick_state`
unfoldable pub tick_state : Inputs → Db → TickState × Db
tick_state i db =
    let last = latest_pass db.passes in
    let (live, tasks) = child_running i.alive (pending_task last) i.now db.tasks in
    (
      record {
        roles = i.roles;
        last_pass = last;
        child_running = live;
        last_complete_at = last_complete_at db.passes;
        missing_route =
            any (λ r. is_none (active_route (ltb 0 i.interval_s) i.options db.routes r)) i.roles;
        now = i.now;
        interval_s = i.interval_s;
        force = i.force;
      },
      record db { tasks = tasks },
    )

unfoldable pub launch : Spawned → Text → Attempt → Db → Db
launch raised id attempt db = db
launch (answered task_id) id attempt db = record db {
  passes = set_attempt id attempt task_id db.passes;
  launches = (id, attempt) ∷ db.launches;
}

-- The entry of `_ACTIONS` for an action.
unfoldable pub act : Inputs → TickState → Action → Db → Db
act i s skip db = db
act i s wait db = db
act i s backoff db = db
act i s idle db = db
act i s rerun db = elim s.last_pass [ none ↦ db | some p ↦ launch i.spawned p.pass_id fallback db ]
act i s fail db = elim s.last_pass [
  | none ↦ db
  | some p ↦ record db { passes = finish_pass p.pass_id failed s.now db.passes }
]
act i s start db =
    if is_empty i.refreshed
    then db
    else launch i.spawned i.new_id primary
        (record db { passes = open_pass i.new_id s.roles s.now db.passes })

-- `_poll_interval`
unfoldable pub poll_interval : List RouterPass → ℕ
poll_interval ps = if is_pending (latest_pass ps) then 30 else 3600

unfoldable pub locked_tick : Inputs → Db → Db
locked_tick i db =
    let (s, db') = tick_state i db in if not i.locked then db else act i s (decide s) db'

unfoldable pub run_router_pass : Inputs → Db → Db
run_router_pass i db =
    let (granted, daemons) =
      claim_pass i.claim_fails i.scheduled (codes "model_router") (poll_interval db.passes) i.now
        db.daemons in
    let claimed = record db { daemons = daemons } in
    if leb i.interval_s 0 && not i.force
    then db
    else if not granted
    then claimed
    else locked_tick i claimed

-- Who calls `model_route_write`: `config` and the environment.
pub record Caller : Type 0 where
  pub spawned_child : Bool
  pub write_origin : Text
  pub pass_id_env : Text

unfoldable pub write_authorized : Caller → Text → Bool
write_authorized c id =
    not (is_empty id)
    && c.spawned_child
    && c.write_origin == router_role
    && strip c.pass_id_env == id

pub data Answer : Type 0 where
  not_authorized not_a_list unknown_pass already_recorded not_running : Answer
  invalid_decisions : List Refusal → Answer
  recorded : Answer

-- `_record`
unfoldable pub record_decisions : RouterPass → List Decision → ℕ → Db → Db
record_decisions p ds now db = record db {
  routes = insert_routes db.routes ds p.pass_id now;
  passes = finish_pass p.pass_id complete now db.passes;
}

abbrev pub is_complete : Status → Bool
is_complete complete = true
is_complete _ = false

-- What the write does to a pass, with the errors of the decisions.
unfoldable pub write_to : RouterPass → List Decision → List Refusal → ℕ → Db → Answer × Db
write_to p ds errors now db =
    if is_complete p.status
    then (already_recorded, db)
    else if not (is_running p.status)
    then (not_running, db)
    else if not (is_empty errors)
    then (invalid_decisions errors, db)
    else (recorded, record_decisions p ds now db)

-- `none` stands for decisions that are no list.
unfoldable pub model_route_write :
    Caller → Options → ℕ → Text → Option (List Decision) → Db → Answer × Db
model_route_write c options now pass_id decisions db =
    if not (write_authorized c (strip pass_id)) then (not_authorized, db) else elim decisions [
      | none ↦ (not_a_list, db)
      | some ds ↦ elim (get_pass (strip pass_id) db.passes) [
        | none ↦ (unknown_pass, db)
        | some p ↦ write_to p ds (decision_errors ds p.roles options) now db
      ]
    ]
