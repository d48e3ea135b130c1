-- ===== src/Router/Tests.antt =====
-- The theorems of the router at one pass for two roles.
use thread_keeper.Common.{
  Text, codes, strip, lower, ℕ, ◌≤◌, ◌≡◌, refl, Bool, true, false, none, some, List, [], ◌∷◌, arith,
}
use thread_keeper.Daemon.State.{claim_pass, last_run_at}
use thread_keeper.Router.Routes.{
  stored_route, latest_route, recent_routes, ordered, set_attempt, open_pass, place,
  last_complete_at, route_problem, efforts_for, primary, fallback, failed, RouterPass, Options,
  latest_pass, active_route, router_role, opened,
}
use thread_keeper.Router.Decisions.{
  role_set_errors, sorted_set, roles_of, count, indexed_problems, decision_problems, missing,
  text_problems, Fields, text, Decision, object, decision_errors,
}
use thread_keeper.Router.Accepted.{Accepted}
use thread_keeper.Router.Tick.{
  locked_tick, act, decide, tick_state, in_backoff, due, launch, poll_interval, child_running,
  task_of, pending_action, Db, Inputs, answered, run_router_pass, Caller, model_route_write,
}
use thread_keeper.Router.Runs.{Run, begin, tick}
use thread_keeper.Router.Attempts.{launched}
use thread_keeper.Router.Launches.{Run-launched}
use thread_keeper.Router.Latest.{running_passes}
use thread_keeper.Router.Single.{Run-running}
use thread_keeper.Daemon.State.{claim_pass, last_run_at}

abbrev options : Options
options =
    (
      codes "claude",
      record {
        models = codes "opus" ∷ codes "haiku" ∷ [];
        model_efforts = [];
        efforts = codes "high" ∷ codes "low" ∷ [];
        effort_in_model = false;
      },
    )
    ∷ []

abbrev decision : Text → Text → Fields
decision role model = record {
  role = text role;
  cli = text (codes "claude");
  model = text model;
  effort = text (codes "low");
  reason = text (codes "cheap");
}

abbrev decisions : List Decision
decisions =
    object (decision (codes " Curator") (codes "haiku"))
    ∷ object (decision (codes "shadow") (codes "opus"))
    ∷ []

abbrev inputs : ℕ → Bool → Inputs
inputs now live = record {
  force = false;
  scheduled = true;
  claim_fails = false;
  locked = true;
  interval_s = 604800;
  roles = codes "curator" ∷ codes "shadow" ∷ [];
  options = options;
  refreshed = options;
  alive = λ t. live;
  new_id = codes "mr-1";
  spawned = answered (codes "tk_1");
  now = now;
}

abbrev empty_db : Db
empty_db = record {
  routes = [];
  passes = [];
  tasks = record { id = codes "tk_1"; ended_at = none } ∷ [];
  daemons = [];
  launches = [];
}

abbrev started : Db
started = run_router_pass (inputs 100000 true) empty_db

abbrev caller : Caller
caller = record {
  spawned_child = true;
  write_origin = codes "model_router";
  pass_id_env = codes "mr-1";
}

abbrev expected : List Text
expected = codes "curator" ∷ codes "shadow" ∷ []

accepted_run : decision_errors decisions expected options ≡ []
unfolding decision_errors role_set_errors sorted_set roles_of count lower strip indexed_problems
    decision_problems missing text_problems router_role route_problem efforts_for
accepted_run = refl

the_run : Run 100000 started
the_run =
    tick (inputs 100000 true) (begin {t = 0} (record { id = codes "tk_1"; ended_at = none } ∷ []))
      (omega arith) refl

launched_run : launched (codes "mr-1") primary started.launches ≡ 1
unfolding run_router_pass claim_pass last_run_at locked_tick act decide tick_state latest_pass
    in_backoff due active_route stored_route router_role latest_route recent_routes ordered launch
    set_attempt open_pass place poll_interval child_running task_of pending_action last_complete_at
launched_run = refl

Run-launched_example :
    (launched (codes "mr-1") primary started.launches ≤ 1)
    × (launched (codes "mr-1") fallback started.launches ≤ 1)
Run-launched_example = Run-launched 100000 started the_run (codes "mr-1")

Run-running_example : running_passes started.passes ≤ 1
Run-running_example = Run-running 100000 started the_run

abbrev the_pass : RouterPass
the_pass = record (opened (codes "mr-1") expected 100000) { task_id = codes "tk_1" }

abbrev with_pass : Db
with_pass = record empty_db { passes = the_pass ∷ [] }

started_run : started.passes ≡ the_pass ∷ []
unfolding run_router_pass claim_pass last_run_at locked_tick act decide tick_state latest_pass
    in_backoff due active_route stored_route router_role latest_route recent_routes ordered launch
    set_attempt open_pass place poll_interval child_running task_of pending_action last_complete_at
started_run = refl

abbrev after_write : Db
after_write = (model_route_write caller options 100050 (codes "mr-1") (some decisions) with_pass).1

abbrev failed_db : Db
failed_db = record empty_db {
  passes = record the_pass { attempt = fallback; status = failed; ended_at = some 100200 } ∷ [];
}
