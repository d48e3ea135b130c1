-- ===== src/Router/Routes.antt =====
-- model_routes.py: the tables of routes and passes, and the options of the catalog.
use thread_keeper.Common.{
  ltb, if◌then◌else◌, ◌==◌, nat_eq, pair_eq, take, filter, contains, is_none, lookup, Text, codes,
  text_eq, is_empty, ℕ, max, Bool, true, false, not, ◌&&◌, ◌||◌, Option, none, some, List, [], ◌∷◌,
  ◌++◌, map,
}

pub record Route : Type 0 where
  pub role : Text
  pub cli : Text
  pub model : Text
  pub effort : Text
  pub reason : Text
  pub pass_id : Text
  pub decided_at : ℕ

pub data Attempt : Type 0 where
  primary fallback : Attempt

pub data Status : Type 0 where
  running complete failed : Status

abbrev pub is_running : Status → Bool
is_running running = true
is_running _ = false

abbrev pub is_failed : Status → Bool
is_failed failed = true
is_failed _ = false

pub record RouterPass : Type 0 where
  pub pass_id : Text
  pub roles : List Text
  pub attempt : Attempt
  pub task_id : Text
  pub status : Status
  pub started_at : ℕ
  pub ended_at : Option ℕ

-- `effort_in_model` is `effort_mode == "model"`.
pub record CliOptions : Type 0 where
  pub models : List Text
  pub model_efforts : List (Text × List Text)
  pub efforts : List Text
  pub effort_in_model : Bool

abbrev pub Options : Type 0
Options = List (Text × CliOptions)

-- `self.model_efforts.get(model) or self.efforts`
unfoldable pub efforts_for : CliOptions → Text → List Text
efforts_for o model = elim (lookup model o.model_efforts) [
  | none ↦ o.efforts
  | some es ↦ if is_empty es then o.efforts else es
]

pub data RouteProblem : Type 0 where
  cli_not_in_catalog model_not_offered effort_must_be_empty effort_not_allowed : RouteProblem

-- `none` is the empty text.
unfoldable pub route_problem : Text → Text → Text → Options → Option RouteProblem
route_problem cli model effort options = elim (lookup cli options) [
  | none ↦ some cli_not_in_catalog
  | some o ↦
      if not (contains o.models model)
      then some model_not_offered
      else if o.effort_in_model
      then (if is_empty effort then none else some effort_must_be_empty)
      else if not (contains (efforts_for o model) effort)
      then some effort_not_allowed
      else none
]

unfoldable pub route_is_valid : Route → Options → Bool
route_is_valid r options =
    is_empty options || is_none (route_problem r.cli r.model r.effort options)

-- A route among those in the order of `decided_at DESC, id DESC`.
unfoldable pub place : Route → List Route → List Route
place r [] = r ∷ []
place r (q ∷ qs) =
    let rest = place r qs in if ltb r.decided_at q.decided_at then q ∷ rest else r ∷ q ∷ qs

unfoldable pub ordered : List Route → List Route → List Route
ordered done [] = done
ordered done (r ∷ rs) = ordered (place r done) rs

-- The table is in the order of its ids.
unfoldable pub recent_routes : List Route → Text → ℕ → List Route
recent_routes table role limit = take limit (ordered [] (filter (λ r. r.role == role) table))

abbrev pub first {ℓ} : {A : Type ℓ} → List A → Option A
first [] = none
first (a ∷ rest) = some a

unfoldable pub latest_route : List Route → Text → Option Route
latest_route table role = first (recent_routes table role 1)

unfoldable pub router_role : Text
router_role = codes "model_router"

unfoldable pub stored_route : Bool → List Route → Text → Option Route
stored_route enabled table role =
    if role == router_role || not enabled then none else latest_route table role

unfoldable pub active_route : Bool → Options → List Route → Text → Option Route
active_route enabled options table role = elim (stored_route enabled table role) [
  | none ↦ none
  | some r ↦ if route_is_valid r options then some r else none
]

unfoldable pub stale_route : Bool → Options → List Route → Text → Option Route
stale_route enabled options table role = elim (stored_route enabled table role) [
  | none ↦ none
  | some r ↦ if route_is_valid r options then none else some r
]

unfoldable pub get_pass : Text → List RouterPass → Option RouterPass
get_pass id [] = none
get_pass id (p ∷ ps) = if p.pass_id == id then some p else get_pass id ps

-- `ORDER BY started_at DESC, rowid DESC LIMIT 1`; the table is in the order of its rowids.
unfoldable pub latest_pass : List RouterPass → Option RouterPass
latest_pass [] = none
latest_pass (p ∷ ps) = elim (latest_pass ps) [
  | none ↦ some p
  | some q ↦ if ltb q.started_at p.started_at then some p else some q
]

-- `sorted(roles)` keeps the roles; their order is not read again.
abbrev pub opened : Text → List Text → ℕ → RouterPass
opened id roles now = record {
  pass_id = id;
  roles = roles;
  attempt = primary;
  task_id = [];
  status = running;
  started_at = now;
  ended_at = none;
}

unfoldable pub open_pass : Text → List Text → ℕ → List RouterPass → List RouterPass
open_pass id roles now ps = ps ++ opened id roles now ∷ []

unfoldable pub set_attempt : Text → Attempt → Text → List RouterPass → List RouterPass
set_attempt id attempt task_id ps =
    map (λ p. if p.pass_id == id then record p { attempt = attempt; task_id = task_id } else p) ps

unfoldable pub finish_pass : Text → Status → ℕ → List RouterPass → List RouterPass
finish_pass id status now ps =
    map
      (λ p.
        if p.pass_id == id && is_running p.status
        then record p { status = status; ended_at = some now }
        else p)
      ps

-- `SELECT MAX(ended_at) ... WHERE status='complete'`
unfoldable pub last_complete_at : List RouterPass → Option ℕ
last_complete_at [] = none
last_complete_at (p ∷ ps) =
    let rest = last_complete_at ps in
    elim p.status [
      | complete ↦ elim p.ended_at [
        | none ↦ rest
        | some t ↦ elim rest [ none ↦ some t | some u ↦ some (max t u) ]
      ]
      | running ↦ rest
      | failed ↦ rest
    ]
