-- ===== src/Router/Decisions.antt =====
-- model_routes.py: the validation of a set of decisions.
use thread_keeper.Common.{
  ltb, leb, if◌then◌else◌, ◌==◌, nat_eq, pair_eq, length, filter, contains, Text, codes, text_eq,
  is_empty, text_ltb, strip, lower, ℕ, ◌+◌, Bool, not, ◌&&◌, none, some, List, [], ◌∷◌, ◌++◌, map,
}
use thread_keeper.Router.Routes.{Options, Route, RouteProblem, route_problem, router_role}

-- What `d.get(f)` gives: nothing, a text, or another value with its `str`.
pub data Field : Type 0 where
  absent : Field
  text : Text → Field
  other : Text → Field

pub record Fields : Type 0 where
  pub role : Field
  pub cli : Field
  pub model : Field
  pub effort : Field
  pub reason : Field

-- An element of the list of decisions.
pub data Decision : Type 0 where
  not_object : Decision
  object : Fields → Decision

abbrev pub clean : Text → Text
clean t = lower (strip t)

-- `str(d.get("role", ""))`
abbrev pub shown : Field → Text
shown absent = []
shown (text t) = t
shown (other t) = t

unfoldable pub roles_of : List Decision → List Text
roles_of [] = []
roles_of (not_object ∷ ds) = roles_of ds
roles_of (object f ∷ ds) = clean (shown f.role) ∷ roles_of ds

-- `sorted({...})`
unfoldable pub insert_text : Text → List Text → List Text
insert_text t [] = t ∷ []
insert_text t (u ∷ us) =
    let rest = insert_text t us in
    if t == u then u ∷ us else if text_ltb t u then t ∷ u ∷ us else u ∷ rest

unfoldable pub sorted_set : List Text → List Text
sorted_set [] = []
sorted_set (t ∷ ts) = insert_text t (sorted_set ts)

unfoldable pub count : Text → List Text → ℕ
count t [] = 0
count t (u ∷ us) = (if u == t then 1 else 0) + count t us

abbrev pub difference : List Text → List Text → List Text
difference ts us = filter (λ t. not (contains us t)) ts

pub data Problem : Type 0 where
  not_an_object : Problem
  missing_fields : List Text → Problem
  routes_itself : Problem
  bad_triple : RouteProblem → Problem
  bad_reason : Problem

pub data Refusal : Type 0 where
  no_catalog : Refusal
  duplicate_roles missing_roles extra_roles : List Text → Refusal
  decision_problem : ℕ → Problem → Refusal

-- `if roles: errors.append(...)`
abbrev pub note_roles : (List Text → Refusal) → List Text → List Refusal → List Refusal
note_roles refusal [] rest = rest
note_roles refusal (t ∷ ts) rest = refusal (t ∷ ts) ∷ rest

unfoldable pub role_set_errors : List Decision → List Text → List Refusal
role_set_errors ds expected =
    let roles = roles_of ds in
    note_roles duplicate_roles (sorted_set (filter (λ r. ltb 1 (count r roles)) roles)) (
      note_roles missing_roles (sorted_set (difference expected roles))
        (note_roles extra_roles (sorted_set (difference roles expected)) []))

abbrev pub missing_field : Text → Field → List Text
missing_field name (text t) = []
missing_field name _ = name ∷ []

unfoldable pub missing : Fields → List Text
missing f =
    missing_field (codes "role") f.role
    ++ missing_field (codes "cli") f.cli
    ++ missing_field (codes "model") f.model
    ++ missing_field (codes "effort") f.effort
    ++ missing_field (codes "reason") f.reason

abbrev pub max_reason : ℕ
max_reason = 500

abbrev pub has_reason : Text → Bool
has_reason reason = leb 1 (length (strip reason)) && leb (length (strip reason)) max_reason

-- The problems of a decision whose fields are texts.
unfoldable pub text_problems : Options → Text → Text → Text → Text → Text → List Problem
text_problems options role cli model effort reason =
    let reasons : List Problem = if has_reason reason then [] else bad_reason ∷ [] in
    let triples : List Problem =
      elim (route_problem (clean cli) (strip model) (clean effort) options) [
        | none ↦ reasons
        | some p ↦ bad_triple p ∷ reasons
      ] in
    if clean role == router_role then routes_itself ∷ triples else triples

unfoldable pub decision_problems : Options → Decision → List Problem
decision_problems options not_object = not_an_object ∷ []
decision_problems options (object f) =
    if not (is_empty (missing f))
    then missing_fields (missing f) ∷ []
    else text_problems options (shown f.role) (shown f.cli) (shown f.model) (shown f.effort)
        (shown f.reason)

-- `for index, decision in enumerate(decisions)`
unfoldable pub indexed_problems : Options → ℕ → List Decision → List Refusal
indexed_problems options n [] = []
indexed_problems options n (d ∷ ds) =
    map (decision_problem n) (decision_problems options d) ++ indexed_problems options (n + 1) ds

unfoldable pub decision_errors : List Decision → List Text → Options → List Refusal
decision_errors ds expected options =
    if is_empty options
    then no_catalog ∷ []
    else role_set_errors ds expected ++ indexed_problems options 0 ds

-- `_normalized`, and the rest of `insert_routes` for a decision
unfoldable pub normalized : Text → ℕ → Fields → Route
normalized pass_id now f = record {
  role = clean (shown f.role);
  cli = clean (shown f.cli);
  model = strip (shown f.model);
  effort = clean (shown f.effort);
  reason = strip (shown f.reason);
  pass_id = pass_id;
  decided_at = now;
}

unfoldable pub new_routes : Text → ℕ → List Decision → List Route
new_routes pass_id now [] = []
new_routes pass_id now (not_object ∷ ds) = new_routes pass_id now ds
new_routes pass_id now (object f ∷ ds) = normalized pass_id now f ∷ new_routes pass_id now ds

unfoldable pub insert_routes : List Route → List Decision → Text → ℕ → List Route
insert_routes table ds pass_id now = table ++ new_routes pass_id now ds
