-- ===== src/Github/Ledger.antt =====
-- github_budget.py: the shared row of an account, and the gate before a request.
use thread_keeper.Common.{
  ltb, if◌then◌else◌, nat_eq, pair_eq, is_none, lookup, assign, Text, text_eq, ℕ, ◌+◌, ◌-◌, min,
  max, Bool, not, ◌||◌, Option, none, some, List, [], ◌∷◌, ◌++◌,
}
use thread_keeper.Github.Observe.{
  Response, Reason, ok, no_reason, primary_rate_limit, has_reason, Observation, observe,
  exhausted_until, backoff_cap,
}

-- A row of `github_rate_budget`.
pub record Budget : Type 0 where
  pub remaining : Option ℕ
  pub reset_at : Option ℕ
  pub cooldown_until : ℕ
  pub backoff_attempts : ℕ
  pub last_status : ℕ
  pub last_reason : Reason
  pub updated_at : ℕ

-- The table, by account, and the rows of `events` that stand for its changes.
pub record Ledger : Type 0 where
  pub rows : List (Text × Budget)
  pub events : List (Text × Budget)

abbrev pub attempts_of : Option Budget → ℕ
attempts_of none = 0
attempts_of (some b) = b.backoff_attempts

-- `_previous_attempts`
unfoldable pub previous_attempts : Text → Ledger → ℕ
previous_attempts account l = attempts_of (lookup account l.rows)

-- `cooldown_left_s` of `github_budget_state`
abbrev pub left_of : ℕ → Option Budget → ℕ
left_of now none = 0
left_of now (some b) = b.cooldown_until - now

unfoldable pub cooldown_left : Text → ℕ → Ledger → ℕ
cooldown_left account now l = left_of now (lookup account l.rows)

-- `github_budget_preflight`: true where it returns the text that blocks a request.
unfoldable pub is_blocked : Text → ℕ → Ledger → Bool
is_blocked account now l = ltb 0 (cooldown_left account now l)

abbrev pub has_budget_data : Response → Observation → Bool
has_budget_data r obs =
    not (is_none r.remaining)
    || not (is_none r.reset_at)
    || has_reason obs.reason
    || ltb 0 r.status_code

-- The row that an observation makes.
abbrev pub row_of : ℕ → Response → ℕ → Reason → ℕ → Budget
row_of now r cooldown reason attempts = record {
  remaining = r.remaining;
  reset_at = r.reset_at;
  cooldown_until = cooldown;
  backoff_attempts = attempts;
  last_status = r.status_code;
  last_reason = reason;
  updated_at = now;
}

abbrev pub settled : ℕ → ℕ → Response → Option ℕ → Budget
settled now previous r none = row_of now r 0 ok 0
settled now previous r (some reset) =
    row_of now r (min reset (now + backoff_cap)) primary_rate_limit (max 1 previous)

unfoldable pub next_row : ℕ → ℕ → Response → Observation → Budget
next_row now previous r obs =
    if has_reason obs.reason
    then row_of now r obs.cooldown_until obs.reason obs.backoff_attempts
    else if ltb r.status_code 400
    then settled now previous r (exhausted_until now r.remaining r.reset_at)
    else row_of now r obs.cooldown_until no_reason previous

-- `record_github_response`
unfoldable pub record_response : Text → ℕ → Response → Ledger → Ledger
record_response account now r l =
    let previous = previous_attempts account l in
    let obs = observe now previous r in
    let row = next_row now previous r obs in
    if has_budget_data r obs
    then record l { rows = assign account row l.rows; events = l.events ++ ((account, row) ∷ []) }
    else l

-- `run_gh`, for a runner that answers with a response, or with none that `record_gh_result` can
-- read. The result is the response, or nothing where the cooldown blocks the request.
abbrev pub recorded : Text → ℕ → Option Response → Ledger → Ledger
recorded account now none l = l
recorded account now (some r) l = record_response account now r l

unfoldable pub run_gh : Text → ℕ → Option Response → Ledger → Option (Option Response) × Ledger
run_gh account now answer l =
    if is_blocked account now l then (none, l) else (some answer, recorded account now answer l)
