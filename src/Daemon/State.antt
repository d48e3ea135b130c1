-- ===== src/Daemon/State.antt =====
use thread_keeper.Common.{
  leb, if◌then◌else◌, nat_eq, pair_eq, lookup, assign, Text, text_eq, ℕ, ◌+◌, ◌*◌, Bool, true,
  false, not, Option, none, some, List,
}

-- daemon_state.py: `claim_pass` and `last_run_at`, over the table `daemon_state`.
-- `name → last_run_at`
abbrev pub State : Type 0
State = List (Text × ℕ)

unfoldable pub last_run_at : Text → State → Option ℕ
last_run_at name s = lookup name s

-- `excluded.last_run_at - daemon_state.last_run_at >= gap`, with the gap of 0.8 of the interval
-- written without fractions.
abbrev pub is_due : ℕ → ℕ → Option ℕ → Bool
is_due interval ts none = true
is_due interval ts (some last) = leb (4 * interval + 5 * last) (5 * ts)

-- The result says whether to run the pass. `fails` stands for an error of the storage, which grants
-- the pass and stores nothing.
abbrev pub claim_by : Bool → Bool → Bool → Text → ℕ → State → Bool × State
claim_by fails scheduled due name ts s =
    if fails
    then (true, s)
    else if not scheduled
    then (true, assign name ts s)
    else if due
    then (true, assign name ts s)
    else (false, s)

unfoldable pub claim_pass : Bool → Bool → Text → ℕ → ℕ → State → Bool × State
claim_pass fails scheduled name interval ts s =
    claim_by fails scheduled (is_due interval ts (last_run_at name s)) name ts s
