-- ===== src/Github/Tests.antt =====
-- The theorems of the shared cooldown at one limited account.
use thread_keeper.Common.{
  Text, codes, lower, ℕ, ◌≡◌, refl, true, false, none, some, List, [], ◌∷◌, arith,
}
use thread_keeper.Github.Observe.{
  Response, looks_secondary_limited, observe, has_part, exponential_backoff,
}
use thread_keeper.Github.Ledger.{
  Ledger, previous_attempts, cooldown_left, record_response, run_gh, is_blocked, next_row,
}
use thread_keeper.Github.Cooldown.{no_more, then_request, run_gh-resumes}
use thread_keeper.Github.Streak.{Secondary}

abbrev account : Text
account = codes "github.com:gh-default"

abbrev fresh : Ledger
fresh = record { rows = []; events = [] }

abbrev limited : Response
limited = record {
  status_code = 403;
  remaining = none;
  reset_at = none;
  has_retry_after = false;
  retry_after = none;
  body = codes "You have exceeded a secondary rate limit";
}

abbrev times : List ℕ
times = 1000 ∷ 1100 ∷ []

abbrev after_one : Ledger
after_one = (run_gh account 1000 (some limited) fresh).1

run_gh-resumes_example : (run_gh account 5000 none after_one).0 ≡ some none
run_gh-resumes_example =
    run_gh-resumes 1000 5000 account none fresh after_one tt
      (then_request account 1000 (some limited) no_more (omega arith)) (omega arith)

-- Until then the cooldown blocks the request.
run_gh_blocked : (run_gh account 1001 none after_one).0 ≡ none
unfolding run_gh is_blocked cooldown_left record_response observe looks_secondary_limited has_part
    lower next_row exponential_backoff previous_attempts
run_gh_blocked = refl

limited_run : looks_secondary_limited limited ≡ true
unfolding looks_secondary_limited has_part lower
limited_run = refl

limited-Secondary : Secondary limited
limited-Secondary = record { secondary = limited_run; no_retry_after = refl; no_remaining = refl }
