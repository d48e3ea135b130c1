-- ===== src/Github/Observe.antt =====
use thread_keeper.Common.{
  ltb, leb, nat_beq, if◌then◌else◌, is_none, Text, codes, after_prefix, lower, ℕ, ◌+◌, ◌-◌, ◌*◌,
  ◌^◌, min, max, Bool, true, false, not, ◌&&◌, ◌||◌, Option, none, some, [], ◌∷◌,
}

-- github_budget.py: what one response says of the rate limit.
abbrev pub backoff_base : ℕ
backoff_base = 60

abbrev pub backoff_cap : ℕ
backoff_cap = 3600

abbrev pub cooldown_floor : ℕ
cooldown_floor = 5

-- `exponential_backoff_s`: the floats give this while `attempts` is at most 1024; from 1025 on the code raises `OverflowError`.
unfoldable pub exponential_backoff : ℕ → ℕ
exponential_backoff attempts =
    if leb attempts 0 then 0 else min backoff_cap (backoff_base * 2 ^ (attempts - 1))

-- `_bounded_delay`
unfoldable pub bounded_delay : ℕ → ℕ
bounded_delay delay = if leb delay 0 then 0 else max cooldown_floor (min delay backoff_cap)

-- `part in s`
unfoldable pub has_part : Text → Text → Bool
has_part part [] = not (is_none (after_prefix part []))
has_part part (c ∷ s) = not (is_none (after_prefix part (c ∷ s))) || has_part part s

-- A response, with the numbers of its headers read. GitHub's numbers are not negative. `retry_after`
-- is the header in seconds, and `has_retry_after` says that it is there, readable or not.
pub record Response : Type 0 where
  pub status_code : ℕ
  pub remaining : Option ℕ
  pub reset_at : Option ℕ
  pub has_retry_after : Bool
  pub retry_after : Option ℕ
  pub body : Text

pub data Reason : Type 0 where
  no_reason : Reason
  retry_after_given : Reason
  primary_rate_limit : Reason
  secondary_rate_limit : Reason
  rate_limit : Reason
  ok : Reason

abbrev pub has_reason : Reason → Bool
has_reason no_reason = false
has_reason _ = true

pub record Observation : Type 0 where
  pub cooldown_until : ℕ
  pub reason : Reason
  pub backoff_attempts : ℕ

abbrev pub is_limit_status : ℕ → Bool
is_limit_status status = nat_beq status 403 || nat_beq status 429

-- `_looks_secondary_limited`
unfoldable pub looks_secondary_limited : Response → Bool
looks_secondary_limited r =
    is_limit_status r.status_code
    && (r.has_retry_after
        || has_part (codes "secondary rate limit") (lower r.body)
        || has_part (codes "abuse detection") (lower r.body)
        || has_part (codes "too many requests") (lower r.body))

-- `_looks_rate_limited`
unfoldable pub looks_rate_limited : Response → Bool
looks_rate_limited r =
    is_limit_status r.status_code
    && (has_part (codes "rate limit") (lower r.body)
        || has_part (codes "too many requests") (lower r.body))

-- `remaining == 0 and reset_at and reset_at > now_i`: the time of the reset, if it is to come.
abbrev pub exhausted_until : ℕ → Option ℕ → Option ℕ → Option ℕ
exhausted_until now (some left) (some reset) =
    if nat_beq left 0 && ltb 0 reset && ltb now reset then some reset else none
exhausted_until now _ _ = none

abbrev pub by_body : ℕ → ℕ → Response → Observation
by_body now previous r =
    if looks_secondary_limited r
    then record {
      cooldown_until = now + exponential_backoff (previous + 1);
      reason = secondary_rate_limit;
      backoff_attempts = previous + 1;
    }
    else if looks_rate_limited r
    then record {
      cooldown_until = now + exponential_backoff (previous + 1);
      reason = rate_limit;
      backoff_attempts = previous + 1;
    }
    else record { cooldown_until = 0; reason = no_reason; backoff_attempts = 0 }

abbrev pub by_remaining : ℕ → ℕ → Response → Option ℕ → Observation
by_remaining now previous r none = by_body now previous r
by_remaining now previous r (some reset) = record {
  cooldown_until = min reset (now + backoff_cap);
  reason = primary_rate_limit;
  backoff_attempts = max 1 (previous + 1);
}

abbrev pub by_retry_after : ℕ → ℕ → Response → Option ℕ → Observation
by_retry_after now previous r none =
    by_remaining now previous r (exhausted_until now r.remaining r.reset_at)
by_retry_after now previous r (some delay) =
    if is_limit_status r.status_code
    then record {
      cooldown_until = now + bounded_delay delay;
      reason = retry_after_given;
      backoff_attempts = max 1 (previous + 1);
    }
    else by_remaining now previous r (exhausted_until now r.remaining r.reset_at)

-- `observe_rate_headers`
unfoldable pub observe : ℕ → ℕ → Response → Observation
observe now previous r = by_retry_after now previous r r.retry_after
