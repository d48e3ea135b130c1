-- ===== src/Github/Streak.antt =====
-- Successive secondary limits: the cooldown doubles with each, up to the cap.
use thread_keeper.Common.{
  ltb, ==_refl, nat_eq, pair_eq, length, is_none, lookup, assign, lookup-assign, Text, text_eq, ℕ,
  ◌+◌, ◌-◌, ◌*◌, ◌^◌, min, ◌≡◌, refl, ap, ◌∙◌, Bool, true, not, ◌||◌, none, List, [], ◌∷◌, ◌++◌,
  foldl, arith,
}
use thread_keeper.Github.Observe.{
  Response, secondary_rate_limit, Observation, observe, exponential_backoff,
  looks_secondary_limited,
}
use thread_keeper.Github.Ledger.{
  Budget, Ledger, previous_attempts, cooldown_left, row_of, attempts_of, next_row, record_response,
}

-- A response that says only that the account is limited by the secondary limit.
pub record Secondary (r : Response) : Type 0 where
  pub secondary : looks_secondary_limited r ≡ true
  pub no_retry_after : r.retry_after ≡ none
  pub no_remaining : r.remaining ≡ none

abbrev limited : ℕ → ℕ → Observation
limited now previous = record {
  cooldown_until = now + exponential_backoff (previous + 1);
  reason = secondary_rate_limit;
  backoff_attempts = previous + 1;
}

observe-Secondary :
    (now previous : ℕ) (r : Response) → Secondary r → observe now previous r ≡ limited now previous
unfolding observe looks_secondary_limited exponential_backoff
observe-Secondary now previous r s = rw (s.no_retry_after, s.no_remaining, s.secondary) refl

abbrev limited_row : ℕ → ℕ → Response → Budget
limited_row now previous r =
    row_of now r (now + exponential_backoff (previous + 1)) secondary_rate_limit (previous + 1)

abbrev limited_ledger : Text → ℕ → Response → Ledger → Ledger
limited_ledger account now r l =
    let row = limited_row now (previous_attempts account l) r in
    record l { rows = assign account row l.rows; events = l.events ++ ((account, row) ∷ []) }

or_true : (a b d : Bool) → (a || b || true || d) ≡ true
or_true a b d = ground arith

record_response-Secondary :
    (account : Text) (now : ℕ) (r : Response) (l : Ledger)
    → Secondary r
    → record_response account now r l ≡ limited_ledger account now r l
unfolding record_response next_row
record_response-Secondary account now r l s =
    rw (observe-Secondary now (previous_attempts account l) r s) (
      rw (or_true (not (is_none r.remaining)) (not (is_none r.reset_at)) (ltb 0 r.status_code))
        refl)

attempts-limited :
    (account : Text) (now : ℕ) (r : Response) (l : Ledger)
    → previous_attempts account (limited_ledger account now r l) ≡ previous_attempts account l + 1
unfolding previous_attempts
attempts-limited account now r l =
    rw
      (
        lookup-assign account account (limited_row now (attempts_of (lookup account l.rows)) r)
            l.rows,
        ==_refl account,
      )
      refl

left-limited :
    (account : Text) (now : ℕ) (r : Response) (l : Ledger)
    → cooldown_left account now (limited_ledger account now r l)
      ≡ exponential_backoff (previous_attempts account l + 1)
unfolding cooldown_left
left-limited account now r l =
    rw
      (
        lookup-assign account account (limited_row now (previous_attempts account l) r) l.rows,
        ==_refl account,
      )
      (omega arith)

abbrev pub record_all : Text → Response → List ℕ → Ledger → Ledger
record_all account r times l = foldl (λ k t. record_response account t r k) l times

attempts-record_all :
    (account : Text) (r : Response) (times : List ℕ) (l : Ledger)
    → Secondary r
    → previous_attempts account (record_all account r times l)
      ≡ previous_attempts account l + length times
attempts-record_all account r [] l s = omega arith
attempts-record_all account r (t ∷ times) l s =
    attempts-record_all account r times (record_response account t r l) s
    ∙ omega (
      arith,
      ap (previous_attempts account) (record_response-Secondary account t r l s),
      attempts-limited account t r l,
    )

one_less : (n : ℕ) → n + 1 - 1 ≡ n
one_less n = omega arith

-- After some responses in a row that say the account is limited by the secondary limit, a further
-- one at `now` leaves a cooldown of one minute, doubled for each earlier limit, and at most an hour.
pub backoff-doubles :
    (account : Text) (r : Response) (times : List ℕ) (now : ℕ) (l : Ledger)
    → Secondary r
    → cooldown_left account now (record_response account now r (record_all account r times l))
      ≡ min 3600 (60 * 2 ^ (previous_attempts account l + length times))
unfolding exponential_backoff
backoff-doubles account r times now l s =
    ap (cooldown_left account now)
      (record_response-Secondary account now r (record_all account r times l) s)
    ∙ left-limited account now r (record_all account r times l)
    ∙ rw (attempts-record_all account r times l s)
        (doubled (previous_attempts account l + length times))
  where
    doubled : (n : ℕ) → exponential_backoff (n + 1) ≡ min 3600 (60 * 2 ^ n)
    doubled n = ground (arith, ap (λ (z : ℕ). 2 ^ z) (one_less n))
