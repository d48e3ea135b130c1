-- ===== src/Github/Cooldown.antt =====
-- The cooldown is bounded: no response, and no order of responses, blocks an account for longer than
-- the cap of one hour.
use thread_keeper.Common.{
  if◌then◌else◌, Bool-cases, ◌==◌, nat_eq, pair_eq, All, lookup, assign, Text, text_eq, ℕ, ◌+◌, ◌≤◌,
  ◌≡◌, refl, inl, inr, Bool, true, false, Option, none, some, List, [], ◌∷◌, ◌++◌, arith,
}
use thread_keeper.Github.Observe.{
  Response, observe, exhausted_until, bounded_delay, exponential_backoff, by_body, by_remaining,
  by_retry_after,
}
use thread_keeper.Github.Ledger.{
  Budget, Ledger, previous_attempts, cooldown_left, left_of, is_blocked, has_budget_data, settled,
  next_row, record_response, recorded, run_gh,
}

exponential_backoff-le : (n : ℕ) → exponential_backoff n ≤ 3600
unfolding exponential_backoff
exponential_backoff-le n = ground arith

bounded_delay-le : (d : ℕ) → bounded_delay d ≤ 3600
unfolding bounded_delay
bounded_delay-le d = ground arith

by_body-le :
    (now previous : ℕ) (r : Response) → (by_body now previous r).cooldown_until ≤ now + 3600
by_body-le now previous r = ground (arith, exponential_backoff-le (previous + 1))

by_remaining-le :
    (now previous : ℕ) (r : Response) (o : Option ℕ)
    → (by_remaining now previous r o).cooldown_until ≤ now + 3600
by_remaining-le now previous r none = by_body-le now previous r
by_remaining-le now previous r (some reset) = omega arith

observe-le :
    (now previous : ℕ) (r : Response) → (observe now previous r).cooldown_until ≤ now + 3600
unfolding observe
observe-le now previous r = go r.retry_after
  where
    go : (o : Option ℕ) → (by_retry_after now previous r o).cooldown_until ≤ now + 3600
    go none = by_remaining-le now previous r _
    go (some d) = ground (
      arith,
      bounded_delay-le d,
      by_remaining-le now previous r (exhausted_until now r.remaining r.reset_at),
    )

settled-le :
    (now previous : ℕ) (r : Response) (o : Option ℕ)
    → (settled now previous r o).cooldown_until ≤ now + 3600
settled-le now previous r none = omega arith
settled-le now previous r (some reset) = omega arith

-- A row whose cooldown ends at most an hour after `t`.
abbrev pub Ends : ℕ → Text × Budget → Type 0
Ends t p = p.1.cooldown_until ≤ t + 3600

next_row-le :
    (now previous : ℕ) (r : Response)
    → (next_row now previous r (observe now previous r)).cooldown_until ≤ now + 3600
unfolding next_row
next_row-le now previous r = ground (
  arith,
  observe-le now previous r,
  settled-le now previous r (exhausted_until now r.remaining r.reset_at),
)

assign-Ends :
    (t : ℕ) (account : Text) (b : Budget) (rows : List (Text × Budget))
    → b.cooldown_until ≤ t + 3600
    → All (Ends t) rows
    → All (Ends t) (assign account b rows)
assign-Ends t account b [] h k = (h, tt)
assign-Ends t account b ((a, c) ∷ rows) h k = elim (Bool-cases (a == account)) [
  | inl e ↦ rw e (h, k.1)
  | inr e ↦ rw e (k.0, assign-Ends t account b rows h k.1)
]

-- Requests of any account, in the order in which they are made, up to the time `t`.
pub data Requests (t : ℕ) : Ledger → Ledger → Type 0 where
  no_more : {l : Ledger} → Requests t l l
  then_request :
      {k l : Ledger} (account : Text) (now : ℕ) (answer : Option Response)
      → Requests t k l
      → now ≤ t
      → Requests t k (run_gh account now answer l).1

record-Ends :
    (t : ℕ) (account : Text) (now : ℕ) (r : Response) (l : Ledger)
    → now ≤ t
    → All (Ends t) l.rows
    → All (Ends t) (record_response account now r l).rows
unfolding record_response
record-Ends t account now r l h k =
    kept (has_budget_data r (observe now (previous_attempts account l) r))
  where
    row : Budget
    row = next_row now (previous_attempts account l) r (observe now (previous_attempts account l) r)

    after : Ledger
    after = record l {
      rows = assign account row l.rows;
      events = l.events ++ ((account, row) ∷ []);
    }

    kept : (b : Bool) → All (Ends t) (if b then after else l).rows
    kept true =
        assign-Ends t account row l.rows
          (omega (arith, h, next_row-le now (previous_attempts account l) r)) k
    kept false = k

recorded-Ends :
    (t : ℕ) (account : Text) (now : ℕ) (answer : Option Response) (l : Ledger)
    → now ≤ t
    → All (Ends t) l.rows
    → All (Ends t) (recorded account now answer l).rows
recorded-Ends t account now none l h k = k
recorded-Ends t account now (some r) l h k = record-Ends t account now r l h k

run_gh-Ends :
    (t : ℕ) (account : Text) (now : ℕ) (answer : Option Response) (l : Ledger)
    → now ≤ t
    → All (Ends t) l.rows
    → All (Ends t) (run_gh account now answer l).1.rows
unfolding run_gh
run_gh-Ends t account now answer l h k = elim (Bool-cases (is_blocked account now l)) [
  | inl e ↦ rw e k
  | inr e ↦ rw e (recorded-Ends t account now answer l h k)
]

Requests-Ends : (t : ℕ) (k l : Ledger) → Requests t k l → All (Ends t) k.rows → All (Ends t) l.rows
Requests-Ends t k l no_more h = h
Requests-Ends t k l (then_request account now answer r le) h =
    run_gh-Ends t account now answer _ le (Requests-Ends t k _ r h)

lookup-free :
    (t now : ℕ) (account : Text) (rows : List (Text × Budget))
    → All (Ends t) rows
    → t + 3600 ≤ now
    → left_of now (lookup account rows) ≡ 0
lookup-free t now account [] h le = refl
lookup-free t now account ((a, b) ∷ rows) h le =
    ground (arith, h.0, lookup-free t now account rows h.1 le)

-- An account is never blocked for good: whatever the requests up to the time `t` were answered, an
-- hour later a request of any account is made.
pub run_gh-resumes :
    (t now : ℕ) (account : Text) (answer : Option Response) (k l : Ledger)
    → All (Ends t) k.rows
    → Requests t k l
    → t + 3600 ≤ now
    → (run_gh account now answer l).0 ≡ some answer
unfolding run_gh is_blocked cooldown_left
run_gh-resumes t now account answer k l h r le =
    rw (lookup-free t now account l.rows (Requests-Ends t k l r h) le) refl
