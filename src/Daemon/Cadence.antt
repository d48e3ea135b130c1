-- ===== src/Daemon/Cadence.antt =====
-- The cadence of a daemon across the processes that share its state.
use thread_keeper.Common.{
  Bool-cases, ◌==◌, ==_refl, nat_eq, pair_eq, any, lookup, assign, lookup-assign, Text, text_eq, ℕ,
  ◌+◌, ◌*◌, ◌≤◌, ◌<◌, ◌≡◌, refl, inl, inr, Bool, true, false, Option, none, some, arith,
}
use thread_keeper.Daemon.State.{State, last_run_at, is_due, claim_pass, claim_by}

-- Claims of any processes, of any daemon, scheduled or not, at times from `t` on.
pub data Claims (t : ℕ) : State → State → Type 0 where
  no_claim : {s : State} → Claims t s s
  then_claim :
      {r s : State} (fails scheduled : Bool) (name : Text) (interval ts : ℕ)
      → Claims t r s
      → t ≤ ts
      → Claims t r (claim_pass fails scheduled name interval ts s).1

-- The daemon ran at `t` or later.
abbrev RanSince : ℕ → Option ℕ → Type 0
RanSince t none = ⊥
RanSince t (some last) = t ≤ last

assign-RanSince :
    (t : ℕ) (name other : Text) (ts : ℕ) (s : State)
    → t ≤ ts
    → RanSince t (lookup name s)
    → RanSince t (lookup name (assign other ts s))
assign-RanSince t name other ts s le h = elim (Bool-cases (other == name)) [
  | inl e ↦ rw (lookup-assign other name ts s, e) le
  | inr e ↦ rw (lookup-assign other name ts s, e) h
]

claim-RanSince :
    (t : ℕ) (name : Text) (s : State) (fails scheduled : Bool) (other : Text) (interval ts : ℕ)
    → t ≤ ts
    → RanSince t (last_run_at name s)
    → RanSince t (last_run_at name (claim_pass fails scheduled other interval ts s).1)
unfolding claim_pass last_run_at
claim-RanSince t name s fails scheduled other interval ts le h =
    go fails scheduled (is_due interval ts (lookup other s))
  where
    go : (f k d : Bool) → RanSince t (lookup name (claim_by f k d other ts s).1)
    go true k d = h
    go false false d = assign-RanSince t name other ts s le h
    go false true true = assign-RanSince t name other ts s le h
    go false true false = h

Claims-RanSince :
    (t : ℕ) (name : Text) (r s : State)
    → Claims t r s
    → RanSince t (last_run_at name r)
    → RanSince t (last_run_at name s)
Claims-RanSince t name r s no_claim h = h
Claims-RanSince t name r s (then_claim fails scheduled other interval ts c le) h =
    claim-RanSince t name _ fails scheduled other interval ts le (Claims-RanSince t name r _ c h)

claim-ran :
    (name : Text) (s : State) (scheduled : Bool) (interval t : ℕ)
    → (claim_pass false scheduled name interval t s).0 ≡ true
    → RanSince t (last_run_at name (claim_pass false scheduled name interval t s).1)
unfolding claim_pass last_run_at
claim-ran name s scheduled interval t h = go scheduled (is_due interval t (lookup name s)) h
  where
    ran : RanSince t (lookup name (assign name t s))
    ran = rw (lookup-assign name name t s, ==_refl name) (omega arith)

    go :
        (k d : Bool)
        → (claim_by false k d name t s).0 ≡ true
        → RanSince t (lookup name (claim_by false k d name t s).1)
    go false d h = ran
    go true true h = ran
    go true false h = absurd (cc h)

not_due :
    (interval t ts : ℕ) (o : Option ℕ)
    → RanSince t o
    → 5 * ts < 4 * interval + 5 * t
    → is_due interval ts o ≡ false
not_due interval t ts none h lt = absurd h
not_due interval t ts (some last) h lt = ground (arith, h)

-- After a pass of a daemon is granted at the time `t`, every scheduled claim of the daemon is refused
-- until 0.8 of its interval has passed, whatever claims the processes made in between; the storage
-- does not fail at the two claims.
pub claim_pass-spaced :
    (name : Text) (r s : State) (scheduled : Bool) (any interval t ts : ℕ)
    → (claim_pass false scheduled name any t r).0 ≡ true
    → Claims t (claim_pass false scheduled name any t r).1 s
    → 5 * ts < 4 * interval + 5 * t
    → claim_pass false true name interval ts s ≡ (false, s)
unfolding claim_pass
claim_pass-spaced name r s scheduled any interval t ts h c lt =
    rw
      (not_due interval t ts (last_run_at name s)
        (Claims-RanSince t name (claim_pass false scheduled name any t r).1 s c
          (claim-ran name r scheduled any t h))
        lt)
      refl
