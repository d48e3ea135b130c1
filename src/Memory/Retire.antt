-- ===== src/Memory/Retire.antt =====
-- Which idle servers are retired.
use thread_keeper.Common.{
  ltb, leb, if◌then◌else◌, Bool-cases, length, filter, All, ℕ, ◌-◌, ◌≤◌, ◌<◌, ◌≡◌, refl, sym, ap,
  subst, ◌⊎◌, inl, inr, Bool, true, false, not, ◌&&◌, ◌||◌, some, List, [], ◌∷◌, ◌++◌, arith,
}
use thread_keeper.Memory.Guard.{
  Process, Settings, Aggregate, aggregate_state, process_rss_mb, total_rss_mb, is_idle,
  idle_retire_candidates, sorted, plan_from, target, retire_plan, key_ltb, key,
}
use thread_keeper.Memory.Sorting.{Sorted, sorted-Sorted, sorted-All, All-prefix, Sorted-cut}

-- A server that may be retired: another one, whose parent is gone unless live servers may be
-- retired too, with no heartbeat or an old one.
pub record Eligible (s : Settings) (p : Process) : Type 0 where
  pub is_other : p.is_self ≡ false
  pub is_left : p.parent_alive ≡ true → s.retire_live ≡ true
  pub is_old : (age : ℕ) → p.heartbeat_age_s ≡ some age → s.retire_idle_s ≤ age

-- No more servers need to be retired.
abbrev pub Enough : ℕ → Aggregate → ℕ → ℕ → Type 0
Enough goal agg total count =
    (count ≤ goal) ⊎ ((agg.kill ≡ false) × (0 < agg.warn_mb) × (total ≤ agg.warn_mb))

-- More servers than the goal, and too much memory.
abbrev pub Excess : ℕ → Aggregate → ℕ → ℕ → Type 0
Excess goal agg total count =
    (goal < count) × ((agg.kill ≡ true) ⊎ ((agg.warn_mb ≡ 0) ⊎ (agg.warn_mb < total)))

-- Before each server of a plan is retired, there is an excess.
abbrev pub Needed : ℕ → Aggregate → ℕ → ℕ → List Process → Type 0
Needed goal agg total count [] = Unit
Needed goal agg total count (p ∷ ps) =
    Excess goal agg total count × Needed goal agg (total - process_rss_mb p) (count - 1) ps

is_idle-Eligible : (s : Settings) (p : Process) → is_idle s p ≡ true → Eligible s p
unfolding is_idle
is_idle-Eligible s p h = record {
  is_other = ground (arith, h);
  is_left = λ l. ground (arith, h);
  is_old = λ age e. ground (arith, h, e);
}

filter-Eligible : (s : Settings) (ps : List Process) → All (Eligible s) (filter (is_idle s) ps)
filter-Eligible s [] = tt
filter-Eligible s (p ∷ ps) = elim (Bool-cases (is_idle s p)) [
  | inl e ↦ rw e (is_idle-Eligible s p e, filter-Eligible s ps)
  | inr e ↦ rw e (filter-Eligible s ps)
]

-- The list of no candidates has every property.
unless :
    (P : List Process → Type 0) (b : Bool) (ps : List Process)
    → P []
    → P ps
    → P (if b then [] else ps)
unless P true ps h k = h
unless P false ps h k = k

candidates-Eligible :
    (s : Settings) (ps : List Process) → All (Eligible s) (idle_retire_candidates s ps)
unfolding idle_retire_candidates
candidates-Eligible s ps =
    unless (All (Eligible s)) s.host_enabled (sorted (filter (is_idle s) ps)) tt
      (sorted-All (Eligible s) (filter (is_idle s) ps) (filter-Eligible s ps))

candidates-Sorted : (s : Settings) (ps : List Process) → Sorted (idle_retire_candidates s ps)
unfolding idle_retire_candidates
candidates-Sorted s ps =
    unless Sorted s.host_enabled (sorted (filter (is_idle s) ps)) tt
      (sorted-Sorted (filter (is_idle s) ps))

-- How a plan cuts the candidates: what it leaves, and why.
pub record Cut (goal : ℕ) (agg : Aggregate) (total count : ℕ) (plan ps : List Process)
    : Type 0 where
  pub left : List Process
  pub is_prefix : plan ++ left ≡ ps
  pub is_enough : (left ≡ []) ⊎ Enough goal agg (total - total_rss_mb plan) (count - length plan)
  pub is_needed : Needed goal agg total count plan

Cut-nil :
    (goal : ℕ) (agg : Aggregate) (total count : ℕ) (ps : List Process)
    → Enough goal agg total count
    → Cut goal agg total count [] ps
unfolding total_rss_mb
Cut-nil goal agg total count ps e = record {
  left = ps;
  is_prefix = refl;
  is_enough = inr (ground (arith, e));
  is_needed = tt;
}

Cut-cons :
    (goal : ℕ) (agg : Aggregate) (total count : ℕ) (p : Process) (plan ps : List Process)
    → Excess goal agg total count
    → Cut goal agg (total - process_rss_mb p) (count - 1) plan ps
    → Cut goal agg total count (p ∷ plan) (p ∷ ps)
unfolding total_rss_mb
Cut-cons goal agg total count p plan ps x c = record {
  left = c.left;
  is_prefix = ap (λ l. p ∷ l) c.is_prefix;
  is_enough = ground (arith, c.is_enough);
  is_needed = (x, c.is_needed);
}

plan_from-Cut :
    (goal : ℕ) (agg : Aggregate) (total count : ℕ) (ps : List Process)
    → Cut goal agg total count (plan_from goal agg total count ps) ps
unfolding plan_from
plan_from-Cut goal agg total count [] = record {
  left = [];
  is_prefix = refl;
  is_enough = inl refl;
  is_needed = tt;
}
plan_from-Cut goal agg total count (p ∷ ps) = elim (Bool-cases (leb count goal)) [
  | inl e ↦ rw e (Cut-nil goal agg total count (p ∷ ps) (inl (ground (arith, e))))
  | inr e ↦ elim (Bool-cases (not agg.kill && ltb 0 agg.warn_mb && leb total agg.warn_mb)) [
    | inl d ↦
        rw (e, d)
          (Cut-nil goal agg total count (p ∷ ps)
            (inr (ground (arith, d), ground (arith, d), ground (arith, d))))
    | inr d ↦
        rw (e, d)
          (Cut-cons goal agg total count p _ ps (ground (arith, e), ground (arith, d))
            (plan_from-Cut goal agg (total - process_rss_mb p) (count - 1) ps))
  ]
]

plan_from-length :
    (goal : ℕ) (agg : Aggregate) (total count : ℕ) (ps : List Process)
    → length (plan_from goal agg total count ps) ≤ count - goal
unfolding plan_from
plan_from-length goal agg total count [] = omega arith
plan_from-length goal agg total count (p ∷ ps) =
    ground (arith, plan_from-length goal agg (total - process_rss_mb p) (count - 1) ps)

-- The plan that runs when the tests of `_retire_plan` let it.
abbrev plan : Settings → List Process → List Process
plan s procs =
    plan_from (target s) (aggregate_state s procs) (total_rss_mb procs) (length procs)
      (idle_retire_candidates s procs)

plan-Eligible : (s : Settings) (procs : List Process) → All (Eligible s) (plan s procs)
plan-Eligible s procs =
    let c =
      plan_from-Cut (target s) (aggregate_state s procs) (total_rss_mb procs) (length procs)
        (idle_retire_candidates s procs) in
    (All-prefix (Eligible s) (plan s procs) c.left
      (subst (All (Eligible s)) (sym c.is_prefix) (candidates-Eligible s procs))).0

-- Every server of a plan is another one, is left by its parent unless live servers may be retired
-- too, and has no heartbeat or an old one; and the plan leaves at least the target of servers.
pub retire_plan-Eligible :
    (s : Settings) (procs : List Process)
    → All (Eligible s) (retire_plan s procs (aggregate_state s procs))
      × (length (retire_plan s procs (aggregate_state s procs)) ≤ length procs - target s)
unfolding retire_plan aggregate_state total_rss_mb
retire_plan-Eligible s procs = elim (Bool-cases (leb (length procs) (target s))) [
  | inl e ↦ rw e (tt, omega arith)
  | inr e ↦
      elim (Bool-cases (not (aggregate_state s procs).warn && not (aggregate_state s procs).kill)) [
        | inl d ↦ rw (e, d) (tt, omega arith)
        | inr d ↦
            rw (e, d)
              (plan-Eligible s procs, plan_from-length _ _ _ _ (idle_retire_candidates s procs))
      ]
]

-- What a plan leaves of the candidates.
pub record Leaves (s : Settings) (procs retired : List Process) : Type 0 where
  pub cut :
      Cut
        (target s)
        (aggregate_state s procs)
        (total_rss_mb procs)
        (length procs)
        retired
        (idle_retire_candidates s procs)
  pub in_order : All (λ p. All (λ q. key_ltb (key q) (key p) ≡ false) cut.left) retired

plan-Leaves : (s : Settings) (procs : List Process) → Leaves s procs (plan s procs)
plan-Leaves s procs =
    let c =
      plan_from-Cut (target s) (aggregate_state s procs) (total_rss_mb procs) (length procs)
        (idle_retire_candidates s procs) in
    record {
      cut = c;
      in_order =
          Sorted-cut (plan s procs) c.left
            (subst Sorted (sym c.is_prefix) (candidates-Sorted s procs));
    }

-- When there are more servers than the target and their memory is over a threshold, the plan is a
-- first part of the candidates; no candidate that it leaves comes before one that it takes, by the
-- age of the heartbeat and the size; it leaves one only when the servers that stay are not more than
-- the target, or when the kill threshold was not reached and their memory is within the warn
-- threshold; and it takes one only while neither holds.
pub retire_plan-Leaves :
    (s : Settings) (procs : List Process)
    → target s < length procs
    → ((aggregate_state s procs).warn || (aggregate_state s procs).kill) ≡ true
    → Leaves s procs (retire_plan s procs (aggregate_state s procs))
unfolding retire_plan aggregate_state total_rss_mb
retire_plan-Leaves s procs h w =
    let e : leb (length procs) (target s) ≡ false = ground (arith, h) in
    let d : (not (aggregate_state s procs).warn && not (aggregate_state s procs).kill) ≡ false =
      ground (arith, w) in
    rw (e, d) (plan-Leaves s procs)
