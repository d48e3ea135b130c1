-- ===== src/Router/Attempts.antt =====
-- How often children are launched for a pass, and how many passes are at their fallback.
use thread_keeper.Common.{
  ltb, if◌then◌else◌, Bool-cases, Option-cases, ◌==◌, ==_refl, nat_eq, pair_eq, Text, text_beq_iff,
  text_eq, ℕ, suc, ◌+◌, ◌≤◌, ◌≡◌, refl, ap, subst, inl, inr, Bool, true, false, ◌&&◌, some, List,
  [], ◌∷◌, ◌++◌, arith,
}
use thread_keeper.Router.Runs.{number}
use thread_keeper.Router.Routes.{
  Attempt, primary, fallback, Status, RouterPass, latest_pass, set_attempt, finish_pass,
}

abbrev is_fallback : Attempt → Bool
is_fallback fallback = true
is_fallback primary = false

-- How many passes of an id are at their fallback.
abbrev pub fallbacks : Text → List RouterPass → ℕ
fallbacks id [] = 0
fallbacks id (p ∷ ps) =
    (if p.pass_id == id && is_fallback p.attempt then 1 else 0) + fallbacks id ps

abbrev same_attempt : Attempt → Attempt → Bool
same_attempt primary primary = true
same_attempt fallback fallback = true
same_attempt _ _ = false

-- How often a child was launched for a pass and an attempt.
abbrev pub launched : Text → Attempt → List (Text × Attempt) → ℕ
launched id a [] = 0
launched id a ((j, b) ∷ ls) = (if j == id && same_attempt b a then 1 else 0) + launched id a ls

pub number-append :
    (id : Text) (ps qs : List RouterPass) → number id (ps ++ qs) ≡ number id ps + number id qs
number-append id [] qs = omega arith
number-append id (p ∷ ps) qs = ground (arith, number-append id ps qs)

pub fallbacks-append :
    (id : Text) (ps qs : List RouterPass)
    → fallbacks id (ps ++ qs) ≡ fallbacks id ps + fallbacks id qs
fallbacks-append id [] qs = omega arith
fallbacks-append id (p ∷ ps) qs = ground (arith, fallbacks-append id ps qs)

pub number-set_attempt :
    (id j : Text) (a : Attempt) (task_id : Text) (ps : List RouterPass)
    → number id (set_attempt j a task_id ps) ≡ number id ps
unfolding set_attempt
number-set_attempt id j a task_id [] = refl
number-set_attempt id j a task_id (p ∷ ps) = ground (arith, number-set_attempt id j a task_id ps)

pub number-finish_pass :
    (id j : Text) (s : Status) (now : ℕ) (ps : List RouterPass)
    → number id (finish_pass j s now ps) ≡ number id ps
unfolding finish_pass
number-finish_pass id j s now [] = refl
number-finish_pass id j s now (p ∷ ps) = ground (arith, number-finish_pass id j s now ps)

pub fallbacks-finish_pass :
    (id j : Text) (s : Status) (now : ℕ) (ps : List RouterPass)
    → fallbacks id (finish_pass j s now ps) ≡ fallbacks id ps
unfolding finish_pass
fallbacks-finish_pass id j s now [] = refl
fallbacks-finish_pass id j s now (p ∷ ps) = ground (arith, fallbacks-finish_pass id j s now ps)

pub fallbacks-set_fallback :
    (id j task_id : Text) (ps : List RouterPass)
    → fallbacks id (set_attempt j fallback task_id ps)
      ≡ (if j == id then number id ps else fallbacks id ps)
unfolding set_attempt
fallbacks-set_fallback id j task_id [] = ground arith
fallbacks-set_fallback id j task_id (p ∷ ps) = ground (
  arith,
  fallbacks-set_fallback id j task_id ps,
  text_beq_iff p.pass_id j,
  text_beq_iff j id,
  text_beq_iff p.pass_id id,
)

pub fallbacks-set_primary :
    (id j task_id : Text) (ps : List RouterPass)
    → fallbacks id (set_attempt j primary task_id ps) ≡ (if j == id then 0 else fallbacks id ps)
unfolding set_attempt
fallbacks-set_primary id j task_id [] = ground arith
fallbacks-set_primary id j task_id (p ∷ ps) = ground (
  arith,
  fallbacks-set_primary id j task_id ps,
  text_beq_iff p.pass_id j,
  text_beq_iff j id,
  text_beq_iff p.pass_id id,
)

pub fallbacks-le : (id : Text) (ps : List RouterPass) → fallbacks id ps ≤ number id ps
fallbacks-le id [] = omega arith
fallbacks-le id (p ∷ ps) = ground (arith, fallbacks-le id ps)

head-primary :
    (q : RouterPass) (ps : List RouterPass)
    → q.attempt ≡ primary
    → suc (fallbacks q.pass_id (q ∷ ps)) ≤ number q.pass_id (q ∷ ps)
head-primary q ps a = rw (a, ==_refl q.pass_id) (omega (arith, fallbacks-le q.pass_id ps))

tail-primary :
    (id : Text) (q : RouterPass) (ps : List RouterPass)
    → suc (fallbacks id ps) ≤ number id ps
    → suc (fallbacks id (q ∷ ps)) ≤ number id (q ∷ ps)
tail-primary id q ps h = ground (arith, h)

pub latest-primary :
    (ps : List RouterPass) (p : RouterPass)
    → latest_pass ps ≡ some p
    → p.attempt ≡ primary
    → suc (fallbacks p.pass_id ps) ≤ number p.pass_id ps
unfolding latest_pass
latest-primary [] p e a = absurd (ground (arith, e))
latest-primary (q ∷ ps) p e a = elim (Option-cases (latest_pass ps)) [
  | inl n ↦
      let f : q ≡ p = ground (arith, n, e) in
      subst
        (λ r. r.attempt ≡ primary → suc (fallbacks r.pass_id (q ∷ ps)) ≤ number r.pass_id (q ∷ ps))
        f (head-primary q ps) a
  | inr (r, n) ↦ elim (Bool-cases (ltb r.started_at q.started_at)) [
    | inl l ↦
        let f : q ≡ p = ground (arith, n, e, l) in
        subst
          (λ t.
            t.attempt ≡ primary → suc (fallbacks t.pass_id (q ∷ ps)) ≤ number t.pass_id (q ∷ ps))
          f (head-primary q ps) a
    | inr l ↦
        let f : r ≡ p = ground (arith, n, e, l) in
        tail-primary p.pass_id q ps (latest-primary ps p (rw n (ap some f)) a)
  ]
]
