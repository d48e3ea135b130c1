-- ===== src/Router/Counted.antt =====
-- The launches of each pass are counted by its attempt.
use thread_keeper.Common.{
  Bool-cases, ◌==◌, ==_refl, nat_eq, pair_eq, Text, text_beq_iff, text_eq, ℕ, ◌≤◌, ◌≡◌, subst, inl,
  inr, false, some, List, [], ◌∷◌, ◌++◌, arith,
}
use thread_keeper.Router.Attempts.{
  fallbacks, launched, number-append, fallbacks-append, number-set_attempt, number-finish_pass,
  fallbacks-finish_pass, fallbacks-set_fallback, fallbacks-set_primary, fallbacks-le,
  latest-primary,
}
use thread_keeper.Router.Runs.{number}
use thread_keeper.Router.Tick.{raised, answered, Db, launch, Spawned}
use thread_keeper.Router.Routes.{
  primary, fallback, Status, RouterPass, latest_pass, set_attempt, finish_pass, open_pass, opened,
}

-- A pass has an id of its own, at most one child launched on the primary settings, and one on the
-- fallback only if it is at its fallback.
pub record IsCounted (db : Db) : Type 0 where
  pub is_unique : (id : Text) → number id db.passes ≤ 1
  pub of_primary : (id : Text) → launched id primary db.launches ≤ number id db.passes
  pub of_fallback : (id : Text) → launched id fallback db.launches ≤ fallbacks id db.passes

open-IsCounted :
    (id : Text) (roles : List Text) (now : ℕ) (db : Db)
    → number id db.passes ≡ 0
    → IsCounted db
    → IsCounted (record db { passes = open_pass id roles now db.passes })
unfolding open_pass
open-IsCounted id roles now db f c = record {
  is_unique = λ j. ground (
    arith,
    c.is_unique j,
    f,
    number-append j db.passes (opened id roles now ∷ []),
    text_beq_iff id j,
  );
  of_primary =
      λ j. ground (arith, c.of_primary j, number-append j db.passes (opened id roles now ∷ []));
  of_fallback =
      λ j. ground (arith, c.of_fallback j, fallbacks-append j db.passes (opened id roles now ∷ []));
}

-- A fact about each text, from the one text and from those that differ from it.
at_text :
    (P : Text → Type 0) (id : Text)
    → P id
    → ((j : Text) → (id == j) ≡ false → P j)
    → (j : Text) → P j
at_text P id h k j = elim (Bool-cases (id == j)) [
  | inl e ↦ subst P ((text_beq_iff id j).0 e) h
  | inr e ↦ k j e
]

pub launch_primary-IsCounted :
    (x : Spawned) (id : Text) (roles : List Text) (now : ℕ) (db : Db)
    → number id db.passes ≡ 0
    → IsCounted db
    → IsCounted (launch x id primary (record db { passes = open_pass id roles now db.passes }))
unfolding launch open_pass
launch_primary-IsCounted raised id roles now db f c = open-IsCounted id roles now db f c
launch_primary-IsCounted (answered task_id) id roles now db f c =
    let o = open-IsCounted id roles now db f c in
    let ps = db.passes ++ opened id roles now ∷ [] in
    record {
      is_unique = λ j. ground (arith, o.is_unique j, number-set_attempt j id primary task_id ps);
      of_primary =
          at_text
            (λ j.
              launched j primary ((id, primary) ∷ db.launches)
              ≤ number j (set_attempt id primary task_id ps))
            id
            (ground (
              arith,
              f,
              c.of_primary id,
              number-append id db.passes (opened id roles now ∷ []),
              number-set_attempt id id primary task_id ps,
              ==_refl id,
            ))
            (λ j e. ground (
              arith,
              e,
              c.of_primary j,
              number-append j db.passes (opened id roles now ∷ []),
              number-set_attempt j id primary task_id ps,
            ));
      of_fallback =
          at_text
            (λ j.
              launched j fallback ((id, primary) ∷ db.launches)
              ≤ fallbacks j (set_attempt id primary task_id ps))
            id
            (ground (
              arith,
              f,
              c.of_fallback id,
              fallbacks-le id db.passes,
              fallbacks-set_primary id id task_id ps,
              ==_refl id,
            ))
            (λ j e. ground (
              arith,
              e,
              c.of_fallback j,
              fallbacks-append j db.passes (opened id roles now ∷ []),
              fallbacks-set_primary j id task_id ps,
            ));
    }

pub launch_fallback-IsCounted :
    (x : Spawned) (p : RouterPass) (db : Db)
    → latest_pass db.passes ≡ some p
    → p.attempt ≡ primary
    → IsCounted db
    → IsCounted (launch x p.pass_id fallback db)
unfolding launch
launch_fallback-IsCounted raised p db l a c = c
launch_fallback-IsCounted (answered task_id) p db l a c = record {
  is_unique =
      λ j. ground (arith, c.is_unique j, number-set_attempt j p.pass_id fallback task_id db.passes);
  of_primary = λ j.
      ground (arith, c.of_primary j, number-set_attempt j p.pass_id fallback task_id db.passes);
  of_fallback =
      at_text
        (λ j.
          launched j fallback ((p.pass_id, fallback) ∷ db.launches)
          ≤ fallbacks j (set_attempt p.pass_id fallback task_id db.passes))
        p.pass_id
        (ground (
          arith,
          c.is_unique p.pass_id,
          c.of_fallback p.pass_id,
          latest-primary db.passes p l a,
          fallbacks-set_fallback p.pass_id p.pass_id task_id db.passes,
          ==_refl p.pass_id,
        ))
        (λ j e.
          ground (arith, e, c.of_fallback j, fallbacks-set_fallback j p.pass_id task_id db.passes));
}

pub finish-IsCounted :
    (id : Text) (x : Status) (now : ℕ) (db : Db)
    → IsCounted db
    → IsCounted (record db { passes = finish_pass id x now db.passes })
finish-IsCounted id x now db c = record {
  is_unique = λ j. ground (arith, c.is_unique j, number-finish_pass j id x now db.passes);
  of_primary = λ j. ground (arith, c.of_primary j, number-finish_pass j id x now db.passes);
  of_fallback = λ j. ground (arith, c.of_fallback j, fallbacks-finish_pass j id x now db.passes);
}
