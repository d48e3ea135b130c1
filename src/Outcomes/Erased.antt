-- ===== src/Outcomes/Erased.antt =====
-- What is left after records are forgotten by objective, by source or by age.
use thread_keeper.Common.{
  leb, Bool-cases, ◌==◌, nat_eq, pair_eq, length, filter, All, contains, dedup_from, default, Text,
  codes, text_eq, is_empty, ℕ, ◌+◌, ◌≡◌, refl, ap, ◌∙◌, ◌⊎◌, inl, inr, Bool, true, false, not,
  Option, List, [], map, arith,
}
use thread_keeper.Outcomes.Where.{
  contains-where, filter-cong, All-of, length-filter-not, Erased, Erases, bounded_all-where,
  candidate_ids-contains, any-cong, contains-nothing, filter-kept, candidate_ids-nothing,
  withdrawn-of,
}
use thread_keeper.Outcomes.Runs.{empty, Run}
use thread_keeper.Outcomes.Sound.{Run-IsSound}
use thread_keeper.Authority.Store.{Artifact, artifact, live}
use thread_keeper.Common.Results.{ok}
use thread_keeper.Authority.Closed.{derives}
use thread_keeper.Outcomes.Events.{Event, Candidate, Link, Db, event_artifact, bounded_identifier}
use thread_keeper.Outcomes.Forget.{
  Counts, ids_where, candidate_ids, forget_ids, forget_objective, forget_events, delete_events,
  forget_sources, prune_expired, counts_of, event_ids_for_sources, clean_pairs,
}
use thread_keeper.Outcomes.Tables.{IsTable, All-weaken}
use thread_keeper.Authority.Invalidate.Marks.{invalidate_descendants-Forgets}

-- A call that forgets the ids of the events that pass a test.
module _ (clock : ℕ) (reason : Text) (p : Event → Bool) (db : Db) (table : IsTable db.events) where
  abbrev ids : List Text
  ids = dedup_from [] (ids_where p db.events)

  tests-agree : All (λ (e : Event). not (contains ids e.id) ≡ not (p e)) db.events
  tests-agree =
      All-weaken _ (λ (e : Event). not (contains ids e.id) ≡ not (p e)) db.events
        (λ e s. ground (arith, contains-where p db.events e.id table, s.found)) table

  Erased-of :
      (n : Counts) (db' : Db)
      → db'.events ≡ filter (λ (e : Event). not (contains ids e.id)) db.events
      → db'.links ≡ filter (λ (l : Link). not (contains ids l.event_id)) db.links
      → db'.candidates
        ≡ filter (λ (c : Candidate). not (contains (candidate_ids ids db.links) c.id)) db.candidates
      → ((id : Text) (a : Artifact)
          → contains ids id ≡ true
          → (a ≡ event_artifact id) ⊎ (derives db.authority (event_artifact id) a ≡ true)
          → live (artifact db'.authority a) ≡ false)
      → n.events + length db'.events ≡ length db.events
      → Erased p db db' n
  Erased-of n db' es ls cs gone total = record {
    events = es ∙ filter-cong _ _ db.events tests-agree;
    links =
        ls
        ∙ filter-cong _ _ db.links
            (All-of _ db.links λ l. ap not (contains-where p db.events l.event_id table));
    candidates =
        cs
        ∙ filter-cong _ _ db.candidates (
            All-of _ db.candidates λ c. ap not (
              candidate_ids-contains ids db.links c.id
              ∙ any-cong _ _ db.links
                  λ l. ground (arith, contains-where p db.events l.event_id table)));
    withdrawn =
        λ e a found pass d. gone e.id a (ground (arith, contains-where p db.events e.id table)) d;
    counted = total;
  }

  forget_ids-Erases : Erases p db (forget_ids clock reason ids db)
  unfolding forget_ids delete_events
  forget_ids-Erases = elim (Bool-cases (is_empty ids)) [
    | inl none_given ↦ (
      record { events = 0; candidates = 0 },
      db,
      rw (none_given, forget_ids),
      Erased-of (record { events = 0; candidates = 0 }) db
          (filter-kept _ db.events λ e. ap not (contains-nothing ids e.id none_given))
          (filter-kept _ db.links λ l. ap not (contains-nothing ids l.event_id none_given))
          (filter-kept _ db.candidates λ c.
            ap (λ dead. not (contains dead c.id)) (candidate_ids-nothing ids db.links none_given))
          (λ id a m d. absurd (ground (arith, contains-nothing ids id none_given))) (omega arith),
    )
    | inr some_given ↦
        let (n, s, e, f) =
          invalidate_descendants-Forgets clock reason (map event_artifact ids) [] db.authority in
        (
          counts_of ids db,
          record (delete_events ids db) { authority = s },
          rw (some_given, e, forget_ids),
          Erased-of (counts_of ids db) (record (delete_events ids db) { authority = s }) refl refl
              refl (λ id a m d. withdrawn-of clock reason ids n db.authority s id a f m d)
              (length-filter-not (λ (e : Event). contains ids e.id) db.events),
        )
  ]

  pub forget_where-Erases : Erases p db (forget_events clock reason (ids_where p db.events) db)
  unfolding forget_events
  forget_where-Erases =
      rw
        (
          forget_events,
          bounded_all-where p db.events db.events (
              All-weaken _ (λ (e : Event). bounded_identifier (codes "event_id") 96 e.id ≡ ok e.id)
                db.events (λ e s. s.accepted) table),
        )
        forget_ids-Erases

-- In any run, forgetting an objective, forgetting the records of sources and pruning by age all
-- succeed; the events that they name are gone, with their links and candidates, nothing else is, and
-- no forgotten event nor what is derived from it keeps a live stamp.
pub forget-Erases :
    (clock : ℕ) (objective text : Text) (sources : List (Text × Text)) (now : Option ℕ) (db : Db)
    → Run empty db
    → bounded_identifier (codes "objective_ref") 96 text ≡ ok objective
    → Erases (λ e. e.objective_ref == objective) db (forget_objective clock text db)
      × Erases
          (λ e. contains (clean_pairs sources) (e.source_kind, e.source_id))
          db
          (forget_sources clock sources db)
      × Erases (λ e. leb e.expires_at (default clock now)) db (prune_expired clock now db)
unfolding forget_objective forget_sources prune_expired event_ids_for_sources
forget-Erases clock objective text sources now db r accepted =
    let table = (Run-IsSound r).table in
    (
      rw (accepted, forget_objective)
          (forget_where-Erases clock (codes "objective_forget") (λ e. e.objective_ref == objective)
            db table),
      forget_where-Erases clock (codes "source_forget")
          (λ e. contains (clean_pairs sources) (e.source_kind, e.source_id)) db table,
      forget_where-Erases clock (codes "retention") (λ e. leb e.expires_at (default clock now)) db
          table,
    )
