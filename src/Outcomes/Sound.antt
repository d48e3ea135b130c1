-- ===== src/Outcomes/Sound.antt =====
-- The links of the candidates in any run.
use thread_keeper.Common.{
  Bool-cases, Option-cases, nat_eq, pair_eq, filter, contains, dedup_from, Text, text_eq, is_empty,
  ℕ, ◌≡◌, subst, inl, inr, Bool, true, not, some, List, [], map, arith,
}
use thread_keeper.Common.Results.{ok, >>=-ok}
use thread_keeper.Authority.Store.{Store, artifact, live}
use thread_keeper.Authority.Closed.{Forgets-IsClosed}
use thread_keeper.Authority.Invalidate.{children, invalidate_descendants}
use thread_keeper.Authority.Invalidate.Marks.{Forgets}
use thread_keeper.Authority.History.{Forgets-of_some}
use thread_keeper.Outcomes.Events.{Event, Link, Db, find_event, event_artifact, candidate_artifact}
use thread_keeper.Outcomes.Forget.{Counts, delete_events, forget_ids, forget_events, bounded_all}
use thread_keeper.Outcomes.Tables.{IsTable-filter, find_event-filter, All-weaken, All-kept}
use thread_keeper.Outcomes.Runs.{empty, Step, recorded, derived, forgot, Run, here, next}
use thread_keeper.Outcomes.Revoked.{IsLinked, IsSound, record-IsSound, derive-IsSound}

-- What a call that forgets comes to: nothing, or the deletions and the withdrawn stamps.
pub data Forgotten (clock : ℕ) (reason : Text) (ids : List Text) (db : Db) : Db → Type 0 where
  nothing : is_empty ids ≡ true → Forgotten clock reason ids db db
  deleted :
      (n : ℕ) (s : Store)
      → Forgets clock reason (map event_artifact ids) [] db.authority s n
      → Forgotten clock reason ids db (record (delete_events ids db) { authority = s })

pub forget_ids-Forgotten :
    (clock : ℕ) (reason : Text) (ids : List Text) (db : Db) (n : Counts) (db' : Db)
    → forget_ids clock reason ids db ≡ ok (n, db')
    → Forgotten clock reason ids db db'
unfolding forget_ids
forget_ids-Forgotten clock reason ids db n db' h = elim (Bool-cases (is_empty ids)) [
  | inl none_given ↦
      subst (Forgotten clock reason ids db) (let p : db ≡ db' = ground arith in p)
        (nothing none_given)
  | inr some_given ↦
      elim (Option-cases
        (invalidate_descendants clock reason (map event_artifact ids) [] db.authority)) [
          | inl no_fuel ↦ absurd (ground arith)
          | inr ((k, s), e) ↦
              subst (Forgotten clock reason ids db)
                (let p : record (delete_events ids db) { authority = s } ≡ db' = ground arith in p)
                (deleted k s
                  (Forgets-of_some clock reason (map event_artifact ids) [] k db.authority s e))
        ]
]

delete-IsSound :
    (clock : ℕ) (reason : Text) (ids : List Text) (db : Db) (n : ℕ) (s : Store)
    → Forgets clock reason (map event_artifact ids) [] db.authority s n
    → IsSound db
    → IsSound (record (delete_events ids db) { authority = s })
unfolding delete_events
delete-IsSound clock reason ids db n s f h =
    let keeps : Link → Bool = λ l. not (contains ids l.event_id) in
    let es : List Event = filter (λ (e : Event). not (contains ids e.id)) db.events in
    record {
      table = IsTable-filter ids db.events h.table;
      closed = Forgets-IsClosed clock reason (map event_artifact ids) n db.authority s f h.closed;
      linked = All-kept (IsLinked es s) keeps db.links (
          All-weaken (IsLinked db.events db.authority) (λ l. keeps l ≡ true → IsLinked es s l)
            db.links
            (λ l k stays. record {
              success = k.success;
              failure = k.failure;
              found = ground (arith, find_event-filter ids l.event_id db.events, k.found);
              recovered = k.recovered;
              from_failure = rw f.derivations_kept k.from_failure;
              from_success = rw f.derivations_kept k.from_success;
            })
            h.linked);
    }

Forgotten-IsSound :
    (clock : ℕ) (reason : Text) (ids : List Text) (db db' : Db)
    → Forgotten clock reason ids db db'
    → IsSound db
    → IsSound db'
Forgotten-IsSound clock reason ids db db' (nothing e) h = h
Forgotten-IsSound clock reason ids db db' (deleted n s f) h =
    delete-IsSound clock reason ids db n s f h

-- The ids that are forgotten are the accepted ones, without repetition.
pub forget_events-Forgotten :
    (clock : ℕ) (reason : Text) (ids : List Text) (db : Db) (n : Counts) (db' : Db)
    → forget_events clock reason ids db ≡ ok (n, db')
    → (bounded : List Text) × (bounded_all ids ≡ ok bounded)
      × Forgotten clock reason (dedup_from [] bounded) db db'
unfolding forget_events
forget_events-Forgotten clock reason ids db n db' h =
    let (bounded, e, k) =
      >>=-ok (bounded_all ids) (λ bounded. forget_ids clock reason (dedup_from [] bounded) db) h in
    (bounded, e, forget_ids-Forgotten clock reason (dedup_from [] bounded) db n db' k)

Step-IsSound : {db db' : Db} → Step db db' → IsSound db → IsSound db'
Step-IsSound {db} (recorded c clock s) h = record-IsSound c clock s db h
Step-IsSound {db} (derived c clock id) h = derive-IsSound c clock id db h
Step-IsSound {db} (forgot clock reason ids n db' e) h =
    let (bounded, b, f) = forget_events-Forgotten clock reason ids db n db' e in
    Forgotten-IsSound clock reason (dedup_from [] bounded) db db' f h

empty-IsSound : IsSound empty
unfolding children
empty-IsSound = record {
  table = tt;
  closed = record { stamped = λ a b d. cc; below = λ a b d l. cc };
  linked = tt;
}

pub Run-IsSound : {db : Db} → Run empty db → IsSound db
Run-IsSound here = empty-IsSound
Run-IsSound (next r st) = Step-IsSound st (Run-IsSound r)

-- A candidate rests on the success that its link names and on the failure that it recovered: its
-- authority is live only while both are.
pub record IsRevocable (db : Db) (l : Link) : Type 0 where
  pub success : Event
  pub failure : Text
  pub found : find_event l.event_id db.events ≡ some success
  pub recovered : success.recovered_from ≡ some failure
  pub below :
      live (artifact db.authority (candidate_artifact l.candidate_id)) ≡ true
      → (live (artifact db.authority (event_artifact failure)) ≡ true)
        × (live (artifact db.authority (event_artifact l.event_id)) ≡ true)
