-- ===== src/Outcomes/Revoked.antt =====
-- The candidates of recoveries, and the records that they rest on.
use thread_keeper.Common.{
  Bool-cases, Option-cases, ==_iff, nat_eq, pair_eq, all, All, contains, Text, codes, text_eq, ℕ,
  ◌≡◌, sym, subst, inl, inr, Bool, true, none, some, List, ◌∷◌, arith,
}
use thread_keeper.Common.Results.{either, Result, ok, Result-cases}
use thread_keeper.Access.Policy.{Caller}
use thread_keeper.Authority.Store.{Store, Artifact}
use thread_keeper.Authority.Closed.{
  IsClosed, record_root-IsClosed, derivations-record_root, derive-IsClosed,
}
use thread_keeper.Authority.Derivations.{derives-derive}
use thread_keeper.Authority.Invalidate.{children}
use thread_keeper.Outcomes.Events.{
  Event, Link, Db, Submission, find_event, event_artifact, candidate_artifact, checked_event,
  is_taken, stamp_event, record_evaluation_event, bounded_identifier, Fault,
  derive_recovery_candidate, recovery_rows, derive_from, write_candidate, parents_of, link_of,
}
use thread_keeper.Outcomes.Tables.{
  IsTable, IsTable-cons, find_event-cons, checked_event-fresh, All-weaken, find_event-id,
}
use thread_keeper.Authority.Stamp.{derive}
use thread_keeper.Authority.Source.{source_is_live}

-- The candidate of a link is derived from the success that the link names, which is in the table,
-- and from the failure that it recovered.
pub record IsLinked (es : List Event) (s : Store) (l : Link) : Type 0 where
  pub success : Event
  pub failure : Text
  pub found : find_event l.event_id es ≡ some success
  pub recovered : success.recovered_from ≡ some failure
  pub from_failure :
      contains (children s.derivations (event_artifact failure)) (candidate_artifact l.candidate_id)
      ≡ true
  pub from_success :
      contains
        (children s.derivations (event_artifact l.event_id))
        (candidate_artifact l.candidate_id)
      ≡ true

pub record IsSound (db : Db) : Type 0 where
  pub table : IsTable db.events
  pub closed : IsClosed db.authority
  pub linked : All (IsLinked db.events db.authority) db.links

-- The links of a state whose events and derivations only grow.
module _ (es es' : List Event) (s s' : Store)
    (kept : (id : Text) (e : Event) → find_event id es ≡ some e → find_event id es' ≡ some e)
    (grown : (a b : Artifact)
      → contains (children s.derivations a) b ≡ true
      → contains (children s'.derivations a) b ≡ true) where
  IsLinked-grown : (l : Link) → IsLinked es s l → IsLinked es' s' l
  IsLinked-grown l h = record {
    success = h.success;
    failure = h.failure;
    found = kept l.event_id h.success h.found;
    recovered = h.recovered;
    from_failure = grown _ _ h.from_failure;
    from_success = grown _ _ h.from_success;
  }

stamp_event-IsSound :
    (c : Caller) (clock : ℕ) (e : Event) (principal channel : Text) (db : Db)
    → IsSound db
    → IsSound (stamp_event c clock e principal channel db).1
unfolding stamp_event
stamp_event-IsSound c clock e principal channel db h =
    either (λ (r : Result Fault Text × Db). IsSound r.1)
      (bounded_identifier (codes "principal") 96 principal) _ _ (λ f. h)
      λ p q.
        either (λ (r : Result Fault Text × Db). IsSound r.1)
          (bounded_identifier (codes "channel") 96 channel) _ _ (λ f. h)
          λ ch r. record {
            table = h.table;
            closed =
                record_root-IsClosed c clock (event_artifact e.id) e.authority_class p ch
                  db.authority h.closed;
            linked =
                All-weaken (IsLinked db.events db.authority) _ db.links
                  (IsLinked-grown db.events db.events db.authority _ (λ id o m. m)
                    (λ a b d.
                      subst (λ ds. contains (children ds a) b ≡ true)
                        (sym (
                          derivations-record_root c clock (event_artifact e.id) e.authority_class p
                            ch db.authority))
                        d))
                  h.linked;
          }

insert-IsSound :
    (e : Event) (db : Db)
    → find_event e.id db.events ≡ none
    → bounded_identifier (codes "event_id") 96 e.id ≡ ok e.id
    → IsSound db
    → IsSound (record db { events = e ∷ db.events })
insert-IsSound e db fresh b h = record {
  table = IsTable-cons e db.events fresh b h.table;
  closed = h.closed;
  linked =
      All-weaken (IsLinked db.events db.authority) _ db.links
        (IsLinked-grown db.events (e ∷ db.events) db.authority db.authority
          (λ id o m. find_event-cons e db.events id o fresh m) (λ a b d. d))
        h.linked;
}

pub record-IsSound :
    (c : Caller) (clock : ℕ) (s : Submission) (db : Db)
    → IsSound db
    → IsSound (record_evaluation_event c clock s db).1
unfolding record_evaluation_event
record-IsSound c clock s db h = elim (Result-cases (checked_event clock s db.events)) [
  | inl (f, q) ↦ rw (q, record_evaluation_event) h
  | inr (e, q) ↦ elim (Bool-cases (is_taken e db.events)) [
    | inl taken ↦ rw (q, taken, record_evaluation_event) h
    | inr free ↦
        let (fresh, b) = checked_event-fresh clock s db.events e q in
        rw (q, free, record_evaluation_event)
          (stamp_event-IsSound c clock e s.principal s.channel
            (record db { events = e ∷ db.events }) (insert-IsSound e db fresh b h))
  ]
]

-- What the rows of a recovery are.
pub recovery_rows-found :
    (id : Text) (es : List Event) (failed succeeded : Event)
    → recovery_rows id es ≡ some (failed, succeeded)
    → (find_event id es ≡ some succeeded)
      × (succeeded.recovered_from ≡ some failed.id)
      × (succeeded.id ≡ id)
unfolding recovery_rows
recovery_rows-found id es failed succeeded h = elim (Option-cases (find_event id es)) [
  | inl none_found ↦ absurd (ground arith)
  | inr (e, q) ↦ elim (Option-cases e.recovered_from) [
    | inl none_named ↦ absurd (ground arith)
    | inr (f, r) ↦ elim (Option-cases (find_event f es)) [
      | inl none_failed ↦ absurd (ground arith)
      | inr (o, t) ↦ (
        ground arith,
        ground (arith, find_event-id f es o t),
        ground (arith, find_event-id id es e q),
      )
    ]
  ]
]

module _ (c : Caller) (clock : ℕ) (id : Text) (failed succeeded : Event) (db : Db)
    (rows : recovery_rows id db.events ≡ some (failed, succeeded)) where
  abbrev after : Bool × Store
  after =
      derive c clock (candidate_artifact db.next_id) (parents_of (failed, succeeded)) db.authority

  links-derived :
      All (IsLinked db.events db.authority) db.links → All (IsLinked db.events after.1) db.links
  links-derived h =
      All-weaken (IsLinked db.events db.authority) (IsLinked db.events after.1) db.links
        (IsLinked-grown db.events db.events db.authority after.1 (λ i o m. m)
          λ a b d. ground (
            arith,
            derives-derive c clock (candidate_artifact db.next_id) (parents_of (failed, succeeded))
                db.authority a b,
          ))
        h

  new_link :
      after.0 ≡ true
      → IsLinked db.events after.1
          (record { candidate_id = db.next_id; event_id = id; created_at = clock })
  new_link ok_derived =
      let (found, named, same) = recovery_rows-found id db.events failed succeeded rows in
      record {
        success = succeeded;
        failure = failed.id;
        found = found;
        recovered = named;
        from_failure = ground (
          arith,
          derives-derive c clock (candidate_artifact db.next_id) (parents_of (failed, succeeded))
              db.authority (event_artifact failed.id) (candidate_artifact db.next_id),
          ==_iff (event_artifact failed.id) (event_artifact failed.id),
          ==_iff (candidate_artifact db.next_id) (candidate_artifact db.next_id),
        );
        from_success = ground (
          arith,
          derives-derive c clock (candidate_artifact db.next_id) (parents_of (failed, succeeded))
              db.authority (event_artifact id) (candidate_artifact db.next_id),
          ==_iff (event_artifact succeeded.id) (event_artifact id),
          ==_iff (candidate_artifact db.next_id) (candidate_artifact db.next_id),
        );
      }

  write_candidate-IsSound :
      IsSound db → IsSound (write_candidate c clock id (failed, succeeded) db).1
  unfolding write_candidate
  write_candidate-IsSound h = elim (Bool-cases after.0) [
    | inl done ↦
        rw (done, write_candidate)
          (record {
            table = h.table;
            closed =
                derive-IsClosed c clock (candidate_artifact db.next_id)
                  (parents_of (failed, succeeded)) db.authority h.closed;
            linked = (new_link done, links-derived h.linked);
          })
    | inr refused ↦
        rw (refused, write_candidate)
          (record {
            table = h.table;
            closed =
                derive-IsClosed c clock (candidate_artifact db.next_id)
                  (parents_of (failed, succeeded)) db.authority h.closed;
            linked = links-derived h.linked;
          })
  ]

derive_from-IsSound :
    (c : Caller) (clock : ℕ) (id : Text) (db : Db)
    → IsSound db
    → IsSound (derive_from c clock id db).1
unfolding derive_from
derive_from-IsSound c clock id db h = elim (Option-cases (recovery_rows id db.events)) [
  | inl missing ↦ rw (missing, derive_from) h
  | inr ((failed, succeeded), q) ↦
      elim (Bool-cases (all (source_is_live db.authority) (parents_of (failed, succeeded)))) [
        | inl alive ↦ elim (Option-cases (link_of id db.links)) [
          | inl fresh ↦
              rw (q, alive, fresh, derive_from)
                (write_candidate-IsSound c clock id failed succeeded db q h)
          | inr (n, old) ↦ rw (q, alive, old, derive_from) h
        ]
        | inr dead ↦ rw (q, dead, derive_from) h
      ]
]

pub derive-IsSound :
    (c : Caller) (clock : ℕ) (id : Text) (db : Db)
    → IsSound db
    → IsSound (derive_recovery_candidate c clock id db).1
unfolding derive_recovery_candidate
derive-IsSound c clock id db h =
    either (λ (r : Result Fault ℕ × Db). IsSound r.1) (bounded_identifier (codes "event_id") 96 id)
      _ _ (λ f. h) λ clean q. derive_from-IsSound c clock clean db h
