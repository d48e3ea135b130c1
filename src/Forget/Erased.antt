-- ===== src/Forget/Erased.antt =====
-- What a forgotten selector leaves.
use thread_keeper.Common.{
  Bool-cases, ◌==◌, ==_iff, nat_eq, pair_eq, filter, contains, contains-append, dedup_from,
  contains-dedup_from, Text, codes, text_eq, is_empty, lower, ◌≡◌, refl, sym, ◌∙◌, subst, inl, inr,
  Bool, true, false, not, ◌&&◌, List, [], ◌∷◌, ◌++◌, map, arith,
}
use thread_keeper.Forget.Plan.{
  Session, Cursor, of_session, of_cursor, uuid, thread, session, objective, Dialog, Entry, Task,
  Observation, Signal, Activity, Db, Selector, Plan, plan_of, tokens_of, creators, of_dialog,
  of_entry, of_task, of_observation, of_signal, of_activity, of_candidate, threads_of,
  action_outcome_event_ids, authority_roots, sources_of, plan_sources,
}
use thread_keeper.Authority.Store.{Artifact, live, artifact}
use mathlib.Core.List.{Memᴰ}
use thread_keeper.Outcomes.Events.{Candidate, Event}
use thread_keeper.Forget.Keyed.{IsKeyed}
use thread_keeper.Forget.Claims.{Evidence, Claim}
use thread_keeper.Forget.Closure.{IdsKeyed}
use thread_keeper.Forget.Targets.{Targets}
use thread_keeper.Forget.Apply.{claims_with_independent_evidence}
use thread_keeper.Outcomes.Forget.{clean_pairs, event_ids_for_sources, ids_where}

-- The primary keys of the tables.
pub record IsKeyedDb (db : Db) : Type 0 where
  pub dialogs : IsKeyed (λ (d : Dialog). d.uuid) db.dialogs
  pub notes : IsKeyed (λ (n : Entry). n.id) db.notes
  pub verbatim : IsKeyed (λ (n : Entry). n.id) db.verbatim
  pub tasks : IsKeyed (λ (t : Task). t.id) db.tasks
  pub observations : IsKeyed (λ (o : Observation). o.id) db.observations
  pub evidence : IdsKeyed db.evidence
  pub signals : IsKeyed (λ (g : Signal). g.id) db.signals
  pub activities : IsKeyed (λ (a : Activity). a.id) db.activities
  pub sessions : IsKeyed (λ (x : Session). x.id) db.sessions
  pub cursors : IsKeyed (λ (x : Cursor). x.session_id) db.cursors
  pub presence : IsKeyed (λ (x : Cursor). x.session_id) db.presence

abbrev pub uuids_of : Selector → Text → Db → List Text
uuids_of k s db = map (λ (d : Dialog). d.uuid) (filter (of_dialog k s) db.dialogs)

-- The records of outcomes that a plan names.
abbrev pub of_event : Selector → Text → Plan → Event → Bool
of_event objective s p e = e.objective_ref == lower s
of_event session s p e =
    contains (clean_pairs (plan_sources p ++ (codes "session", s) ∷ []))
      (e.source_kind, e.source_id)
of_event thread s p e = contains (clean_pairs (plan_sources p)) (e.source_kind, e.source_id)
of_event uuid s p e = contains (clean_pairs (plan_sources p)) (e.source_kind, e.source_id)

-- What is left of the tables: the rows that the selector does not name. Nothing that was derived from
-- a row of the selector, or that is an erased claim or evidence, keeps a live stamp.
pub record Erasure (k : Selector) (s : Text) (db db' : Db) : Type 0 where
  pub claims : List Text
  pub evidence : List Text
  pub targets : Targets db.evidence db.claims (creators k s) (tokens_of k s db) claims evidence
  pub threads : db'.threads ≡ filter (λ t. not (contains (threads_of k s) t)) db.threads
  pub dialogs : db'.dialogs ≡ filter (λ d. not (of_dialog k s d)) db.dialogs
  pub notes : db'.notes ≡ filter (λ n. not (of_entry k s n)) db.notes
  pub verbatim : db'.verbatim ≡ filter (λ n. not (of_entry k s n)) db.verbatim
  pub tasks : db'.tasks ≡ filter (λ t. not (of_task k s t)) db.tasks
  pub observations :
      db'.observations ≡ filter (λ o. not (of_observation s (uuids_of k s db) o)) db.observations
  pub evidence_left :
      db'.evidence ≡ filter (λ (r : Evidence). not (contains evidence r.id)) db.evidence
  pub claims_left : db'.claims ≡ filter (λ (c : Claim). not (contains claims c.id)) db.claims
  pub signals : db'.signals ≡ filter (λ g. not (of_signal k s g)) db.signals
  pub activities : db'.activities ≡ filter (λ a. not (of_activity k s a)) db.activities
  pub sessions : db'.sessions ≡ filter (λ x. not (of_session k s x)) db.sessions
  pub cursors : db'.cursors ≡ filter (λ x. not (of_cursor k s x)) db.cursors
  pub presence : db'.presence ≡ filter (λ x. not (of_cursor k s x)) db.presence
  pub candidates :
      (c : Candidate)
      → Memᴰ c db'.outcomes.candidates
      → of_candidate k s (uuids_of k s db) c ≡ false
  pub records :
      db'.outcomes.events
      ≡ filter (λ e. not (of_event k s (plan_of k s db claims evidence) e)) db.outcomes.events
  pub withdrawn :
      (a : Artifact)
      → contains (authority_roots (plan_of k s db claims evidence)) a ≡ true
      → live (artifact db'.outcomes.authority a) ≡ false

pub outcome_ids-where :
    (k : Selector) (s : Text) (db : Db) (claims evidence : List Text)
    → (plan_of k s db claims evidence).outcome_ids
      ≡ ids_where (of_event k s (plan_of k s db claims evidence)) db.outcomes.events
unfolding plan_of action_outcome_event_ids event_ids_for_sources
outcome_ids-where session s db claims evidence = refl
outcome_ids-where thread s db claims evidence = refl
outcome_ids-where uuid s db claims evidence = refl
outcome_ids-where objective s db claims evidence = refl

contains-sources :
    (kind : Text) (ids : List Text) (a : Artifact)
    → contains (sources_of kind ids) a ≡ (kind == a.0 && contains ids a.1)
contains-sources kind [] a = ground arith
contains-sources kind (id ∷ ids) a = ground (arith, contains-sources kind ids a)

contains-filter-not :
    (p : Plan) (rows : List Evidence) (c : Text)
    → contains p.claim_ids c ≡ true
    → contains
        (map
          (λ (r : Evidence). r.claim_id)
          (filter
            (λ (r : Evidence).
              not (contains p.evidence_ids r.id) && not (contains p.claim_ids r.claim_id))
            rows))
        c
      ≡ false
contains-filter-not p [] c h = refl
contains-filter-not p (r ∷ rows) c h =
    ground (arith, contains-filter-not p rows c, ==_iff r.claim_id c)

roots-claim :
    (p : Plan) (c : Text)
    → contains (authority_roots p) (codes "claim", c) ≡ true
    → contains p.claim_ids c ≡ true
unfolding authority_roots
roots-claim p c h =
    let a : Artifact = (codes "claim", c) in
    let d = sources_of (codes "dialog") p.dialog_uuids in
    let n = sources_of (codes "note") p.note_ids in
    let v = sources_of (codes "verbatim") p.verbatim_ids in
    let e = sources_of (codes "evidence") p.evidence_ids in
    let l = sources_of (codes "claim") p.claim_ids in
    let o = sources_of (codes "action_outcome") p.outcome_ids in
    ground (
      arith,
      contains-append (d ++ n ++ v ++ e ++ l) o a,
      contains-append (d ++ n ++ v ++ e) l a,
      contains-append (d ++ n ++ v) e a,
      contains-append (d ++ n) v a,
      contains-append d n a,
      contains-sources (codes "dialog") p.dialog_uuids a,
      contains-sources (codes "note") p.note_ids a,
      contains-sources (codes "verbatim") p.verbatim_ids a,
      contains-sources (codes "evidence") p.evidence_ids a,
      contains-sources (codes "claim") p.claim_ids a,
      contains-sources (codes "action_outcome") p.outcome_ids a,
    )

-- No root of a plan is preserved.
pub roots-unpreserved :
    (p : Plan) (rows : List Evidence) (a : Artifact)
    → contains (authority_roots p) a ≡ true
    → contains (claims_with_independent_evidence p rows) a ≡ false
unfolding claims_with_independent_evidence
roots-unpreserved p rows (kind, c) h = elim (Bool-cases (is_empty p.evidence_ids)) [
  | inl nothing_erased ↦ rw (nothing_erased, claims_with_independent_evidence) refl
  | inr erased ↦
      let others = dedup_from [] (
        map (λ (r : Evidence). r.claim_id)
          (filter
            (λ (r : Evidence).
              not (contains p.evidence_ids r.id) && not (contains p.claim_ids r.claim_id))
            rows)) in
      rw (erased, claims_with_independent_evidence)
        (contains-sources (codes "claim") others (kind, c)
          ∙ elim (Bool-cases (codes "claim" == kind)) [
            | inr other ↦ ground arith
            | inl claim ↦
                let mine = roots-claim p c (
                  subst (λ t. contains (authority_roots p) (t, c) ≡ true)
                    (sym ((==_iff (codes "claim") kind).0 claim)) h) in
                ground (
                  arith,
                  contains-dedup_from []
                      (map (λ (r : Evidence). r.claim_id)
                        (filter
                          (λ (r : Evidence).
                            not (contains p.evidence_ids r.id)
                            && not (contains p.claim_ids r.claim_id))
                          rows))
                      c,
                  contains-filter-not p rows c mine,
                )
          ])
]
