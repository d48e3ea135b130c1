-- ===== src/Forget/Apply.antt =====
-- forget.py: the deletions of a plan, in one transaction. The spool files, the search indexes, the
-- saved bodies of workflows and the counters of the claims that stay are left out.
use thread_keeper.Common.{
  if◌then◌else◌, Equality, nat_eq, pair_eq, filter, contains, dedup_from, Text, codes, text_eq,
  is_empty, ℕ, Bool, not, ◌&&◌, none, some, List, [], map,
}
use thread_keeper.Common.Results.{Result, ok, err, ◌>>=◌}
use thread_keeper.Authority.Store.{Artifact}
use thread_keeper.Authority.Invalidate.{invalidate_descendants}
use thread_keeper.Outcomes.Events.{Candidate}
use thread_keeper.Outcomes.Events.{Db as OutcomesDb}
use thread_keeper.Outcomes.Forget.{forget_events}
use thread_keeper.Forget.Claims.{Evidence, Claim}
use thread_keeper.Forget.Plan.{
  Session, Cursor, Dialog, Entry, Task, Observation, Signal, Activity, Db, Refusal, unfinished,
  bad_event, Plan, authority_roots, build_forget_plan,
}

-- `_delete_where_in`
abbrev pub delete_in : {A K : Type 0} ⦃e : Equality K⦄ → (A → K) → List K → List A → List A
delete_in key ks xs = filter (λ x. not (contains ks (key x))) xs

-- The surviving claims that evidence which is not forgotten supports.
unfoldable pub claims_with_independent_evidence : Plan → List Evidence → List Artifact
claims_with_independent_evidence p rows =
    if is_empty p.evidence_ids
    then []
    else map (λ c. (codes "claim", c))
        (dedup_from [] (
          map (λ (r : Evidence). r.claim_id)
            (filter
              (λ (r : Evidence).
                not (contains p.evidence_ids r.id) && not (contains p.claim_ids r.claim_id))
              rows)))

-- The rows that are deleted; `o` is what is left of the records of outcomes.
unfoldable pub delete_rows : Plan → OutcomesDb → Db → Db
delete_rows p o db = record {
  threads = delete_in (λ t. t) p.thread_ids db.threads;
  dialogs = delete_in (λ (d : Dialog). d.uuid) p.dialog_uuids db.dialogs;
  notes = delete_in (λ (n : Entry). n.id) p.note_ids db.notes;
  verbatim = delete_in (λ (n : Entry). n.id) p.verbatim_ids db.verbatim;
  tasks = delete_in (λ (t : Task). t.id) p.task_ids db.tasks;
  observations = delete_in (λ (x : Observation). x.id) p.observation_ids db.observations;
  evidence = delete_in (λ (r : Evidence). r.id) p.evidence_ids db.evidence;
  claims = delete_in (λ (c : Claim). c.id) p.claim_ids db.claims;
  signals = delete_in (λ (g : Signal). g.id) p.signal_ids db.signals;
  activities = delete_in (λ (a : Activity). a.id) p.event_ids db.activities;
  sessions = delete_in (λ (x : Session). x.id) p.session_ids db.sessions;
  cursors = delete_in (λ (x : Cursor). x.session_id) p.cursor_ids db.cursors;
  presence = delete_in (λ (x : Cursor). x.session_id) p.presence_ids db.presence;
  outcomes = record o {
    candidates = delete_in (λ (c : Candidate). c.id) p.extract_candidate_ids o.candidates;
  };
}

-- An exception rolls the transaction back.
unfoldable pub apply_forget : ℕ → Plan → Db → Result Refusal Db
apply_forget clock p db =
    elim (invalidate_descendants clock (codes "forget") (authority_roots p)
      (claims_with_independent_evidence p db.evidence) db.outcomes.authority) [
        | none ↦ err unfinished
        | some (n, s) ↦
            elim (forget_events clock (codes "forget") p.outcome_ids
              (record db.outcomes { authority = s })) [
                | err f ↦ err bad_event
                | ok (counts, o) ↦ ok (delete_rows p o db)
              ]
      ]

-- `dry_run` only reports.
unfoldable pub forget_selector : ℕ → Text → Text → Bool → Db → Result Refusal Db
forget_selector clock selector selector_type dry_run db =
    build_forget_plan selector selector_type db >>= λ p.
    if dry_run then ok db else apply_forget clock p db
