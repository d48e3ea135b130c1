-- ===== src/Outcomes/Tests.antt =====
-- The theorems of the records of outcomes at a failure and its recovery.
use thread_keeper.Common.{
  leb, ◌==◌, nat_eq, pair_eq, length, contains, default, codes, text_eq, is_space, lstrip, strip,
  lower, ◌≡◌, refl, false, none, some, [], ◌∷◌,
}
use thread_keeper.Outcomes.Events.{
  candidate_artifact, record_evaluation_event, stamp_event, checked_event, bounded_identifier,
  is_identifier, parts, is_sensitive, sensitive_words, occurs, bounded_authority, bounded_outcome,
  fingerprint_of, recovery_of, check_prior, derive_recovery_candidate, derive_from, recovery_rows,
  write_candidate, recovery_text, Db, Submission,
}
use thread_keeper.Authority.Stamp.{
  record_root, stamp_root, derive, derive_direct, collect_roots, copy_roots, link_parents, lowest,
}
use thread_keeper.Authority.Source.{source_is_live}
use thread_keeper.Sync.Decimal.{fmt_nat, pad, num_digits}
use thread_keeper.Outcomes.Forget.{
  forget_events, forget_ids, bounded_all, delete_events, candidate_ids, forget_objective,
  forget_sources, prune_expired, clean_pairs,
}
use thread_keeper.Authority.Invalidate.{
  invalidate_descendants, walk, push, children, invalidate_all, invalidate_one,
}
use thread_keeper.Common.Results.{ok, err}
use thread_keeper.Access.Policy.{Caller, unrestricted}
use thread_keeper.Authority.Store.{artifact, live}
use thread_keeper.Outcomes.Runs.{empty, recorded, derived, Run, here, next}
use thread_keeper.Outcomes.Where.{Erases}
use thread_keeper.Outcomes.Erased.{forget-Erases}

abbrev the_user : Caller
the_user = record { policy = unrestricted; review_origin = [] }

abbrev failed_call : Submission
failed_call = record {
  event_id = codes "e1";
  objective_ref = codes "goal-1";
  action_name = codes "run_tests";
  outcome = codes "failure";
  sequence = 1;
  source_kind = codes "session";
  source_id = codes "s1";
  authority = codes "observed";
  principal = codes "fixture";
  channel = codes "offline";
  error_fingerprint = codes "timeout";
  recovered_from = [];
  created_at = some 100;
  retention = 30000000;
}

abbrev retried_call : Submission
retried_call = record failed_call {
  event_id = codes "e2";
  outcome = codes "success";
  sequence = 2;
  source_id = codes "s2";
  error_fingerprint = [];
  recovered_from = codes "e1";
  created_at = some 200;
}

abbrev failed_state : Db
failed_state = (record_evaluation_event the_user 100 failed_call empty).1

abbrev retried_state : Db
retried_state = (record_evaluation_event the_user 200 retried_call failed_state).1

abbrev candidate_state : Db
candidate_state = (derive_recovery_candidate the_user 300 (codes "e2") retried_state).1

abbrev candidate_run : Run empty candidate_state
candidate_run =
    next (next (next here (recorded the_user 100 failed_call)) (recorded the_user 200 retried_call))
      (derived the_user 300 (codes "e2"))

one_link : length candidate_state.links ≡ 1
unfolding record_evaluation_event stamp_event checked_event bounded_identifier lower strip lstrip
    is_space is_identifier parts is_sensitive sensitive_words occurs bounded_authority
    bounded_outcome fingerprint_of recovery_of check_prior record_root stamp_root
    derive_recovery_candidate derive_from recovery_rows write_candidate derive derive_direct
    collect_roots copy_roots link_parents lowest source_is_live recovery_text fmt_nat pad num_digits
one_link = refl

abbrev forgotten_state : Db
forgotten_state = elim (forget_events 400 (codes "forget") (codes "e1" ∷ []) candidate_state) [
  | ok (n, db) ↦ db
  | err f ↦ candidate_state
]

-- Only the failure is forgotten: the text of the candidate, which names the failure's fingerprint,
-- stays, and its authority is withdrawn.
failure_forgotten :
    (length forgotten_state.candidates ≡ 1)
    × (live (artifact forgotten_state.authority (candidate_artifact 1)) ≡ false)
unfolding record_evaluation_event stamp_event checked_event bounded_identifier lower strip lstrip
    is_space is_identifier parts is_sensitive sensitive_words occurs bounded_authority
    bounded_outcome fingerprint_of recovery_of check_prior record_root stamp_root
    derive_recovery_candidate derive_from recovery_rows write_candidate derive derive_direct
    collect_roots copy_roots link_parents lowest source_is_live recovery_text fmt_nat pad num_digits
    forget_events forget_ids bounded_all delete_events candidate_ids invalidate_descendants walk
    push children invalidate_all invalidate_one
failure_forgotten = (refl, refl)

forget-Erases_example :
    Erases
      (λ e. e.objective_ref == codes "goal-1")
      candidate_state
      (forget_objective 400 (codes " Goal-1") candidate_state)
    × Erases
        (λ e.
          contains (clean_pairs ((codes "session", codes "s1") ∷ [])) (e.source_kind, e.source_id))
        candidate_state
        (forget_sources 400 ((codes "session", codes "s1") ∷ []) candidate_state)
    × Erases
        (λ e. leb e.expires_at (default 400 none))
        candidate_state
        (prune_expired 400 none candidate_state)
unfolding bounded_identifier lower strip lstrip is_space is_identifier parts is_sensitive
    sensitive_words occurs
forget-Erases_example =
    forget-Erases 400 (codes "goal-1") (codes " Goal-1") ((codes "session", codes "s1") ∷ []) none
      candidate_state candidate_run refl
