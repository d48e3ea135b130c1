-- ===== src/Forget/Tests.antt =====
-- The theorems of the erasure at one session, whose message supports a chain of claims.
use thread_keeper.Common.{Text, codes, ◌≡◌, refl, none, some, List, [], ◌∷◌}
use thread_keeper.Authority.Store.{observed}
use thread_keeper.Outcomes.Events.{Event, failure}
use thread_keeper.Outcomes.Events.{Db as OutcomesDb}
use thread_keeper.Forget.Claims.{
  Evidence, Claim, is_unsupported, new_claims, descend, include_supersede_descendants,
  selected_claims, dialectic_targets,
}
use thread_keeper.Forget.Ends.{include_supersede_descendants_ends}
use thread_keeper.Forget.Targets.{Targets}
use thread_keeper.Forget.Plan.{Db}

abbrev evidence_row : Text → Text → Text → Evidence
evidence_row id claim source = record { id = id; claim_id = claim; source = some source }

-- The second claim is derived from the first; the third also, and has evidence of its own.
abbrev evidence_rows : List Evidence
evidence_rows =
    evidence_row (codes "1") (codes "UC1") (codes "dialog:d1")
    ∷ evidence_row (codes "2") (codes "UC2") (codes "claim:UC1")
    ∷ evidence_row (codes "3") (codes "UC3") (codes "supersede:UC2")
    ∷ evidence_row (codes "4") (codes "UC3") (codes "manual")
    ∷ []

abbrev claim_row : Text → Claim
claim_row id = record { id = id; created_by_cid = none }

abbrev claim_rows : List Claim
claim_rows = claim_row (codes "UC1") ∷ claim_row (codes "UC2") ∷ claim_row (codes "UC3") ∷ []

abbrev the_event : Event
the_event = record {
  id = codes "e1";
  objective_ref = codes "goal";
  action_name = codes "run";
  outcome = failure;
  error_fingerprint = some (codes "timeout");
  recovered_from = none;
  sequence = 1;
  source_kind = codes "session";
  source_id = codes "s1";
  authority_class = observed;
  created_at = 1;
  expires_at = 100;
}

abbrev the_outcomes : OutcomesDb
the_outcomes = record {
  events = the_event ∷ [];
  candidates = [];
  next_id = 1;
  links = [];
  authority = record { stamps = []; roots = []; derivations = [] };
}

abbrev the_db : Db
the_db = record {
  threads = codes "T1" ∷ [];
  dialogs =
      record { uuid = codes "d1"; session_id = some (codes "s1") }
      ∷ record { uuid = codes "d2"; session_id = some (codes "s2") }
      ∷ [];
  notes =
      record { id = codes "n1"; thread_id = some (codes "T1"); session_id = some (codes "s1") }
      ∷ [];
  verbatim = [];
  tasks = record { id = codes "t1"; parent_cid = some (codes "s1"); spawned_cid = none } ∷ [];
  observations = record { id = codes "1"; source_cid = none; dialog_uuid = some (codes "d1") } ∷ [];
  evidence = evidence_rows;
  claims = claim_rows;
  signals = record { id = 1; from_cid = codes "s2"; to_cid = some (codes "s1") } ∷ [];
  activities = record { id = 1; session_id = codes "s1" } ∷ [];
  sessions = record { id = codes "s1" } ∷ record { id = codes "s2" } ∷ [];
  cursors = record { session_id = codes "s1" } ∷ [];
  presence = record { session_id = codes "s1" } ∷ [];
  outcomes = the_outcomes;
}

-- The chain of claims goes up to the one that other evidence supports, whose inherited evidence goes.
the_chain :
    dialectic_targets evidence_rows claim_rows [] (codes "dialog:d1" ∷ [])
    ≡ some (
      codes "UC2" ∷ codes "UC1" ∷ [],
      codes "3" ∷ codes "2" ∷ codes "2" ∷ codes "1" ∷ codes "1" ∷ [],
    )
unfolding dialectic_targets selected_claims include_supersede_descendants descend new_claims
    is_unsupported
the_chain = refl

include_supersede_descendants_ends_example :
    (out : List Text × List Text) × (include_supersede_descendants evidence_rows
        (codes "UC1" ∷ [])
        (codes "1" ∷ [])
      ≡ some out)
include_supersede_descendants_ends_example =
    include_supersede_descendants_ends evidence_rows (codes "UC1" ∷ []) (codes "1" ∷ [])
