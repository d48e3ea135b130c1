-- ===== src/Outcomes/Events.antt =====
-- action_outcomes.py: the tables, the recording of an event, and the candidate of a recovery.
use thread_keeper.Common.{
  ltb, leb, if◌then◌else◌, ◌==◌, nat_eq, pair_eq, length, any, all, is_none, default, Text, codes,
  text_eq, is_empty, strip, lower, ℕ, ◌+◌, ◌*◌, ◌/◌, Bool, true, false, not, ◌&&◌, ◌||◌, Option,
  none, some, List, [], ◌∷◌, ◌++◌,
}
use thread_keeper.Common.Results.{Result, ok, err, ◌>>=◌, ◌>>◌, check}
use thread_keeper.Sync.Decimal.{fmt_nat}
use thread_keeper.Access.Policy.{Caller}
use thread_keeper.Authority.Store.{Class, observed, trusted, Artifact, Store}
use thread_keeper.Authority.Stamp.{record_root, derive}
use thread_keeper.Authority.Source.{source_is_live}

pub data Outcome : Type 0 where
  success failure cancelled skipped : Outcome

abbrev pub is_success : Outcome → Bool
is_success success = true
is_success _ = false

abbrev pub is_failure : Outcome → Bool
is_failure failure = true
is_failure _ = false

-- A row of `action_outcome_events`.
pub record Event : Type 0 where
  pub id : Text
  pub objective_ref : Text
  pub action_name : Text
  pub outcome : Outcome
  pub error_fingerprint : Option Text
  pub recovered_from : Option Text
  pub sequence : ℕ
  pub source_kind : Text
  pub source_id : Text
  pub authority_class : Class
  pub created_at : ℕ
  pub expires_at : ℕ

-- A row of `extract_candidates`, with the columns that this module writes.
pub record Candidate : Type 0 where
  pub id : ℕ
  pub source_uuid : Option Text
  pub source_cid : Option Text
  pub content : Text
  pub created_at : ℕ

-- A row of `action_outcome_candidates`.
pub record Link : Type 0 where
  pub candidate_id : ℕ
  pub event_id : Text
  pub created_at : ℕ

-- `next_id` is the next id of `extract_candidates`, which is never used again (AUTOINCREMENT).
pub record Db : Type 0 where
  pub events : List Event
  pub candidates : List Candidate
  pub next_id : ℕ
  pub links : List Link
  pub authority : Store

-- What the functions raise.
pub data Fault : Type 0 where
  bad_identifier : Text → Fault
  bad_authority bad_outcome bad_sequence bad_retention : Fault
  fingerprint_of_no_failure : Fault
  no_such_failure other_objective other_action no_earlier_failure no_success : Fault
  id_exists sequence_exists no_authority : Fault
  no_recovery invalidated : Fault
  unfinished : Fault

abbrev pub is_lower : ℕ → Bool
is_lower c = leb 97 c && leb c 122

abbrev pub is_alnum : ℕ → Bool
is_alnum c = is_lower c || leb 48 c && leb c 57

-- `[._:-]`
abbrev pub is_separator : ℕ → Bool
is_separator c = c == 46 || c == 95 || c == 58 || c == 45

-- `[a-z0-9]*(?:[._:-][a-z0-9]+)*` after a character of a part, or after a separator.
unfoldable pub parts : Bool → Text → Bool
parts in_part [] = in_part
parts in_part (c ∷ cs) =
    let more = parts true cs in
    let next = parts false cs in if is_alnum c then more else in_part && is_separator c && next

-- `_IDENTIFIER_RE.fullmatch`
unfoldable pub is_identifier : Text → Bool
is_identifier [] = false
is_identifier (c ∷ cs) = is_lower c && parts true cs

abbrev pub starts : Text → Text → Bool
starts [] s = true
starts (p ∷ ps) [] = false
starts (p ∷ ps) (c ∷ cs) = p == c && starts ps cs

unfoldable pub occurs : Text → Text → Bool
occurs w [] = is_empty w
occurs w (c ∷ cs) = starts w (c ∷ cs) || occurs w cs

-- The alternatives of `_SENSITIVE_IDENTIFIER_RE`; the end of the last one may be empty.
unfoldable pub sensitive_words : List Text
sensitive_words =
    codes "apikey"
    ∷ codes "api_key"
    ∷ codes "api-key"
    ∷ codes "secret"
    ∷ codes "token"
    ∷ codes "password"
    ∷ codes "passwd"
    ∷ codes "credential"
    ∷ codes "authorization"
    ∷ codes "bearer"
    ∷ codes "ghp_"
    ∷ codes "gho_"
    ∷ codes "ghu_"
    ∷ codes "ghs_"
    ∷ codes "ghr_"
    ∷ codes "github_pat_"
    ∷ codes "sk-"
    ∷ []

-- `_SENSITIVE_IDENTIFIER_RE.search`
unfoldable pub is_sensitive : Text → Bool
is_sensitive s = any (λ w. occurs w s) sensitive_words

unfoldable pub bounded_identifier : Text → ℕ → Text → Result Fault Text
bounded_identifier name limit value =
    let cleaned = lower (strip value) in
    if is_empty cleaned
      || ltb limit (length cleaned)
      || not (is_identifier cleaned)
      || is_sensitive cleaned
    then err (bad_identifier name)
    else ok cleaned

unfoldable pub bounded_authority : Text → Result Fault Class
bounded_authority value =
    let authority = lower (strip value) in
    if authority == codes "observed"
    then ok observed
    else if authority == codes "trusted"
    then ok trusted
    else err bad_authority

unfoldable pub bounded_outcome : Text → Result Fault Outcome
bounded_outcome value =
    let outcome = lower (strip value) in
    if outcome == codes "success"
    then ok success
    else if outcome == codes "failure"
    then ok failure
    else if outcome == codes "cancelled"
    then ok cancelled
    else if outcome == codes "skipped"
    then ok skipped
    else err bad_outcome

-- The arguments of `record_evaluation_event`; the retention is in millionths of a day, and what is
-- below 1 (or 0) is 0.
pub record Submission : Type 0 where
  pub event_id : Text
  pub objective_ref : Text
  pub action_name : Text
  pub outcome : Text
  pub sequence : ℕ
  pub source_kind : Text
  pub source_id : Text
  pub authority : Text
  pub principal : Text
  pub channel : Text
  pub error_fingerprint : Text
  pub recovered_from : Text
  pub created_at : Option ℕ
  pub retention : ℕ

abbrev pub find_event : Text → List Event → Option Event
find_event id [] = none
find_event id (e ∷ es) = if e.id == id then some e else find_event id es

unfoldable pub fingerprint_of : Outcome → Text → Result Fault (Option Text)
fingerprint_of outcome value =
    let fingerprint = lower (strip value) in
    if is_failure outcome
    then (bounded_identifier (codes "error_fingerprint") 96 fingerprint >>= λ f. ok (some f))
    else if is_empty fingerprint
    then ok none
    else err fingerprint_of_no_failure

-- The tests of a recovery of `prior`.
unfoldable pub check_prior : Text → Text → Outcome → ℕ → Option Event → Result Fault (Unit {0})
check_prior objective action outcome sequence none = err no_such_failure
check_prior objective action outcome sequence (some prior) = do
  check (prior.objective_ref == objective) other_objective
  check (prior.action_name == action) other_action
  check (is_failure prior.outcome && ltb prior.sequence sequence) no_earlier_failure
  check (is_success outcome) no_success

unfoldable pub recovery_of :
    Text → Text → Outcome → ℕ → Text → List Event → Result Fault (Option Text)
recovery_of objective action outcome sequence value events = if is_empty value then ok none else (do
  id ← bounded_identifier (codes "recovered_from") 96 value
  check_prior objective action outcome sequence (find_event id events)
  ok (some id))

-- The checks of `record_evaluation_event` before it writes, in their order, and the row.
unfoldable pub checked_event : ℕ → Submission → List Event → Result Fault Event
checked_event clock s events = do
  event_id ← bounded_identifier (codes "event_id") 96 s.event_id
  objective ← bounded_identifier (codes "objective_ref") 96 s.objective_ref
  action ← bounded_identifier (codes "action_name") 64 s.action_name
  source_kind ← bounded_identifier (codes "source_kind") 48 s.source_kind
  source_id ← bounded_identifier (codes "source_id") 96 s.source_id
  authority ← bounded_authority s.authority
  outcome ← bounded_outcome s.outcome
  check (leb 1 s.sequence) bad_sequence
  check (leb 1 s.retention) bad_retention
  fingerprint ← fingerprint_of outcome s.error_fingerprint
  recovery ← recovery_of objective action outcome s.sequence s.recovered_from events
  check (is_none (find_event event_id events)) id_exists
  let now = default clock s.created_at
  ok (record {
    id = event_id;
    objective_ref = objective;
    action_name = action;
    outcome = outcome;
    error_fingerprint = fingerprint;
    recovered_from = recovery;
    sequence = s.sequence;
    source_kind = source_kind;
    source_id = source_id;
    authority_class = authority;
    created_at = now;
    expires_at = now + s.retention * 86400 / 1000000;
  })

abbrev pub event_artifact : Text → Artifact
event_artifact id = (codes "action_outcome", id)

abbrev pub candidate_artifact : ℕ → Artifact
candidate_artifact n = (codes "action_outcome_candidate", fmt_nat 1 n)

-- The end of `record_evaluation_event`, after the row is written.
unfoldable pub stamp_event : Caller → ℕ → Event → Text → Text → Db → Result Fault Text × Db
stamp_event c clock e principal channel db =
    elim (bounded_identifier (codes "principal") 96 principal) [
      | err f ↦ (err f, db)
      | ok p ↦ elim (bounded_identifier (codes "channel") 96 channel) [
        | err f ↦ (err f, db)
        | ok ch ↦
            let (stamped, s) =
              record_root c clock (event_artifact e.id) e.authority_class p ch db.authority in
            (if stamped then ok e.id else err no_authority, record db { authority = s })
      ]
    ]

-- `UNIQUE(objective_ref, sequence)`
abbrev pub is_taken : Event → List Event → Bool
is_taken e es =
    any (λ (o : Event). o.objective_ref == e.objective_ref && o.sequence == e.sequence) es

-- `clock` is the time of the call.
unfoldable pub record_evaluation_event : Caller → ℕ → Submission → Db → Result Fault Text × Db
record_evaluation_event c clock s db = elim (checked_event clock s db.events) [
  | err f ↦ (err f, db)
  | ok e ↦
      if is_taken e db.events
      then (err sequence_exists, db)
      else stamp_event c clock e s.principal s.channel (record db { events = e ∷ db.events })
]

-- The rows of a success and of the failure that it recovers.
unfoldable pub recovery_rows : Text → List Event → Option (Event × Event)
recovery_rows id events = elim (find_event id events) [
  | none ↦ none
  | some succeeded ↦ elim succeeded.recovered_from [
    | none ↦ none
    | some f ↦ elim (find_event f events) [
      | none ↦ none
      | some failed ↦
          if is_success succeeded.outcome
            && is_failure failed.outcome
            && failed.objective_ref == succeeded.objective_ref
            && failed.action_name == succeeded.action_name
            && ltb failed.sequence succeeded.sequence
          then some (failed, succeeded)
          else none
    ]
  ]
]

abbrev pub link_of : Text → List Link → Option ℕ
link_of id [] = none
link_of id (l ∷ ls) = if l.event_id == id then some l.candidate_id else link_of id ls

-- `None` is shown where a row has no fingerprint.
unfoldable pub recovery_text : Event → Text
recovery_text failed =
    codes "Operational recovery: retry "
    ++ failed.action_name
    ++ codes " after "
    ++ default (codes "None") failed.error_fingerprint
    ++ codes "."

abbrev pub new_candidate : ℕ → Text → Event → ℕ → Candidate
new_candidate n id failed clock = record {
  id = n;
  source_uuid = some (codes "action-outcome:" ++ id);
  source_cid = none;
  content = recovery_text failed;
  created_at = clock;
}

abbrev pub parents_of : Event × Event → List Artifact
parents_of (failed, succeeded) = event_artifact failed.id ∷ event_artifact succeeded.id ∷ []

-- The writes of `derive_recovery_candidate`.
unfoldable pub write_candidate : Caller → ℕ → Text → Event × Event → Db → Result Fault ℕ × Db
write_candidate c clock id rows db =
    let n = db.next_id in
    let inserted = record db {
      candidates = new_candidate n id rows.0 clock ∷ db.candidates;
      next_id = n + 1;
    } in
    let (derived, s) = derive c clock (candidate_artifact n) (parents_of rows) db.authority in
    if derived
    then (
      ok n,
      record inserted {
        links = record { candidate_id = n; event_id = id; created_at = clock } ∷ db.links;
        authority = s;
      },
    )
    else (err no_authority, record inserted { authority = s })

unfoldable pub derive_from : Caller → ℕ → Text → Db → Result Fault ℕ × Db
derive_from c clock id db = elim (recovery_rows id db.events) [
  | none ↦ (err no_recovery, db)
  | some rows ↦
      if not (all (source_is_live db.authority) (parents_of rows))
      then (err invalidated, db)
      else elim (link_of id db.links) [
        | some n ↦ (ok n, db)
        | none ↦ write_candidate c clock id rows db
      ]
]

unfoldable pub derive_recovery_candidate : Caller → ℕ → Text → Db → Result Fault ℕ × Db
derive_recovery_candidate c clock event_id db =
    elim (bounded_identifier (codes "event_id") 96 event_id) [
      | err f ↦ (err f, db)
      | ok id ↦ derive_from c clock id db
    ]
