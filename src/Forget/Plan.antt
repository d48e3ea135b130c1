-- ===== src/Forget/Plan.antt =====
-- forget.py: the tables, the resolution of a selector, and the plan of what to erase.
use thread_keeper.Common.{
  if◌then◌else◌, ◌==◌, nat_eq, pair_eq, filter, any, contains, Text, codes, text_eq, is_empty,
  strip, lower, ℕ, Bool, true, false, not, ◌&&◌, ◌||◌, Option, none, some, List, [], ◌∷◌, ◌++◌, map,
}
use thread_keeper.Common.Results.{Result, ok, err, ◌>>=◌, ◌>>◌, check}
use thread_keeper.Authority.Store.{Artifact}
use thread_keeper.Outcomes.Events.{Event, Candidate}
use thread_keeper.Outcomes.Events.{Db as OutcomesDb}
use thread_keeper.Outcomes.Forget.{ids_where, event_ids_for_sources}
use thread_keeper.Forget.Claims.{Evidence, Claim, is_in, dialectic_targets}

-- The columns of the tables that a selector reads.
pub record Dialog : Type 0 where
  pub uuid : Text
  pub session_id : Option Text

-- A row of `notes` or of `verbatim`.
pub record Entry : Type 0 where
  pub id : Text
  pub thread_id : Option Text
  pub session_id : Option Text

pub record Task : Type 0 where
  pub id : Text
  pub parent_cid : Option Text
  pub spawned_cid : Option Text

pub record Observation : Type 0 where
  pub id : Text
  pub source_cid : Option Text
  pub dialog_uuid : Option Text

pub record Signal : Type 0 where
  pub id : ℕ
  pub from_cid : Text
  pub to_cid : Option Text

-- A row of `events`.
pub record Activity : Type 0 where
  pub id : ℕ
  pub session_id : Text

pub record Session : Type 0 where
  pub id : Text

-- A row of `cursors` or of `presence`.
pub record Cursor : Type 0 where
  pub session_id : Text

-- `threads` is the list of its keys; `outcomes` also has `extract_candidates` and the provenance
-- store.
pub record Db : Type 0 where
  pub threads : List Text
  pub dialogs : List Dialog
  pub notes : List Entry
  pub verbatim : List Entry
  pub tasks : List Task
  pub observations : List Observation
  pub evidence : List Evidence
  pub claims : List Claim
  pub signals : List Signal
  pub activities : List Activity
  pub sessions : List Session
  pub cursors : List Cursor
  pub presence : List Cursor
  pub outcomes : OutcomesDb

pub data Selector : Type 0 where
  session thread uuid objective : Selector

pub data Refusal : Type 0 where
  bad_selector_type no_selector unfinished : Refusal
  bad_event : Refusal

unfoldable pub auto_selector_type : Db → Text → Selector
auto_selector_type db s =
    if contains db.threads s
    then thread
    else if any (λ (d : Dialog). d.uuid == s) db.dialogs
    then uuid
    else if any (λ (e : Event). e.objective_ref == lower s) db.outcomes.events
    then objective
    else session

unfoldable pub resolve_selector_type : Db → Text → Text → Result Refusal Selector
resolve_selector_type db s selector_type =
    let st = if is_empty selector_type then codes "auto" else lower (strip selector_type) in
    if st == codes "auto"
    then ok (auto_selector_type db s)
    else if st == codes "session_id" || st == codes "cid"
    then ok session
    else if st == codes "thread_id"
    then ok thread
    else if st == codes "uuid"
    then ok uuid
    else if st == codes "objective"
    then ok objective
    else err bad_selector_type

-- The rows that a selector names.
abbrev pub of_dialog : Selector → Text → Dialog → Bool
of_dialog session s d = is_in (s ∷ []) d.session_id
of_dialog uuid s d = d.uuid == s
of_dialog thread s d = false
of_dialog objective s d = false

-- `_notes` and `_verbatim_ids`
abbrev pub of_entry : Selector → Text → Entry → Bool
of_entry session s n = is_in (s ∷ []) n.session_id
of_entry thread s n = is_in (s ∷ []) n.thread_id
of_entry uuid s n = false
of_entry objective s n = false

abbrev pub is_session : Selector → Bool
is_session session = true
is_session _ = false

abbrev pub of_task : Selector → Text → Task → Bool
of_task k s t = is_session k && (is_in (s ∷ []) t.parent_cid || is_in (s ∷ []) t.spawned_cid)

abbrev pub of_signal : Selector → Text → Signal → Bool
of_signal k s g = is_session k && (g.from_cid == s || is_in (s ∷ []) g.to_cid)

abbrev pub of_activity : Selector → Text → Activity → Bool
of_activity k s a = is_session k && a.session_id == s

abbrev pub of_session : Selector → Text → Session → Bool
of_session k s x = is_session k && x.id == s

abbrev pub of_cursor : Selector → Text → Cursor → Bool
of_cursor k s x = is_session k && x.session_id == s

abbrev pub of_observation : Text → List Text → Observation → Bool
of_observation s uuids o = is_in (s ∷ []) o.source_cid || is_in uuids o.dialog_uuid

abbrev pub of_candidate : Selector → Text → List Text → Candidate → Bool
of_candidate k s uuids c = is_session k && is_in (s ∷ []) c.source_cid || is_in uuids c.source_uuid

abbrev pub threads_of : Selector → Text → List Text
threads_of thread s = s ∷ []
threads_of _ s = []

abbrev pub prefixed : Text → List Text → List Text
prefixed p ids = map (λ id. p ++ id) ids

-- The selector is not empty, and neither are the ids.
unfoldable pub source_tokens : Selector → Text → List Text → List Text → List Text → List Text
source_tokens k s uuids verbatim tasks =
    filter (λ t. not (is_empty t))
      ((s ∷ (codes "session:" ++ s) ∷ (codes "cid:" ++ s) ∷ [])
        ++ prefixed (codes "dialog:") uuids
        ++ uuids
        ++ prefixed (codes "verbatim:") verbatim
        ++ prefixed (codes "thread:") (threads_of k s)
        ++ threads_of k s
        ++ prefixed (codes "task:") tasks
        ++ tasks)

abbrev pub sources_of : Text → List Text → List (Text × Text)
sources_of kind ids = map (λ id. (kind, id)) ids

-- `sources`, where the selector is not an objective.
abbrev pub pointers : List Text → List Text → List Text → List Text → List Text → List (Text × Text)
pointers uuids threads notes verbatim tasks =
    sources_of (codes "dialog") uuids
    ++ sources_of (codes "thread") threads
    ++ sources_of (codes "note") notes
    ++ sources_of (codes "verbatim") verbatim
    ++ sources_of (codes "task") tasks

pub record Plan : Type 0 where
  pub selector : Text
  pub selector_type : Selector
  pub dialog_uuids : List Text
  pub note_ids : List Text
  pub thread_ids : List Text
  pub verbatim_ids : List Text
  pub observation_ids : List Text
  pub evidence_ids : List Text
  pub claim_ids : List Text
  pub extract_candidate_ids : List ℕ
  pub task_ids : List Text
  pub signal_ids : List ℕ
  pub event_ids : List ℕ
  pub session_ids : List Text
  pub cursor_ids : List Text
  pub presence_ids : List Text
  pub outcome_ids : List Text

abbrev pub plan_sources : Plan → List (Text × Text)
plan_sources p = pointers p.dialog_uuids p.thread_ids p.note_ids p.verbatim_ids p.task_ids

-- `plan.authority_roots`
unfoldable pub authority_roots : Plan → List Artifact
authority_roots p =
    sources_of (codes "dialog") p.dialog_uuids
    ++ sources_of (codes "note") p.note_ids
    ++ sources_of (codes "verbatim") p.verbatim_ids
    ++ sources_of (codes "evidence") p.evidence_ids
    ++ sources_of (codes "claim") p.claim_ids
    ++ sources_of (codes "action_outcome") p.outcome_ids

unfoldable pub action_outcome_event_ids :
    Selector → Text → List (Text × Text) → List Event → List Text
action_outcome_event_ids objective s sources events =
    ids_where (λ e. e.objective_ref == lower s) events
action_outcome_event_ids session s sources events =
    event_ids_for_sources (sources ++ (codes "session", s) ∷ []) events
action_outcome_event_ids thread s sources events = event_ids_for_sources sources events
action_outcome_event_ids uuid s sources events = event_ids_for_sources sources events

-- The plan, from the claims and the evidence to erase.
unfoldable pub plan_of : Selector → Text → Db → List Text → List Text → Plan
plan_of k s db claims evidence =
    let uuids = map (λ (d : Dialog). d.uuid) (filter (of_dialog k s) db.dialogs) in
    let notes = map (λ (n : Entry). n.id) (filter (of_entry k s) db.notes) in
    let verbatim = map (λ (n : Entry). n.id) (filter (of_entry k s) db.verbatim) in
    let tasks = map (λ (t : Task). t.id) (filter (of_task k s) db.tasks) in
    record {
      selector = s;
      selector_type = k;
      dialog_uuids = uuids;
      note_ids = notes;
      thread_ids = threads_of k s;
      verbatim_ids = verbatim;
      observation_ids =
          map (λ (o : Observation). o.id) (filter (of_observation s uuids) db.observations);
      evidence_ids = evidence;
      claim_ids = claims;
      extract_candidate_ids =
          map (λ (c : Candidate). c.id) (filter (of_candidate k s uuids) db.outcomes.candidates);
      task_ids = tasks;
      signal_ids = map (λ (g : Signal). g.id) (filter (of_signal k s) db.signals);
      event_ids = map (λ (a : Activity). a.id) (filter (of_activity k s) db.activities);
      session_ids = map (λ (x : Session). x.id) (filter (of_session k s) db.sessions);
      cursor_ids = map (λ (x : Cursor). x.session_id) (filter (of_cursor k s) db.cursors);
      presence_ids = map (λ (x : Cursor). x.session_id) (filter (of_cursor k s) db.presence);
      outcome_ids =
          action_outcome_event_ids k s (pointers uuids (threads_of k s) notes verbatim tasks)
            db.outcomes.events;
    }

-- The tokens of a selector, from the rows that it names.
unfoldable pub tokens_of : Selector → Text → Db → List Text
tokens_of k s db =
    source_tokens k s (map (λ (d : Dialog). d.uuid) (filter (of_dialog k s) db.dialogs))
      (map (λ (n : Entry). n.id) (filter (of_entry k s) db.verbatim))
      (map (λ (t : Task). t.id) (filter (of_task k s) db.tasks))

abbrev pub creators : Selector → Text → List Text
creators k s = if is_session k then s ∷ [] else []

unfoldable pub resolved_plan : Selector → Text → Db → Result Refusal Plan
resolved_plan k s db =
    elim (dialectic_targets db.evidence db.claims (creators k s) (tokens_of k s db)) [
      | none ↦ err unfinished
      | some (claims, evidence) ↦ ok (plan_of k s db claims evidence)
    ]

unfoldable pub build_forget_plan : Text → Text → Db → Result Refusal Plan
build_forget_plan selector selector_type db = do
  check (not (is_empty (strip selector))) no_selector
  k ← resolve_selector_type db (strip selector) selector_type
  resolved_plan k (strip selector) db
