-- ===== src/Forget/Left.antt =====
-- What the deletions of a plan leave.
use thread_keeper.Common.{
  Bool-cases, nat_eq, pair_eq, filter, contains, Text, text_eq, ℕ, ◌≡◌, refl, sym, subst, inl, inr,
  true, false, not, List, [], map, arith,
}
use thread_keeper.Forget.Erased.{IsKeyedDb, uuids_of, of_event, Erasure}
use thread_keeper.Forget.Plan.{
  Session, Cursor, of_session, of_cursor, Dialog, Entry, Task, Observation, Signal, Activity, Db,
  Selector, Plan, plan_of, tokens_of, creators, of_dialog, of_entry, of_task, of_observation,
  of_signal, of_activity, of_candidate, authority_roots,
}
use thread_keeper.Outcomes.Sound.{deleted, nothing, Forgotten}
use thread_keeper.Authority.Store.{Store, Artifact, live, artifact}
use thread_keeper.Authority.Invalidate.Reach.{root}
use mathlib.Core.List.{Memᴰ}
use thread_keeper.Outcomes.Events.{Candidate, Db as OutcomesDb, event_artifact}
use thread_keeper.Forget.Keyed.{filter-keys, contains-Mem, filter-Mem}
use thread_keeper.Forget.Targets.{Targets}
use thread_keeper.Forget.Apply.{delete_in, delete_rows}
use thread_keeper.Outcomes.Forget.{delete_events, candidate_ids}
use thread_keeper.Authority.Invalidate.Marks.{Forgets}
use thread_keeper.Authority.Closed.{live-mark}

live-Forgets :
    (now : ℕ) (reason : Text) (roots preserve : List Artifact) (n : ℕ) (s t : Store) (a : Artifact)
    → Forgets now reason roots preserve s t n
    → live (artifact s a) ≡ false
    → live (artifact t a) ≡ false
live-Forgets now reason roots preserve n s t a f d = elim (f.at a) [
  | inl (r, e) ↦ subst (λ o. live o ≡ false) (sym e) (live-mark now reason (artifact s a))
  | inr (r, e) ↦ subst (λ o. live o ≡ false) (sym e) d
]

pub root-withdrawn :
    (now : ℕ) (reason : Text) (roots preserve : List Artifact) (n : ℕ) (s t : Store) (a : Artifact)
    → Forgets now reason roots preserve s t n
    → contains roots a ≡ true
    → contains preserve a ≡ false
    → live (artifact t a) ≡ false
root-withdrawn now reason roots preserve n s t a f m k = elim (f.at a) [
  | inl (r, e) ↦ subst (λ o. live o ≡ false) (sym e) (live-mark now reason (artifact s a))
  | inr (r, e) ↦ absurd (r (root m k))
]

-- What forgetting records of outcomes leaves of the candidates, and of the stamps.
pub Forgotten-candidates :
    (clock : ℕ) (reason : Text) (ids : List Text) (db db' : OutcomesDb) (c : Candidate)
    → Forgotten clock reason ids db db'
    → Memᴰ c db'.candidates
    → Memᴰ c db.candidates
unfolding delete_events
Forgotten-candidates clock reason ids db db' c (nothing e) m = m
Forgotten-candidates clock reason ids db db' c (deleted n s f) m =
    (filter-Mem (λ (d : Candidate). not (contains (candidate_ids ids db.links) d.id)) db.candidates
      m).0

pub Forgotten-live :
    (clock : ℕ) (reason : Text) (ids : List Text) (db db' : OutcomesDb) (a : Artifact)
    → Forgotten clock reason ids db db'
    → live (artifact db.authority a) ≡ false
    → live (artifact db'.authority a) ≡ false
unfolding delete_events
Forgotten-live clock reason ids db db' a (nothing e) d = d
Forgotten-live clock reason ids db db' a (deleted n s f) d =
    live-Forgets clock reason (map event_artifact ids) [] n db.authority s a f d

module _ (k : Selector) (s : Text) (db : Db) (keyed : IsKeyedDb db) (claims evidence : List Text)
    (targets : Targets db.evidence db.claims
      (creators k s)
      (tokens_of k s db)
      claims
      evidence) where
  abbrev the_plan : Plan
  the_plan = plan_of k s db claims evidence

  candidates-left :
      (o : OutcomesDb) (c : Candidate)
      → ((d : Candidate) → Memᴰ d o.candidates → Memᴰ d db.outcomes.candidates)
      → Memᴰ c (delete_in (λ (d : Candidate). d.id) the_plan.extract_candidate_ids o.candidates)
      → of_candidate k s (uuids_of k s db) c ≡ false
  unfolding plan_of
  candidates-left o c less m =
      let (at, kept) =
        filter-Mem (λ (d : Candidate). not (contains the_plan.extract_candidate_ids d.id))
          o.candidates m in
      elim (Bool-cases (of_candidate k s (uuids_of k s db) c)) [
        | inr other ↦ other
        | inl named ↦ absurd (
            ground (
              arith,
              contains-Mem (λ (d : Candidate). d.id) (of_candidate k s (uuids_of k s db))
                  db.outcomes.candidates (less c at) named,
            ))
      ]

  pub delete_rows-Erasure :
      (o : OutcomesDb)
      → ((d : Candidate) → Memᴰ d o.candidates → Memᴰ d db.outcomes.candidates)
      → o.events ≡ filter (λ e. not (of_event k s the_plan e)) db.outcomes.events
      → ((a : Artifact)
          → contains (authority_roots the_plan) a ≡ true
          → live (artifact o.authority a) ≡ false)
      → Erasure k s db (delete_rows the_plan o db)
  unfolding delete_rows plan_of
  delete_rows-Erasure o less events gone = record {
    claims = claims;
    evidence = evidence;
    targets = targets;
    threads = refl;
    dialogs = filter-keys (λ (d : Dialog). d.uuid) (of_dialog k s) db.dialogs keyed.dialogs;
    notes = filter-keys (λ (n : Entry). n.id) (of_entry k s) db.notes keyed.notes;
    verbatim = filter-keys (λ (n : Entry). n.id) (of_entry k s) db.verbatim keyed.verbatim;
    tasks = filter-keys (λ (t : Task). t.id) (of_task k s) db.tasks keyed.tasks;
    observations =
        filter-keys (λ (x : Observation). x.id) (of_observation s (uuids_of k s db)) db.observations
          keyed.observations;
    evidence_left = refl;
    claims_left = refl;
    signals = filter-keys (λ (g : Signal). g.id) (of_signal k s) db.signals keyed.signals;
    activities =
        filter-keys (λ (a : Activity). a.id) (of_activity k s) db.activities keyed.activities;
    sessions = filter-keys (λ (x : Session). x.id) (of_session k s) db.sessions keyed.sessions;
    cursors = filter-keys (λ (x : Cursor). x.session_id) (of_cursor k s) db.cursors keyed.cursors;
    presence =
        filter-keys (λ (x : Cursor). x.session_id) (of_cursor k s) db.presence keyed.presence;
    candidates = λ c m. candidates-left o c less m;
    records = events;
    withdrawn = gone;
  }
