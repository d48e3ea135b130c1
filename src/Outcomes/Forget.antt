-- ===== src/Outcomes/Forget.antt =====
-- action_outcomes.py: how records are forgotten, by objective, by source and by age.
use thread_keeper.Common.{
  leb, if◌then◌else◌, ◌==◌, nat_eq, pair_eq, length, filter, contains, dedup_from, default, Text,
  codes, text_eq, is_empty, strip, lower, ℕ, Bool, not, ◌&&◌, Option, none, some, List, [], ◌∷◌,
  map,
}
use thread_keeper.Common.Results.{Result, ok, err, ◌>>=◌}
use thread_keeper.Authority.Invalidate.{invalidate_descendants}
use thread_keeper.Outcomes.Events.{
  Event, Candidate, Link, Db, Fault, unfinished, bounded_identifier, event_artifact,
}

unfoldable pub bounded_all : List Text → Result Fault (List Text)
bounded_all [] = ok []
bounded_all (t ∷ ts) =
    let rest = bounded_all ts in
    bounded_identifier (codes "event_id") 96 t >>= λ id. rest >>= λ ids. ok (id ∷ ids)

abbrev pub ids_where : (Event → Bool) → List Event → List Text
ids_where p es = map (λ (e : Event). e.id) (filter p es)

-- `SELECT candidate_id FROM action_outcome_candidates WHERE event_id IN ...`
unfoldable pub candidate_ids : List Text → List Link → List ℕ
candidate_ids ids ls =
    map (λ (l : Link). l.candidate_id) (filter (λ (l : Link). contains ids l.event_id) ls)

-- The deletions of `_forget_events`.
unfoldable pub delete_events : List Text → Db → Db
delete_events ids db =
    let dead = candidate_ids ids db.links in
    record db {
      candidates = filter (λ (c : Candidate). not (contains dead c.id)) db.candidates;
      links = filter (λ (l : Link). not (contains ids l.event_id)) db.links;
      events = filter (λ (e : Event). not (contains ids e.id)) db.events;
    }

-- How many events and candidates are forgotten.
pub record Counts : Type 0 where
  pub events : ℕ
  pub candidates : ℕ

abbrev pub counts_of : List Text → Db → Counts
counts_of ids db = record {
  events = length (filter (λ (e : Event). contains ids e.id) db.events);
  candidates = length (candidate_ids ids db.links);
}

-- `_forget_events` for the ids without repetition; `unfinished` where the walk runs out of fuel.
unfoldable pub forget_ids : ℕ → Text → List Text → Db → Result Fault (Counts × Db)
forget_ids clock reason ids db =
    if is_empty ids
    then ok (record { events = 0; candidates = 0 }, db)
    else elim (invalidate_descendants clock reason (map event_artifact ids) [] db.authority) [
      | none ↦ err unfinished
      | some (n, s) ↦ ok (counts_of ids db, record (delete_events ids db) { authority = s })
    ]

unfoldable pub forget_events : ℕ → Text → List Text → Db → Result Fault (Counts × Db)
forget_events clock reason ids db =
    bounded_all ids >>= λ bounded. forget_ids clock reason (dedup_from [] bounded) db

unfoldable pub forget_objective : ℕ → Text → Db → Result Fault (Counts × Db)
forget_objective clock objective_ref db =
    bounded_identifier (codes "objective_ref") 96 objective_ref >>= λ objective.
    forget_events clock (codes "objective_forget")
      (ids_where (λ e. e.objective_ref == objective) db.events) db

-- `pairs`, after both filters.
unfoldable pub clean_pairs : List (Text × Text) → List (Text × Text)
clean_pairs [] = []
clean_pairs ((kind, source) ∷ more) =
    let rest = clean_pairs more in
    let pair : Text × Text = (lower (strip kind), lower (strip source)) in
    if not (is_empty pair.0) && not (is_empty pair.1) then pair ∷ rest else rest

unfoldable pub event_ids_for_sources : List (Text × Text) → List Event → List Text
event_ids_for_sources sources es =
    ids_where (λ e. contains (clean_pairs sources) (e.source_kind, e.source_id)) es

unfoldable pub forget_sources : ℕ → List (Text × Text) → Db → Result Fault (Counts × Db)
forget_sources clock sources db =
    forget_events clock (codes "source_forget") (event_ids_for_sources sources db.events) db

-- `now` is the deadline; the clock is the time of the call.
unfoldable pub prune_expired : ℕ → Option ℕ → Db → Result Fault (Counts × Db)
prune_expired clock now db =
    forget_events clock (codes "retention")
      (ids_where (λ e. leb e.expires_at (default clock now)) db.events) db
