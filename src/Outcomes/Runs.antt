-- ===== src/Outcomes/Runs.antt =====
-- The runs of the records of outcomes: the events that are recorded, the candidates that are
-- derived, and what is forgotten.
use thread_keeper.Common.{Text, ℕ, ◌≡◌, List, []}
use thread_keeper.Common.Results.{ok}
use thread_keeper.Access.Policy.{Caller}
use thread_keeper.Outcomes.Events.{
  Db, Submission, record_evaluation_event, derive_recovery_candidate,
}
use thread_keeper.Outcomes.Forget.{Counts, forget_events}

abbrev pub empty : Db
empty = record {
  events = [];
  candidates = [];
  next_id = 1;
  links = [];
  authority = record { stamps = []; roots = []; derivations = [] };
}

-- One call, whatever it returns. What is forgotten by objective, by source or by age is forgotten by
-- its ids.
pub data Step : Db → Db → Type 0 where
  recorded :
      {db : Db} (c : Caller) (clock : ℕ) (s : Submission)
      → Step db (record_evaluation_event c clock s db).1
  derived :
      {db : Db} (c : Caller) (clock : ℕ) (id : Text)
      → Step db (derive_recovery_candidate c clock id db).1
  forgot :
      {db : Db} (clock : ℕ) (reason : Text) (ids : List Text) (n : Counts) (db' : Db)
      → forget_events clock reason ids db ≡ ok (n, db')
      → Step db db'

-- What calls lead to, from a state.
pub data Run (start : Db) : Db → Type 0 where
  here : Run start start
  next : {db db' : Db} → Run start db → Step db db' → Run start db'
