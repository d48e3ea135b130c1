-- ===== src/Outcomes/Final.antt =====
-- Forgotten records, in the calls that follow.
use thread_keeper.Common.{nat_eq, pair_eq, Text, text_eq, ◌≡◌, true}
use thread_keeper.Common.Results.{ok}
use thread_keeper.Authority.Store.{Store, artifact}
use thread_keeper.Authority.Dead.{dead}
use thread_keeper.Outcomes.Events.{Db, event_artifact}
use thread_keeper.Github.Observe.{ok}

-- Whether the stamp of a record was invalidated.
abbrev IsDead : Text → Db → Type 0
IsDead id db = dead (artifact db.authority (event_artifact id)) ≡ true
