-- ===== src/Forget/Selected.antt =====
-- Forgetting a selector, from the selector to the tables.
use thread_keeper.Common.{Text, ℕ, List}
use thread_keeper.Outcomes.Events.{Db as OutcomesDb}
use thread_keeper.Outcomes.Tables.{IsTable}
use thread_keeper.Forget.Targets.{Targets}
use thread_keeper.Forget.Plan.{Db, Selector, Plan, plan_of, tokens_of, creators}
use thread_keeper.Forget.Erased.{IsKeyedDb}

module _ (clock : ℕ) (k : Selector) (s : Text) (db : Db) (keyed : IsKeyedDb db)
    (table : IsTable db.outcomes.events) (claims evidence : List Text)
    (targets : Targets db.evidence db.claims
      (creators k s)
      (tokens_of k s db)
      claims
      evidence) where
  abbrev plan : Plan
  plan = plan_of k s db claims evidence
