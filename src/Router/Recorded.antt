-- ===== src/Router/Recorded.antt =====
-- What a recorded set of decisions gives to the roles of its pass.
use thread_keeper.Common.{
  if◌then◌else◌, ◌==◌, nat_eq, pair_eq, All, Text, text_eq, ℕ, ◌≤◌, Option, none, some, List, [],
  ◌∷◌,
}
use thread_keeper.Router.Routes.{Route}
use thread_keeper.Router.Decisions.{Fields, Decision, not_object, object, clean, shown}

-- The first decision for a role.
abbrev pub decision_for : Text → List Decision → Option Fields
decision_for role [] = none
decision_for role (not_object ∷ ds) = decision_for role ds
decision_for role (object f ∷ ds) =
    if clean (shown f.role) == role then some f else decision_for role ds

abbrev pub AllBy : ℕ → List Route → Type 0
AllBy t rs = All (λ r. r.decided_at ≤ t) rs
