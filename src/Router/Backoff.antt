-- ===== src/Router/Backoff.antt =====
-- The time after a failed pass.
use thread_keeper.Common.{◌≡◌, ◌⊎◌}
use thread_keeper.Router.Tick.{Action, skip, backoff}

-- A tick in the backoff does nothing.
Rests : Action → Type 0
Rests a = (a ≡ skip) ⊎ (a ≡ backoff)
