-- ===== src/Daemon/Tests.antt =====
-- The theorem of the cadence at two processes.
use thread_keeper.Common.{Text, codes, ◌≡◌, refl, true, false, [], arith}
use thread_keeper.Daemon.State.{State, claim_pass, last_run_at}
use thread_keeper.Daemon.Cadence.{no_claim, then_claim, claim_pass-spaced}

abbrev curator : Text
curator = codes "curator"

abbrev claimed : State
claimed = (claim_pass false true curator 1000 5000 []).1

abbrev later : State
later = (claim_pass false true (codes "shadow") 60 5100 claimed).1

claim_run : (claim_pass false true curator 1000 5000 []).0 ≡ true
unfolding claim_pass last_run_at
claim_run = refl

claim_pass-spaced_example : claim_pass false true curator 1000 5700 later ≡ (false, later)
claim_pass-spaced_example =
    claim_pass-spaced curator [] later true 1000 1000 5000 5700 claim_run
      (then_claim false true (codes "shadow") 60 5100 no_claim (omega arith)) (omega arith)

-- The pass is due again once 0.8 of the interval has passed.
claim_again : (claim_pass false true curator 1000 5800 later).0 ≡ true
unfolding claim_pass last_run_at
claim_again = refl
