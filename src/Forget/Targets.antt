-- ===== src/Forget/Targets.antt =====
-- The claims and the evidence that a forgotten source takes with it.
use thread_keeper.Common.{
  nat_eq, pair_eq, contains, Text, text_eq, ℕ, zero, suc, ◌≡◌, subst, Bool, true, false, ◌||◌, some,
  List, [], ◌∷◌, arith,
}
use mathlib.Core.List.{Memᴰ}
use thread_keeper.Forget.Claims.{Evidence, Claim, is_in, claim_sources, is_unsupported, descend}
use thread_keeper.Forget.Closure.{names, IdsKeyed, Inv}
use thread_keeper.Forget.Round.{round-Inv}

-- What the selection of a source is: the evidence that names the source, the claims that it created,
-- and what hangs on them. A claim with selected evidence goes exactly if all its evidence goes.
pub record Targets (rows : List Evidence) (claims : List Claim) (created_by tokens : List Text)
    (out : List Text) (evidence : List Text) : Type 0 where
  pub by_source :
      (r : Evidence) → Memᴰ r rows → is_in tokens r.source ≡ true → contains evidence r.id ≡ true
  pub by_creator :
      (c : Claim)
      → Memᴰ c claims
      → is_in created_by c.created_by_cid ≡ true
      → contains out c.id ≡ true
  pub own :
      (r : Evidence) → Memᴰ r rows → contains out r.claim_id ≡ true → contains evidence r.id ≡ true
  pub inherited :
      (r : Evidence) (c : Text)
      → Memᴰ r rows
      → contains out c ≡ true
      → names c r ≡ true
      → contains evidence r.id ≡ true
  pub exact :
      (r : Evidence)
      → Memᴰ r rows
      → contains evidence r.id ≡ true
      → contains out r.claim_id ≡ is_unsupported rows evidence r.claim_id
  pub justified :
      (id : Text)
      → contains evidence id ≡ true
      → (r : Evidence) × Memᴰ r rows
        × (r.id ≡ id)
        × ((is_in tokens r.source || is_in (claim_sources out) r.source || contains out r.claim_id)
            ≡ true)

pub others_hold : (a b c : Bool) → a ≡ false → (a || b || c) ≡ true → (b || c) ≡ true
others_hold a b c f h = ground arith

pub descend-Inv :
    (fuel : ℕ) (rows : List Evidence)
    (claims_0 selected_0 claims selected pending out evidence : List Text)
    → IdsKeyed rows
    → descend fuel rows claims selected pending ≡ some (out, evidence)
    → Inv rows claims_0 selected_0 claims selected pending
    → Inv rows claims_0 selected_0 out evidence []
unfolding descend
descend-Inv fuel rows claims_0 selected_0 claims selected [] out evidence keyed e inv =
    let p : (claims, selected) ≡ (out, evidence) = cc in
    subst (λ (x : List Text × List Text). Inv rows claims_0 selected_0 x.0 x.1 []) p inv
descend-Inv zero rows claims_0 selected_0 claims selected (p ∷ ps) out evidence keyed e inv = cc
descend-Inv (suc fuel) rows claims_0 selected_0 claims selected (p ∷ ps) out evidence keyed e inv =
    descend-Inv fuel rows claims_0 selected_0 _ _ _ out evidence keyed e
      (round-Inv rows keyed claims_0 selected_0 claims selected (p ∷ ps) inv)
