-- ===== src/Forget/Ends.antt =====
-- The rounds of the loop over forgotten supersessions.
use thread_keeper.Common.{
  Bool-cases, ◌==◌, ==_iff, nat_eq, pair_eq, length, filter, contains, contains-append, dedup_from,
  Text, text_eq, is_empty, ℕ, zero, suc, ◌+◌, ◌≤◌, ◌≡◌, refl, inl, inr, Bool, true, false, not,
  ◌&&◌, some, List, [], ◌∷◌, ◌++◌, map, arith,
}
use thread_keeper.Forget.Claims.{
  Evidence, evidence_of, evidence_from, claim_sources, ids_of, is_unsupported, new_claims, descend,
  include_supersede_descendants,
}

-- The evidence of the claims that are not selected.
outside : List Evidence → List Text → ℕ
outside rows claims = length (filter (λ (r : Evidence). not (contains claims r.claim_id)) rows)

outside-le : (rows : List Evidence) (claims : List Text) → outside rows claims ≤ length rows
unfolding outside
outside-le [] claims = omega arith
outside-le (r ∷ rows) claims = ground (arith, outside-le rows claims)

outside-append :
    (rows : List Evidence) (added claims : List Text)
    → outside rows (added ++ claims) ≤ outside rows claims
unfolding outside
outside-append [] added claims = omega arith
outside-append (r ∷ rows) added claims =
    ground (arith, outside-append rows added claims, contains-append added claims r.claim_id)

-- A claim with evidence that is added is counted no more.
outside-added :
    (rows : List Evidence) (c : Text) (added claims : List Text)
    → is_empty (ids_of (evidence_of rows (c ∷ []))) ≡ false
    → contains claims c ≡ false
    → outside rows ((c ∷ added) ++ claims) + 1 ≤ outside rows claims
unfolding outside
outside-added [] c added claims some_own fresh = cc
outside-added (r ∷ rows) c added claims some_own fresh = elim (Bool-cases (c == r.claim_id)) [
  | inl own ↦ ground (
    arith,
    outside-append rows (c ∷ added) claims,
    contains-append (c ∷ added) claims r.claim_id,
    ==_iff c r.claim_id,
  )
  | inr other ↦ ground (
    arith,
    outside-added rows c added claims,
    contains-append (c ∷ added) claims r.claim_id,
    ==_iff c r.claim_id,
  )
]

filter-head :
    {A : Type 0} (p : A → Bool) (xs : List A) (y : A) (ys : List A)
    → filter p xs ≡ y ∷ ys
    → p y ≡ true
filter-head p [] y ys h = cc
filter-head p (x ∷ xs) y ys h = elim (Bool-cases (p x)) [
  | inl pass ↦ ground arith
  | inr fail ↦ filter-head p xs y ys (ground arith)
]

-- The first claim of a round is new, and has evidence.
new_claims-head :
    (rows : List Evidence) (claims selected pending : List Text) (c : Text) (added : List Text)
    → new_claims rows claims selected pending ≡ c ∷ added
    → (contains claims c ≡ false) × (is_empty (ids_of (evidence_of rows (c ∷ []))) ≡ false)
unfolding new_claims is_unsupported
new_claims-head rows claims selected pending c added h =
    let pass =
      filter-head (λ c. not (contains claims c) && is_unsupported rows selected c)
        (dedup_from []
          (map (λ (r : Evidence). r.claim_id) (evidence_from rows (claim_sources pending))))
        c added h in
    (ground arith, ground arith)

-- The rest of the loop after a round: it is over, or a round with less to add follows.
abbrev Ends : ℕ → List Evidence → List Text → List Text → List Text → Type 0
Ends fuel rows claims selected pending =
    (out : List Text × List Text) × (descend fuel rows claims selected pending ≡ some out)

next-Ends :
    (fuel : ℕ) (rows : List Evidence) (claims selected added : List Text)
    → ((c : Text) (more : List Text) → added ≡ c ∷ more → Ends fuel rows claims selected added)
    → Ends fuel rows claims selected added
unfolding descend
next-Ends fuel rows claims selected [] h = ((claims, selected), refl)
next-Ends fuel rows claims selected (c ∷ more) h = h c more refl

descend-Ends :
    (fuel : ℕ) (rows : List Evidence) (claims selected pending : List Text)
    → outside rows claims + 1 ≤ fuel
    → Ends fuel rows claims selected pending
unfolding descend
descend-Ends fuel rows claims selected [] h = ((claims, selected), refl)
descend-Ends zero rows claims selected (p ∷ ps) h = absurd (omega arith)
descend-Ends (suc fuel) rows claims selected (p ∷ ps) h =
    let selected' = ids_of (evidence_from rows (claim_sources (p ∷ ps))) ++ selected in
    let added = new_claims rows claims selected' (p ∷ ps) in
    next-Ends fuel rows (added ++ claims) (ids_of (evidence_of rows added) ++ selected') added
      λ c more e.
        let (fresh, own) = new_claims-head rows claims selected' (p ∷ ps) c more e in
        let less : outside rows (added ++ claims) + 1 ≤ outside rows claims =
          rw e (outside-added rows c more claims own fresh) in
        descend-Ends fuel rows (added ++ claims) (ids_of (evidence_of rows added) ++ selected')
          added (omega (arith, less))

-- The loop over the forgotten supersessions ends within its fuel, whatever evidence there is.
pub include_supersede_descendants_ends :
    (rows : List Evidence) (claims selected : List Text)
    → (out : List Text × List Text) × (include_supersede_descendants rows claims selected
        ≡ some out)
unfolding include_supersede_descendants
include_supersede_descendants_ends rows claims selected =
    descend-Ends (length rows + 1) rows claims selected claims
      (omega (arith, outside-le rows claims))
