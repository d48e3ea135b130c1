-- ===== src/Authority/Invalidate/Ends.antt =====
-- The loop of `invalidate_descendants` ends within the fuel that it is given.
use thread_keeper.Common.{
  if◌then◌else◌, Bool-cases, ==_iff, nat_eq, pair_eq, length, contains, text_eq, ℕ, zero, suc, ◌+◌,
  ◌≤◌, ◌≡◌, refl, inl, inr, false, ◌||◌, some, List, [], ◌∷◌, arith,
}
use thread_keeper.Authority.Store.{Artifact, Derivation}
use thread_keeper.Authority.Invalidate.{children, push, walk, enough}

-- The derivations whose parent has not been visited.
unseen : List Derivation → List Artifact → ℕ
unseen [] seen = 0
unseen (d ∷ ds) seen = if contains seen d.parent then unseen ds seen else unseen ds seen + 1

length-push : (cs pending : List Artifact) → length (push cs pending) ≡ length cs + length pending
unfolding push
length-push [] pending = omega arith
length-push (c ∷ cs) pending = omega (arith, length-push cs (c ∷ pending))

unseen-nil : (ds : List Derivation) → unseen ds [] ≡ length ds
unfolding unseen
unseen-nil [] = refl
unseen-nil (d ∷ ds) = omega (arith, unseen-nil ds)

-- A visit queues exactly the derivations that stop to be counted.
unseen-visit :
    (ds : List Derivation) (a : Artifact) (seen : List Artifact)
    → contains seen a ≡ false
    → unseen ds (a ∷ seen) + length (children ds a) ≡ unseen ds seen
unfolding unseen children
unseen-visit [] a seen h = omega arith
unseen-visit (d ∷ ds) a seen h =
    ground (arith, unseen-visit ds a seen, ==_iff a d.parent, ==_iff d.parent a)

walk_ends :
    (fuel : ℕ) (ds : List Derivation) (preserved pending seen : List Artifact)
    → length pending + unseen ds seen ≤ fuel
    → (out : List Artifact) × (walk fuel ds preserved pending seen ≡ some out)
unfolding walk
walk_ends fuel ds preserved [] seen h = (seen, refl)
walk_ends zero ds preserved (a ∷ rest) seen h = absurd (omega arith)
walk_ends (suc fuel) ds preserved (a ∷ rest) seen h =
    elim (Bool-cases (contains seen a || contains preserved a)) [
      | inl skip ↦ rw (skip, walk) (walk_ends fuel ds preserved rest seen (omega arith))
      | inr fresh ↦
          rw (fresh, walk)
            (walk_ends fuel ds preserved (push (children ds a) rest) (a ∷ seen) (
              omega
                (arith, length-push (children ds a) rest, unseen-visit ds a seen (ground arith))))
    ]

pub walk-enough :
    (ds : List Derivation) (preserved pending : List Artifact)
    → (out : List Artifact) × (walk (enough ds pending) ds preserved pending [] ≡ some out)
walk-enough ds preserved pending =
    walk_ends (enough ds pending) ds preserved pending [] (omega (arith, unseen-nil ds))
