-- ===== src/Authority/Invalidate/Marks.antt =====
-- `invalidate_descendants` as a whole: which stamps it marks, and what it leaves alone.
use thread_keeper.Common.{
  if◌then◌else◌, Bool-cases, ◌==◌, ==_iff, nat_eq, pair_eq, contains, dedup_from,
  contains-dedup_from, Text, text_eq, ℕ, ◌+◌, ◌≡◌, refl, ◌↔◌, ◌⊎◌, inl, inr, true, Option, none,
  some, List, [], ◌∷◌, arith,
}
use thread_keeper.Authority.Store.{Artifact, Stamp, find_stamp, Store, artifact}
use thread_keeper.Authority.Invalidate.{
  invalidate_one, push, invalidate_descendants, invalidate_all, enough,
}
use thread_keeper.Authority.Invalidate.Reach.{contains-push, Reach, walk_collects}
use thread_keeper.Authority.Invalidate.Ends.{walk-enough}

-- What an artifact's stamp becomes when the artifact is forgotten.
abbrev pub mark : ℕ → Text → Option Stamp → Option Stamp
mark now reason none = none
mark now reason (some r) = elim r.invalidated_at [
  | none ↦ some (record r { invalidated_at = some now; invalidation_reason = some reason })
  | some _ ↦ some r
]

find_stamp-invalidate_one :
    (now : ℕ) (reason : Text) (a b : Artifact) (rs : List Stamp)
    → find_stamp (invalidate_one now reason a rs).1 b
      ≡ (if a == b then mark now reason (find_stamp rs b) else find_stamp rs b)
unfolding invalidate_one
find_stamp-invalidate_one now reason a b [] = ground arith
find_stamp-invalidate_one now reason a b (r ∷ rs) = ground (
  arith,
  find_stamp-invalidate_one now reason a b rs,
  ==_iff r.artifact a,
  ==_iff r.artifact b,
  ==_iff a b,
)

mark-mark :
    (now : ℕ) (reason : Text) (o : Option Stamp)
    → mark now reason (mark now reason o) ≡ mark now reason o
mark-mark now reason o = ground arith

find_stamp-invalidate_all :
    (now : ℕ) (reason : Text) (seen : List Artifact) (n : ℕ) (rs : List Stamp) (b : Artifact)
    → find_stamp (invalidate_all now reason seen (n, rs)).1 b
      ≡ (if contains seen b then mark now reason (find_stamp rs b) else find_stamp rs b)
unfolding invalidate_all
find_stamp-invalidate_all now reason [] n rs b = refl
find_stamp-invalidate_all now reason (a ∷ seen) n rs b =
    let step = invalidate_one now reason a rs in
    ground (
      arith,
      find_stamp-invalidate_all now reason seen (n + step.0) step.1 b,
      find_stamp-invalidate_one now reason a b rs,
      mark-mark now reason (find_stamp rs b),
    )

-- The stamps that have not been invalidated.
abbrev pub live_count : List Stamp → ℕ
live_count [] = 0
live_count (r ∷ rs) = elim r.invalidated_at [ none ↦ live_count rs + 1 | some _ ↦ live_count rs ]

live_count-invalidate_one :
    (now : ℕ) (reason : Text) (a : Artifact) (rs : List Stamp)
    → (invalidate_one now reason a rs).0 + live_count (invalidate_one now reason a rs).1
      ≡ live_count rs
unfolding invalidate_one
live_count-invalidate_one now reason a [] = refl
live_count-invalidate_one now reason a (r ∷ rs) =
    ground (arith, live_count-invalidate_one now reason a rs)

live_count-invalidate_all :
    (now : ℕ) (reason : Text) (seen : List Artifact) (n : ℕ) (rs : List Stamp)
    → (invalidate_all now reason seen (n, rs)).0
        + live_count (invalidate_all now reason seen (n, rs)).1
      ≡ n + live_count rs
unfolding invalidate_all
live_count-invalidate_all now reason [] n rs = refl
live_count-invalidate_all now reason (a ∷ seen) n rs =
    let step = invalidate_one now reason a rs in
    omega (
      arith,
      live_count-invalidate_all now reason seen (n + step.0) step.1,
      live_count-invalidate_one now reason a rs,
    )

contains-pending :
    (roots : List Artifact) (a : Artifact)
    → contains (push (dedup_from [] roots) []) a ≡ contains roots a
contains-pending roots a =
    ground (arith, contains-push (dedup_from [] roots) [] a, contains-dedup_from [] roots a)

-- What `invalidate_descendants` has done when it returns `n` and the store `s'`.
pub record Forgets (now : ℕ) (reason : Text) (roots preserve : List Artifact) (s s' : Store) (n : ℕ)
    : Type 0 where
  pub at :
      (a : Artifact)
      → (∥ Reach s.derivations preserve roots a ∥₁
          × (artifact s' a ≡ mark now reason (artifact s a)))
        ⊎ ((¬ Reach s.derivations preserve roots a) × (artifact s' a ≡ artifact s a))
  pub roots_kept : s'.roots ≡ s.roots
  pub derivations_kept : s'.derivations ≡ s.derivations
  pub counted : n + live_count s'.stamps ≡ live_count s.stamps

module _ (now : ℕ) (reason : Text) (roots preserve : List Artifact) (s : Store)
    (seen : List Artifact)
    (collects : (a : Artifact)
      → (contains seen a ≡ true) ↔ ∥ Reach s.derivations preserve roots a ∥₁) where
  result : ℕ × List Stamp
  result = invalidate_all now reason seen (0, s.stamps)

  decided :
      (a : Artifact)
      → (∥ Reach s.derivations preserve roots a ∥₁
          × (find_stamp result.1 a ≡ mark now reason (artifact s a)))
        ⊎ ((¬ Reach s.derivations preserve roots a) × (find_stamp result.1 a ≡ artifact s a))
  unfolding result
  decided a = elim (Bool-cases (contains seen a)) [
    | inl m ↦
        inl
          ((collects a).0 m, ground (arith, find_stamp-invalidate_all now reason seen 0 s.stamps a))
    | inr m ↦ inr (
      λ r. absurd (cc (m, (collects a).1 ∣ r ∣₁)),
      ground (arith, find_stamp-invalidate_all now reason seen 0 s.stamps a),
    )
  ]

  Forgets-result : Forgets now reason roots preserve s (record s { stamps = result.1 }) result.0
  unfolding result
  Forgets-result = record {
    at = decided;
    roots_kept = refl;
    derivations_kept = refl;
    counted = omega (arith, live_count-invalidate_all now reason seen 0 s.stamps);
  }

-- Forgetting always returns, within its fuel. An artifact that the derivations reach from the
-- roots, through artifacts that are not preserved, has its stamp invalidated unless it was
-- already; every other stamp, all roots and all derivations stay, and the number returned is the
-- number of stamps that were live and are no longer.
pub invalidate_descendants-Forgets :
    (now : ℕ) (reason : Text) (roots preserve : List Artifact) (s : Store)
    → (n : ℕ) × (s' : Store) × (invalidate_descendants now reason roots preserve s ≡ some (n, s'))
      × Forgets now reason roots preserve s s' n
unfolding result invalidate_descendants invalidate_all
invalidate_descendants-Forgets now reason roots preserve s =
    let pending = push (dedup_from [] roots) [] in
    let (seen, e) = walk-enough s.derivations preserve pending in
    let collects =
      walk_collects s.derivations preserve roots (enough s.derivations pending) pending seen
        (contains-pending roots) e in
    (
      (result now reason roots preserve s seen collects).0,
      record s { stamps = (result now reason roots preserve s seen collects).1 },
      rw (invalidate_descendants, e),
      Forgets-result now reason roots preserve s seen collects,
    )
