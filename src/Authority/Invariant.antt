-- ===== src/Authority/Invariant.antt =====
-- The invariant of the provenance store: a stamp is as strong as the weakest root of its artifact.
use thread_keeper.Common.{
  if◌then◌else◌, ◌==◌, ==_iff, nat_eq, pair_eq, any, text_eq, ℕ, ◌≤◌, min, ◌≡◌, ◌⊎◌, true, Option,
  none, some, List, [], ◌∷◌, arith,
}
use thread_keeper.Authority.Store.{
  observed, trusted, level, class_eq, Artifact, Stamp, Root, Store, artifact, insert_root,
  same_root,
}

-- The least level among the roots of `a`, and 3 where it has none.
unfoldable pub min_level : List Root → Artifact → ℕ
min_level [] a = 3
min_level (q ∷ qs) a =
    let rest = min_level qs a in
    if q.artifact == a then min (level q.authority_class) rest else rest

-- What the invariant says of one artifact.
abbrev pub Grounded : Option Stamp → ℕ → Type 0
Grounded none n = n ≡ 3
Grounded (some r) n =
    (n ≡ level r.authority_class) × ((r.authority_class ≡ observed) ⊎ (r.authority_class ≡ trusted))

-- An artifact has roots exactly if it is stamped, and then its class is that of its weakest root,
-- and is observed or trusted.
pub record IsGrounded (s : Store) : Type 0 where
  pub at : (a : Artifact) → Grounded (artifact s a) (min_level s.roots a)

same_root-min_level :
    (r : Root) (qs : List Root)
    → any (same_root r) qs ≡ true
    → min_level qs r.artifact ≤ level r.authority_class
unfolding min_level
same_root-min_level r [] h = cc
same_root-min_level r (q ∷ qs) h = ground (
  arith,
  same_root-min_level r qs,
  ==_iff r.artifact q.artifact,
  ==_iff q.artifact r.artifact,
  ==_iff r.authority_class q.authority_class,
)

pub min_level-insert_root :
    (r : Root) (s : Store) (a : Artifact)
    → min_level (insert_root r s).roots a ≡ (
        if r.artifact == a
        then min (level r.authority_class) (min_level s.roots a)
        else min_level s.roots a)
unfolding min_level
min_level-insert_root r s a = ground (arith, same_root-min_level r s.roots, ==_iff r.artifact a)
