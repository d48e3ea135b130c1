-- ===== src/Authority/Derive.antt =====
-- `derive`: the loops that copy roots and write derivations, and the invariant.
use thread_keeper.Common.{
  if◌then◌else◌, Option-cases, ◌==◌, ==_iff, nat_eq, pair_eq, filter, all, All, contains, text_eq,
  ℕ, ◌≤◌, min, ◌≡◌, refl, ◌∙◌, inl, inr, true, false, some, List, [], ◌∷◌, ◌++◌, arith,
}
use thread_keeper.Authority.Invariant.{IsGrounded, min_level, min_level-insert_root}
use thread_keeper.Authority.Roots.{Preserves, roots_of-insert_root}
use thread_keeper.Authority.Stamp.{
  collect_roots, lowest, copy_roots, link_parents, new_root, derive_direct, new_stamp,
}
use thread_keeper.Authority.Store.{
  Artifact, Root, Store, level, roots_of, insert_derivation, insert_root, is_stamped, live,
  artifact, insert_stamp,
}

-- The least level of a list of roots, and 3 if it is empty.
unfoldable pub list_min : List Root → ℕ
list_min [] = 3
list_min (r ∷ rs) = min (level r.authority_class) (list_min rs)

pub level-lowest :
    (r : Root) (rs : List Root) → level (lowest r rs).authority_class ≡ list_min (r ∷ rs)
unfolding lowest list_min
level-lowest r [] = ground arith
level-lowest r (q ∷ qs) = ground (arith, level-lowest r qs, level-lowest q qs)

list_min-le : (rs : List Root) → list_min rs ≤ 3
unfolding list_min
list_min-le [] = omega arith
list_min-le (r ∷ rs) = omega (arith, list_min-le rs)

pub min_level-le : (rs : List Root) (a : Artifact) → min_level rs a ≤ 3
unfolding min_level
min_level-le [] a = omega arith
min_level-le (r ∷ rs) a = ground (arith, min_level-le rs a)

list_min-append : (rs qs : List Root) → list_min (rs ++ qs) ≡ min (list_min rs) (list_min qs)
unfolding list_min
list_min-append [] qs = omega (arith, list_min-le qs)
list_min-append (r ∷ rs) qs = omega (arith, list_min-append rs qs)

pub list_min-filter :
    (qs : List Root) (a : Artifact)
    → list_min (filter (λ (r : Root). r.artifact == a) qs) ≡ min_level qs a
unfolding list_min min_level
list_min-filter [] a = refl
list_min-filter (q ∷ qs) a = ground (arith, list_min-filter qs a)

-- The roots that `derive` collects are at most as strong as each parent's weakest.
pub collect_roots-le :
    (s : Store) (ps : List Artifact) (rs : List Root) (p : Artifact)
    → collect_roots s ps ≡ some rs
    → contains ps p ≡ true
    → list_min rs ≤ min_level s.roots p
unfolding collect_roots
collect_roots-le s [] rs p e m = cc
collect_roots-le s (q ∷ ps) rs p e m = elim (Option-cases (collect_roots s ps)) [
  | inl missing ↦ ground arith
  | inr (qs, found) ↦ ground (
    arith,
    collect_roots-le s ps qs p found,
    list_min-append (roots_of s q) qs,
    list_min-filter s.roots q,
    ==_iff q p,
  )
]

-- They are not empty, and the weakest of them is a parent's.
pub collect_roots-lower :
    (s : Store) (ps : List Artifact) (rs : List Root) (n : ℕ)
    → collect_roots s ps ≡ some rs
    → All (λ p. n ≤ min_level s.roots p) ps
    → n ≤ 3
    → n ≤ list_min rs
unfolding collect_roots list_min
collect_roots-lower s [] rs n e h k = ground arith
collect_roots-lower s (q ∷ ps) rs n e h k = elim (Option-cases (collect_roots s ps)) [
  | inl missing ↦ ground arith
  | inr (qs, found) ↦ ground (
    arith,
    collect_roots-lower s ps qs n found h.1,
    list_min-append (roots_of s q) qs,
    list_min-filter s.roots q,
  )
]

module _ (now : ℕ) (child : Artifact) where
  stamps-copy_roots : (rs : List Root) (s : Store) → (copy_roots now child rs s).stamps ≡ s.stamps
  unfolding copy_roots
  stamps-copy_roots [] s = refl
  stamps-copy_roots (r ∷ rs) s = ground (
    arith,
    stamps-copy_roots rs
        (insert_root (new_root now child r.authority_class r.principal r.channel) s),
  )

  min_level-copy_roots :
      (rs : List Root) (s : Store) (a : Artifact)
      → min_level (copy_roots now child rs s).roots a
        ≡ (if child == a then min (list_min rs) (min_level s.roots a) else min_level s.roots a)
  unfolding copy_roots list_min
  min_level-copy_roots [] s a = ground (arith, min_level-le s.roots a)
  min_level-copy_roots (r ∷ rs) s a =
      let q = new_root now child r.authority_class r.principal r.channel in
      ground (arith, min_level-copy_roots rs (insert_root q s) a, min_level-insert_root q s a)

  roots_of-copy_roots :
      (rs : List Root) (s : Store) (a : Artifact)
      → (child == a) ≡ false
      → roots_of (copy_roots now child rs s) a ≡ roots_of s a
  unfolding copy_roots
  roots_of-copy_roots [] s a ne = refl
  roots_of-copy_roots (r ∷ rs) s a ne =
      let q = new_root now child r.authority_class r.principal r.channel in
      roots_of-copy_roots rs (insert_root q s) a ne ∙ roots_of-insert_root q s a ne

  pub stamps-link_parents :
      (ps : List Artifact) (s : Store) → (link_parents now child ps s).stamps ≡ s.stamps
  unfolding link_parents
  stamps-link_parents [] s = refl
  stamps-link_parents (p ∷ ps) s = ground (
    arith,
    stamps-link_parents ps
        (insert_derivation (record { parent = p; child = child; created_at = now }) s),
  )

  pub roots-link_parents :
      (ps : List Artifact) (s : Store) → (link_parents now child ps s).roots ≡ s.roots
  unfolding link_parents
  roots-link_parents [] s = refl
  roots-link_parents (p ∷ ps) s = ground (
    arith,
    roots-link_parents ps
        (insert_derivation (record { parent = p; child = child; created_at = now }) s),
  )

-- The levels of the parents, where every parent is live: none is below `observed`.
pub live-level :
    (s : Store) (p : Artifact)
    → IsGrounded s
    → live (artifact s p) ≡ true
    → (1 ≤ min_level s.roots p) × (min_level s.roots p ≤ 2)
live-level s p h l = ground (arith, h.at p)

pub live-levels :
    (s : Store) (ps : List Artifact)
    → IsGrounded s
    → all (λ p. live (artifact s p)) ps ≡ true
    → All (λ p. 1 ≤ min_level s.roots p) ps
live-levels s [] h l = tt
live-levels s (p ∷ ps) h l =
    ((live-level s p h (ground arith)).0, live-levels s ps h (ground arith))

module _ (now : ℕ) (child : Artifact) (parents : List Artifact) (r : Root) (rs : List Root)
    (s : Store) (fresh : is_stamped s child ≡ false) where
  abbrev derived : Store
  derived = (derive_direct now child parents (r ∷ rs) s).1

  -- The child's stamp is the weakest of the roots, and no other artifact's changes.
  pub artifact-derive_direct :
      (a : Artifact)
      → artifact derived a ≡ (
          if child == a
          then some (
              new_stamp now child
                (lowest r rs).authority_class
                (lowest r rs).principal
                (lowest r rs).channel)
          else artifact s a)
  unfolding derive_direct
  artifact-derive_direct a =
      let low = lowest r rs in
      let s' = insert_stamp (new_stamp now child low.authority_class low.principal low.channel) s in
      ground (
        arith,
        stamps-link_parents now child parents (copy_roots now child (r ∷ rs) s'),
        stamps-copy_roots now child (r ∷ rs) s',
      )

  pub min_level-derive_direct :
      (a : Artifact)
      → min_level derived.roots a ≡ (
          if child == a then min (list_min (r ∷ rs)) (min_level s.roots a) else min_level s.roots a)
  unfolding derive_direct
  min_level-derive_direct a =
      let low = lowest r rs in
      let s' = insert_stamp (new_stamp now child low.authority_class low.principal low.channel) s in
      ground (
        arith,
        roots-link_parents now child parents (copy_roots now child (r ∷ rs) s'),
        min_level-copy_roots now child (r ∷ rs) s' a,
      )

  pub derive_direct-Preserves : Preserves s derived
  unfolding derive_direct
  derive_direct-Preserves = record {
    at = λ b m.
        let low = lowest r rs in
        let s' =
          insert_stamp (new_stamp now child low.authority_class low.principal low.channel) s in
        (
          ground (arith, artifact-derive_direct b, ==_iff child b),
          ground (
            arith,
            ==_iff child b,
            roots-link_parents now child parents (copy_roots now child (r ∷ rs) s'),
            roots_of-copy_roots now child (r ∷ rs) s' b,
          ),
        );
  }

  pub derive_direct-IsGrounded :
      IsGrounded s → 1 ≤ list_min (r ∷ rs) → list_min (r ∷ rs) ≤ 2 → IsGrounded derived
  derive_direct-IsGrounded h lo hi = record {
    at = λ a. ground (
      arith,
      h.at a,
      h.at child,
      ==_iff child a,
      artifact-derive_direct a,
      min_level-derive_direct a,
      level-lowest r rs,
    );
  }
