-- ===== src/Spawn/Walk.antt =====
-- The walk of a process tree.
use thread_keeper.Common.{
  Bool-cases, ◌==◌, ==_iff, nat_eq, pair_eq, length, contains, contains-append, text_eq, ℕ, zero,
  suc, ◌+◌, ◌≤◌, ◌<◌, ◌≡◌, refl, subst, ◌↔◌, inl, inr, true, false, ◌&&◌, Option, some, List, [],
  ◌∷◌, ◌++◌, arith,
}
use thread_keeper.Spawn.Tree.{
  Pairs, kids, next_level, grow, tree_of, is_listed, measure_tree_rss_kb, Descends, self, child,
  IsRanked,
}
use mathlib.Core.Logic.{∥∥₁_elim}
use mathlib.Core.Bool.{Bool-set}

kids-depth :
    (pairs : Pairs) (depth : ℕ → ℕ) (most p x : ℕ)
    → IsRanked pairs depth most
    → contains (kids pairs p) x ≡ true
    → (depth p < depth x) × (depth x ≤ most)
unfolding kids
kids-depth [] depth most p x h m = cc
kids-depth ((pid, ppid) ∷ pairs) depth most p x h m = elim (Bool-cases (ppid == p && pid == x)) [
  | inl this ↦
      let parent = (==_iff ppid p).0 (ground arith) in
      let kid = (==_iff pid x).0 (ground arith) in
      subst (λ q. (depth q < depth x) × (depth x ≤ most)) parent
        (subst (λ y. (depth ppid < depth y) × (depth y ≤ most)) kid h.0)
  | inr other ↦ kids-depth pairs depth most p x h.1 (ground arith)
]

level-kids :
    (pairs : Pairs) (ps : List ℕ) (x : ℕ)
    → contains (next_level pairs ps) x ≡ true
    → (p : ℕ) × (contains ps p ≡ true) × (contains (kids pairs p) x ≡ true)
unfolding next_level
level-kids pairs [] x m = cc
level-kids pairs (p ∷ ps) x m = elim (Bool-cases (contains (kids pairs p) x)) [
  | inl first ↦ (p, ground (arith, ==_iff p p), first)
  | inr later ↦
      let (q, n, k) =
        level-kids pairs ps x
          (ground (arith, contains-append (kids pairs p) (next_level pairs ps) x)) in
      (q, ground arith, k)
]

kids-level :
    (pairs : Pairs) (ps : List ℕ) (p x : ℕ)
    → contains ps p ≡ true
    → contains (kids pairs p) x ≡ true
    → contains (next_level pairs ps) x ≡ true
unfolding next_level
kids-level pairs [] p x m k = cc
kids-level pairs (q ∷ ps) p x m k = elim (Bool-cases (q == p)) [
  | inl same ↦
      let here =
        subst (λ y. contains (kids pairs y) x ≡ true)
          (let e : p ≡ q = ground (arith, ==_iff q p) in e) k in
      ground (arith, contains-append (kids pairs q) (next_level pairs ps) x)
  | inr other ↦
      ground
        (arith, contains-append (kids pairs q) (next_level pairs ps) x, kids-level pairs ps p x)
]

-- The tree so far, whose last level is to be followed.
record Inv (pairs : Pairs) (root : ℕ) (tree frontier : List ℕ) : Type 0 where
  rooted : contains tree root ≡ true
  sound : (x : ℕ) → contains tree x ≡ true → Descends pairs root x
  within : (x : ℕ) → contains frontier x ≡ true → contains tree x ≡ true
  closed :
      (p x : ℕ)
      → contains tree p ≡ true
      → contains frontier p ≡ false
      → contains (kids pairs p) x ≡ true
      → contains tree x ≡ true

level-Inv :
    (pairs : Pairs) (root : ℕ) (tree frontier : List ℕ)
    → Inv pairs root tree frontier
    → Inv pairs root (tree ++ next_level pairs frontier) (next_level pairs frontier)
level-Inv pairs root tree frontier inv =
    let level = next_level pairs frontier in
    record {
      rooted = ground (arith, contains-append tree level root, inv.rooted);
      sound = λ x m. elim (Bool-cases (contains tree x)) [
        | inl old ↦ inv.sound x old
        | inr new ↦
            let (p, at, k) =
              level-kids pairs frontier x (ground (arith, contains-append tree level x)) in
            child (inv.sound p (inv.within p at)) k
      ];
      within = λ x m. ground (arith, contains-append tree level x);
      closed = λ p x m n k. elim (Bool-cases (contains frontier p)) [
        | inl now ↦
            ground (arith, contains-append tree level x, kids-level pairs frontier p x now k)
        | inr before ↦ ground (
          arith,
          contains-append tree level x,
          inv.closed p x
              (let e : contains tree p ≡ true = ground (arith, contains-append tree level p) in e)
              before k,
        )
      ];
    }

grow-Inv :
    (fuel : ℕ) (pairs : Pairs) (root : ℕ) (depth : ℕ → ℕ) (most m : ℕ) (tree frontier : List ℕ)
    → IsRanked pairs depth most
    → Inv pairs root tree frontier
    → ((x : ℕ) → contains frontier x ≡ true → (m ≤ depth x) × (depth x ≤ most))
    → most + 1 ≤ fuel + m
    → (out : List ℕ) × (grow fuel pairs tree frontier ≡ some out) × Inv pairs root out []
unfolding grow
grow-Inv fuel pairs root depth most m tree [] ranked inv deep enough = (tree, refl, inv)
grow-Inv zero pairs root depth most m tree (p ∷ ps) ranked inv deep enough =
    absurd (omega (arith, deep p (ground (arith, ==_iff p p))))
grow-Inv (suc fuel) pairs root depth most m tree (p ∷ ps) ranked inv deep enough =
    grow-Inv fuel pairs root depth most (m + 1) (tree ++ next_level pairs (p ∷ ps))
      (next_level pairs (p ∷ ps)) ranked (level-Inv pairs root tree (p ∷ ps) inv)
      (λ x n.
        let (q, at, k) = level-kids pairs (p ∷ ps) x n in
        let (below, bound) = kids-depth pairs depth most q x ranked k in
        (omega (arith, deep q at, below), bound))
      (omega arith)

complete-tree :
    (pairs : Pairs) (root : ℕ) (tree : List ℕ)
    → Inv pairs root tree []
    → {x : ℕ} → Descends pairs root x
    → contains tree x ≡ true
complete-tree pairs root tree inv self = inv.rooted
complete-tree pairs root tree inv (child {p} {x} d k) =
    inv.closed p x (complete-tree pairs root tree inv d) refl k

listed-depth :
    (pairs : Pairs) (depth : ℕ → ℕ) (most pid : ℕ)
    → IsRanked pairs depth most
    → is_listed pairs pid ≡ true
    → depth pid ≤ most
listed-depth [] depth most pid h m = cc
listed-depth (p ∷ pairs) depth most pid h m = elim (Bool-cases (p.0 == pid)) [
  | inl same ↦ subst (λ x. depth x ≤ most) ((==_iff p.0 pid).0 same) h.0.1
  | inr other ↦ listed-depth pairs depth most pid h.1 (ground arith)
]

start-Inv : (pairs : Pairs) (root : ℕ) → Inv pairs root (root ∷ []) (root ∷ [])
start-Inv pairs root = record {
  rooted = ground (arith, ==_iff root root);
  sound = λ x m.
      subst (Descends pairs root) (let e : root ≡ x = ground (arith, ==_iff root x) in e) self;
  within = λ x m. m;
  closed = λ p x m n k. absurd (ground arith);
}

-- Where the pairs of `ps` form a tree (each process is below its parent, and none is deeper than
-- there are processes), the walk from a listed process with a positive id ends, and its memory is
-- measured over exactly the process and all that it has started, directly or not.
pub measure_tree_rss_kb-Descends :
    (pairs : Pairs) (rss : List ℕ → Option ℕ) (root : ℕ) (depth : ℕ → ℕ)
    → IsRanked pairs depth (length pairs)
    → is_listed pairs root ≡ true
    → (root == 0) ≡ false
    → (tree : List ℕ) × (measure_tree_rss_kb pairs rss root ≡ rss tree)
      × ((x : ℕ) → (contains tree x ≡ true) ↔ ∥ Descends pairs root x ∥₁)
unfolding measure_tree_rss_kb tree_of
measure_tree_rss_kb-Descends pairs rss root depth ranked listed positive =
    let (tree, e, inv) =
      grow-Inv (length pairs + 1) pairs root depth (length pairs) 0 (root ∷ []) (root ∷ []) ranked
        (start-Inv pairs root)
        (λ x m.
          let same : root ≡ x = ground (arith, ==_iff root x) in
          (
            omega arith,
            subst (λ y. depth y ≤ length pairs) same
                (listed-depth pairs depth (length pairs) root ranked listed),
          ))
        (omega arith) in
    (
      tree,
      rw (listed, positive, e, measure_tree_rss_kb, tree_of),
      λ x. (
        λ m. ∣ inv.sound x m ∣₁,
        λ d. ∥∥₁_elim d (Bool-set _ _) (λ r. complete-tree pairs root tree inv r),
      ),
    )
