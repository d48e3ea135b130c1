-- ===== src/Spawn/Tree.antt =====
-- spawn_budget.py: the memory of a process tree, from the pairs of `ps` (a process and its parent).
use thread_keeper.Common.{
  if◌then◌else◌, ◌==◌, nat_eq, pair_eq, length, any, All, contains, text_eq, ℕ, zero, suc, ◌+◌, ◌≤◌,
  ◌<◌, ◌≡◌, Bool, true, not, ◌||◌, Option, none, some, List, [], ◌∷◌, ◌++◌,
}

abbrev pub Pairs : Type 0
Pairs = List (ℕ × ℕ)

-- `children_by_parent.get(p, ())`
unfoldable pub kids : Pairs → ℕ → List ℕ
kids [] p = []
kids ((pid, ppid) ∷ pairs) p = let rest = kids pairs p in if ppid == p then pid ∷ rest else rest

unfoldable pub next_level : Pairs → List ℕ → List ℕ
next_level pairs [] = []
next_level pairs (p ∷ ps) = kids pairs p ++ next_level pairs ps

-- The loop over the levels of the tree; `none` where the fuel ran out.
unfoldable pub grow : ℕ → Pairs → List ℕ → List ℕ → Option (List ℕ)
grow fuel pairs tree [] = some tree
grow zero pairs tree (p ∷ ps) = none
grow (suc fuel) pairs tree (p ∷ ps) =
    let level = next_level pairs (p ∷ ps) in grow fuel pairs (tree ++ level) level

-- A tree of processes has at most as many levels as processes.
unfoldable pub tree_of : Pairs → ℕ → Option (List ℕ)
tree_of pairs root = grow (length pairs + 1) pairs (root ∷ []) (root ∷ [])

abbrev pub is_listed : Pairs → ℕ → Bool
is_listed pairs pid = any (λ (p : ℕ × ℕ). p.0 == pid) pairs

-- `rss` is `_rss_for_pids`, what `ps` answers for the processes of the tree.
unfoldable pub measure_tree_rss_kb : Pairs → (List ℕ → Option ℕ) → ℕ → Option ℕ
measure_tree_rss_kb pairs rss root =
    if root == 0 || not (is_listed pairs root)
    then none
    else elim (tree_of pairs root) [ none ↦ none | some tree ↦ rss tree ]

-- A process and what it has started, directly or not.
pub data Descends (pairs : Pairs) (root : ℕ) : ℕ → Type 0 where
  self : Descends pairs root root
  child :
      {p x : ℕ} → Descends pairs root p → contains (kids pairs p) x ≡ true → Descends pairs root x

-- Each process is below its parent, and no deeper than there are processes.
abbrev pub IsRanked : Pairs → (ℕ → ℕ) → ℕ → Type 0
IsRanked pairs depth most = All (λ (p : ℕ × ℕ). (depth p.1 < depth p.0) × (depth p.0 ≤ most)) pairs
