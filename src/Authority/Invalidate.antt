-- ===== src/Authority/Invalidate.antt =====
-- authority.py: `invalidate_descendants`. The order in which SQLite returns rows is the order of
-- the list; the set `seen` is a list without duplicates.
pub mod Marks
pub mod Reach
pub mod Ends
use thread_keeper.Common.{
  if◌then◌else◌, ◌==◌, nat_eq, pair_eq, length, contains, dedup_from, Text, text_eq, ℕ, zero, suc,
  ◌+◌, Bool, true, false, ◌&&◌, ◌||◌, Option, none, some, List, [], ◌∷◌,
}
use thread_keeper.Authority.Store.{Artifact, Stamp, Derivation, Store}

-- `SELECT child_kind, child_id FROM memory_derivations WHERE parent_kind=? AND parent_id=?`
unfoldable pub children : List Derivation → Artifact → List Artifact
children [] a = []
children (d ∷ ds) a = let rest = children ds a in if d.parent == a then d.child ∷ rest else rest

-- The head of the list is the end of `pending`: `extend`, read from the end.
unfoldable pub push : List Artifact → List Artifact → List Artifact
push [] pending = pending
push (c ∷ cs) pending = push cs (c ∷ pending)

-- The `while` loop; `none` where the fuel ran out.
unfoldable pub walk :
    ℕ → List Derivation → List Artifact → List Artifact → List Artifact → Option (List Artifact)
walk fuel ds preserved [] seen = some seen
walk zero ds preserved (a ∷ rest) seen = none
walk (suc fuel) ds preserved (a ∷ rest) seen =
    let skip = contains seen a || contains preserved a in
    walk fuel ds preserved (if skip then rest else push (children ds a) rest)
      (if skip then seen else a ∷ seen)

abbrev matches : Artifact → Stamp → Bool
matches a r = r.artifact == a && elim r.invalidated_at [ none ↦ true | some _ ↦ false ]

-- `UPDATE memory_authority SET .. WHERE .. AND invalidated_at IS NULL`, and its `rowcount`.
unfoldable pub invalidate_one : ℕ → Text → Artifact → List Stamp → ℕ × List Stamp
invalidate_one now reason a [] = (0, [])
invalidate_one now reason a (r ∷ rs) =
    let (n, rs') = invalidate_one now reason a rs in
    if matches a r
    then (n + 1, record r { invalidated_at = some now; invalidation_reason = some reason } ∷ rs')
    else (n, r ∷ rs')

unfoldable pub invalidate_all : ℕ → Text → List Artifact → ℕ × List Stamp → ℕ × List Stamp
invalidate_all now reason [] acc = acc
invalidate_all now reason (a ∷ more) (changed, rs) =
    let (n, rs') = invalidate_one now reason a rs in
    invalidate_all now reason more (changed + n, rs')

-- One round takes one entry off `pending`, and a derivation adds one entry at most once.
abbrev pub enough : List Derivation → List Artifact → ℕ
enough ds roots = length roots + length ds

unfoldable pub invalidate_descendants :
    ℕ → Text → List Artifact → List Artifact → Store → Option (ℕ × Store)
invalidate_descendants now reason roots preserve s =
    let pending = push (dedup_from [] roots) [] in
    elim (walk (enough s.derivations pending) s.derivations preserve pending []) [
      | none ↦ none
      | some seen ↦
          let (changed, rs) = invalidate_all now reason seen (0, s.stamps) in
          some (changed, record s { stamps = rs })
    ]
