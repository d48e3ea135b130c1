-- ===== src/Authority/Derivations.antt =====
-- The derivations that authority.py's `derive` adds.
use thread_keeper.Common.{
  ◌==◌, nat_eq, pair_eq, contains, dedup_from, contains-dedup_from, codes, text_eq, ℕ, ◌≡◌, ◌&&◌,
  ◌||◌, List, [], ◌∷◌, arith,
}
use thread_keeper.Authority.Closed.{
  derives, derives-link, derivations-copy_roots, derivations-record_root,
}
use thread_keeper.Authority.Weakest.{delegated, direct, refused, derive-Derived}
use thread_keeper.Access.Policy.{Caller}
use thread_keeper.Authority.Store.{Artifact, Root, Store, observed, insert_stamp}
use thread_keeper.Authority.Stamp.{
  record_root, copy_roots, derive_direct, derive_delegated, derive, lowest, child_principal,
  new_stamp,
}

derives-derive_direct :
    (now : ℕ) (child : Artifact) (parents : List Artifact) (r : Root) (rs : List Root) (s : Store)
    (a b : Artifact)
    → derives (derive_direct now child parents (r ∷ rs) s).1 a b
      ≡ (derives s a b || contains parents a && child == b)
unfolding derive_direct
derives-derive_direct now child parents r rs s a b =
    let low = lowest r rs in
    let s' = insert_stamp (new_stamp now child low.authority_class low.principal low.channel) s in
    ground (
      arith,
      derives-link now child parents (copy_roots now child (r ∷ rs) s') a b,
      derivations-copy_roots now child (r ∷ rs) s',
    )

derives-derive_delegated :
    (c : Caller) (now : ℕ) (child : Artifact) (parents : List Artifact) (s : Store) (a b : Artifact)
    → derives (derive_delegated c now child parents s).1 a b ≡ (
        derives s a b
        || (derive_delegated c now child parents s).0 && contains parents a && child == b)
unfolding derive_delegated
derives-derive_delegated c now child parents s a b =
    let r = record_root c now child observed (child_principal c) (codes "spawned") s in
    ground (
      arith,
      derives-link now child parents r.1 a b,
      derivations-record_root c now child observed (child_principal c) (codes "spawned") s,
    )

-- `derive_direct` with the parents and the roots that it is called with.
derives-collected :
    (now : ℕ) (child : Artifact) (parents : List Artifact) (rs : List Root) (s : Store)
    (a b : Artifact)
    → derives (derive_direct now child (dedup_from [] parents) rs s).1 a b ≡ (
        derives s a b
        || (derive_direct now child (dedup_from [] parents) rs s).0
          && contains parents a
          && child == b)
unfolding derive_direct
derives-collected now child parents [] s a b = ground arith
derives-collected now child parents (r ∷ rs) s a b = ground (
  arith,
  derives-derive_direct now child (dedup_from [] parents) r rs s a b,
  contains-dedup_from [] parents a,
)

-- What `derive` adds to the derivations: the child, from each of the parents, if it succeeds.
pub derives-derive :
    (c : Caller) (now : ℕ) (child : Artifact) (parents : List Artifact) (s : Store) (a b : Artifact)
    → derives (derive c now child parents s).1 a b
      ≡ (derives s a b || (derive c now child parents s).0 && contains parents a && child == b)
derives-derive c now child parents s a b = elim (derive-Derived c now child parents s) [
  | refused e ↦ rw e (ground arith)
  | direct rs fresh l collected some_parent e ↦ rw e (derives-collected now child parents rs s a b)
  | delegated d fresh l e ↦ rw e (
      ground (
        arith,
        derives-derive_delegated c now child (dedup_from [] parents) s a b,
        contains-dedup_from [] parents a,
      ))
]
