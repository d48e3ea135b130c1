-- ===== src/Authority/Stamp.antt =====
-- authority.py: the writes that stamp an artifact. Each returns whether it stamped, and the store.
use thread_keeper.Common.{
  ltb, if◌then◌else◌, ◌==◌, nat_eq, pair_eq, all, contains, dedup_from, Text, codes, text_eq,
  is_empty, strip, lower, ℕ, Bool, true, false, not, ◌&&◌, Option, none, some, List, [], ◌∷◌, ◌++◌,
}
use thread_keeper.Access.Policy.{Caller, Access, write, is_delegated, effective_origin}
use thread_keeper.Authority.Store.{
  Class, unknown, observed, trusted, level, class_eq, valid, Artifact, Stamp, Root, Store, artifact,
  is_stamped, live, roots_of, insert_stamp, insert_root, insert_derivation,
}

abbrev trusted_origins : List Text
trusted_origins = codes "foreground" ∷ codes "user" ∷ []

abbrev observed_origins : List Text
observed_origins =
    codes "background_review"
    ∷ codes "candidate_review"
    ∷ codes "curator"
    ∷ codes "evolve"
    ∷ codes "evolve_apply"
    ∷ codes "panel_vote"
    ∷ codes "probe"
    ∷ codes "shadow"
    ∷ codes "shadow_review"
    ∷ codes "spawned"
    ∷ []

-- `_ORIGIN_AUTHORITY.get(key)`
unfoldable pub origin_authority : Text → Option Class
origin_authority key =
    if contains trusted_origins key
    then some trusted
    else if contains observed_origins key
    then some observed
    else none

unfoldable pub authority_for_origin : Caller → Text → Option Class
authority_for_origin c origin = origin_authority (lower (strip (effective_origin c origin)))

abbrev can_write : Access → Bool
can_write write = true
can_write _ = false

-- `"child:" + (policy.child_cid or _review_origin.get())`
abbrev pub child_principal : Caller → Text
child_principal c =
    codes "child:" ++ (if is_empty c.policy.child_cid then c.review_origin else c.policy.child_cid)

abbrev pub new_stamp : ℕ → Artifact → Class → Text → Text → Stamp
new_stamp now a class principal channel = record {
  artifact = a;
  authority_class = class;
  source_principal = principal;
  source_channel = channel;
  created_at = now;
  invalidated_at = none;
  invalidation_reason = none;
}

abbrev pub new_root : ℕ → Artifact → Class → Text → Text → Root
new_root now a class principal channel = record {
  artifact = a;
  principal = principal;
  channel = channel;
  authority_class = class;
  created_at = now;
}

-- `record_root` once the caller's policy has been applied.
unfoldable pub stamp_root : ℕ → Artifact → Class → Text → Text → Store → Bool × Store
stamp_root now a class principal channel s =
    if not
      (valid class && not (class == unknown) && not (is_empty principal) && not (is_empty channel))
    then (false, s)
    else if is_stamped s a
    then (true, s)
    else (
      true,
      insert_root (new_root now a class principal channel)
          (insert_stamp (new_stamp now a class principal channel) s),
    )

unfoldable pub record_root : Caller → ℕ → Artifact → Class → Text → Text → Store → Bool × Store
record_root c now a class principal channel s =
    if is_delegated c
    then (if can_write c.policy.access
        then stamp_root now a observed (child_principal c) (effective_origin c channel) s
        else (false, s))
    else stamp_root now a class principal channel s

unfoldable pub record_origin_root :
    Caller → ℕ → Artifact → Text → Text → Text → Store → Bool × Store
record_origin_root c now a write_origin principal channel s =
    elim (authority_for_origin c write_origin) [
      | none ↦ (false, s)
      | some class ↦
          record_root c now a class
            (if is_empty principal then codes "unknown-principal" else principal) channel s
    ]

-- The roots of all parents; `none` where a parent has none.
unfoldable pub collect_roots : Store → List Artifact → Option (List Root)
collect_roots s [] = some []
collect_roots s (p ∷ ps) =
    let rest = collect_roots s ps in
    if is_empty (roots_of s p)
    then none
    else elim rest [ none ↦ none | some rs ↦ some (roots_of s p ++ rs) ]

-- `min(roots, key=level)`: the first of the least.
unfoldable pub lowest : Root → List Root → Root
lowest r [] = r
lowest r (q ∷ qs) =
    lowest (if ltb (level q.authority_class) (level r.authority_class) then q else r) qs

unfoldable pub copy_roots : ℕ → Artifact → List Root → Store → Store
copy_roots now child [] s = s
copy_roots now child (r ∷ rs) s =
    copy_roots now child rs
      (insert_root (new_root now child r.authority_class r.principal r.channel) s)

unfoldable pub link_parents : ℕ → Artifact → List Artifact → Store → Store
link_parents now child [] s = s
link_parents now child (p ∷ ps) s =
    link_parents now child ps
      (insert_derivation (record { parent = p; child = child; created_at = now }) s)

-- The end of `derive`: by a delegated caller, and by the user's own process.
unfoldable pub derive_delegated : Caller → ℕ → Artifact → List Artifact → Store → Bool × Store
derive_delegated c now child parents s =
    let (stamped, s') = record_root c now child observed (child_principal c) (codes "spawned") s in
    if stamped then (true, link_parents now child parents s') else (false, s')

unfoldable pub derive_direct : ℕ → Artifact → List Artifact → List Root → Store → Bool × Store
derive_direct now child parents [] s = (false, s)
derive_direct now child parents (r ∷ rs) s =
    let low = lowest r rs in
    (
      true,
      link_parents now child parents (
          copy_roots now child (r ∷ rs)
            (insert_stamp (new_stamp now child low.authority_class low.principal low.channel) s)),
    )

unfoldable pub derive : Caller → ℕ → Artifact → List Artifact → Store → Bool × Store
derive c now child parents s =
    let unique = dedup_from [] parents in
    if is_empty unique
    then (false, s)
    else if is_stamped s child
    then (false, s)
    else if not (all (λ p. live (artifact s p)) unique)
    then (false, s)
    else elim (collect_roots s unique) [
      | none ↦ (false, s)
      | some roots ↦
          if is_delegated c
          then derive_delegated c now child unique s
          else derive_direct now child unique roots s
    ]
