-- ===== src/Authority/Weakest.antt =====
-- `derive` as a whole, in the user's own process and in a delegated one.
use thread_keeper.Common.{
  Bool-cases, ==_iff, nat_eq, pair_eq, all, contains, dedup_from, codes, text_eq, is_empty, ℕ, ◌≤◌,
  ◌≡◌, refl, inl, inr, Bool, true, false, Option, none, some, List, [], ◌∷◌, arith,
}
use thread_keeper.Access.Policy.{Caller, is_delegated}
use thread_keeper.Authority.Derive.{
  stamps-link_parents, roots-link_parents, list_min, derive_direct-Preserves,
  derive_direct-IsGrounded, collect_roots-lower, live-levels, collect_roots-le, live-level,
}
use thread_keeper.Authority.Store.{
  Artifact, Store, live, Root, artifact, is_stamped, observed, Stamp, level,
}
use thread_keeper.Authority.Roots.{Preserves, record_root-Preserves, record_root-IsGrounded}
use thread_keeper.Authority.Invariant.{IsGrounded}
use thread_keeper.Authority.Stamp.{
  derive, collect_roots, derive_direct, derive_delegated, record_root, child_principal,
  link_parents,
}

-- Two stores with the same stamps and roots.
IsGrounded-same :
    (s t : Store) → t.stamps ≡ s.stamps → t.roots ≡ s.roots → IsGrounded s → IsGrounded t
IsGrounded-same s t e f h = record { at = λ a. rw (e, f) (h.at a) }

Preserves-same :
    (s t u : Store) → u.stamps ≡ t.stamps → u.roots ≡ t.roots → Preserves s t → Preserves s u
Preserves-same s t u e f h = record { at = λ a m. rw (e, f) (h.at a m) }

pub Preserves-refl : (s : Store) → Preserves s s
Preserves-refl s = record { at = λ a m. (refl, refl) }

pub live_of_contains :
    (s : Store) (ps : List Artifact) (p : Artifact)
    → all (λ q. live (artifact s q)) ps ≡ true
    → contains ps p ≡ true
    → live (artifact s p) ≡ true
live_of_contains s [] p l m = cc
live_of_contains s (q ∷ ps) p l m = ground (arith, live_of_contains s ps p, ==_iff q p)

-- What a successful call of `derive` has gone through.
pub data Derived (c : Caller) (now : ℕ) (child : Artifact) (parents : List Artifact) (s : Store)
    : Bool × Store → Type 0 where
  refused : {r : Bool × Store} → r ≡ (false, s) → Derived c now child parents s r
  direct :
      {r : Bool × Store}
      → (roots : List Root) → is_stamped s child ≡ false
      → all (λ p. live (artifact s p)) (dedup_from [] parents) ≡ true
      → collect_roots s (dedup_from [] parents) ≡ some roots
      → is_empty (dedup_from [] parents) ≡ false
      → r ≡ derive_direct now child (dedup_from [] parents) roots s
      → Derived c now child parents s r
  delegated :
      {r : Bool × Store}
      → is_delegated c ≡ true
      → is_stamped s child ≡ false
      → all (λ p. live (artifact s p)) (dedup_from [] parents) ≡ true
      → r ≡ derive_delegated c now child (dedup_from [] parents) s
      → Derived c now child parents s r

pub derive-Derived :
    (c : Caller) (now : ℕ) (child : Artifact) (parents : List Artifact) (s : Store)
    → Derived c now child parents s (derive c now child parents s)
unfolding derive
derive-Derived c now child parents s =
    go (is_empty unique) (is_stamped s child) (all (λ p. live (artifact s p)) unique)
      (collect_roots s unique) (is_delegated c) refl refl refl refl refl
  where
    unique : List Artifact
    unique = dedup_from [] parents

    go :
        (e st l : Bool) (rs : Option (List Root)) (d : Bool)
        → is_empty unique ≡ e
        → is_stamped s child ≡ st
        → all (λ p. live (artifact s p)) unique ≡ l
        → collect_roots s unique ≡ rs
        → is_delegated c ≡ d
        → Derived c now child parents s (derive c now child parents s)
    go true st l rs d p1 p2 p3 p4 p5 = refused (rw (derive, p1))
    go false true l rs d p1 p2 p3 p4 p5 = refused (rw (derive, p1, p2))
    go false false false rs d p1 p2 p3 p4 p5 = refused (rw (derive, p1, p2, p3))
    go false false true none d p1 p2 p3 p4 p5 = refused (rw (derive, p1, p2, p3, p4))
    go false false true (some rs) false p1 p2 p3 p4 p5 =
        direct rs p2 p3 p4 p1 (rw (derive, p1, p2, p3, p4, p5))
    go false false true (some rs) true p1 p2 p3 p4 p5 =
        delegated p5 p2 p3 (rw (derive, p1, p2, p3, p4, p5))

module _ (c : Caller) (now : ℕ) (child : Artifact) (parents : List Artifact) (s : Store) where
  derive_delegated-IsGrounded : IsGrounded s → IsGrounded (derive_delegated c now child parents s).1
  unfolding derive_delegated
  derive_delegated-IsGrounded h =
      let r = record_root c now child observed (child_principal c) (codes "spawned") s in
      elim (Bool-cases r.0) [
        | inl e ↦ rw e (
            IsGrounded-same r.1 (link_parents now child parents r.1)
              (stamps-link_parents now child parents r.1) (roots-link_parents now child parents r.1)
              (record_root-IsGrounded c now child observed (child_principal c) (codes "spawned") s
                h))
        | inr e ↦
            rw e (
              record_root-IsGrounded c now child observed (child_principal c) (codes "spawned") s h)
      ]

  derive_delegated-Preserves : Preserves s (derive_delegated c now child parents s).1
  unfolding derive_delegated
  derive_delegated-Preserves =
      let r = record_root c now child observed (child_principal c) (codes "spawned") s in
      elim (Bool-cases r.0) [
        | inl e ↦ rw e (
            Preserves-same s r.1 (link_parents now child parents r.1)
              (stamps-link_parents now child parents r.1) (roots-link_parents now child parents r.1)
              (record_root-Preserves c now child observed (child_principal c) (codes "spawned") s))
        | inr e ↦
            rw e
              (record_root-Preserves c now child observed (child_principal c) (codes "spawned") s)
      ]

-- The weakest root of live parents is observed or trusted.
collected_levels :
    (s : Store) (ps : List Artifact) (rs : List Root)
    → IsGrounded s
    → all (λ p. live (artifact s p)) ps ≡ true
    → collect_roots s ps ≡ some rs
    → is_empty ps ≡ false
    → (1 ≤ list_min rs) × (list_min rs ≤ 2)
collected_levels s [] rs h l e n = cc
collected_levels s (p ∷ ps) rs h l e n = (
  collect_roots-lower s (p ∷ ps) rs 1 e (live-levels s (p ∷ ps) h l) (omega arith),
  omega (
    arith,
    collect_roots-le s (p ∷ ps) rs p e (ground (arith, ==_iff p p)),
    live-level s p h (ground arith),
  ),
)

direct-IsGrounded :
    (now : ℕ) (child : Artifact) (ps : List Artifact) (rs : List Root) (s : Store)
    → is_stamped s child ≡ false
    → (1 ≤ list_min rs) × (list_min rs ≤ 2)
    → IsGrounded s
    → IsGrounded (derive_direct now child ps rs s).1
direct-IsGrounded now child ps [] s fresh b h = unfold derive_direct in h
direct-IsGrounded now child ps (r ∷ rs) s fresh b h =
    derive_direct-IsGrounded now child ps r rs s fresh h b.0 b.1

direct-Preserves :
    (now : ℕ) (child : Artifact) (ps : List Artifact) (rs : List Root) (s : Store)
    → is_stamped s child ≡ false
    → Preserves s (derive_direct now child ps rs s).1
direct-Preserves now child ps [] s fresh = unfold derive_direct in Preserves-refl s
direct-Preserves now child ps (r ∷ rs) s fresh = derive_direct-Preserves now child ps r rs s fresh

Derived-IsGrounded :
    {c : Caller} {now : ℕ} {child : Artifact} {parents : List Artifact} {s : Store}
    {r : Bool × Store}
    → Derived c now child parents s r
    → IsGrounded s
    → IsGrounded r.1
Derived-IsGrounded (refused e) h = rw e h
Derived-IsGrounded {now} {child} {parents} {s} (direct roots fresh l e n p) h = rw p (
    direct-IsGrounded now child (dedup_from [] parents) roots s fresh
      (collected_levels s (dedup_from [] parents) roots h l e n) h)
Derived-IsGrounded {c} {now} {child} {parents} {s} (delegated d fresh l p) h =
    rw p (derive_delegated-IsGrounded c now child (dedup_from [] parents) s h)

Derived-Preserves :
    {c : Caller} {now : ℕ} {child : Artifact} {parents : List Artifact} {s : Store}
    {r : Bool × Store}
    → Derived c now child parents s r
    → Preserves s r.1
Derived-Preserves {s} (refused e) = rw e (Preserves-refl s)
Derived-Preserves {now} {child} {parents} {s} (direct roots fresh l e n p) =
    rw p (direct-Preserves now child (dedup_from [] parents) roots s fresh)
Derived-Preserves {c} {now} {child} {parents} {s} (delegated d fresh l p) =
    rw p (derive_delegated-Preserves c now child (dedup_from [] parents) s)

pub derive-IsGrounded :
    (c : Caller) (now : ℕ) (child : Artifact) (parents : List Artifact) (s : Store)
    → IsGrounded s
    → IsGrounded (derive c now child parents s).1
derive-IsGrounded c now child parents s = Derived-IsGrounded (derive-Derived c now child parents s)

pub derive-Preserves :
    (c : Caller) (now : ℕ) (child : Artifact) (parents : List Artifact) (s : Store)
    → Preserves s (derive c now child parents s).1
derive-Preserves c now child parents s = Derived-Preserves (derive-Derived c now child parents s)

-- The levels of two stamps, the first at most the second, which is live.
abbrev pub Weaker : Option Stamp → Option Stamp → Type 0
Weaker none q = ⊥
Weaker (some r) none = ⊥
Weaker (some r) (some q) =
    (level r.authority_class ≤ level q.authority_class) × (q.invalidated_at ≡ none)
