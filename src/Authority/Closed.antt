-- ===== src/Authority/Closed.antt =====
-- Revocation in the provenance store.
use thread_keeper.Common.{
  Bool-cases, ◌==◌, ==_iff, nat_eq, pair_eq, any, all, contains, dedup_from, Text, codes, text_eq,
  ℕ, ◌≡◌, refl, sym, ◌∙◌, subst, ◌⊎◌, inl, inr, Bool, true, false, ◌&&◌, ◌||◌, Option, List, [],
  ◌∷◌, arith,
}
use thread_keeper.Authority.Weakest.{delegated, direct, refused, derive-Derived, live_of_contains}
use thread_keeper.Access.Policy.{Caller}
use thread_keeper.Authority.Store.{
  Artifact, Class, Derivation, Root, Store, artifact, is_stamped, live, insert_root,
  insert_derivation, Stamp, observed, insert_stamp,
}
use thread_keeper.Authority.Stamp.{
  record_root, stamp_root, link_parents, copy_roots, new_root, derive_direct, derive_delegated,
  derive, lowest, child_principal, new_stamp,
}
use thread_keeper.Authority.Roots.{Preserves, record_root-Preserves}
use thread_keeper.Authority.Invalidate.{children}
use thread_keeper.Authority.Invalidate.Marks.{Forgets, mark}
use thread_keeper.Authority.Derive.{
  stamps-link_parents, roots-link_parents, derive_direct-Preserves, artifact-derive_direct,
}
use mathlib.Core.Logic.{∥∥₁_elim}
use thread_keeper.Authority.Invalidate.Reach.{step}

-- `b` is derived from `a`.
abbrev pub derives : Store → Artifact → Artifact → Bool
derives s a b = contains (children s.derivations a) b

-- What is derived is stamped, and is live only while its parents are.
pub record IsClosed (s : Store) : Type 0 where
  pub stamped : (a b : Artifact) → derives s a b ≡ true → is_stamped s b ≡ true
  pub below :
      (a b : Artifact)
      → derives s a b ≡ true
      → live (artifact s b) ≡ true
      → live (artifact s a) ≡ true

any-children :
    (a b : Artifact) (ds : List Derivation)
    → any (λ (e : Derivation). e.parent == a && e.child == b) ds ≡ contains (children ds a) b
unfolding children
any-children a b [] = refl
any-children a b (d ∷ ds) = ground (arith, any-children a b ds)

derives-insert :
    (d : Derivation) (s : Store) (a b : Artifact)
    → derives (insert_derivation d s) a b ≡ (derives s a b || d.parent == a && d.child == b)
unfolding children
derives-insert d s a b = elim (Bool-cases (derives s d.parent d.child)) [
  | inl old ↦
      ground
        (arith, any-children d.parent d.child s.derivations, ==_iff d.parent a, ==_iff d.child b)
  | inr new ↦ ground (arith, any-children d.parent d.child s.derivations)
]

pub derives-link :
    (now : ℕ) (child : Artifact) (ps : List Artifact) (s : Store) (a b : Artifact)
    → derives (link_parents now child ps s) a b ≡ (derives s a b || contains ps a && child == b)
unfolding link_parents
derives-link now child [] s a b = ground arith
derives-link now child (p ∷ ps) s a b =
    let d : Derivation = record { parent = p; child = child; created_at = now } in
    ground (arith, derives-link now child ps (insert_derivation d s) a b, derives-insert d s a b)

pub derivations-copy_roots :
    (now : ℕ) (child : Artifact) (rs : List Root) (s : Store)
    → (copy_roots now child rs s).derivations ≡ s.derivations
unfolding copy_roots
derivations-copy_roots now child [] s = refl
derivations-copy_roots now child (r ∷ rs) s = ground (
  arith,
  derivations-copy_roots now child rs
      (insert_root (new_root now child r.authority_class r.principal r.channel) s),
)

module _ (c : Caller) (now : ℕ) (a : Artifact) (class : Class) (principal channel : Text)
    (s : Store) where
  pub derivations-record_root :
      (record_root c now a class principal channel s).1.derivations ≡ s.derivations
  unfolding record_root stamp_root
  derivations-record_root = ground arith

  pub record_root-stamped :
      (record_root c now a class principal channel s).0 ≡ true
      → is_stamped (record_root c now a class principal channel s).1 a ≡ true
  unfolding record_root stamp_root
  record_root-stamped e = ground (arith, ==_iff a a)

-- A store in which `child` may have been derived from live parents, and nothing stamped changed.
record Grows (child : Artifact) (s t : Store) : Type 0 where
  preserves : Preserves s t
  new :
      (a b : Artifact)
      → derives t a b ≡ true
      → (derives s a b ≡ true) ⊎ ((is_stamped t b ≡ true) × (live (artifact s a) ≡ true))

is_stamped-live : (s : Store) (a : Artifact) → live (artifact s a) ≡ true → is_stamped s a ≡ true
is_stamped-live s a l = ground arith

stamped-kept :
    (s t : Store) (a : Artifact) → Preserves s t → is_stamped s a ≡ true → is_stamped t a ≡ true
stamped-kept s t a h m = ground (arith, (h.at a m).0)

Grows-IsClosed : (child : Artifact) (s t : Store) → Grows child s t → IsClosed s → IsClosed t
Grows-IsClosed child s t g h = record {
  stamped = λ a b d. elim (g.new a b d) [
    | inl old ↦ stamped-kept s t b g.preserves (h.stamped a b old)
    | inr (m, l) ↦ m
  ];
  below = λ a b d l. elim (g.new a b d) [
    | inl old ↦
        let kept = (g.preserves.at b (h.stamped a b old)).0 in
        let above = h.below a b old (subst (λ o. live o ≡ true) kept l) in
        subst (λ o. live o ≡ true) (sym (g.preserves.at a (is_stamped-live s a above)).0) above
    | inr (m, above) ↦
        subst (λ o. live o ≡ true) (sym (g.preserves.at a (is_stamped-live s a above)).0) above
  ];
}

pub record_root-IsClosed :
    (c : Caller) (now : ℕ) (a : Artifact) (class : Class) (principal channel : Text) (s : Store)
    → IsClosed s
    → IsClosed (record_root c now a class principal channel s).1
record_root-IsClosed c now a class principal channel s h =
    Grows-IsClosed a s _
      (record {
        preserves = record_root-Preserves c now a class principal channel s;
        new = λ p b d. inl (
            subst (λ ds. contains (children ds p) b ≡ true)
              (derivations-record_root c now a class principal channel s) d);
      })
      h

module _ (now : ℕ) (child : Artifact) (parents : List Artifact) (s t : Store)
    (all_live : all (λ p. live (artifact s p)) parents ≡ true) (preserves : Preserves s t)
    (same : t.derivations ≡ s.derivations) (child_stamped : is_stamped t child ≡ true) where
  linked-Preserves : Preserves s (link_parents now child parents t)
  linked-Preserves = record {
    at = λ a m.
        rw (stamps-link_parents now child parents t, roots-link_parents now child parents t)
          (preserves.at a m);
  }

  linked-IsClosed : IsClosed s → IsClosed (link_parents now child parents t)
  linked-IsClosed h =
      Grows-IsClosed child s (link_parents now child parents t)
        (record {
          preserves = linked-Preserves;
          new = λ a b d. elim (Bool-cases (derives s a b)) [
            | inl old ↦ inl old
            | inr fresh ↦
                let both : (contains parents a && child == b) ≡ true =
                  ground (arith, derives-link now child parents t a b, same) in
                inr (
                  rw (stamps-link_parents now child parents t) (
                      subst (λ x. is_stamped t x ≡ true) ((==_iff child b).0 (ground arith))
                        child_stamped),
                  live_of_contains s parents a all_live (ground arith),
                )
          ];
        })
        h

derive_delegated-IsClosed :
    (c : Caller) (now : ℕ) (child : Artifact) (parents : List Artifact) (s : Store)
    → all (λ p. live (artifact s p)) parents ≡ true
    → IsClosed s
    → IsClosed (derive_delegated c now child parents s).1
unfolding derive_delegated
derive_delegated-IsClosed c now child parents s l h =
    let r = record_root c now child observed (child_principal c) (codes "spawned") s in
    elim (Bool-cases r.0) [
      | inl e ↦ rw e (
          linked-IsClosed now child parents s r.1 l
            (record_root-Preserves c now child observed (child_principal c) (codes "spawned") s)
            (derivations-record_root c now child observed (child_principal c) (codes "spawned") s)
            (record_root-stamped c now child observed (child_principal c) (codes "spawned") s e) h)
      | inr e ↦
          rw e (record_root-IsClosed c now child observed (child_principal c) (codes "spawned") s h)
    ]

derive_direct-IsClosed :
    (now : ℕ) (child : Artifact) (parents : List Artifact) (rs : List Root) (s : Store)
    → is_stamped s child ≡ false
    → all (λ p. live (artifact s p)) parents ≡ true
    → IsClosed s
    → IsClosed (derive_direct now child parents rs s).1
unfolding derive_direct copy_roots link_parents
derive_direct-IsClosed now child parents [] s fresh l h = h
derive_direct-IsClosed now child parents (r ∷ rs) s fresh l h =
    let low = lowest r rs in
    let s' = insert_stamp (new_stamp now child low.authority_class low.principal low.channel) s in
    let t = copy_roots now child (r ∷ rs) s' in
    let plain : Preserves s t = derive_direct-Preserves now child [] r rs s fresh in
    linked-IsClosed now child parents s t l plain
      (derivations-copy_roots now child (r ∷ rs) s' ∙ ground arith)
      (ground (arith, artifact-derive_direct now child [] r rs s fresh child, ==_iff child child)) h

pub derive-IsClosed :
    (c : Caller) (now : ℕ) (child : Artifact) (parents : List Artifact) (s : Store)
    → IsClosed s
    → IsClosed (derive c now child parents s).1
derive-IsClosed c now child parents s h = elim (derive-Derived c now child parents s) [
  | refused e ↦ rw e h
  | direct rs fresh l collected some_parent e ↦
      rw e (derive_direct-IsClosed now child (dedup_from [] parents) rs s fresh l h)
  | delegated d fresh l e ↦
      rw e (derive_delegated-IsClosed c now child (dedup_from [] parents) s l h)
]

pub live-mark : (now : ℕ) (reason : Text) (o : Option Stamp) → live (mark now reason o) ≡ false
live-mark now reason o = ground arith

-- Forgetting without exceptions reaches what is derived.
pub Forgets-IsClosed :
    (now : ℕ) (reason : Text) (roots : List Artifact) (n : ℕ) (s t : Store)
    → Forgets now reason roots [] s t n
    → IsClosed s
    → IsClosed t
Forgets-IsClosed now reason roots n s t f h = record {
  stamped = λ a b d.
      let m =
        h.stamped a b (subst (λ ds. contains (children ds a) b ≡ true) f.derivations_kept d) in
      elim (f.at b) [ inl (r, e) ↦ ground arith | inr (r, e) ↦ ground arith ];
  below = λ a b d l.
      let old = subst (λ ds. contains (children ds a) b ≡ true) f.derivations_kept d in
      elim (f.at b) [
        | inl (r, e) ↦ absurd (ground (arith, live-mark now reason (artifact s b)))
        | inr (r, e) ↦
            let above = h.below a b old (subst (λ o. live o ≡ true) e l) in
            elim (f.at a) [
              | inl (q, k) ↦ absurd (∥∥₁_elim q (λ x y. absurd x) λ p. r (step p old refl))
              | inr (q, k) ↦ subst (λ o. live o ≡ true) (sym k) above
            ]
      ];
}
