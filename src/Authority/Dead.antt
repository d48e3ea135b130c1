-- ===== src/Authority/Dead.antt =====
-- Artifacts whose stamps were invalidated.
use thread_keeper.Common.{
  nat_eq, pair_eq, contains, Text, text_eq, ℕ, ◌≡◌, refl, sym, subst, inl, inr, Bool, true, false,
  Option, none, some, List, [], arith,
}
use thread_keeper.Authority.Store.{Artifact, Stamp, Store, artifact, is_stamped, live, Class}
use thread_keeper.Access.Policy.{Caller}
use thread_keeper.Authority.Stamp.{record_root, derive}
use thread_keeper.Authority.Invalidate.Reach.{root}
use thread_keeper.Authority.Roots.{Preserves, record_root-Preserves}
use thread_keeper.Authority.Weakest.{derive-Preserves}
use thread_keeper.Authority.Invalidate.Marks.{mark, Forgets}

-- A stamp that is no longer live.
abbrev pub dead : Option Stamp → Bool
dead none = false
dead (some r) = elim r.invalidated_at [ none ↦ false | some _ ↦ true ]

dead-stamped : (s : Store) (a : Artifact) → dead (artifact s a) ≡ true → is_stamped s a ≡ true
dead-stamped s a d = ground arith

pub dead-live : (o : Option Stamp) → dead o ≡ true → live o ≡ false
dead-live o d = ground arith

Preserves-dead :
    (s t : Store) (a : Artifact)
    → Preserves s t
    → dead (artifact s a) ≡ true
    → dead (artifact t a) ≡ true
Preserves-dead s t a h d = subst (λ o. dead o ≡ true) (sym (h.at a (dead-stamped s a d)).0) d

mark-dead :
    (now : ℕ) (reason : Text) (o : Option Stamp) → dead o ≡ true → dead (mark now reason o) ≡ true
mark-dead now reason o d = ground arith

pub record_root-dead :
    (c : Caller) (now : ℕ) (b : Artifact) (class : Class) (principal channel : Text) (s : Store)
    (a : Artifact)
    → dead (artifact s a) ≡ true
    → dead (artifact (record_root c now b class principal channel s).1 a) ≡ true
record_root-dead c now b class principal channel s a d =
    Preserves-dead s _ a (record_root-Preserves c now b class principal channel s) d

pub derive-dead :
    (c : Caller) (now : ℕ) (child : Artifact) (parents : List Artifact) (s : Store) (a : Artifact)
    → dead (artifact s a) ≡ true
    → dead (artifact (derive c now child parents s).1 a) ≡ true
derive-dead c now child parents s a d =
    Preserves-dead s _ a (derive-Preserves c now child parents s) d

pub Forgets-dead :
    (now : ℕ) (reason : Text) (roots preserve : List Artifact) (n : ℕ) (s t : Store) (a : Artifact)
    → Forgets now reason roots preserve s t n
    → dead (artifact s a) ≡ true
    → dead (artifact t a) ≡ true
Forgets-dead now reason roots preserve n s t a f d = elim (f.at a) [
  | inl (r, k) ↦ subst (λ o. dead o ≡ true) (sym k) (mark-dead now reason (artifact s a) d)
  | inr (r, k) ↦ subst (λ o. dead o ≡ true) (sym k) d
]

mark-stamped :
    (now : ℕ) (reason : Text) (s : Store) (a : Artifact)
    → is_stamped s a ≡ true
    → dead (mark now reason (artifact s a)) ≡ true
mark-stamped now reason s a m = ground arith

-- A stamped root of what is forgotten.
pub root-dead :
    (now : ℕ) (reason : Text) (roots : List Artifact) (n : ℕ) (s t : Store) (a : Artifact)
    → Forgets now reason roots [] s t n
    → contains roots a ≡ true
    → is_stamped s a ≡ true
    → dead (artifact t a) ≡ true
root-dead now reason roots n s t a f m k = elim (f.at a) [
  | inl (r, e) ↦ subst (λ o. dead o ≡ true) (sym e) (mark-stamped now reason s a k)
  | inr (r, e) ↦ absurd (r (root m refl))
]
