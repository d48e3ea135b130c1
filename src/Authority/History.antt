-- ===== src/Authority/History.antt =====
-- Any sequence of the writes of authority.py: stamps, derivations and forgetting.
use thread_keeper.Common.{
  if◌then◌else◌, Option-cases, Text, codes, is_empty, ℕ, ◌≡◌, refl, ap, ◌∙◌, subst, inl, inr, true,
  false, Option, none, some, List, [], ◌∷◌, arith,
}
use thread_keeper.Authority.Invariant.{Grounded, IsGrounded, min_level}
use thread_keeper.Authority.Source.{stamp, source_parent}
use thread_keeper.Authority.Invalidate.Marks.{mark, Forgets, invalidate_descendants-Forgets}
use thread_keeper.Authority.Store.{Stamp, Class, Store, Artifact, is_stamped, artifact}
use thread_keeper.Access.Policy.{Caller}
use thread_keeper.Authority.Roots.{Preserves, record_root-IsGrounded, record_root-Preserves}
use thread_keeper.Authority.Weakest.{derive-Preserves, derive-IsGrounded, Preserves-refl}
use thread_keeper.Authority.Stamp.{record_root, record_origin_root, authority_for_origin, derive}
use thread_keeper.Authority.Invalidate.{invalidate_descendants}

-- One call of an operation that writes the store.
pub data Step (s : Store) : Store → Type 0 where
  rooted :
      (c : Caller) (now : ℕ) (a : Artifact) (class : Class) (principal channel : Text)
      → Step s (record_root c now a class principal channel s).1
  stamped :
      (c : Caller) (now : ℕ) (a : Artifact) (write_origin principal channel source : Text)
      → Step s (stamp c now a write_origin principal channel source s).1
  derived :
      (c : Caller) (now : ℕ) (child : Artifact) (parents : List Artifact)
      → Step s (derive c now child parents s).1
  forgot :
      {s' : Store}
      → (now : ℕ) (reason : Text) (roots preserve : List Artifact) (n : ℕ)
      → invalidate_descendants now reason roots preserve s ≡ some (n, s')
      → Step s s'

pub data Run (s : Store) : Store → Type 0 where
  start : Run s s
  next : {t u : Store} → Run s t → Step t u → Run s u

-- What no later write may change: the class, the principal and the channel of a stamp.
abbrev pub Origin : Type 0
Origin = Class × Text × Text

abbrev pub origin_of : Option Stamp → Option Origin
origin_of none = none
origin_of (some r) = some (r.authority_class, r.source_principal, r.source_channel)

-- The stamped artifacts keep their origins.
abbrev KeepsOrigins : Store → Store → Type 0
KeepsOrigins s t =
    (a : Artifact) → is_stamped s a ≡ true → origin_of (artifact t a) ≡ origin_of (artifact s a)

KeepsOrigins-of : (s t : Store) → Preserves s t → KeepsOrigins s t
KeepsOrigins-of s t h a m = ap origin_of (h.at a m).0

record_origin_root-IsGrounded :
    (c : Caller) (now : ℕ) (a : Artifact) (write_origin principal channel : Text) (s : Store)
    → IsGrounded s
    → IsGrounded (record_origin_root c now a write_origin principal channel s).1
unfolding record_origin_root
record_origin_root-IsGrounded c now a write_origin principal channel s h =
    elim (Option-cases (authority_for_origin c write_origin)) [
      | inl e ↦ rw (e, record_origin_root) h
      | inr (class, e) ↦
          rw (e, record_origin_root)
            (record_root-IsGrounded c now a class
              (if is_empty principal then codes "unknown-principal" else principal) channel s h)
    ]

record_origin_root-Preserves :
    (c : Caller) (now : ℕ) (a : Artifact) (write_origin principal channel : Text) (s : Store)
    → Preserves s (record_origin_root c now a write_origin principal channel s).1
unfolding record_origin_root
record_origin_root-Preserves c now a write_origin principal channel s =
    elim (Option-cases (authority_for_origin c write_origin)) [
      | inl e ↦ rw (e, record_origin_root) (Preserves-refl s)
      | inr (class, e) ↦
          rw (e, record_origin_root)
            (record_root-Preserves c now a class
              (if is_empty principal then codes "unknown-principal" else principal) channel s)
    ]

stamp-IsGrounded :
    (c : Caller) (now : ℕ) (a : Artifact) (write_origin principal channel source : Text) (s : Store)
    → IsGrounded s
    → IsGrounded (stamp c now a write_origin principal channel source s).1
unfolding stamp
stamp-IsGrounded c now a write_origin principal channel source s h =
    elim (Option-cases (source_parent source)) [
      | inl e ↦
          rw (e, stamp) (record_origin_root-IsGrounded c now a write_origin principal channel s h)
      | inr (p, e) ↦ rw (e, stamp) (derive-IsGrounded c now a (p ∷ []) s h)
    ]

pub stamp-Preserves :
    (c : Caller) (now : ℕ) (a : Artifact) (write_origin principal channel source : Text) (s : Store)
    → Preserves s (stamp c now a write_origin principal channel source s).1
unfolding stamp
stamp-Preserves c now a write_origin principal channel source s =
    elim (Option-cases (source_parent source)) [
      | inl e ↦
          rw (e, stamp) (record_origin_root-Preserves c now a write_origin principal channel s)
      | inr (p, e) ↦ rw (e, stamp) (derive-Preserves c now a (p ∷ []) s)
    ]

-- Marking a stamp keeps its origin, and so the invariant.
origin_of-mark :
    (now : ℕ) (reason : Text) (o : Option Stamp) → origin_of (mark now reason o) ≡ origin_of o
origin_of-mark now reason o = ground arith

Grounded-mark :
    (now : ℕ) (reason : Text) (o : Option Stamp) (n : ℕ)
    → Grounded o n
    → Grounded (mark now reason o) n
Grounded-mark now reason o n h = ground arith

pub Forgets-of_some :
    (now : ℕ) (reason : Text) (roots preserve : List Artifact) (n : ℕ) (s s' : Store)
    → invalidate_descendants now reason roots preserve s ≡ some (n, s')
    → Forgets now reason roots preserve s s' n
Forgets-of_some now reason roots preserve n s s' e =
    let (m, t, e', f) = invalidate_descendants-Forgets now reason roots preserve s in
    let p : (m, t) ≡ (n, s') = cc in
    subst (λ (r : ℕ × Store). Forgets now reason roots preserve s r.1 r.0) p f

Forgets-IsGrounded :
    (now : ℕ) (reason : Text) (roots preserve : List Artifact) (n : ℕ) (s s' : Store)
    → Forgets now reason roots preserve s s' n
    → IsGrounded s
    → IsGrounded s'
Forgets-IsGrounded now reason roots preserve n s s' f h = record {
  at = λ a. elim (f.at a) [
    | inl (r, e) ↦
        rw (e, f.roots_kept)
          (Grounded-mark now reason (artifact s a) (min_level s.roots a) (h.at a))
    | inr (r, e) ↦ rw (e, f.roots_kept) (h.at a)
  ];
}

Forgets-KeepsOrigins :
    (now : ℕ) (reason : Text) (roots preserve : List Artifact) (n : ℕ) (s s' : Store)
    → Forgets now reason roots preserve s s' n
    → KeepsOrigins s s'
Forgets-KeepsOrigins now reason roots preserve n s s' f a m = elim (f.at a) [
  | inl (r, e) ↦ rw e (origin_of-mark now reason (artifact s a))
  | inr (r, e) ↦ rw e
]

Step-IsGrounded : {s t : Store} → Step s t → IsGrounded s → IsGrounded t
Step-IsGrounded {s} (rooted c now a class principal channel) h =
    record_root-IsGrounded c now a class principal channel s h
Step-IsGrounded {s} (stamped c now a write_origin principal channel source) h =
    stamp-IsGrounded c now a write_origin principal channel source s h
Step-IsGrounded {s} (derived c now child parents) h = derive-IsGrounded c now child parents s h
Step-IsGrounded {s} {t} (forgot now reason roots preserve n e) h =
    Forgets-IsGrounded now reason roots preserve n s t
      (Forgets-of_some now reason roots preserve n s t e) h

Step-KeepsOrigins : {s t : Store} → Step s t → KeepsOrigins s t
Step-KeepsOrigins {s} (rooted c now a class principal channel) =
    KeepsOrigins-of s _ (record_root-Preserves c now a class principal channel s)
Step-KeepsOrigins {s} (stamped c now a write_origin principal channel source) =
    KeepsOrigins-of s _ (stamp-Preserves c now a write_origin principal channel source s)
Step-KeepsOrigins {s} (derived c now child parents) =
    KeepsOrigins-of s _ (derive-Preserves c now child parents s)
Step-KeepsOrigins {s} {t} (forgot now reason roots preserve n e) =
    Forgets-KeepsOrigins now reason roots preserve n s t
      (Forgets-of_some now reason roots preserve n s t e)

abbrev pub empty : Store
empty = record { stamps = []; roots = []; derivations = [] }

empty-IsGrounded : IsGrounded empty
empty-IsGrounded = record { at = λ a. unfold min_level in refl }

-- After any sequence of stamps, derivations and forgetting, from the empty store on, the class of
-- every stamped artifact is that of its weakest root, and an artifact without a stamp has no root.
pub Run-IsGrounded : {t : Store} → Run empty t → IsGrounded t
Run-IsGrounded start = empty-IsGrounded
Run-IsGrounded (next r st) = Step-IsGrounded st (Run-IsGrounded r)

stamped_of_origin :
    (o : Option Stamp) (x : Origin)
    → origin_of o ≡ some x
    → elim o [ none ↦ false | some _ ↦ true ] ≡ true
stamped_of_origin o x e = ground arith

-- No later write upgrades an artifact: whatever sequence of stamps, derivations and forgetting
-- follows, its class, principal and channel stay those of its first stamp.
pub origin_of-Run :
    {s t : Store} (a : Artifact) (x : Origin)
    → Run s t
    → origin_of (artifact s a) ≡ some x
    → origin_of (artifact t a) ≡ some x
origin_of-Run a x start e = e
origin_of-Run a x (next {t} r st) e =
    let before = origin_of-Run a x r e in
    Step-KeepsOrigins st a (stamped_of_origin (artifact t a) x before) ∙ before
