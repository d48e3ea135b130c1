-- ===== src/Authority/Decisions.antt =====
-- What the gate of authority.py decides, and what it decides after a source was forgotten.
use thread_keeper.Common.{
  Bool-cases, Equality, ◌==◌, nat_eq, pair_eq, any, contains, Text, text_eq, ◌≡◌, refl, ◌↔◌, ◌⊎◌,
  inl, inr, Bool, true, false, not, ◌&&◌, Option, none, some, List, [], ◌∷◌, arith,
}
use thread_keeper.Authority.Gate.{principals, corroborated, authorize_action}
use thread_keeper.Authority.Invalidate.Reach.{Reach}
use thread_keeper.Authority.Store.{
  Artifact, Root, Store, trusted, live, class_eq, Class, artifact, roots_of, Stamp,
}
use mathlib.Core.Logic.{⊎_elim, ∥∥₁_elim}
use mathlib.Core.Bool.{Bool-set}

-- `p` is the principal of a trusted root.
abbrev pub vouches : List Root → Text → Bool
vouches rs p = any (λ (q : Root). q.principal == p && q.authority_class == trusted) rs

-- `p` is the principal of a root that is not trusted.
abbrev pub tainted : List Root → Text → Bool
tainted rs p = any (λ (q : Root). q.principal == p && not (q.authority_class == trusted)) rs

contains-principals-true :
    (rs : List Root) (p : Text) → contains (principals true rs) p ≡ vouches rs p
unfolding principals
contains-principals-true [] p = refl
contains-principals-true (r ∷ rs) p = ground (arith, contains-principals-true rs p)

contains-principals-false :
    (rs : List Root) (p : Text) → contains (principals false rs) p ≡ tainted rs p
unfolding principals
contains-principals-false [] p = refl
contains-principals-false (r ∷ rs) p = ground (arith, contains-principals-false rs p)

-- `any` over a list, and its witness.
any_witness {ℓ} :
    {A : Type ℓ} ⦃e : Equality A⦄ (p : A → Bool) (xs : List A)
    → any p xs ≡ true
    → (x : A) × (contains xs x ≡ true) × (p x ≡ true)
any_witness p [] h = cc
any_witness ⦃e⦄ p (x ∷ xs) h = elim (Bool-cases (p x)) [
  | inl hit ↦ (x, ground (arith, e.equal_iff x x), hit)
  | inr miss ↦
      let (y, m, hit) = any_witness p xs (ground arith) in (y, ground (arith, e.equal_iff x y), hit)
]

any_of_contains {ℓ} :
    {A : Type ℓ} ⦃e : Equality A⦄ (p : A → Bool) (xs : List A) (x : A)
    → contains xs x ≡ true
    → p x ≡ true
    → any p xs ≡ true
any_of_contains p [] x m h = cc
any_of_contains ⦃e⦄ p (y ∷ xs) x m h = elim (Bool-cases (p y)) [
  | inl hit ↦ ground arith
  | inr miss ↦ ground (arith, any_of_contains p xs x, e.equal_iff y x)
]

corroborated_iff :
    (rs : List Root)
    → (corroborated rs ≡ true) ↔ ∥ ((p : Text) × (vouches rs p ≡ true) × (tainted rs p ≡ false)) ∥₁
unfolding corroborated
corroborated_iff rs = (
  λ h.
      let (p, m, clean) =
        any_witness (λ p. not (contains (principals false rs) p)) (principals true rs) h in
      ∣ (
        p,
        ground (arith, contains-principals-true rs p),
        ground (arith, contains-principals-false rs p),
      ) ∣₁,
  λ w. ∥∥₁_elim w (Bool-set _ _) λ (p, v, t).
      any_of_contains (λ p. not (contains (principals false rs) p)) (principals true rs) p
        (ground (arith, contains-principals-true rs p))
        (ground (arith, contains-principals-false rs p)),
)

abbrev pub class_of : Option Stamp → Option Class
class_of none = none
class_of (some r) = some r.authority_class

-- The principal of a trusted root who has no weaker root.
abbrev pub Corroborated : List Root → Type 0
Corroborated rs = ∥ ((p : Text) × (vouches rs p ≡ true) × (tainted rs p ≡ false)) ∥₁

authorize_action-true :
    (s : Store) (a : Artifact)
    → (authorize_action s a false).allowed ≡ true
    → (live (artifact s a) ≡ true)
      × ((class_of (artifact s a) ≡ some trusted) ⊎ (corroborated (roots_of s a) ≡ true))
unfolding authorize_action
authorize_action-true s a h = ground arith

authorize_action_of :
    (s : Store) (a : Artifact)
    → live (artifact s a) ≡ true
    → (class_of (artifact s a) ≡ some trusted) ⊎ (corroborated (roots_of s a) ≡ true)
    → (authorize_action s a false).allowed ≡ true
unfolding authorize_action
authorize_action_of s a l h = ground arith

-- Without a confirmation an artifact may act exactly if its stamp is live, and is trusted or has
-- a trusted root whose principal has no root below trusted: repeats of one source do not
-- corroborate it.
pub authorize_action_iff :
    (s : Store) (a : Artifact)
    → ((authorize_action s a false).allowed ≡ true) ↔ (
        (live (artifact s a) ≡ true)
        × ((class_of (artifact s a) ≡ some trusted) ⊎ Corroborated (roots_of s a)))
authorize_action_iff s a = (
  λ h.
      let (l, c) = authorize_action-true s a h in
      (l, ⊎_elim inl (λ k. inr ((corroborated_iff (roots_of s a)).0 k)) c),
  λ (l, c).
      authorize_action_of s a l (⊎_elim inl (λ k. inr ((corroborated_iff (roots_of s a)).1 k)) c),
)

-- A confirmation by the user lets any live artifact act, and no other.
pub authorize_action_confirmed :
    (s : Store) (a : Artifact) → (authorize_action s a true).allowed ≡ live (artifact s a)
unfolding authorize_action
authorize_action_confirmed s a = ground arith
