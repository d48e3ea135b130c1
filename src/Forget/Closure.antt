-- ===== src/Forget/Closure.antt =====
-- What the loop over forgotten supersessions selects.
use thread_keeper.Common.{
  Bool-cases, ◌==◌, ==_iff, nat_eq, pair_eq, filter, all, contains, Text, text_eq, ◌≡◌, refl, ap,
  subst, ◌⊎◌, inl, inr, Bool, true, false, ◌&&◌, Option, none, some, List, [], ◌∷◌, arith,
}
use mathlib.Core.List.{Memᴰ}
use thread_keeper.Forget.Keyed.{IsKeyed}
use thread_keeper.Forget.Claims.{Evidence, is_in, claim_sources, is_unsupported}

-- Evidence that names a claim as its source.
abbrev pub names : Text → Evidence → Bool
names c r = is_in (claim_sources (c ∷ [])) r.source

abbrev pub IdsKeyed : List Evidence → Type 0
IdsKeyed rows = IsKeyed (λ (r : Evidence). r.id) rows

pub names-pending :
    (c : Text) (cs : List Text) (source : Option Text)
    → contains cs c ≡ true
    → is_in (claim_sources (c ∷ [])) source ≡ true
    → is_in (claim_sources cs) source ≡ true
names-pending c [] source m h = cc
names-pending c (d ∷ cs) none m h = cc
names-pending c (d ∷ cs) (some t) m h = ground (arith, names-pending c cs (some t), ==_iff d c)

pub contains-filter_of :
    (p : Text → Bool) (xs : List Text) (x : Text)
    → contains (filter p xs) x ≡ (contains xs x && p x)
contains-filter_of p [] x = refl
contains-filter_of p (y ∷ xs) x = elim (Bool-cases (y == x)) [
  | inl same ↦ let q = (==_iff y x).0 same in ground (arith, contains-filter_of p xs x, ap p q)
  | inr other ↦ ground (arith, contains-filter_of p xs x)
]

pub all-contains :
    (f g : Text → Bool) (xs : List Text)
    → ((x : Text) → contains xs x ≡ true → f x ≡ true → g x ≡ true)
    → all f xs ≡ true
    → all g xs ≡ true
all-contains f g [] h a = refl
all-contains f g (x ∷ xs) h a =
    let first : f x ≡ true = ground arith in
    let here : g x ≡ true = h x (ground (arith, ==_iff x x)) first in
    let there = all-contains f g xs (λ y m k. h y (ground arith) k) (ground arith) in ground arith

pub all-of :
    (f : Text → Bool) (xs : List Text) (x : Text)
    → all f xs ≡ true
    → contains xs x ≡ true
    → f x ≡ true
all-of f [] x a m = cc
all-of f (y ∷ xs) x a m = elim (Bool-cases (y == x)) [
  | inl same ↦ subst (λ z. f z ≡ true) ((==_iff y x).0 same) (ground arith)
  | inr other ↦ all-of f xs x (ground arith) (ground arith)
]

pub all-false :
    (f : Text → Bool) (xs : List Text)
    → all f xs ≡ false
    → (x : Text) × (contains xs x ≡ true) × (f x ≡ false)
all-false f [] h = cc
all-false f (x ∷ xs) h = elim (Bool-cases (f x)) [
  | inl pass ↦ let (y, m, k) = all-false f xs (ground arith) in (y, ground arith, k)
  | inr fail ↦ (x, ground (arith, ==_iff x x), fail)
]

pub sources-within :
    (cs ds : List Text) (source : Option Text)
    → ((c : Text) → contains cs c ≡ true → contains ds c ≡ true)
    → is_in (claim_sources cs) source ≡ true
    → is_in (claim_sources ds) source ≡ true
sources-within [] ds none h m = cc
sources-within [] ds (some t) h m = cc
sources-within (c ∷ cs) ds none h m = cc
sources-within (c ∷ cs) ds (some t) h m = elim (Bool-cases (contains (claim_sources (c ∷ [])) t)) [
  | inl first ↦ names-pending c ds (some t) (h c (ground (arith, ==_iff c c))) first
  | inr later ↦ sources-within cs ds (some t) (λ d k. h d (ground arith)) (ground arith)
]

pub names-of :
    (cs : List Text) (source : Option Text)
    → is_in (claim_sources cs) source ≡ true
    → (c : Text) × (contains cs c ≡ true) × (is_in (claim_sources (c ∷ [])) source ≡ true)
names-of [] none h = cc
names-of [] (some t) h = cc
names-of (c ∷ cs) none h = cc
names-of (c ∷ cs) (some t) h = elim (Bool-cases (contains (claim_sources (c ∷ [])) t)) [
  | inl first ↦ (c, ground (arith, ==_iff c c), first)
  | inr later ↦ let (d, m, k) = names-of cs (some t) (ground arith) in (d, ground arith, k)
]

pub all-true :
    (f : Text → Bool) (xs : List Text)
    → ((x : Text) → contains xs x ≡ true → f x ≡ true)
    → all f xs ≡ true
all-true f [] h = refl
all-true f (x ∷ xs) h =
    let here : f x ≡ true = h x (ground (arith, ==_iff x x)) in
    let there = all-true f xs (λ y m. h y (ground arith)) in ground arith

-- Evidence of a claim, or with an id, that inherits from one of the claims.
abbrev pub Inherits : List Evidence → List Text → (Evidence → Text) → Text → Type 0
Inherits rows claims key x =
    (r : Evidence) × Memᴰ r rows × (key r ≡ x) × (is_in (claim_sources claims) r.source ≡ true)

-- What the loop has selected, from its start: all the evidence of a selected claim is; a claim that
-- was looked at has its inheriting evidence selected, and its unsupported heirs; and nothing is
-- selected that was not at the start and does not inherit.
pub record Inv (rows : List Evidence) (claims_0 selected_0 claims selected pending : List Text)
    : Type 0 where
  pub within : (c : Text) → contains pending c ≡ true → contains claims c ≡ true
  pub grown : (c : Text) → contains claims_0 c ≡ true → contains claims c ≡ true
  pub kept : (id : Text) → contains selected_0 id ≡ true → contains selected id ≡ true
  pub sound_claims :
      (c : Text)
      → contains claims c ≡ true
      → (contains claims_0 c ≡ true) ⊎ Inherits rows claims (λ r. r.claim_id) c
  pub sound_selected :
      (id : Text)
      → contains selected id ≡ true
      → (contains selected_0 id ≡ true) ⊎ Inherits rows claims (λ r. r.id) id
  pub own :
      (r : Evidence)
      → Memᴰ r rows
      → contains claims r.claim_id ≡ true
      → contains selected r.id ≡ true
  pub inherited :
      (r : Evidence) (c : Text)
      → Memᴰ r rows
      → contains claims c ≡ true
      → contains pending c ≡ false
      → names c r ≡ true
      → contains selected r.id ≡ true
  pub complete :
      (r : Evidence) (c : Text)
      → Memᴰ r rows
      → contains claims c ≡ true
      → contains pending c ≡ false
      → names c r ≡ true
      → is_unsupported rows selected r.claim_id ≡ true
      → contains claims r.claim_id ≡ true
