-- ===== src/Router/Roles.antt =====
-- The roles of a set of decisions.
use thread_keeper.Common.{
  ltb, if◌then◌else◌, Bool-cases, ==_refl, nat_eq, pair_eq, filter, contains, Text, text_beq_iff,
  text_eq, is_empty, ℕ, ◌≡◌, refl, ◌↔◌, inl, inr, Bool, true, false, not, List, [], ◌∷◌, arith,
}
use thread_keeper.Router.Decisions.{
  Refusal, insert_text, sorted_set, count, difference, role_set_errors, Decision, roles_of,
  duplicate_roles, missing_roles, extra_roles, note_roles,
}

filter-nil :
    (p : Text → Bool) (xs : List Text)
    → filter p xs ≡ []
    → (r : Text) → contains xs r ≡ true
    → p r ≡ false
filter-nil p [] e r c = ground (arith, c)
filter-nil p (x ∷ xs) e r c = elim (Bool-cases (p x)) [
  | inl y ↦ absurd (ground (arith, y, e))
  | inr n ↦ grind (arith, n, e, c, filter-nil p xs, text_beq_iff x r)
]

nil-filter :
    (p : Text → Bool) (xs : List Text)
    → ((r : Text) → contains xs r ≡ true → p r ≡ false)
    → filter p xs ≡ []
nil-filter p [] h = refl
nil-filter p (x ∷ xs) h =
    let f : p x ≡ false = h x (ground (arith, ==_refl x)) in
    rw f (nil-filter p xs (λ r c. h r (ground (arith, c))))

count-contains : (r : Text) (xs : List Text) → ltb 0 (count r xs) ≡ contains xs r
unfolding count
count-contains r [] = refl
count-contains r (x ∷ xs) = ground (arith, count-contains r xs)

insert_text-cons : (t : Text) (us : List Text) → (is_empty (insert_text t us)) ≡ false
unfolding insert_text
insert_text-cons t [] = refl
insert_text-cons t (u ∷ us) = ground arith

sorted_set-nil : (ts : List Text) → (sorted_set ts ≡ []) ↔ (ts ≡ [])
unfolding sorted_set
sorted_set-nil [] = (λ e. e, λ e. e)
sorted_set-nil (t ∷ ts) = (
  λ e. absurd (ground (arith, e, insert_text-cons t (sorted_set ts))),
  λ e. absurd (ground (arith, e)),
)

note_roles-nil :
    (f : List Text → Refusal) (ts : List Text) (rest : List Refusal)
    → (note_roles f ts rest ≡ []) ↔ ((ts ≡ []) × (rest ≡ []))
note_roles-nil f [] rest = (λ e. (refl, e), λ p. p.1)
note_roles-nil f (t ∷ ts) rest =
    (λ e. absurd (ground (arith, e)), λ p. absurd (ground (arith, p.0)))

-- Each expected role is decided once, and no other.
abbrev pub EachOnce : List Text → List Text → Type 0
EachOnce roles expected = (r : Text) → count r roles ≡ (if contains expected r then 1 else 0)

pub once :
    (n : ℕ) (in_roles in_expected : Bool)
    → ltb 0 n ≡ in_roles
    → ltb 1 n ≡ false
    → (in_expected ≡ true → in_roles ≡ true)
    → (in_roles ≡ true → in_expected ≡ true)
    → n ≡ (if in_expected then 1 else 0)
once n in_roles in_expected a b c d = ground (arith, a, b, c, d)

at_most : (n : ℕ) (in_expected : Bool) → n ≡ (if in_expected then 1 else 0) → ltb 1 n ≡ false
at_most n in_expected e = ground (arith, e)

contains-once :
    (r : Text) (roles expected : List Text)
    → EachOnce roles expected
    → contains roles r ≡ contains expected r
contains-once r roles expected e = elim (Bool-cases (contains expected r)) [
  | inl c ↦ ground (arith, c, e r, count-contains r roles)
  | inr c ↦ ground (arith, c, e r, count-contains r roles)
]

not-false : (b : Bool) → not b ≡ false → b ≡ true
not-false b h = ground arith

from_nil :
    (roles expected : List Text)
    → filter (λ r. ltb 1 (count r roles)) roles ≡ []
    → difference expected roles ≡ []
    → difference roles expected ≡ []
    → EachOnce roles expected
from_nil roles expected d m x r =
    let there : contains expected r ≡ true → contains roles r ≡ true =
      λ c. not-false (contains roles r) (filter-nil (λ t. not (contains roles t)) expected m r c) in
    let back : contains roles r ≡ true → contains expected r ≡ true = λ c.
      not-false (contains expected r) (filter-nil (λ t. not (contains expected t)) roles x r c) in
    let twice : ltb 1 (count r roles) ≡ false = elim (Bool-cases (contains roles r)) [
      | inl c ↦ filter-nil (λ t. ltb 1 (count t roles)) roles d r c
      | inr c ↦ ground (arith, c, count-contains r roles)
    ] in
    once (count r roles) (contains roles r) (contains expected r) (count-contains r roles) twice
      there back

to_nil :
    (roles expected : List Text)
    → EachOnce roles expected
    → (filter (λ r. ltb 1 (count r roles)) roles ≡ [])
      × (difference expected roles ≡ [])
      × (difference roles expected ≡ [])
to_nil roles expected e = (
  nil-filter (λ r. ltb 1 (count r roles)) roles
      (λ r c. at_most (count r roles) (contains expected r) (e r)),
  nil-filter (λ t. not (contains roles t)) expected
      (λ r c. rw (contains-once r roles expected e, c) refl),
  nil-filter (λ t. not (contains expected t)) roles
      (λ r c. rw (← contains-once r roles expected e, c) refl),
)

-- The errors about the roles of a set of decisions, none exactly if each expected role is decided once.
pub role_set_errors_iff :
    (ds : List Decision) (expected : List Text)
    → (role_set_errors ds expected ≡ []) ↔ EachOnce (roles_of ds) expected
unfolding role_set_errors
role_set_errors_iff ds expected =
    let roles = roles_of ds in
    let a =
      note_roles-nil duplicate_roles (sorted_set (filter (λ r. ltb 1 (count r roles)) roles)) _ in
    let b = note_roles-nil missing_roles (sorted_set (difference expected roles)) _ in
    let c = note_roles-nil extra_roles (sorted_set (difference roles expected)) [] in
    (
      λ h.
          from_nil roles expected ((sorted_set-nil _).0 (a.0 h).0)
            ((sorted_set-nil _).0 (b.0 (a.0 h).1).0)
            ((sorted_set-nil _).0 (c.0 (b.0 (a.0 h).1).1).0),
      λ e.
          let n = to_nil roles expected e in
          a.1 (
            (sorted_set-nil _).1 n.0,
            b.1 ((sorted_set-nil _).1 n.1, c.1 ((sorted_set-nil _).1 n.2, refl)),
          ),
    )
