-- ===== src/Access/Recall.antt =====
-- The two filters of recall agree, and project memory stays in its project.
use thread_keeper.Common.{
  if◌then◌else◌, Bool-cases, ◌==◌, ==_iff, nat_eq, pair_eq, Text, codes, text_eq, is_empty, strip,
  lower, ℕ, ◌≡◌, refl, sym, subst, ◌≢◌, inl, inr, Bool, true, false, not, ◌&&◌, ◌||◌, Option, none,
  some, [], ◌∷◌, arith,
}
use thread_keeper.Access.Policy.{MemoryAccess, unrestricted}
use thread_keeper.Access.Scope.{
  is_portable, is_project, truthy, refuses, recall_allowed, recall_where_normal, scope_predicate,
  recall_where, write_scope, resolve_write_scope,
}

exclusive : (scope : Option Text) → (is_portable scope && is_project scope) ≡ false
unfolding is_portable is_project
exclusive none = refl
exclusive (some s) = elim (Bool-cases (s == codes "project")) [
  | inl e ↦
      subst (λ t. ((t == codes "global" || t == codes "shared") && t == codes "project") ≡ false)
        (sym ((==_iff s (codes "project")).0 e)) refl
  | inr e ↦ rw e (and_false (s == codes "global" || s == codes "shared"))
]
  where
    and_false : (b : Bool) → (b && false) ≡ false
    and_false b = ground arith

empty_beq : (x : ℕ) (p s : Text) → (is_empty s && (x ∷ p) == s) ≡ false
empty_beq x p [] = refl
empty_beq x p (y ∷ s) = refl

-- Both filters, on their tests: of a row without a project, and of a row with one.
without_project :
    (child star none_given portable in_project here cross : Bool)
    → (portable && in_project) ≡ false
    → (cross ≡ true → here ≡ true)
    → (if child && not star && ((none_given && not portable) || (in_project && true))
        then false
        else if portable
        then true
        else if not in_project
        then false
        else here)
      ≡ ((if cross
            then in_project || portable
            else if here
            then portable || (in_project && true)
            else portable)
          && (if child
              then if star
                then true
                else if none_given
                then portable
                else portable || (in_project && false)
              else true))
without_project child star none_given portable in_project here cross h k = ground arith

with_project :
    (child star none_given portable in_project here cross given current : Bool)
    → (portable && in_project) ≡ false
    → (none_given && given) ≡ false
    → (cross ≡ true → here ≡ true)
    → (here ≡ false → current ≡ false)
    → (if child && not star && ((none_given && not portable) || (in_project && not given))
        then false
        else if portable
        then true
        else if not in_project
        then false
        else if cross
        then true
        else current)
      ≡ ((if cross
            then in_project || portable
            else if here
            then portable || (in_project && (current || false))
            else portable)
          && (if child
              then if star
                then true
                else if none_given
                then portable
                else portable || (in_project && given)
              else true))
with_project child star none_given portable in_project here cross given current h k l m =
    ground arith

-- The Python test of a row and the SQL filter agree: the row's project is not the empty text, and a
-- recall across projects stands in a project.
pub recall_allowed_lem :
    (policy : MemoryAccess) (current : Option Text) (cross : Bool) (scope project : Option Text)
    → project ≢ some []
    → (cross ≡ true → truthy current ≡ true)
    → recall_allowed policy current cross scope project
      ≡ recall_where policy current cross scope project
unfolding recall_allowed recall_where recall_where_normal scope_predicate refuses
recall_allowed_lem policy current cross scope none h k =
    without_project policy.child (policy.namespace == codes "*") (is_empty policy.namespace)
      (is_portable scope) (is_project scope) (truthy current) cross (exclusive scope) k
recall_allowed_lem policy current cross scope (some []) h k = absurd (h refl)
recall_allowed_lem policy none cross scope (some (x ∷ p)) h k =
    with_project policy.child (policy.namespace == codes "*") (is_empty policy.namespace)
      (is_portable scope) (is_project scope) false cross ((x ∷ p) == policy.namespace) false
      (exclusive scope) (empty_beq x p policy.namespace) k (λ _. refl)
recall_allowed_lem policy (some c) cross scope (some (x ∷ p)) h k =
    with_project policy.child (policy.namespace == codes "*") (is_empty policy.namespace)
      (is_portable scope) (is_project scope) (not (is_empty c)) cross ((x ∷ p) == policy.namespace)
      ((x ∷ p) == c) (exclusive scope) (empty_beq x p policy.namespace) k
      (λ e. ground (arith, empty_beq x p c))

if_or : (a b : Bool) → (if a then true else b) ≡ (a || b)
if_or true b = refl
if_or false b = refl

-- Memory that is written in one project, under the default scope, is stored with that project; it is
-- recalled in it, and in another project only by a recall across projects.
pub write-recall :
    (a b scope : Text)
    → is_empty a ≡ false
    → lower (strip (if is_empty scope then codes "project" else scope)) ≡ codes "project"
    → (resolve_write_scope scope (some a) ≡ some (codes "project", some a))
      × ((cross : Bool)
          → recall_allowed unrestricted (some b) cross (some (codes "project")) (some a)
            ≡ (cross || a == b))
unfolding resolve_write_scope write_scope recall_allowed refuses is_portable is_project
write-recall a b scope h k = (rw (k, h) refl, λ cross. rw h (if_or cross (a == b)))
