-- ===== src/Router/Accepted.antt =====
-- Which sets of decisions are accepted.
use thread_keeper.Common.{
  Bool-cases, ◌==◌, nat_eq, pair_eq, length, All, Text, text_beq_iff, text_eq, is_empty, strip, ◌≤◌,
  ◌≡◌, refl, ◌≢◌, ◌↔◌, inl, inr, true, false, none, List, [], ◌∷◌, arith,
}
use thread_keeper.Router.Roles.{EachOnce}
use thread_keeper.Router.Decisions.{
  not_object, has_reason, object, Decision, roles_of, Field, Fields, text, clean, shown,
}
use thread_keeper.Router.Routes.{Options, router_role, route_problem}

-- A field that is a text.
abbrev pub IsText : Field → Type 0
IsText f = (t : Text) × (f ≡ text t)

-- A decision that may be recorded.
pub record ValidFields (options : Options) (f : Fields) : Type 0 where
  pub has_role : IsText f.role
  pub has_cli : IsText f.cli
  pub has_model : IsText f.model
  pub has_effort : IsText f.effort
  pub has_reason : IsText f.reason
  pub is_other_role : clean (shown f.role) ≢ router_role
  pub can_run :
      route_problem (clean (shown f.cli)) (strip (shown f.model)) (clean (shown f.effort)) options
      ≡ none
  pub reason_size : (1 ≤ length (strip (shown f.reason))) × (length (strip (shown f.reason)) ≤ 500)

abbrev pub ValidDecision : Options → Decision → Type 0
ValidDecision options not_object = ⊥
ValidDecision options (object f) = ValidFields options f

pub is_empty_iff {ℓ} : {A : Type ℓ} (xs : List A) → (is_empty xs ≡ true) ↔ (xs ≡ [])
is_empty_iff [] = (λ e. refl, λ e. refl)
is_empty_iff (x ∷ xs) = (λ e. absurd (ground (arith, e)), λ e. absurd (ground (arith, e)))

pub not_eq_iff : (s t : Text) → ((s == t) ≡ false) ↔ (s ≢ t)
not_eq_iff s t = elim (Bool-cases (s == t)) [
  | inl e ↦ (λ h. absurd (ground (arith, e, h)), λ n. absurd (n ((text_beq_iff s t).0 e)))
  | inr e ↦ (λ h. λ q. absurd (ground (arith, e, (text_beq_iff s t).1 q)), λ n. e)
]

-- What a set of decisions needs to be recorded.
pub record Accepted (ds : List Decision) (expected : List Text) (options : Options) : Type 0 where
  pub has_catalog : is_empty options ≡ false
  pub each_once : EachOnce (roles_of ds) expected
  pub all_valid : All (ValidDecision options) ds
