-- ===== src/Authority/Gate.antt =====
-- authority.py: `authorize_action` and `is_visible`.
use thread_keeper.Common.{
  if◌then◌else◌, ◌==◌, nat_eq, pair_eq, any, contains, Text, text_eq, Bool, true, false, not, none,
  some, List, [], ◌∷◌,
}
use thread_keeper.Authority.Store.{
  trusted, class_eq, Artifact, Root, Store, artifact, roots_of, live,
}

pub data Reason : Type 0 where
  unknown_authority invalidated trusted_source explicit_confirmation : Reason
  independent_trusted_corroboration needs_trusted_corroboration_or_confirmation : Reason

pub record GateDecision : Type 0 where
  pub allowed : Bool
  pub reason : Reason

abbrev refuse : Reason → GateDecision
refuse r = record { allowed = false; reason = r }

abbrev allow : Reason → GateDecision
allow r = record { allowed = true; reason = r }

-- The principals of the roots that are, or are not, trusted.
unfoldable pub principals : Bool → List Root → List Text
principals is_trusted [] = []
principals is_trusted (r ∷ rs) =
    let rest = principals is_trusted rs in
    if (r.authority_class == trusted)
    then (if is_trusted then r.principal ∷ rest else rest)
    else (if is_trusted then rest else r.principal ∷ rest)

-- `trusted_principals - low_principals`
unfoldable pub corroborated : List Root → Bool
corroborated rs = any (λ p. not (contains (principals false rs) p)) (principals true rs)

unfoldable pub authorize_action : Store → Artifact → Bool → GateDecision
authorize_action s a confirmed = elim (artifact s a) [
  | none ↦ refuse unknown_authority
  | some row ↦ elim row.invalidated_at [
    | some _ ↦ refuse invalidated
    | none ↦
        if row.authority_class == trusted
        then allow trusted_source
        else if confirmed
        then allow explicit_confirmation
        else if corroborated (roots_of s a)
        then allow independent_trusted_corroboration
        else refuse needs_trusted_corroboration_or_confirmation
  ]
]

unfoldable pub is_visible : Store → Artifact → Bool
is_visible s a = elim (artifact s a) [ none ↦ true | some row ↦ live (some row) ]
