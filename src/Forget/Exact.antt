-- ===== src/Forget/Exact.antt =====
-- The claims that go with a forgotten source.
use thread_keeper.Common.{nat_eq, pair_eq, filter, Text, text_eq, List, ◌++◌, map}
use thread_keeper.Forget.Targets.{Targets}
use thread_keeper.Forget.Claims.{
  Evidence, Claim, is_in, evidence_of, evidence_from, ids_of, is_unsupported, selected_claims,
}
use thread_keeper.Forget.Closure.{IdsKeyed}

module _ (rows : List Evidence) (claims : List Claim) (created_by tokens : List Text)
    (keyed : IdsKeyed rows) where
  abbrev chosen : List Text
  chosen = selected_claims rows claims created_by tokens

  abbrev created : List Text
  created =
      map (λ (d : Claim). d.id) (filter (λ (d : Claim). is_in created_by d.created_by_cid) claims)

  abbrev sourced : List Evidence
  sourced = evidence_from rows tokens

  abbrev lost : List Text
  lost = filter (is_unsupported rows (ids_of sourced)) (map (λ (r : Evidence). r.claim_id) sourced)

  abbrev first : List Text
  first = ids_of (evidence_of rows chosen) ++ ids_of (evidence_from rows tokens)
