-- ===== src/Forget/Claims.antt =====
-- forget.py: which claims and which evidence go with a forgotten source.
use thread_keeper.Common.{
  nat_eq, pair_eq, length, filter, all, contains, dedup_from, Text, codes, text_eq, is_empty, ℕ,
  zero, suc, ◌+◌, Bool, false, not, ◌&&◌, Option, none, some, List, [], ◌∷◌, ◌++◌, map,
}

-- A row of `dialectic_evidence`.
pub record Evidence : Type 0 where
  pub id : Text
  pub claim_id : Text
  pub source : Option Text

-- A row of `user_dialectic`.
pub record Claim : Type 0 where
  pub id : Text
  pub created_by_cid : Option Text

-- A column that may be NULL, in a list of values.
abbrev pub is_in : List Text → Option Text → Bool
is_in values none = false
is_in values (some t) = contains values t

-- The texts by which evidence names a claim as its source.
abbrev pub claim_sources : List Text → List Text
claim_sources [] = []
claim_sources (c ∷ cs) = (codes "supersede:" ++ c) ∷ (codes "claim:" ++ c) ∷ claim_sources cs

abbrev pub evidence_of : List Evidence → List Text → List Evidence
evidence_of rows claims = filter (λ (r : Evidence). contains claims r.claim_id) rows

abbrev pub evidence_from : List Evidence → List Text → List Evidence
evidence_from rows sources = filter (λ (r : Evidence). is_in sources r.source) rows

abbrev pub ids_of : List Evidence → List Text
ids_of rows = map (λ (r : Evidence). r.id) rows

-- Whether a claim has evidence, all of it selected.
unfoldable pub is_unsupported : List Evidence → List Text → Text → Bool
is_unsupported rows selected claim =
    let own = ids_of (evidence_of rows (claim ∷ [])) in
    not (is_empty own) && all (λ id. contains selected id) own

-- The claims that one round of the loop adds.
unfoldable pub new_claims : List Evidence → List Text → List Text → List Text → List Text
new_claims rows claims selected pending =
    filter (λ c. not (contains claims c) && is_unsupported rows selected c)
      (dedup_from []
        (map (λ (r : Evidence). r.claim_id) (evidence_from rows (claim_sources pending))))

-- The loop of `_include_supersede_descendants`, from the claims and the evidence that are selected;
-- `none` where the fuel ran out. A set is a list of its members.
unfoldable pub descend :
    ℕ → List Evidence → List Text → List Text → List Text → Option (List Text × List Text)
descend fuel rows claims selected [] = some (claims, selected)
descend zero rows claims selected (p ∷ ps) = none
descend (suc fuel) rows claims selected (p ∷ ps) =
    let selected' = ids_of (evidence_from rows (claim_sources (p ∷ ps))) ++ selected in
    let added = new_claims rows claims selected' (p ∷ ps) in
    descend fuel rows (added ++ claims) (ids_of (evidence_of rows added) ++ selected') added

-- A round that goes on adds a claim that some evidence belongs to.
unfoldable pub include_supersede_descendants :
    List Evidence → List Text → List Text → Option (List Text × List Text)
include_supersede_descendants rows claims selected =
    descend (length rows + 1) rows claims selected claims

-- The claims whose evidence is all selected, among those that selected evidence belongs to, and with
-- the claims that the selector created.
unfoldable pub selected_claims : List Evidence → List Claim → List Text → List Text → List Text
selected_claims rows claims created_by tokens =
    let selected = evidence_from rows tokens in
    map (λ (c : Claim). c.id) (filter (λ (c : Claim). is_in created_by c.created_by_cid) claims)
    ++ filter (is_unsupported rows (ids_of selected)) (map (λ (r : Evidence). r.claim_id) selected)

-- The last part of `_dialectic_targets`: the claims and the evidence to delete. `created_by` has the
-- selector if it is a session, and `tokens` the source tokens.
unfoldable pub dialectic_targets :
    List Evidence → List Claim → List Text → List Text → Option (List Text × List Text)
dialectic_targets rows claims created_by tokens =
    let chosen = selected_claims rows claims created_by tokens in
    include_supersede_descendants rows chosen
      (ids_of (evidence_of rows chosen) ++ ids_of (evidence_from rows tokens))
