-- ===== src/Authority/Source.antt =====
-- authority.py: declared sources, and the stamp of a write that declares one.
use thread_keeper.Common.{
  if◌then◌else◌, nat_eq, pair_eq, contains, Text, codes, text_eq, is_empty, after_prefix, strip, ℕ,
  Bool, true, false, not, ◌&&◌, ◌||◌, Option, none, some, List, [], ◌∷◌, ◌++◌,
}
use thread_keeper.Access.Policy.{Caller}
use thread_keeper.Authority.Store.{Artifact, Store, artifact, is_stamped, live}
use thread_keeper.Authority.Stamp.{derive, record_origin_root, authority_for_origin}

-- The kinds of `source_parent`; each is its prefix without the colon.
abbrev source_kinds : List Text
source_kinds =
    codes "dialog"
    ∷ codes "evidence"
    ∷ codes "claim"
    ∷ codes "lesson"
    ∷ codes "skill"
    ∷ codes "note"
    ∷ codes "verbatim"
    ∷ codes "action_outcome_candidate"
    ∷ []

abbrev reference : Text → Option Text → Option Artifact
reference kind none = none
reference kind (some rest) = if is_empty (strip rest) then none else some (kind, strip rest)

unfoldable pub parse_kinds : List Text → Text → Option Artifact
parse_kinds [] raw = none
parse_kinds (kind ∷ kinds) raw = elim (reference kind (after_prefix (kind ++ codes ":") raw)) [
  | none ↦ parse_kinds kinds raw
  | some a ↦ some a
]

unfoldable pub source_parent : Text → Option Artifact
unfolding parse_kinds
source_parent source = parse_kinds source_kinds (strip source)

unfoldable pub source_is_direct : Text → Bool
source_is_direct source =
    is_empty (strip source) || contains (codes "manual" ∷ codes "user" ∷ []) (strip source)

unfoldable pub source_is_live : Store → Artifact → Bool
source_is_live s parent = live (artifact s parent)

unfoldable pub can_derive : Store → Artifact → Artifact → Bool
unfolding source_is_live
can_derive s child parent = not (is_stamped s child) && source_is_live s parent

unfoldable pub can_stamp : Caller → Store → Artifact → Text → Text → Bool
can_stamp c s a write_origin source = elim (source_parent source) [
  | some parent ↦ can_derive s a parent
  | none ↦ elim (authority_for_origin c write_origin) [ none ↦ false | some _ ↦ true ]
]

unfoldable pub stamp : Caller → ℕ → Artifact → Text → Text → Text → Text → Store → Bool × Store
stamp c now a write_origin principal channel source s = elim (source_parent source) [
  | some parent ↦ derive c now a (parent ∷ []) s
  | none ↦ record_origin_root c now a write_origin principal channel s
]
