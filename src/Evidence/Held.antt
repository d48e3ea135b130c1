-- ===== src/Evidence/Held.antt =====
-- The registry: bounded, and it keeps what is not expired while there is room.
use thread_keeper.Common.{
  ltb, Bool-cases, ◌==◌, ==_refl, nat_eq, pair_eq, length, length-filter-le, lookup, assign,
  lookup-assign, Text, text_eq, ℕ, suc, ◌+◌, ◌≤◌, ◌<◌, ◌≡◌, refl, ◌∙◌, inl, inr, Bool, false,
  Option, some, List, [], ◌∷◌, arith,
}
use thread_keeper.Evidence.Registry.{
  Kind, Reference, ttl, max_links, Registry, trim, unexpired, issue,
}

length-trim : (reg : Registry) → length (trim reg) < max_links
unfolding trim
length-trim [] = omega arith
length-trim (r ∷ rs) = ground (arith, length-trim rs)

length-assign :
    (uri : Text) (ref : Reference) (reg : Registry) → length (assign uri ref reg) ≤ suc (length reg)
length-assign uri ref [] = omega arith
length-assign uri ref ((u, r) ∷ reg) = ground (arith, length-assign uri ref reg)

-- The registries that issuing references makes, from the empty one.
pub data Issued : Registry → Type 0 where
  start : Issued []
  then_issue :
      {reg : Registry} (now : ℕ) (uri : Text) (kind : Kind) (ids : List Text) (caller : Text)
      (project : Option Text) (cross_project : Bool) (thread_id : Option Text)
      → Issued reg
      → Issued (issue now uri kind ids caller project cross_project thread_id reg)

-- There are never more than 1024 references.
pub Issued-Bounded : {reg : Registry} → Issued reg → length reg ≤ max_links
unfolding issue
Issued-Bounded start = omega arith
Issued-Bounded (then_issue {reg = reg} now uri kind ids caller project cross_project thread_id i) =
    omega (arith, length-assign uri _ (trim (unexpired now reg)), length-trim (unexpired now reg))

trim-short : (reg : Registry) → length reg < max_links → trim reg ≡ reg
unfolding trim
trim-short [] h = refl
trim-short (r ∷ rs) h = ground (arith, h)

lookup-unexpired :
    (now : ℕ) (uri : Text) (ref : Reference) (reg : Registry)
    → lookup uri reg ≡ some ref
    → now < ref.expires
    → lookup uri (unexpired now reg) ≡ some ref
lookup-unexpired now uri ref [] h l = ground (arith, h)
lookup-unexpired now uri ref ((u, r) ∷ reg) h l = elim (Bool-cases (u == uri)) [
  | inl e ↦ grind (arith, e, h, l)
  | inr e ↦ grind (arith, e, h, l, lookup-unexpired now uri ref reg)
]

-- A reference that is issued is found; while there is room, so is each other one that is not expired.
pub lookup-issue :
    (now : ℕ) (uri : Text) (kind : Kind) (ids : List Text) (caller : Text) (project : Option Text)
    (cross_project : Bool) (thread_id : Option Text) (other : Text) (ref : Reference)
    (reg : Registry)
    → length reg < max_links
    → (uri == other) ≡ false
    → lookup other reg ≡ some ref
    → now < ref.expires
    → (lookup uri (issue now uri kind ids caller project cross_project thread_id reg)
        ≡ some (record {
          kind = kind;
          ids = ids;
          caller = caller;
          project = project;
          cross_project = cross_project;
          expires = now + ttl;
          thread_id = thread_id;
        }))
      × (lookup other (issue now uri kind ids caller project cross_project thread_id reg)
          ≡ some ref)
unfolding issue
lookup-issue now uri kind ids caller project cross_project thread_id other ref reg short d l live =
    let t =
      trim-short (unexpired now reg)
        (omega (arith, short, length-filter-le (λ e. ltb now e.1.expires) reg)) in
    (
      lookup-assign uri uri _ (trim (unexpired now reg)) ∙ rw (==_refl uri) refl,
      lookup-assign uri other _ (trim (unexpired now reg))
          ∙ rw (d, t) (lookup-unexpired now other ref reg l live),
    )
