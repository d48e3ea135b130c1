-- ===== src/Forget/Round.antt =====
-- One round of the loop over forgotten supersessions.
use thread_keeper.Common.{
  Bool-cases, ==_iff, nat_eq, pair_eq, contains, contains-append, dedup_from, contains-dedup_from,
  Text, text_eq, ◌≡◌, refl, sym, subst, ◌⊎◌, inl, inr, true, false, not, ◌&&◌, Option, List, [],
  ◌∷◌, ◌++◌, map, arith,
}
use thread_keeper.Forget.Closure.{
  names, IdsKeyed, names-pending, contains-filter_of, all-contains, all-of, all-false,
  sources-within, Inherits, Inv,
}
use mathlib.Core.List.{Memᴰ}
use thread_keeper.Forget.Keyed.{contains-Mem, contains-both, contains-row}
use thread_keeper.Forget.Claims.{
  Evidence, is_in, evidence_of, evidence_from, claim_sources, ids_of, is_unsupported, new_claims,
}

-- A round of the loop.
module _ (rows : List Evidence) (keyed : IdsKeyed rows)
    (claims_0 selected_0 claims selected pending : List Text)
    (inv : Inv rows claims_0 selected_0 claims selected pending) where
  abbrev heirs : List Evidence
  heirs = evidence_from rows (claim_sources pending)

  abbrev wider : List Text
  wider = ids_of heirs ++ selected

  abbrev added : List Text
  added = new_claims rows claims wider pending

  abbrev widest : List Text
  widest = ids_of (evidence_of rows added) ++ wider

  contains-added :
      (x : Text)
      → contains added x ≡ (
          contains (map (λ (r : Evidence). r.claim_id) heirs) x
          && not (contains claims x)
          && is_unsupported rows wider x)
  unfolding new_claims
  contains-added x = ground (
    arith,
    contains-filter_of (λ c. not (contains claims c) && is_unsupported rows wider c)
        (dedup_from [] (map (λ (r : Evidence). r.claim_id) heirs)) x,
    contains-dedup_from [] (map (λ (r : Evidence). r.claim_id) heirs) x,
  )

  own_wider :
      (r : Evidence) (x : Text)
      → Memᴰ r rows
      → r.claim_id ≡ x
      → is_unsupported rows wider x ≡ true
      → contains wider r.id ≡ true
  unfolding is_unsupported
  own_wider r x m e u =
      all-of (λ id. contains wider id) (ids_of (evidence_of rows (x ∷ []))) r.id (ground arith)
        (contains-Mem (λ (q : Evidence). q.id) (λ (q : Evidence). contains (x ∷ []) q.claim_id) rows
          m (ground (arith, ==_iff x r.claim_id)))

  widest-wider : (id : Text) → contains widest id ≡ true → contains wider id ≡ true
  widest-wider id h = elim (Bool-cases (contains (ids_of (evidence_of rows added)) id)) [
    | inl fresh ↦
        let (r, m, k, k', e) =
          contains-both (λ (q : Evidence). q.id) (λ (q : Evidence). contains added q.claim_id)
            (λ (q : Evidence). contains added q.claim_id) rows id keyed fresh fresh in
        subst (λ i. contains wider i ≡ true) e
          (own_wider r r.claim_id m refl (ground (arith, contains-added r.claim_id)))
    | inr old ↦ ground (arith, contains-append (ids_of (evidence_of rows added)) wider id)
  ]

  wider-widest : (id : Text) → contains wider id ≡ true → contains widest id ≡ true
  wider-widest id h = ground (arith, contains-append (ids_of (evidence_of rows added)) wider id)

  selected_wider : (id : Text) → contains selected id ≡ true → contains wider id ≡ true
  selected_wider id h = ground (arith, contains-append (ids_of heirs) selected id)

  heir_claim :
      (r : Evidence) (c : Text)
      → Memᴰ r rows
      → contains pending c ≡ true
      → names c r ≡ true
      → (contains (map (λ (q : Evidence). q.claim_id) heirs) r.claim_id ≡ true)
        × (contains wider r.id ≡ true)
  heir_claim r c m p n =
      let source = names-pending c pending r.source p n in
      (
        contains-Mem (λ (q : Evidence). q.claim_id)
            (λ (q : Evidence). is_in (claim_sources pending) q.source) rows m source,
        ground (
          arith,
          contains-append (ids_of heirs) selected r.id,
          contains-Mem (λ (q : Evidence). q.id)
              (λ (q : Evidence). is_in (claim_sources pending) q.source) rows m source,
        ),
      )

  in_next :
      (x : Text)
      → contains (map (λ (q : Evidence). q.claim_id) heirs) x ≡ true
      → is_unsupported rows wider x ≡ true
      → contains (added ++ claims) x ≡ true
  in_next x h u = ground (arith, contains-append added claims x, contains-added x)

  unsupported_wider :
      (x : Text) → is_unsupported rows widest x ≡ true → is_unsupported rows wider x ≡ true
  unfolding is_unsupported
  unsupported_wider x u =
      let every =
        all-contains (λ id. contains widest id) (λ id. contains wider id)
          (ids_of (evidence_of rows (x ∷ []))) (λ id m k. widest-wider id k) (ground arith) in
      ground arith

  -- A claim that has lost its last support in this round is an heir.
  lost_support :
      (x : Text)
      → is_unsupported rows wider x ≡ true
      → is_unsupported rows selected x ≡ false
      → contains (map (λ (q : Evidence). q.claim_id) heirs) x ≡ true
  unfolding is_unsupported
  lost_support x u v =
      let own = ids_of (evidence_of rows (x ∷ [])) in
      let (id, m, k) = all-false (λ id. contains selected id) own (ground arith) in
      let now = all-of (λ id. contains wider id) own id (ground arith) m in
      let (r, at, p, q, e) =
        contains-both (λ (q : Evidence). q.id) (λ (q : Evidence). contains (x ∷ []) q.claim_id)
          (λ (q : Evidence). is_in (claim_sources pending) q.source) rows id keyed m
          (ground (arith, contains-append (ids_of heirs) selected id)) in
      subst (λ y. contains (map (λ (q : Evidence). q.claim_id) heirs) y ≡ true)
        (sym ((==_iff x r.claim_id).0 (ground arith)))
        (contains-Mem (λ (q : Evidence). q.claim_id)
          (λ (q : Evidence). is_in (claim_sources pending) q.source) rows at q)

  from_claims :
      (source : Option Text)
      → is_in (claim_sources claims) source ≡ true
      → is_in (claim_sources (added ++ claims)) source ≡ true
  from_claims source m =
      sources-within claims (added ++ claims) source
        (λ c k. ground (arith, contains-append added claims c)) m

  from_pending :
      (source : Option Text)
      → is_in (claim_sources pending) source ≡ true
      → is_in (claim_sources (added ++ claims)) source ≡ true
  from_pending source m =
      sources-within pending (added ++ claims) source
        (λ c k. ground (arith, contains-append added claims c, inv.within c k)) m

  -- A claim or a piece of evidence that inherits does so after the round.
  heir_Inherits :
      (key : Evidence → Text) (x : Text)
      → contains (map key heirs) x ≡ true
      → Inherits rows (added ++ claims) key x
  heir_Inherits key x h =
      let (r, m, e, s) =
        contains-row key (λ (q : Evidence). is_in (claim_sources pending) q.source) rows x h in
      (r, m, e, from_pending r.source s)

  claim_sound :
      (c : Text)
      → contains (added ++ claims) c ≡ true
      → (contains claims_0 c ≡ true) ⊎ Inherits rows (added ++ claims) (λ r. r.claim_id) c
  claim_sound c h = elim (Bool-cases (contains claims c)) [
    | inl old ↦ elim (inv.sound_claims c old) [
      | inl start ↦ inl start
      | inr (r, m, e, s) ↦ inr (r, m, e, from_claims r.source s)
    ]
    | inr new ↦ inr (
        heir_Inherits (λ r. r.claim_id) c
          (ground (arith, contains-append added claims c, contains-added c)))
  ]

  evidence_sound :
      (id : Text)
      → contains widest id ≡ true
      → (contains selected_0 id ≡ true) ⊎ Inherits rows (added ++ claims) (λ r. r.id) id
  evidence_sound id h = elim (Bool-cases (contains selected id)) [
    | inl old ↦ elim (inv.sound_selected id old) [
      | inl start ↦ inl start
      | inr (r, m, e, s) ↦ inr (r, m, e, from_claims r.source s)
    ]
    | inr new ↦ inr (
        heir_Inherits (λ r. r.id) id
          (ground (arith, contains-append (ids_of heirs) selected id, widest-wider id h)))
  ]

  pub round-Inv : Inv rows claims_0 selected_0 (added ++ claims) widest added
  round-Inv = record {
    within = λ c k. ground (arith, contains-append added claims c);
    grown = λ c k. ground (arith, contains-append added claims c, inv.grown c k);
    kept = λ id k. wider-widest id (selected_wider id (inv.kept id k));
    sound_claims = claim_sound;
    sound_selected = evidence_sound;
    own = λ r m k. elim (Bool-cases (contains claims r.claim_id)) [
      | inl old ↦ wider-widest r.id (selected_wider r.id (inv.own r m old))
      | inr new ↦ wider-widest r.id (
          own_wider r r.claim_id m refl
            (ground (arith, contains-append added claims r.claim_id, contains-added r.claim_id)))
    ];
    inherited = λ r c m k later n. elim (Bool-cases (contains pending c)) [
      | inl now ↦ wider-widest r.id (heir_claim r c m now n).1
      | inr before ↦ wider-widest r.id (
          selected_wider r.id
            (inv.inherited r c m (ground (arith, contains-append added claims c)) before n))
    ];
    complete = λ r c m k later n u.
        let u' = unsupported_wider r.claim_id u in
        elim (Bool-cases (contains pending c)) [
          | inl now ↦ in_next r.claim_id (heir_claim r c m now n).0 u'
          | inr before ↦ elim (Bool-cases (is_unsupported rows selected r.claim_id)) [
            | inl already ↦ ground (
              arith,
              contains-append added claims r.claim_id,
              inv.complete r c m (ground (arith, contains-append added claims c)) before n already,
            )
            | inr lost ↦ in_next r.claim_id (lost_support r.claim_id u' lost) u'
          ]
        ];
  }
