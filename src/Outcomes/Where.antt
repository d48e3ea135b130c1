-- ===== src/Outcomes/Where.antt =====
-- The events that pass a test, and what forgetting them comes to.
use thread_keeper.Common.{
  Bool-cases, ◌==◌, ==_iff, nat_eq, pair_eq, length, filter, any, All, contains, dedup_from,
  contains-dedup_from, Text, codes, text_eq, is_empty, ℕ, ◌+◌, ◌≡◌, refl, sym, subst, ◌⊎◌, inl, inr,
  Bool, true, false, not, ◌&&◌, Option, none, some, List, [], ◌∷◌, map, arith,
}
use thread_keeper.Authority.Invalidate.Reach.{step, root, Reach}
use thread_keeper.Authority.Store.{Store, Artifact, artifact, live}
use thread_keeper.Common.Results.{Result, ok}
use thread_keeper.Authority.Closed.{derives, live-mark}
use thread_keeper.Outcomes.Events.{
  Event, Candidate, Link, Db, Fault, find_event, event_artifact, bounded_identifier,
}
use thread_keeper.Outcomes.Forget.{Counts, ids_where, candidate_ids, bounded_all}
use thread_keeper.Outcomes.Tables.{IsTable, All-weaken}
use thread_keeper.Authority.Invalidate.Marks.{Forgets, mark}

-- A test of the event of an id.
abbrev pub holds : (Event → Bool) → Option Event → Bool
holds p none = false
holds p (some e) = p e

holds-contains :
    (p : Event → Bool) (full es : List Event) (id : Text)
    → All (λ (e : Event). find_event e.id full ≡ some e) es
    → contains (ids_where p es) id ≡ true
    → holds p (find_event id full) ≡ true
holds-contains p full [] id h m = cc
holds-contains p full (e ∷ es) id h m = elim (Bool-cases (p e)) [
  | inl pass ↦ elim (Bool-cases (e.id == id)) [
    | inl same ↦ rw (← (==_iff e.id id).0 same, h.0) pass
    | inr other ↦ holds-contains p full es id h.1 (ground arith)
  ]
  | inr fail ↦ holds-contains p full es id h.1 (ground arith)
]

contains-holds :
    (p : Event → Bool) (es : List Event) (id : Text)
    → holds p (find_event id es) ≡ true
    → contains (ids_where p es) id ≡ true
contains-holds p [] id h = cc
contains-holds p (e ∷ es) id h = elim (Bool-cases (e.id == id)) [
  | inl same ↦ ground arith
  | inr other ↦ ground (arith, contains-holds p es id)
]

-- The ids of the events that pass a test are those whose event passes it.
pub contains-where :
    (p : Event → Bool) (es : List Event) (id : Text)
    → IsTable es
    → contains (dedup_from [] (ids_where p es)) id ≡ holds p (find_event id es)
contains-where p es id h = ground (
  arith,
  contains-dedup_from [] (ids_where p es) id,
  holds-contains p es es id
      (All-weaken _ (λ (e : Event). find_event e.id es ≡ some e) es (λ e s. s.found) h),
  contains-holds p es id,
)

pub filter-cong :
    {A : Type 0} (p q : A → Bool) (xs : List A)
    → All (λ x. p x ≡ q x) xs
    → filter p xs ≡ filter q xs
filter-cong p q [] h = refl
filter-cong p q (x ∷ xs) h = ground (arith, h.0, filter-cong p q xs h.1)

pub All-of : {A : Type 0} (P : A → Type 0) (xs : List A) → ((x : A) → P x) → All P xs
All-of P [] f = tt
All-of P (x ∷ xs) f = (f x, All-of P xs f)

filter-true : {A : Type 0} (xs : List A) → filter (λ x. true) xs ≡ xs
filter-true [] = refl
filter-true (x ∷ xs) = ground (arith, filter-true xs)

pub length-filter-not :
    {A : Type 0} (p : A → Bool) (xs : List A)
    → length (filter p xs) + length (filter (λ x. not (p x)) xs) ≡ length xs
length-filter-not p [] = refl
length-filter-not p (x ∷ xs) = ground (arith, length-filter-not p xs)

-- What forgetting the events that pass a test leaves: the other events, their links and candidates,
-- and no live stamp of a forgotten event or of what is derived from it.
pub record Erased (p : Event → Bool) (db db' : Db) (n : Counts) : Type 0 where
  pub events : db'.events ≡ filter (λ e. not (p e)) db.events
  pub links : db'.links ≡ filter (λ l. not (holds p (find_event l.event_id db.events))) db.links
  pub candidates :
      db'.candidates
      ≡ filter
          (λ (c : Candidate). not (
            any
              (λ (l : Link). holds p (find_event l.event_id db.events) && l.candidate_id == c.id)
              db.links))
          db.candidates
  pub withdrawn :
      (e : Event) (a : Artifact)
      → find_event e.id db.events ≡ some e
      → p e ≡ true
      → (a ≡ event_artifact e.id) ⊎ (derives db.authority (event_artifact e.id) a ≡ true)
      → live (artifact db'.authority a) ≡ false
  pub counted : n.events + length db'.events ≡ length db.events

abbrev pub Erases : (Event → Bool) → Db → Result Fault (Counts × Db) → Type 0
Erases p db r = (n : Counts) × (db' : Db) × (r ≡ ok (n, db')) × Erased p db db' n

pub bounded_all-where :
    (p : Event → Bool) (es full : List Event)
    → All (λ (e : Event). bounded_identifier (codes "event_id") 96 e.id ≡ ok e.id) es
    → bounded_all (ids_where p es) ≡ ok (ids_where p es)
unfolding bounded_all
bounded_all-where p [] full h = refl
bounded_all-where p (e ∷ es) full h = elim (Bool-cases (p e)) [
  | inl pass ↦ rw (pass, bounded_all, h.0, bounded_all-where p es full h.1) refl
  | inr fail ↦ rw fail (bounded_all-where p es full h.1)
]

pub candidate_ids-contains :
    (ids : List Text) (ls : List Link) (n : ℕ)
    → contains (candidate_ids ids ls) n
      ≡ any (λ (l : Link). contains ids l.event_id && l.candidate_id == n) ls
unfolding candidate_ids
candidate_ids-contains ids [] n = refl
candidate_ids-contains ids (l ∷ ls) n = ground (arith, candidate_ids-contains ids ls n)

pub any-cong :
    {A : Type 0} (p q : A → Bool) (xs : List A) → ((x : A) → p x ≡ q x) → any p xs ≡ any q xs
any-cong p q [] h = refl
any-cong p q (x ∷ xs) h = ground (arith, h x, any-cong p q xs h)

pub contains-artifacts :
    (ids : List Text) (id : Text)
    → contains ids id ≡ true
    → contains (map event_artifact ids) (event_artifact id) ≡ true
contains-artifacts [] id h = cc
contains-artifacts (t ∷ ids) id h =
    ground
      (arith, contains-artifacts ids id, ==_iff t id, ==_iff (event_artifact t) (event_artifact id))

pub contains-nothing : (ids : List Text) (id : Text) → is_empty ids ≡ true → contains ids id ≡ false
contains-nothing [] id h = refl
contains-nothing (t ∷ ids) id h = cc

pub filter-kept :
    {A : Type 0} (p : A → Bool) (xs : List A) → ((x : A) → p x ≡ true) → xs ≡ filter p xs
filter-kept p [] h = refl
filter-kept p (x ∷ xs) h = ground (arith, h x, filter-kept p xs h)

pub candidate_ids-nothing :
    (ids : List Text) (ls : List Link) → is_empty ids ≡ true → candidate_ids ids ls ≡ []
unfolding candidate_ids
candidate_ids-nothing ids [] h = refl
candidate_ids-nothing ids (l ∷ ls) h =
    ground (arith, candidate_ids-nothing ids ls h, contains-nothing ids l.event_id h)

-- The artifacts of forgotten ids, and what is derived from them, are reached.
pub withdrawn-of :
    (clock : ℕ) (reason : Text) (ids : List Text) (n : ℕ) (s s' : Store) (id : Text) (a : Artifact)
    → Forgets clock reason (map event_artifact ids) [] s s' n
    → contains ids id ≡ true
    → (a ≡ event_artifact id) ⊎ (derives s (event_artifact id) a ≡ true)
    → live (artifact s' a) ≡ false
withdrawn-of clock reason ids n s s' id a f m d =
    let top = root (contains-artifacts ids id m) refl in
    elim (f.at a) [
      | inl (r, e) ↦ e' r e
      | inr (r, e) ↦ absurd (elim d [
        | inl same ↦ r (subst (Reach s.derivations [] (map event_artifact ids)) (sym same) top)
        | inr below ↦ r (step top below refl)
      ])
    ]
  where
    e' :
        ∥ Reach s.derivations [] (map event_artifact ids) a ∥₁
        → artifact s' a ≡ mark clock reason (artifact s a)
        → live (artifact s' a) ≡ false
    e' r e = ground (arith, live-mark clock reason (artifact s a))
