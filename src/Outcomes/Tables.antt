-- ===== src/Outcomes/Tables.antt =====
-- The table of events and the ids of its rows.
use thread_keeper.Common.{
  if◌then◌else◌, Bool-cases, ◌==◌, ==_iff, nat_eq, pair_eq, drop, filter, All, contains, Text,
  codes, text_eq, ℕ, ◌≡◌, subst, inl, inr, Bool, true, not, none, some, List, [], ◌∷◌, arith,
}
use thread_keeper.Common.Results.{ok}
use thread_keeper.Outcomes.Events.{Event, Submission, find_event, bounded_identifier, checked_event}
use thread_keeper.Outcomes.Identifiers.{bounded_identifier-again}

-- An event stands where its id is looked up, and its id is accepted as it is.
pub record Stands (es : List Event) (e : Event) : Type 0 where
  pub found : find_event e.id es ≡ some e
  pub accepted : bounded_identifier (codes "event_id") 96 e.id ≡ ok e.id

abbrev pub IsTable : List Event → Type 0
IsTable es = All (Stands es) es

pub find_event-id :
    (id : Text) (es : List Event) (e : Event) → find_event id es ≡ some e → e.id ≡ id
find_event-id id [] e h = cc
find_event-id id (o ∷ es) e h = elim (Bool-cases (o.id == id)) [
  | inl same ↦ ground (arith, ==_iff o.id id)
  | inr other ↦ find_event-id id es e (ground arith)
]

-- A fact about the events that are found is one about the events of the table.
pub All-find :
    (P : Event → Type 0) (es : List Event)
    → All P es
    → (id : Text) (e : Event) → find_event id es ≡ some e
    → P e
All-find P [] h id e m = cc
All-find P (o ∷ es) h id e m = elim (Bool-cases (o.id == id)) [
  | inl same ↦ subst P (let p : o ≡ e = ground arith in p) h.0
  | inr other ↦ All-find P es h.1 id e (ground arith)
]

pub All-filter :
    {A : Type 0} (P : A → Type 0) (p : A → Bool) (xs : List A) → All P xs → All P (filter p xs)
All-filter P p [] h = tt
All-filter P p (x ∷ xs) h = elim (Bool-cases (p x)) [
  | inl keep ↦ rw keep (h.0, All-filter P p xs h.1)
  | inr drop ↦ rw drop (All-filter P p xs h.1)
]

-- The elements that stay have passed the test.
pub All-kept :
    {A : Type 0} (P : A → Type 0) (p : A → Bool) (xs : List A)
    → All (λ x. p x ≡ true → P x) xs
    → All P (filter p xs)
All-kept P p [] h = tt
All-kept P p (x ∷ xs) h = elim (Bool-cases (p x)) [
  | inl keep ↦ rw keep (h.0 keep, All-kept P p xs h.1)
  | inr drop ↦ rw drop (All-kept P p xs h.1)
]

pub All-weaken :
    {A : Type 0} (P Q : A → Type 0) (xs : List A) → ((x : A) → P x → Q x) → All P xs → All Q xs
All-weaken P Q [] f h = tt
All-weaken P Q (x ∷ xs) f h = (f x h.0, All-weaken P Q xs f h.1)

-- An event that is found stays found when a new id is added.
pub find_event-cons :
    (o : Event) (es : List Event) (id : Text) (e : Event)
    → find_event o.id es ≡ none
    → find_event id es ≡ some e
    → find_event id (o ∷ es) ≡ some e
find_event-cons o es id e fresh h = elim (Bool-cases (o.id == id)) [
  | inl same ↦ let p = subst (λ t. find_event t es ≡ none) ((==_iff o.id id).0 same) fresh in cc
  | inr other ↦ ground arith
]

pub IsTable-cons :
    (e : Event) (es : List Event)
    → find_event e.id es ≡ none
    → bounded_identifier (codes "event_id") 96 e.id ≡ ok e.id
    → IsTable es
    → IsTable (e ∷ es)
IsTable-cons e es fresh b h = (
  record { found = ground (arith, ==_iff e.id e.id); accepted = b },
  All-weaken (Stands es) (Stands (e ∷ es)) es
      (λ o s. record { found = find_event-cons e es o.id o fresh s.found; accepted = s.accepted })
      h,
)

pub find_event-filter :
    (ids : List Text) (id : Text) (es : List Event)
    → find_event id (filter (λ (e : Event). not (contains ids e.id)) es)
      ≡ (if contains ids id then none else find_event id es)
find_event-filter ids id [] = ground arith
find_event-filter ids id (e ∷ es) = ground (arith, find_event-filter ids id es, ==_iff e.id id)

-- No event of the deleted ids is found, and the others are found as before.
pub IsTable-filter :
    (ids : List Text) (es : List Event)
    → IsTable es
    → IsTable (filter (λ (e : Event). not (contains ids e.id)) es)
IsTable-filter ids es h =
    let keeps : Event → Bool = λ e. not (contains ids e.id) in
    All-kept (Stands (filter keeps es)) keeps es (
      All-weaken (Stands es) (λ e. keeps e ≡ true → Stands (filter keeps es) e) es
        (λ e s k. record {
          found = ground (arith, find_event-filter ids e.id es, s.found);
          accepted = s.accepted;
        })
        h)

-- What a checked event has gone through.
pub checked_event-fresh :
    (clock : ℕ) (s : Submission) (es : List Event) (e : Event)
    → checked_event clock s es ≡ ok e
    → (find_event e.id es ≡ none) × (bounded_identifier (codes "event_id") 96 e.id ≡ ok e.id)
unfolding checked_event
checked_event-fresh clock s es e h =
    ground
      (arith, bounded_identifier-again (codes "event_id") (codes "event_id") s.event_id e.id 96)
