-- ===== src/Outcomes/Identifiers.antt =====
-- Bounded identifiers that are checked again.
use thread_keeper.Common.{
  ltb, Bool-cases, length, All, Text, is_empty, lower_char, is_space, lstrip, strip, lower, ℕ, ◌≡◌,
  refl, inl, inr, Bool, true, false, not, ◌||◌, [], ◌∷◌, ◌++◌, reverse, arith,
}
use thread_keeper.Outcomes.Events.{
  is_alnum, is_separator, parts, is_identifier, bounded_identifier, is_sensitive,
}
use thread_keeper.Common.Results.{ok}
use mathlib.Core.List.{reverse-cons, reverse-reverse}

-- A character of an identifier.
abbrev Plain : ℕ → Type 0
Plain c = (is_space c ≡ false) × (lower_char c ≡ c)

Plain-part : (c : ℕ) → (is_alnum c || is_separator c) ≡ true → Plain c
unfolding is_space
Plain-part c h = ground arith

parts-Plain : (in_part : Bool) (s : Text) → parts in_part s ≡ true → All Plain s
unfolding parts
parts-Plain in_part [] h = tt
parts-Plain in_part (c ∷ s) h = elim (Bool-cases (is_alnum c)) [
  | inl letter ↦ (Plain-part c (ground arith), parts-Plain true s (ground arith))
  | inr other ↦ (Plain-part c (ground arith), parts-Plain false s (ground arith))
]

identifier-Plain : (s : Text) → is_identifier s ≡ true → All Plain s
unfolding is_identifier
identifier-Plain [] h = tt
identifier-Plain (c ∷ s) h = (Plain-part c (ground arith), parts-Plain true s (ground arith))

lower-Plain : (s : Text) → All Plain s → lower s ≡ s
unfolding lower
lower-Plain [] h = refl
lower-Plain (c ∷ s) h = rw (h.0.1, lower-Plain s h.1)

lstrip-Plain : (s : Text) → All Plain s → lstrip s ≡ s
unfolding lstrip
lstrip-Plain [] h = refl
lstrip-Plain (c ∷ s) h = rw h.0.0

Plain-append : (s t : Text) → All Plain s → All Plain t → All Plain (s ++ t)
Plain-append [] t h k = k
Plain-append (c ∷ s) t h k = (h.0, Plain-append s t h.1 k)

Plain-reverse : (s : Text) → All Plain s → All Plain (reverse s)
Plain-reverse [] h = tt
Plain-reverse (c ∷ s) h =
    rw (reverse-cons c s) (Plain-append (reverse s) (c ∷ []) (Plain-reverse s h.1) (h.0, tt))

strip-Plain : (s : Text) → All Plain s → strip s ≡ s
unfolding strip
strip-Plain s h =
    rw (lstrip-Plain s h, lstrip-Plain (reverse s) (Plain-reverse s h)) (reverse-reverse s)

-- What is refused, for a cleaned text.
abbrev is_refused : ℕ → Text → Bool
is_refused limit s = is_empty s || ltb limit (length s) || not (is_identifier s) || is_sensitive s

bounded_identifier-cleaned :
    (name : Text) (limit : ℕ) (t u : Text)
    → bounded_identifier name limit t ≡ ok u
    → is_refused limit u ≡ false
unfolding bounded_identifier
bounded_identifier-cleaned name limit t u h = ground arith

-- What was accepted is accepted again, as it is.
pub bounded_identifier-again :
    (name other t u : Text) (limit : ℕ)
    → bounded_identifier name limit t ≡ ok u
    → bounded_identifier other limit u ≡ ok u
unfolding bounded_identifier
bounded_identifier-again name other t u limit h =
    let fine = bounded_identifier-cleaned name limit t u h in
    let plain = identifier-Plain u (ground arith) in
    rw (bounded_identifier, strip-Plain u plain, lower-Plain u plain) (rw fine refl)
