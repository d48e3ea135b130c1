-- ===== src/Forget/Keyed.antt =====
-- Tables whose rows are told apart by a key, and what deleting rows by their keys does.
use thread_keeper.Common.{
  if◌then◌else◌, Bool-cases, Equality, ◌==◌, ==_iff, nat_eq, pair_eq, filter, contains, text_eq,
  ◌≡◌, refl, sym, ap, ◌∙◌, subst, inl, inr, Bool, true, false, not, ◌&&◌, List, [], ◌∷◌, map, arith,
}
use mathlib.Core.List.{Memᴰ}
use mathlib.Core.List.Memᴰ.{head, tail}

module _ {A K : Type 0} ⦃e : Equality K⦄ (key : A → K) where
  -- Each key stands once.
  abbrev pub IsKeyed : List A → Type 0
  IsKeyed [] = Unit
  IsKeyed (x ∷ xs) = (contains (map key xs) (key x) ≡ false) × IsKeyed xs

  pub contains-filter :
      (p : A → Bool) (xs : List A) (k : K)
      → contains (map key (filter p xs)) k ≡ true
      → contains (map key xs) k ≡ true
  contains-filter p [] k h = cc
  contains-filter p (x ∷ xs) k h = ground (arith, contains-filter p xs k)

  pub contains-Mem :
      {r : A} (p : A → Bool) (xs : List A)
      → Memᴰ r xs
      → p r ≡ true
      → contains (map key (filter p xs)) (key r) ≡ true
  contains-Mem p [] m h = elim m [ ]
  contains-Mem {r} p (x ∷ xs) (head q) h =
      let h' : p x ≡ true = subst (λ y. p y ≡ true) q h in
      ground (arith, ==_iff (key x) (key r), ap key q)
  contains-Mem {r} p (x ∷ xs) (tail m) h = ground (arith, contains-Mem p xs m h)

  pub contains-row :
      (p : A → Bool) (xs : List A) (k : K)
      → contains (map key (filter p xs)) k ≡ true
      → (r : A) × Memᴰ r xs × (key r ≡ k) × (p r ≡ true)
  contains-row p [] k h = cc
  contains-row p (x ∷ xs) k h = elim (Bool-cases (p x && key x == k)) [
    | inl this ↦ (x, head refl, (==_iff (key x) k).0 (ground arith), ground arith)
    | inr other ↦ let (r, at, e, y) = contains-row p xs k (ground arith) in (r, tail at, e, y)
  ]

  Mem-contains : {r : A} (xs : List A) → Memᴰ r xs → contains (map key xs) (key r) ≡ true
  Mem-contains [] m = elim m [ ]
  Mem-contains {r} (x ∷ xs) (head q) = ground (arith, ==_iff (key x) (key r), ap key q)
  Mem-contains {r} (x ∷ xs) (tail m) = ground (arith, Mem-contains xs m)

  -- Rows with one key are one row.
  pub keyed_row :
      {r q : A} (xs : List A) → IsKeyed xs → Memᴰ r xs → Memᴰ q xs → key r ≡ key q → r ≡ q
  keyed_row [] h m n e = elim m [ ]
  keyed_row (x ∷ xs) h (head a) (head b) e = a ∙ sym b
  keyed_row {r} {q} (x ∷ xs) h (head a) (tail n) e =
      absurd (ground (arith, Mem-contains xs n, h.0, ap key a))
  keyed_row {r} {q} (x ∷ xs) h (tail m) (head b) e =
      absurd (ground (arith, Mem-contains xs m, h.0, ap key b))
  keyed_row (x ∷ xs) h (tail m) (tail n) e = keyed_row xs h.1 m n e

  -- A key that two selections share is that of one row of both.
  pub contains-both :
      (p q : A → Bool) (xs : List A) (k : K)
      → IsKeyed xs
      → contains (map key (filter p xs)) k ≡ true
      → contains (map key (filter q xs)) k ≡ true
      → (r : A) × Memᴰ r xs × (p r ≡ true) × (q r ≡ true) × (key r ≡ k)
  contains-both p q [] k h m n = cc
  contains-both p q (x ∷ xs) k h m n = elim (Bool-cases (key x == k)) [
    | inl same ↦
        let once = subst (λ j. contains (map key xs) j ≡ false) ((==_iff (key x) k).0 same) h.0 in
        (
          x,
          head refl,
          ground (arith, contains-filter p xs k),
          ground (arith, contains-filter q xs k),
          (==_iff (key x) k).0 same,
        )
    | inr other ↦
        let (r, at, y, z, w) = contains-both p q xs k h.1 (ground arith) (ground arith) in
        (r, tail at, y, z, w)
  ]

  kept_of_other :
      (x : A) (ks : List K) (p : A → Bool) (xs : List A)
      → contains (map key xs) (key x) ≡ false
      → filter (λ y. not (contains (key x ∷ ks) (key y))) xs
        ≡ filter (λ y. not (contains ks (key y))) xs
  kept_of_other x ks p [] h = refl
  kept_of_other x ks p (y ∷ xs) h =
      ground (arith, kept_of_other x ks p xs, ==_iff (key x) (key y), ==_iff (key y) (key x))

  -- Deleting by their keys the rows that pass a test leaves the rows that do not.
  pub filter-keys :
      (p : A → Bool) (xs : List A)
      → IsKeyed xs
      → filter (λ x. not (contains (map key (filter p xs)) (key x))) xs ≡ filter (λ x. not (p x)) xs
  filter-keys p [] h = refl
  filter-keys p (x ∷ xs) h = elim (Bool-cases (p x)) [
    | inl pass ↦ ground (
      arith,
      filter-keys p xs,
      kept_of_other x (map key (filter p xs)) p xs,
      ==_iff (key x) (key x),
    )
    | inr fail ↦ ground (arith, filter-keys p xs, contains-filter p xs (key x))
  ]

-- A row that a filter keeps is in the table, and passes its test.
pub filter-Mem :
    {A : Type 0} {r : A} (p : A → Bool) (xs : List A)
    → Memᴰ r (filter p xs)
    → Memᴰ r xs × (p r ≡ true)
filter-Mem p [] m = elim m [ ]
filter-Mem {r = r} p (x ∷ xs) m = pick (filter-Mem p xs) (p x) refl m
  where
    pick :
        (Memᴰ r (filter p xs) → Memᴰ r xs × (p r ≡ true))
        → (b : Bool) → p x ≡ b
        → Memᴰ r (if b then x ∷ filter p xs else filter p xs)
        → Memᴰ r (x ∷ xs) × (p r ≡ true)
    pick more true e (head q) = (head q, subst (λ y. p y ≡ true) (sym q) e)
    pick more true e (tail n) = let (at, h) = more n in (tail at, h)
    pick more false e n = let (at, h) = more n in (tail at, h)
