-- ===== src/Memory/Sorting.antt =====
-- The order in which idle servers are retired.
use thread_keeper.Common.{
  nat_beq_iff, Bool-cases, length, filter, All, ℕ, ◌≡◌, refl, ◌∙◌, inl, inr, Bool, true, false,
  Option, none, some, List, [], ◌∷◌, ◌++◌, arith,
}
use thread_keeper.Memory.Guard.{Process, key, key_ltb, insert_by_key, sorted}

-- No process stands before one with a smaller key.
abbrev pub Sorted : List Process → Type 0
Sorted [] = Unit
Sorted (p ∷ ps) = All (λ q. key_ltb (key q) (key p) ≡ false) ps × Sorted ps

key_geb_trans :
    (k l m : Option ℕ × ℕ) → key_ltb l k ≡ false → key_ltb m l ≡ false → key_ltb m k ≡ false
unfolding key_ltb
key_geb_trans (none, a) (none, b) (none, c) h k = ground arith
key_geb_trans (none, a) (none, b) (some o, c) h k = ground arith
key_geb_trans (none, a) (some n, b) (none, c) h k = ground (arith, k)
key_geb_trans (none, a) (some n, b) (some o, c) h k = ground arith
key_geb_trans (some m, a) (none, b) (none, c) h k = ground (arith, h)
key_geb_trans (some m, a) (none, b) (some o, c) h k = ground (arith, h)
key_geb_trans (some m, a) (some n, b) (none, c) h k = ground (arith, k)
key_geb_trans (some m, a) (some n, b) (some o, c) h k =
    ground (arith, nat_beq_iff n m, nat_beq_iff o n, nat_beq_iff o m)

key_ltb_asym : (k l : Option ℕ × ℕ) → key_ltb k l ≡ true → key_ltb l k ≡ false
unfolding key_ltb
key_ltb_asym (none, a) (none, b) h = ground arith
key_ltb_asym (none, a) (some n, b) h = ground arith
key_ltb_asym (some m, a) (none, b) h = ground arith
key_ltb_asym (some m, a) (some n, b) h = ground (arith, nat_beq_iff n m, nat_beq_iff m n)

All-map :
    {P Q : Process → Type 0}
    → ((q : Process) → P q → Q q)
    → (ps : List Process) → All P ps
    → All Q ps
All-map f [] h = h
All-map f (p ∷ ps) (a, b) = (f p a, All-map f ps b)

insert-All :
    (P : Process → Type 0) (p : Process) (ps : List Process)
    → P p
    → All P ps
    → All P (insert_by_key p ps)
unfolding insert_by_key
insert-All P p [] h a = (h, a)
insert-All P p (q ∷ qs) h (a, b) = elim (Bool-cases (key_ltb (key q) (key p))) [
  | inl e ↦ rw e (a, insert-All P p qs h b)
  | inr e ↦ rw e (h, (a, b))
]

insert-Sorted : (p : Process) (ps : List Process) → Sorted ps → Sorted (insert_by_key p ps)
unfolding insert_by_key
insert-Sorted p [] h = (tt, tt)
insert-Sorted p (q ∷ qs) (a, b) = elim (Bool-cases (key_ltb (key q) (key p))) [
  | inl e ↦ rw e (insert-All _ p qs (key_ltb_asym (key q) (key p) e) a, insert-Sorted p qs b)
  | inr e ↦ rw e ((e, All-map (λ r k. key_geb_trans (key p) (key q) (key r) e k) qs a), (a, b))
]

pub sorted-Sorted : (ps : List Process) → Sorted (sorted ps)
unfolding sorted
sorted-Sorted [] = tt
sorted-Sorted (p ∷ ps) = insert-Sorted p (sorted ps) (sorted-Sorted ps)

pub sorted-All : (P : Process → Type 0) (ps : List Process) → All P ps → All P (sorted ps)
unfolding sorted
sorted-All P [] h = h
sorted-All P (p ∷ ps) (a, b) = insert-All P p (sorted ps) a (sorted-All P ps b)

insert-filter :
    (f : Process → Bool) (p : Process) (ps : List Process)
    → length (filter f (insert_by_key p ps)) ≡ length (filter f (p ∷ ps))
unfolding insert_by_key
insert-filter f p [] = refl
insert-filter f p (q ∷ qs) = ground (arith, insert-filter f p qs)

sorted-filter :
    (f : Process → Bool) (ps : List Process) → length (filter f (sorted ps)) ≡ length (filter f ps)
unfolding sorted
sorted-filter f [] = refl
sorted-filter f (p ∷ ps) = insert-filter f p (sorted ps) ∙ ground (arith, sorted-filter f ps)

-- The sorted list has no process before one with a smaller key, and of each kind as many processes
-- as the list has.
pub sorted_lem :
    (ps : List Process)
    → Sorted (sorted ps)
      × ((f : Process → Bool) → length (filter f (sorted ps)) ≡ length (filter f ps))
sorted_lem ps = (sorted-Sorted ps, λ f. sorted-filter f ps)

pub All-prefix :
    (P : Process → Type 0) (ps qs : List Process) → All P (ps ++ qs) → All P ps × All P qs
All-prefix P [] qs h = (tt, h)
All-prefix P (p ∷ ps) qs (a, b) = let r = All-prefix P ps qs b in ((a, r.0), r.1)

-- A cut of a sorted list: nothing after the cut has a smaller key than something before it.
pub Sorted-cut :
    (ps qs : List Process)
    → Sorted (ps ++ qs)
    → All (λ p. All (λ q. key_ltb (key q) (key p) ≡ false) qs) ps
Sorted-cut [] qs h = tt
Sorted-cut (p ∷ ps) qs (a, b) = ((All-prefix _ ps qs a).1, Sorted-cut ps qs b)
