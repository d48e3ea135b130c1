-- ===== src/Authority/Invalidate/Reach.antt =====
-- What `walk` collects: the artifacts that a chain of derivations reaches from the roots, none of
-- the chain preserved.
use thread_keeper.Common.{
  Bool-cases, ◌==◌, ==_iff, nat_eq, pair_eq, contains, text_eq, ℕ, zero, suc, ◌≡◌, refl, subst, ◌↔◌,
  inl, inr, true, false, ◌||◌, some, List, [], ◌∷◌, arith,
}
use mathlib.Core.Logic.{∥∥₁_elim}
use mathlib.Core.Bool.{Bool-set}
use thread_keeper.Authority.Store.{Artifact, Derivation}
use thread_keeper.Authority.Invalidate.{children, push, walk}

-- `a` is derived from one of `roots` through artifacts that are not preserved.
pub data Reach (ds : List Derivation) (preserved roots : List Artifact) : Artifact → Type 0 where
  root :
      {a : Artifact}
      → contains roots a ≡ true
      → contains preserved a ≡ false
      → Reach ds preserved roots a
  step :
      {a b : Artifact}
      → Reach ds preserved roots a
      → contains (children ds a) b ≡ true
      → contains preserved b ≡ false
      → Reach ds preserved roots b

pub contains-push :
    (cs pending : List Artifact) (a : Artifact)
    → contains (push cs pending) a ≡ (contains cs a || contains pending a)
unfolding push
contains-push [] pending a = refl
contains-push (c ∷ cs) pending a = ground (arith, contains-push cs (c ∷ pending) a)

module _ (ds : List Derivation) (preserved roots : List Artifact) where
  record Inv (pending seen : List Artifact) : Type 0 where
    sound_seen : (a : Artifact) → contains seen a ≡ true → Reach ds preserved roots a
    sound_pending :
        (a : Artifact)
        → contains pending a ≡ true
        → contains preserved a ≡ false
        → Reach ds preserved roots a
    covers :
        (a : Artifact)
        → contains roots a ≡ true
        → (contains seen a || contains pending a || contains preserved a) ≡ true
    closed :
        (a b : Artifact)
        → contains seen a ≡ true
        → contains (children ds a) b ≡ true
        → (contains seen b || contains pending b || contains preserved b) ≡ true

  Inv-skip :
      (a : Artifact) (rest seen : List Artifact)
      → (contains seen a || contains preserved a) ≡ true
      → Inv (a ∷ rest) seen
      → Inv rest seen
  Inv-skip a rest seen skip h = record {
    sound_seen = h.sound_seen;
    sound_pending = λ b m p. ground (arith, h.sound_pending b, ==_iff a b);
    covers = λ b m. ground (arith, h.covers b m, ==_iff a b);
    closed = λ b c m k. ground (arith, h.closed b c m k, ==_iff a c);
  }

  module _ (a : Artifact) (rest seen : List Artifact)
      (fresh : (contains seen a || contains preserved a) ≡ false) (h : Inv (a ∷ rest) seen) where
    visited : Reach ds preserved roots a
    visited = h.sound_pending a (ground (arith, ==_iff a a)) (ground arith)

    visited_eq : (b : Artifact) → (a == b) ≡ true → Reach ds preserved roots b
    visited_eq b e = subst (Reach ds preserved roots) ((==_iff a b).0 e) visited

    seen_sound : (b : Artifact) → contains (a ∷ seen) b ≡ true → Reach ds preserved roots b
    seen_sound b m = elim (Bool-cases (a == b)) [
      | inl e ↦ visited_eq b e
      | inr ne ↦ h.sound_seen b (ground arith)
    ]

    pending_sound :
        (b : Artifact)
        → contains (push (children ds a) rest) b ≡ true
        → contains preserved b ≡ false
        → Reach ds preserved roots b
    pending_sound b m p = elim (Bool-cases (contains (children ds a) b)) [
      | inl k ↦ step visited k p
      | inr other ↦ h.sound_pending b (ground (arith, contains-push (children ds a) rest b)) p
    ]

    closed_visit :
        (x b : Artifact)
        → contains (a ∷ seen) x ≡ true
        → contains (children ds x) b ≡ true
        → (contains (a ∷ seen) b || contains (push (children ds a) rest) b || contains preserved b)
          ≡ true
    closed_visit x b m k = elim (Bool-cases (a == x)) [
      | inl e ↦ ground (arith, (==_iff a x).0 e, contains-push (children ds a) rest b)
      | inr ne ↦ ground (arith, h.closed x b, ==_iff a b, contains-push (children ds a) rest b)
    ]

    Inv-visit : Inv (push (children ds a) rest) (a ∷ seen)
    Inv-visit = record {
      sound_seen = seen_sound;
      sound_pending = pending_sound;
      covers =
          λ b m. ground (arith, h.covers b m, ==_iff a b, contains-push (children ds a) rest b);
      closed = closed_visit;
    }

  walk-Inv :
      (fuel : ℕ) (pending seen out : List Artifact)
      → walk fuel ds preserved pending seen ≡ some out
      → Inv pending seen
      → Inv [] out
  unfolding walk
  walk-Inv fuel [] seen out e h = subst (Inv []) (cc) h
  walk-Inv zero (a ∷ rest) seen out e h = cc
  walk-Inv (suc fuel) (a ∷ rest) seen out e h =
      elim (Bool-cases (contains seen a || contains preserved a)) [
        | inl skip ↦
            walk-Inv fuel rest seen out (rw (skip, walk) at e) (Inv-skip a rest seen skip h)
        | inr fresh ↦
            walk-Inv fuel (push (children ds a) rest) (a ∷ seen) out (rw (fresh, walk) at e)
              (Inv-visit a rest seen fresh h)
      ]

  complete :
      (out : List Artifact)
      → Inv [] out
      → {a : Artifact} → Reach ds preserved roots a
      → contains out a ≡ true
  complete out h (root {a} m p) = ground (arith, h.covers a m)
  complete out h (step {a} {b} r k p) = ground (arith, h.closed a b (complete out h r) k)

  -- The set that the loop returns is the set that the derivations reach.
  pub walk_collects :
      (fuel : ℕ) (pending out : List Artifact)
      → ((a : Artifact) → contains pending a ≡ contains roots a)
      → walk fuel ds preserved pending [] ≡ some out
      → (a : Artifact) → (contains out a ≡ true) ↔ ∥ Reach ds preserved roots a ∥₁
  walk_collects fuel pending out same e a =
      (λ m. ∣ inv.sound_seen a m ∣₁, λ r. ∥∥₁_elim r (Bool-set _ _) (complete out inv))
    where
      inv : Inv [] out
      inv = walk-Inv fuel pending [] out e (record {
        sound_seen = λ b m. absurd (cc m);
        sound_pending = λ b m p. root (ground (arith, same b)) p;
        covers = λ b m. ground (arith, same b);
        closed = λ b c m k. absurd (cc m);
      })
