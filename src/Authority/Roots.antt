-- ===== src/Authority/Roots.antt =====
-- `record_root` and `record_origin_root`: they keep the invariant, and never touch an old stamp.
use thread_keeper.Common.{
  Bool-cases, ◌==◌, ==_iff, nat_eq, pair_eq, Text, text_eq, ℕ, ◌≡◌, inl, inr, true, false, some,
  arith,
}
use thread_keeper.Authority.Invariant.{IsGrounded, min_level-insert_root}
use thread_keeper.Authority.Store.{
  Root, Store, Artifact, roots_of, is_stamped, Class, insert_root, artifact, insert_stamp, observed,
}
use thread_keeper.Authority.Stamp.{stamp_root, record_root, new_root, new_stamp, child_principal}
use thread_keeper.Access.Policy.{Caller, is_delegated, effective_origin}

-- What a write leaves alone: every artifact that was stamped keeps its stamp and its roots.
pub record Preserves (s s' : Store) : Type 0 where
  pub at :
      (a : Artifact)
      → is_stamped s a ≡ true
      → (artifact s' a ≡ artifact s a) × (roots_of s' a ≡ roots_of s a)

pub roots_of-insert_root :
    (r : Root) (s : Store) (a : Artifact)
    → (r.artifact == a) ≡ false
    → roots_of (insert_root r s) a ≡ roots_of s a
roots_of-insert_root r s a h = ground arith

stamp_root-IsGrounded :
    (now : ℕ) (a : Artifact) (class : Class) (principal channel : Text) (s : Store)
    → IsGrounded s
    → IsGrounded (stamp_root now a class principal channel s).1
unfolding stamp_root
stamp_root-IsGrounded now a class principal channel s h = record {
  at = λ b. ground (
    arith,
    h.at a,
    h.at b,
    ==_iff a b,
    min_level-insert_root (new_root now a class principal channel)
        (insert_stamp (new_stamp now a class principal channel) s) b,
  );
}

stamp_root-Preserves :
    (now : ℕ) (a : Artifact) (class : Class) (principal channel : Text) (s : Store)
    → Preserves s (stamp_root now a class principal channel s).1
unfolding stamp_root
stamp_root-Preserves now a class principal channel s = record {
  at = λ b m. elim (Bool-cases (a == b)) [
    | inl e ↦ (ground (arith, (==_iff a b).0 e), ground (arith, (==_iff a b).0 e))
    | inr ne ↦ (
      ground arith,
      ground (
        arith,
        roots_of-insert_root (new_root now a class principal channel)
            (insert_stamp (new_stamp now a class principal channel) s) b,
      ),
    )
  ];
}

module _ (c : Caller) (now : ℕ) (a : Artifact) (class : Class) (principal channel : Text)
    (s : Store) where
  pub record_root-IsGrounded :
      IsGrounded s → IsGrounded (record_root c now a class principal channel s).1
  unfolding record_root
  record_root-IsGrounded h = grind (arith, stamp_root-IsGrounded)

  pub record_root-Preserves : Preserves s (record_root c now a class principal channel s).1
  unfolding record_root
  record_root-Preserves = grind (arith, stamp_root-Preserves)

-- A delegated process stamps what it writes as observed, whatever class it asks for.
pub record_root_delegated :
    (c : Caller) (now : ℕ) (a : Artifact) (class : Class) (principal channel : Text) (s : Store)
    → is_delegated c ≡ true
    → is_stamped s a ≡ false
    → (record_root c now a class principal channel s).0 ≡ true
    → artifact (record_root c now a class principal channel s).1 a
      ≡ some (new_stamp now a observed (child_principal c) (effective_origin c channel))
unfolding record_root stamp_root
record_root_delegated c now a class principal channel s d fresh e = ground (arith, ==_iff a a)
