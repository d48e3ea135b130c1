-- ===== src/Authority/Tests.antt =====
-- The theorems of the provenance store at a small store.
use thread_keeper.Common.{
  Text, codes, ℕ, ◌≡◌, refl, ◌↔◌, ◌⊎◌, true, false, Option, none, some, List, [], ◌∷◌,
}
use thread_keeper.Access.Policy.{Caller, unrestricted}
use thread_keeper.Authority.Store.{trusted, Artifact, Stamp, Root, Store, artifact, live, roots_of}
use thread_keeper.Authority.Stamp.{record_root, derive, stamp_root}
use thread_keeper.Authority.Gate.{authorize_action}
use thread_keeper.Authority.Invalidate.{invalidate_descendants}
use thread_keeper.Authority.Invalidate.Reach.{Reach}
use thread_keeper.Authority.Invalidate.Marks.{Forgets, invalidate_descendants-Forgets}
use thread_keeper.Authority.Invariant.{IsGrounded}
use thread_keeper.Authority.History.{
  empty, Run, start, next, rooted, derived, origin_of, Run-IsGrounded, origin_of-Run,
}
use thread_keeper.Authority.Decisions.{class_of, Corroborated, authorize_action_iff}

abbrev user : Caller
user = record { policy = unrestricted; review_origin = [] }

abbrev note_1 : Artifact
note_1 = (codes "note", codes "1")

abbrev lesson_a : Artifact
lesson_a = (codes "lesson", codes "a")

abbrev stamp_at : Artifact → Option ℕ → Option Text → Stamp
stamp_at a invalidated_at reason = record {
  artifact = a;
  authority_class = trusted;
  source_principal = codes "alice";
  source_channel = codes "chat";
  created_at = 10;
  invalidated_at = invalidated_at;
  invalidation_reason = reason;
}

abbrev root_of : Artifact → Root
root_of a = record {
  artifact = a;
  principal = codes "alice";
  channel = codes "chat";
  authority_class = trusted;
  created_at = 10;
}

abbrev with_stamps : List Stamp → Store
with_stamps stamps = record {
  stamps = stamps;
  roots = root_of note_1 ∷ root_of lesson_a ∷ [];
  derivations = record { parent = note_1; child = lesson_a; created_at = 11 } ∷ [];
}

abbrev base : Store
base = with_stamps (stamp_at note_1 none none ∷ stamp_at lesson_a none none ∷ [])

abbrev forgotten : Store
forgotten = with_stamps (
    stamp_at note_1 (some 20) (some (codes "gone"))
    ∷ stamp_at lesson_a (some 20) (some (codes "gone"))
    ∷ [])

invalidate_descendants-Forgets_example :
    (n : ℕ) × (s' : Store) × (invalidate_descendants 20 (codes "gone") (note_1 ∷ []) [] base
      ≡ some (n, s'))
    × Forgets 20 (codes "gone") (note_1 ∷ []) [] base s' n
invalidate_descendants-Forgets_example =
    invalidate_descendants-Forgets 20 (codes "gone") (note_1 ∷ []) [] base

authorize_action_iff_example : ((authorize_action base lesson_a false).allowed ≡ true) ↔ (
    (live (artifact base lesson_a) ≡ true)
    × ((class_of (artifact base lesson_a) ≡ some trusted) ⊎ Corroborated (roots_of base lesson_a)))
authorize_action_iff_example = authorize_action_iff base lesson_a

-- A trusted note, and a lesson derived from it, from the empty store on.
abbrev noted : Store
noted = (record_root user 10 note_1 trusted (codes "alice") (codes "chat") empty).1

abbrev learned : Store
learned = (derive user 11 lesson_a (note_1 ∷ []) noted).1

noted_run : Run empty noted
noted_run = next start (rooted user 10 note_1 trusted (codes "alice") (codes "chat"))

Run-IsGrounded_example : IsGrounded learned
Run-IsGrounded_example =
    Run-IsGrounded {t = learned} (next noted_run (derived user 11 lesson_a (note_1 ∷ [])))

noted_origin : origin_of (artifact noted note_1) ≡ some (trusted, codes "alice", codes "chat")
unfolding record_root stamp_root
noted_origin = refl

origin_of-Run_example :
    origin_of (artifact learned note_1) ≡ some (trusted, codes "alice", codes "chat")
origin_of-Run_example =
    origin_of-Run {s = noted} {t = learned} note_1 (trusted, codes "alice", codes "chat")
      (next start (derived user 11 lesson_a (note_1 ∷ []))) noted_origin
