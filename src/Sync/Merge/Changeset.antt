-- ===== src/Sync/Merge/Changeset.antt =====
-- Whole changesets: what a merge makes of the version of a key, in whatever order changes come.
use thread_keeper.Common.{
  All, Text, text_max, text_max_assoc, text_max_idem, ℕ, ◌≡◌, refl, ap, ◌∙◌, true, List, [], ◌∷◌,
  foldl, arith,
}
use thread_keeper.Sync.Table.{Value, Db}
use thread_keeper.Sync.Protocol.{Change}
use thread_keeper.Sync.Capture.{with_guard}
use thread_keeper.Sync.Merge.{Merge, start, apply_change, merge_all, absorb_max, apply_changes}
use thread_keeper.Sync.Merge.Version.{version, KeyOf, Stamped, brings}
use thread_keeper.Sync.Merge.Join.{apply_change-version, apply_change-applying}

-- The highest text that a changeset brings to a key.
unfoldable pub brought : Text → List Value → List Change → Text
brought t vals [] = []
brought t vals (c ∷ cs) = text_max (brings t vals c) (brought t vals cs)

fold-version :
    (now : ℕ) (t : Text) (vals : List Value) (cs : List Change) (m : Merge)
    → KeyOf t vals
    → m.db.applying ≡ true
    → All Stamped cs
    → version t vals (foldl (apply_change now) m cs).db
      ≡ text_max (version t vals m.db) (brought t vals cs)
unfolding brought
fold-version now t vals [] m k g s = refl
fold-version now t vals (c ∷ cs) m k g s =
    fold-version now t vals cs (apply_change now m c) k (apply_change-applying now m c g) s.1
    ∙ ap (λ x. text_max x (brought t vals cs)) (apply_change-version now t vals m c k g s.0)
    ∙ text_max_assoc (version t vals m.db) (brings t vals c) (brought t vals cs)

absorb_max-version :
    (now : ℕ) (t : Text) (vals : List Value) (m : Merge)
    → version t vals (absorb_max now m) ≡ version t vals m.db
unfolding absorb_max version
absorb_max-version now t vals m = ground arith

with_guard-version :
    (f : Db → Db) (t : Text) (vals : List Value) (db : Db)
    → version t vals (with_guard f db) ≡ version t vals (f (record db { applying = true }))
unfolding with_guard version
with_guard-version f t vals db = ground arith

-- Merging a changeset joins the clock texts of its changes to the version of each key: the highest
-- clock text of the key's row and tombstones. The key is one of a replicated table without a
-- further UNIQUE column, and each row carries its change's text.
pub apply_changes-version :
    (now : ℕ) (t : Text) (vals : List Value) (cs : List Change) (db : Db)
    → KeyOf t vals
    → All Stamped cs
    → version t vals (apply_changes now cs db) ≡ text_max (version t vals db) (brought t vals cs)
unfolding apply_changes merge_all version
apply_changes-version now t vals cs db k s =
    with_guard-version (λ d. absorb_max now (merge_all now cs d)) t vals db
    ∙ absorb_max-version now t vals (merge_all now cs (record db { applying = true }))
    ∙ fold-version now t vals cs (start (record db { applying = true })) k refl s

-- Merging a changeset a second time changes no version.
pub apply_changes-again :
    (now later : ℕ) (t : Text) (vals : List Value) (cs : List Change) (db : Db)
    → KeyOf t vals
    → All Stamped cs
    → version t vals (apply_changes later cs (apply_changes now cs db))
      ≡ version t vals (apply_changes now cs db)
apply_changes-again now later t vals cs db k s =
    rw
      (
        apply_changes-version later t vals cs (apply_changes now cs db) k s,
        apply_changes-version now t vals cs db k s,
      )
      (text_max_assoc (version t vals db) (brought t vals cs) (brought t vals cs)
        ∙ ap (text_max (version t vals db)) (text_max_idem (brought t vals cs)))
