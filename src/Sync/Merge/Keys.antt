-- ===== src/Sync/Merge/Keys.antt =====
-- Keys of rows: when two keys select the same row, and keys against gids.
use thread_keeper.Common.{
  ◌==◌, ==_iff, nat_eq, pair_eq, all, lookup, Text, codes, text_eq, ℕ, ◌≡◌, refl, sym, ap, ◌∙◌,
  Bool, true, not, ◌&&◌, ◌||◌, Option, none, some, List, [], ◌∷◌, ◌++◌, arith,
}
use thread_keeper.Sync.Clock.{split_colon, split_step}
use thread_keeper.Sync.Table.{
  Value, Row, get, Key, single, composite, unknown, key_of, single_keys, composite_keys, key_or,
  single_key,
}
use thread_keeper.Sync.Capture.{value_matches, key_cols, key_matches, key_vals, join_key}
use thread_keeper.Sync.Merge.{split_gid, split_pair}

value_matches_eq : (v w : Value) → value_matches v w ≡ true → v ≡ w
value_matches_eq none w h = cc
value_matches_eq (some a) none h = cc
value_matches_eq (some a) (some b) h = ap some ((==_iff a b).0 h)

-- A row that is selected by a key has the values of the key.
pub key_matches_vals :
    (cols : List Text) (vals : List Value) (r : Row)
    → key_matches cols vals r ≡ true
    → key_vals cols r ≡ vals
key_matches_vals [] [] r h = refl
key_matches_vals [] (v ∷ vs) r h = cc
key_matches_vals (c ∷ cs) [] r h = cc
key_matches_vals (c ∷ cs) (v ∷ vs) r h =
    ground (arith, value_matches_eq (get c r) v, key_matches_vals cs vs r)

key_matches_ap :
    (cols : List Text) (vals : List Value) (r row : Row)
    → key_vals cols r ≡ key_vals cols row
    → key_matches cols vals r ≡ key_matches cols vals row
key_matches_ap [] [] r row h = refl
key_matches_ap [] (v ∷ vs) r row h = refl
key_matches_ap (c ∷ cs) [] r row h = refl
key_matches_ap (c ∷ cs) (v ∷ vs) r row h = ground (arith, key_matches_ap cs vs r row)

-- A row that the key of another row selects is selected by what selects that row.
pub key_matches_same :
    (cols : List Text) (vals : List Value) (row r : Row)
    → key_matches cols (key_vals cols row) r ≡ true
    → key_matches cols vals r ≡ key_matches cols vals row
key_matches_same cols vals row r h =
    key_matches_ap cols vals r row (key_matches_vals cols (key_vals cols row) r h)

join-split_step :
    (c : ℕ) (s a b : Text) (o : Option (Text × Text))
    → ((a' b' : Text) → o ≡ some (a', b') → a' ++ (b':' ∷ b') ≡ s)
    → split_step c s o ≡ some (a, b)
    → a ++ (b':' ∷ b) ≡ c ∷ s
join-split_step c s a b none f h = ground arith
join-split_step c s a b (some (x, y)) f h = ground (arith, f x y refl)

join-split_colon : (gid a b : Text) → split_colon gid ≡ some (a, b) → a ++ (b':' ∷ b) ≡ gid
unfolding split_colon
join-split_colon [] a b h = cc
join-split_colon (c ∷ s) a b h = join-split_step c s a b (split_colon s) (join-split_colon s) h

join-split_pair :
    (c d gid : Text) (r : Row) (o : Option (Text × Text))
    → split_colon gid ≡ o
    → key_matches (c ∷ d ∷ []) (split_pair gid o) r ≡ true
    → join_key (split_pair gid o) ≡ gid
join-split_pair c d gid r none e h = ground arith
join-split_pair c d gid r (some (a, b)) e h = join-split_colon gid a b e

join-split_gid :
    (k : Key) (gid : Text) (r : Row)
    → key_matches (key_cols k) (split_gid k gid) r ≡ true
    → join_key (split_gid k gid) ≡ gid
unfolding split_gid
join-split_gid (single c) gid r h = refl
join-split_gid unknown gid r h = refl
join-split_gid (composite c d) gid r h = join-split_pair c d gid r (split_colon gid) refl h

-- A deleted gid whose key selects a row of another key is another gid.
pub split_gid-other :
    (t gid : Text) (vals : List Value) (r : Row)
    → key_matches (key_cols (key_of t)) (split_gid (key_of t) gid) r ≡ true
    → key_matches (key_cols (key_of t)) vals r ≡ true
    → join_key vals ≡ gid
split_gid-other t gid vals r h k =
    ap join_key (
      sym (key_matches_vals (key_cols (key_of t)) vals r k)
      ∙ key_matches_vals (key_cols (key_of t)) (split_gid (key_of t) gid) r h)
    ∙ join-split_gid (key_of t) gid r h

-- No key column is one of the two that `apply_changes` restores.
abbrev pub is_plain : Text → Bool
is_plain c = not (codes "embedding" == c || codes "embed_backend" == c)

lookup-all :
    {A : Type 0} (p : A → Bool) (k : Text) (d : List (Text × A)) (a : A)
    → all (λ (x : Text × A). p x.1) d ≡ true
    → lookup k d ≡ some a
    → p a ≡ true
lookup-all p k [] a h e = absurd (cc e)
lookup-all p k ((j, b) ∷ d) a h e = ground (arith, lookup-all p k d a)

key_or-plain :
    (s : Option Text) (c : Option (Text × Text))
    → ((a : Text) → s ≡ some a → is_plain a ≡ true)
    → ((p : Text × Text) → c ≡ some p → (is_plain p.0 && is_plain p.1) ≡ true)
    → all is_plain (key_cols (key_or (single_key s) c)) ≡ true
key_or-plain none none f g = refl
key_or-plain (some a) none f g = ground (arith, f a refl)
key_or-plain s (some (a, b)) f g = ground (arith, g (a, b) refl)

pub key_cols-plain : (t : Text) → all is_plain (key_cols (key_of t)) ≡ true
unfolding key_of
key_cols-plain t =
    key_or-plain (lookup t single_keys) (lookup t composite_keys)
      (λ a. lookup-all is_plain t single_keys a refl)
      (λ p. lookup-all (λ q. is_plain q.0 && is_plain q.1) t composite_keys p refl)
