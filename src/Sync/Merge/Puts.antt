-- ===== src/Sync/Merge/Puts.antt =====
-- Merging a row: what `INSERT OR REPLACE` and the kept vector marker do to a key's version.
use thread_keeper.Common.{
  Bool-cases, ◌==◌, ==_iff, ==_refl, nat_eq, pair_eq, and_true, and_false_right, not_or, filter,
  all, lookup, assign, lookup-assign, Text, codes, text_beq_iff, text_eq, ℕ, ◌≡◌, refl, sym, ap,
  ◌∙◌, subst, inl, inr, Bool, true, false, not, ◌&&◌, ◌||◌, Option, none, some, List, [], ◌∷◌, ◌++◌,
  arith,
}
use thread_keeper.Sync.Table.{Value, Row, get, Db, key_of, unique_cols}
use thread_keeper.Sync.Capture.{key_cols, key_matches, conflicts, insert_or_replace}
use thread_keeper.Sync.Merge.{hlc_of, local_hlc, restore}
use thread_keeper.Sync.Merge.Keys.{key_matches_vals, key_matches_same, key_cols-plain, is_plain}
use thread_keeper.Sync.Merge.Rows.{
  find-filter-keeps, find-filter-drops, find-append-other, find-append-new, find-change,
}

pub insert-rows :
    (now : ℕ) (u : Text) (row : Row) (db : Db)
    → db.applying ≡ true
    → insert_or_replace now u row db
      ≡ (record db { rows = filter (λ p. not (conflicts u row p)) db.rows ++ ((u, row) ∷ []) })
unfolding insert_or_replace
insert-rows now u row db g = rw g refl

-- A row that a key selects is replaced by a row with that key.
conflicts-own :
    (t : Text) (vals : List Value) (row r : Row)
    → key_matches (key_cols (key_of t)) vals row ≡ true
    → key_matches (key_cols (key_of t)) vals r ≡ true
    → conflicts t row (t, r) ≡ true
unfolding conflicts
conflicts-own t vals row r h k =
    rw (key_matches_vals (key_cols (key_of t)) vals row h, k) (ground (arith, text_beq_iff t t))

no_conflict : (k a b : Bool) → (k ≡ true → a ≡ b) → a ≡ true → b ≡ false → (k || false) ≡ false
no_conflict k a b f g h = ground arith

-- A row that a key selects is not replaced by a row with another key.
conflicts-other :
    (t u : Text) (vals : List Value) (row r : Row)
    → lookup t unique_cols ≡ none
    → (u == t && key_matches (key_cols (key_of t)) vals row) ≡ false
    → key_matches (key_cols (key_of t)) vals r ≡ true
    → conflicts u row (t, r) ≡ false
unfolding conflicts
conflicts-other t u vals row r l n k = elim (Bool-cases (t == u)) [
  | inl e ↦ same ((==_iff t u).0 e)
  | inr e ↦ rw e refl
]
  where
    same : t ≡ u → conflicts u row (t, r) ≡ false
    same e =
        subst (λ v. conflicts v row (t, r) ≡ false) e
          (rw (l, ==_refl t)
            (no_conflict _ (key_matches (key_cols (key_of t)) vals r)
              (key_matches (key_cols (key_of t)) vals row)
              (key_matches_same (key_cols (key_of t)) vals row r) k
              (and_false_right (u == t) (key_matches (key_cols (key_of t)) vals row) n
                ((==_iff u t).1 (sym e)))))

pub insert-own :
    (now : ℕ) (t h : Text) (vals : List Value) (row : Row) (db : Db)
    → db.applying ≡ true
    → key_matches (key_cols (key_of t)) vals row ≡ true
    → get (codes "hlc") row ≡ some h
    → local_hlc t vals (insert_or_replace now t row db).rows ≡ some h
insert-own now t h vals row db g m e = rw (insert-rows now t row db g) (
    ap hlc_of (
      find-append-new t (key_matches (key_cols (key_of t)) vals) row
        (filter (λ p. not (conflicts t row p)) db.rows) m
        (find-filter-drops t (key_matches (key_cols (key_of t)) vals) (λ p. not (conflicts t row p))
          db.rows (λ r k. ap not (conflicts-own t vals row r m k))))
    ∙ e)

pub insert-other :
    (now : ℕ) (t u : Text) (vals : List Value) (row : Row) (db : Db)
    → lookup t unique_cols ≡ none
    → db.applying ≡ true
    → (u == t && key_matches (key_cols (key_of t)) vals row) ≡ false
    → local_hlc t vals (insert_or_replace now u row db).rows ≡ local_hlc t vals db.rows
insert-other now t u vals row db l g n = rw (insert-rows now u row db g) (
    ap hlc_of (
      find-append-other t u (key_matches (key_cols (key_of t)) vals) row
        (filter (λ p. not (conflicts u row p)) db.rows) n
      ∙ find-filter-keeps t (key_matches (key_cols (key_of t)) vals) (λ p. not (conflicts u row p))
          db.rows (λ r k. ap not (conflicts-other t u vals row r l n k))))

-- The vector marker is no key column, and not the clock text.
marked : Value → Value → Row → Row
marked embedding backend r =
    assign (codes "embed_backend") backend (assign (codes "embedding") embedding r)

get-marked : (c : Text) (e b : Value) (r : Row) → is_plain c ≡ true → get c (marked e b r) ≡ get c r
unfolding marked
get-marked c e b r h =
    rw
      (
        lookup-assign (codes "embed_backend") c b (assign (codes "embedding") e r),
        lookup-assign (codes "embedding") c e r,
        (not_or (codes "embedding" == c) (codes "embed_backend" == c) h).0,
        (not_or (codes "embedding" == c) (codes "embed_backend" == c) h).1,
      )
      refl

key_matches-marked :
    (cols : List Text) (vals : List Value) (e b : Value) (r : Row)
    → all is_plain cols ≡ true
    → key_matches cols vals (marked e b r) ≡ key_matches cols vals r
key_matches-marked [] [] e b r h = refl
key_matches-marked [] (v ∷ vs) e b r h = refl
key_matches-marked (c ∷ cs) [] e b r h = refl
key_matches-marked (c ∷ cs) (v ∷ vs) e b r h =
    rw
      (
        get-marked c e b r (and_true (is_plain c) (all is_plain cs) h).0,
        key_matches-marked cs vs e b r (and_true (is_plain c) (all is_plain cs) h).1,
      )
      refl

pub restore-hlc :
    (t u : Text) (vals key : List Value) (o : Option (Value × Value)) (db : Db)
    → local_hlc t vals (restore u key o db).rows ≡ local_hlc t vals db.rows
unfolding restore marked
restore-hlc t u vals key none db = refl
restore-hlc t u vals key (some (e, b)) db =
    find-change t u (key_matches (key_cols (key_of t)) vals) (key_matches (key_cols (key_of u)) key)
      (marked e b) db.rows
      (λ r. key_matches-marked (key_cols (key_of t)) vals e b r (key_cols-plain t))
      (λ r. get-marked (codes "hlc") e b r refl)
