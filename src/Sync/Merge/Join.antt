-- ===== src/Sync/Merge/Join.antt =====
-- A merge as a join: the version of a key after a changeset, whatever the changes and their order.
use thread_keeper.Common.{
  if◌then◌else◌, Bool-cases, ◌==◌, ==_iff, nat_eq, pair_eq, and_true, default, lookup, Text, codes,
  text_eq, is_empty, text_ltb, text_ltb_trans, text_ltb_total, text_max, text_max_assoc,
  text_max_comm, text_max_nil, ℕ, ◌≡◌, refl, sym, ap, ◌∙◌, inl, inr, true, false, not, ◌&&◌, Option,
  none, some, List, [], arith,
}
use thread_keeper.Sync.Table.{Value, Row, get, Db, key_of, unique_cols}
use thread_keeper.Sync.Capture.{
  key_cols, key_matches, key_vals, join_key, insert_or_replace, delete_rows,
}
use thread_keeper.Sync.Merge.{
  Merge, local_hlc, last_tombstone, has_newer_tombstone, restore, apply_put, is_older, upsert,
  apply_del, apply_change, is_unknown, delete_older, apply_body,
}
use thread_keeper.Sync.Merge.Keys.{key_matches_vals}
use thread_keeper.Sync.Merge.Version.{
  version, KeyOf, BodyStamped, Stamped, body_about, brings, apply_del-version,
}
use thread_keeper.Sync.Merge.Puts.{insert-own, insert-other, insert-rows, restore-hlc}
use thread_keeper.Sync.Protocol.{Change, Body, put_row, del_gid}

restore-oplog :
    (u : Text) (key : List Value) (o : Option (Value × Value)) (db : Db)
    → (restore u key o db).oplog ≡ db.oplog
unfolding restore
restore-oplog u key none db = refl
restore-oplog u key (some p) db = refl

restore-applying :
    (u : Text) (key : List Value) (o : Option (Value × Value)) (db : Db)
    → (restore u key o db).applying ≡ db.applying
unfolding restore
restore-applying u key none db = refl
restore-applying u key (some p) db = refl

-- The algebra of the three outcomes of a put, for the texts of the row and of the tombstones.
newer_max : (l v h : Text) → text_ltb v h ≡ false → text_max (text_max l v) h ≡ text_max l v
newer_max l v h e = ground (arith, text_ltb_total v h, text_ltb_trans l h v)

not-older_max :
    (l : Value) (v h : Text)
    → is_older l h ≡ false
    → text_max (text_max (default [] l) v) h ≡ text_max (default [] l) v
not-older_max none v h e = absurd (cc e)
not-older_max (some l) v h e =
    ap (λ x. text_max x h) (text_max_comm l v) ∙ newer_max v l h e ∙ text_max_comm v l

put_max :
    (l : Value) (v h : Text)
    → is_older l h ≡ true
    → text_max h v ≡ text_max (text_max (default [] l) v) h
put_max none v h e = text_max_comm h v ∙ ap (λ x. text_max x h) (sym (text_max_nil v))
put_max (some l) v h e =
    text_max_comm h v
    ∙ ap (text_max v) (sym (ground (arith, e)))
    ∙ sym (text_max_assoc v l h)
    ∙ ap (λ x. text_max x h) (text_max_comm v l)

upsert-own :
    (now : ℕ) (t h : Text) (vals : List Value) (row : Row) (db : Db)
    → db.applying ≡ true
    → get (codes "hlc") row ≡ some h
    → key_matches (key_cols (key_of t)) vals row ≡ true
    → local_hlc t vals (upsert now t row db).rows ≡ some h
unfolding upsert
upsert-own now t h vals row db g e k =
    restore-hlc t t vals (key_vals (key_cols (key_of t)) row) _ (insert_or_replace now t row db)
    ∙ insert-own now t h vals row db g k e

upsert-other :
    (now : ℕ) (t u : Text) (vals : List Value) (row : Row) (db : Db)
    → lookup t unique_cols ≡ none
    → db.applying ≡ true
    → (u == t && key_matches (key_cols (key_of t)) vals row) ≡ false
    → local_hlc t vals (upsert now u row db).rows ≡ local_hlc t vals db.rows
unfolding upsert
upsert-other now t u vals row db l g n =
    restore-hlc t u vals (key_vals (key_cols (key_of u)) row) _ (insert_or_replace now u row db)
    ∙ insert-other now t u vals row db l g n

upsert-oplog :
    (now : ℕ) (u : Text) (row : Row) (db : Db)
    → db.applying ≡ true
    → (upsert now u row db).oplog ≡ db.oplog
unfolding upsert
upsert-oplog now u row db g =
    restore-oplog u (key_vals (key_cols (key_of u)) row) _ (insert_or_replace now u row db)
    ∙ ap (λ d. d.oplog) (insert-rows now u row db g)

upsert-applying :
    (now : ℕ) (u : Text) (row : Row) (db : Db)
    → db.applying ≡ true
    → (upsert now u row db).applying ≡ true
unfolding upsert
upsert-applying now u row db g =
    restore-applying u (key_vals (key_cols (key_of u)) row) _ (insert_or_replace now u row db)
    ∙ ap (λ d. d.applying) (insert-rows now u row db g)
    ∙ g

newer_last :
    (last h : Text)
    → (not (is_empty last) && not (text_ltb last h)) ≡ true
    → text_ltb last h ≡ false
newer_last last h e = ground arith

-- A row of this key: it is kept out by a newer tombstone or row, and else replaces the row.
apply_put-own :
    (now : ℕ) (t h : Text) (vals : List Value) (row : Row) (m : Merge)
    → m.db.applying ≡ true
    → get (codes "hlc") row ≡ some h
    → key_matches (key_cols (key_of t)) vals row ≡ true
    → version t vals (apply_put now t row h m).db ≡ text_max (version t vals m.db) h
unfolding version apply_put
apply_put-own now t h vals row m g e k =
    rw (key_matches_vals (key_cols (key_of t)) vals row k)
      (elim (Bool-cases (has_newer_tombstone t (join_key vals) h m.db.oplog)) [
        | inl n ↦
            rw n
              (sym (newer_max _ (last_tombstone t (join_key vals) m.db.oplog) h (newer_last _ h n)))
        | inr n ↦ rw n (elim (Bool-cases (is_older (local_hlc t vals m.db.rows) h)) [
          | inl o ↦ rw o (
              rw (upsert-own now t h vals row m.db g e k, upsert-oplog now t row m.db g)
                (put_max (local_hlc t vals m.db.rows) (last_tombstone t (join_key vals) m.db.oplog)
                  h o))
          | inr o ↦ rw o (sym (not-older_max (local_hlc t vals m.db.rows) _ h o))
        ])
      ])

-- A row of another key.
apply_put-other :
    (now : ℕ) (t u h : Text) (vals : List Value) (row : Row) (m : Merge)
    → lookup t unique_cols ≡ none
    → m.db.applying ≡ true
    → (u == t && key_matches (key_cols (key_of t)) vals row) ≡ false
    → version t vals (apply_put now u row h m).db ≡ version t vals m.db
unfolding version apply_put
apply_put-other now t u h vals row m l g n =
    ground (arith, upsert-other now t u vals row m.db l g n, upsert-oplog now u row m.db g)

apply_put-version :
    (now : ℕ) (t u h : Text) (vals : List Value) (row : Row) (m : Merge)
    → KeyOf t vals
    → m.db.applying ≡ true
    → get (codes "hlc") row ≡ some h
    → version t vals (apply_put now u row h m).db
      ≡ text_max
          (version t vals m.db)
          (if u == t && key_matches (key_cols (key_of t)) vals row then h else [])
apply_put-version now t u h vals row m k g e =
    elim (Bool-cases (u == t && key_matches (key_cols (key_of t)) vals row)) [
      | inl b ↦ rw b (own (and_true (u == t) (key_matches (key_cols (key_of t)) vals row) b))
      | inr b ↦ rw b (apply_put-other now t u h vals row m k.no_unique g b)
    ]
  where
    own :
        ((u == t) ≡ true) × (key_matches (key_cols (key_of t)) vals row ≡ true)
        → version t vals (apply_put now u row h m).db ≡ text_max (version t vals m.db) h
    own (p, q) = rw ((==_iff u t).0 p) (apply_put-own now t h vals row m g e q)

unknown-brings :
    (t : Text) (vals : List Value) (c : Change)
    → KeyOf t vals
    → is_unknown (key_of c.tbl) ≡ true
    → brings t vals c ≡ []
unknown-brings t vals c k e = elim (Bool-cases (c.tbl == t)) [
  | inl b ↦
      absurd (cc (sym e ∙ ap (λ u. is_unknown (key_of u)) ((==_iff c.tbl t).0 b), k.replicated))
  | inr b ↦ rw b refl
]

apply_body-version :
    (now : ℕ) (t u h o : Text) (vals : List Value) (b : Body) (m : Merge)
    → KeyOf t vals
    → m.db.applying ≡ true
    → BodyStamped h b
    → version t vals (apply_body now u h o b m).db
      ≡ text_max (version t vals m.db) (if u == t && body_about t vals b then h else [])
apply_body-version now t u h o vals (put_row row) m k g s =
    apply_put-version now t u h vals row m k g s
apply_body-version now t u h o vals (del_gid gid) m k g s =
    apply_del-version now t u gid h o vals m k g

-- Merging a change joins what it brings to the version of each key.
pub apply_change-version :
    (now : ℕ) (t : Text) (vals : List Value) (m : Merge) (c : Change)
    → KeyOf t vals
    → m.db.applying ≡ true
    → Stamped c
    → version t vals (apply_change now m c).db ≡ text_max (version t vals m.db) (brings t vals c)
unfolding apply_change
apply_change-version now t vals m c k g s = elim (Bool-cases (is_unknown (key_of c.tbl))) [
  | inl e ↦ rw (e, unknown-brings t vals c k e) refl
  | inr e ↦ rw e (
      apply_body-version now t c.tbl c.hlc c.origin vals c.body
        (record m { max_hlc = text_max m.max_hlc c.hlc }) k g s)
]

apply_del-applying :
    (now : ℕ) (u gid h o : Text) (m : Merge)
    → m.db.applying ≡ true
    → (apply_del now u gid h o m).db.applying ≡ true
unfolding apply_del delete_older delete_rows
apply_del-applying now u gid h o m g = ground arith

pub apply_put-applying :
    (now : ℕ) (u h : Text) (row : Row) (m : Merge)
    → m.db.applying ≡ true
    → (apply_put now u row h m).db.applying ≡ true
unfolding apply_put
apply_put-applying now u h row m g = ground (arith, upsert-applying now u row m.db g)

pub apply_body-applying :
    (now : ℕ) (u h o : Text) (b : Body) (m : Merge)
    → m.db.applying ≡ true
    → (apply_body now u h o b m).db.applying ≡ true
apply_body-applying now u h o (put_row row) m g = apply_put-applying now u h row m g
apply_body-applying now u h o (del_gid gid) m g = apply_del-applying now u gid h o m g

pub apply_change-applying :
    (now : ℕ) (m : Merge) (c : Change)
    → m.db.applying ≡ true
    → (apply_change now m c).db.applying ≡ true
unfolding apply_change
apply_change-applying now m c g = ground (
  arith,
  apply_body-applying now c.tbl c.hlc c.origin c.body
      (record m { max_hlc = text_max m.max_hlc c.hlc }) g,
)
