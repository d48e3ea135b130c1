-- ===== src/Sync/Merge/Version.antt =====
-- The version of a key: the highest clock text of its row and of its tombstones. Merging a change
-- raises it to the change's text, so that it is a join over the changes received.
use thread_keeper.Common.{
  if◌then◌else◌, Bool-cases, ◌==◌, ==_iff, nat_eq, pair_eq, and_true, default, lookup, Text, codes,
  text_beq_iff, text_eq, text_max, text_max_assoc, text_max_comm, text_max_nil, ℕ, ◌≡◌, refl, sym,
  ap, ◌∙◌, subst, inl, inr, Bool, true, false, not, ◌&&◌, none, some, List, [], ◌∷◌, ◌++◌, arith,
}
use thread_keeper.Sync.Table.{Value, Row, get, LogEntry, del, Db, key_of, unique_cols}
use thread_keeper.Sync.Protocol.{Change, Body, put_row, del_gid}
use thread_keeper.Sync.Capture.{key_cols, key_matches, join_key, selects, delete_rows}
use thread_keeper.Sync.Merge.{
  Merge, local_hlc, last_tombstone, split_gid, apply_del, is_unknown, is_older, hlc_of,
  delete_older,
}
use thread_keeper.Sync.Merge.Keys.{split_gid-other}
use thread_keeper.Sync.Merge.Rows.{find-filter-keeps, find-filter-drops}

unfoldable pub version : Text → List Value → Db → Text
version t vals db =
    text_max (default [] (local_hlc t vals db.rows)) (last_tombstone t (join_key vals) db.oplog)

-- What a change brings to a key: its text, or "" if it is about another key.
abbrev pub body_about : Text → List Value → Body → Bool
body_about t vals (put_row row) = key_matches (key_cols (key_of t)) vals row
body_about t vals (del_gid gid) = gid == join_key vals

abbrev pub brings : Text → List Value → Change → Text
brings t vals c = if c.tbl == t && body_about t vals c.body then c.hlc else []

-- A key of a table whose rows only the key identifies: it is what its gid is split into, and the
-- table has no further UNIQUE column.
pub record KeyOf (t : Text) (vals : List Value) : Type 0 where
  pub replicated : is_unknown (key_of t) ≡ false
  pub splits : split_gid (key_of t) (join_key vals) ≡ vals
  pub no_unique : lookup t unique_cols ≡ none

-- The row that a change carries has the change's text in its column `hlc`.
abbrev pub BodyStamped : Text → Body → Type 0
BodyStamped hlc (put_row row) = get (codes "hlc") row ≡ some hlc
BodyStamped hlc (del_gid gid) = Unit

abbrev pub Stamped : Change → Type 0
Stamped c = BodyStamped c.hlc c.body

last_tombstone-append :
    (t gid : Text) (log : List LogEntry) (u g h o : Text)
    → last_tombstone t gid
        (log ++ (record { tbl = u; gid = g; op = del; hlc = h; origin = o } ∷ []))
      ≡ text_max (last_tombstone t gid log) (if u == t && g == gid then h else [])
unfolding last_tombstone
last_tombstone-append t gid [] u g h o = ground (arith, text_max_nil h)
last_tombstone-append t gid (e ∷ log) u g h o = ground (
  arith,
  last_tombstone-append t gid log u g h o,
  text_max_assoc e.hlc (last_tombstone t gid log) h,
)

-- Deleting by a gid removes the row of its key, and of no other key.
delete-own :
    (now : ℕ) (t : Text) (vals : List Value) (db : Db)
    → KeyOf t vals
    → db.applying ≡ true
    → local_hlc t vals
        (delete_rows now t
          (key_matches (key_cols (key_of t)) (split_gid (key_of t) (join_key vals)))
          db).rows
      ≡ none
unfolding delete_rows
delete-own now t vals db k g =
    rw (g, k.splits)
      (ap hlc_of (
        find-filter-drops t (key_matches (key_cols (key_of t)) vals)
          (λ x. not (selects t (key_matches (key_cols (key_of t)) vals) x)) db.rows
          (λ r e. ground (arith, text_beq_iff t t))))

selects-other :
    (t u gid : Text) (vals : List Value) (r : Row)
    → (u == t && gid == join_key vals) ≡ false
    → key_matches (key_cols (key_of t)) vals r ≡ true
    → not (selects u (key_matches (key_cols (key_of u)) (split_gid (key_of u) gid)) (t, r)) ≡ true
selects-other t u gid vals r h m = elim (Bool-cases (u == t)) [
  | inl e ↦ same (sym ((text_beq_iff u t).0 e))
  | inr e ↦ ground (arith, text_beq_iff u t, text_beq_iff t u)
]
  where
    at_gid :
        (gid == join_key vals) ≡ false
        → key_matches (key_cols (key_of t)) (split_gid (key_of t) gid) r ≡ false
    at_gid n = ground (arith, split_gid-other t gid vals r, text_beq_iff gid (join_key vals))

    same :
        t ≡ u
        → not (selects u (key_matches (key_cols (key_of u)) (split_gid (key_of u) gid)) (t, r))
          ≡ true
    same e =
        subst
          (λ v.
            (v == t && gid == join_key vals) ≡ false
            → not (selects v (key_matches (key_cols (key_of v)) (split_gid (key_of v) gid)) (t, r))
              ≡ true)
          e (λ n. ground (arith, at_gid, text_beq_iff t t)) h

delete-other :
    (now : ℕ) (t u gid : Text) (vals : List Value) (db : Db)
    → KeyOf t vals
    → db.applying ≡ true
    → (u == t && gid == join_key vals) ≡ false
    → local_hlc t vals
        (delete_rows now u (key_matches (key_cols (key_of u)) (split_gid (key_of u) gid)) db).rows
      ≡ local_hlc t vals db.rows
unfolding delete_rows
delete-other now t u gid vals db k g h = rw g (
    ap hlc_of (
      find-filter-keeps t (key_matches (key_cols (key_of t)) vals)
        (λ x. not (selects u (key_matches (key_cols (key_of u)) (split_gid (key_of u) gid)) x))
        db.rows (λ r. selects-other t u gid vals r h)))

delete-oplog :
    (now : ℕ) (u : Text) (p : Row → Bool) (db : Db)
    → db.applying ≡ true
    → (delete_rows now u p db).oplog ≡ db.oplog
unfolding delete_rows
delete-oplog now u p db g = rw g refl

abbrev pub local_text : Text → List Value → Db → Text
local_text t vals db = default [] (local_hlc t vals db.rows)

delete_older-other :
    (now : ℕ) (t u gid h : Text) (vals : List Value) (db : Db)
    → KeyOf t vals
    → db.applying ≡ true
    → (u == t && gid == join_key vals) ≡ false
    → local_text t vals (delete_older now u gid h db) ≡ local_text t vals db
unfolding delete_older
delete_older-other now t u gid h vals db k g n =
    ground (arith, delete-other now t u gid vals db k g n)

pub older_max :
    (l : Value) (h : Text) → is_older l h ≡ true → text_max [] h ≡ text_max (default [] l) h
older_max none h e = refl
older_max (some l) h e = ground (arith, text_max_nil h)

delete_older-own :
    (now : ℕ) (t h : Text) (vals : List Value) (db : Db)
    → KeyOf t vals
    → db.applying ≡ true
    → text_max (local_text t vals (delete_older now t (join_key vals) h db)) h
      ≡ text_max (local_text t vals db) h
unfolding delete_older
delete_older-own now t h vals db k g = elim (Bool-cases (is_older (local_hlc t vals db.rows) h)) [
  | inl e ↦ rw (k.splits, e) (own ∙ older_max (local_hlc t vals db.rows) h e)
  | inr e ↦ rw (k.splits, e) refl
]
  where
    own :
        text_max
          (local_text t vals (delete_rows now t (key_matches (key_cols (key_of t)) vals) db))
          h
        ≡ text_max [] h
    own =
        subst
          (λ v.
            text_max
              (local_text t vals (delete_rows now t (key_matches (key_cols (key_of t)) v) db)) h
            ≡ text_max [] h)
          k.splits (ap (λ v. text_max (default [] v) h) (delete-own now t vals db k g))

delete_older-oplog :
    (now : ℕ) (u gid h : Text) (db : Db)
    → db.applying ≡ true
    → (delete_older now u gid h db).oplog ≡ db.oplog
unfolding delete_older
delete_older-oplog now u gid h db g =
    ground (
      arith,
      delete-oplog now u (key_matches (key_cols (key_of u)) (split_gid (key_of u) gid)) db g,
    )

join_del :
    (l' l v h : Text) (b : Bool)
    → (b ≡ true → text_max l' h ≡ text_max l h)
    → (b ≡ false → l' ≡ l)
    → text_max l' (text_max v (if b then h else [])) ≡ text_max (text_max l v) (if b then h else [])
join_del l' l v h true f g =
    ap (text_max l') (text_max_comm v h)
    ∙ sym (text_max_assoc l' h v)
    ∙ ap (λ x. text_max x v) (f refl)
    ∙ text_max_assoc l h v
    ∙ ap (text_max l) (text_max_comm h v)
    ∙ sym (text_max_assoc l v h)
join_del l' l v h false f g = ap (λ x. text_max x v) (g refl)

-- Merging a deletion.
pub apply_del-version :
    (now : ℕ) (t u gid h o : Text) (vals : List Value) (m : Merge)
    → KeyOf t vals
    → m.db.applying ≡ true
    → version t vals (apply_del now u gid h o m).db
      ≡ text_max (version t vals m.db) (if u == t && gid == join_key vals then h else [])
unfolding version apply_del
apply_del-version now t u gid h o vals m k g =
    rw
      (
        delete_older-oplog now u gid h m.db g,
        last_tombstone-append t (join_key vals) m.db.oplog u gid h o,
      )
      (join_del _ _ _ h (u == t && gid == join_key vals)
        (λ e.
          own (and_true (u == t) (gid == join_key vals) e).0
            (and_true (u == t) (gid == join_key vals) e).1)
        (λ e. delete_older-other now t u gid h vals m.db k g e))
  where
    own :
        (u == t) ≡ true
        → (gid == join_key vals) ≡ true
        → text_max (local_text t vals (delete_older now u gid h m.db)) h
          ≡ text_max (local_text t vals m.db) h
    own e f =
        rw ((==_iff u t).0 e, (==_iff gid (join_key vals)).0 f)
          (delete_older-own now t h vals m.db k g)
