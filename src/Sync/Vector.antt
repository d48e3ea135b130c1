-- ===== src/Sync/Vector.antt =====
-- What a version vector says: for each origin, the highest clock text among the rows and tombstones.
use thread_keeper.Common.{
  if◌then◌else◌, Option-cases, ◌==◌, nat_eq, pair_eq, lookup, assign, lookup-assign, Text,
  text_beq_iff, text_eq, text_ltb, text_ltb_irrefl, text_ltb_trans, text_max, text_max_assoc,
  text_max_comm, text_max_idem, text_max_nil, ◌≡◌, refl, sym, ap, ◌∙◌, false, none, List, [], ◌∷◌,
  ◌++◌, map, foldl, arith,
}
use mathlib.Core.List.{map-append}
use thread_keeper.Sync.Table.{Row, Db, all_tables}
use thread_keeper.Sync.Protocol.{
  Vector, known, learn, raise, group_max, Change, stamp_of, puts, dels, rows_of, vector_tables,
  version_vector,
}

-- The highest text of an origin in a list of (origin, text), or "".
unfoldable pub latest : Text → List (Text × Text) → Text
latest o [] = []
latest o ((p, m) ∷ l) = let rest = latest o l in if p == o then text_max m rest else rest

-- All the changes that a node holds, for the tables `ts`.
unfoldable pub changes_in : List Text → List (Text × Row) → List Change
changes_in [] rows = []
changes_in (t ∷ ts) rows = puts t (rows_of t rows) ++ changes_in ts rows

unfoldable pub all_changes : Db → List Change
all_changes db = changes_in all_tables db.rows ++ dels db.oplog

pub latest-append :
    (o : Text) (l m : List (Text × Text)) → latest o (l ++ m) ≡ text_max (latest o l) (latest o m)
unfolding latest
latest-append o [] m = sym (text_max_nil (latest o m))
latest-append o ((p, h) ∷ l) m =
    ground (arith, latest-append o l m, text_max_assoc h (latest o l) (latest o m))

known-learn :
    (vv : Vector) (p m o : Text)
    → known (learn vv (p, m)) o ≡ (if p == o then text_max (known vv o) m else known vv o)
known-learn vv p m o = ground (arith, lookup-assign p o m vv, text_beq_iff p o)

known-learn_all :
    (l : List (Text × Text)) (vv : Vector) (o : Text)
    → known (foldl learn vv l) o ≡ text_max (known vv o) (latest o l)
unfolding latest
known-learn_all [] vv o = refl
known-learn_all ((p, m) ∷ l) vv o = ground (
  arith,
  known-learn_all l (learn vv (p, m)) o,
  known-learn vv p m o,
  text_max_assoc (known vv o) m (latest o l),
)

-- The text that is put in place of one that is not greater.
latest-assign :
    (p m o : Text) (vv : Vector)
    → text_ltb m (known vv p) ≡ false
    → latest o (assign p m vv) ≡ (if p == o then text_max (latest o vv) m else latest o vv)
unfolding latest
latest-assign p m o [] h = ground (arith, text_max_nil m)
latest-assign p m o ((j, v) ∷ vv) h = ground (
  arith,
  text_beq_iff j p,
  text_beq_iff p o,
  text_beq_iff j o,
  latest-assign p m o vv,
  text_max_assoc v (latest o vv) m,
  text_max_comm (latest o vv) m,
  text_max_assoc v m (latest o vv),
  text_max_comm v m,
  text_max_comm (text_max v (latest o vv)) m,
  text_max_assoc m v (latest o vv),
)

known-le-latest : (vv : Vector) (p : Text) → text_max (latest p vv) (known vv p) ≡ latest p vv
unfolding latest
known-le-latest [] p = refl
known-le-latest ((j, v) ∷ vv) p = ground (
  arith,
  known-le-latest vv p,
  text_max_comm v (latest p vv),
  text_max_assoc (latest p vv) v v,
  text_max_idem v,
  text_max_comm (text_max v (latest p vv)) v,
)

raise_over : (vv : Vector) (p m : Text) → lookup p vv ≡ none → text_ltb m (known vv p) ≡ false
raise_over vv p m h = rw h refl

latest-raise :
    (vv : Vector) (p m o : Text)
    → latest o (raise vv (p, m)) ≡ (if p == o then text_max (latest o vv) m else latest o vv)
latest-raise vv p m o = ground (
  arith,
  latest-assign p m o vv,
  raise_over vv p m,
  Option-cases (lookup p vv),
  text_beq_iff p o,
  known-le-latest vv o,
  text_max_assoc (latest o vv) (known vv o) m,
  text_ltb_trans m (known vv p) m,
  text_ltb_irrefl m,
)

latest-raise_all :
    (l : List (Text × Text)) (vv : Vector) (o : Text)
    → latest o (foldl raise vv l) ≡ text_max (latest o vv) (latest o l)
unfolding latest
latest-raise_all [] vv o = refl
latest-raise_all ((p, m) ∷ l) vv o = ground (
  arith,
  latest-raise_all l (raise vv (p, m)) o,
  latest-raise vv p m o,
  text_max_assoc (latest o vv) m (latest o l),
)

latest-group_max : (l : List (Text × Text)) (o : Text) → latest o (group_max l) ≡ latest o l
unfolding group_max
latest-group_max l o = latest-raise_all l [] o ∙ (unfold latest in text_max_nil (latest o l))

latest-changes-append :
    (o : Text) (xs ys : List Change)
    → latest o (map stamp_of (xs ++ ys))
      ≡ text_max (latest o (map stamp_of xs)) (latest o (map stamp_of ys))
latest-changes-append o xs ys =
    rw (map-append stamp_of xs ys) (latest-append o (map stamp_of xs) (map stamp_of ys))

known-learn-group :
    (cs : List Change) (vv : Vector) (o : Text)
    → known (foldl learn vv (group_max (map stamp_of cs))) o
      ≡ text_max (known vv o) (latest o (map stamp_of cs))
known-learn-group cs vv o =
    known-learn_all (group_max (map stamp_of cs)) vv o
    ∙ ap (text_max (known vv o)) (latest-group_max (map stamp_of cs) o)

known-vector_tables :
    (ts : List Text) (rows : List (Text × Row)) (vv : Vector) (o : Text)
    → known (vector_tables ts rows vv) o
      ≡ text_max (known vv o) (latest o (map stamp_of (changes_in ts rows)))
unfolding vector_tables changes_in latest
known-vector_tables [] rows vv o = refl
known-vector_tables (t ∷ ts) rows vv o =
    rw
      (
        known-vector_tables ts rows
            (foldl learn vv (group_max (map stamp_of (puts t (rows_of t rows))))) o,
        known-learn-group (puts t (rows_of t rows)) vv o,
        latest-changes-append o (puts t (rows_of t rows)) (changes_in ts rows),
      )
      (text_max_assoc (known vv o) _ _)

-- The version vector of a node names, for each origin, the highest clock text among its rows in all
-- replicated tables and its tombstones, and "" where there is none.
pub version_vector_lem :
    (db : Db) (o : Text) → known (version_vector db) o ≡ latest o (map stamp_of (all_changes db))
unfolding version_vector all_changes
version_vector_lem db o =
    rw
      (
        known-learn-group (dels db.oplog) (vector_tables all_tables db.rows []) o,
        known-vector_tables all_tables db.rows [] o,
        latest-changes-append o (changes_in all_tables db.rows) (dels db.oplog),
        text_max_nil (latest o (map stamp_of (changes_in all_tables db.rows))),
      )
      refl
