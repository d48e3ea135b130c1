-- ===== src/Sync/Merge/Rows.antt =====
-- What the statements of a merge do to the row of one key.
use thread_keeper.Common.{
  if◌then◌else◌, ◌==◌, nat_eq, pair_eq, filter, any, Text, codes, text_beq_iff, text_eq, ◌≡◌, refl,
  Bool, true, false, ◌&&◌, none, some, List, [], ◌∷◌, ◌++◌, map, arith,
}
use thread_keeper.Sync.Table.{Row, get}
use thread_keeper.Sync.Protocol.{rows_of}
use thread_keeper.Sync.Capture.{change_row}
use thread_keeper.Sync.Merge.{find_row, hlc_of}

pub rows_of-append :
    (t : Text) (xs ys : List (Text × Row)) → rows_of t (xs ++ ys) ≡ rows_of t xs ++ rows_of t ys
unfolding rows_of
rows_of-append t [] ys = refl
rows_of-append t ((u, r) ∷ xs) ys = ground (arith, rows_of-append t xs ys)

find_row-append :
    (p : Row → Bool) (xs ys : List Row)
    → find_row p (xs ++ ys) ≡ (if any p xs then find_row p xs else find_row p ys)
unfolding find_row
find_row-append p [] ys = refl
find_row-append p (x ∷ xs) ys = ground (arith, find_row-append p xs ys)

-- A filter that keeps the rows that `p` selects in `t` keeps what is found.
pub find-filter-keeps :
    (t : Text) (p : Row → Bool) (q : Text × Row → Bool) (rows : List (Text × Row))
    → ((r : Row) → p r ≡ true → q (t, r) ≡ true)
    → find_row p (rows_of t (filter q rows)) ≡ find_row p (rows_of t rows)
unfolding rows_of find_row
find-filter-keeps t p q [] h = refl
find-filter-keeps t p q ((u, r) ∷ rows) h =
    ground (arith, find-filter-keeps t p q rows h, h r, text_beq_iff u t)

-- A filter that drops the rows that `p` selects in `t` leaves none of them.
pub find-filter-drops :
    (t : Text) (p : Row → Bool) (q : Text × Row → Bool) (rows : List (Text × Row))
    → ((r : Row) → p r ≡ true → q (t, r) ≡ false)
    → find_row p (rows_of t (filter q rows)) ≡ none
unfolding rows_of find_row
find-filter-drops t p q [] h = refl
find-filter-drops t p q ((u, r) ∷ rows) h =
    ground (arith, find-filter-drops t p q rows h, h r, text_beq_iff u t)

-- A row that is appended to another table, or that `p` does not select, is not found.
pub find-append-other :
    (t u : Text) (p : Row → Bool) (row : Row) (rows : List (Text × Row))
    → (u == t && p row) ≡ false
    → find_row p (rows_of t (rows ++ ((u, row) ∷ []))) ≡ find_row p (rows_of t rows)
unfolding rows_of find_row
find-append-other t u p row [] h = ground arith
find-append-other t u p row ((v, r) ∷ rows) h = ground (arith, find-append-other t u p row rows h)

-- A row that is appended after none that `p` selects is found.
pub find-append-new :
    (t : Text) (p : Row → Bool) (row : Row) (rows : List (Text × Row))
    → p row ≡ true
    → find_row p (rows_of t rows) ≡ none
    → find_row p (rows_of t (rows ++ ((t, row) ∷ []))) ≡ some row
unfolding rows_of find_row
find-append-new t p row [] h k = ground (arith, text_beq_iff t t)
find-append-new t p row ((v, r) ∷ rows) h k = ground (arith, find-append-new t p row rows h)

-- What a change of rows does to the clock text of the row that is found.
pub find-change :
    (t u : Text) (p q : Row → Bool) (f : Row → Row) (rows : List (Text × Row))
    → ((r : Row) → p (f r) ≡ p r)
    → ((r : Row) → get (codes "hlc") (f r) ≡ get (codes "hlc") r)
    → hlc_of (find_row p (rows_of t (map (change_row u q f) rows)))
      ≡ hlc_of (find_row p (rows_of t rows))
unfolding rows_of find_row
find-change t u p q f [] h k = refl
find-change t u p q f ((v, r) ∷ rows) h k = ground (arith, h r, k r, find-change t u p q f rows h k)
