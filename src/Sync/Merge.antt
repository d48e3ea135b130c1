-- ===== src/Sync/Merge.antt =====
-- sync/protocol.py: `apply_changes` and `sync_pair`.
pub mod Keys
pub mod Rows
pub mod Version
pub mod Puts
pub mod Join
pub mod Changeset
pub mod Loop
pub mod Dominates
use thread_keeper.Common.{
  if◌then◌else◌, ◌==◌, nat_eq, pair_eq, is_none, lookup, assign, Text, codes, text_eq, is_empty,
  text_ltb, text_max, ℕ, ◌+◌, Bool, true, false, not, ◌&&◌, Option, none, some, List, [], ◌∷◌, ◌++◌,
  map, foldl,
}
use thread_keeper.Sync.Clock.{split_colon, hlc_absorb}
use thread_keeper.Sync.Table.{
  Value, Row, get, del, is_del, LogEntry, Db, Key, composite, unknown, key_of, embed_text_cols,
}
use thread_keeper.Sync.Capture.{
  key_cols, key_matches, key_vals, join_key, insert_or_replace, change_row, delete_rows, with_guard,
}
use thread_keeper.Sync.Protocol.{
  Change, Body, put_row, del_gid, rows_of, version_vector, collect_changes,
}

-- The key values of a gid. A composite gid holds the ':' that the triggers write.
abbrev pub split_pair : Text → Option (Text × Text) → List Value
split_pair gid none = some gid ∷ []
split_pair gid (some (a, b)) = some a ∷ some b ∷ []

unfoldable pub split_gid : Key → Text → List Value
split_gid (composite a b) gid = split_pair gid (split_colon gid)
split_gid _ gid = some gid ∷ []

unfoldable pub find_row : (Row → Bool) → List Row → Option Row
find_row p [] = none
find_row p (r ∷ rows) = if p r then some r else find_row p rows

-- `SELECT … FROM t WHERE …` for one key.
abbrev pub row_at : Text → List Value → List (Text × Row) → Option Row
row_at t vals rows = find_row (key_matches (key_cols (key_of t)) vals) (rows_of t rows)

-- `row[0] if row else None`
abbrev pub hlc_of : Option Row → Value
hlc_of none = none
hlc_of (some r) = get (codes "hlc") r

-- `_local_hlc`
abbrev pub local_hlc : Text → List Value → List (Text × Row) → Value
local_hlc t vals rows = hlc_of (row_at t vals rows)

-- `MAX(hlc)` of the tombstones of a gid, or "".
unfoldable pub last_tombstone : Text → Text → List LogEntry → Text
last_tombstone t gid [] = []
last_tombstone t gid (e ∷ log) =
    let rest = last_tombstone t gid log in
    if e.tbl == t && e.gid == gid && is_del e.op then text_max e.hlc rest else rest

-- `_has_newer_tombstone`
abbrev pub has_newer_tombstone : Text → Text → Text → List LogEntry → Bool
has_newer_tombstone t gid hlc log =
    let last = last_tombstone t gid log in not (is_empty last) && not (text_ltb last hlc)

abbrev pub is_older : Value → Text → Bool
is_older none hlc = true
is_older (some local) hlc = text_ltb local hlc

abbrev value_beq : Value → Value → Bool
value_beq none none = true
value_beq (some a) (some b) = a == b
value_beq _ _ = false

-- The local vector marker that an upsert keeps, if the embedded text is unchanged.
abbrev preserved_of : Text → Row → Option Row → Option (Value × Value)
preserved_of col row none = none
preserved_of col row (some lr) =
    if not (is_none (get (codes "embed_backend") lr)) && value_beq (get col lr) (get col row)
    then some (get (codes "embedding") lr, get (codes "embed_backend") lr)
    else none

abbrev preserved_in : Row → Option Row → Option Text → Option (Value × Value)
preserved_in row lr none = none
preserved_in row lr (some col) = preserved_of col row lr

unfoldable pub preserved : Text → Row → Option Row → Option (Value × Value)
preserved t row lr = preserved_in row lr (lookup t embed_text_cols)

-- `UPDATE t SET embedding=?, embed_backend=?`, under the guard.
unfoldable pub restore : Text → List Value → Option (Value × Value) → Db → Db
restore t vals none db = db
restore t vals (some (embedding, backend)) db = record db {
  rows =
      map
        (change_row t (key_matches (key_cols (key_of t)) vals)
          (λ r. assign (codes "embed_backend") backend (assign (codes "embedding") embedding r)))
        db.rows;
}

-- The state of the loop: the database, `max_hlc` and the count of applied changes.
pub record Merge : Type 0 where
  pub db : Db
  pub max_hlc : Text
  pub n : ℕ

abbrev pub applied : Merge → Db → Merge
applied m db = record m { db = db; n = m.n + 1 }

-- `if local is None or hlc > local: DELETE …`
unfoldable pub delete_older : ℕ → Text → Text → Text → Db → Db
delete_older now t gid hlc db =
    let vals = split_gid (key_of t) gid in
    if is_older (local_hlc t vals db.rows) hlc
    then delete_rows now t (key_matches (key_cols (key_of t)) vals) db
    else db

unfoldable pub apply_del : ℕ → Text → Text → Text → Text → Merge → Merge
apply_del now t gid hlc origin m =
    let db = delete_older now t gid hlc m.db in
    let tombstone : LogEntry = record {
      tbl = t;
      gid = gid;
      op = del;
      hlc = hlc;
      origin = origin;
    } in
    applied m (record db { oplog = db.oplog ++ (tombstone ∷ []) })

-- The upsert of a row, with the kept vector marker.
unfoldable pub upsert : ℕ → Text → Row → Db → Db
upsert now t row db =
    let vals = key_vals (key_cols (key_of t)) row in
    restore t vals (preserved t row (row_at t vals db.rows)) (insert_or_replace now t row db)

unfoldable pub apply_put : ℕ → Text → Row → Text → Merge → Merge
apply_put now t row hlc m =
    let vals = key_vals (key_cols (key_of t)) row in
    if has_newer_tombstone t (join_key vals) hlc m.db.oplog
    then m
    else if not (is_older (local_hlc t vals m.db.rows) hlc)
    then m
    else applied m (upsert now t row m.db)

abbrev pub apply_body : ℕ → Text → Text → Text → Body → Merge → Merge
apply_body now t hlc origin (put_row row) m = apply_put now t row hlc m
apply_body now t hlc origin (del_gid gid) m = apply_del now t gid hlc origin m

abbrev pub is_unknown : Key → Bool
is_unknown unknown = true
is_unknown _ = false

-- One change of the loop.
unfoldable pub apply_change : ℕ → Merge → Change → Merge
apply_change now m c =
    let seen = record m { max_hlc = text_max m.max_hlc c.hlc } in
    if is_unknown (key_of c.tbl) then m else apply_body now c.tbl c.hlc c.origin c.body seen

-- `if max_hlc: hlc_absorb(conn, max_hlc)`
unfoldable pub absorb_max : ℕ → Merge → Db
absorb_max now m =
    if is_empty m.max_hlc
    then m.db
    else record m.db { clock = (hlc_absorb now m.max_hlc m.db.clock).0 }

abbrev pub start : Db → Merge
start db = record { db = db; max_hlc = []; n = 0 }

unfoldable pub merge_all : ℕ → List Change → Db → Merge
merge_all now changes db = foldl (apply_change now) (start db) changes

unfoldable pub apply_changes : ℕ → List Change → Db → Db
apply_changes now changes = with_guard (λ db. absorb_max now (merge_all now changes db))

-- `sync_pair`, before the derived indexes are rebuilt.
unfoldable pub sync_pair : ℕ → Db → Db → Db × Db
sync_pair now a b =
    let vv_a = version_vector a in
    let vv_b = version_vector b in
    let a' = apply_changes now (collect_changes b vv_a) a in
    (a', apply_changes now (collect_changes a' vv_b) b)
