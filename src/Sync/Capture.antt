-- ===== src/Sync/Capture.antt =====
-- sync/capture.py: the statements on a replicated table, with the triggers that stamp and log them.
use thread_keeper.Common.{
  if◌then◌else◌, ◌==◌, nat_eq, pair_eq, filter, is_none, lookup, assign, Text, codes, text_eq, ℕ,
  Bool, true, false, not, ◌&&◌, ◌||◌, Option, none, some, List, [], ◌∷◌, ◌++◌, map,
}
use thread_keeper.Sync.Clock.{advance}
use thread_keeper.Sync.Table.{
  Value, Row, get, Op, put, del, Db, Key, single, composite, unknown, key_of, unique_cols,
}

abbrev pub key_cols : Key → List Text
key_cols (single c) = c ∷ []
key_cols (composite a b) = a ∷ b ∷ []
key_cols unknown = []

-- SQL's `=`, which NULL never satisfies.
abbrev pub value_matches : Value → Value → Bool
value_matches (some a) (some b) = a == b
value_matches _ _ = false

-- `a=? AND b=?`
abbrev pub key_matches : List Text → List Value → Row → Bool
key_matches [] [] r = true
key_matches (c ∷ cs) (v ∷ vs) r = value_matches (get c r) v && key_matches cs vs r
key_matches _ _ r = false

-- `keyfn(row)` of `_pk_where`
abbrev pub key_vals : List Text → Row → List Value
key_vals cols r = map (λ c. get c r) cols

-- `str(v)`
abbrev pub str_of : Value → Text
str_of none = codes "None"
str_of (some s) = s

-- `":".join(str(v) for v in keyvals)`, which is `_gid_expr` where no key is NULL.
abbrev pub join_key : List Value → Text
join_key [] = []
join_key (v ∷ []) = str_of v
join_key (v ∷ w ∷ vs) = str_of v ++ (b':' ∷ join_key (w ∷ vs))

abbrev pub gid_of : Text → Row → Text
gid_of t r = join_key (key_vals (key_cols (key_of t)) r)

-- `_ADVANCE`, then `_oplog_insert`
unfoldable pub log_write : ℕ → Text → Row → Op → Db → Db
log_write now t r op db =
    let step = advance now db.clock in
    record db {
      clock = step.0;
      oplog =
          db.oplog
          ++ (record { tbl = t; gid = gid_of t r; op = op; hlc = step.1; origin = db.clock.node_id }
              ∷ []);
    }

-- `UPDATE … SET origin_node=…, hlc=…` of the triggers, with the clock advanced.
unfoldable pub stamp_row : ℕ → Db → Row → Row
stamp_row now db r =
    assign (codes "hlc") (some (advance now db.clock).1)
      (assign (codes "origin_node") (some db.clock.node_id) r)

-- The conflict on which `INSERT OR REPLACE` of `row` deletes a row: its key, or a UNIQUE column.
abbrev unique_matches : Option Text → Row → Row → Bool
unique_matches none row r = false
unique_matches (some c) row r = value_matches (get c r) (get c row)

unfoldable pub conflicts : Text → Row → Text × Row → Bool
conflicts t row (u, r) =
    u == t
    && (let cols = key_cols (key_of t) in
        key_matches cols (key_vals cols row) r || unique_matches (lookup t unique_cols) row r)

-- `INSERT OR REPLACE INTO t`, with the trigger `__sync_ai`.
unfoldable pub insert_or_replace : ℕ → Text → Row → Db → Db
insert_or_replace now t row db =
    let kept = filter (λ p. not (conflicts t row p)) db.rows in
    if not db.applying && is_none (get (codes "origin_node") row)
    then log_write now t row put (record db { rows = kept ++ ((t, stamp_row now db row) ∷ []) })
    else record db { rows = kept ++ ((t, row) ∷ []) }

-- The rows of `t` that a WHERE clause selects.
abbrev pub selects : Text → (Row → Bool) → Text × Row → Bool
selects t p (u, r) = u == t && p r

abbrev pub change_row : Text → (Row → Bool) → (Row → Row) → Text × Row → Text × Row
change_row t p f (u, r) = if u == t && p r then (u, f r) else (u, r)

-- `UPDATE t SET … WHERE …` of one row, with the trigger `__sync_au`: `r` is the row as it was.
unfoldable pub update_row : ℕ → Text → (Row → Bool) → (Row → Row) → Row → Db → Db
update_row now t p f r db =
    if not db.applying && not (is_none (get (codes "origin_node") r))
    then log_write now t (f r) put
        (record db { rows = map (change_row t p (λ x. stamp_row now db (f x))) db.rows })
    else record db { rows = map (change_row t p f) db.rows }

-- `DELETE FROM t WHERE …`, with the trigger `__sync_ad` for each deleted row.
unfoldable pub log_deletes : ℕ → Text → (Row → Bool) → List (Text × Row) → Db → Db
log_deletes now t p [] db = db
log_deletes now t p ((u, r) ∷ rows) db =
    let next = log_deletes now t p rows (log_write now t r del db) in
    let rest = log_deletes now t p rows db in if u == t && p r then next else rest

unfoldable pub delete_rows : ℕ → Text → (Row → Bool) → Db → Db
delete_rows now t p db =
    let left = record db { rows = filter (λ x. not (selects t p x)) db.rows } in
    if db.applying then left else log_deletes now t p db.rows left

-- `applying_guard`
unfoldable pub with_guard : (Db → Db) → Db → Db
with_guard f db =
    let after = f (record db { applying = true }) in
    if db.applying then after else record after { applying = false }
