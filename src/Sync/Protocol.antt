-- ===== src/Sync/Protocol.antt =====
-- sync/protocol.py: version vectors, the changes that a peer lacks, and their merge by last writer.
use thread_keeper.Common.{
  if◌then◌else◌, ◌==◌, nat_eq, pair_eq, filter, is_none, default, lookup, assign, Text, codes,
  text_eq, is_empty, text_ltb, Bool, not, ◌&&◌, ◌||◌, Option, none, some, List, [], ◌∷◌, ◌++◌, map,
  foldl,
}
use thread_keeper.Sync.Table.{Value, Row, get, is_del, LogEntry, Db, all_tables}

-- A version vector: the highest clock text seen for each origin.
abbrev pub Vector : Type 0
Vector = List (Text × Text)

-- `vv.get(o, "")`
abbrev pub known : Vector → Text → Text
known vv o = default [] (lookup o vv)

-- `if m and (o not in vv or m > vv[o]): vv[o] = m`
abbrev pub learn : Vector → Text × Text → Vector
learn vv (o, m) =
    if not (is_empty m) && (is_none (lookup o vv) || text_ltb (known vv o) m)
    then assign o m vv
    else vv

-- `SELECT origin_node, MAX(hlc) … GROUP BY origin_node`, where "" stands for a NULL `hlc`.
abbrev pub raise : Vector → Text × Text → Vector
raise vv (o, m) = if is_none (lookup o vv) || text_ltb (known vv o) m then assign o m vv else vv

unfoldable pub group_max : List (Text × Text) → Vector
group_max = foldl raise []

-- The rows of a table.
unfoldable pub rows_of : Text → List (Text × Row) → List Row
rows_of t [] = []
rows_of t ((u, r) ∷ rows) = if u == t then r ∷ rows_of t rows else rows_of t rows

-- A change as it is sent: a row of a table, or the gid of a deleted one.
pub data Body : Type 0 where
  put_row : Row → Body
  del_gid : Text → Body

pub record Change : Type 0 where
  pub tbl : Text
  pub hlc : Text
  pub origin : Text
  pub body : Body

-- `_row_payload`, without `_PAYLOAD_EXCLUDE`
unfoldable pub row_payload : Row → Row
row_payload =
    filter (λ (p : Text × Value). not (p.0 == codes "embedding" || p.0 == codes "embed_backend"))

-- A row of `t` whose origin is not NULL, as a change.
abbrev pub stamped : Text → Option Text → Row → List Change
stamped t none r = []
stamped t (some o) r =
    record {
      tbl = t;
      hlc = default [] (get (codes "hlc") r);
      origin = o;
      body = put_row (row_payload r);
    }
    ∷ []

unfoldable pub puts : Text → List Row → List Change
puts t [] = []
puts t (r ∷ rows) = stamped t (get (codes "origin_node") r) r ++ puts t rows

unfoldable pub dels : List LogEntry → List Change
dels [] = []
dels (e ∷ log) =
    if is_del e.op
    then record { tbl = e.tbl; hlc = e.hlc; origin = e.origin; body = del_gid e.gid } ∷ dels log
    else dels log

abbrev pub stamp_of : Change → Text × Text
stamp_of c = (c.origin, c.hlc)

-- The loop over the tables, then the tombstones.
unfoldable pub vector_tables : List Text → List (Text × Row) → Vector → Vector
vector_tables [] rows vv = vv
vector_tables (t ∷ ts) rows vv =
    vector_tables ts rows (foldl learn vv (group_max (map stamp_of (puts t (rows_of t rows)))))

unfoldable pub version_vector : Db → Vector
version_vector db =
    foldl learn (vector_tables all_tables db.rows []) (group_max (map stamp_of (dels db.oplog)))

-- `if h and h > peer_vv.get(o, "")`
abbrev pub is_news : Vector → Change → Bool
is_news vv c = not (is_empty c.hlc) && text_ltb (known vv c.origin) c.hlc

unfoldable pub collect_tables : List Text → List (Text × Row) → Vector → List Change
collect_tables [] rows vv = []
collect_tables (t ∷ ts) rows vv =
    filter (is_news vv) (puts t (rows_of t rows)) ++ collect_tables ts rows vv

unfoldable pub collect_changes : Db → Vector → List Change
collect_changes db vv = collect_tables all_tables db.rows vv ++ filter (is_news vv) (dels db.oplog)
