-- ===== src/Sync/Table.antt =====
-- The replicated tables of a node: rows of columns, the oplog and the clock. sync/capture.py names
-- the tables with their keys, and db.py declares them.
use thread_keeper.Common.{
  nat_eq, pair_eq, default, lookup, Text, codes, text_eq, Bool, true, false, Option, none, some,
  List, [], ◌∷◌, ◌++◌, map,
}
use thread_keeper.Sync.Clock.{Clock}

-- A column's value; `none` is NULL.
abbrev pub Value : Type 0
Value = Option Text

-- A row: its columns with their values. A column that a row lacks is NULL.
abbrev pub Row : Type 0
Row = List (Text × Value)

abbrev pub get : Text → Row → Value
get col row = default none (lookup col row)

pub data Op : Type 0 where
  put : Op
  del : Op

abbrev pub is_del : Op → Bool
is_del put = false
is_del del = true

pub record LogEntry : Type 0 where
  pub tbl : Text
  pub gid : Text
  pub op : Op
  pub hlc : Text
  pub origin : Text

-- A node's database, with each row under the name of its table. `applying` says that the marker
-- table of the connection exists.
pub record Db : Type 0 where
  pub rows : List (Text × Row)
  pub oplog : List LogEntry
  pub clock : Clock
  pub applying : Bool

-- `_PK`: a table with the column of its key.
abbrev pub single_keys : List (Text × Text)
single_keys =
    (codes "threads", codes "id")
    ∷ (codes "notes", codes "id")
    ∷ (codes "verbatim", codes "id")
    ∷ (codes "evolve", codes "id")
    ∷ (codes "probe_results", codes "id")
    ∷ (codes "dialectic_evidence", codes "id")
    ∷ (codes "dialectic_observations", codes "id")
    ∷ (codes "edges", codes "id")
    ∷ (codes "concepts", codes "id")
    ∷ (codes "distill", codes "id")
    ∷ (codes "user_dialectic", codes "id")
    ∷ (codes "probes", codes "id")
    ∷ (codes "core_memory", codes "key")
    ∷ (codes "style", codes "key")
    ∷ (codes "skill_usage", codes "name")
    ∷ (codes "reliability", codes "category")
    ∷ (codes "dialog_messages", codes "uuid")
    ∷ []

-- `_COMPOSITE`
abbrev pub composite_keys : List (Text × (Text × Text))
composite_keys = (codes "distill_votes", (codes "distill_id", codes "voter_cid")) ∷ []

-- `_ALL_TABLES`
unfoldable pub all_tables : List Text
all_tables =
    map (λ (p : Text × Text). p.0) single_keys
    ++ map (λ (p : Text × (Text × Text)). p.0) composite_keys

pub data Key : Type 0 where
  single : Text → Key
  composite : Text → Text → Key
  unknown : Key

abbrev pub single_key : Option Text → Key
single_key none = unknown
single_key (some col) = single col

abbrev pub key_or : Key → Option (Text × Text) → Key
key_or k none = k
key_or k (some (a, b)) = composite a b

-- The key columns of a table: a composite key goes first, as in `_pk_where`.
unfoldable pub key_of : Text → Key
key_of t = key_or (single_key (lookup t single_keys)) (lookup t composite_keys)

-- `_EMBED_TEXT_COL`
abbrev pub embed_text_cols : List (Text × Text)
embed_text_cols =
    (codes "notes", codes "content")
    ∷ (codes "dialog_messages", codes "content")
    ∷ (codes "concepts", codes "description")
    ∷ []

-- The one UNIQUE column, beside the keys, of the replicated tables (db.py).
abbrev pub unique_cols : List (Text × Text)
unique_cols = (codes "dialectic_observations", codes "dialog_uuid") ∷ []
