-- ===== src/Evidence/Registry.antt =====
-- evidence.py: the registry of references, and `read_evidence`.
use thread_keeper.Common.{
  ltb, leb, if◌then◌else◌, ◌==◌, nat_eq, pair_eq, length, filter, any, all, lookup, assign, Text,
  codes, text_eq, after_prefix, ℕ, ◌+◌, Bool, true, false, not, ◌&&◌, ◌||◌, Option, none, some,
  List, [], ◌∷◌, map,
}
use thread_keeper.Access.Policy.{MemoryAccess}
use thread_keeper.Access.Scope.{same_text, recall_allowed}
use thread_keeper.Authority.Gate.{is_visible}

pub data Kind : Type 0 where
  note thread dialog : Kind

abbrev pub kind_text : Kind → Text
kind_text note = codes "note"
kind_text thread = codes "thread"
kind_text dialog = codes "dialog"

abbrev pub is_thread : Kind → Bool
is_thread thread = true
is_thread _ = false

abbrev pub is_dialog : Kind → Bool
is_dialog dialog = true
is_dialog _ = false

-- `_Reference`; the clock is counted in seconds.
pub record Reference : Type 0 where
  pub kind : Kind
  pub ids : List Text
  pub caller : Text
  pub project : Option Text
  pub cross_project : Bool
  pub expires : ℕ
  pub thread_id : Option Text

-- A row of `notes`, `threads` or `dialog_messages`.
pub record MemoryRow : Type 0 where
  pub id : Text
  pub thread_id : Option Text
  pub memory_scope : Option Text
  pub project_id : Option Text
  pub created_at : ℕ
  pub content : Text

-- What a read finds: the tables, and who reads when. `retention` is `DIALOG_RETENTION_DAYS` in whole
-- seconds, if it is set; it is not negative.
pub record World : Type 0 where
  pub notes : List MemoryRow
  pub threads : List MemoryRow
  pub dialogs : List MemoryRow
  pub authority : thread_keeper.Authority.Store.Store
  pub policy : MemoryAccess
  pub current : Option Text
  pub now : ℕ
  pub retention : Option ℕ

abbrev pub ttl : ℕ
ttl = 300

abbrev pub max_links : ℕ
max_links = 1024

-- `_references`, oldest first.
abbrev pub Registry : Type 0
Registry = List (Text × Reference)

-- `while len(_references) >= MAX_EVIDENCE_LINKS: _references.popitem(last=False)`
unfoldable pub trim : Registry → Registry
trim [] = []
trim (r ∷ rs) = let rest = trim rs in if leb max_links (length (r ∷ rs)) then rest else r ∷ rs

abbrev pub unexpired : ℕ → Registry → Registry
unexpired now reg = filter (λ e. ltb now e.1.expires) reg

-- `_issue`, with the random `uri` and the caller's identity.
unfoldable pub issue :
    ℕ → Text → Kind → List Text → Text → Option Text → Bool → Option Text → Registry → Registry
issue now uri kind ids caller project cross_project thread_id reg =
    let reference : Reference = record {
      kind = kind;
      ids = ids;
      caller = caller;
      project = project;
      cross_project = cross_project;
      expires = now + ttl;
      thread_id = thread_id;
    } in
    assign uri reference (trim (unexpired now reg))

abbrev pub is_uri_char : ℕ → Bool
is_uri_char c =
    (leb 48 c && leb c 57)
    || (leb 65 c && leb c 90)
    || (leb 97 c && leb c 122)
    || c == 95
    || c == 45

-- `_URI_PATTERN.fullmatch`
unfoldable pub is_uri : Text → Bool
is_uri uri = elim (after_prefix (codes "memory://evidence/") uri) [
  | none ↦ false
  | some token ↦ length token == 43 && all is_uri_char token
]

unfoldable pub row_of_id : Text → List MemoryRow → Option MemoryRow
row_of_id id [] = none
row_of_id id (r ∷ rs) = if r.id == id then some r else row_of_id id rs

-- `_row`
unfoldable pub stored_row : World → Kind → Text → Option MemoryRow
stored_row w note id = row_of_id id w.notes
stored_row w thread id = row_of_id id w.threads
stored_row w dialog id = row_of_id id w.dialogs

unfoldable pub is_kept : World → Kind → MemoryRow → Bool
is_kept w kind r =
    not (is_dialog kind) || elim w.retention [ none ↦ true | some s ↦ leb w.now (r.created_at + s) ]

-- `_allowed` on a row
unfoldable pub row_allowed : World → Kind → Bool → MemoryRow → Bool
row_allowed w kind cross_project r =
    is_visible w.authority (kind_text kind, r.id)
    && recall_allowed w.policy w.current cross_project r.memory_scope r.project_id
    && is_kept w kind r

unfoldable pub is_allowed : World → Kind → Bool → Option MemoryRow → Bool
is_allowed w kind cross_project none = false
is_allowed w kind cross_project (some r) = row_allowed w kind cross_project r

-- The document, whose texts the code cuts to a length.
pub record Document : Type 0 where
  pub kind : Kind
  pub items : List MemoryRow
  pub thread : Option MemoryRow

abbrev pub found : List (Option MemoryRow) → List MemoryRow
found [] = []
found (none ∷ rs) = found rs
found (some r ∷ rs) = r ∷ found rs

abbrev pub item_kind : Kind → Kind
item_kind kind = if is_thread kind then note else kind

-- The thread of a document, if it may be read and is that of each row.
unfoldable pub read_thread : World → Reference → List MemoryRow → Option Document
read_thread w reference rows = elim reference.thread_id [
  | none ↦ none
  | some id ↦ elim (stored_row w thread id) [
    | none ↦ none
    | some t ↦
        if not (row_allowed w thread reference.cross_project t)
        then none
        else if any (λ r. not (same_text r.thread_id reference.thread_id)) rows
        then none
        else some (record { kind = reference.kind; items = rows; thread = some t })
  ]
]

unfoldable pub read_document : World → Reference → Option Document
read_document w reference =
    let rows = map (stored_row w (item_kind reference.kind)) reference.ids in
    if not (all (is_allowed w (item_kind reference.kind) reference.cross_project) rows)
    then none
    else if not (is_thread reference.kind)
    then some (record { kind = reference.kind; items = found rows; thread = none })
    else read_thread w reference (found rows)

-- The tests that `read_evidence` makes of a reference.
unfoldable pub is_bound : World → ℕ → Text → Reference → Bool
is_bound w clock caller reference =
    ltb clock reference.expires
    && reference.caller == caller
    && same_text reference.project w.current

-- `read_evidence`, where `clock` is the monotonic time and `fits` tells whether the text of a
-- document is short enough.
unfoldable pub read_evidence :
    (Document → Bool) → World → ℕ → Text → Text → Registry → Option Document
read_evidence fits w clock caller uri reg =
    if not (is_uri uri) then none else elim (lookup uri reg) [
      | none ↦ none
      | some reference ↦
          if not (is_bound w clock caller reference)
          then none
          else elim (read_document w reference) [
            | none ↦ none
            | some document ↦ if fits document then some document else none
          ]
    ]
