-- ===== src/Evidence/Live.antt =====
-- What a reference gives: to its caller only, and only what may be read now.
use thread_keeper.Common.{
  ltb, if◌then◌else◌, Bool-cases, Option-cases, ◌==◌, nat_eq, pair_eq, and_true, any, all, All,
  lookup, Text, text_beq_iff, text_eq, ℕ, ◌<◌, ◌≡◌, refl, ap, subst, inl, inr, Bool, true, false,
  not, ◌&&◌, Option, none, some, List, [], ◌∷◌, map, arith,
}
use thread_keeper.Access.Scope.{same_text, recall_allowed}
use thread_keeper.Authority.Gate.{is_visible}
use thread_keeper.Evidence.Registry.{
  Kind, thread, kind_text, is_thread, Reference, MemoryRow, World, Registry, is_uri, stored_row,
  is_kept, row_allowed, is_allowed, Document, found, item_kind, read_thread, read_document,
  is_bound, read_evidence,
}

-- What may be read of a row at the time of the read: its authority is not withdrawn, it is of the
-- reader's scope, and it is not over the retention.
pub record Readable (w : World) (kind : Kind) (cross_project : Bool) (r : MemoryRow) : Type 0 where
  pub visible : is_visible w.authority (kind_text kind, r.id) ≡ true
  pub recalled : recall_allowed w.policy w.current cross_project r.memory_scope r.project_id ≡ true
  pub kept : is_kept w kind r ≡ true

row_allowed-Readable :
    (w : World) (kind : Kind) (cross_project : Bool) (r : MemoryRow)
    → row_allowed w kind cross_project r ≡ true
    → Readable w kind cross_project r
unfolding row_allowed
row_allowed-Readable w kind cross_project r h =
    let p =
      and_true
        (is_visible w.authority (kind_text kind, r.id)
          && recall_allowed w.policy w.current cross_project r.memory_scope r.project_id)
        (is_kept w kind r) h in
    let q =
      and_true (is_visible w.authority (kind_text kind, r.id))
        (recall_allowed w.policy w.current cross_project r.memory_scope r.project_id) p.0 in
    record { visible = q.0; recalled = q.1; kept = p.1 }

found-Readable :
    (w : World) (kind : Kind) (cross_project : Bool) (rows : List (Option MemoryRow))
    → all (is_allowed w kind cross_project) rows ≡ true
    → All (Readable w kind cross_project) (found rows)
unfolding is_allowed
found-Readable w kind cross_project [] h = tt
found-Readable w kind cross_project (none ∷ rows) h = absurd (ground (arith, h))
found-Readable w kind cross_project (some r ∷ rows) h =
    let p =
      and_true (is_allowed w kind cross_project (some r))
        (all (is_allowed w kind cross_project) rows) h in
    (row_allowed-Readable w kind cross_project r p.0, found-Readable w kind cross_project rows p.1)

-- The thread of a document, if it has one, is readable.
abbrev pub ThreadReadable : World → Bool → Option MemoryRow → Type 0
ThreadReadable w cross_project none = Unit
ThreadReadable w cross_project (some t) = Readable w thread cross_project t

-- A document whose rows and thread are readable.
abbrev pub Reads : World → Reference → Document → Type 0
Reads w ref d =
    All (Readable w (item_kind ref.kind) ref.cross_project) d.items
    × ThreadReadable w ref.cross_project d.thread

-- The last test of `read_thread`.
checked :
    (w : World) (ref : Reference) (rows : List MemoryRow) (d : Document) (t : MemoryRow)
    (b c : Bool)
    → All (Readable w (item_kind ref.kind) ref.cross_project) rows
    → (b ≡ true → Readable w thread ref.cross_project t)
    → (if not b
        then none
        else if c
        then none
        else some (record { kind = ref.kind; items = rows; thread = some t }))
      ≡ some d
    → Reads w ref d
checked w ref rows d t false c a r h = absurd (ground (arith, h))
checked w ref rows d t true true a r h = absurd (ground (arith, h))
checked w ref rows d t true false a r h =
    let e : Document = record { kind = ref.kind; items = rows; thread = some t } in
    subst (Reads w ref) {x = e} {y = d} (cc h) (a, r refl)

read_thread-Reads :
    (w : World) (ref : Reference) (rows : List MemoryRow) (d : Document)
    → All (Readable w (item_kind ref.kind) ref.cross_project) rows
    → read_thread w ref rows ≡ some d
    → Reads w ref d
unfolding read_thread
read_thread-Reads w ref rows d a h = elim (Option-cases ref.thread_id) [
  | inl e ↦ absurd (ground (arith, e, h))
  | inr (id, e) ↦ elim (Option-cases (stored_row w thread id)) [
    | inl k ↦ absurd (ground (arith, e, k, h))
    | inr (t, k) ↦
        checked w ref rows d t (row_allowed w thread ref.cross_project t)
          (any (λ r. not (same_text r.thread_id ref.thread_id)) rows) a
          (row_allowed-Readable w thread ref.cross_project t) (grind (arith, e, k, h))
  ]
]

-- The tests of `read_document`.
document :
    (w : World) (ref : Reference) (d : Document) (rows : List (Option MemoryRow)) (b c : Bool)
    → (b ≡ true → All (Readable w (item_kind ref.kind) ref.cross_project) (found rows))
    → (if not b
        then none
        else if not c
        then some (record { kind = ref.kind; items = found rows; thread = none })
        else read_thread w ref (found rows))
      ≡ some d
    → Reads w ref d
document w ref d rows false c a h = absurd (ground (arith, h))
document w ref d rows true false a h =
    let e : Document = record { kind = ref.kind; items = found rows; thread = none } in
    subst (Reads w ref) {x = e} {y = d} (cc h) (a refl, tt)
document w ref d rows true true a h = read_thread-Reads w ref (found rows) d (a refl) h

read_document-Reads :
    (w : World) (ref : Reference) (d : Document) → read_document w ref ≡ some d → Reads w ref d
unfolding read_document
read_document-Reads w ref d h =
    let rows = map (stored_row w (item_kind ref.kind)) ref.ids in
    document w ref d rows (all (is_allowed w (item_kind ref.kind) ref.cross_project) rows)
      (is_thread ref.kind) (found-Readable w (item_kind ref.kind) ref.cross_project rows) h

-- What a read gives: it used a reference that is registered, not expired, and of the reader and the
-- reader's project, and all that it gives is readable.
pub record Served (w : World) (clock : ℕ) (caller uri : Text) (reg : Registry) (d : Document)
    : Type 0 where
  pub reference : Reference
  pub is_registered : lookup uri reg ≡ some reference
  pub is_live : clock < reference.expires
  pub is_own : reference.caller ≡ caller
  pub of_project : reference.project ≡ w.current
  pub is_readable : Reads w reference d

same_text-eq : (o k : Option Text) → same_text o k ≡ true → o ≡ k
same_text-eq none none h = refl
same_text-eq none (some t) h = ground (arith, h)
same_text-eq (some s) none h = ground (arith, h)
same_text-eq (some s) (some t) h = ap some ((text_beq_iff s t).0 h)

bound :
    (w : World) (clock : ℕ) (caller : Text) (ref : Reference)
    → is_bound w clock caller ref ≡ true
    → (clock < ref.expires) × (ref.caller ≡ caller) × (ref.project ≡ w.current)
unfolding is_bound
bound w clock caller ref h =
    let p =
      and_true (ltb clock ref.expires && ref.caller == caller) (same_text ref.project w.current)
        h in
    let q = and_true (ltb clock ref.expires) (ref.caller == caller) p.0 in
    (
      ground (arith, q.0),
      (text_beq_iff ref.caller caller).0 q.1,
      same_text-eq ref.project w.current p.1,
    )

serve :
    (fits : Document → Bool) (w : World) (ref : Reference) (d : Document) (b : Bool)
    (o : Option Document)
    → (if not b then none else elim o [ none ↦ none | some e ↦ if fits e then some e else none ])
      ≡ some d
    → (b ≡ true) × (o ≡ some d)
serve fits w ref d false o h = absurd (ground (arith, h))
serve fits w ref d true none h = absurd (ground (arith, h))
serve fits w ref d true (some e) h = elim (Bool-cases (fits e)) [
  | inl f ↦ (refl, grind (arith, f, h))
  | inr f ↦ absurd (grind (arith, f, h))
]

-- A read gives something only through a registered reference that is not expired and is of the
-- reader and the reader's project; and each row and the thread that it gives has an authority that
-- is not withdrawn, may be recalled by the reader, and is not over the retention, at the time of the
-- read.
pub read_evidence-Served :
    (fits : Document → Bool) (w : World) (clock : ℕ) (caller uri : Text) (reg : Registry)
    (d : Document)
    → read_evidence fits w clock caller uri reg ≡ some d
    → Served w clock caller uri reg d
unfolding read_evidence
read_evidence-Served fits w clock caller uri reg d h = elim (Bool-cases (is_uri uri)) [
  | inr u ↦ absurd (ground (arith, u, h))
  | inl u ↦ elim (Option-cases (lookup uri reg)) [
    | inl k ↦ absurd (ground (arith, u, k, h))
    | inr (ref, k) ↦
        let p =
          serve fits w ref d (is_bound w clock caller ref) (read_document w ref)
            (grind (arith, u, k, h)) in
        let b = bound w clock caller ref p.0 in
        record {
          reference = ref;
          is_registered = k;
          is_live = b.0;
          is_own = b.1;
          of_project = b.2;
          is_readable = read_document-Reads w ref d p.1;
        }
  ]
]
