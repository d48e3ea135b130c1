-- ===== src/Sync/News.antt =====
-- What a node sends to a peer: what it holds and the peer does not know.
use thread_keeper.Common.{
  nat_eq, pair_eq, filter, filter-append, Text, text_beq_iff, text_eq, text_ltb, text_ltb_irrefl,
  text_ltb_trans, text_max, text_max_assoc, text_max_comm, text_max_idem, ◌≡◌, refl, ◌∙◌, false,
  List, [], ◌∷◌, map, arith,
}
use thread_keeper.Sync.Table.{Row, Db, all_tables}
use thread_keeper.Sync.Protocol.{
  Vector, known, Change, stamp_of, puts, dels, rows_of, is_news, collect_tables, collect_changes,
}
use thread_keeper.Sync.Vector.{latest, changes_in, all_changes}

pub collect_tables-filter :
    (ts : List Text) (rows : List (Text × Row)) (vv : Vector)
    → collect_tables ts rows vv ≡ filter (is_news vv) (changes_in ts rows)
unfolding collect_tables changes_in
collect_tables-filter [] rows vv = refl
collect_tables-filter (t ∷ ts) rows vv =
    rw
      (
        collect_tables-filter ts rows vv,
        filter-append (is_news vv) (puts t (rows_of t rows)) (changes_in ts rows),
      )
      refl

-- What a node sends is what it holds, without what the peer knows.
pub collect_changes-filter :
    (db : Db) (vv : Vector) → collect_changes db vv ≡ filter (is_news vv) (all_changes db)
unfolding collect_changes all_changes
collect_changes-filter db vv =
    rw
      (
        collect_tables-filter all_tables db.rows vv,
        filter-append (is_news vv) (changes_in all_tables db.rows) (dels db.oplog),
      )
      refl

-- `vv` knows all of the changes `cs`.
abbrev pub Covers : Vector → List Change → Type 0
Covers vv cs = (o : Text) → text_max (known vv o) (latest o (map stamp_of cs)) ≡ known vv o

Covers-tail : (vv : Vector) (c : Change) (cs : List Change) → Covers vv (c ∷ cs) → Covers vv cs
unfolding latest
Covers-tail vv c cs h o = ground (
  arith,
  h o,
  text_max_assoc (known vv o) c.hlc (latest o (map stamp_of cs)),
  text_max_comm c.hlc (latest o (map stamp_of cs)),
  text_max_assoc (known vv o) (latest o (map stamp_of cs)) c.hlc,
  text_max_assoc (known vv o) (latest o (map stamp_of cs)) (latest o (map stamp_of cs)),
  text_max_idem (latest o (map stamp_of cs)),
)

not-news : (k h r : Text) → text_max k (text_max h r) ≡ k → text_ltb k h ≡ false
not-news k h r e = ground (arith, text_ltb_irrefl k, text_ltb_trans k h r, text_ltb_trans k h k)

Covers-head :
    (vv : Vector) (c : Change) (cs : List Change) → Covers vv (c ∷ cs) → is_news vv c ≡ false
unfolding latest
Covers-head vv c cs h = ground (
  arith,
  h c.origin,
  text_beq_iff c.origin c.origin,
  not-news (known vv c.origin) c.hlc (latest c.origin (map stamp_of cs)),
)

no-news : (vv : Vector) (cs : List Change) → Covers vv cs → filter (is_news vv) cs ≡ []
no-news vv [] h = refl
no-news vv (c ∷ cs) h = rw (Covers-head vv c cs h) (no-news vv cs (Covers-tail vv c cs h))

-- A peer whose version vector covers what a node holds receives nothing from it.
pub collect_changes-Covers :
    (db : Db) (vv : Vector) → Covers vv (all_changes db) → collect_changes db vv ≡ []
collect_changes-Covers db vv h = collect_changes-filter db vv ∙ no-news vv (all_changes db) h
