-- ===== src/Sync/Tests.antt =====
-- The theorems of replication at two small nodes.
use thread_keeper.Common.{
  nat_eq, pair_eq, All, Text, codes, text_eq, text_ltb, text_max, ◌≡◌, refl, true, false, some,
  List, [], ◌∷◌, map, arith,
}
use thread_keeper.Common.Int.{pos}
use thread_keeper.Sync.Clock.{fmt_hlc, parse_hlc, advance, hlc_absorb}
use thread_keeper.Sync.Clock.Order.{Fits, hlc_ltb, text_ltb-fmt_hlc}
use thread_keeper.Sync.Clock.Parse.{parse_hlc-fmt_hlc}
use thread_keeper.Sync.Clock.Causality.{clock_at, advance-after-hlc_absorb}
use thread_keeper.Sync.Table.{Value, Row, Db, key_of}
use thread_keeper.Sync.Protocol.{Change, put_row, del_gid, known, stamp_of, version_vector}
use thread_keeper.Sync.Vector.{latest, all_changes, version_vector_lem}
use thread_keeper.Sync.Merge.{apply_changes, split_gid}
use thread_keeper.Sync.Merge.Version.{version, KeyOf}
use thread_keeper.Sync.Merge.Changeset.{brought, apply_changes-version}
use thread_keeper.Sync.Merge.Loop.{Clocked}
use thread_keeper.Sync.Merge.Dominates.{advance-after-apply_changes}

abbrev threads : Text
threads = codes "threads"

abbrev key_t1 : List Value
key_t1 = some (codes "T1") ∷ []

abbrev hlc_5 : Text
hlc_5 = fmt_hlc (pos 5) (pos 0) (codes "A")

abbrev hlc_7 : Text
hlc_7 = fmt_hlc (pos 7) (pos 1) (codes "B")

abbrev row_at_5 : Row
row_at_5 =
    (codes "id", some (codes "T1"))
    ∷ (codes "origin_node", some (codes "A"))
    ∷ (codes "hlc", some hlc_5)
    ∷ []

abbrev node : Db
node = record {
  rows = (threads, row_at_5) ∷ [];
  oplog = [];
  clock = clock_at (codes "A") 5 0;
  applying = false;
}

abbrev removal : Change
removal = record { tbl = threads; hlc = hlc_7; origin = codes "B"; body = del_gid (codes "T1") }

abbrev write_5 : Change
write_5 = record { tbl = threads; hlc = hlc_5; origin = codes "A"; body = put_row row_at_5 }

key_t1-KeyOf : KeyOf threads key_t1
unfolding key_of split_gid
key_t1-KeyOf = record { replicated = refl; splits = refl; no_unique = refl }

apply_changes-version_example :
    version threads key_t1 (apply_changes 9 (removal ∷ []) node)
    ≡ text_max (version threads key_t1 node) (brought threads key_t1 (removal ∷ []))
apply_changes-version_example =
    apply_changes-version 9 threads key_t1 (removal ∷ []) node key_t1-KeyOf (tt, tt)

removal-Clocked : All (Clocked 7 1) (removal ∷ [])
unfolding key_of
removal-Clocked = (
  (
    refl,
    record {
      time = 7;
      count = 1;
      node = codes "B";
      is_text = refl;
      time_le = omega arith;
      count_le = omega arith;
    },
  ),
  tt,
)

advance-after-apply_changes_example :
    All
      (λ (x : Change).
        text_ltb x.hlc (advance 12 (apply_changes 9 (removal ∷ []) node).clock).1 ≡ true)
      (removal ∷ [])
advance-after-apply_changes_example =
    advance-after-apply_changes 9 12 7 1 5 0 (removal ∷ []) node refl removal-Clocked (omega arith)
      (omega arith)

version_vector_example :
    known (version_vector node) (codes "A") ≡ latest (codes "A") (map stamp_of (all_changes node))
version_vector_example = version_vector_lem node (codes "A")

Fits-5 : Fits 5 0
Fits-5 = record { phys_lt = omega arith; counter_lt = omega arith }

Fits-7 : Fits 7 1
Fits-7 = record { phys_lt = omega arith; counter_lt = omega arith }

text_ltb-fmt_hlc_example :
    text_ltb (fmt_hlc (pos 5) (pos 0) (codes "A")) (fmt_hlc (pos 7) (pos 1) (codes "B"))
    ≡ hlc_ltb 5 0 (codes "A") 7 1 (codes "B")
text_ltb-fmt_hlc_example = text_ltb-fmt_hlc 5 0 (codes "A") 7 1 (codes "B") Fits-5 Fits-7

parse_hlc-fmt_hlc_example :
    parse_hlc (fmt_hlc (pos 7) (pos 1) (codes "B")) ≡ (pos 7, pos 1, codes "B")
parse_hlc-fmt_hlc_example = parse_hlc-fmt_hlc 7 1 (codes "B") Fits-7

advance-after-hlc_absorb_example :
    (text_ltb hlc_7 (advance 9 (hlc_absorb 6 hlc_7 (clock_at (codes "A") 5 0)).0).1 ≡ true)
    × (text_ltb hlc_5 (advance 9 (hlc_absorb 6 hlc_7 (clock_at (codes "A") 5 0)).0).1 ≡ true)
advance-after-hlc_absorb_example =
    advance-after-hlc_absorb 6 9 (codes "A") (codes "B") 5 0 7 1 (omega arith) (omega arith)
