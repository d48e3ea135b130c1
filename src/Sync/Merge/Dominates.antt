-- ===== src/Sync/Merge/Dominates.antt =====
-- After a merge the local clock is ahead of all that was merged.
use thread_keeper.Common.{
  All, Text, is_empty, text_ltb, text_ltb_trans, text_ltb_total, ℕ, ◌+◌, ◌^◌, ◌<◌, max, ◌≡◌, refl,
  sym, ap, ◌∙◌, subst, true, false, List, [], ◌∷◌, ◌++◌, arith,
}
use thread_keeper.Common.Int.{pos}
use thread_keeper.Sync.Clock.{fmt_hlc, advance, hlc_absorb}
use thread_keeper.Sync.Decimal.{pad}
use thread_keeper.Sync.Clock.Order.{Fits, fmt_hlc-Fits}
use thread_keeper.Sync.Clock.Causality.{clock_at, advance-after-hlc_absorb}
use thread_keeper.Sync.Table.{Db}
use thread_keeper.Sync.Protocol.{Change}
use thread_keeper.Sync.Capture.{with_guard}
use thread_keeper.Sync.Merge.{Merge, start, merge_all, absorb_max, apply_changes}
use thread_keeper.Sync.Merge.Loop.{ClockText, Clocked, Below, End, merge_all-End}

is_empty-append : (s t : Text) (c : ℕ) → is_empty (s ++ (c ∷ t)) ≡ false
is_empty-append [] t c = refl
is_empty-append (x ∷ s) t c = refl

is_empty-fmt_hlc :
    (p c : ℕ) (node : Text) → Fits p c → is_empty (fmt_hlc (pos p) (pos c) node) ≡ false
is_empty-fmt_hlc p c node f = rw (fmt_hlc-Fits p c node f) (is_empty-append (pad 15 p) _ b':')

-- A local write after the text `s` is absorbed is stamped with a greater text.
absorbed_lt :
    (now later t d p c : ℕ) (node : Text) (s : Text)
    → ClockText t d s
    → max (max (max p t) now) later < 10 ^ 15
    → max c d + 2 < 10 ^ 6
    → text_ltb s (advance later (hlc_absorb now s (clock_at node p c)).0).1 ≡ true
absorbed_lt now later t d p c node s k a b =
    rw k.is_text
      (advance-after-hlc_absorb now later node k.node p c k.time k.count (ground (arith, k.time_le))
        (ground (arith, k.count_le))).0

ClockText-nonempty :
    (t d : ℕ) (s : Text) → ClockText t d s → t < 10 ^ 15 → d < 10 ^ 6 → is_empty s ≡ false
ClockText-nonempty t d s k a b = rw k.is_text (
    is_empty-fmt_hlc k.time k.count k.node
      (record { phys_lt = omega (arith, k.time_le); counter_lt = omega (arith, k.count_le) }))

absorb_max-clock :
    (now : ℕ) (m : Merge)
    → is_empty m.max_hlc ≡ false
    → (absorb_max now m).clock ≡ (hlc_absorb now m.max_hlc m.db.clock).0
unfolding absorb_max
absorb_max-clock now m e = rw e refl

with_guard-clock :
    (f : Db → Db) (db : Db) → (with_guard f db).clock ≡ (f (record db { applying = true })).clock
unfolding with_guard
with_guard-clock f db = ground arith

apply_changes-clock :
    (now t d : ℕ) (cs : List Change) (db : Db) (m : Merge)
    → t < 10 ^ 15
    → d < 10 ^ 6
    → merge_all now cs (record db { applying = true }) ≡ m
    → End t d (start (record db { applying = true })) cs m
    → (apply_changes now cs db).clock ≡ (hlc_absorb now m.max_hlc db.clock).0
unfolding apply_changes
apply_changes-clock now t d cs db m a b e k =
    with_guard-clock (λ x. absorb_max now (merge_all now cs x)) db
    ∙ ap (λ x. (absorb_max now x).clock) e
    ∙ absorb_max-clock now m (ClockText-nonempty t d m.max_hlc k.stamp_end a b)
    ∙ ap (λ x. (hlc_absorb now m.max_hlc x).0) k.clock_end

below_lt : (m s x : Text) → text_ltb m x ≡ false → text_ltb m s ≡ true → text_ltb x s ≡ true
below_lt m s x h k = ground (arith, text_ltb_trans x m s, text_ltb_total m x)

All-Below :
    (m s : Text) (cs : List Change)
    → text_ltb m s ≡ true
    → All (Below m) cs
    → All (λ (x : Change). text_ltb x.hlc s ≡ true) cs
All-Below m s [] k h = tt
All-Below m s (c ∷ cs) k h = (below_lt m s c.hlc h.0 k, All-Below m s cs k h.1)

-- After a merge, the next local write is stamped with a text that is greater than each text of the
-- merged changes, so that the last writer is the local one. The changes are of replicated tables,
-- their times and counters are at most `t` and `d`, and the widths of the text hold the values.
pub advance-after-apply_changes :
    (now later t d p c : ℕ) (cs : List Change) (db : Db)
    → db.clock ≡ clock_at db.clock.node_id p c
    → All (Clocked t d) cs
    → max (max (max p t) now) later < 10 ^ 15
    → max c d + 2 < 10 ^ 6
    → All
        (λ (x : Change). text_ltb x.hlc (advance later (apply_changes now cs db).clock).1 ≡ true)
        cs
advance-after-apply_changes now later t d p c [] db e h a b = tt
advance-after-apply_changes now later t d p c (x ∷ cs) db e h a b =
    All-Below m.max_hlc (advance later (apply_changes now (x ∷ cs) db).clock).1 (x ∷ cs)
      (subst (λ k. text_ltb m.max_hlc (advance later k).1 ≡ true) (sym clock_eq)
        (absorbed_lt now later t d p c db.clock.node_id m.max_hlc end.stamp_end a b))
      end.all_le
  where
    m : Merge
    m = merge_all now (x ∷ cs) (record db { applying = true })

    end : End t d (start (record db { applying = true })) (x ∷ cs) m
    end = merge_all-End now t d x cs (record db { applying = true }) refl h

    clock_eq :
        (apply_changes now (x ∷ cs) db).clock
        ≡ (hlc_absorb now m.max_hlc (clock_at db.clock.node_id p c)).0
    clock_eq =
        apply_changes-clock now t d (x ∷ cs) db m (omega (arith, a)) (omega (arith, b)) refl end
        ∙ ap (λ k. (hlc_absorb now m.max_hlc k).0) e
