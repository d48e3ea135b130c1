-- ===== src/Sync/Merge/Loop.antt =====
-- The loop of `apply_changes`: what it does to the clock and to `max_hlc`.
use thread_keeper.Common.{
  Bool-cases, All, Text, text_ltb, text_ltb_irrefl, text_ltb_trans, text_ltb_total, text_max,
  text_max_nil, ℕ, ◌≤◌, ◌≡◌, refl, sym, ap, ◌∙◌, subst, inl, inr, true, false, Option, none, some,
  List, [], ◌∷◌, foldl, arith,
}
use thread_keeper.Common.Int.{pos}
use thread_keeper.Sync.Clock.{fmt_hlc}
use thread_keeper.Sync.Table.{Value, Row, Db, key_of}
use thread_keeper.Sync.Protocol.{Change, put_row, del_gid, Body}
use thread_keeper.Sync.Capture.{insert_or_replace, delete_rows, key_vals, key_cols}
use thread_keeper.Sync.Merge.{
  Merge, start, apply_change, merge_all, is_unknown, apply_del, restore, upsert, apply_body,
  apply_put, delete_older,
}
use thread_keeper.Sync.Merge.Puts.{insert-rows}
use thread_keeper.Sync.Merge.Join.{apply_body-applying}

-- A clock text of a time of at most `t` and a counter of at most `d`.
pub record ClockText (t d : ℕ) (s : Text) : Type 0 where
  pub time : ℕ
  pub count : ℕ
  pub node : Text
  pub is_text : s ≡ fmt_hlc (pos time) (pos count) node
  pub time_le : time ≤ t
  pub count_le : count ≤ d

-- What merging a row or a deletion leaves alone, under the guard.
pub record Kept (m m' : Merge) : Type 0 where
  pub clock_same : m'.db.clock ≡ m.db.clock
  pub applying_same : m'.db.applying ≡ true
  pub max_same : m'.max_hlc ≡ m.max_hlc

restore-clock :
    (u : Text) (key : List Value) (o : Option (Value × Value)) (db : Db)
    → (restore u key o db).clock ≡ db.clock
unfolding restore
restore-clock u key none db = refl
restore-clock u key (some p) db = refl

upsert-clock :
    (now : ℕ) (u : Text) (row : Row) (db : Db)
    → db.applying ≡ true
    → (upsert now u row db).clock ≡ db.clock
unfolding upsert
upsert-clock now u row db g =
    restore-clock u (key_vals (key_cols (key_of u)) row) _ (insert_or_replace now u row db)
    ∙ ap (λ d. d.clock) (insert-rows now u row db g)

apply_put-clock :
    (now : ℕ) (u h : Text) (row : Row) (m : Merge)
    → m.db.applying ≡ true
    → (apply_put now u row h m).db.clock ≡ m.db.clock
unfolding apply_put
apply_put-clock now u h row m g = ground (arith, upsert-clock now u row m.db g)

apply_put-max :
    (now : ℕ) (u h : Text) (row : Row) (m : Merge) → (apply_put now u row h m).max_hlc ≡ m.max_hlc
unfolding apply_put
apply_put-max now u h row m = ground arith

apply_del-clock :
    (now : ℕ) (u gid h o : Text) (m : Merge)
    → m.db.applying ≡ true
    → (apply_del now u gid h o m).db.clock ≡ m.db.clock
unfolding apply_del delete_older delete_rows
apply_del-clock now u gid h o m g = ground arith

apply_del-max :
    (now : ℕ) (u gid h o : Text) (m : Merge) → (apply_del now u gid h o m).max_hlc ≡ m.max_hlc
unfolding apply_del
apply_del-max now u gid h o m = refl

apply_body-Kept :
    (now : ℕ) (u h o : Text) (b : Body) (m : Merge)
    → m.db.applying ≡ true
    → Kept m (apply_body now u h o b m)
apply_body-Kept now u h o (put_row row) m g = record {
  clock_same = apply_put-clock now u h row m g;
  applying_same = apply_body-applying now u h o (put_row row) m g;
  max_same = apply_put-max now u h row m;
}
apply_body-Kept now u h o (del_gid gid) m g = record {
  clock_same = apply_del-clock now u gid h o m g;
  applying_same = apply_body-applying now u h o (del_gid gid) m g;
  max_same = apply_del-max now u gid h o m;
}

apply_change-Kept :
    (now : ℕ) (m : Merge) (c : Change)
    → is_unknown (key_of c.tbl) ≡ false
    → m.db.applying ≡ true
    → Kept (record m { max_hlc = text_max m.max_hlc c.hlc }) (apply_change now m c)
unfolding apply_change
apply_change-Kept now m c e g = rw e (
    apply_body-Kept now c.tbl c.hlc c.origin c.body
      (record m { max_hlc = text_max m.max_hlc c.hlc }) g)

-- A change of a replicated table, with such a clock text.
abbrev pub Clocked : ℕ → ℕ → Change → Type 0
Clocked t d c = (is_unknown (key_of c.tbl) ≡ false) × ClockText t d c.hlc

abbrev pub Below : Text → Change → Type 0
Below s c = text_ltb s c.hlc ≡ false

ClockText-max :
    (t d : ℕ) (r s : Text) → ClockText t d r → ClockText t d s → ClockText t d (text_max r s)
ClockText-max t d r s f g = elim (Bool-cases (text_ltb r s)) [ inl e ↦ rw e g | inr e ↦ rw e f ]

-- The end of the loop, from a `max_hlc` that is a clock text.
pub record End (t d : ℕ) (m : Merge) (cs : List Change) (m' : Merge) : Type 0 where
  pub clock_end : m'.db.clock ≡ m.db.clock
  pub stamp_end : ClockText t d m'.max_hlc
  pub start_le : text_ltb m'.max_hlc m.max_hlc ≡ false
  pub all_le : All (Below m'.max_hlc) cs

-- What is not below a maximum is below neither of its parts.
below_parts :
    (m r s : Text)
    → text_ltb m (text_max r s) ≡ false
    → (text_ltb m r ≡ false) × (text_ltb m s ≡ false)
below_parts m r s h = ground (arith, text_ltb_trans m r s, text_ltb_trans m s r, text_ltb_total r s)

End-step :
    (t d : ℕ) (m m1 m' : Merge) (c : Change) (cs : List Change)
    → Kept (record m { max_hlc = text_max m.max_hlc c.hlc }) m1
    → End t d m1 cs m'
    → End t d m (c ∷ cs) m'
End-step t d m m1 m' c cs kept rest = record {
  clock_end = rest.clock_end ∙ kept.clock_same;
  stamp_end = rest.stamp_end;
  start_le = parts.0;
  all_le = (parts.1, rest.all_le);
}
  where
    parts : (text_ltb m'.max_hlc m.max_hlc ≡ false) × (text_ltb m'.max_hlc c.hlc ≡ false)
    parts =
        below_parts m'.max_hlc m.max_hlc c.hlc
          (subst (λ x. text_ltb m'.max_hlc x ≡ false) kept.max_same rest.start_le)

fold-End :
    (now t d : ℕ) (cs : List Change) (m : Merge)
    → m.db.applying ≡ true
    → ClockText t d m.max_hlc
    → All (Clocked t d) cs
    → End t d m cs (foldl (apply_change now) m cs)
fold-End now t d [] m g s h = record {
  clock_end = refl;
  stamp_end = s;
  start_le = text_ltb_irrefl m.max_hlc;
  all_le = tt;
}
fold-End now t d (c ∷ cs) m g s h =
    let kept = apply_change-Kept now m c h.0.0 g in
    End-step t d m (apply_change now m c) _ c cs kept (
      fold-End now t d cs (apply_change now m c) kept.applying_same
        (subst (ClockText t d) (sym kept.max_same) (ClockText-max t d m.max_hlc c.hlc s h.0.1)) h.1)

-- The whole loop, for a changeset that is not empty.
pub merge_all-End :
    (now t d : ℕ) (c : Change) (cs : List Change) (db : Db)
    → db.applying ≡ true
    → All (Clocked t d) (c ∷ cs)
    → End t d (start db) (c ∷ cs) (merge_all now (c ∷ cs) db)
unfolding merge_all
merge_all-End now t d c cs db g h =
    let kept = apply_change-Kept now (start db) c h.0.0 g in
    End-step t d (start db) (apply_change now (start db) c) _ c cs kept (
      fold-End now t d cs (apply_change now (start db) c) kept.applying_same
        (subst (ClockText t d) (sym (kept.max_same ∙ text_max_nil c.hlc)) h.0.1) h.1)
