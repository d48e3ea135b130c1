-- ===== src/Sync/Clock/Order.antt =====
-- The texts of clock values compare as the values do, while these fit their widths.
use thread_keeper.Common.{
  ltb, nat_beq, if◌then◌else◌, Text, text_ltb, ℕ, ◌^◌, ◌<◌, ◌≡◌, ◌∙◌, Bool, true, ◌&&◌, ◌∷◌, ◌++◌,
  arith,
}
use thread_keeper.Common.Int.{pos}
use thread_keeper.Sync.Clock.{fmt_hlc}
use thread_keeper.Sync.Decimal.{text_ltb-pad, fmt_int, pad, fmt_nat-eq-pad}
use mathlib.Core.List.{append_assoc}

-- A value that fits: 15 digits of milliseconds, 6 of the counter.
pub record Fits (phys counter : ℕ) : Type 0 where
  pub phys_lt : phys < 10 ^ 15
  pub counter_lt : counter < 10 ^ 6

pub fmt_hlc-Fits :
    (p c : ℕ) (node : Text)
    → Fits p c
    → fmt_hlc (pos p) (pos c) node ≡ pad 15 p ++ (b':' ∷ (pad 6 c ++ (b':' ∷ node)))
unfolding fmt_hlc fmt_int
fmt_hlc-Fits p c node f =
    rw (fmt_nat-eq-pad 14 p f.phys_lt, fmt_nat-eq-pad 5 c f.counter_lt) (simp append_assoc)

-- `a` before `b` in the order of clock values: by time, then by counter, then by node.
abbrev pub hlc_ltb : ℕ → ℕ → Text → ℕ → ℕ → Text → Bool
hlc_ltb p c n q d m =
    if ltb p q then true else nat_beq p q && (if ltb c d then true else nat_beq c d && text_ltb n m)

-- Comparing the texts of two clock values, as SQLite and Python do to pick the last writer, is
-- comparing time, then counter, then node, as long as the times have at most 15 digits and the
-- counters at most 6.
pub text_ltb-fmt_hlc :
    (p c : ℕ) (n : Text) (q d : ℕ) (m : Text)
    → Fits p c
    → Fits q d
    → text_ltb (fmt_hlc (pos p) (pos c) n) (fmt_hlc (pos q) (pos d) m) ≡ hlc_ltb p c n q d m
text_ltb-fmt_hlc p c n q d m f g =
    rw (fmt_hlc-Fits p c n f, fmt_hlc-Fits q d m g)
      (text_ltb-pad 15 p q (b':' ∷ (pad 6 c ++ (b':' ∷ n))) (b':' ∷ (pad 6 d ++ (b':' ∷ m)))
          f.phys_lt g.phys_lt
        ∙ ground (arith, text_ltb-pad 6 c d (b':' ∷ n) (b':' ∷ m) f.counter_lt g.counter_lt))
