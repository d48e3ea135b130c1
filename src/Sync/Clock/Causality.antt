-- ===== src/Sync/Clock/Causality.antt =====
-- Causality: what a node writes is later than all that it has written and received.
use thread_keeper.Common.{
  ltb, nat_beq, if◌then◌else◌, Text, text_ltb, ℕ, ◌+◌, ◌^◌, ◌≤◌, ◌<◌, max, ◌≡◌, refl, ◌∙◌, ◌⊎◌,
  true, ◌&&◌, arith,
}
use thread_keeper.Common.Int.{pos, ◌+ℤ◌, max_ℤ}
use thread_keeper.Sync.Clock.{hlc_now, advance, hlc_absorb, Clock, absorb, fmt_hlc, absorb_counter}
use thread_keeper.Sync.Clock.Order.{Fits, text_ltb-fmt_hlc}
use thread_keeper.Sync.Clock.Parse.{parse_hlc-fmt_hlc}

-- The clock of a node whose fields hold natural numbers, as they do from the start.
abbrev pub clock_at : Text → ℕ → ℕ → Clock
clock_at node p c = record { node_id = node; phys = pos p; counter = pos c }

-- A clock of `node` that is later than (p, c), as a pair of numbers, by at most `room` milliseconds
-- past `top` and with a counter of at most `most`.
pub record After (node : Text) (p c top most : ℕ) (k : Clock) : Type 0 where
  pub q : ℕ
  pub d : ℕ
  pub is_at : k ≡ clock_at node q d
  pub later : (p < q) ⊎ ((p ≡ q) × (c < d))
  pub q_le : q ≤ top
  pub d_le : d ≤ most

-- Each rule moves the clock forward, and the counter grows by at most one.
pub hlc_now-After :
    (now : ℕ) (node : Text) (p c : ℕ)
    → After node p c (max p now) (c + 1) (hlc_now now (clock_at node p c)).0
unfolding hlc_now ◌+ℤ◌
hlc_now-After now node p c = record {
  q = max p now;
  d = if ltb p now then 0 else c + 1;
  is_at = ground arith;
  later = ground arith;
  q_le = omega arith;
  d_le = ground arith;
}

pub advance-After :
    (now : ℕ) (node : Text) (p c : ℕ)
    → After node p c (max p now) (c + 1) (advance now (clock_at node p c)).0
unfolding advance ◌+ℤ◌
advance-After now node p c = record {
  q = max p now;
  d = if ltb p now then 0 else c + 1;
  is_at = ground arith;
  later = ground arith;
  q_le = omega arith;
  d_le = ground arith;
}

-- The counter that `absorb` picks for the time `t`, as a number.
abbrev next : ℕ → ℕ → ℕ → ℕ → ℕ → ℕ
next t p c q d =
    if nat_beq t p && nat_beq t q
    then max c d + 1
    else if nat_beq t p
    then c + 1
    else if nat_beq t q
    then d + 1
    else 0

max_ℤ_pos : (p q : ℕ) → max_ℤ (pos p) (pos q) ≡ pos (max p q)
max_ℤ_pos p q = ground arith

absorb_counter_pos :
    (t p c q d : ℕ) → absorb_counter (pos t) (pos p) (pos c) (pos q) (pos d) ≡ pos (next t p c q d)
unfolding ◌+ℤ◌
absorb_counter_pos t p c q d = ground arith

absorb_at :
    (now : ℕ) (node : Text) (p c q d : ℕ)
    → absorb now (pos q) (pos d) (clock_at node p c)
      ≡ clock_at node (max (max p q) now) (next (max (max p q) now) p c q d)
unfolding absorb
absorb_at now node p c q d =
    rw (max_ℤ_pos p q, max_ℤ_pos (max p q) now, absorb_counter_pos (max (max p q) now) p c q d) refl

-- Receiving moves the clock past its own value and past the value received.
pub absorb-After :
    (now : ℕ) (node : Text) (p c q d : ℕ)
    → After node p c
        (max (max p q) now)
        (max c d + 1)
        (absorb now (pos q) (pos d) (clock_at node p c))
      × After node q d
          (max (max p q) now)
          (max c d + 1)
          (absorb now (pos q) (pos d) (clock_at node p c))
absorb-After now node p c q d = (
  record {
    q = max (max p q) now;
    d = next (max (max p q) now) p c q d;
    is_at = absorb_at now node p c q d;
    later = ground arith;
    q_le = omega arith;
    d_le = ground arith;
  },
  record {
    q = max (max p q) now;
    d = next (max (max p q) now) p c q d;
    is_at = absorb_at now node p c q d;
    later = ground arith;
    q_le = omega arith;
    d_le = ground arith;
  },
)

-- The text of a value that is later, and fits, is greater.
text_ltb-later :
    (p c : ℕ) (n : Text) (q d : ℕ) (m : Text)
    → Fits p c
    → Fits q d
    → (p < q) ⊎ ((p ≡ q) × (c < d))
    → text_ltb (fmt_hlc (pos p) (pos c) n) (fmt_hlc (pos q) (pos d) m) ≡ true
text_ltb-later p c n q d m f g h = text_ltb-fmt_hlc p c n q d m f g ∙ ground arith

advance_at :
    (now : ℕ) (node : Text) (p c : ℕ)
    → (advance now (clock_at node p c)).1
      ≡ fmt_hlc (pos (max p now)) (pos (if ltb p now then 0 else c + 1)) node
unfolding advance ◌+ℤ◌
advance_at now node p c = ground arith

pub hlc_absorb_at :
    (now : ℕ) (node origin : Text) (p c q d : ℕ)
    → Fits q d
    → (hlc_absorb now (fmt_hlc (pos q) (pos d) origin) (clock_at node p c)).0
      ≡ clock_at node (max (max p q) now) (next (max (max p q) now) p c q d)
unfolding hlc_absorb
hlc_absorb_at now node origin p c q d f =
    rw (parse_hlc-fmt_hlc q d origin f) (absorb_at now node p c q d)

-- A local write, after a remote value is absorbed, is stamped with a text that is greater than the
-- remote text and than the text of the clock before, so that the last writer is the local one. The
-- times have at most 15 digits, and the counters are at least two below their bound of 10 ^ 6.
pub advance-after-hlc_absorb :
    (now later : ℕ) (node origin : Text) (p c q d : ℕ)
    → max (max (max p q) now) later < 10 ^ 15
    → max c d + 2 < 10 ^ 6
    → (text_ltb
          (fmt_hlc (pos q) (pos d) origin)
          (advance later (hlc_absorb now (fmt_hlc (pos q) (pos d) origin) (clock_at node p c)).0).1
        ≡ true)
      × (text_ltb
            (fmt_hlc (pos p) (pos c) node)
            (advance later
              (hlc_absorb now (fmt_hlc (pos q) (pos d) origin) (clock_at node p c)).0).1
          ≡ true)
advance-after-hlc_absorb now later node origin p c q d t_lt c_lt =
    rw
      (
        hlc_absorb_at now node origin p c q d f,
        advance_at later node (max (max p q) now) (next (max (max p q) now) p c q d),
      )
      (
        text_ltb-later q d origin _ _ node f h (ground arith),
        text_ltb-later p c node _ _ node g h (ground arith),
      )
  where
    f : Fits q d
    f = record { phys_lt = omega arith; counter_lt = omega arith }

    g : Fits p c
    g = record { phys_lt = omega arith; counter_lt = omega arith }

    h :
        Fits
          (max (max (max p q) now) later)
          (if ltb (max (max p q) now) later then 0 else next (max (max p q) now) p c q d + 1)
    h = record { phys_lt = omega arith; counter_lt = ground arith }
