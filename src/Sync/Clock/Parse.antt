-- ===== src/Sync/Clock/Parse.antt =====
-- `parse_hlc` reads back what `_fmt` wrote.
use thread_keeper.Common.{
  All, Text, lstrip, strip, ℕ, zero, suc, ◌+◌, ◌/◌, ◌%◌, ◌^◌, ◌<◌, ◌≡◌, refl, sym, ap, ◌∙◌, true,
  false, Option, none, some, [], ◌∷◌, ◌++◌, reverse, arith,
}
use mathlib.Core.List.{reverse-cons, reverse-reverse, append-nil}
use thread_keeper.Common.Int.{pos}
use thread_keeper.Sync.Decimal.{digits_from, pad, int_of, is_digit, signed, digits_from-pad}
use thread_keeper.Sync.Clock.{parse_hlc, split_colon, fmt_hlc, split_step}
use thread_keeper.Sync.Clock.Order.{Fits, fmt_hlc-Fits}

abbrev Digits : Text → Type 0
Digits = All (λ c. is_digit c ≡ true)

Digits-append : (s t : Text) → Digits s → Digits t → Digits (s ++ t)
Digits-append [] t h k = k
Digits-append (c ∷ s) t h k = (h.0, Digits-append s t h.1 k)

Digits-pad : (w n : ℕ) → Digits (pad w n)
unfolding pad
Digits-pad zero n = tt
Digits-pad (suc w) n =
    Digits-append (pad w (n / 10)) ((48 + n % 10) ∷ []) (Digits-pad w (n / 10)) (ground arith, tt)

Digits-reverse : (s : Text) → Digits s → Digits (reverse s)
Digits-reverse [] h = tt
Digits-reverse (c ∷ s) h =
    rw (reverse-cons c s) (Digits-append (reverse s) (c ∷ []) (Digits-reverse s h.1) (h.0, tt))

lstrip-Digits : (s : Text) → Digits s → lstrip s ≡ s
unfolding lstrip
lstrip-Digits [] h = refl
lstrip-Digits (c ∷ s) h = ground arith

strip-Digits : (s : Text) → Digits s → strip s ≡ s
unfolding strip
strip-Digits s h =
    rw (lstrip-Digits s h, lstrip-Digits (reverse s) (Digits-reverse s h)) (reverse-reverse s)

split_step-colon : (t : Text) (o : Option (Text × Text)) → split_step b':' t o ≡ some ([], t)
split_step-colon t none = refl
split_step-colon t (some p) = refl

split_colon-Digits : (s t : Text) → Digits s → split_colon (s ++ (b':' ∷ t)) ≡ some (s, t)
unfolding split_colon
split_colon-Digits [] t h = split_step-colon t (split_colon t)
split_colon-Digits (c ∷ s) t h = rw (split_colon-Digits s t h.1) (ground arith)

signed-Digits :
    (s : Text) (n : ℕ) → Digits s → digits_from 0 false s ≡ some n → signed s ≡ some (pos n)
signed-Digits [] n h e = absurd (unfold digits_from in (cc e))
signed-Digits (c ∷ s) n h e = ground arith

int_of-pad : (w n : ℕ) → n < 10 ^ suc w → int_of (pad (suc w) n) ≡ some (pos n)
unfolding int_of
int_of-pad w n h =
    rw (strip-Digits (pad (suc w) n) (Digits-pad (suc w) n))
      (signed-Digits (pad (suc w) n) n (Digits-pad (suc w) n) read)
  where
    read : digits_from 0 false (pad (suc w) n) ≡ some n
    read =
        ap (digits_from 0 false) (sym (append-nil (pad (suc w) n)))
        ∙ digits_from-pad w n 0 false [] h
        ∙ (unfold digits_from in ap some (omega arith))

-- A clock value that fits its widths is read back from its text.
pub parse_hlc-fmt_hlc :
    (p c : ℕ) (node : Text)
    → Fits p c
    → parse_hlc (fmt_hlc (pos p) (pos c) node) ≡ (pos p, pos c, node)
unfolding parse_hlc
parse_hlc-fmt_hlc p c node f =
    rw
      (
        fmt_hlc-Fits p c node f,
        split_colon-Digits (pad 15 p) (pad 6 c ++ (b':' ∷ node)) (Digits-pad 15 p),
        split_colon-Digits (pad 6 c) node (Digits-pad 6 c),
        int_of-pad 14 p f.phys_lt,
        int_of-pad 5 c f.counter_lt,
      )
      refl
