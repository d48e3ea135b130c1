-- ===== src/Sync/Decimal.antt =====
-- The integers inside a clock text: `f"{n:0{w}d}"` and `int(s)` (sync/identity.py). `int` is
-- modelled on ASCII digits, with the blanks, the sign and the single underscores that it accepts.
use thread_keeper.Common.{
  ltb, leb, nat_beq, if◌then◌else◌, length, length-append, Text, text_ltb, strip, ℕ, zero, suc, ◌+◌,
  ◌-◌, ◌*◌, ◌/◌, ◌%◌, ◌^◌, ◌≤◌, ◌<◌, max, ◌≡◌, refl, sym, ap, ◌∙◌, Bool, true, false, ◌&&◌, Option,
  none, some, [], ◌∷◌, ◌++◌, arith,
}
use thread_keeper.Common.Int.{ℤ, pos, negsuc}
use mathlib.Core.Option
use native.Mathlib.Nat.{pow-suc}
use mathlib.Core.List.{append_assoc}

unfoldable pub pad : ℕ → ℕ → Text
pad zero n = []
pad (suc w) n = pad w (n / 10) ++ (48 + n % 10) ∷ []

-- The number of decimal digits, with fuel `n`.
unfoldable pub num_digits : ℕ → ℕ → ℕ
num_digits zero n = 1
num_digits (suc fuel) n = let rest = num_digits fuel (n / 10) in if ltb n 10 then 1 else suc rest

unfoldable pub fmt_nat : ℕ → ℕ → Text
unfolding pad num_digits
fmt_nat w n = pad (max w (num_digits n n)) n

-- The sign counts in the width.
unfoldable pub fmt_int : ℕ → ℤ → Text
unfolding fmt_nat
fmt_int w (pos n) = fmt_nat w n
fmt_int w (negsuc n) = b'-' ∷ fmt_nat (w - 1) (suc n)

abbrev pub is_digit : ℕ → Bool
is_digit c = leb 48 c && leb c 57

unfoldable pub digits_from : ℕ → Bool → Text → Option ℕ
digits_from acc after_digit [] = if after_digit then some acc else none
digits_from acc after_digit (c ∷ s) =
    let digit = digits_from (acc * 10 + (c - 48)) true s in
    let underscore = digits_from acc false s in
    if is_digit c then digit else if nat_beq c b'_' && after_digit then underscore else none

abbrev pub negate : ℕ → ℤ
negate zero = pos 0
negate (suc n) = negsuc n

abbrev pub signed : Text → Option ℤ
signed [] = none
signed (c ∷ s) =
    if nat_beq c b'-'
    then Option.map negate (digits_from 0 false s)
    else if nat_beq c b'+'
    then Option.map pos (digits_from 0 false s)
    else Option.map pos (digits_from 0 false (c ∷ s))

unfoldable pub int_of : Text → Option ℤ
unfolding digits_from
int_of s = signed (strip s)

pub num_digits-le : (fuel w n : ℕ) → n < 10 ^ suc w → num_digits fuel n ≤ suc w
unfolding num_digits
num_digits-le zero w n h = omega arith
num_digits-le (suc fuel) zero n h = ground arith
num_digits-le (suc fuel) (suc w) n h =
    ground (arith, num_digits-le fuel w (n / 10), pow-suc 10 (suc w))

-- Fixed-width decimals compare as their numbers, and then as what follows them.
pub text_ltb-pad :
    (w a b : ℕ) (s t : Text)
    → a < 10 ^ w
    → b < 10 ^ w
    → text_ltb (pad w a ++ s) (pad w b ++ t)
      ≡ (if ltb a b then true else nat_beq a b && text_ltb s t)
unfolding pad
text_ltb-pad zero a b s t h k = ground arith
text_ltb-pad (suc w) a b s t h k = simp append_assoc (
    text_ltb-pad w (a / 10) (b / 10) ((48 + a % 10) ∷ s) ((48 + b % 10) ∷ t)
      (omega (arith, pow-suc 10 w)) (omega (arith, pow-suc 10 w))
    ∙ ground arith)

pub length-pad : (w n : ℕ) → length (pad w n) ≡ w
unfolding pad
length-pad zero n = refl
length-pad (suc w) n =
    omega (arith, length-append (pad w (n / 10)) ((48 + n % 10) ∷ []), length-pad w (n / 10))

-- A number within the width is written with exactly that many digits.
pub fmt_nat-eq-pad : (w n : ℕ) → n < 10 ^ suc w → fmt_nat (suc w) n ≡ pad (suc w) n
unfolding fmt_nat
fmt_nat-eq-pad w n h = rw (max_eq (num_digits n n) w (num_digits-le n w n h)) refl
  where
    max_eq : (d w : ℕ) → d ≤ suc w → max (suc w) d ≡ suc w
    max_eq d w l = omega arith

digits_from-digit :
    (acc d : ℕ) (b : Bool) (s : Text)
    → d < 10
    → digits_from acc b ((48 + d) ∷ s) ≡ digits_from (acc * 10 + d) true s
unfolding digits_from
digits_from-digit acc d b s h =
    let e : 48 + d - 48 ≡ d = omega arith in
    let l : is_digit (48 + d) ≡ true = ground arith in rw (l, e) refl

shift : (acc p n : ℕ) → (acc * p + n / 10) * 10 + n % 10 ≡ acc * (p * 10) + n
shift acc p n = omega arith

-- Reading the digits of a fixed-width decimal adds them to what was read before.
pub digits_from-pad :
    (w n acc : ℕ) (b : Bool) (s : Text)
    → n < 10 ^ suc w
    → digits_from acc b (pad (suc w) n ++ s) ≡ digits_from (acc * 10 ^ suc w + n) true s
unfolding pad
digits_from-pad zero n acc b s h =
    digits_from-digit acc (n % 10) b s (omega arith) ∙ ap (λ k. digits_from k true s) (omega arith)
digits_from-pad (suc w) n acc b s h = rw append_assoc (
    digits_from-pad w (n / 10) acc b ((48 + n % 10) ∷ s) (omega (arith, pow-suc 10 (suc w)))
    ∙ digits_from-digit (acc * 10 ^ suc w + n / 10) (n % 10) true s (omega arith)
    ∙ ap (λ k. digits_from k true s)
        (shift acc (10 ^ suc w) n ∙ ap (λ p. acc * p + n) (sym (pow-suc 10 (suc w)))))
