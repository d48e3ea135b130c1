-- ===== src/Common/Strings.antt =====
-- Python's `str` as its list of code points, with the operations of `str` that the program uses.
-- `lower` changes ASCII letters only: the program's keywords are ASCII.
use Prim.Native.Char.{code}
use Prim.Native.String.{String}
use Prim.Native.Nat.{ℕ, ◌+◌}
use mathlib.Core.Path.{◌≡◌, refl}
use mathlib.Core.Logic.{◌↔◌}
use mathlib.Core.Bool.{Bool, true, false, not, ◌&&◌, ◌||◌}
use mathlib.Core.List.{List, [], ◌∷◌, ◌++◌, map, reverse}
use mathlib.Core.Option.{Option, none, some}
use native.Mathlib.Omega.{arith}
use thread_keeper.Common.Tests.{leb, ltb, nat_beq, nat_beq_iff, if◌then◌else◌, Equality}

abbrev pub Text : Type 0
Text = List ℕ

-- The code points of a literal.
abbrev pub codes : String → Text
codes String.[] = []
codes (String.◌∷◌ c s) = code c ∷ codes s

abbrev pub text_beq : Text → Text → Bool
text_beq [] [] = true
text_beq (x ∷ xs) (y ∷ ys) = nat_beq x y && text_beq xs ys
text_beq _ _ = false

pub text_beq_iff : (s t : Text) → (text_beq s t ≡ true) ↔ (s ≡ t)
text_beq_iff [] [] = (λ _. refl, λ _. refl)
text_beq_iff [] (y ∷ ys) = ground arith
text_beq_iff (x ∷ xs) [] = ground arith
text_beq_iff (x ∷ xs) (y ∷ ys) = ground (arith, nat_beq_iff x y, text_beq_iff xs ys)

instance abbrev pub text_eq : Equality Text
text_eq = record { equal = text_beq; equal_iff = text_beq_iff }

-- `not s`
abbrev pub is_empty {ℓ} : {A : Type ℓ} → List A → Bool
is_empty [] = true
is_empty (x ∷ xs) = false

unfoldable pub is_space : ℕ → Bool
is_space c =
    (leb 9 c && leb c 13)
    || (leb 28 c && leb c 32)
    || nat_beq c 133
    || nat_beq c 160
    || nat_beq c 5760
    || (leb 8192 c && leb c 8202)
    || nat_beq c 8232
    || nat_beq c 8233
    || nat_beq c 8239
    || nat_beq c 8287
    || nat_beq c 12288

unfoldable pub lstrip : Text → Text
unfolding is_space
lstrip [] = []
lstrip (c ∷ s) = if is_space c then lstrip s else c ∷ s

unfoldable pub strip : Text → Text
unfolding lstrip
strip s = reverse (lstrip (reverse (lstrip s)))

abbrev pub lower_char : ℕ → ℕ
lower_char c = if leb 65 c && leb c 90 then c + 32 else c

unfoldable pub lower : Text → Text
lower = map lower_char

-- `s.startswith(p)`: what stands behind the prefix `p`, if `s` begins with it.
abbrev pub after_prefix : Text → Text → Option Text
after_prefix [] s = some s
after_prefix (x ∷ p) [] = none
after_prefix (x ∷ p) (y ∷ s) = if nat_beq x y then after_prefix p s else none

pub after_prefix-append : (p s : Text) → after_prefix p (p ++ s) ≡ some s
after_prefix-append [] s = refl
after_prefix-append (x ∷ p) s = ground (arith, nat_beq_iff x x, after_prefix-append p s)

-- `s < t` on texts, by code points.
abbrev pub text_ltb : Text → Text → Bool
text_ltb s [] = false
text_ltb [] (y ∷ t) = true
text_ltb (x ∷ s) (y ∷ t) = if ltb x y then true else nat_beq x y && text_ltb s t

pub text_ltb_irrefl : (s : Text) → text_ltb s s ≡ false
text_ltb_irrefl [] = refl
text_ltb_irrefl (x ∷ s) = ground (arith, text_ltb_irrefl s)

pub text_ltb_trans :
    (s t u : Text) → text_ltb s t ≡ true → text_ltb t u ≡ true → text_ltb s u ≡ true
text_ltb_trans s t [] h k = cc
text_ltb_trans s [] (z ∷ u) h k = ground arith
text_ltb_trans [] (y ∷ t) (z ∷ u) h k = refl
text_ltb_trans (x ∷ s) (y ∷ t) (z ∷ u) h k = ground (arith, text_ltb_trans s t u)

pub text_ltb_total : (s t : Text) → text_ltb s t ≡ false → text_ltb t s ≡ false → s ≡ t
text_ltb_total [] [] h k = refl
text_ltb_total [] (y ∷ t) h k = cc
text_ltb_total (x ∷ s) [] h k = cc
text_ltb_total (x ∷ s) (y ∷ t) h k = ground (arith, text_ltb_total s t)

pub text_ltb_nil : (s : Text) → text_ltb [] s ≡ not (is_empty s)
text_ltb_nil [] = refl
text_ltb_nil (x ∷ s) = refl

-- `max(s, t)`
abbrev pub text_max : Text → Text → Text
text_max s t = if text_ltb s t then t else s

pub text_max_assoc : (s t u : Text) → text_max (text_max s t) u ≡ text_max s (text_max t u)
text_max_assoc s t u =
    ground
      (arith, text_ltb_trans s t u, text_ltb_trans t s u, text_ltb_total s t, text_ltb_total t u)

pub text_max_comm : (s t : Text) → text_max s t ≡ text_max t s
text_max_comm s t = ground (arith, text_ltb_total s t, text_ltb_trans s t s, text_ltb_irrefl s)

pub text_max_idem : (s : Text) → text_max s s ≡ s
text_max_idem s = ground arith

pub text_max_nil : (s : Text) → text_max [] s ≡ s
text_max_nil [] = refl
text_max_nil (x ∷ s) = refl

pub text_max_nil_right : (s : Text) → text_max s [] ≡ s
text_max_nil_right s = refl
