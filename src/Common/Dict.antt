-- ===== src/Common/Dict.antt =====
-- Python's `dict` as an association list, in the order of insertion, and `None`.
use mathlib.Core.Path.{◌≡◌, refl}
use mathlib.Core.Bool.{Bool, true, false}
use mathlib.Core.List.{List, [], ◌∷◌}
use mathlib.Core.Option.{Option, none, some}
use native.Mathlib.Omega.{arith}
use thread_keeper.Common.Tests.{if◌then◌else◌, Equality, ◌==◌}

abbrev pub is_none {ℓ} : {A : Type ℓ} → Option A → Bool
is_none none = true
is_none (some a) = false

-- `o if o is not None else a`
abbrev pub default {ℓ} : {A : Type ℓ} → A → Option A → A
default a none = a
default a (some b) = b

module _ {ℓ κ} {K : Type κ} {A : Type ℓ} ⦃e : Equality K⦄ where
  -- `d.get(k)`
  abbrev pub lookup : K → List (K × A) → Option A
  lookup k [] = none
  lookup k ((j, a) ∷ d) = if j == k then some a else lookup k d

  -- `d[k] = a`
  abbrev pub assign : K → A → List (K × A) → List (K × A)
  assign k a [] = (k, a) ∷ []
  assign k a ((j, b) ∷ d) = if j == k then (k, a) ∷ d else (j, b) ∷ assign k a d

  pub lookup-assign :
      (k l : K) (a : A) (d : List (K × A))
      → lookup l (assign k a d) ≡ (if k == l then some a else lookup l d)
  lookup-assign k l a [] = refl
  lookup-assign k l a ((j, b) ∷ d) =
      ground (arith, lookup-assign k l a d, e.equal_iff j k, e.equal_iff k l, e.equal_iff j l)
