-- ===== src/Base/Strings.antt =====
-- Package strings: prefixes and where a string stands in another.
use gozim.Base.Lists.{length}
use gozim.Base.Tests.{◌==◌, if◌then◌else◌, Bool-cases, Option-cases}
use Prim.Native.Nat.{ℕ, suc, ◌+◌, ◌≤◌}
use mathlib.Core.Path.{◌≡◌, refl}
use mathlib.Core.Logic.{inl, inr}
use mathlib.Core.Bool.{Bool, true, false, ◌&&◌}
use mathlib.Core.Option.{Option, none, some}
use mathlib.Core.List.{List, [], ◌∷◌}
use native.Mathlib.Omega.{arith}

-- `strings.HasPrefix`
unfoldable pub begins : List ℕ → List ℕ → Bool
begins s [] = true
begins [] (p ∷ ps) = false
begins (c ∷ cs) (p ∷ ps) = c == p && begins cs ps

-- `strings.Index`: where the substring first stands
unfoldable pub index_of : List ℕ → List ℕ → Option ℕ
unfolding begins
index_of [] sub = if begins [] sub then some 0 else none
index_of (c ∷ cs) sub =
    let rest = index_of cs sub in
    if begins (c ∷ cs) sub then some 0 else elim rest [ none ↦ none | some i ↦ some (suc i) ]

-- The empty string stands at the start of every string.
pub index_of_nil : (s : List ℕ) → index_of s [] ≡ some 0
unfolding index_of begins
index_of_nil [] = refl
index_of_nil (c ∷ cs) = refl

begins-length : (s p : List ℕ) → begins s p ≡ true → length p ≤ length s
unfolding begins
begins-length s [] h = omega arith
begins-length [] (p ∷ ps) h = cc h
begins-length (c ∷ cs) (p ∷ ps) h = ground (arith, begins-length cs ps)

-- What is found lies within the string.
pub index_of-le : (s sub : List ℕ) (i : ℕ) → index_of s sub ≡ some i → i + length sub ≤ length s
unfolding index_of
index_of-le [] sub i h = elim (Bool-cases (begins [] sub)) [
  | inl here ↦ ground (arith, here, h, begins-length [] sub)
  | inr gone ↦ ground (arith, gone, h)
]
index_of-le (c ∷ cs) sub i h = elim (Bool-cases (begins (c ∷ cs) sub)) [
  | inl here ↦ ground (arith, here, h, begins-length (c ∷ cs) sub)
  | inr there ↦ elim (Option-cases (index_of cs sub)) [
    | inl none_left ↦ ground (arith, there, none_left, h)
    | inr (j, at) ↦ ground (arith, there, at, h, index_of-le cs sub j at)
  ]
]
