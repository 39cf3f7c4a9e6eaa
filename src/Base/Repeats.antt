-- ===== src/Base/Repeats.antt =====
-- A sequence of more numbers than there are below a bound has one of them twice.
use Prim.Native.Nat.{ℕ, zero, suc, ◌≤◌, ◌<◌}
use mathlib.Core.Path.{◌≡◌, sym, ap, ◌∙◌}
use mathlib.Core.Logic.{◌≢◌, ◌⊎◌, inl, inr}
use native.Mathlib.Omega.{arith}
use gozim.Base.Tests.{◌==◌, if◌then◌else◌}

number-cases : (a b : ℕ) → (a ≡ b) ⊎ (a ≢ b)
number-cases a b = ground arith

-- The value among the first of the sequence, or nowhere there.
find_value : (s : ℕ → ℕ) (v n : ℕ) → ((k : ℕ) × (k ≤ n) × (s k ≡ v)) ⊎ ((k : ℕ) → k ≤ n → s k ≢ v)
find_value s v zero = elim (number-cases (s 0) v) [
  | inl here ↦ inl (0, omega arith, here)
  | inr other ↦ inr (λ k h e. let z : k ≡ 0 = omega arith in other (ap s (sym z) ∙ e))
]
find_value s v (suc n) = elim (number-cases (s (suc n)) v) [
  | inl here ↦ inl (suc n, omega arith, here)
  | inr other ↦ elim (find_value s v n) [
    | inl (k, h, e) ↦ inl (k, omega arith, e)
    | inr none_before ↦ inr (λ k h e. elim (number-cases k (suc n)) [
      | inl last ↦ other (ap s (sym last) ∙ e)
      | inr before ↦ none_before k (omega arith) e
    ])
  ]
]

abbrev moved : (ℕ → ℕ) → ℕ → ℕ → ℕ
moved s n k = if s k == n then s (suc n) else s k

pub repeats :
    (n : ℕ) (s : ℕ → ℕ)
    → ((k : ℕ) → k ≤ n → s k < n)
    → (a : ℕ) × (b : ℕ) × (a < b) × (b ≤ n) × (s a ≡ s b)
repeats zero s h = absurd (omega (arith, h 0 (omega arith)))
repeats (suc n) s h = elim (find_value s (s (suc n)) n) [
  | inl (k, le, e) ↦ (k, suc n, omega arith, omega arith, e)
  | inr apart ↦
      let small : (k : ℕ) → k ≤ n → moved s n k < n =
        λ k le. ground (arith, h k (omega arith), h (suc n) (omega arith), apart k le) in
      let (a, b, lt, le, e) = repeats n (moved s n) small in
      (a, b, lt, omega arith, ground (arith, e, apart a (omega arith), apart b le))
]
