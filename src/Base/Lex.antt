-- ===== src/Base/Lex.antt =====
-- Comparison of Go strings and byte slices: equality and lexicographic order.
use gozim.Base.Tests.{ltb, ◌==◌}
use Prim.Native.Nat.{ℕ}
use mathlib.Core.Path.{◌≡◌}
use mathlib.Core.Bool.{Bool, true, false, ◌&&◌, ◌||◌}
use mathlib.Core.List.{List, [], ◌∷◌}
use native.Mathlib.Omega.{arith}

unfoldable pub bytes_eq : List ℕ → List ℕ → Bool
bytes_eq [] [] = true
bytes_eq [] (b ∷ bs) = false
bytes_eq (a ∷ as') [] = false
bytes_eq (a ∷ as') (b ∷ bs) = a == b && bytes_eq as' bs

pub bytes_eq→eq : (a b : List ℕ) → bytes_eq a b ≡ true → a ≡ b
unfolding bytes_eq
bytes_eq→eq [] [] h = cc
bytes_eq→eq [] (b ∷ bs) h = cc
bytes_eq→eq (a ∷ as') [] h = cc
bytes_eq→eq (a ∷ as') (b ∷ bs) h = ground (arith, bytes_eq→eq as' bs)

pub bytes_eq_refl : (a : List ℕ) → bytes_eq a a ≡ true
unfolding bytes_eq
bytes_eq_refl [] = cc
bytes_eq_refl (a ∷ as') = ground (arith, bytes_eq_refl as')

-- `a < b` on strings.
unfoldable pub lex_lt : List ℕ → List ℕ → Bool
lex_lt [] [] = false
lex_lt [] (b ∷ bs) = true
lex_lt (a ∷ as') [] = false
lex_lt (a ∷ as') (b ∷ bs) = ltb a b || a == b && lex_lt as' bs

pub lex_lt_irrefl : (a : List ℕ) → lex_lt a a ≡ false
unfolding lex_lt
lex_lt_irrefl [] = cc
lex_lt_irrefl (a ∷ as') = ground (arith, lex_lt_irrefl as')

pub lex_lt_trans : (a b c : List ℕ) → lex_lt a b ≡ true → lex_lt b c ≡ true → lex_lt a c ≡ true
unfolding lex_lt
lex_lt_trans [] [] c h k = cc
lex_lt_trans [] (b ∷ bs) [] h k = cc
lex_lt_trans [] (b ∷ bs) (c ∷ cs) h k = cc
lex_lt_trans (a ∷ as') [] c h k = cc
lex_lt_trans (a ∷ as') (b ∷ bs) [] h k = cc
lex_lt_trans (a ∷ as') (b ∷ bs) (c ∷ cs) h k = ground (arith, lex_lt_trans as' bs cs)

-- Two strings of which neither is below the other are equal.
pub lex_lt_connex : (a b : List ℕ) → lex_lt a b ≡ false → lex_lt b a ≡ false → a ≡ b
unfolding lex_lt
lex_lt_connex [] [] h k = cc
lex_lt_connex [] (b ∷ bs) h k = cc
lex_lt_connex (a ∷ as') [] h k = cc
lex_lt_connex (a ∷ as') (b ∷ bs) h k = ground (arith, lex_lt_connex as' bs)

pub lex_lt_asymm : (a b : List ℕ) → lex_lt a b ≡ true → lex_lt b a ≡ false
unfolding lex_lt
lex_lt_asymm [] [] h = cc
lex_lt_asymm [] (b ∷ bs) h = cc
lex_lt_asymm (a ∷ as') [] h = cc
lex_lt_asymm (a ∷ as') (b ∷ bs) h = ground (arith, lex_lt_asymm as' bs)
