-- ===== src/Base/Slices.antt =====
-- Parts of lists that lie one behind the other.
use gozim.Base.Lists.{length, take, drop}
use Prim.Native.Nat.{ℕ, zero, suc, ◌+◌, ◌≤◌}
use mathlib.Core.Path.{◌≡◌, refl, ap}
use mathlib.Core.List.{List, [], ◌∷◌, ◌++◌}
use native.Mathlib.Omega.{arith}

pub drop-length : (n : ℕ) (xs : List ℕ) → length xs ≤ n → drop n xs ≡ []
drop-length zero [] h = refl
drop-length (suc n) [] h = refl
drop-length zero (x ∷ xs) h = absurd (omega arith)
drop-length (suc n) (x ∷ xs) h = drop-length n xs (omega arith)

pub take-nil : (n : ℕ) → ◌≡◌ {A = List ℕ} (take n []) []
take-nil zero = refl
take-nil (suc n) = refl

pub drop-append_le : (n : ℕ) (xs ys : List ℕ) → n ≤ length xs → drop n (xs ++ ys) ≡ drop n xs ++ ys
drop-append_le zero xs ys h = refl
drop-append_le (suc n) [] ys h = absurd (omega arith)
drop-append_le (suc n) (x ∷ xs) ys h = drop-append_le n xs ys (omega arith)

pub drop-append_past :
    (n m : ℕ) (xs ys : List ℕ) → n ≡ length xs + m → drop n (xs ++ ys) ≡ drop m ys
drop-append_past n m [] ys h = let e : n ≡ m = omega arith in ap (λ k. drop k ys) e
drop-append_past zero m (x ∷ xs) ys h = absurd (omega arith)
drop-append_past (suc n) m (x ∷ xs) ys h = drop-append_past n m xs ys (omega arith)

pub take-append_le : (n : ℕ) (xs ys : List ℕ) → n ≤ length xs → take n (xs ++ ys) ≡ take n xs
take-append_le zero xs ys h = refl
take-append_le (suc n) [] ys h = absurd (omega arith)
take-append_le (suc n) (x ∷ xs) ys h = ap (◌∷◌ x) (take-append_le n xs ys (omega arith))

pub take_split : (m k n : ℕ) (xs : List ℕ) → n ≡ m + k → take n xs ≡ take m xs ++ take k (drop m xs)
take_split zero k n xs h = let e : n ≡ k = omega arith in ap (λ j. take j xs) e
take_split (suc m) k zero xs h = absurd (omega arith)
take_split (suc m) zero (suc n) [] h = refl
take_split (suc m) (suc k) (suc n) [] h = refl
take_split (suc m) k (suc n) (x ∷ xs) h = ap (◌∷◌ x) (take_split m k n xs (omega arith))
