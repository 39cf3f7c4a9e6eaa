-- ===== src/Archive/Search.antt =====
-- What sort.Search returns: the first index at which a monotone test holds.
use gozim.Base.{
  ℕ, zero, suc, ◌+◌, ◌-◌, ◌/◌, ◌≤◌, ◌<◌, ◌≡◌, inl, inr, Bool, true, false, ltb, Bool-cases, arith,
}
use gozim.Archive.{search_loop, sort_search}

-- The test, once true, stays true up to `n`.
abbrev pub Monotone : ℕ → (ℕ → Bool) → Type 0
Monotone n f = (i j : ℕ) → i ≤ j → j < n → f i ≡ true → f j ≡ true

-- The test is false below `r`, and true from `r` to `n`.
pub record IsFirst (n : ℕ) (f : ℕ → Bool) (r : ℕ) : Type 0 where
  pub bound : r ≤ n
  pub below : (k : ℕ) → k < r → f k ≡ false
  pub above : (k : ℕ) → r ≤ k → k < n → f k ≡ true

false_below :
    (n : ℕ) (f : ℕ → Bool) (h k : ℕ) → Monotone n f → f h ≡ false → h < n → k ≤ h → f k ≡ false
false_below n f h k m e l kh = elim (Bool-cases (f k)) [
  | inl t ↦ absurd (cc (m k h kh l t))
  | inr t ↦ t
]

search_loop_lem :
    (fuel n : ℕ) (f : ℕ → Bool) (i j : ℕ)
    → Monotone n f
    → j - i ≤ fuel
    → i ≤ j
    → j ≤ n
    → ((k : ℕ) → k < i → f k ≡ false)
    → ((k : ℕ) → j ≤ k → k < n → f k ≡ true)
    → IsFirst n f (search_loop fuel f i j)
unfolding search_loop
search_loop_lem zero n f i j m fu ij jn lo hi = record {
  bound = omega arith;
  below = lo;
  above = λ k a b. hi k (omega arith) b;
}
search_loop_lem (suc fuel) n f i j m fu ij jn lo hi = elim (Bool-cases (ltb i j)) [
  | inr done ↦
      rw (done, search_loop)
        (record { bound = omega arith; below = lo; above = λ k a b. hi k (ground arith) b })
  | inl more ↦
      let h = (i + j) / 2 in
      let less : i < j = ground arith in
      elim (Bool-cases (f h)) [
        | inr e ↦
            rw (more, search_loop, e)
              (search_loop_lem fuel n f (h + 1) j m (omega arith) (omega arith) jn
                (λ k l. false_below n f h k m e (omega arith) (omega arith)) hi)
        | inl e ↦
            rw (more, search_loop, e)
              (search_loop_lem fuel n f i h m (omega arith) (omega arith) (omega arith) lo
                (λ k l b. m h k l b e))
      ]
]

-- With a monotone test `sort_search` ends and returns the first index at which the test holds, or
-- `n` where there is none.
pub sort_search-IsFirst : (n : ℕ) (f : ℕ → Bool) → Monotone n f → IsFirst n f (sort_search n f)
unfolding sort_search
sort_search-IsFirst n f m =
    search_loop_lem n n f 0 n m (omega arith) (omega arith) (omega arith)
      (λ k l. absurd (omega arith)) (λ k a b. absurd (omega arith))
