-- ===== src/Stemmer/Words.antt =====
-- What the stemmer does to a word.
use gozim.Base.{
  ℕ, zero, suc, ◌+◌, ◌-◌, ◌≤◌, ◌<◌, ◌≡◌, ◌≢◌, refl, sym, ap, ◌∙◌, inl, inr, Bool, true, false, not,
  ◌&&◌, List, [], ◌∷◌, ◌++◌, length, take, drop, get_or, ltb, leb, ◌==◌, All, Bool-cases,
  length-append, lt→ltb, drop-append_length, arith,
}
use mathlib.Core.Path.{subst}
use mathlib.Core.List.{append-nil, append_assoc}
use native.Mathlib.Nat.{zero-add, suc-add}
use gozim.Base.Lex.{bytes_eq, bytes_eq→eq}
use gozim.Stemmer.{
  measure, step_1a, step_1b, step_4, step_5a, after_1a, after_1b, stem, suffixes, ends_in, eed, cut,
}

-- A word that ends in a space has none of the suffixes.
drop-append_le : (n : ℕ) (xs ys : List ℕ) → n ≤ length xs → drop n (xs ++ ys) ≡ drop n xs ++ ys
drop-append_le zero xs ys h = refl
drop-append_le (suc n) [] ys h = absurd (omega arith)
drop-append_le (suc n) (x ∷ xs) ys h = drop-append_le n xs ys (omega arith)

not_spaces : (ys : List ℕ) → All (λ b. b ≢ b' ') (ys ++ (b' ' ∷ [])) → ⊥
not_spaces [] h = h.0 refl
not_spaces (y ∷ ys) h = not_spaces ys h.1

ends_in-space :
    (y suf : List ℕ)
    → 0 < length suf
    → length suf ≤ length y + 1
    → All (λ b. b ≢ b' ') suf
    → ends_in (y ++ (b' ' ∷ [])) suf ≡ false
unfolding ends_in
ends_in-space y suf p l h = elim (Bool-cases (ends_in (y ++ (b' ' ∷ [])) suf)) [
  | inr other ↦ other
  | inl fits ↦
      let n = length (y ++ (b' ' ∷ [])) - length suf in
      let same = bytes_eq→eq (drop n (y ++ (b' ' ∷ []))) suf fits in
      let len = length-append y (b' ' ∷ []) in
      let at = drop-append_le n y (b' ' ∷ []) (omega (arith, len)) in
      absurd (not_spaces (drop n y) (subst (λ s. All (λ b. b ≢ b' ') s) (sym same ∙ at) h))
]

get_or-append : (xs ys : List ℕ) (k d : ℕ) → get_or (xs ++ ys) (length xs + k) d ≡ get_or ys k d
get_or-append [] ys k d = rw (zero-add k) refl
get_or-append (x ∷ xs) ys k d = rw (suc-add (length xs) k) (get_or-append xs ys k d)

take-append_add : (xs ys : List ℕ) (k : ℕ) → take (length xs + k) (xs ++ ys) ≡ xs ++ take k ys
take-append_add [] ys k = rw (zero-add k) refl
take-append_add (x ∷ xs) ys k = rw (suc-add (length xs) k) (ap (◌∷◌ x) (take-append_add xs ys k))

-- `length (xs ++ ys) - k` where `k` is at most the length of `ys`
from_back : (xs ys : List ℕ) (j k : ℕ) → length ys ≡ j + k → length (xs ++ ys) - k ≡ length xs + j
from_back xs ys j k h = omega (arith, length-append xs ys, h)

step_1a-eed : (x : List ℕ) → step_1a (x ++ eed) ≡ x ++ eed
unfolding step_1a
step_1a-eed x =
    let d : get_or (x ++ eed) (length (x ++ eed) - 1) 0 ≡ b'd' =
      rw (from_back x eed 2 1 refl) (get_or-append x eed 2 0) in
    rw (d, step_1a) refl

step_1b-eed :
    (x : List ℕ) → 0 < measure x → step_1b (x ++ eed) ≡ (x ++ (b'e' ∷ b'e' ∷ [])) ++ (b' ' ∷ [])
unfolding step_1b ends_in bytes_eq
step_1b-eed x pos =
    let long : leb 3 (length (x ++ eed)) ≡ true = ground (arith, length-append x eed) in
    let tail : drop (length (x ++ eed) - 3) (x ++ eed) ≡ eed =
      rw (from_back x eed 0 3 refl) (drop-append_length (length x + 0) x eed (omega arith)) in
    let front : cut (x ++ eed) 3 ≡ x =
      rw (from_back x eed 0 3 refl) (take-append_add x eed 0 ∙ append-nil x) in
    let most : cut (x ++ eed) 1 ≡ x ++ (b'e' ∷ b'e' ∷ []) =
      rw (from_back x eed 2 1 refl) (take-append_add x eed 2) in
    rw (long, tail, step_1b, front, ends_in) (rw (lt→ltb 0 (measure x) pos, most) refl)

step_4-space :
    (sufs : List (List ℕ)) (y : List ℕ)
    → All (λ suf. (0 < length suf) × All (λ b. b ≢ b' ') suf) sufs
    → step_4 sufs (y ++ (b' ' ∷ [])) ≡ y ++ (b' ' ∷ [])
unfolding step_4
step_4-space [] y h = refl
step_4-space (suf ∷ sufs) y (h, hs) =
    elim (Bool-cases (ltb (length suf) (length (y ++ (b' ' ∷ []))))) [
      | inr short ↦ rw (short, step_4) (step_4-space sufs y hs)
      | inl long ↦
          let less : length suf < length y + 1 = ground (arith, length-append y (b' ' ∷ [])) in
          rw (ends_in-space y suf h.0 (omega arith) h.1, step_4, long) (step_4-space sufs y hs)
    ]

letters : List ℕ → Bool
letters [] = true
letters (b ∷ bs) = not (b == b' ') && letters bs

letters-All : (bs : List ℕ) → letters bs ≡ true → All (λ b. b ≢ b' ') bs
unfolding letters
letters-All [] h = tt
letters-All (b ∷ bs) h = (ground arith, letters-All bs (ground arith))

Suffixes : List (List ℕ) → Type 0
Suffixes sufs = All (λ suf. (0 < length suf) × All (λ b. b ≢ b' ') suf) sufs

proper : List (List ℕ) → Bool
proper [] = true
proper (suf ∷ sufs) = ltb 0 (length suf) && letters suf && proper sufs

proper-Suffixes : (sufs : List (List ℕ)) → proper sufs ≡ true → Suffixes sufs
unfolding Suffixes proper
proper-Suffixes [] h = tt
proper-Suffixes (suf ∷ sufs) h =
    ((ground arith, letters-All suf (ground arith)), proper-Suffixes sufs (ground arith))

suffixes-letters : Suffixes suffixes
unfolding proper letters
suffixes-letters = proper-Suffixes suffixes refl

step_5a-space : (y : List ℕ) → step_5a (y ++ (b' ' ∷ [])) ≡ y ++ (b' ' ∷ [])
unfolding step_5a
step_5a-space y =
    let last : get_or (y ++ (b' ' ∷ [])) (length (y ++ (b' ' ∷ [])) - 1) 0 ≡ b' ' =
      rw (from_back y (b' ' ∷ []) 0 1 refl) (get_or-append y (b' ' ∷ []) 0 0) in
    let some_byte : ltb 0 (length (y ++ (b' ' ∷ []))) ≡ true =
      ground (arith, length-append y (b' ' ∷ [])) in
    rw (last, some_byte, step_5a) refl

stem_long : (w : List ℕ) → leb (length w) 2 ≡ false → stem w ≡ after_1a (step_1a w)
unfolding stem
stem_long w h = rw (h, stem) refl

after_1a_long : (w : List ℕ) → leb (length w) 2 ≡ false → after_1a w ≡ after_1b (step_1b w)
unfolding after_1a
after_1a_long w h = rw (h, after_1a) refl

after_1b_long : (w : List ℕ) → leb (length w) 2 ≡ false → after_1b w ≡ step_5a (step_4 suffixes w)
unfolding after_1b
after_1b_long w h = rw (h, after_1b) refl

-- A word in "eed" with a positive measure before it, such as "agreed", is stemmed to one that ends
-- in a space: step 1b puts the space there, and no later step takes it off.
pub stem-eed : (x : List ℕ) → 0 < measure x → stem (x ++ eed) ≡ x ++ (b'e' ∷ b'e' ∷ b' ' ∷ [])
unfolding Suffixes
stem-eed x pos =
    let y = x ++ (b'e' ∷ b'e' ∷ []) in
    let long : leb (length (x ++ eed)) 2 ≡ false = ground (arith, length-append x eed) in
    let long' : leb (length (y ++ (b' ' ∷ []))) 2 ≡ false =
      ground (arith, length-append y (b' ' ∷ []), length-append x (b'e' ∷ b'e' ∷ [])) in
    stem_long (x ++ eed) long
    ∙ ap after_1a (step_1a-eed x)
    ∙ after_1a_long (x ++ eed) long
    ∙ ap after_1b (step_1b-eed x pos)
    ∙ after_1b_long (y ++ (b' ' ∷ [])) long'
    ∙ ap step_5a (step_4-space suffixes y suffixes-letters)
    ∙ step_5a-space y
    ∙ append_assoc x (b'e' ∷ b'e' ∷ []) (b' ' ∷ [])
