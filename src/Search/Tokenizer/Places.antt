-- ===== src/Search/Tokenizer/Places.antt =====
-- The positions of the tokens, and the fuel of the loop.
use gozim.Base.{
  ℕ, zero, suc, ◌+◌, ◌≤◌, ◌≡◌, ◌⊎◌, refl, sym, ap, ◌∙◌, inl, inr, Bool, true, false, not,
  Bool-cases, List, [], ◌∷◌, ◌++◌, length, Option, arith,
}
use mathlib.Core.Path.{subst}
use gozim.Search.Index.{Token}
use gozim.Search.Tokenizer.{
  Letters, is_cjk, is_word_rune, skip_while, run_while, next, cjk_tokens, after, word_token,
  in_word, tokens_from, tokenize,
}

-- Each token has the position behind that of the token before it.
unfoldable pub Consecutive : ℕ → List Token → Type 0
Consecutive position [] = Unit {0}
Consecutive position (t ∷ ts) = (t.position ≡ position) × Consecutive (next position) ts

Consecutive-append :
    (position : ℕ) (xs ys : List Token)
    → Consecutive position xs
    → Consecutive (after xs position) ys
    → Consecutive position (xs ++ ys)
unfolding Consecutive after
Consecutive-append position [] ys h k = k
Consecutive-append position (x ∷ xs) ys h k = (h.0, Consecutive-append (next position) xs ys h.1 k)

cjk_tokens-Consecutive :
    (position : ℕ) (cs : List ℕ) → Consecutive position (cjk_tokens position cs)
unfolding Consecutive cjk_tokens
cjk_tokens-Consecutive position [] = tt
cjk_tokens-Consecutive position (c ∷ []) = (refl, tt)
cjk_tokens-Consecutive position (c ∷ d ∷ cs) =
    (refl, (refl, cjk_tokens-Consecutive (next (next position)) (d ∷ cs)))

abbrev rest_of : Letters → List ℕ → List ℕ
rest_of u runes = skip_while (λ r. not (is_word_rune u r)) runes

round_none :
    (fuel : ℕ) (u : Letters) (stemmer : Option (List ℕ → List ℕ)) (position : ℕ) (runes : List ℕ)
    → rest_of u runes ≡ []
    → tokens_from (suc fuel) u stemmer position runes ≡ []
unfolding tokens_from
round_none fuel u stemmer position runes h = rw (tokens_from, h) refl

round_cjk :
    (fuel : ℕ) (u : Letters) (stemmer : Option (List ℕ → List ℕ)) (position : ℕ) (runes : List ℕ)
    (r : ℕ) (rs : List ℕ)
    → rest_of u runes ≡ r ∷ rs
    → is_cjk r ≡ true
    → let tokens = cjk_tokens position (r ∷ run_while is_cjk rs) in
      tokens_from (suc fuel) u stemmer position runes
      ≡ tokens ++ tokens_from fuel u stemmer (after tokens position) (skip_while is_cjk rs)
unfolding tokens_from
round_cjk fuel u stemmer position runes r rs h c = rw (tokens_from, h, c) refl

round_word :
    (fuel : ℕ) (u : Letters) (stemmer : Option (List ℕ → List ℕ)) (position : ℕ) (runes : List ℕ)
    (r : ℕ) (rs : List ℕ)
    → rest_of u runes ≡ r ∷ rs
    → is_cjk r ≡ false
    → tokens_from (suc fuel) u stemmer position runes
      ≡ word_token u stemmer position (r ∷ run_while (in_word u) rs)
        ∷ tokens_from fuel u stemmer (next position) (skip_while (in_word u) rs)
unfolding tokens_from
round_word fuel u stemmer position runes r rs h c = rw (tokens_from, h, c) refl

List-cases : (xs : List ℕ) → (xs ≡ []) ⊎ ((r : ℕ) × (rs : List ℕ) × (xs ≡ r ∷ rs))
List-cases [] = inl refl
List-cases (r ∷ rs) = inr (r, rs, refl)

word_token_position :
    (u : Letters) (stemmer : Option (List ℕ → List ℕ)) (position : ℕ) (word : List ℕ)
    → (word_token u stemmer position word).position ≡ position
unfolding word_token
word_token_position u stemmer position word = refl

tokens_from-Consecutive :
    (fuel : ℕ) (u : Letters) (stemmer : Option (List ℕ → List ℕ)) (position : ℕ) (runes : List ℕ)
    → Consecutive position (tokens_from fuel u stemmer position runes)
unfolding Consecutive
tokens_from-Consecutive zero u stemmer position runes = unfold tokens_from in tt
tokens_from-Consecutive (suc fuel) u stemmer position runes = elim (List-cases (rest_of u runes)) [
  | inl gone ↦ subst (Consecutive position) (sym (round_none fuel u stemmer position runes gone)) tt
  | inr (r, rs, h) ↦ elim (Bool-cases (is_cjk r)) [
    | inl cjk ↦
        let tokens = cjk_tokens position (r ∷ run_while is_cjk rs) in
        subst (Consecutive position) (sym (round_cjk fuel u stemmer position runes r rs h cjk)) (
          Consecutive-append position tokens _
            (cjk_tokens-Consecutive position (r ∷ run_while is_cjk rs))
            (tokens_from-Consecutive fuel u stemmer (after tokens position) (skip_while is_cjk rs)))
    | inr word ↦
        subst (Consecutive position) (sym (round_word fuel u stemmer position runes r rs h word)) (
          word_token_position u stemmer position (r ∷ run_while (in_word u) rs),
          tokens_from-Consecutive fuel u stemmer (next position) (skip_while (in_word u) rs),
        )
  ]
]

length-skip_while : (p : ℕ → Bool) (rs : List ℕ) → length (skip_while p rs) ≤ length rs
unfolding skip_while
length-skip_while p [] = omega arith
length-skip_while p (r ∷ rs) = ground (arith, length-skip_while p rs)

tokens_from_nil :
    (fuel : ℕ) (u : Letters) (stemmer : Option (List ℕ → List ℕ)) (position : ℕ)
    → tokens_from fuel u stemmer position [] ≡ []
tokens_from_nil zero u stemmer position = unfold tokens_from in refl
tokens_from_nil (suc fuel) u stemmer position =
    round_none fuel u stemmer position [] (unfold skip_while in refl)

-- The length of the text is fuel enough, and more changes nothing.
tokens_from_enough :
    (fuel more : ℕ) (u : Letters) (stemmer : Option (List ℕ → List ℕ)) (position : ℕ)
    (runes : List ℕ)
    → length runes ≤ fuel
    → tokens_from (fuel + more) u stemmer position runes ≡ tokens_from fuel u stemmer position runes
tokens_from_enough zero more u stemmer position [] h =
    tokens_from_nil (0 + more) u stemmer position ∙ sym (tokens_from_nil 0 u stemmer position)
tokens_from_enough zero more u stemmer position (r ∷ rs) h = absurd (omega (arith, h))
tokens_from_enough (suc fuel) more u stemmer position runes h =
    let e : suc fuel + more ≡ suc (fuel + more) = omega arith in
    ap (λ n. tokens_from n u stemmer position runes) e ∙ elim (List-cases (rest_of u runes)) [
      | inl gone ↦
          round_none (fuel + more) u stemmer position runes gone
          ∙ sym (round_none fuel u stemmer position runes gone)
      | inr (r, rs, at) ↦
          let shorter : suc (length rs) ≤ length runes = omega (
            arith,
            length-skip_while (λ r. not (is_word_rune u r)) runes,
            ap (length {A = ℕ}) at,
          ) in
          elim (Bool-cases (is_cjk r)) [
            | inl cjk ↦
                let tokens = cjk_tokens position (r ∷ run_while is_cjk rs) in
                round_cjk (fuel + more) u stemmer position runes r rs at cjk
                ∙ ap (◌++◌ tokens) (
                    tokens_from_enough fuel more u stemmer (after tokens position)
                      (skip_while is_cjk rs)
                      (omega (arith, length-skip_while is_cjk rs, shorter, h)))
                ∙ sym (round_cjk fuel u stemmer position runes r rs at cjk)
            | inr word ↦
                round_word (fuel + more) u stemmer position runes r rs at word
                ∙ ap (◌∷◌ (word_token u stemmer position (r ∷ run_while (in_word u) rs))) (
                    tokens_from_enough fuel more u stemmer (next position)
                      (skip_while (in_word u) rs)
                      (omega (arith, length-skip_while (in_word u) rs, shorter, h)))
                ∙ sym (round_word fuel u stemmer position runes r rs at word)
          ]
    ]

-- The tokens of a text have the positions 0, 1, 2 and so on, in order (modulo 2^32), and the loop
-- ends by itself: no number of rounds beyond the length of the text finds another token.
pub tokenize-Consecutive :
    (u : Letters) (stemmer : Option (List ℕ → List ℕ)) (runes : List ℕ) (more : ℕ)
    → Consecutive 0 (tokenize u stemmer runes)
      × (tokens_from (length runes + more) u stemmer 0 runes ≡ tokenize u stemmer runes)
unfolding tokenize
tokenize-Consecutive u stemmer runes more = (
  tokens_from-Consecutive (length runes) u stemmer 0 runes,
  tokens_from_enough (length runes) more u stemmer 0 runes (omega arith),
)
