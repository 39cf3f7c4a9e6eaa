-- ===== src/Search/Tokenizer.antt =====
-- archive/zim/bm25/tokenizer.go: the tokens of a text. The text is given as its runes.
pub mod Places
use gozim.Base.{
  ℕ, zero, suc, ◌+◌, ◌/◌, ◌%◌, ◌^◌, ◌≤◌, Bool, true, false, not, ◌&&◌, ◌||◌, List, [], ◌∷◌, ◌++◌,
  length, ltb, leb, ◌==◌, if◌then◌else◌, Option, none, some, map,
}
use gozim.Search.Index.{Token}

-- Package unicode: what a letter and a digit is, and the small form of a letter that is not ASCII.
pub record Letters : Type 0 where
  pub is_letter : ℕ → Bool
  pub is_digit : ℕ → Bool
  pub small : ℕ → ℕ

-- `string(runes)`: the runes in UTF-8
unfoldable utf8 : List ℕ → List ℕ
utf8 [] = []
utf8 (r ∷ rs) =
    let rest = utf8 rs in
    if ltb r 0x80
    then r ∷ rest
    else if ltb r 0x800
    then (192 + r / 64) ∷ (128 + r % 64) ∷ rest
    else if ltb r 0x10000
    then (224 + r / 4096) ∷ (128 + r / 64 % 64) ∷ (128 + r % 64) ∷ rest
    else (240 + r / 262144) ∷ (128 + r / 4096 % 64) ∷ (128 + r / 64 % 64) ∷ (128 + r % 64) ∷ rest

unfoldable pub is_cjk : ℕ → Bool
is_cjk r =
    leb 0x4e00 r && leb r 0x9fff
    || leb 0x3400 r && leb r 0x4dbf
    || leb 0x3040 r && leb r 0x309f
    || leb 0x30a0 r && leb r 0x30ff
    || leb 0xac00 r && leb r 0xd7af

unfoldable pub is_word_rune : Letters → ℕ → Bool
unfolding is_cjk
is_word_rune u r = u.is_letter r || u.is_digit r || r == b'_' || is_cjk r

-- `toLower`, rune by rune
unfoldable small_rune : Letters → ℕ → ℕ
small_rune u r = if leb b'A' r && leb r b'Z' then r + 32 else if ltb r 0x80 then r else u.small r

-- The runes from the first one that the loop stops at.
unfoldable pub skip_while : (ℕ → Bool) → List ℕ → List ℕ
skip_while p [] = []
skip_while p (r ∷ rs) = let rest = skip_while p rs in if p r then rest else r ∷ rs

-- The runes before that one
unfoldable pub run_while : (ℕ → Bool) → List ℕ → List ℕ
run_while p [] = []
run_while p (r ∷ rs) = let run = run_while p rs in if p r then r ∷ run else []

abbrev pub next : ℕ → ℕ
next position = (position + 1) % 2 ^ 32

-- The loop over `cjkChars`: each rune, and each with the one behind it.
unfoldable pub cjk_tokens : ℕ → List ℕ → List Token
unfolding utf8
cjk_tokens position [] = []
cjk_tokens position (c ∷ []) = (record { text = utf8 (c ∷ []); position = position }) ∷ []
cjk_tokens position (c ∷ d ∷ cs) =
    (record { text = utf8 (c ∷ []); position = position })
    ∷ (record { text = utf8 (c ∷ d ∷ []); position = next position })
    ∷ cjk_tokens (next (next position)) (d ∷ cs)

-- A number of steps on from a position
unfoldable pub after : List Token → ℕ → ℕ
after [] position = position
after (t ∷ ts) position = after ts (next position)

-- The token of a word: lowered, and stemmed if there is a stemmer
unfoldable pub word_token : Letters → Option (List ℕ → List ℕ) → ℕ → List ℕ → Token
unfolding utf8 small_rune
word_token u stemmer position word =
    let lower = utf8 (map (small_rune u) word) in
    record { text = elim stemmer [ none ↦ lower | some stem ↦ stem lower ]; position = position }

abbrev pub in_word : Letters → ℕ → Bool
in_word u r = is_word_rune u r && not (is_cjk r)

-- The outer loop, with fuel for its rounds; each round takes at least one rune.
unfoldable pub tokens_from : ℕ → Letters → Option (List ℕ → List ℕ) → ℕ → List ℕ → List Token
unfolding skip_while run_while cjk_tokens after word_token is_word_rune
tokens_from zero u stemmer position runes = []
tokens_from (suc fuel) u stemmer position runes =
    elim (skip_while (λ r. not (is_word_rune u r)) runes) [
      | [] ↦ []
      | r ∷ rs ↦ elim (is_cjk r) [
        | true ↦
            let tokens = cjk_tokens position (r ∷ run_while is_cjk rs) in
            tokens ++ tokens_from fuel u stemmer (after tokens position) (skip_while is_cjk rs)
        | false ↦
            word_token u stemmer position (r ∷ run_while (in_word u) rs)
            ∷ tokens_from fuel u stemmer (next position) (skip_while (in_word u) rs)
      ]
    ]

-- `Tokenize`
unfoldable pub tokenize : Letters → Option (List ℕ → List ℕ) → List ℕ → List Token
unfolding tokens_from
tokenize u stemmer runes = tokens_from (length runes) u stemmer 0 runes
