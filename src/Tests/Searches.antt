-- ===== src/Tests/Searches.antt =====
-- archive/zim/bm25 on small inputs.
use gozim.Base.{
  ℕ, ◌+◌, ◌≤◌, ◌<◌, ◌≡◌, leb, length, ◌&&◌, ◌≢◌, ◌↔◌, refl, List, [], ◌∷◌, none, some, ok, ◌==◌,
  arith,
}
use gozim.Base.Lex.{bytes_eq}
use gozim.Search.Query.{Unicode, parse_query, is_blank}
use gozim.Search.Query.Normal.{Split}
use gozim.Search.Query.Words.{IsWord, join, quoted, parse_query-join}
use gozim.Search.Index.{Token, at_text, new_index, add_document}
use gozim.Search.Index.Postings.{positions_of, grown, at_text-add_document}
use gozim.Search.Tokenizer.{Letters, tokens_from, tokenize}
use gozim.Search.Tokenizer.Places.{Consecutive, tokenize-Consecutive}
use gozim.Search.Snippet.{Match, matches_from, best_start}
use gozim.Search.Snippet.Matches.{matches_from_ends}
use gozim.Search.Snippet.Window.{hits, best_start-ge}

-- letters as they are, with the exclamation mark as the punctuation
abbrev plain : Unicode
plain = record { to_lower = λ s. s; trim_space = λ s. s; is_punct = λ c. c == b'!' }

-- "a!" and "-b"
abbrev words : List (List ℕ)
words = (b'-' ∷ b'b' ∷ []) ∷ []

words-IsWord : (IsWord (b'a' ∷ b'!' ∷ [])) × (IsWord (b'-' ∷ b'b' ∷ [])) × Unit {0}
unfolding is_blank
words-IsWord = (
  record {
    nonempty = λ e. cc e;
    letters = (
      record { no_quote = refl; no_blank = refl },
      (record { no_quote = refl; no_blank = refl }, tt),
    );
  },
  record {
    nonempty = λ e. cc e;
    letters = (
      record { no_quote = refl; no_blank = refl },
      (record { no_quote = refl; no_blank = refl }, tt),
    );
  },
  tt,
)

parse_query-join_example :
    let q = parse_query plain (join ((b'a' ∷ b'!' ∷ []) ∷ words)) in
    Split plain ((b'a' ∷ b'!' ∷ []) ∷ words) q.terms q.not_terms
    × (q.phrases ≡ [])
    × (parse_query plain (quoted (join ((b'a' ∷ b'!' ∷ []) ∷ words))) ≡ q)
parse_query-join_example =
    parse_query-join plain (b'a' ∷ b'!' ∷ []) words (words-IsWord.0, (words-IsWord.1, tt)) refl refl

-- "x y x"
abbrev tokens : List Token
tokens =
    (record { text = b'x' ∷ []; position = 0 })
    ∷ (record { text = b'y' ∷ []; position = 1 })
    ∷ (record { text = b'x' ∷ []; position = 2 })
    ∷ []

at_text-add_document_example :
    at_text (b'x' ∷ []) (add_document new_index 7 tokens none).terms
    ≡ some
        (grown (b'x' ∷ []) none (record { document_id = 7; frequency = 2; positions = 0 ∷ 2 ∷ [] }))
unfolding positions_of bytes_eq at_text new_index
at_text-add_document_example = at_text-add_document new_index 7 tokens none (b'x' ∷ [])

-- the small letters of ASCII
abbrev small_letters : Letters
small_letters = record {
  is_letter = λ r. leb b'a' r && leb r b'z';
  is_digit = λ r. leb b'0' r && leb r b'9';
  small = λ r. r;
}

-- "ab c" and two ideographs
abbrev phrase : List ℕ
phrase = b'a' ∷ b'b' ∷ b' ' ∷ b'c' ∷ 0x4e00 ∷ 0x4e01 ∷ []

tokenize-Consecutive_example :
    Consecutive 0 (tokenize small_letters none phrase)
    × (tokens_from (length phrase + 5) small_letters none 0 phrase
        ≡ tokenize small_letters none phrase)
tokenize-Consecutive_example = tokenize-Consecutive small_letters none phrase 5

abbrev letter : List ℕ
letter = b'b' ∷ []

-- the term "b" in "abcb"
matches_from_ends_example :
    ((rounds : ℕ) × (ms : List Match) × (matches_from rounds
          (b'a' ∷ b'b' ∷ b'c' ∷ b'b' ∷ [])
          (b'b' ∷ [])
          (b'b' ∷ [])
          0
        ≡ some (ok ms)))
    ↔ (letter ≢ [])
matches_from_ends_example =
    matches_from_ends (b'a' ∷ b'b' ∷ b'c' ∷ b'b' ∷ []) (b'b' ∷ []) (b'b' ∷ []) refl

-- three matches in a text of twelve bytes, two of them in a window of four
abbrev found : List Match
found =
    (record { start = 1; end = 2 })
    ∷ (record { start = 7; end = 8 })
    ∷ (record { start = 9; end = 10 })
    ∷ []

best_start-ge_example :
    let best = best_start 4 12 found in
    (hits 4 12 found 1 ≤ hits 4 12 found best)
    × (1 < best → hits 4 12 found 1 < hits 4 12 found best)
best_start-ge_example = best_start-ge 4 12 found 1 (omega arith)
