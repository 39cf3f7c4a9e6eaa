-- ===== src/Search/Query.antt =====
-- archive/zim/bm25/query.go: the words of a query. A string is a list of bytes.
pub mod Words
pub mod Normal
use gozim.Base.{
  ℕ, ◌<◌, Bool, true, false, not, ◌&&◌, ◌||◌, List, [], ◌∷◌, ◌++◌, length, ltb, ◌==◌, if◌then◌else◌,
}

-- What the packages strings and unicode say of letters, spaces and punctuation.
pub record Unicode : Type 0 where
  pub to_lower : List ℕ → List ℕ
  pub trim_space : List ℕ → List ℕ
  pub is_punct : ℕ → Bool

-- The three results of `ParseQuery`.
pub record Query : Type 0 where
  pub terms : List (List ℕ)
  pub phrases : List (List (List ℕ))
  pub not_terms : List (List ℕ)

-- `if current.Len() > 0 { rawTerms = append(…); current.Reset() }`
unfoldable pub flush : List (List ℕ) → List ℕ → List (List ℕ)
flush raw [] = raw
flush raw (c ∷ cs) = raw ++ ((c ∷ cs) ∷ [])

unfoldable pub is_blank : ℕ → Bool
is_blank c = c == b' ' || c == 9

-- The loop over the bytes of the query, and what follows it.
unfoldable pub raw_terms : List (List ℕ) → List ℕ → Bool → List ℕ → List (List ℕ)
unfolding flush is_blank
raw_terms raw current in_quote [] = flush raw current
raw_terms raw current in_quote (c ∷ cs) = elim (c == b'"') [
  | true ↦ raw_terms (flush raw current) [] (not in_quote) cs
  | false ↦ elim in_quote [
    | true ↦ elim (is_blank c) [
      | true ↦ raw_terms (flush raw current) [] true cs
      | false ↦ raw_terms raw (current ++ (c ∷ [])) true cs
    ]
    | false ↦ elim (is_blank c) [
      | true ↦ raw_terms (flush raw current) [] false cs
      | false ↦ raw_terms raw (current ++ (c ∷ [])) false cs
    ]
  ]
]

-- The loops of `normalizeTerm` over the last and over the first byte.
unfoldable pub strip_end : (ℕ → Bool) → List ℕ → List ℕ
strip_end is_punct [] = []
strip_end is_punct (c ∷ cs) = elim (strip_end is_punct cs) [
  | [] ↦ if is_punct c then [] else c ∷ []
  | d ∷ ds ↦ c ∷ d ∷ ds
]

unfoldable pub strip_start : (ℕ → Bool) → List ℕ → List ℕ
strip_start is_punct [] = []
strip_start is_punct (c ∷ cs) =
    let rest = strip_start is_punct cs in if is_punct c then rest else c ∷ cs

unfoldable pub normalize_term : Unicode → List ℕ → List ℕ
unfolding strip_end strip_start
normalize_term u term =
    strip_start u.is_punct (strip_end u.is_punct (u.to_lower (u.trim_space term)))

-- `strings.HasPrefix(t, "-") && len(t) > 1 && !strings.HasPrefix(t, "--")`
unfoldable pub is_excluded : List ℕ → Bool
is_excluded [] = false
is_excluded (c ∷ []) = false
is_excluded (c ∷ d ∷ cs) = c == b'-' && not (d == b'-')

-- `t[1:]`
abbrev pub rest_of : List ℕ → List ℕ
rest_of [] = []
rest_of (c ∷ cs) = cs

unfoldable pub clean_terms : Unicode → List (List ℕ) → List (List ℕ)
unfolding is_excluded normalize_term
clean_terms u [] = []
clean_terms u (t ∷ ts) =
    let rest = clean_terms u ts in if is_excluded t then rest else normalize_term u t ∷ rest

unfoldable pub excluded_terms : Unicode → List (List ℕ) → List (List ℕ)
unfolding is_excluded normalize_term
excluded_terms u [] = []
excluded_terms u (t ∷ ts) =
    let rest = excluded_terms u ts in
    if is_excluded t then normalize_term u (rest_of t) ∷ rest else rest

abbrev no_query : Query
no_query = record { terms = []; phrases = []; not_terms = [] }

-- `ParseQuery`
unfoldable pub parse_query : Unicode → List ℕ → Query
unfolding raw_terms clean_terms excluded_terms
parse_query u query = elim (u.trim_space query) [
  | [] ↦ no_query
  | c ∷ cs ↦
      let raw = raw_terms [] [] false (c ∷ cs) in
      record { terms = clean_terms u raw; phrases = []; not_terms = excluded_terms u raw }
]
