-- ===== src/Search/Query/Words.antt =====
-- What ParseQuery makes of words with spaces between them, quoted or not.
use gozim.Base.{
  ℕ, ◌≡◌, ◌≢◌, refl, sym, ap, ◌∙◌, Bool, true, false, not, ◌==◌, List, [], ◌∷◌, ◌++◌, All,
}
use gozim.Search.Query.{
  Unicode, Query, flush, is_blank, raw_terms, clean_terms, excluded_terms, parse_query,
}
use gozim.Search.Query.Normal.{Split, clean_terms-Split}
use mathlib.Core.Path.{subst}
use mathlib.Core.List.{append_assoc, append-nil}

-- A byte of a word: no quotation mark and no blank.
pub record IsLetter (c : ℕ) : Type 0 where
  pub no_quote : (c == b'"') ≡ false
  pub no_blank : is_blank c ≡ false

pub record IsWord (w : List ℕ) : Type 0 where
  pub nonempty : w ≢ []
  pub letters : All IsLetter w

-- The words with one space between two of them
abbrev pub join : List (List ℕ) → List ℕ
join [] = []
join (w ∷ []) = w
join (w ∷ v ∷ ws) = w ++ (b' ' ∷ join (v ∷ ws))

raw_terms-letter :
    (raw : List (List ℕ)) (current : List ℕ) (q : Bool) (c : ℕ) (cs : List ℕ)
    → IsLetter c
    → raw_terms raw current q (c ∷ cs) ≡ raw_terms raw (current ++ (c ∷ [])) q cs
unfolding raw_terms
raw_terms-letter raw current true c cs l = rw (raw_terms, l.no_quote, l.no_blank) refl
raw_terms-letter raw current false c cs l = rw (raw_terms, l.no_quote, l.no_blank) refl

raw_terms-letters :
    (raw : List (List ℕ)) (current : List ℕ) (q : Bool) (w rest : List ℕ)
    → All IsLetter w
    → raw_terms raw current q (w ++ rest) ≡ raw_terms raw (current ++ w) q rest
raw_terms-letters raw current q [] rest h =
    ap (λ x. raw_terms raw x q rest) (sym (append-nil current))
raw_terms-letters raw current q (c ∷ w) rest h =
    raw_terms-letter raw current q c (w ++ rest) h.0
    ∙ raw_terms-letters raw (current ++ (c ∷ [])) q w rest h.1
    ∙ ap (λ x. raw_terms raw x q rest) (append_assoc current (c ∷ []) w)

raw_terms_space :
    (raw : List (List ℕ)) (current : List ℕ) (q : Bool) (cs : List ℕ)
    → raw_terms raw current q (b' ' ∷ cs) ≡ raw_terms (flush raw current) [] q cs
unfolding raw_terms is_blank
raw_terms_space raw current true cs = refl
raw_terms_space raw current false cs = refl

raw_terms_quote :
    (raw : List (List ℕ)) (current : List ℕ) (q : Bool) (cs : List ℕ)
    → raw_terms raw current q (b'"' ∷ cs) ≡ raw_terms (flush raw current) [] (not q) cs
unfolding raw_terms
raw_terms_quote raw current q cs = refl

flush_word : (raw : List (List ℕ)) (w : List ℕ) → w ≢ [] → flush raw w ≡ raw ++ (w ∷ [])
unfolding flush
flush_word raw [] h = absurd (h refl)
flush_word raw (c ∷ cs) h = refl

-- Words, up to what follows the last of them.
raw_terms-join :
    (raw : List (List ℕ)) (q : Bool) (w : List ℕ) (ws : List (List ℕ)) (rest : List ℕ)
    → All IsWord (w ∷ ws)
    → (before : List (List ℕ)) × (last : List ℕ) × (last ≢ [])
      × (before ++ (last ∷ []) ≡ raw ++ (w ∷ ws))
      × (raw_terms raw [] q (join (w ∷ ws) ++ rest) ≡ raw_terms before last q rest)
raw_terms-join raw q w [] rest h =
    (raw, w, h.0.nonempty, refl, raw_terms-letters raw [] q w rest h.0.letters)
raw_terms-join raw q w (v ∷ ws) rest h =
    let (before, last, full, same, run) = raw_terms-join (raw ++ (w ∷ [])) q v ws rest h.1 in
    (
      before,
      last,
      full,
      same ∙ append_assoc raw (w ∷ []) (v ∷ ws),
      ap (raw_terms raw [] q) (append_assoc w (b' ' ∷ join (v ∷ ws)) rest)
          ∙ raw_terms-letters raw [] q w (b' ' ∷ (join (v ∷ ws) ++ rest)) h.0.letters
          ∙ raw_terms_space raw w q (join (v ∷ ws) ++ rest)
          ∙ ap (λ x. raw_terms x [] q (join (v ∷ ws) ++ rest)) (flush_word raw w h.0.nonempty)
          ∙ run,
    )

raw_terms_end :
    (raw : List (List ℕ)) (current : List ℕ) (q : Bool)
    → raw_terms raw current q [] ≡ flush raw current
unfolding raw_terms
raw_terms_end raw current q = refl

pub raw_terms-words :
    (w : List ℕ) (ws : List (List ℕ))
    → All IsWord (w ∷ ws)
    → raw_terms [] [] false (join (w ∷ ws)) ≡ w ∷ ws
raw_terms-words w ws h =
    let (before, last, full, same, run) = raw_terms-join [] false w ws [] h in
    ap (raw_terms [] [] false) (sym (append-nil (join (w ∷ ws))))
    ∙ run
    ∙ raw_terms_end before last false
    ∙ flush_word before last full
    ∙ same

abbrev pub quoted : List ℕ → List ℕ
quoted s = b'"' ∷ (s ++ (b'"' ∷ []))

pub raw_terms-quoted :
    (w : List ℕ) (ws : List (List ℕ))
    → All IsWord (w ∷ ws)
    → raw_terms [] [] false (quoted (join (w ∷ ws))) ≡ w ∷ ws
unfolding flush
raw_terms-quoted w ws h =
    let (before, last, full, same, run) = raw_terms-join [] true w ws (b'"' ∷ []) h in
    raw_terms_quote [] [] false (join (w ∷ ws) ++ (b'"' ∷ []))
    ∙ run
    ∙ raw_terms_quote before last true []
    ∙ raw_terms_end (flush before last) [] false
    ∙ flush_word before last full
    ∙ same

-- What the words become.
abbrev query_of : Unicode → List (List ℕ) → Query
query_of u ws = record { terms = clean_terms u ws; phrases = []; not_terms = excluded_terms u ws }

parse_query_steps :
    (u : Unicode) (query : List ℕ) (c : ℕ) (cs : List ℕ) (raw : List (List ℕ))
    → u.trim_space query ≡ c ∷ cs
    → raw_terms [] [] false (c ∷ cs) ≡ raw
    → parse_query u query ≡ query_of u raw
unfolding parse_query
parse_query_steps u query c cs raw t e = rw (parse_query, t, e) refl

join-some :
    (w : List ℕ) (ws : List (List ℕ)) → w ≢ [] → (c : ℕ) × (cs : List ℕ) × (join (w ∷ ws) ≡ c ∷ cs)
join-some [] ws h = absurd (h refl)
join-some (c ∷ cs) [] h = (c, cs, refl)
join-some (c ∷ cs) (v ∷ ws) h = (c, cs ++ (b' ' ∷ join (v ∷ ws)), refl)

-- A query of words with a space between two of them, none of which holds a blank or a quotation mark,
-- becomes the words, in order: those that begin with one minus sign and go on otherwise are excluded
-- terms, without the sign, and the others are terms. Each is trimmed and lowered and then loses the
-- punctuation at its two ends, and no other byte. There is no phrase, and the same words between
-- quotation marks give the same query. Trimming changes neither query.
pub parse_query-join :
    (u : Unicode) (w : List ℕ) (ws : List (List ℕ))
    → All IsWord (w ∷ ws)
    → u.trim_space (join (w ∷ ws)) ≡ join (w ∷ ws)
    → u.trim_space (quoted (join (w ∷ ws))) ≡ quoted (join (w ∷ ws))
    → let q = parse_query u (join (w ∷ ws)) in
      Split u (w ∷ ws) q.terms q.not_terms
      × (q.phrases ≡ [])
      × (parse_query u (quoted (join (w ∷ ws))) ≡ q)
parse_query-join u w ws h t t' =
    let (c, cs, e) = join-some w ws h.0.nonempty in
    let plain : parse_query u (join (w ∷ ws)) ≡ query_of u (w ∷ ws) =
      parse_query_steps u (join (w ∷ ws)) c cs (w ∷ ws) (t ∙ e)
        (ap (raw_terms [] [] false) (sym e) ∙ raw_terms-words w ws h) in
    let in_quotes : parse_query u (quoted (join (w ∷ ws))) ≡ query_of u (w ∷ ws) =
      parse_query_steps u (quoted (join (w ∷ ws))) b'"' (join (w ∷ ws) ++ (b'"' ∷ [])) (w ∷ ws) t'
        (raw_terms-quoted w ws h) in
    (
      subst (λ (q : Query). Split u (w ∷ ws) q.terms q.not_terms) (sym plain)
          (clean_terms-Split u (w ∷ ws)),
      ap (λ (q : Query). q.phrases) plain,
      in_quotes ∙ sym plain,
    )
