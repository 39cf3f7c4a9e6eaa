-- ===== src/Stemmer.antt =====
-- archive/zim/bm25/stemmer.go: the Porter stemmer. A word is its bytes.
pub mod Words
use gozim.Base.{
  ℕ, zero, suc, ◌+◌, ◌-◌, ◌≤◌, ◌<◌, ◌≡◌, Bool, true, false, not, ◌&&◌, ◌||◌, List, [], ◌∷◌, ◌++◌,
  length, take, drop, get_or, ltb, leb, ◌==◌, if◌then◌else◌,
}
use gozim.Base.Lex.{bytes_eq}

-- `isVowel`
unfoldable pub is_vowel : ℕ → Bool
is_vowel ch =
    ch == b'a'
    || ch == b'e'
    || ch == b'i'
    || ch == b'o'
    || ch == b'u'
    || ch == b'A'
    || ch == b'E'
    || ch == b'I'
    || ch == b'O'
    || ch == b'U'
    || ch == b'y'
    || ch == b'Y'

-- The loop of `measure`: the state, then the pairs of a vowel and a consonant counted so far.
unfoldable pub measure_from : Bool → ℕ → List ℕ → ℕ
measure_from state count [] = count
measure_from state count (ch ∷ word) = elim (is_vowel ch) [
  | true ↦ measure_from true count word
  | false ↦ elim state [
    | true ↦ measure_from false (count + 1) word
    | false ↦ measure_from false count word
  ]
]

unfoldable pub measure : List ℕ → ℕ
unfolding measure_from
measure word = measure_from false 0 word

unfoldable pub has_vowel : List ℕ → Bool
has_vowel [] = false
has_vowel (ch ∷ word) = is_vowel ch || has_vowel word

-- `word[len(word)-k]`
abbrev pub from_end : List ℕ → ℕ → ℕ
from_end word k = get_or word (length word - k) 0

unfoldable pub ends_with_cvc : List ℕ → Bool
unfolding is_vowel
ends_with_cvc word =
    let last = from_end word 1 in
    let mid = from_end word 2 in
    let first = from_end word 3 in
    if ltb (length word) 3
    then false
    else if last == b'w' || last == b'x' || last == b'y'
    then false
    else not (is_vowel first) && is_vowel mid && not (is_vowel last)

-- `string(w[len(w)-len(suf):]) == suf`
unfoldable pub ends_in : List ℕ → List ℕ → Bool
ends_in w suf = bytes_eq (drop (length w - length suf) w) suf

-- `w[:len(w)-k]`
abbrev pub cut : List ℕ → ℕ → List ℕ
cut w k = take (length w - k) w

-- Step 1a, of a word that is not empty.
unfoldable pub step_1a : List ℕ → List ℕ
unfolding ends_in
step_1a w =
    if from_end w 1 == b's'
    then (if ends_in w (b'e' ∷ b's' ∷ [])
        then (if leb 4 (length w) && bytes_eq (take 2 (drop (length w - 4) w)) (b's' ∷ b's' ∷ [])
            then cut w 2
            else if leb 3 (length w) && from_end w 3 == b'i'
            then cut w 2
            else if leb 3 (length w) && not (from_end w 3 == b's')
            then cut w 1
            else w)
        else if ends_in w (b's' ∷ b's' ∷ [])
        then w
        else cut w 1)
    else w

abbrev pub eed : List ℕ
eed = b'e' ∷ b'e' ∷ b'd' ∷ []

-- Step 1b. A word in "eed" has its last byte replaced by a space, "handled below" in the comment.
unfoldable pub step_1b : List ℕ → List ℕ
unfolding ends_in measure has_vowel
step_1b w =
    if leb 3 (length w) && ends_in w eed
    then (if ltb 0 (measure (cut w 3)) then cut w 1 ++ (b' ' ∷ []) else w)
    else if leb 2 (length w) && from_end w 1 == b'd' && from_end w 2 == b'e'
    then (if has_vowel (cut w 2) then (if ends_in w (b'e' ∷ b'd' ∷ []) then cut w 2 else w) else w)
    else if leb 3 (length w) && ends_in w (b'i' ∷ b'n' ∷ b'g' ∷ [])
    then (if has_vowel (cut w 3) then cut w 3 else w)
    else w

abbrev pub suffixes : List (List ℕ)
suffixes =
    (b'e' ∷ b'm' ∷ b'e' ∷ b'n' ∷ b't' ∷ [])
    ∷ (b'a' ∷ b'n' ∷ b'c' ∷ b'e' ∷ [])
    ∷ (b'e' ∷ b'n' ∷ b'c' ∷ b'e' ∷ [])
    ∷ (b'a' ∷ b'b' ∷ b'l' ∷ b'e' ∷ [])
    ∷ (b'i' ∷ b'b' ∷ b'l' ∷ b'e' ∷ [])
    ∷ (b'm' ∷ b'e' ∷ b'n' ∷ b't' ∷ [])
    ∷ (b'n' ∷ b'e' ∷ b's' ∷ b's' ∷ [])
    ∷ (b'l' ∷ b'e' ∷ b's' ∷ b's' ∷ [])
    ∷ (b'f' ∷ b'u' ∷ b'l' ∷ [])
    ∷ (b'o' ∷ b'u' ∷ b's' ∷ [])
    ∷ (b'a' ∷ b'n' ∷ b't' ∷ [])
    ∷ (b'e' ∷ b'n' ∷ b't' ∷ [])
    ∷ (b'i' ∷ b's' ∷ b'm' ∷ [])
    ∷ (b'a' ∷ b't' ∷ b'e' ∷ [])
    ∷ (b'i' ∷ b't' ∷ b'i' ∷ [])
    ∷ (b'o' ∷ b'u' ∷ b's' ∷ [])
    ∷ (b'i' ∷ b'v' ∷ b'e' ∷ [])
    ∷ (b'i' ∷ b'z' ∷ b'e' ∷ [])
    ∷ (b'i' ∷ b'o' ∷ b'n' ∷ [])
    ∷ []

-- The loop of step 4: the first suffix that fits is cut off.
unfoldable pub step_4 : List (List ℕ) → List ℕ → List ℕ
unfolding ends_in measure
step_4 [] w = w
step_4 (suf ∷ sufs) w =
    if ltb (length suf) (length w) && ends_in w suf && ltb 1 (measure (cut w (length suf)))
    then cut w (length suf)
    else step_4 sufs w

unfoldable pub step_5a : List ℕ → List ℕ
unfolding measure ends_with_cvc
step_5a w =
    if ltb 0 (length w) && from_end w 1 == b'e'
    then (if ltb 1 (measure w) || (measure w == 1 && not (ends_with_cvc (cut w 1)))
        then cut w 1
        else w)
    else w

-- The steps, with the early returns on a word of at most two bytes.
unfoldable pub after_1b : List ℕ → List ℕ
unfolding step_4 step_5a
after_1b w = if leb (length w) 2 then w else step_5a (step_4 suffixes w)

unfoldable pub after_1a : List ℕ → List ℕ
unfolding step_1b after_1b
after_1a w = if leb (length w) 2 then w else after_1b (step_1b w)

-- `Stem`
unfoldable pub stem : List ℕ → List ℕ
unfolding step_1a after_1a
stem word = if leb (length word) 2 then word else after_1a (step_1a word)
