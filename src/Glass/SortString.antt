-- ===== src/Glass/SortString.antt =====
-- archive/zim/glass/pack.go, the string and boolean codecs: strings whose encodings are in the order
-- of the strings.
use gozim.Base.{
  ℕ, zero, suc, ◌+◌, ◌≡◌, ◌≢◌, refl, sym, ap, ◌∙◌, Bool, true, false, not, List, [], ◌∷◌, ◌++◌,
  length, length-append, ◌==◌, if◌then◌else◌, arith,
}
use mathlib.Core.List.{append_assoc, append-nil}
use gozim.Base.Lex.{lex_lt}

unfoldable pub pack_string : List ℕ → List ℕ
pack_string [] = []
pack_string (ch ∷ s) = let rest = pack_string s in if ch == 0 then 0 ∷ 0xff ∷ rest else ch ∷ rest

unfoldable pub pack_string_terminated : List ℕ → List ℕ
unfolding pack_string
pack_string_terminated s = pack_string s ++ (0 ∷ [])

-- `unpackStringPreservingSort`: the string and the bytes consumed; its error is always nil.
unfoldable pub unpack_string : List ℕ → List ℕ × ℕ
unpack_string [] = ([], 0)
unpack_string (b ∷ []) = if b == 0 then ([], 1) else (b ∷ [], 1)
unpack_string (b ∷ c ∷ bs) = elim (b == 0) [
  | true ↦ elim (c == 0xff) [
    | true ↦ let (s, n) = unpack_string bs in (0 ∷ s, n + 2)
    | false ↦ ([], 1)
  ]
  | false ↦ let (s, n) = unpack_string (c ∷ bs) in (b ∷ s, n + 1)
]

unfoldable pub pack_bool : Bool → ℕ
pack_bool true = 1
pack_bool false = 0

unfoldable pub unpack_bool : ℕ → Bool
unpack_bool b = not (b == 0)

-- What may follow a terminated string: anything that does not begin with 0xff.
abbrev pub NoEscape : List ℕ → Type 0
NoEscape [] = Unit
NoEscape (b ∷ bs) = b ≢ 0xff

terminator : (rest : List ℕ) → NoEscape rest → unpack_string (0 ∷ rest) ≡ ([], 1)
unfolding unpack_string
terminator [] h = ground arith
terminator (b ∷ rest) h = ground (arith, h)

escaped_zero :
    (bs : List ℕ)
    → unpack_string (0 ∷ 0xff ∷ bs) ≡ (0 ∷ (unpack_string bs).0, (unpack_string bs).1 + 2)
unfolding unpack_string
escaped_zero bs = refl

plain_byte :
    (b : ℕ) (bs : List ℕ)
    → b ≢ 0
    → unpack_string (b ∷ bs) ≡ (b ∷ (unpack_string bs).0, (unpack_string bs).1 + 1)
unfolding unpack_string
plain_byte b [] h = ground arith
plain_byte b (c ∷ bs) h = ground arith

pack_zero : (s : List ℕ) → pack_string (0 ∷ s) ≡ 0 ∷ 0xff ∷ pack_string s
unfolding pack_string
pack_zero s = refl

pack_plain : (ch : ℕ) (s : List ℕ) → ch ≢ 0 → pack_string (ch ∷ s) ≡ ch ∷ pack_string s
unfolding pack_string
pack_plain ch s h = ground arith

unpack_string-pack_append :
    (s rest : List ℕ)
    → unpack_string (pack_string s ++ rest)
      ≡ (s ++ (unpack_string rest).0, length (pack_string s) + (unpack_string rest).1)
unpack_string-pack_append [] rest = unfold pack_string in (ground arith)
unpack_string-pack_append (zero ∷ s) rest = rw pack_zero (
    escaped_zero (pack_string s ++ rest)
    ∙ rw (unpack_string-pack_append s rest)
        (ap (λ n. (0 ∷ (s ++ (unpack_string rest).0), n)) (omega arith)))
unpack_string-pack_append (suc ch ∷ s) rest = rw (pack_plain (suc ch) s (omega arith)) (
    plain_byte (suc ch) (pack_string s ++ rest) (omega arith)
    ∙ rw (unpack_string-pack_append s rest)
        (ap (λ n. (suc ch ∷ (s ++ (unpack_string rest).0), n)) (omega arith)))

-- `unpack_string` reads back a string from its encoding, and takes exactly its bytes: with the
-- terminator, before anything that does not begin with 0xff, and without it at the end of the buffer.
pub unpack_string-pack_string :
    (s rest : List ℕ)
    → NoEscape rest
    → (unpack_string (pack_string_terminated s ++ rest) ≡ (s, length (pack_string_terminated s)))
      × (unpack_string (pack_string s) ≡ (s, length (pack_string s)))
unfolding pack_string_terminated
unpack_string-pack_string s rest h = (
  ap unpack_string (append_assoc (pack_string s) (0 ∷ []) rest)
      ∙ unpack_string-pack_append s (0 ∷ rest)
      ∙ rw (terminator rest h, append-nil s)
          (ap (λ n. (s, n)) (sym (length-append (pack_string s) (0 ∷ [])))),
  ap unpack_string (sym (append-nil (pack_string s)))
      ∙ unpack_string-pack_append s []
      ∙ rw (empty, append-nil s) (ap (λ n. (s, n)) (omega arith)),
)
  where
    empty : unpack_string [] ≡ ([], 0)
    empty = unfold unpack_string in refl

-- The encodings with terminator are in the order of the strings.
pub lex_lt-pack_string :
    (s t : List ℕ) → lex_lt (pack_string_terminated s) (pack_string_terminated t) ≡ lex_lt s t
unfolding pack_string_terminated lex_lt
lex_lt-pack_string [] [] = ground arith
lex_lt-pack_string [] (zero ∷ t) = ground arith
lex_lt-pack_string [] (suc c ∷ t) = ground arith
lex_lt-pack_string (zero ∷ s) [] = ground arith
lex_lt-pack_string (suc c ∷ s) [] = ground arith
lex_lt-pack_string (zero ∷ s) (zero ∷ t) = ground (arith, lex_lt-pack_string s t)
lex_lt-pack_string (zero ∷ s) (suc d ∷ t) = ground (arith, lex_lt-pack_string s t)
lex_lt-pack_string (suc c ∷ s) (zero ∷ t) = ground (arith, lex_lt-pack_string s t)
lex_lt-pack_string (suc c ∷ s) (suc d ∷ t) = ground (arith, lex_lt-pack_string s t)
