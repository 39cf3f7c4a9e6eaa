-- ===== src/Tests/Stems.antt =====
-- archive/zim/bm25/stemmer.go on a few words.
use gozim.Base.{ℕ, ◌≡◌, refl, List, [], ◌∷◌, ◌++◌, arith}
use gozim.Base.Lex.{bytes_eq}
use gozim.Stemmer.{
  measure, measure_from, is_vowel, has_vowel, ends_in, ends_with_cvc, stem, step_1a, step_1b,
  step_4, step_5a, after_1a, after_1b, eed,
}
use gozim.Stemmer.Words.{stem-eed}

abbrev cats : List ℕ
cats = b'c' ∷ b'a' ∷ b't' ∷ b's' ∷ []

stem_of_cats : stem cats ≡ b'c' ∷ b'a' ∷ b't' ∷ []
unfolding stem after_1a after_1b step_1a step_1b step_4 step_5a measure measure_from is_vowel
    has_vowel ends_in ends_with_cvc bytes_eq
stem_of_cats = refl

abbrev agr : List ℕ
agr = b'a' ∷ b'g' ∷ b'r' ∷ []

agr_counted : measure agr ≡ 1
unfolding measure measure_from is_vowel
agr_counted = refl

stem-eed_example : stem (agr ++ eed) ≡ agr ++ (b'e' ∷ b'e' ∷ b' ' ∷ [])
stem-eed_example = stem-eed agr (omega (arith, agr_counted))
