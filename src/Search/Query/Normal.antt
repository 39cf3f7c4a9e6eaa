-- ===== src/Search/Query/Normal.antt =====
-- What a term is without its punctuation, and which words of a query are excluded ones.
use gozim.Base.{
  ℕ, ◌≡◌, ◌≢◌, refl, sym, ap, ◌∙◌, inl, inr, Bool, true, false, Bool-cases, if◌then◌else◌, ◌==◌,
  List, [], ◌∷◌, ◌++◌, get_elem?, All, Option, none, some, arith,
}
use mathlib.Core.Path.{subst₂}
use gozim.Search.Query.{
  Unicode, strip_end, strip_start, normalize_term, is_excluded, rest_of, clean_terms,
  excluded_terms,
}

unfoldable pub last_of : List ℕ → Option ℕ
last_of [] = none
last_of (c ∷ []) = some c
last_of (c ∷ d ∷ ds) = last_of (d ∷ ds)

last_of_more : (c x : ℕ) (cs : List ℕ) → last_of cs ≡ some x → last_of (c ∷ cs) ≡ some x
unfolding last_of
last_of_more c x [] h = cc h
last_of_more c x (d ∷ ds) h = h

-- A list is another one with punctuation before and behind it, and the other one neither begins nor
-- ends with punctuation.
pub record IsStripped (is_punct : ℕ → Bool) (whole n : List ℕ) : Type 0 where
  pub before : List ℕ
  pub after : List ℕ
  pub puncts : All (λ c. is_punct c ≡ true) before × All (λ c. is_punct c ≡ true) after
  pub parts : whole ≡ (before ++ n) ++ after
  pub first : (c : ℕ) → get_elem? n 0 ≡ some c → is_punct c ≡ false
  pub last : (c : ℕ) → last_of n ≡ some c → is_punct c ≡ false

-- What one byte in front does to the rest without the punctuation at its end.
abbrev end_step : (ℕ → Bool) → ℕ → List ℕ → List ℕ
end_step p c rest = elim rest [ [] ↦ if p c then [] else c ∷ [] | d ∷ ds ↦ c ∷ d ∷ ds ]

end_step_lem :
    (p : ℕ → Bool) (c : ℕ) (rest after : List ℕ)
    → All (λ c. p c ≡ true) after
    → ((x : ℕ) → last_of rest ≡ some x → p x ≡ false)
    → (after' : List ℕ) × All (λ c. p c ≡ true) after'
      × (c ∷ (rest ++ after) ≡ end_step p c rest ++ after')
      × ((x : ℕ) → last_of (end_step p c rest) ≡ some x → p x ≡ false)
unfolding last_of
end_step_lem p c [] after puncts last = elim (Bool-cases (p c)) [
  | inl punct ↦ rw punct (c ∷ after, (punct, puncts), refl, λ x h. cc h)
  | inr letter ↦ rw letter (after, puncts, refl, λ x h. ground (arith, h, letter))
]
end_step_lem p c (d ∷ ds) after puncts last = (after, puncts, refl, last)

strip_end_lem :
    (p : ℕ → Bool) (s : List ℕ)
    → (after : List ℕ) × All (λ c. p c ≡ true) after
      × (s ≡ strip_end p s ++ after)
      × ((c : ℕ) → last_of (strip_end p s) ≡ some c → p c ≡ false)
unfolding strip_end last_of
strip_end_lem p [] = ([], tt, refl, λ c h. cc h)
strip_end_lem p (c ∷ cs) =
    let (after, puncts, same, last) = strip_end_lem p cs in
    let (after', puncts', same', last') = end_step_lem p c (strip_end p cs) after puncts last in
    (after', puncts', ap (◌∷◌ c) same ∙ same', last')

strip_start_lem :
    (p : ℕ → Bool) (s : List ℕ)
    → (before : List ℕ) × All (λ c. p c ≡ true) before
      × (s ≡ before ++ strip_start p s)
      × ((c : ℕ) → get_elem? (strip_start p s) 0 ≡ some c → p c ≡ false)
      × ((c : ℕ) → last_of (strip_start p s) ≡ some c → last_of s ≡ some c)
unfolding strip_start
strip_start_lem p [] = ([], tt, refl, (λ c h. cc h), λ c h. h)
strip_start_lem p (c ∷ cs) =
    let (before, puncts, same, first, last) = strip_start_lem p cs in
    elim (Bool-cases (p c)) [
      | inl punct ↦
          rw (punct, strip_start)
            (
              c ∷ before,
              (punct, puncts),
              ap (◌∷◌ c) same,
              first,
              λ x h. last_of_more c x cs (last x h),
            )
      | inr letter ↦
          rw (letter, strip_start) ([], tt, refl, (λ x h. ground (arith, h, letter)), λ x h. h)
    ]

-- What a term becomes, if packages strings and unicode make `lower` of it.
pub normalize_term-IsStripped :
    (u : Unicode) (w : List ℕ)
    → IsStripped u.is_punct (u.to_lower (u.trim_space w)) (normalize_term u w)
unfolding normalize_term
normalize_term-IsStripped u w =
    let lower = u.to_lower (u.trim_space w) in
    let (after, behind, whole, last) = strip_end_lem u.is_punct lower in
    let (before, front, rest, first, kept) =
      strip_start_lem u.is_punct (strip_end u.is_punct lower) in
    record {
      before = before;
      after = after;
      puncts = (front, behind);
      parts = whole ∙ ap (λ s. s ++ after) rest;
      first = first;
      last = λ c h. last c (kept c h);
    }

-- A word that begins with one minus sign and goes on with something else.
pub record IsMinus (w rest : List ℕ) : Type 0 where
  pub whole : w ≡ b'-' ∷ rest
  pub nonempty : rest ≢ []
  pub once : get_elem? rest 0 ≢ some b'-'

-- The words of a query, those of them that are wanted and those that are excluded: in order, each
-- stripped of its punctuation, and the excluded ones without the minus sign.
pub data Split (u : Unicode) : List (List ℕ) → List (List ℕ) → List (List ℕ) → Type 0 where
  done : Split u [] [] []
  wanted :
      (w n : List ℕ) {ws ts ns : List (List ℕ)}
      → ((rest : List ℕ) → ¬ IsMinus w rest)
      → IsStripped u.is_punct (u.to_lower (u.trim_space w)) n
      → Split u ws ts ns
      → Split u (w ∷ ws) (n ∷ ts) ns
  excluded :
      (w rest n : List ℕ) {ws ts ns : List (List ℕ)}
      → IsMinus w rest
      → IsStripped u.is_punct (u.to_lower (u.trim_space rest)) n
      → Split u ws ts ns
      → Split u (w ∷ ws) ts (n ∷ ns)

is_excluded-IsMinus : (w : List ℕ) → is_excluded w ≡ true → IsMinus w (rest_of w)
unfolding is_excluded
is_excluded-IsMinus [] h = cc h
is_excluded-IsMinus (c ∷ []) h = cc h
is_excluded-IsMinus (c ∷ d ∷ cs) h =
    let minus : c ≡ b'-' = ground (arith, h) in
    record {
      whole = ap (λ x. x ∷ d ∷ cs) minus;
      nonempty = λ e. cc e;
      once = λ e. ground (arith, e, h);
    }

IsMinus-is_excluded : (w rest : List ℕ) → IsMinus w rest → is_excluded w ≡ true
unfolding is_excluded
IsMinus-is_excluded w [] m = absurd (m.nonempty refl)
IsMinus-is_excluded w (d ∷ cs) m = elim (Bool-cases (d == b'-')) [
  | inl twice ↦ absurd (m.once (ground (arith, twice)))
  | inr once ↦ ap is_excluded m.whole ∙ rw once refl
]

clean_out :
    (u : Unicode) (w : List ℕ) (ws : List (List ℕ))
    → is_excluded w ≡ true
    → (clean_terms u (w ∷ ws) ≡ clean_terms u ws)
      × (excluded_terms u (w ∷ ws) ≡ normalize_term u (rest_of w) ∷ excluded_terms u ws)
unfolding clean_terms excluded_terms
clean_out u w ws h = (rw (clean_terms, h) refl, rw (excluded_terms, h) refl)

clean_in :
    (u : Unicode) (w : List ℕ) (ws : List (List ℕ))
    → is_excluded w ≡ false
    → (clean_terms u (w ∷ ws) ≡ normalize_term u w ∷ clean_terms u ws)
      × (excluded_terms u (w ∷ ws) ≡ excluded_terms u ws)
unfolding clean_terms excluded_terms
clean_in u w ws h = (rw (clean_terms, h) refl, rw (excluded_terms, h) refl)

pub clean_terms-Split :
    (u : Unicode) (ws : List (List ℕ)) → Split u ws (clean_terms u ws) (excluded_terms u ws)
clean_terms-Split u [] = unfold clean_terms in unfold excluded_terms in done
clean_terms-Split u (w ∷ ws) = elim (Bool-cases (is_excluded w)) [
  | inl out ↦
      let (a, b) = clean_out u w ws out in
      subst₂ (Split u (w ∷ ws)) (sym a) (sym b) (
        excluded w (rest_of w) _ (is_excluded-IsMinus w out)
          (normalize_term-IsStripped u (rest_of w)) (clean_terms-Split u ws))
  | inr kept ↦
      let (a, b) = clean_in u w ws kept in
      subst₂ (Split u (w ∷ ws)) (sym a) (sym b) (
        wanted w _ (λ rest m. absurd (cc (IsMinus-is_excluded w rest m, kept)))
          (normalize_term-IsStripped u w) (clean_terms-Split u ws))
]
