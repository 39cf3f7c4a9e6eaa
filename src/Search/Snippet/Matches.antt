-- ===== src/Search/Snippet/Matches.antt =====
-- The loop over the places of a term ends for every term but the empty one.
use gozim.Base.{
  ℕ, zero, suc, ◌+◌, ◌-◌, ◌≤◌, ◌<◌, ◌≡◌, ◌≢◌, ◌↔◌, refl, ap, ◌∙◌, inl, inr, le→leb, Option-cases,
  List, [], ◌∷◌, length, drop, length-drop, none, some, ok, arith,
}
use gozim.Base.Strings.{index_of, index_of_nil, index_of-le}
use gozim.Search.Snippet.{Match, and_then, matches_from}

round_end :
    (rounds : ℕ) (lower term term_lower : List ℕ) (pos : ℕ)
    → pos ≤ length lower
    → index_of (drop pos lower) term_lower ≡ none
    → matches_from (suc rounds) lower term term_lower pos ≡ some (ok [])
unfolding matches_from
round_end rounds lower term term_lower pos h gone =
    rw (matches_from, le→leb pos (length lower) h, gone) refl

round_more :
    (rounds : ℕ) (lower term term_lower : List ℕ) (pos idx : ℕ)
    → pos ≤ length lower
    → index_of (drop pos lower) term_lower ≡ some idx
    → matches_from (suc rounds) lower term term_lower pos
      ≡ and_then
          (record { start = pos + idx; end = pos + idx + length term })
          (matches_from rounds lower term term_lower (pos + idx + length term))
unfolding matches_from
round_more rounds lower term term_lower pos idx h at =
    rw (matches_from, le→leb pos (length lower) h, at) refl

-- With an empty term the position stays where it is, and no number of rounds is enough.
matches_from_empty :
    (rounds : ℕ) (lower : List ℕ) (pos : ℕ)
    → pos ≤ length lower
    → matches_from rounds lower [] [] pos ≡ none
matches_from_empty zero lower pos h = unfold matches_from in refl
matches_from_empty (suc rounds) lower pos h =
    let at : pos + 0 + 0 ≡ pos = omega arith in
    round_more rounds lower [] [] pos 0 h (index_of_nil (drop pos lower))
    ∙ ap
        (λ p.
          and_then (record { start = pos + 0; end = pos + 0 + 0 })
            (matches_from rounds lower [] [] p))
        at
    ∙ ap (and_then (record { start = pos + 0; end = pos + 0 + 0 }))
        (matches_from_empty rounds lower pos h)

-- With any other term each round goes on by its length, so that the length of the rest is enough.
matches_from-some :
    (rounds : ℕ) (lower term term_lower : List ℕ) (pos : ℕ)
    → 0 < length term
    → length term_lower ≡ length term
    → pos ≤ length lower
    → length lower - pos < rounds
    → (ms : List Match) × (matches_from rounds lower term term_lower pos ≡ some (ok ms))
matches_from-some zero lower term term_lower pos h l p enough = absurd (omega arith)
matches_from-some (suc rounds) lower term term_lower pos h l p enough =
    elim (Option-cases (index_of (drop pos lower) term_lower)) [
      | inl gone ↦ ([], round_end rounds lower term term_lower pos p gone)
      | inr (idx, at) ↦
          let inside = index_of-le (drop pos lower) term_lower idx at in
          let n = length-drop pos lower in
          let (ms, rest) =
            matches_from-some rounds lower term term_lower (pos + idx + length term) h l
              (omega arith) (omega arith) in
          let m : Match = record { start = pos + idx; end = pos + idx + length term } in
          (m ∷ ms, round_more rounds lower term term_lower pos idx p at ∙ ap (and_then m) rest)
    ]

-- The loop over the places of a term in a text ends, and with a list of matches, exactly when the
-- term is not empty; an empty term keeps it going without end. The lowered term is as long as the
-- term.
pub matches_from_ends :
    (lower term term_lower : List ℕ)
    → length term_lower ≡ length term
    → ((rounds : ℕ) × (ms : List Match) × (matches_from rounds lower term term_lower 0
          ≡ some (ok ms)))
      ↔ (term ≢ [])
matches_from_ends lower [] [] l = (
  (λ (rounds, ms, e). absurd (ground (arith, e, matches_from_empty rounds lower 0 (omega arith)))),
  λ h. absurd (h refl),
)
matches_from_ends lower [] (c ∷ cs) l = absurd (omega (arith, l))
matches_from_ends lower (c ∷ cs) term_lower l = (
  (λ _. λ e. cc e),
  λ _.
      let (ms, e) =
        matches_from-some (suc (length lower)) lower (c ∷ cs) term_lower 0 (omega arith) l
          (omega arith) (omega arith) in
      (suc (length lower), ms, e),
)
