-- ===== src/Integrity/Links/Ends.antt =====
-- The search for the links of a page ends.
use gozim.Base.{
  ℕ, zero, suc, ◌+◌, ◌-◌, ◌≤◌, ◌<◌, ◌≡◌, refl, ap, ◌∙◌, inl, inr, ◌==◌, le→leb, Bool-cases,
  Option-cases, Bool, List, [], ◌∷◌, length, drop, length-drop, none, some, ok, arith,
}
use gozim.Base.Strings.{index_of, index_of-le}
use gozim.Integrity.Links.{
  Link, index_where, ends_link, is_quote, link_at, link_then, links_from, links_of,
}

index_where-lt : (p : ℕ → Bool) (s : List ℕ) (i : ℕ) → index_where p s ≡ some i → i < length s
unfolding index_where
index_where-lt p [] i h = cc h
index_where-lt p (c ∷ cs) i h = elim (Bool-cases (p c)) [
  | inl here ↦ ground (arith, here, h)
  | inr there ↦ elim (Option-cases (index_where p cs)) [
    | inl gone ↦ ground (arith, there, gone, h)
    | inr (j, at) ↦ ground (arith, there, at, h, index_where-lt p cs j at)
  ]
]

-- The position does not go past the end.
link_at-le : (rest : List ℕ) (l : Link) (on : ℕ) → link_at rest ≡ some (l, on) → on ≤ length rest
unfolding link_at
link_at-le [] l on h = cc h
link_at-le (c ∷ []) l on h = cc h
link_at-le (c ∷ d ∷ rest) l on h = elim (Bool-cases (is_quote c)) [
  | inl quote ↦ elim (Option-cases (index_where (λ b. b == c) (d ∷ rest))) [
    | inl gone ↦ ground (arith, quote, gone, h)
    | inr (i, at) ↦ ground (arith, quote, at, h, index_where-lt (λ b. b == c) (d ∷ rest) i at)
  ]
  | inr bare ↦ elim (Option-cases (index_where ends_link (c ∷ d ∷ rest))) [
    | inl gone ↦ ground (arith, bare, gone, h)
    | inr (i, at) ↦ ground (arith, bare, at, h, index_where-lt ends_link (c ∷ d ∷ rest) i at)
  ]
]

round_none :
    (rounds : ℕ) (content attr : List ℕ) (pos : ℕ)
    → pos ≤ length content
    → index_of (drop pos content) attr ≡ none
    → links_from (suc rounds) content attr pos ≡ some (ok [])
unfolding links_from
round_none rounds content attr pos h gone =
    rw (links_from, le→leb pos (length content) h, gone) refl

round_break :
    (rounds : ℕ) (content attr : List ℕ) (pos idx : ℕ)
    → pos ≤ length content
    → index_of (drop pos content) attr ≡ some idx
    → pos + idx + length attr ≤ length content
    → link_at (drop (pos + idx + length attr) content) ≡ none
    → links_from (suc rounds) content attr pos ≡ some (ok [])
unfolding links_from
round_break rounds content attr pos idx h at inside stop =
    rw
      (
        links_from,
        le→leb pos (length content) h,
        at,
        le→leb (pos + idx + length attr) (length content) inside,
        stop,
      )
      refl

round_link :
    (rounds : ℕ) (content attr : List ℕ) (pos idx : ℕ) (l : Link) (on : ℕ)
    → pos ≤ length content
    → index_of (drop pos content) attr ≡ some idx
    → pos + idx + length attr ≤ length content
    → link_at (drop (pos + idx + length attr) content) ≡ some (l, on)
    → links_from (suc rounds) content attr pos
      ≡ link_then l (links_from rounds content attr (pos + idx + length attr + on))
unfolding links_from
round_link rounds content attr pos idx l on h at inside found =
    rw
      (
        links_from,
        le→leb pos (length content) h,
        at,
        le→leb (pos + idx + length attr) (length content) inside,
        found,
      )
      refl

links_from-some :
    (rounds : ℕ) (content attr : List ℕ) (pos : ℕ)
    → 0 < length attr
    → pos ≤ length content
    → length content - pos < rounds
    → (ls : List Link) × (links_from rounds content attr pos ≡ some (ok ls))
links_from-some zero content attr pos some_attr h enough = absurd (omega arith)
links_from-some (suc rounds) content attr pos some_attr h enough =
    elim (Option-cases (index_of (drop pos content) attr)) [
      | inl gone ↦ ([], round_none rounds content attr pos h gone)
      | inr (idx, at) ↦
          let inside = index_of-le (drop pos content) attr idx at in
          let behind = pos + idx + length attr in
          let n = length-drop pos content in
          elim (Option-cases (link_at (drop behind content))) [
            | inl stop ↦ ([], round_break rounds content attr pos idx h at (omega arith) stop)
            | inr ((l, on), found) ↦
                let le = link_at-le (drop behind content) l on found in
                let m = length-drop behind content in
                let (ls, rest) =
                  links_from-some rounds content attr (behind + on) some_attr (omega arith)
                    (omega arith) in
                (
                  l ∷ ls,
                  round_link rounds content attr pos idx l on h at (omega arith) found
                      ∙ ap (link_then l) rest,
                )
          ]
    ]

-- The search for the links of an attribute with a name ends for every content, within one round more
-- than the content has bytes, and no slice is out of range.
pub links_of-ok :
    (content attr : List ℕ) → 0 < length attr → (ls : List Link) × (links_of content attr ≡ ok ls)
unfolding links_of
links_of-ok content attr some_attr =
    let (ls, e) =
      links_from-some (suc (length content)) content attr 0 some_attr (omega arith) (omega arith) in
    (ls, rw (links_of, e) refl)
