-- ===== src/Archive/Titles/ByTitle.antt =====
-- The look-up of an entry by its title in a sorted title index.
use gozim.Base.{
  ℕ, ◌<◌, ◌≡◌, ◌≢◌, refl, sym, ap, ◌∙◌, inl, inr, Bool, true, false, not, List, length, get_elem?,
  ltb, ltb→lt, Bool-cases, Option-cases, some, Error, ok, err, arith,
}
use mathlib.Core.Path.{subst}
use gozim.Base.Lex.{
  bytes_eq, bytes_eq→eq, bytes_eq_refl, lex_lt, lex_lt_irrefl, lex_lt_trans, lex_lt_connex,
}
use gozim.Base.Positions.{get_elem?-lt}
use gozim.Dirent.{Dirent}
use gozim.Archive.{sort_search}
use gozim.Archive.Search.{Monotone, sort_search-IsFirst}
use gozim.Archive.Titles.{title_at_or_above, find_title}

-- Place `i` of the index leads to this entry.
abbrev pub Leads : List Dirent → List ℕ → ℕ → ℕ → Dirent → Type 0
Leads ds title_idx i n d = (get_elem? title_idx i ≡ some n) × (get_elem? ds n ≡ some d)

-- Every place of the index leads to an entry, and the titles do not descend.
pub record IsTitleIndex (ds : List Dirent) (title_idx : List ℕ) : Type 0 where
  pub leads : (i : ℕ) → i < length title_idx → (n : ℕ) × (d : Dirent) × Leads ds title_idx i n d
  pub ordered :
      (i j n m : ℕ) (d e : Dirent)
      → i < j
      → Leads ds title_idx i n d
      → Leads ds title_idx j m e
      → lex_lt e.title d.title ≡ false

title_at_or_above_lem :
    (ds : List Dirent) (title_idx title : List ℕ) (i n : ℕ) (d : Dirent)
    → Leads ds title_idx i n d
    → title_at_or_above ds title_idx title i ≡ not (lex_lt d.title title)
unfolding title_at_or_above
title_at_or_above_lem ds title_idx title i n d (p, q) = rw (title_at_or_above, p, q) refl

not-false : (b : Bool) → not b ≡ true → b ≡ false
not-false true h = cc h
not-false false h = refl

-- A title that is not below `t`, and another not below it, is not below `t`.
not_below : (t d e : List ℕ) → lex_lt d t ≡ false → lex_lt e d ≡ false → lex_lt e t ≡ false
not_below t d e h k = elim (Bool-cases (lex_lt e t)) [
  | inr above ↦ above
  | inl below ↦ elim (Bool-cases (lex_lt t d)) [
    | inl less ↦ absurd (cc (lex_lt_trans e t d below less, k))
    | inr same ↦
        let p : t ≡ d = lex_lt_connex t d same h in
        let q : lex_lt e d ≡ true = subst (λ x. lex_lt e x ≡ true) p below in absurd (cc (q, k))
  ]
]

title_at_or_above-Monotone :
    (ds : List Dirent) (title_idx title : List ℕ)
    → IsTitleIndex ds title_idx
    → Monotone (length title_idx) (title_at_or_above ds title_idx title)
title_at_or_above-Monotone ds title_idx title s i j ij l t =
    let (n, d, li) = s.leads i (omega arith) in
    let (m, e, lj) = s.leads j l in
    let low : lex_lt d.title title ≡ false =
      not-false _ (sym (title_at_or_above_lem ds title_idx title i n d li) ∙ t) in
    elim (Bool-cases (ltb i j)) [
      | inr same ↦
          let eq : i ≡ j = ground arith in
          subst (λ k. title_at_or_above ds title_idx title k ≡ true) eq t
      | inl less ↦
          title_at_or_above_lem ds title_idx title j m e lj
          ∙ ap not
              (not_below title d.title e.title low (s.ordered i j n m d e (ltb→lt i j less) li lj))
    ]

find_title_found :
    (ds : List Dirent) (title_idx title : List ℕ) (n : ℕ) (d : Dirent)
    → Leads ds title_idx (sort_search (length title_idx) (title_at_or_above ds title_idx title)) n d
    → d.title ≡ title
    → find_title ds title_idx title ≡ ok (record { dirent = d; index = n })
unfolding find_title
find_title_found ds title_idx title n d (p, q) same =
    let b : bytes_eq d.title title ≡ true =
      subst (λ t. bytes_eq d.title t ≡ true) same (bytes_eq_refl d.title) in
    rw (find_title, p, q, b) refl

-- The first place of the index whose title is this one.
pub record IsFirstTitle (ds : List Dirent) (title_idx title : List ℕ) (i n : ℕ) (d : Dirent)
    : Type 0 where
  pub leads : Leads ds title_idx i n d
  pub title_is : d.title ≡ title
  pub first : (j m : ℕ) (e : Dirent) → j < i → Leads ds title_idx j m e → e.title ≢ title

abbrev place : List Dirent → List ℕ → List ℕ → ℕ
place ds title_idx title = sort_search (length title_idx) (title_at_or_above ds title_idx title)

place_first :
    (ds : List Dirent) (title_idx title : List ℕ) (i n : ℕ) (d : Dirent)
    → IsTitleIndex ds title_idx
    → IsFirstTitle ds title_idx title i n d
    → place ds title_idx title ≡ i
place_first ds title_idx title i n d s here =
    let test = title_at_or_above ds title_idx title in
    let r = place ds title_idx title in
    let found =
      sort_search-IsFirst (length title_idx) test
        (title_at_or_above-Monotone ds title_idx title s) in
    let inside = get_elem?-lt title_idx i n here.leads.0 in
    let holds : test i ≡ true =
      title_at_or_above_lem ds title_idx title i n d here.leads
      ∙ ap (λ t. not (lex_lt t title)) here.title_is
      ∙ ap not (lex_lt_irrefl title) in
    elim (Bool-cases (ltb i r)) [
      | inl early ↦ absurd (cc (found.below i (ltb→lt i r early), holds))
      | inr late ↦ elim (Bool-cases (ltb r i)) [
        | inr no_less ↦ ground (arith, late, no_less)
        | inl less ↦
            let below = ltb→lt r i less in
            let (m, e, at) = s.leads r (omega (arith, below, inside)) in
            let up = found.above r (omega arith) (omega (arith, below, inside)) in
            let a : lex_lt e.title title ≡ false =
              not-false _ (sym (title_at_or_above_lem ds title_idx title r m e at) ∙ up) in
            let b : lex_lt title e.title ≡ false =
              ap (λ t. lex_lt t e.title) (sym here.title_is)
              ∙ s.ordered r i m n e d below at here.leads in
            absurd (here.first r m e below at (lex_lt_connex e.title title a b))
      ]
    ]

find_title_missing :
    (ds : List Dirent) (title_idx title : List ℕ)
    → ((i n : ℕ) (d : Dirent) → Leads ds title_idx i n d → d.title ≢ title)
    → find_title ds title_idx title ≡ err Error.entry_not_found
unfolding find_title
find_title_missing ds title_idx title no_title =
    let r = place ds title_idx title in
    elim (Option-cases (get_elem? title_idx r)) [
      | inl gone ↦ rw (find_title, gone) refl
      | inr (n, at) ↦ elim (Option-cases (get_elem? ds n)) [
        | inl gone ↦ rw (find_title, at, gone) refl
        | inr (d, there) ↦ elim (Bool-cases (bytes_eq d.title title)) [
          | inl same ↦ absurd (no_title r n d (at, there) (bytes_eq→eq d.title title same))
          | inr other ↦ rw (find_title, at, there, other) refl
        ]
      ]
    ]

-- In an index whose places all lead to entries, with titles that do not descend, the look-up by title
-- returns the entry at the first place that has the title, and where no place has it, the error is
-- that the entry is not found.
pub find_title-IsFirstTitle :
    (ds : List Dirent) (title_idx title : List ℕ)
    → IsTitleIndex ds title_idx
    → ((i n : ℕ) (d : Dirent)
        → IsFirstTitle ds title_idx title i n d
        → find_title ds title_idx title ≡ ok (record { dirent = d; index = n }))
      × (((i n : ℕ) (d : Dirent) → Leads ds title_idx i n d → d.title ≢ title)
          → find_title ds title_idx title ≡ err Error.entry_not_found)
find_title-IsFirstTitle ds title_idx title s = (
  (λ i n d here.
      find_title_found ds title_idx title n d
        (subst (λ k. Leads ds title_idx k n d) (sym (place_first ds title_idx title i n d s here))
          here.leads)
        here.title_is),
  find_title_missing ds title_idx title,
)
