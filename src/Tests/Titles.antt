-- ===== src/Tests/Titles.antt =====
-- The title index on a small input.
use gozim.Base.{
  ℕ, zero, suc, ◌<◌, ◌≡◌, ◌≢◌, refl, sym, ap, ◌∙◌, get_elem?, List, [], ◌∷◌, length, false, Error,
  ok, err, arith,
}
use gozim.Base.Lex.{lex_lt}
use gozim.Dirent.{Dirent, EntryType}
use gozim.Archive.Titles.{find_title}
use gozim.Archive.Titles.ByTitle.{Leads, IsTitleIndex, IsFirstTitle, find_title-IsFirstTitle}

abbrev titled : List ℕ → Dirent
titled title = record {
  mime_type_index = 0;
  namespace = b'C';
  entry_type = EntryType.content;
  version = 0;
  cluster_number = 0;
  blob_number = 0;
  redirect_index = 0;
  path = [];
  title = title;
  extra = [];
}

-- the titles "b" and "a", and the index that has "a" first
abbrev entries : List Dirent
entries = titled (b'b' ∷ []) ∷ titled (b'a' ∷ []) ∷ []

abbrev by_title : List ℕ
by_title = 1 ∷ 0 ∷ []

places : (i : ℕ) → i < length by_title → (n : ℕ) × (d : Dirent) × Leads entries by_title i n d
places zero h = (1, titled (b'a' ∷ []), (refl, refl))
places (suc zero) h = (0, titled (b'b' ∷ []), (refl, refl))
places (suc (suc i)) h = absurd (omega (arith, h))

a_before_b : lex_lt (b'b' ∷ []) (b'a' ∷ []) ≡ false
unfolding lex_lt
a_before_b = refl

in_order :
    (i j n m : ℕ) (d e : Dirent)
    → i < j
    → Leads entries by_title i n d
    → Leads entries by_title j m e
    → lex_lt e.title d.title ≡ false
in_order zero (suc zero) n m d e h p q =
    let n1 : 1 ≡ n = cc (p.0) in
    let m0 : 0 ≡ m = cc (q.0) in
    let d1 : titled (b'a' ∷ []) ≡ d = cc (ap (get_elem? entries) n1 ∙ p.1) in
    let e0 : titled (b'b' ∷ []) ≡ e = cc (ap (get_elem? entries) m0 ∙ q.1) in
    ap (λ x. lex_lt x.title d.title) (sym e0)
    ∙ ap (λ x. lex_lt (b'b' ∷ []) x.title) (sym d1)
    ∙ a_before_b
in_order zero (suc (suc j)) n m d e h p q = cc (q.0)
in_order (suc i) (suc (suc j)) n m d e h p q = cc (q.0)
in_order i zero n m d e h p q = absurd (omega (arith, h))
in_order (suc i) (suc zero) n m d e h p q = absurd (omega (arith, h))

by_title-IsTitleIndex : IsTitleIndex entries by_title
by_title-IsTitleIndex = record { leads = places; ordered = in_order }

find_title-IsFirstTitle_example :
    ((i n : ℕ) (d : Dirent)
      → IsFirstTitle entries by_title (b'b' ∷ []) i n d
      → find_title entries by_title (b'b' ∷ []) ≡ ok (record { dirent = d; index = n }))
    × (((i n : ℕ) (d : Dirent) → Leads entries by_title i n d → d.title ≢ (b'b' ∷ []))
        → find_title entries by_title (b'b' ∷ []) ≡ err Error.entry_not_found)
find_title-IsFirstTitle_example =
    find_title-IsFirstTitle entries by_title (b'b' ∷ []) by_title-IsTitleIndex
