-- ===== src/Writer/Layout/Gathered.antt =====
-- The redirects among the entries that groupItemsIntoClusters gathers.
use gozim.Base.{
  ℕ, zero, suc, ◌+◌, ◌≤◌, ◌≡◌, refl, sym, ap, ◌∙◌, inl, inr, true, Bool-cases, List, [], ◌∷◌, ◌++◌,
  length, get_elem?, length-append, ltb, some, arith,
}
use mathlib.Core.Path.{subst}
use mathlib.Core.List.{append_assoc, append-nil}
use gozim.Base.Positions.{get_elem?-append, get_elem?-append_past}
use gozim.Base.Lex.{bytes_eq_refl}
use gozim.Format.{mime_redirect, namespace_content, namespace_metadata}
use gozim.Dirent.{Dirent, EntryType, is_redirect}
use gozim.Writer.{
  RedirectEntry, IllustrationEntry, Writer, Groups, new_dirent, place_blob, text_plain, image_png,
  illustration_path, append_current, group_items, group_redirects, group_metadata,
  group_illustrations, group_items_into_clusters,
}
use gozim.Writer.Layout.Redirects.{is_redirect_at, At}

-- Entries behind those that are there.
abbrev Grows : Groups → Groups → Type 0
Grows g g' = (more : List Dirent) × (g'.dirents ≡ g.dirents ++ more)

Grows-trans : (g g' g'' : Groups) → Grows g g' → Grows g' g'' → Grows g g''
Grows-trans g g' g'' (m, p) (n, q) = (m ++ n, q ∙ ap (λ ds. ds ++ n) p ∙ append_assoc g.dirents m n)

append_current-Grows : (g : Groups) → Grows g (append_current g)
unfolding append_current
append_current-Grows g = elim (Bool-cases (ltb 0 (length g.blobs))) [
  | inl full ↦ rw (full, append_current) ([], sym (append-nil g.dirents))
  | inr empty ↦ rw (empty, append_current) ([], sym (append-nil g.dirents))
]

place_blob-Grows :
    (g : Groups) (mime : List ℕ) (ns : ℕ) (path title content : List ℕ)
    → Grows g (place_blob g mime ns path title content)
unfolding place_blob
place_blob-Grows g mime ns path title content = (_, refl)

group_metadata-Grows : (ms : List (List ℕ × List ℕ)) (g : Groups) → Grows g (group_metadata g ms)
unfolding group_metadata
group_metadata-Grows [] g = ([], sym (append-nil g.dirents))
group_metadata-Grows ((key, value) ∷ ms) g =
    let g' = place_blob g text_plain namespace_metadata key key value in
    Grows-trans g g' (group_metadata g' ms)
      (place_blob-Grows g text_plain namespace_metadata key key value) (group_metadata-Grows ms g')

group_illustrations-Grows :
    (is : List IllustrationEntry) (g : Groups) → Grows g (group_illustrations g is)
unfolding group_illustrations
group_illustrations-Grows [] g = ([], sym (append-nil g.dirents))
group_illustrations-Grows (i ∷ is) g =
    let path = illustration_path i.size in
    let g' = place_blob g image_png namespace_metadata path path i.image in
    Grows-trans g g' (group_illustrations g' is)
      (place_blob-Grows g image_png namespace_metadata path path i.image)
      (group_illustrations-Grows is g')

abbrev redirect_dirent : RedirectEntry → Dirent
redirect_dirent r = new_dirent mime_redirect namespace_content EntryType.redirect r.path r.title 0 0

redirect_dirent_is : (r : RedirectEntry) → is_redirect_at r.path (redirect_dirent r) ≡ true
unfolding is_redirect
redirect_dirent_is r = bytes_eq_refl r.path

group_redirects-Grows :
    (rs : List RedirectEntry) (g : Groups)
    → Grows g (group_redirects g rs)
      × (length (group_redirects g rs).dirents ≡ length g.dirents + length rs)
unfolding group_redirects
group_redirects-Grows [] g = (([], sym (append-nil g.dirents)), omega arith)
group_redirects-Grows (r ∷ rs) g =
    let d = redirect_dirent r in
    let g' : Groups = record g { dirents = g.dirents ++ (d ∷ []) } in
    let (grows, n) = group_redirects-Grows rs g' in
    (
      Grows-trans g g' (group_redirects g' rs) (d ∷ [], refl) grows,
      omega (arith, n, length-append g.dirents (d ∷ [])),
    )

-- The entry of a redirect stands among the entries.
Holds : Groups → RedirectEntry → Type 0
Holds g r = (k : ℕ) × (d : Dirent) × At g.dirents k d × (is_redirect_at r.path d ≡ true)

Grows-Holds : (g g' : Groups) (r : RedirectEntry) → Grows g g' → Holds g r → Holds g' r
unfolding Holds
Grows-Holds g g' r (more, p) (k, d, at, is) =
    (k, d, ap (λ ds. get_elem? ds k) p ∙ get_elem?-append g.dirents more k d at, is)

group_redirects-Holds :
    (rs : List RedirectEntry) (g : Groups) (n : ℕ) (r : RedirectEntry)
    → get_elem? rs n ≡ some r
    → Holds (group_redirects g rs) r
unfolding group_redirects
group_redirects-Holds [] g n r h = cc h
group_redirects-Holds (x ∷ rs) g (suc n) r h = group_redirects-Holds rs _ n r h
group_redirects-Holds (x ∷ rs) g zero r h =
    let same : x ≡ r = ground (arith, h) in
    let d = redirect_dirent x in
    let g' : Groups = record g { dirents = g.dirents ++ (d ∷ []) } in
    let at : At (g.dirents ++ (d ∷ [])) (length g.dirents + 0) d =
      get_elem?-append_past g.dirents (d ∷ []) 0 in
    subst (Holds (group_redirects g' rs)) same (
      Grows-Holds g' (group_redirects g' rs) x (group_redirects-Grows rs g').0
        (unfold Holds in (length g.dirents + 0, d, at, redirect_dirent_is x)))

-- Every redirect of the writer has its entry, and there are no more redirects than entries.
pub group_items_into_clusters-redirects :
    (w : Writer)
    → (length w.redirects ≤ length (group_items_into_clusters w).dirents)
      × ((n : ℕ) (r : RedirectEntry)
          → get_elem? w.redirects n ≡ some r
          → (k : ℕ) × (d : Dirent) × At (group_items_into_clusters w).dirents k d
            × (is_redirect_at r.path d ≡ true))
unfolding group_items_into_clusters Holds
group_items_into_clusters-redirects w =
    let start : Groups = record {
      mimes = w.mime_list;
      clusters = [];
      blobs = [];
      size = 0;
      dirents = [];
    } in
    let g = append_current (group_items w.cluster_size start w.items) in
    let g1 = group_redirects g w.redirects in
    let g2 = group_metadata g1 w.metadata in
    let g3 = append_current g2 in
    let g4 = group_illustrations g3 w.illustrations in
    let (grows, n) = group_redirects-Grows w.redirects g in
    let all : Grows g1 (append_current g4) =
      Grows-trans g1 g4 (append_current g4)
        (Grows-trans g1 g3 g4
          (Grows-trans g1 g2 g3 (group_metadata-Grows w.metadata g1) (append_current-Grows g2))
          (group_illustrations-Grows w.illustrations g3))
        (append_current-Grows g4) in
    (
      omega (arith, n, ap (length {A = Dirent}) all.1, length-append g1.dirents all.0),
      λ n r h. Grows-Holds g1 (append_current g4) r all (group_redirects-Holds w.redirects g n r h),
    )
