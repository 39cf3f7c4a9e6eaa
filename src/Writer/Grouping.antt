-- ===== src/Writer/Grouping.antt =====
-- Every entry that the writer makes for a content points to that content in the clusters.
use gozim.Base.{
  ℕ, suc, ◌+◌, ◌%◌, ◌^◌, ◌≤◌, ◌<◌, ◌≡◌, refl, sym, inl, inr, false, ◌&&◌, List, [], ◌∷◌, ◌++◌,
  length, length-append, ltb, Bool-cases, Option, none, some, arith,
}
use mathlib.Core.List.{append_assoc, append-nil}
use mathlib.Core.Path.{subst}
use native.Mathlib.Nat.{add-zero}
use gozim.Format.{namespace_content, namespace_metadata, mime_redirect}
use gozim.Dirent.{EntryType}
use gozim.Writer.{
  WriterItem, RedirectEntry, IllustrationEntry, Writer, Groups, place_blob, close_full, group_items,
  append_current, group_redirects, group_metadata, group_illustrations, group_items_into_clusters,
  new_dirent, text_plain, image_png, illustration_path,
}
use gozim.Writer.Held.{
  Grows, all_groups, Grows-append, Grows-blob, Grows-empty, look-last, AllHeld, AllHeld-Grows,
  AllHeld-append,
}

-- After `k` blobs and closings: few clusters and blobs, and every entry so far has its content.
record Grouped (k : ℕ) (contents : List (Option (List ℕ))) (g : Groups) : Type 0 where
  count : length g.clusters + length g.blobs ≤ k
  held : AllHeld (all_groups g) g.dirents contents

close_full-Grouped :
    (k size : ℕ) (contents : List (Option (List ℕ))) (g : Groups) (c : List ℕ)
    → Grouped k contents g
    → Grouped k contents (close_full size g c)
unfolding close_full
close_full-Grouped k size contents g c i =
    elim (Bool-cases (ltb size ((g.size + length c) % 2 ^ 64) && ltb 0 (length g.blobs))) [
      | inr keep ↦ simp (keep) i
      | inl full ↦
          let closed : Groups = record g { clusters = all_groups g; blobs = []; size = 0 } in
          let i' : Grouped k contents closed = record {
            count = ground (arith, i.count, length-append g.clusters (g.blobs ∷ []));
            held =
                AllHeld-Grows (all_groups g) (all_groups closed) g.dirents contents
                  (Grows-append (all_groups g) ([] ∷ [])) i.held;
          } in
          simp (full) i'
    ]

place_blob-Grouped :
    (k : ℕ) (contents : List (Option (List ℕ))) (g : Groups) (mime : List ℕ) (ns : ℕ)
    (path title c : List ℕ)
    → k < 2 ^ 32
    → Grouped k contents g
    → Grouped (k + 1) (contents ++ (some c ∷ [])) (place_blob g mime ns path title c)
unfolding place_blob
place_blob-Grouped k contents g mime ns path title c small i =
    let cluster : length g.clusters % 2 ^ 32 ≡ length g.clusters = omega (arith, i.count) in
    let blob : length g.blobs % 2 ^ 32 ≡ length g.blobs = omega (arith, i.count) in
    let placed = g.clusters ++ ((g.blobs ++ (c ∷ [])) ∷ []) in
    record {
      count = omega (arith, i.count, length-append g.blobs (c ∷ []));
      held =
          AllHeld-append placed g.dirents contents _ (some c)
            (AllHeld-Grows (all_groups g) placed g.dirents contents
              (Grows-blob g.clusters g.blobs (c ∷ [])) i.held)
            (rw (cluster, blob) (look-last g.clusters g.blobs c));
    }

no_blobs : (bs : List (List ℕ)) → ltb 0 (length bs) ≡ false → bs ≡ []
no_blobs [] h = refl
no_blobs (b ∷ bs) h = absurd (ground (arith, h))

regroup :
    (k n : ℕ) (contents : List (Option (List ℕ))) (c : Option (List ℕ))
    (more : List (Option (List ℕ))) (g : Groups)
    → Grouped (k + 1 + n) ((contents ++ (c ∷ [])) ++ more) g
    → Grouped (k + suc n) (contents ++ (c ∷ more)) g
regroup k n contents c more g i =
    let number : k + 1 + n ≡ k + suc n = omega arith in
    subst (λ m. Grouped m (contents ++ (c ∷ more)) g) number
      (subst (λ l. Grouped (k + 1 + n) l g) (append_assoc contents (c ∷ []) more) i)

-- Once the current group is appended, the entries have their contents without it.
append_current-AllHeld :
    (k : ℕ) (contents : List (Option (List ℕ))) (g : Groups)
    → Grouped k contents g
    → AllHeld (append_current g).clusters (append_current g).dirents contents
unfolding append_current
append_current-AllHeld k contents g i = elim (Bool-cases (ltb 0 (length g.blobs))) [
  | inl more ↦ simp (more) i.held
  | inr idle ↦
      let empty = no_blobs g.blobs idle in
      simp (idle) (
        AllHeld-Grows (all_groups g) g.clusters g.dirents contents
          (subst (λ bs. Grows (g.clusters ++ (bs ∷ [])) g.clusters) (sym empty)
            (Grows-empty g.clusters))
          i.held)
]

append_current-few :
    (k : ℕ) (g : Groups)
    → length g.clusters + length g.blobs ≤ k
    → length (append_current g).clusters + length (append_current g).blobs ≤ k + 1
unfolding append_current
append_current-few k g h = ground (arith, length-append g.clusters (g.blobs ∷ []))

append_current-Grouped :
    (k : ℕ) (contents : List (Option (List ℕ))) (g : Groups)
    → Grouped k contents g
    → Grouped (k + 1) contents (append_current g)
append_current-Grouped k contents g i = record {
  count = append_current-few k g i.count;
  held =
      AllHeld-Grows (append_current g).clusters (all_groups (append_current g))
        (append_current g).dirents contents
        (Grows-append (append_current g).clusters ((append_current g).blobs ∷ []))
        (append_current-AllHeld k contents g i);
}

-- What the entries of items, redirects, metadata and illustrations are to hold.
abbrev pub item_contents : List WriterItem → List (Option (List ℕ))
item_contents [] = []
item_contents (w ∷ ws) = some w.content ∷ item_contents ws

abbrev pub no_contents : List RedirectEntry → List (Option (List ℕ))
no_contents [] = []
no_contents (r ∷ rs) = none ∷ no_contents rs

abbrev pub values : List (List ℕ × List ℕ) → List (Option (List ℕ))
values [] = []
values ((key, value) ∷ ms) = some value ∷ values ms

abbrev pub images : List IllustrationEntry → List (Option (List ℕ))
images [] = []
images (i ∷ is) = some i.image ∷ images is

group_items-Grouped :
    (k size : ℕ) (contents : List (Option (List ℕ))) (g : Groups) (ws : List WriterItem)
    → k + length ws < 2 ^ 32
    → Grouped k contents g
    → Grouped (k + length ws) (contents ++ item_contents ws) (group_items size g ws)
unfolding group_items
group_items-Grouped k size contents g [] small i = rw (add-zero, append-nil) i
group_items-Grouped k size contents g (w ∷ ws) small i =
    let g' = close_full size g w.content in
    let next =
      place_blob-Grouped k contents g' w.item.mime_type namespace_content w.item.path w.item.title
        w.content (omega arith) (close_full-Grouped k size contents g w.content i) in
    regroup k (length ws) contents (some w.content) (item_contents ws) _
      (group_items-Grouped (k + 1) size (contents ++ (some w.content ∷ [])) _ ws (omega arith) next)

group_redirects-Grouped :
    (k : ℕ) (contents : List (Option (List ℕ))) (g : Groups) (rs : List RedirectEntry)
    → Grouped k contents g
    → Grouped k (contents ++ no_contents rs) (group_redirects g rs)
unfolding group_redirects
group_redirects-Grouped k contents g [] i = rw append-nil i
group_redirects-Grouped k contents g (r ∷ rs) i =
    let d = new_dirent mime_redirect namespace_content EntryType.redirect r.path r.title 0 0 in
    let g' : Groups = record g { dirents = g.dirents ++ (d ∷ []) } in
    let next : Grouped k (contents ++ (none ∷ [])) g' = record {
      count = i.count;
      held = AllHeld-append (all_groups g) g.dirents contents d none i.held refl;
    } in
    subst (λ l. Grouped k l (group_redirects g' rs))
      (append_assoc contents (none ∷ []) (no_contents rs))
      (group_redirects-Grouped k (contents ++ (none ∷ [])) g' rs next)

group_metadata-Grouped :
    (k : ℕ) (contents : List (Option (List ℕ))) (g : Groups) (ms : List (List ℕ × List ℕ))
    → k + length ms < 2 ^ 32
    → Grouped k contents g
    → Grouped (k + length ms) (contents ++ values ms) (group_metadata g ms)
unfolding group_metadata
group_metadata-Grouped k contents g [] small i = rw (add-zero, append-nil) i
group_metadata-Grouped k contents g ((key, value) ∷ ms) small i =
    let next =
      place_blob-Grouped k contents g text_plain namespace_metadata key key value (omega arith) i in
    regroup k (length ms) contents (some value) (values ms) _
      (group_metadata-Grouped (k + 1) (contents ++ (some value ∷ [])) _ ms (omega arith) next)

group_illustrations-Grouped :
    (k : ℕ) (contents : List (Option (List ℕ))) (g : Groups) (is : List IllustrationEntry)
    → k + length is < 2 ^ 32
    → Grouped k contents g
    → Grouped (k + length is) (contents ++ images is) (group_illustrations g is)
unfolding group_illustrations
group_illustrations-Grouped k contents g [] small i = rw (add-zero, append-nil) i
group_illustrations-Grouped k contents g (x ∷ is) small i =
    let next =
      place_blob-Grouped k contents g image_png namespace_metadata (illustration_path x.size)
        (illustration_path x.size) x.image (omega arith) i in
    regroup k (length is) contents (some x.image) (images is) _ (
      group_illustrations-Grouped (k + 1) (contents ++ (some x.image ∷ [])) _ is (omega arith) next)

-- What the entries are to hold: the items' contents, nothing for the redirects, the values of the
-- metadata and the illustrations.
abbrev pub expected : Writer → List (Option (List ℕ))
expected w =
    ((item_contents w.items ++ no_contents w.redirects) ++ values w.metadata)
    ++ images w.illustrations

-- With fewer contents than 2^32 less two, the writer makes an entry for each item, redirect, metadata value and
-- illustration, in this order, and the cluster and blob number of each entry are where its content
-- stands in the clusters; the entry of a redirect is marked as one.
pub group_items_into_clusters-AllHeld :
    (w : Writer)
    → length w.items + length w.metadata + length w.illustrations + 2 < 2 ^ 32
    → AllHeld
        (group_items_into_clusters w).clusters
        (group_items_into_clusters w).dirents
        (expected w)
unfolding group_items_into_clusters
group_items_into_clusters-AllHeld w small =
    let start : Groups = record {
      mimes = w.mime_list;
      clusters = [];
      blobs = [];
      size = 0;
      dirents = [];
    } in
    let n = length w.items in
    let m = length w.metadata in
    let a =
      group_items-Grouped 0 w.cluster_size [] start w.items (omega arith)
        (record { count = omega arith; held = tt }) in
    let b = append_current-Grouped (0 + n) (item_contents w.items) _ a in
    let c = group_redirects-Grouped (0 + n + 1) (item_contents w.items) _ w.redirects b in
    let d =
      group_metadata-Grouped (0 + n + 1) (item_contents w.items ++ no_contents w.redirects) _
        w.metadata (omega arith) c in
    let e = append_current-Grouped (0 + n + 1 + m) _ _ d in
    let f = group_illustrations-Grouped (0 + n + 1 + m + 1) _ _ w.illustrations (omega arith) e in
    append_current-AllHeld _ (expected w) _ f
