-- ===== src/Writer/Held.antt =====
-- Where a blob stands in the clusters, and what it takes for every entry to point to its content.
use gozim.Base.{ℕ, zero, suc, ◌≡◌, refl, List, [], ◌∷◌, ◌++◌, length, get_elem?, Option, none, some}
use gozim.Base.Positions.{get_elem?-append}
use gozim.Dirent.{Dirent, EntryType}
use gozim.Writer.{Groups}

-- The blob with a number in the cluster with a number.
abbrev pub look : List (List (List ℕ)) → ℕ → ℕ → Option (List ℕ)
look clusters m n = elim (get_elem? clusters m) [ none ↦ none | some blobs ↦ get_elem? blobs n ]

-- The second clusters hold every blob of the first at its place.
abbrev pub Grows : List (List (List ℕ)) → List (List (List ℕ)) → Type 0
Grows cs ds = (m n : ℕ) (c : List ℕ) → look cs m n ≡ some c → look ds m n ≡ some c

module _ {A : Type 0} where
  get_elem?-length : (xs ys : List A) (a : A) → get_elem? (xs ++ (a ∷ ys)) (length xs) ≡ some a
  get_elem?-length [] ys a = refl
  get_elem?-length (x ∷ xs) ys a = get_elem?-length xs ys a

-- The clusters with the current group as the last one.
abbrev pub all_groups : Groups → List (List (List ℕ))
all_groups g = g.clusters ++ (g.blobs ∷ [])

pub Grows-append : (cs ds : List (List (List ℕ))) → Grows cs (cs ++ ds)
Grows-append [] ds m n c h = cc h
Grows-append (x ∷ cs) ds zero n c h = h
Grows-append (x ∷ cs) ds (suc m) n c h = Grows-append cs ds m n c h

pub Grows-blob :
    (cs : List (List (List ℕ))) (bs more : List (List ℕ))
    → Grows (cs ++ (bs ∷ [])) (cs ++ ((bs ++ more) ∷ []))
Grows-blob [] bs more zero n c h = get_elem?-append bs more n c h
Grows-blob [] bs more (suc m) n c h = cc h
Grows-blob (x ∷ cs) bs more zero n c h = h
Grows-blob (x ∷ cs) bs more (suc m) n c h = Grows-blob cs bs more m n c h

-- An empty last cluster holds nothing.
pub Grows-empty : (cs : List (List (List ℕ))) → Grows (cs ++ ([] ∷ [])) cs
Grows-empty [] zero n c h = cc h
Grows-empty [] (suc m) n c h = cc h
Grows-empty (x ∷ cs) zero n c h = h
Grows-empty (x ∷ cs) (suc m) n c h = Grows-empty cs m n c h

pub look-last :
    (cs : List (List (List ℕ))) (bs : List (List ℕ)) (c : List ℕ)
    → look (cs ++ ((bs ++ (c ∷ [])) ∷ [])) (length cs) (length bs) ≡ some c
look-last cs bs c = rw (get_elem?-length cs [] (bs ++ (c ∷ [])), look) (get_elem?-length bs [] c)

-- A content stands where its entry points to; a redirect has none.
abbrev pub Held : List (List (List ℕ)) → Dirent → Option (List ℕ) → Type 0
Held cs d none = d.entry_type ≡ EntryType.redirect
Held cs d (some c) = look cs d.cluster_number d.blob_number ≡ some c

-- Entry by entry, in order.
abbrev pub AllHeld : List (List (List ℕ)) → List Dirent → List (Option (List ℕ)) → Type 0
AllHeld cs [] [] = Unit {0}
AllHeld cs (d ∷ ds) (c ∷ contents) = Held cs d c × AllHeld cs ds contents
AllHeld cs _ _ = ⊥

pub AllHeld-Grows :
    (cs cs' : List (List (List ℕ))) (ds : List Dirent) (contents : List (Option (List ℕ)))
    → Grows cs cs'
    → AllHeld cs ds contents
    → AllHeld cs' ds contents
AllHeld-Grows cs cs' [] [] g h = tt
AllHeld-Grows cs cs' [] (c ∷ contents) g h = h
AllHeld-Grows cs cs' (d ∷ ds) [] g h = h
AllHeld-Grows cs cs' (d ∷ ds) (none ∷ contents) g h = (h.0, AllHeld-Grows cs cs' ds contents g h.1)
AllHeld-Grows cs cs' (d ∷ ds) (some c ∷ contents) g h =
    (g d.cluster_number d.blob_number c h.0, AllHeld-Grows cs cs' ds contents g h.1)

pub AllHeld-append :
    (cs : List (List (List ℕ))) (ds : List Dirent) (contents : List (Option (List ℕ))) (d : Dirent)
    (c : Option (List ℕ))
    → AllHeld cs ds contents
    → Held cs d c
    → AllHeld cs (ds ++ (d ∷ [])) (contents ++ (c ∷ []))
AllHeld-append cs [] [] d c h k = (k, tt)
AllHeld-append cs [] (x ∷ contents) d c h k = absurd h
AllHeld-append cs (e ∷ ds) [] d c h k = absurd h
AllHeld-append cs (e ∷ ds) (x ∷ contents) d c h k = (h.0, AllHeld-append cs ds contents d c h.1 k)
