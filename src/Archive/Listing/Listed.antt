-- ===== src/Archive/Listing/Listed.antt =====
-- Which entries a listing holds.
use gozim.Base.{
  ℕ, zero, suc, ◌+◌, ◌≡◌, ◌↔◌, refl, sym, ap, ◌∙◌, ◌⊎◌, inl, inr, Bool, true, false, List, [], ◌∷◌,
  ◌++◌, length, length-append, take, drop, take-append_length, leb, Bool-cases, some, get_elem?,
  arith,
}
use mathlib.Core.Path.{subst, ap₂}
use native.Mathlib.Nat.{add-zero, zero-add}
use gozim.Base.Lex.{bytes_eq→eq, bytes_eq_refl}
use gozim.Dirent.{Dirent, is_deleted}
use gozim.Archive.{Archive, Entry}
use gozim.Archive.Listing.{listed_from, iterate_dirents, path_begins, find_by_path}

-- The entry is one of those listed.
unfoldable pub Listed : Entry → List Entry → Type 0
Listed e [] = ⊥
Listed e (f ∷ es) = (e ≡ f) ⊎ Listed e es

-- Not deleted, and passed by the filter.
abbrev Kept : (Dirent → Bool) → Dirent → Type 0
Kept filter d = (is_deleted d ≡ false) × (filter d ≡ true)

-- The element at an index, kept by the filter, with the indices counted from `i` on.
abbrev At : ℕ → (Dirent → Bool) → List Dirent → Entry → Type 0
At i filter ds e =
    (k : ℕ) × (e.index ≡ i + k) × (get_elem? ds k ≡ some e.dirent) × Kept filter e.dirent

At-shift :
    (i : ℕ) (filter : Dirent → Bool) (d : Dirent) (ds : List Dirent) (e : Entry)
    → At (suc i) filter ds e
    → At i filter (d ∷ ds) e
At-shift i filter d ds e (k, index, at, kept) = (suc k, omega arith, at, kept)

At-listed_from :
    (i : ℕ) (filter : Dirent → Bool) (ds : List Dirent) (e : Entry)
    → Listed e (listed_from i filter ds)
    → At i filter ds e
unfolding listed_from Listed
At-listed_from i filter [] e h = absurd h
At-listed_from i filter (d ∷ ds) e h =
    let later = λ (l : Listed e (listed_from (suc i) filter ds)).
      At-shift i filter d ds e (At-listed_from (suc i) filter ds e l) in
    elim (Bool-cases (is_deleted d)) [
      | inl gone ↦ later (rw gone at h)
      | inr live ↦ elim (Bool-cases (filter d)) [
        | inr out ↦ later (rw (live, out) at h)
        | inl kept ↦
            let h' : (e ≡ record { dirent = d; index = i })
                ⊎ Listed e (listed_from (suc i) filter ds) =
              rw (live, kept) at h in
            elim h' [
              | inr l ↦ later l
              | inl same ↦
                  let this : e.dirent ≡ d = ap (λ (x : Entry). x.dirent) same in
                  (
                    0,
                    omega (arith, ap (λ (x : Entry). x.index) same),
                    ap some (sym this),
                    (ap is_deleted this ∙ live, ap filter this ∙ kept),
                  )
            ]
      ]
    ]

abbrev entry_at : Dirent → ℕ → Entry
entry_at d n = record { dirent = d; index = n }

listed_from-At :
    (i : ℕ) (filter : Dirent → Bool) (ds : List Dirent) (k : ℕ) (d : Dirent)
    → get_elem? ds k ≡ some d
    → Kept filter d
    → Listed (record { dirent = d; index = i + k }) (listed_from i filter ds)
unfolding listed_from Listed
listed_from-At i filter [] k d at kept = cc
listed_from-At i filter (f ∷ ds) zero d at kept =
    let same : f ≡ d = ground (arith, at) in
    let live : is_deleted f ≡ false = ap is_deleted same ∙ kept.0 in
    let passes : filter f ≡ true = ap filter same ∙ kept.1 in
    let this : record { dirent = d; index = i + 0 } ≡ record { dirent = f; index = i } =
      ap₂ entry_at (sym same) (add-zero i) in
    rw (live, passes) (inl this)
listed_from-At i filter (f ∷ ds) (suc k) d at kept =
    let rest = listed_from (suc i) filter ds in
    let index : suc i + k ≡ i + suc k = omega arith in
    let later : Listed (record { dirent = d; index = i + suc k }) rest =
      subst (λ n. Listed (entry_at d n) rest) index
        (listed_from-At (suc i) filter ds k d at kept) in
    elim (Bool-cases (is_deleted f)) [
      | inl gone ↦ rw gone later
      | inr live ↦ elim (Bool-cases (filter f)) [
        | inl passes ↦ rw (live, passes) (inr later)
        | inr out ↦ rw (live, out) later
      ]
    ]

-- What `path_begins` tests: the path is the prefix with something behind it.
abbrev Begins : List ℕ → List ℕ → Type 0
Begins prefix path = (rest : List ℕ) × (path ≡ prefix ++ rest)

take-drop_lem : (n : ℕ) (xs : List ℕ) → xs ≡ take n xs ++ drop n xs
take-drop_lem zero xs = refl
take-drop_lem (suc n) [] = refl
take-drop_lem (suc n) (x ∷ xs) = ap (◌∷◌ x) (take-drop_lem n xs)

path_begins_iff :
    (prefix : List ℕ) (d : Dirent) → (path_begins prefix d ≡ true) ↔ Begins prefix d.path
unfolding path_begins
path_begins_iff prefix d = (
  (λ t.
      let same = bytes_eq→eq (take (length prefix) d.path) prefix (ground (arith, t)) in
      (
        drop (length prefix) d.path,
        take-drop_lem (length prefix) d.path ∙ ap (λ xs. xs ++ drop (length prefix) d.path) same,
      )),
  λ b.
      let (rest, e) = b in
      let long : leb (length prefix) (length d.path) ≡ true =
        ground (arith, length-append prefix rest, ap (length {A = ℕ}) e) in
      let same : take (length prefix) d.path ≡ prefix =
        ap (take (length prefix)) e ∙ take-append_length (length prefix) prefix rest refl in
      rw (long, same) (bytes_eq_refl prefix),
)

-- `find_by_path` lists an entry exactly when it stands at its index among the entries, is not
-- deleted, and its path begins with the prefix.
pub find_by_path_iff :
    (a : Archive) (prefix : List ℕ) (e : Entry)
    → Listed e (find_by_path a prefix) ↔ (
        (get_elem? a.dirents e.index ≡ some e.dirent)
        × (is_deleted e.dirent ≡ false)
        × ((rest : List ℕ) × (e.dirent.path ≡ prefix ++ rest)))
unfolding find_by_path iterate_dirents
find_by_path_iff a prefix e = (
  (λ l.
      let (k, index, at, (live, begins)) = At-listed_from 0 (path_begins prefix) a.dirents e l in
      let here : k ≡ e.index = omega arith in
      (
        subst (λ n. get_elem? a.dirents n ≡ some e.dirent) here at,
        live,
        (path_begins_iff prefix e.dirent).0 begins,
      )),
  λ r.
      let (at, live, begins) = r in
      subst (λ n. Listed (entry_at e.dirent n) (listed_from 0 (path_begins prefix) a.dirents))
        (zero-add e.index)
        (listed_from-At 0 (path_begins prefix) a.dirents e.index e.dirent at
          (live, (path_begins_iff prefix e.dirent).1 begins)),
)
