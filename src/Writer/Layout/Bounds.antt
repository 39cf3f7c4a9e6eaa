-- ===== src/Writer/Layout/Bounds.antt =====
-- Where the writes of finishWriting lie, and what the front of the file has.
use gozim.Base.{
  ℕ, zero, suc, ◌+◌, ◌-◌, ◌%◌, ◌^◌, ◌≤◌, ◌<◌, ◌≡◌, ◌≢◌, refl, ap, inl, inr, List, [], ◌∷◌, ◌++◌,
  length, take, drop, replicate, length-append, length-take, length-drop, length-replicate,
  Bool-cases, Option, none, some, Option-cases, arith,
}
use gozim.Base.Lex.{bytes_eq}
use gozim.Header.{read_header}
use gozim.Dirent.{Dirent}
use gozim.Writer.{RedirectEntry}
use gozim.Writer.Layout.{
  path_index, set_target, resolve, write_at, end_of_all, main_index, find_main,
}

-- Written bytes lie within the file, and a write does not shorten it.
pub length-write_at :
    (file : List ℕ) (pos : ℕ) (src : List ℕ)
    → (length file ≤ length (write_at file pos src))
      × (0 < length src → pos + length src ≤ length (write_at file pos src))
unfolding write_at
length-write_at file pos [] = (omega arith, λ h. absurd (omega arith))
length-write_at file pos (b ∷ bs) =
    let pad = file ++ replicate (pos - length file) 0 in
    let a = length-append (take pos pad) ((b ∷ bs) ++ drop (pos + length (b ∷ bs)) file) in
    let c = length-append (b ∷ bs) (drop (pos + length (b ∷ bs)) file) in
    let d = length-take pos pad in
    let e = length-append file (replicate (pos - length file) 0) in
    let f = length-replicate {A = ℕ} (pos - length file) 0 in
    let g = length-drop (pos + length (b ∷ bs)) file in
    (omega (arith, a, c, d, e, f, g), λ h. omega (arith, a, c, d, e, f, g))

pub end_of_all-ge : (pos : ℕ) (cs : List (List ℕ)) → pos ≤ end_of_all pos cs
unfolding end_of_all
end_of_all-ge pos [] = omega arith
end_of_all-ge pos (c ∷ cs) = omega (arith, end_of_all-ge (pos + length c) cs)

pub length-set_target :
    (path : List ℕ) (target : Option ℕ) (ds : List Dirent)
    → length (set_target path target ds) ≡ length ds
unfolding set_target
length-set_target path target [] = refl
length-set_target path none (d ∷ ds) = ground (arith, length-set_target path none ds)
length-set_target path (some i) (d ∷ ds) = ground (arith, length-set_target path (some i) ds)

pub length-resolve :
    (known : List Dirent) (i : ℕ) (rs : List RedirectEntry) (ds : List Dirent)
    → length (resolve known i rs ds) ≡ length ds
unfolding resolve
length-resolve known i [] ds = refl
length-resolve known i (r ∷ rs) ds =
    let ds' = set_target r.path (path_index r.target_path 0 known) ds in
    ground (
      arith,
      length-resolve known (i + 1) rs ds',
      length-set_target r.path (path_index r.target_path 0 known) ds,
    )

main_index-lt :
    (path : List ℕ) (i : ℕ) (ds : List Dirent) (j : ℕ)
    → i + length ds < 2 ^ 32
    → main_index path i ds ≡ some j
    → j < i + length ds
unfolding main_index
main_index-lt path i [] j small e = cc e
main_index-lt path i (d ∷ ds) j small e = elim (Bool-cases (bytes_eq d.path path)) [
  | inl here ↦ let e' : some (i % 2 ^ 32) ≡ some j = rw here at e in ground (arith, e')
  | inr later ↦
      let e' : main_index path (i + 1) ds ≡ some j = rw later at e in
      omega (arith, main_index-lt path (i + 1) ds j (omega arith) e')
]

find_main-lt :
    (path : List ℕ) (ds : List Dirent) (j : ℕ)
    → length ds < 2 ^ 32
    → find_main path ds ≡ some j
    → j < length ds
unfolding find_main
find_main-lt [] ds j small e = cc e
find_main-lt (b ∷ path) ds j small e =
    omega (arith, main_index-lt (b ∷ path) 0 ds j (omega arith) e)

-- A field in front of other bytes.
take-drop_front :
    (from w : ℕ) (xs ys : List ℕ)
    → from + w ≤ length xs
    → take w (drop from (xs ++ ys)) ≡ take w (drop from xs)
take-drop_front zero zero xs ys h = refl
take-drop_front zero (suc w) [] ys h = absurd (omega arith)
take-drop_front zero (suc w) (x ∷ xs) ys h = ap (◌∷◌ x) (take-drop_front zero w xs ys (omega arith))
take-drop_front (suc from) w [] ys h = absurd (omega arith)
take-drop_front (suc from) w (x ∷ xs) ys h = take-drop_front from w xs ys (omega arith)

pub read_header-front : (xs ys : List ℕ) → 80 ≤ length xs → read_header (xs ++ ys) ≡ read_header xs
read_header-front xs ys h =
    rw
      (
        take-drop_front 0 4 xs ys (omega arith),
        take-drop_front 4 2 xs ys (omega arith),
        take-drop_front 6 2 xs ys (omega arith),
        take-drop_front 8 16 xs ys (omega arith),
        take-drop_front 24 4 xs ys (omega arith),
        take-drop_front 28 4 xs ys (omega arith),
        take-drop_front 32 8 xs ys (omega arith),
        take-drop_front 40 8 xs ys (omega arith),
        take-drop_front 48 8 xs ys (omega arith),
        take-drop_front 56 8 xs ys (omega arith),
        take-drop_front 64 4 xs ys (omega arith),
        take-drop_front 68 4 xs ys (omega arith),
        take-drop_front 72 8 xs ys (omega arith),
      )
      refl

pub main_page_sound :
    (path : List ℕ) (ds : List Dirent) (main : ℕ)
    → length ds < 2 ^ 32
    → (elim (find_main path ds) [ some i ↦ i | none ↦ 0xffff_ffff ]) ≡ main
    → main ≢ 0xffff_ffff
    → main < length ds
main_page_sound path ds main small e present = elim (Option-cases (find_main path ds)) [
  | inl gone ↦ absurd (ground (arith, e, gone, present))
  | inr (j, found) ↦ ground (arith, e, found, find_main-lt path ds j small found)
]
