-- ===== src/Multipart/Split.antt =====
-- The reader that openSplitFiles makes of the files that it finds.
use gozim.Base.{
  ℕ, zero, suc, ◌+◌, ◌≡◌, ◌≤◌, refl, ap, ◌∙◌, Bool, true, false, List, [], ◌∷◌, ◌++◌, length,
  length-append, take, drop, ltb, ◌==◌, if◌then◌else◌, Error, ok, err, arith,
}
use mathlib.Core.Path.{subst}
use gozim.Multipart.{
  File, absent, broken, opened, Part, open_parts, last_end, MultipartReader, open_split_files,
  read_at,
}
use gozim.Multipart.Whole.{Covers, nothing, part, whole, read_at-whole}

-- An open file has the content and reads it.
pub data Faithful (c : List ℕ) : File → Type 0 where
  no_file : Faithful c absent
  no_access : Faithful c broken
  file :
      {read : ℕ → ℕ → List ℕ × Bool}
      → ((o n : ℕ) → o + n ≤ length c → read o n ≡ (take n (drop o c), false))
      → Faithful c (opened read (length c))

-- The contents of the files that are opened: from the first suffix on, or from the second where the
-- first has no file, up to the next that is missing.
unfoldable pub split_contents : (ℕ → File) → (ℕ → List ℕ) → ℕ → ℕ → List (List ℕ)
split_contents files content zero i = []
split_contents files content (suc fuel) i = elim (files i) [
  | absent ↦ elim (i == 0) [ true ↦ split_contents files content fuel (i + 1) | false ↦ [] ]
  | broken ↦ []
  | opened read size ↦ content i ∷ split_contents files content fuel (i + 1)
]

-- One file, before the files that follow it.
one_file :
    (c : List ℕ) (first : Bool) (start : ℕ) (x : File) (skip : List Part) (next : ℕ → List Part)
    (cs : List (List ℕ))
    → Faithful c x
    → Covers start skip cs
    → ((from : ℕ) → Covers from (next from) cs)
    → Covers start
        (elim x [
          | absent ↦ elim first [ true ↦ skip | false ↦ [] ]
          | broken ↦ []
          | opened read size ↦
              (record { read = read; start = start; end = start + size }) ∷ next (start + size)
        ])
        (elim x [
          | absent ↦ elim first [ true ↦ cs | false ↦ [] ]
          | broken ↦ []
          | opened read size ↦ c ∷ cs
        ])
one_file c true start absent skip next cs no_file h k = h
one_file c false start absent skip next cs no_file h k = nothing
one_file c first start broken skip next cs no_access h k = nothing
one_file c first start (opened read size) skip next cs (file r) h k =
    part refl refl r (k (start + length c))

open_parts-Covers :
    (files : ℕ → File) (content : ℕ → List ℕ) (fuel i start : ℕ)
    → ((j : ℕ) → Faithful (content j) (files j))
    → Covers start (open_parts files fuel i start) (split_contents files content fuel i)
unfolding open_parts split_contents
open_parts-Covers files content zero i start f = nothing
open_parts-Covers files content (suc fuel) i start f =
    one_file (content i) (i == 0) start (files i) (open_parts files fuel (i + 1) start)
      (λ from. open_parts files fuel (i + 1) from) (split_contents files content fuel (i + 1)) (f i)
      (open_parts-Covers files content fuel (i + 1) start f)
      (λ from. open_parts-Covers files content fuel (i + 1) from f)

-- The last part ends where the contents do.
last_end-Covers :
    {from : ℕ} {p : Part} {ps : List Part} {cs : List (List ℕ)}
    → Covers from (p ∷ ps) cs
    → last_end p ps ≡ from + length (whole cs)
unfolding last_end whole
last_end-Covers (part {c = c} s e r nothing) = omega (arith, e, length-append c [])
last_end-Covers (part {c = c} s e r (part {c = d} {cs = cs} s' e' r' more)) =
    let rest = last_end-Covers (part s' e' r' more) in
    omega (arith, rest, length-append c (d ++ whole cs))

reader_whole :
    (files : ℕ → File) (parts : List Part) (cs : List (List ℕ)) (m : MultipartReader) (n off : ℕ)
    → Covers 0 parts cs
    → (elim parts [
      | [] ↦ err Error.format
      | p ∷ ps ↦ ok (record { parts = p ∷ ps; size = last_end p ps })
    ])
      ≡ ok m
    → read_at m.parts m.size n off
      ≡ (if ltb off (length (whole cs)) then (take n (drop off (whole cs)), false) else ([], true))
reader_whole files [] cs m n off v e = cc e
reader_whole files (p ∷ ps) cs m n off v e =
    let k : MultipartReader = record { parts = p ∷ ps; size = last_end p ps } in
    let same : k ≡ m = cc e in
    let end : last_end p ps ≡ length (whole cs) = omega (arith, last_end-Covers v) in
    subst
      (λ (x : MultipartReader). read_at x.parts x.size n off ≡ (
        if ltb off (length (whole cs)) then (take n (drop off (whole cs)), false) else ([], true)))
      same (ap (λ size. read_at (p ∷ ps) size n off) end ∙ read_at-whole (p ∷ ps) cs n off v)

-- A reader that `openSplitFiles` returns reads the split files as one: where each file that can be
-- opened has its content's size and reads it, reading `n` bytes at an offset gives, without error,
-- what the contents put together have there, up to their end, and an error from their end on.
pub open_split_files-whole :
    (files : ℕ → File) (content : ℕ → List ℕ) (m : MultipartReader) (n off : ℕ)
    → ((j : ℕ) → Faithful (content j) (files j))
    → open_split_files files ≡ ok m
    → let all = whole (split_contents files content 676 0) in
      read_at m.parts m.size n off
      ≡ (if ltb off (length all) then (take n (drop off all), false) else ([], true))
unfolding open_split_files
open_split_files-whole files content m n off f e =
    reader_whole files (open_parts files 676 0 0) (split_contents files content 676 0) m n off
      (open_parts-Covers files content 676 0 0 f) e
