-- ===== src/Tests/Parts.antt =====
-- archive/zim/multipart.go on small inputs.
use gozim.Base.{
  ℕ, zero, suc, ◌≡◌, refl, Bool, true, false, List, [], ◌∷◌, length, take, drop, ltb, if◌then◌else◌,
  ok,
}
use gozim.Multipart.{
  File, absent, opened, MultipartReader, open_parts, last_end, open_split_files, read_at,
}
use gozim.Multipart.Whole.{whole}
use gozim.Multipart.Split.{Faithful, no_file, file, split_contents, open_split_files-whole}

-- a reader of a file with a content
abbrev reader_of : List ℕ → ℕ → ℕ → List ℕ × Bool
reader_of c o n = (take n (drop o c), false)

-- two parts, of two bytes and one byte
abbrev content : ℕ → List ℕ
content zero = 1 ∷ 2 ∷ []
content (suc zero) = 3 ∷ []
content (suc (suc j)) = []

abbrev files : ℕ → File
files zero = opened (reader_of (content 0)) 2
files (suc zero) = opened (reader_of (content 1)) 1
files (suc (suc j)) = absent

files-Faithful : (j : ℕ) → Faithful (content j) (files j)
files-Faithful zero = file (λ o n h. refl)
files-Faithful (suc zero) = file (λ o n h. refl)
files-Faithful (suc (suc j)) = no_file

abbrev two_parts : MultipartReader
two_parts = record {
  parts =
      (record { read = reader_of (content 0); start = 0; end = 2 })
      ∷ (record { read = reader_of (content 1); start = 2; end = 3 })
      ∷ [];
  size = 3;
}

files-two_parts : open_split_files files ≡ ok two_parts
unfolding open_split_files open_parts last_end
files-two_parts = refl

open_split_files-whole_example :
    let all = whole (split_contents files content 676 0) in
    read_at two_parts.parts two_parts.size 2 1
    ≡ (if ltb 1 (length all) then (take 2 (drop 1 all), false) else ([], true))
open_split_files-whole_example =
    open_split_files-whole files content two_parts 2 1 files-Faithful files-two_parts

read_across : read_at two_parts.parts two_parts.size 2 1 ≡ (2 ∷ 3 ∷ [], false)
unfolding read_at
read_across = refl
