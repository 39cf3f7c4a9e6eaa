-- ===== src/Multipart.antt =====
-- archive/zim/multipart.go: one file in several parts.
pub mod Whole
pub mod Split
use gozim.Base.{
  ℕ, zero, suc, ◌+◌, ◌-◌, Bool, true, false, ◌&&◌, List, [], ◌∷◌, ◌++◌, length, ltb, leb,
  if◌then◌else◌, ◌==◌, Error, Result, ok, err, Option, none, some, min,
}

-- `partRange`. `read` is the `ReadAt` of the part's file: the bytes read at an offset of at most so
-- many, and whether an error came with them.
pub record Part : Type 0 where
  pub read : ℕ → ℕ → List ℕ × Bool
  pub start : ℕ
  pub end : ℕ

unfoldable pub find_part : List Part → ℕ → Option Part
find_part [] offset = none
find_part (p ∷ ps) offset =
    if leb p.start offset && ltb offset p.end then some p else find_part ps offset

-- The loop of `ReadAt`: the bytes read so far, and whether an error was returned. A part that reads
-- nothing and reports no error, which io.ReaderAt forbids, would loop for ever: the fuel is for the
-- rounds.
unfoldable pub read_loop : ℕ → List Part → ℕ → ℕ → ℕ → List ℕ → List ℕ × Bool
unfolding find_part
read_loop zero parts size off remaining out = (out, false)
read_loop (suc fuel) parts size off remaining out = elim (ltb 0 remaining && ltb off size) [
  | false ↦ (out, false)
  | true ↦ elim (find_part parts off) [
    | none ↦ (out, false)
    | some p ↦
        let max_read = min (p.end - p.start - (off - p.start)) remaining in
        let (bytes, failed) = p.read (off - p.start) max_read in
        elim failed [
          | true ↦ (out ++ bytes, true)
          | false ↦
              read_loop fuel parts size (off + length bytes) (remaining - length bytes)
                (out ++ bytes)
        ]
  ]
]

-- `MultipartReader.ReadAt` of `n` bytes; `size` is the end of the last part.
unfoldable pub read_at : List Part → ℕ → ℕ → ℕ → List ℕ × Bool
unfolding read_loop
read_at parts size n off = if leb size off then ([], true) else read_loop n parts size off n []

-- What a part's name with the suffix of a number leads to: no file, a file that `os.Stat` or the
-- opening fails on, or an open file with its size.
pub data File : Type 0 where
  absent broken : File
  opened : (read : ℕ → ℕ → List ℕ × Bool) (size : ℕ) → File

-- The loop of `openSplitFiles` from the suffix `i` on, with the end of the parts so far. The fuel is
-- for the suffixes left.
unfoldable pub open_parts : (ℕ → File) → ℕ → ℕ → ℕ → List Part
open_parts files zero i start = []
open_parts files (suc fuel) i start = elim (files i) [
  | absent ↦ elim (i == 0) [ true ↦ open_parts files fuel (i + 1) start | false ↦ [] ]
  | broken ↦ []
  | opened read size ↦
      (record { read = read; start = start; end = start + size })
      ∷ open_parts files fuel (i + 1) (start + size)
]

-- `parts[len(parts)-1].end`
unfoldable pub last_end : Part → List Part → ℕ
last_end p [] = p.end
last_end p (q ∷ ps) = last_end q ps

-- `MultipartReader`
pub record MultipartReader : Type 0 where
  pub parts : List Part
  pub size : ℕ

-- `openSplitFiles`: the suffixes are the 26 * 26 pairs of letters.
unfoldable pub open_split_files : (ℕ → File) → Result MultipartReader
unfolding open_parts last_end
open_split_files files = elim (open_parts files 676 0 0) [
  | [] ↦ err Error.format
  | p ∷ ps ↦ ok (record { parts = p ∷ ps; size = last_end p ps })
]
