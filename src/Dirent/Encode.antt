-- ===== src/Dirent/Encode.antt =====
-- What `encode_dirent` writes, as one list.
use gozim.Base.{
  ℕ, suc, ◌+◌, ◌-◌, ◌%◌, ◌≡◌, refl, ap, ◌∙◌, List, [], ◌∷◌, ◌++◌, length, replicate, length-append,
  arith,
}
use gozim.Base.Bytes.{put_le, put_bytes, put_bytes_fill, length-put_le}
use gozim.Dirent.{EntryType, Dirent, fixed_len, put_target, encode_dirent}
use mathlib.Core.List.{append_assoc, append-nil}

-- The numbers behind the version.
unfoldable pub target_bytes : Dirent → EntryType → List ℕ
target_bytes d EntryType.redirect = put_le 4 d.redirect_index
target_bytes d _ = put_le 4 d.cluster_number ++ put_le 4 d.blob_number

-- What follows the fixed part.
abbrev pub tail_bytes : Dirent → List ℕ
tail_bytes d = d.path ++ (0 ∷ (d.title ++ (0 ∷ d.extra)))

abbrev pub head_bytes : Dirent → List ℕ
head_bytes d =
    put_le 2 d.mime_type_index ++ (length d.extra % 256 ∷ d.namespace ∷ put_le 4 d.version)

-- The eight writes up to the version.
head_lem :
    (d : Dirent) (m : ℕ)
    → put_bytes
        (put_bytes
          (put_bytes
            (put_bytes (replicate (8 + m) 0) 0 (put_le 2 d.mime_type_index))
            2
            (length d.extra % 256 ∷ []))
          3
          (d.namespace ∷ []))
        4
        (put_le 4 d.version)
      ≡ head_bytes d ++ replicate m 0
unfolding put_le put_bytes
head_lem d m = let e : 8 + m ≡ suc (suc (suc (suc (suc (suc (suc (suc m))))))) = omega arith in rw e

-- Two writes behind one another.
abbrev filled : List ℕ → ℕ → List ℕ
filled pre m = pre ++ replicate m 0

two_writes :
    (d : Dirent) (pre : List ℕ) (m : ℕ)
    → length pre ≡ 8
    → put_bytes
        (put_bytes (filled pre (8 + m)) 8 (put_le 4 d.cluster_number))
        12
        (put_le 4 d.blob_number)
      ≡ filled (pre ++ (put_le 4 d.cluster_number ++ put_le 4 d.blob_number)) m
two_writes d pre m h =
    ap (λ l. put_bytes l 12 (put_le 4 d.blob_number))
      (put_bytes_fill pre (put_le 4 d.cluster_number) 8 _ (4 + m) h
        (omega (arith, length-put_le 4 d.cluster_number)))
    ∙ put_bytes_fill (pre ++ put_le 4 d.cluster_number) (put_le 4 d.blob_number) 12 _ m
        (omega
          (arith, length-append pre (put_le 4 d.cluster_number), length-put_le 4 d.cluster_number))
        (omega (arith, length-put_le 4 d.blob_number))
    ∙ ap (λ l. filled l m) (append_assoc pre (put_le 4 d.cluster_number) (put_le 4 d.blob_number))

target_lem :
    (d : Dirent) (t : EntryType) (pre : List ℕ) (m : ℕ)
    → length pre ≡ 8
    → put_target (filled pre (fixed_len t - 8 + m)) d t ≡ filled (pre ++ target_bytes d t) m
unfolding put_target target_bytes fixed_len
target_lem d EntryType.redirect pre m h =
    put_bytes_fill pre (put_le 4 d.redirect_index) 8 _ m h
      (omega (arith, length-put_le 4 d.redirect_index))
target_lem d EntryType.content pre m h = two_writes d pre m h
target_lem d EntryType.link_target pre m h = two_writes d pre m h
target_lem d EntryType.deleted pre m h = two_writes d pre m h

-- The five writes behind the fixed part.
abbrev put_tail : List ℕ → ℕ → Dirent → List ℕ
put_tail buf offset d =
    put_bytes
      (put_bytes
        (put_bytes (put_bytes (put_bytes buf offset d.path) (offset + length d.path) (0 ∷ []))
          (offset + length d.path + 1) d.title)
        (offset + length d.path + 1 + length d.title) (0 ∷ []))
      (offset + length d.path + 1 + length d.title + 1) d.extra

abbrev tail_len : Dirent → ℕ
tail_len d = length d.path + (1 + (length d.title + (1 + (length d.extra + 0))))

put_tail_lem :
    (d : Dirent) (pre : List ℕ) (offset : ℕ)
    → length pre ≡ offset
    → put_tail (filled pre (tail_len d)) offset d ≡ pre ++ tail_bytes d
put_tail_lem d pre offset h =
    let p = d.path in
    let t = d.title in
    let e = d.extra in
    let z : List ℕ = 0 ∷ [] in
    let l1 = length-append pre p in
    let l2 = length-append (pre ++ p) z in
    let l3 = length-append ((pre ++ p) ++ z) t in
    let l4 = length-append (((pre ++ p) ++ z) ++ t) z in
    rw
      (
        put_bytes_fill pre p offset (tail_len d) (1 + (length t + (1 + (length e + 0)))) h refl,
        put_bytes_fill (pre ++ p) z (offset + length p) (1 + (length t + (1 + (length e + 0))))
            (length t + (1 + (length e + 0))) (omega (arith, l1)) refl,
        put_bytes_fill ((pre ++ p) ++ z) t (offset + length p + 1) (length t + (1 + (length e + 0)))
            (1 + (length e + 0)) (omega (arith, l1, l2)) refl,
        put_bytes_fill (((pre ++ p) ++ z) ++ t) z (offset + length p + 1 + length t)
            (1 + (length e + 0)) (length e + 0) (omega (arith, l1, l2, l3)) refl,
        put_bytes_fill ((((pre ++ p) ++ z) ++ t) ++ z) e (offset + length p + 1 + length t + 1)
            (length e + 0) 0 (omega (arith, l1, l2, l3, l4)) refl,
      )
      (simp (append_assoc, append-nil))

pub length-head_bytes : (d : Dirent) → length (head_bytes d) ≡ 8
length-head_bytes d = omega (
  arith,
  length-append (put_le 2 d.mime_type_index)
      (length d.extra % 256 ∷ d.namespace ∷ put_le 4 d.version),
  length-put_le 2 d.mime_type_index,
  length-put_le 4 d.version,
)

pub length-target_bytes : (d : Dirent) (t : EntryType) → length (target_bytes d t) + 8 ≡ fixed_len t
unfolding target_bytes fixed_len
length-target_bytes d EntryType.redirect = omega (arith, length-put_le 4 d.redirect_index)
length-target_bytes d _ = omega (
  arith,
  length-append (put_le 4 d.cluster_number) (put_le 4 d.blob_number),
  length-put_le 4 d.cluster_number,
  length-put_le 4 d.blob_number,
)

-- The encoding is the fixed part, the numbers of the target, and the strings.
pub encode_dirent_lem :
    (d : Dirent) → encode_dirent d ≡ (head_bytes d ++ target_bytes d d.entry_type) ++ tail_bytes d
unfolding encode_dirent
encode_dirent_lem d =
    let t = d.entry_type in
    let f = length-target_bytes d t in
    let total : fixed_len t + (length d.path + 1) + (length d.title + 1) + length d.extra
        ≡ 8 + (fixed_len t - 8 + tail_len d) =
      omega (arith, f) in
    rw
      (
        total,
        head_lem d (fixed_len t - 8 + tail_len d),
        target_lem d t (head_bytes d) (tail_len d) (length-head_bytes d),
      )
      (put_tail_lem d (head_bytes d ++ target_bytes d t) (fixed_len t)
        (omega (arith, f, length-append (head_bytes d) (target_bytes d t), length-head_bytes d)))
