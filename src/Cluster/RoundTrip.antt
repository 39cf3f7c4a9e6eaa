-- ===== src/Cluster/RoundTrip.antt =====
-- `parse_table` reads back what `encode_table` wrote.
use gozim.Base.{
  ℕ, ◌+◌, ◌*◌, ◌/◌, ◌%◌, ◌^◌, ◌≤◌, ◌<◌, ◌≡◌, ◌≢◌, ◌⊎◌, inl, inr, refl, sym, ap, ◌∙◌, false, List,
  [], ◌∷◌, ◌++◌, map, length, length-append, take-append_length, drop-append_length, All, le→ltb,
  le→leb, lt→leb, ok, arith,
}
use gozim.Base.Bytes.{put_le, le_value-put_le, length-put_le}
use gozim.Cluster.{
  Slice, Cluster, slice_from, slice_range, read_uint, read_offsets, few_offsets, parse_table,
  offsets_from, encode_offsets, concat_blobs, encode_table,
}
use gozim.Format.{sub64}
use mathlib.Core.List.{append_assoc}
use native.Mathlib.Nat.{mod-eq_of_lt, sub-zero, add-zero, add_assoc}

-- The offsets with no wrap-around.
unfoldable pub plain_offsets : ℕ → List (List ℕ) → List ℕ
plain_offsets off [] = off ∷ []
plain_offsets off (b ∷ bs) = off ∷ plain_offsets (off + length b) bs

offsets_from-plain :
    (off : ℕ) (bs : List (List ℕ))
    → off + length (concat_blobs bs) < 2 ^ 64
    → offsets_from off bs ≡ plain_offsets off bs
unfolding offsets_from plain_offsets concat_blobs
offsets_from-plain off [] h = refl
offsets_from-plain off (b ∷ bs) h =
    let l = length-append b (concat_blobs bs) in
    let small : (off + length b) % 2 ^ 64 ≡ off + length b = omega (arith, l) in
    rw (small, offsets_from-plain (off + length b) bs (omega (arith, l)))

pub length-plain_offsets :
    (off : ℕ) (bs : List (List ℕ)) → length (plain_offsets off bs) ≡ length bs + 1
unfolding plain_offsets
length-plain_offsets off [] = omega arith
length-plain_offsets off (b ∷ bs) = omega (arith, length-plain_offsets (off + length b) bs)

plain_offsets-All :
    (off top : ℕ) (bs : List (List ℕ))
    → off + length (concat_blobs bs) < top
    → All (λ o. (off ≤ o) × (o < top)) (plain_offsets off bs)
unfolding plain_offsets concat_blobs
plain_offsets-All off top [] h = (omega arith, tt)
plain_offsets-All off top (b ∷ bs) h =
    let l = length-append b (concat_blobs bs) in
    (
      omega (arith, l),
      weaken off (off + length b) top (plain_offsets (off + length b) bs) (omega arith)
          (plain_offsets-All (off + length b) top bs (omega (arith, l))),
    )
  where
    weaken :
        (lo hi top : ℕ) (os : List ℕ)
        → lo ≤ hi
        → All (λ o. (hi ≤ o) × (o < top)) os
        → All (λ o. (lo ≤ o) × (o < top)) os
    weaken lo hi top [] h a = tt
    weaken lo hi top (o ∷ os) h a = ((omega arith, a.0.1), weaken lo hi top os h a.1)

length-encode_offsets : (w : ℕ) (os : List ℕ) → length (encode_offsets w os) ≡ length os * w
unfolding encode_offsets
length-encode_offsets w [] = omega arith
length-encode_offsets w (o ∷ os) = omega (
  arith,
  length-append (put_le w (o % 256 ^ w)) (encode_offsets w os),
  length-put_le w (o % 256 ^ w),
  length-encode_offsets w os,
)

-- One read at the start of what is left.
read_uint_lem :
    (w v : ℕ) (rest spare : List ℕ)
    → v < 256 ^ w
    → read_uint w (record { bytes = put_le w v ++ rest; spare = spare }) ≡ ok v
unfolding read_uint slice_range
read_uint_lem w v rest spare h =
    let l = length-append (put_le w v) rest in
    let k = length-put_le w v in
    rw (
      le→leb w (length (put_le w v ++ rest) + length spare) (omega (arith, l, k)),
      le→leb 0 w (omega arith),
      append_assoc (put_le w v) rest spare,
      sub-zero w,
      take-append_length w (put_le w v) (rest ++ spare) k,
      le_value-put_le w v h,
    )

slice_from_lem :
    (pre rest spare : List ℕ) (pos : ℕ)
    → length pre ≡ pos
    → slice_from (record { bytes = pre ++ rest; spare = spare }) pos
      ≡ ok (record { bytes = rest; spare = spare })
unfolding slice_from
slice_from_lem pre rest spare pos h = rw (
  le→leb pos (length (pre ++ rest)) (omega (arith, length-append pre rest)),
  drop-append_length pos pre rest h,
)

read_offsets_lem :
    (w first pos : ℕ) (os pre rest spare : List ℕ)
    → length pre ≡ pos
    → All (λ o. (first ≤ o) × (o < 256 ^ w)) os
    → read_offsets w first
        (length os)
        pos
        (record { bytes = pre ++ (encode_offsets w os ++ rest); spare = spare })
      ≡ ok (map (λ o. sub64 o first) os)
unfolding read_offsets encode_offsets
read_offsets_lem w first pos [] pre rest spare h a = refl
read_offsets_lem w first pos (o ∷ os) pre rest spare h a =
    let small : o % 256 ^ w ≡ o = mod-eq_of_lt a.0.1 in
    let here = put_le w o in
    rw
      (
        small,
        append_assoc here (encode_offsets w os) rest,
        slice_from_lem pre (here ++ (encode_offsets w os ++ rest)) spare pos h,
        read_uint_lem w o (encode_offsets w os ++ rest) spare a.0.1,
      )
      (rw (
        sym (append_assoc pre here (encode_offsets w os ++ rest)),
        read_offsets_lem w first (pos + w) os (pre ++ here) rest spare
            (omega (arith, length-append pre here, length-put_le w o)) a.1,
      ))

-- The offsets relative to the first.
plain_offsets-sub64 :
    (first off : ℕ) (bs : List (List ℕ))
    → first + off + length (concat_blobs bs) < 2 ^ 64
    → map (λ o. sub64 o first) (plain_offsets (first + off) bs) ≡ plain_offsets off bs
unfolding plain_offsets concat_blobs
plain_offsets-sub64 first off [] h = let e : sub64 (first + off) first ≡ off = omega arith in rw e
plain_offsets-sub64 first off (b ∷ bs) h =
    let l = length-append b (concat_blobs bs) in
    let e : sub64 (first + off) first ≡ off = omega (arith, l) in
    rw (
      e,
      add_assoc first off (length b),
      plain_offsets-sub64 first (off + length b) bs (omega (arith, l)),
    )

abbrev pub table_len : ℕ → List (List ℕ) → ℕ
table_len w bs = (length bs + 1) * w

-- Blobs whose table has entries of `w` bytes: at least one, and no offset too large for an entry
-- or for Go's `int`.
pub record Fits (w : ℕ) (bs : List (List ℕ)) : Type 0 where
  pub width : (w ≡ 4) ⊎ (w ≡ 8)
  pub nonempty : bs ≢ []
  pub entry : table_len w bs + length (concat_blobs bs) < 256 ^ w
  pub int : table_len w bs + length (concat_blobs bs) < 2 ^ 63

-- The cluster that holds the blobs.
abbrev pub cluster_of : ℕ → List (List ℕ) → List ℕ → Cluster
cluster_of compression bs spare = record {
  compression = compression;
  blob_offsets = plain_offsets 0 bs;
  blob_bytes = record { bytes = concat_blobs bs; spare = spare };
}

table_len-div : (w n : ℕ) → (w ≡ 4) ⊎ (w ≡ 8) → n * w / w ≡ n
table_len-div w n (inl e) = rw e (omega arith)
table_len-div w n (inr e) = rw e (omega arith)

length-ge : (bs : List (List ℕ)) → bs ≢ [] → 1 ≤ length bs
length-ge [] h = absurd (h refl)
length-ge (b ∷ bs) h = omega arith

width-pos : (w : ℕ) → (w ≡ 4) ⊎ (w ≡ 8) → 4 ≤ w
width-pos w (inl e) = omega arith
width-pos w (inr e) = omega arith

few_offsets-Fits : (w : ℕ) (bs : List (List ℕ)) → Fits w bs → few_offsets (table_len w bs) w ≡ false
few_offsets-Fits w bs f =
    rw
      (
        lt→leb (2 ^ 63) (table_len w bs) (omega (arith, f.int)),
        table_len-div w (length bs + 1) f.width,
      )
      (le→ltb (length bs + 1) 2 (omega (arith, length-ge bs f.nonempty)))

encode_table-plain :
    (w : ℕ) (bs : List (List ℕ))
    → Fits w bs
    → encode_table w bs ≡ encode_offsets w (plain_offsets (table_len w bs) bs) ++ concat_blobs bs
unfolding encode_table
encode_table-plain w bs f = rw (offsets_from-plain (table_len w bs) bs (omega (arith, f.int)))

length-table :
    (w : ℕ) (bs : List (List ℕ))
    → length (encode_offsets w (plain_offsets (table_len w bs) bs)) ≡ table_len w bs
length-table w bs =
    length-encode_offsets w (plain_offsets (table_len w bs) bs)
    ∙ ap (λ n. n * w) (length-plain_offsets (table_len w bs) bs)

first_offset :
    (w : ℕ) (bs : List (List ℕ)) (rest spare : List ℕ)
    → Fits w bs
    → read_uint w (record {
      bytes = encode_offsets w (plain_offsets (table_len w bs) bs) ++ rest;
      spare = spare;
    })
      ≡ ok (table_len w bs)
unfolding encode_offsets plain_offsets
first_offset w [] rest spare f = absurd (f.nonempty refl)
first_offset w (b ∷ bs) rest spare f =
    let first = table_len w (b ∷ bs) in
    let tail = encode_offsets w (plain_offsets (first + length b) bs) in
    let small : first % 256 ^ w ≡ first = mod-eq_of_lt (omega (arith, f.entry)) in
    rw (small, append_assoc (put_le w first) tail rest)
      (read_uint_lem w first (tail ++ rest) spare (omega (arith, f.entry)))

pub parse_table_steps :
    (compression w : ℕ) (s blobs : Slice) (first : ℕ) (offsets : List ℕ)
    → w ≤ length s.bytes
    → read_uint w s ≡ ok first
    → few_offsets first w ≡ false
    → read_offsets w first (first / w) 0 s ≡ ok offsets
    → first ≤ length s.bytes
    → slice_from s first ≡ ok blobs
    → parse_table compression w s
      ≡ ok (record { compression = compression; blob_offsets = offsets; blob_bytes = blobs })
unfolding parse_table
parse_table_steps compression w s blobs first offsets l a b c k d =
    rw (le→ltb (length s.bytes) w l, a, b, c, le→ltb (length s.bytes) first k, d)

table_offsets :
    (w : ℕ) (bs : List (List ℕ)) (spare : List ℕ)
    → Fits w bs
    → read_offsets w (table_len w bs) (table_len w bs / w) 0 (record {
      bytes = encode_offsets w (plain_offsets (table_len w bs) bs) ++ concat_blobs bs;
      spare = spare;
    })
      ≡ ok (plain_offsets 0 bs)
table_offsets w bs spare f =
    let first = table_len w bs in
    let os = plain_offsets first bs in
    let s : Slice = record { bytes = encode_offsets w os ++ concat_blobs bs; spare = spare } in
    ap (λ n. read_offsets w first n 0 s)
      (table_len-div w (length bs + 1) f.width ∙ sym (length-plain_offsets first bs))
    ∙ read_offsets_lem w first 0 os [] (concat_blobs bs) spare refl
        (plain_offsets-All first (256 ^ w) bs f.entry)
    ∙ ap ok (ap (λ k. map (λ o. sub64 o first) (plain_offsets k bs)) (sym (add-zero first)))
    ∙ ap ok (plain_offsets-sub64 first 0 bs (omega (arith, f.int)))

-- `parse_table` reads the blobs' table back, with whatever capacity lies behind it.
pub parse_table-encode_table :
    (compression w : ℕ) (bs : List (List ℕ)) (spare : List ℕ)
    → Fits w bs
    → parse_table compression w (record { bytes = encode_table w bs; spare = spare })
      ≡ ok (cluster_of compression bs spare)
parse_table-encode_table compression w bs spare f =
    let first = table_len w bs in
    let table = encode_offsets w (plain_offsets first bs) in
    let l = length-append table (concat_blobs bs) in
    let k = length-table w bs in
    let bound : w ≤ first = grind (arith, length-ge bs f.nonempty) in
    rw (encode_table-plain w bs f) (
      parse_table_steps compression w _ _ first (plain_offsets 0 bs) (omega (arith, l, k, bound))
        (first_offset w bs (concat_blobs bs) spare f) (few_offsets-Fits w bs f)
        (table_offsets w bs spare f) (omega (arith, l, k))
        (slice_from_lem table (concat_blobs bs) spare first k))
