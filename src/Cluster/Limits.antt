-- ===== src/Cluster/Limits.antt =====
-- Which malformed clusters end in an error, and which in a run-time panic.
use gozim.Base.{
  ℕ, zero, suc, ◌+◌, ◌-◌, ◌*◌, ◌/◌, ◌%◌, ◌^◌, ◌≤◌, ◌<◌, ◌≡◌, inl, inr, refl, Bool, true, false,
  List, [], ◌++◌, length, take, drop, get_or, length-append, length-take, length-drop, ltb, leb,
  le→ltb, le→leb, lt→leb, if◌then◌else◌, Bool-cases, Error, Result, ok, err, panic, arith,
}
use gozim.Base.Bytes.{le_value}
use native.Mathlib.Nat.{add-zero}
use gozim.Cluster.{
  Slice, exact, Cluster, slice_from, slice_range, read_uint, read_offsets, few_offsets, parse_table,
  blob_count, blob_size, blob, blob_range,
}
use gozim.Format.{sub64}

-- The offsets of blob `i`.
abbrev pub start_of : Cluster → ℕ → ℕ
start_of c i = get_or c.blob_offsets i 0

abbrev pub end_of : Cluster → ℕ → ℕ
end_of c i = get_or c.blob_offsets (i + 1) 0

-- A blob that `blob` may return: its offsets are in order and within the bytes.
pub record InBounds (c : Cluster) (i : ℕ) : Type 0 where
  pub index : i < blob_count c
  pub ordered : start_of c i ≤ end_of c i
  pub inside : end_of c i ≤ length c.blob_bytes.bytes

blob_bytes_at : Cluster → ℕ → List ℕ
blob_bytes_at c i =
    take (end_of c i - start_of c i)
      (drop (start_of c i) (c.blob_bytes.bytes ++ c.blob_bytes.spare))

blob_in : (c : Cluster) (i : ℕ) → InBounds c i → blob c i ≡ ok (blob_bytes_at c i)
unfolding blob slice_range blob_bytes_at
blob_in c i r = rw (
  lt→leb (blob_count c) i r.index,
  le→ltb (end_of c i) (start_of c i) r.ordered,
  le→ltb (length c.blob_bytes.bytes) (end_of c i) r.inside,
  le→leb (end_of c i) (length c.blob_bytes.bytes + length c.blob_bytes.spare)
      (omega (arith, r.inside)),
  le→leb (start_of c i) (end_of c i) r.ordered,
)

blob_out : (c : Cluster) (i : ℕ) → ¬ InBounds c i → blob c i ≡ err Error.format
unfolding blob blob_count
blob_out c i r = elim (Bool-cases (leb (blob_count c) i)) [
  | inl a ↦ rw a
  | inr a ↦ elim (Bool-cases (ltb (end_of c i) (start_of c i))) [
    | inl b ↦ rw (a, b)
    | inr b ↦ elim (Bool-cases (ltb (length c.blob_bytes.bytes) (end_of c i))) [
      | inl d ↦ rw (a, b, d)
      | inr d ↦
          absurd
            (r (record { index = ground arith; ordered = ground arith; inside = ground arith }))
    ]
  ]
]

length-blob_bytes_at :
    (c : Cluster) (i : ℕ) → InBounds c i → length (blob_bytes_at c i) ≡ end_of c i - start_of c i
unfolding blob_bytes_at
length-blob_bytes_at c i r = omega (
  arith,
  length-take (end_of c i - start_of c i)
      (drop (start_of c i) (c.blob_bytes.bytes ++ c.blob_bytes.spare)),
  length-drop (start_of c i) (c.blob_bytes.bytes ++ c.blob_bytes.spare),
  length-append c.blob_bytes.bytes c.blob_bytes.spare,
  r.ordered,
  r.inside,
)

-- On any cluster and index `blob` returns a blob exactly as long as its offsets say, if the index is
-- below the count and the offsets are in order and within the bytes, and else the format error. So
-- it never panics.
pub blob_cases :
    (c : Cluster) (i : ℕ)
    → (InBounds c i → (b : List ℕ) × (blob c i ≡ ok b) × (length b ≡ end_of c i - start_of c i))
      × ((¬ InBounds c i) → blob c i ≡ err Error.format)
blob_cases c i =
    ((λ r. (blob_bytes_at c i, blob_in c i r, length-blob_bytes_at c i r)), blob_out c i)

slice_inverted : (s : Slice) (from to : ℕ) → to < from → slice_range s from to ≡ panic
unfolding slice_range
slice_inverted s from to h = rw (lt→leb from to h) (both (leb to (length s.bytes + length s.spare)))
  where
    both : (b : Bool) → ◌≡◌ {A = Result (List ℕ)} (if b then panic else panic) panic
    both true = refl
    both false = refl

-- Offsets in the wrong order: `blob` returns the format error, but `blob_range`, asked for the whole
-- blob at the size that `blob_size` reports, panics.
pub blob_range_inverted :
    (c : Cluster) (i : ℕ)
    → i < blob_count c
    → end_of c i < start_of c i
    → start_of c i < 2 ^ 64
    → (blob_range c i 0 (blob_size c i) ≡ panic) × (blob c i ≡ err Error.format)
unfolding blob_range blob_size
blob_range_inverted c i h lt top =
    let size = sub64 (end_of c i) (start_of c i) in
    (
      rw
          (
            lt→leb (blob_count c) i h,
            le→ltb size ((0 + size) % 2 ^ 64) (omega arith),
            le→ltb size 0 (omega arith),
          )
          (slice_inverted c.blob_bytes _ _ (omega arith)),
      blob_out c i (λ r. omega (arith, r.ordered)),
    )

read_uint_short : (w : ℕ) (ds : List ℕ) → length ds < w → read_uint w (exact ds) ≡ panic
unfolding read_uint slice_range
read_uint_short w ds h = rw (add-zero, lt→leb w (length ds) h)

read_uint_long : (w : ℕ) (ds : List ℕ) → w ≤ length ds → (v : ℕ) × (read_uint w (exact ds) ≡ ok v)
unfolding read_uint slice_range
read_uint_long w ds h = (
  le_value (take (w - 0) (ds ++ [])),
  rw (add-zero, le→leb w (length ds) h, le→leb 0 w (omega arith)) refl,
)

-- Reading the table past the end of the bytes.
read_offsets_short :
    (w first n pos : ℕ) (bytes : List ℕ)
    → pos ≤ length bytes
    → length bytes < pos + n * w
    → read_offsets w first n pos (exact bytes) ≡ panic
unfolding read_offsets slice_from
read_offsets_short w first zero pos bytes l h = absurd (omega arith)
read_offsets_short w first (suc n) pos bytes l h =
    let k = length-drop pos bytes in
    rw (le→leb pos (length bytes) l) (elim (Bool-cases (ltb (length (drop pos bytes)) w)) [
      | inl short ↦ rw (read_uint_short w (drop pos bytes) (ground arith))
      | inr long ↦
          let (v, e) = read_uint_long w (drop pos bytes) (ground arith) in
          rw (e, read_offsets_short w first n (pos + w) bytes (ground (arith, k)) (omega arith))
    ])

-- In a slice without spare capacity, a table whose first offset is longer than all of the bytes makes
-- `parse_table` panic while it reads the offsets: the format error behind that loop is not reached.
-- The bytes hold the first offset, which is below 2^63, gives the table two offsets at least, and
-- counts whole offsets that take more bytes than there are.
pub parse_table_short :
    (compression w first : ℕ) (bytes : List ℕ)
    → w ≤ length bytes
    → read_uint w (exact bytes) ≡ ok first
    → few_offsets first w ≡ false
    → length bytes < first / w * w
    → parse_table compression w (exact bytes) ≡ panic
unfolding parse_table
parse_table_short compression w first bytes l e f h = rw (
  le→ltb (length bytes) w l,
  e,
  f,
  read_offsets_short w first (first / w) 0 bytes (omega arith) (omega arith),
)
