-- ===== src/Cluster/Blobs.antt =====
-- The blobs of a cluster: reading them back after `encode_cluster`, and the limits of the checks.
use gozim.Base.{
  ℕ, zero, suc, ◌+◌, ◌-◌, ◌≤◌, ◌<◌, ◌≡◌, ◌⊎◌, inl, inr, refl, sym, ap, ◌∙◌, Bool, true, false, List,
  [], ◌∷◌, ◌++◌, length, drop, get_or, length-append, take-append_length, drop-drop,
  drop-append_length, le→ltb, le→leb, lt→leb, ok, >>=-eq-ok, arith,
}
use gozim.Format.{compression_none, compression_zstd}
use gozim.Cluster.{
  ClusterInfo, Slice, exact, Cluster, Codec, slice_from, slice_range, parse_cluster_info,
  encode_cluster_info, offset_size, parse_by, parse_cluster, blob_count, blob, is_extended_for,
  concat_blobs, encode_table, encode_cluster,
}
use gozim.Cluster.RoundTrip.{
  plain_offsets, length-plain_offsets, Fits, cluster_of, parse_table-encode_table,
}
use mathlib.Core.List.{append_assoc}
use native.Mathlib.Nat.{suc-add}

-- The bytes before blob `i`.
pub before : List (List ℕ) → ℕ → ℕ
before [] i = 0
before (b ∷ bs) zero = 0
before (b ∷ bs) (suc i) = length b + before bs i

pub offset_at :
    (off : ℕ) (bs : List (List ℕ)) (i : ℕ)
    → i < length bs
    → (get_or (plain_offsets off bs) i 0 ≡ off + before bs i)
      × (get_or (plain_offsets off bs) (i + 1) 0 ≡ off + before bs i + length (get_or bs i []))
unfolding plain_offsets before
offset_at off [] i h = absurd (omega arith)
offset_at off (b ∷ []) zero h = (omega arith, omega arith)
offset_at off (b ∷ c ∷ bs) zero h = (omega arith, omega arith)
offset_at off (b ∷ bs) (suc i) h =
    let (p, q) = offset_at (off + length b) bs i (omega arith) in
    (p ∙ omega arith, rw (suc-add, q) (omega arith))

pub blob_at :
    (bs : List (List ℕ)) (i : ℕ) (spare : List ℕ)
    → i < length bs
    → (rest : List ℕ) × (drop (before bs i) (concat_blobs bs ++ spare) ≡ get_or bs i [] ++ rest)
      × (before bs i + length (get_or bs i []) ≤ length (concat_blobs bs))
unfolding before concat_blobs
blob_at [] i spare h = absurd (omega arith)
blob_at (b ∷ bs) zero spare h = (
  concat_blobs bs ++ spare,
  append_assoc b (concat_blobs bs) spare,
  omega (arith, length-append b (concat_blobs bs)),
)
blob_at (b ∷ bs) (suc i) spare h =
    let (rest, at, fits) = blob_at bs i spare (omega arith) in
    (
      rest,
      ap (drop (length b + before bs i)) (append_assoc b (concat_blobs bs) spare)
          ∙ sym (drop-drop (before bs i) (length b) (b ++ (concat_blobs bs ++ spare)))
          ∙ ap (drop (before bs i))
              (drop-append_length (length b) b (concat_blobs bs ++ spare) refl)
          ∙ at,
      omega (arith, length-append b (concat_blobs bs)),
    )

pub slice_range_lem :
    (s : Slice) (from to : ℕ) (b rest : List ℕ)
    → drop from (s.bytes ++ s.spare) ≡ b ++ rest
    → to ≡ from + length b
    → to ≤ length s.bytes
    → slice_range s from to ≡ ok b
unfolding slice_range
slice_range_lem s from to b rest at e l =
    let n : to - from ≡ length b = omega arith in
    rw
      (
        le→leb to (length s.bytes + length s.spare) (omega arith),
        le→leb from to (omega arith),
        at,
        n,
      )
      (ap ok (take-append_length (length b) b rest refl))

-- A blob of the cluster made of `bs` is what was put there.
pub blob-cluster_of :
    (compression : ℕ) (bs : List (List ℕ)) (spare : List ℕ) (i : ℕ)
    → i < length bs
    → blob (cluster_of compression bs spare) i ≡ ok (get_or bs i [])
unfolding blob
blob-cluster_of compression bs spare i h =
    let (p, q) = offset_at 0 bs i h in
    let (rest, at, fits) = blob_at bs i spare h in
    let n = length-plain_offsets 0 bs in
    let start = get_or (plain_offsets 0 bs) i 0 in
    let end = get_or (plain_offsets 0 bs) (i + 1) 0 in
    rw
      (
        lt→leb (length (plain_offsets 0 bs) - 1) i (omega (arith, n)),
        le→ltb end start (omega (arith, p, q)),
        le→ltb (length (concat_blobs bs)) end (omega (arith, q, fits)),
      )
      (slice_range_lem (record { bytes = concat_blobs bs; spare = spare }) start end
        (get_or bs i []) rest (ap (λ k. drop k (concat_blobs bs ++ spare)) (p ∙ omega arith) ∙ at)
        (omega (arith, p, q)) (omega (arith, q, fits)))

info_lem :
    (c : ℕ) (extended : Bool)
    → c < 16
    → parse_cluster_info (encode_cluster_info (record { compression = c; is_extended = extended }))
      ≡ record { compression = c; is_extended = extended }
unfolding parse_cluster_info encode_cluster_info
info_lem c true h = ground arith
info_lem c false h = ground arith

-- What the compression packages promise of one another: data that `compress` accepted comes back.
abbrev pub IsLossless : Codec → Type 0
IsLossless codec =
    (plain packed : List ℕ)
    → codec.compress plain ≡ ok packed
    → (spare : List ℕ) × (codec.decompress compression_zstd packed
        ≡ ok (record { bytes = plain; spare = spare }))

abbrev pub width : List (List ℕ) → ℕ
width bs = offset_size (is_extended_for bs)

abbrev pub info_for : ℕ → List (List ℕ) → ClusterInfo
info_for c bs = record { compression = c; is_extended = is_extended_for bs }

parse_cluster-info :
    (codec : Codec) (c : ℕ) (extended : Bool) (body : List ℕ)
    → c < 16
    → parse_cluster codec
        (exact (encode_cluster_info (record { compression = c; is_extended = extended }) ∷ body))
      ≡ parse_by codec
          (exact (encode_cluster_info (record { compression = c; is_extended = extended }) ∷ body))
          (record { compression = c; is_extended = extended })
unfolding parse_cluster
parse_cluster-info codec c extended body h =
    let info = encode_cluster_info (record { compression = c; is_extended = extended }) in
    rw (le→ltb (length (info ∷ body)) 1 (omega arith))
      (ap (parse_by codec (exact (info ∷ body))) (info_lem c extended h))

body_lem : (b : ℕ) (body : List ℕ) → slice_from (exact (b ∷ body)) 1 ≡ ok (exact body)
unfolding slice_from
body_lem b body = rw (le→leb 1 (length (b ∷ body)) (omega arith))

parse_uncompressed :
    (codec : Codec) (bs : List (List ℕ))
    → Fits (width bs) bs
    → parse_cluster codec
        (exact (encode_cluster_info (info_for compression_none bs) ∷ encode_table (width bs) bs))
      ≡ ok (cluster_of compression_none bs [])
unfolding parse_by
parse_uncompressed codec bs f =
    parse_cluster-info codec compression_none (is_extended_for bs) (encode_table (width bs) bs)
      (omega arith)
    ∙ rw
        (body_lem (encode_cluster_info (info_for compression_none bs)) (encode_table (width bs) bs))
        (parse_table-encode_table compression_none (width bs) bs [] f)

parse_compressed :
    (codec : Codec) (bs : List (List ℕ)) (packed spare : List ℕ)
    → Fits (width bs) bs
    → codec.decompress compression_zstd packed
      ≡ ok (record { bytes = encode_table (width bs) bs; spare = spare })
    → parse_cluster codec (exact (encode_cluster_info (info_for compression_zstd bs) ∷ packed))
      ≡ ok (cluster_of compression_zstd bs spare)
unfolding parse_by
parse_compressed codec bs packed spare f e =
    parse_cluster-info codec compression_zstd (is_extended_for bs) packed (omega arith)
    ∙ rw (body_lem (encode_cluster_info (info_for compression_zstd bs)) packed, e)
        (parse_table-encode_table compression_zstd (width bs) bs spare f)

pub encode_compressed :
    (codec : Codec) (bs : List (List ℕ)) (enc : List ℕ)
    → encode_cluster codec compression_zstd bs ≡ ok enc
    → (packed : List ℕ) × (codec.compress (encode_table (width bs) bs) ≡ ok packed)
      × (encode_cluster_info (info_for compression_zstd bs) ∷ packed ≡ enc)
unfolding encode_cluster
encode_compressed codec bs enc e =
    let (packed, c, made) =
      >>=-eq-ok (codec.compress (encode_table (width bs) bs))
        (λ z. ok (encode_cluster_info (info_for compression_zstd bs) ∷ z)) e in
    (packed, c, ground (arith, made))

pub parse_encoded :
    (codec : Codec) (compression : ℕ) (bs : List (List ℕ)) (enc : List ℕ)
    → (compression ≡ compression_none) ⊎ (compression ≡ compression_zstd)
    → IsLossless codec
    → Fits (width bs) bs
    → encode_cluster codec compression bs ≡ ok enc
    → (spare : List ℕ) × (parse_cluster codec (exact enc) ≡ ok (cluster_of compression bs spare))
unfolding encode_cluster
parse_encoded codec compression bs enc (inl plain) l f e =
    let e' : encode_cluster codec compression_none bs ≡ ok enc = rw plain at e in
    let same : encode_cluster_info (info_for compression_none bs) ∷ encode_table (width bs) bs
        ≡ enc =
      ground (arith, e') in
    ([], rw (plain, ← same) (parse_uncompressed codec bs f))
parse_encoded codec compression bs enc (inr zstd) l f e =
    let (packed, c, made) = encode_compressed codec bs enc (rw zstd at e) in
    let (spare, d) = l (encode_table (width bs) bs) packed c in
    (spare, rw (zstd, ← made) (parse_compressed codec bs packed spare f d))

-- A cluster encoded with no compression, or with a lossless zstd, is parsed back with as many blobs
-- as were put in, and each blob is the one that was put there. At least one blob is put in, and the
-- table with the blobs is small enough for the width of its entries and for Go's `int`.
pub parse_cluster-encode_cluster :
    (codec : Codec) (compression : ℕ) (bs : List (List ℕ)) (enc : List ℕ)
    → (compression ≡ compression_none) ⊎ (compression ≡ compression_zstd)
    → IsLossless codec
    → Fits (width bs) bs
    → encode_cluster codec compression bs ≡ ok enc
    → (c : Cluster) × (parse_cluster codec (exact enc) ≡ ok c)
      × (blob_count c ≡ length bs)
      × ((i : ℕ) → i < length bs → blob c i ≡ ok (get_or bs i []))
unfolding blob_count
parse_cluster-encode_cluster codec compression bs enc k l f e =
    let (spare, parsed) = parse_encoded codec compression bs enc k l f e in
    (
      cluster_of compression bs spare,
      parsed,
      omega (arith, length-plain_offsets 0 bs),
      blob-cluster_of compression bs spare,
    )
