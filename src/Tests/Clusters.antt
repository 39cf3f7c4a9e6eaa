-- ===== src/Tests/Clusters.antt =====
-- archive/zim/cluster.go on small inputs.
use gozim.Base.{
  ℕ, ◌-◌, ◌<◌, ◌≡◌, refl, inl, inr, List, [], ◌∷◌, length, false, get_or, Error, ok, err, panic,
  arith,
}
use gozim.Base.Bytes.{put_le, le_value}
use gozim.Format.{compression_zstd}
use gozim.Cluster.{
  Cluster, Codec, exact, parse_table, parse_cluster, encode_cluster, encode_table, blob, blob_range,
  blob_size, blob_count, read_uint, few_offsets, offset_size, is_extended_for, calculate_total_size,
  offsets_from, encode_offsets, concat_blobs, encode_cluster_info,
}
use gozim.Cluster.RoundTrip.{Fits, cluster_of}
use gozim.Cluster.Blobs.{IsLossless, width, blob-cluster_of, parse_cluster-encode_cluster}
use gozim.Cluster.Limits.{
  InBounds, start_of, end_of, blob_cases, blob_range_inverted, parse_table_short,
}

-- a codec that leaves the bytes as they are
abbrev plain_codec : Codec
plain_codec = record { compress = λ bs. ok bs; decompress = λ kind bs. ok (exact bs) }

plain_codec-IsLossless : IsLossless plain_codec
plain_codec-IsLossless plain packed e = ([], ground arith)

-- three blobs, one of them empty
abbrev blobs : List (List ℕ)
blobs = (7 ∷ 8 ∷ []) ∷ [] ∷ (9 ∷ []) ∷ []

blobs-width : width blobs ≡ 4
unfolding offset_size is_extended_for calculate_total_size
blobs-width = refl

blobs-Fits : Fits 4 blobs
unfolding concat_blobs
blobs-Fits = record {
  width = inl refl;
  nonempty = ground arith;
  entry = omega arith;
  int = omega arith;
}

blob-cluster_of_example : blob (cluster_of 1 blobs []) 2 ≡ ok (get_or blobs 2 [])
blob-cluster_of_example = blob-cluster_of 1 blobs [] 2 (omega arith)

abbrev packed : List ℕ
packed = 5 ∷ 16 ∷ 0 ∷ 0 ∷ 0 ∷ 18 ∷ 0 ∷ 0 ∷ 0 ∷ 18 ∷ 0 ∷ 0 ∷ 0 ∷ 19 ∷ 0 ∷ 0 ∷ 0 ∷ 7 ∷ 8 ∷ 9 ∷ []

encoded : encode_cluster plain_codec compression_zstd blobs ≡ ok packed
unfolding encode_cluster encode_table offsets_from encode_offsets concat_blobs encode_cluster_info
    offset_size is_extended_for calculate_total_size put_le
encoded = refl

blobs-Fits-width : Fits (width blobs) blobs
blobs-Fits-width = rw blobs-width blobs-Fits

parse_cluster-encode_cluster_example :
    (c : Cluster) × (parse_cluster plain_codec (exact packed) ≡ ok c)
    × (blob_count c ≡ length blobs)
    × ((i : ℕ) → i < length blobs → blob c i ≡ ok (get_or blobs i []))
parse_cluster-encode_cluster_example =
    parse_cluster-encode_cluster plain_codec compression_zstd blobs packed (inr refl)
      plain_codec-IsLossless blobs-Fits-width encoded

-- the second offset lies before the first
abbrev inverted : Cluster
inverted = record {
  compression = 1;
  blob_offsets = 2 ∷ 1 ∷ [];
  blob_bytes = exact (1 ∷ 2 ∷ 3 ∷ []);
}

blob_cases_example :
    (InBounds inverted 0
      → (b : List ℕ) × (blob inverted 0 ≡ ok b)
        × (length b ≡ end_of inverted 0 - start_of inverted 0))
    × ((¬ InBounds inverted 0) → blob inverted 0 ≡ err Error.format)
blob_cases_example = blob_cases inverted 0

blob_range_inverted_example :
    (blob_range inverted 0 0 (blob_size inverted 0) ≡ panic) × (blob inverted 0 ≡ err Error.format)
unfolding blob_count
blob_range_inverted_example =
    blob_range_inverted inverted 0 (omega arith) (omega arith) (omega arith)

-- a first offset of 16, four entries, in a table of two
abbrev short : List ℕ
short = 16 ∷ 0 ∷ 0 ∷ 0 ∷ 20 ∷ 0 ∷ 0 ∷ 0 ∷ []

short-first : (read_uint 4 (exact short) ≡ ok 16) × (few_offsets 16 4 ≡ false)
unfolding read_uint le_value
short-first = (refl, refl)

parse_table_short_example : parse_table 1 4 (exact short) ≡ panic
parse_table_short_example =
    parse_table_short 1 4 16 short (omega arith) short-first.0 short-first.1 (omega arith)
