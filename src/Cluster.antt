-- ===== src/Cluster.antt =====
-- archive/zim/cluster.go: a cluster is an info byte, a table of offsets, and the blobs. Lengths of
-- slices are below 2^63, as Go's `int` makes them.
pub mod RoundTrip
pub mod Blobs
pub mod Limits
pub mod Ranges
use gozim.Base.{
  ℕ, zero, suc, ◌+◌, ◌-◌, ◌*◌, ◌/◌, ◌%◌, ◌^◌, ◌≤◌, ◌<◌, ◌≡◌, Bool, true, false, not, List, [], ◌∷◌,
  ◌++◌, length, take, drop, get_or, ltb, leb, ◌==◌, if◌then◌else◌, Error, Result, ok, err, panic,
  ◌>>=◌, ◌>>◌, fail_if,
}
use gozim.Base.Bytes.{put_le, le_value}
use gozim.Format.{sub64, compression_none, compression_zstd, compression_lzma}

pub record ClusterInfo : Type 0 where
  pub compression : ℕ
  pub is_extended : Bool

-- `infoByte & 0x0F` and `infoByte & 0x10`
unfoldable pub parse_cluster_info : ℕ → ClusterInfo
parse_cluster_info b = record { compression = b % 16; is_extended = not (b / 16 % 2 == 0) }

-- `byte(compression) & 0x0F`, then `|= 0x10`, a bit that is clear before
unfoldable pub encode_cluster_info : ClusterInfo → ℕ
encode_cluster_info info =
    let result = info.compression % 16 in if info.is_extended then result + 16 else result

-- A slice with the bytes between its length and its capacity, which `s[:n]` can reach.
pub record Slice : Type 0 where
  pub bytes : List ℕ
  pub spare : List ℕ

abbrev pub exact : List ℕ → Slice
exact bs = record { bytes = bs; spare = [] }

-- `s[from:]`
unfoldable pub slice_from : Slice → ℕ → Result Slice
slice_from s from =
    if leb from (length s.bytes) then ok (record s { bytes = drop from s.bytes }) else panic

-- `s[from:to]`: `to` goes up to the capacity.
unfoldable pub slice_range : Slice → ℕ → ℕ → Result (List ℕ)
slice_range s from to =
    if leb to (length s.bytes + length s.spare)
    then (if leb from to then ok (take (to - from) (drop from (s.bytes ++ s.spare))) else panic)
    else panic

-- `readUint32(s)` and `readUint64(s)`, which take `s[:4]` and `s[:8]`
unfoldable pub read_uint : ℕ → Slice → Result ℕ
unfolding slice_range
read_uint w s = do field ← slice_range s 0 w; ok (le_value field)

pub record Cluster : Type 0 where
  pub compression : ℕ
  pub blob_offsets : List ℕ
  pub blob_bytes : Slice

-- The loop that fills `blobOffsets`: `n` entries from position `pos` on.
unfoldable pub read_offsets : ℕ → ℕ → ℕ → ℕ → Slice → Result (List ℕ)
read_offsets w first zero pos s = ok []
read_offsets w first (suc n) pos s = do
  at ← slice_from s pos
  v ← read_uint w at
  rest ← read_offsets w first n (pos + w) s
  ok (sub64 v first ∷ rest)

-- `int(firstOffset) / offsetSize < 2`; an `int` is negative from 2^63 on.
abbrev pub few_offsets : ℕ → ℕ → Bool
few_offsets first w = if leb (2 ^ 63) first then true else ltb (first / w) 2

-- The table at the start of `s`, and the blobs behind it: what `parseUncompressedCluster` does
-- behind the info byte, and `parseCompressedCluster` with what it has decompressed.
unfoldable pub parse_table : ℕ → ℕ → Slice → Result Cluster
unfolding read_offsets
parse_table compression w s = do
  fail_if (ltb (length s.bytes) w) Error.format
  first ← read_uint w s
  fail_if (few_offsets first w) Error.format
  offsets ← read_offsets w first (first / w) 0 s
  fail_if (ltb (length s.bytes) first) Error.format
  blobs ← slice_from s first
  ok (record { compression = compression; blob_offsets = offsets; blob_bytes = blobs })

-- `offsetSize`
unfoldable pub offset_size : Bool → ℕ
offset_size extended = if extended then 8 else 4

unfoldable pub parse_uncompressed_cluster : Slice → ClusterInfo → Result Cluster
parse_uncompressed_cluster s info = do
  body ← slice_from s 1
  parse_table info.compression (offset_size info.is_extended) body

-- The decompressors of package xz and package zstd, and zstd's compressor, by compression type.
pub record Codec : Type 0 where
  pub compress : List ℕ → Result (List ℕ)
  pub decompress : ℕ → List ℕ → Result Slice

unfoldable pub parse_compressed_cluster : Codec → Slice → ClusterInfo → Result Cluster
parse_compressed_cluster codec s info = do
  body ← slice_from s 1
  plain ← codec.decompress info.compression body.bytes
  parse_table info.compression (offset_size info.is_extended) plain

abbrev pub first_byte : List ℕ → ℕ
first_byte s = get_or s 0 0

-- The `switch` on the compression type.
unfoldable pub parse_by : Codec → Slice → ClusterInfo → Result Cluster
unfolding parse_uncompressed_cluster parse_compressed_cluster
parse_by codec s info =
    if info.compression == compression_none
    then parse_uncompressed_cluster s info
    else if info.compression == compression_zstd
    then parse_compressed_cluster codec s info
    else if info.compression == compression_lzma
    then parse_compressed_cluster codec s info
    else err Error.unsupported_compression

unfoldable pub parse_cluster : Codec → Slice → Result Cluster
parse_cluster codec s = do
  fail_if (ltb (length s.bytes) 1) Error.format
  parse_by codec s (parse_cluster_info (first_byte s.bytes))

unfoldable pub blob_count : Cluster → ℕ
blob_count c = length c.blob_offsets - 1

unfoldable pub blob_size : Cluster → ℕ → ℕ
unfolding blob_count
blob_size c index =
    if leb (blob_count c) index
    then 0
    else sub64 (get_or c.blob_offsets (index + 1) 0) (get_or c.blob_offsets index 0)

-- `Blob`
unfoldable pub blob : Cluster → ℕ → Result (List ℕ)
unfolding blob_count
blob c index =
    let start = get_or c.blob_offsets index 0 in
    let end = get_or c.blob_offsets (index + 1) 0 in
    do
      fail_if (leb (blob_count c) index) Error.format
      fail_if (ltb end start) Error.format
      fail_if (ltb (length c.blob_bytes.bytes) end) Error.format
      slice_range c.blob_bytes start end

-- `BlobRange`; `make([]byte, size)` panics from 2^63 on, and so does the slice.
unfoldable pub blob_range : Cluster → ℕ → ℕ → ℕ → Result (List ℕ)
unfolding blob_count
blob_range c index offset size =
    let start = get_or c.blob_offsets index 0 in
    let blob_size = sub64 (get_or c.blob_offsets (index + 1) 0) start in
    let size' = if ltb blob_size ((offset + size) % 2 ^ 64) then sub64 blob_size offset else size in
    do
      fail_if (leb (blob_count c) index) Error.format
      fail_if (ltb blob_size offset) Error.format
      slice_range c.blob_bytes ((start + offset) % 2 ^ 64) ((start + offset + size') % 2 ^ 64)

unfoldable pub calculate_total_size : List (List ℕ) → ℕ
calculate_total_size [] = 0
calculate_total_size (b ∷ bs) = (length b + calculate_total_size bs) % 2 ^ 64

-- `blobOffsets[i+1] = blobOffsets[i] + uint64(len(blob))`, from an offset on
unfoldable pub offsets_from : ℕ → List (List ℕ) → List ℕ
offsets_from off [] = off ∷ []
offsets_from off (b ∷ bs) = off ∷ offsets_from ((off + length b) % 2 ^ 64) bs

-- `putUint32(…, uint32(off))` or `putUint64`
unfoldable pub encode_offsets : ℕ → List ℕ → List ℕ
encode_offsets w [] = []
encode_offsets w (o ∷ os) = put_le w (o % 256 ^ w) ++ encode_offsets w os

unfoldable pub concat_blobs : List (List ℕ) → List ℕ
concat_blobs [] = []
concat_blobs (b ∷ bs) = b ++ concat_blobs bs

unfoldable pub is_extended_for : List (List ℕ) → Bool
unfolding calculate_total_size
is_extended_for blobs = ltb 0xffff_ffff (calculate_total_size blobs)

-- The offset table and the blobs: `stagingBuf`, and what is written uncompressed.
unfoldable pub encode_table : ℕ → List (List ℕ) → List ℕ
unfolding offsets_from encode_offsets concat_blobs
encode_table w blobs =
    encode_offsets w (offsets_from ((length blobs + 1) * w) blobs) ++ concat_blobs blobs

unfoldable pub encode_cluster : Codec → ℕ → List (List ℕ) → Result (List ℕ)
unfolding encode_cluster_info
encode_cluster codec compression blobs =
    let extended = is_extended_for blobs in
    let table = encode_table (offset_size extended) blobs in
    let info = encode_cluster_info (record { compression = compression; is_extended = extended }) in
    if compression == compression_none
    then ok (info ∷ table)
    else (do compressed ← codec.compress table; ok (info ∷ compressed))
