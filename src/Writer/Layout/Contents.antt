-- ===== src/Writer/Layout/Contents.antt =====
-- The clusters of a file that the writer left, as `getCluster` reads them.
use gozim.Base.{
  ℕ, zero, suc, ◌+◌, ◌*◌, ◌^◌, ◌≤◌, ◌<◌, ◌≡◌, ◌⊎◌, refl, sym, ap, ◌∙◌, inl, inr, List, [], ◌∷◌,
  length, get_elem?, Bool-cases, le→ltb, lt→leb, lt→ltb, ltb, true, some, ok, >>=-eq-ok, arith,
}
use gozim.Base.Bytes.{put_le, le_value, length-put_le, le_value-put_le}
use gozim.Base.Positions.{get_elem?-lt}
use gozim.Format.{sub64, compression_none, compression_zstd}
use gozim.Header.{has_checksum}
use gozim.Cluster.{
  concat_blobs, Cluster, Codec, exact, parse_cluster, encode_cluster, encode_cluster_info,
  encode_table,
}
use gozim.Cluster.Blobs.{width, info_for, encode_compressed}
use gozim.Archive.{Archive, cluster_size, read_cluster}
use gozim.Writer.Layout.{pointers, starts, end_of_all, encode_clusters}
use gozim.Writer.Layout.Regions.{Has}
use gozim.Writer.Layout.Reading.{Reads, read_at-Has}
use gozim.Writer.Layout.Chunks.{IsChunk, IsChunk-at, pointer_at}

read_cluster_steps :
    (codec : Codec) (a : Archive) (n start size : ℕ) (ptr bytes : List ℕ) (c : Cluster)
    → n < a.header.cluster_count
    → a.reader.read_at (a.header.cluster_ptr_pos + n * 8) 8 ≡ ok ptr
    → le_value ptr ≡ start
    → cluster_size a n start ≡ ok size
    → size ≤ 256 * 2 ^ 20
    → a.reader.read_at start size ≡ ok bytes
    → parse_cluster codec (exact bytes) ≡ ok c
    → read_cluster codec a n ≡ ok c
unfolding read_cluster
read_cluster_steps codec a n start size ptr bytes c h at v sized small at' parsed =
    rw
      (
        lt→leb a.header.cluster_count n h,
        at,
        v,
        sized,
        le→ltb (256 * 2 ^ 20) size small,
        at',
        parsed,
      )
      refl

-- A pointer, read back
read_pointer :
    (a : Archive) (file : List ℕ) (pos p : ℕ)
    → Reads a.reader file
    → Has file pos (put_le 8 p)
    → a.reader.read_at pos 8 ≡ ok (put_le 8 p)
read_pointer a file pos p reads has =
    ap (a.reader.read_at pos) (sym (length-put_le 8 p))
    ∙ read_at-Has a.reader file pos (put_le 8 p) reads (omega (arith, length-put_le 8 p)) has

cluster_size_next :
    (a : Archive) (n start size next : ℕ) (buf : List ℕ)
    → n + 1 < a.header.cluster_count
    → a.reader.read_at (a.header.cluster_ptr_pos + n * 8 + 8) 8 ≡ ok buf
    → le_value buf ≡ next
    → sub64 next start ≡ size
    → cluster_size a n start ≡ ok size
unfolding cluster_size
cluster_size_next a n start size next buf h at v e =
    rw (lt→ltb (n + 1) a.header.cluster_count h, at, v) (ap ok e)

cluster_size_last :
    (a : Archive) (n start size : ℕ)
    → a.header.cluster_count ≤ n + 1
    → has_checksum a.header ≡ true
    → sub64 a.header.checksum_pos start ≡ size
    → cluster_size a n start ≡ ok size
unfolding cluster_size
cluster_size_last a n start size h sum e =
    rw (le→ltb (n + 1) a.header.cluster_count h, sum) (ap ok e)

-- What the header and the file of an archive must have for its clusters to be found.
pub record HasClusters (a : Archive) (file : List ℕ) (pos : ℕ) (cs : List (List ℕ)) : Type 0 where
  pub reads : Reads a.reader file
  pub count : a.header.cluster_count ≡ length cs
  pub checksum : a.header.checksum_pos ≡ end_of_all pos cs
  pub has_sum : has_checksum a.header ≡ true
  pub small : end_of_all pos cs < 2 ^ 63
  pub pointers : Has file a.header.cluster_ptr_pos (concat_blobs (pointers (starts pos cs)))
  pub clusters : Has file pos (concat_blobs cs)

cluster_size-chunk :
    (a : Archive) (file : List ℕ) (pos : ℕ) (cs : List (List ℕ)) (n start : ℕ) (c : List ℕ)
    → HasClusters a file pos cs
    → IsChunk pos cs n c start
    → n < length cs
    → cluster_size a n start ≡ ok (length c)
cluster_size-chunk a file pos cs n start c has chunk inside =
    let size : sub64 (start + length c) start ≡ length c = omega (arith, chunk.inside, has.small) in
    elim (Bool-cases (ltb (n + 1) (length cs))) [
      | inl more ↦
          let next = start + length c in
          let at : a.header.cluster_ptr_pos + suc n * 8 ≡ a.header.cluster_ptr_pos + n * 8 + 8 =
            omega arith in
          cluster_size_next a n start (length c) next (put_le 8 next)
            (ground (arith, has.count, more))
            (ap (λ k. a.reader.read_at k 8) (sym at)
              ∙ read_pointer a file (a.header.cluster_ptr_pos + suc n * 8) next has.reads (
                  pointer_at file a.header.cluster_ptr_pos (starts pos cs) (suc n) next
                    (chunk.next (ground (arith, more))) has.pointers))
            (le_value-put_le 8 next (omega (arith, chunk.inside, has.small))) size
      | inr end ↦
          let at : a.header.checksum_pos ≡ start + length c =
            has.checksum ∙ chunk.last (ground (arith, end, inside)) in
          cluster_size_last a n start (length c) (ground (arith, has.count, end)) has.has_sum
            (ap (λ k. sub64 k start) at ∙ size)
    ]

-- The cluster with a number is read back from the file, if it is not over the limit of 256 MiB.
pub read_cluster-chunk :
    (codec : Codec) (a : Archive) (file : List ℕ) (pos : ℕ) (cs : List (List ℕ)) (n : ℕ)
    (bytes : List ℕ) (c : Cluster)
    → HasClusters a file pos cs
    → get_elem? cs n ≡ some bytes
    → 0 < length bytes
    → length bytes ≤ 256 * 2 ^ 20
    → parse_cluster codec (exact bytes) ≡ ok c
    → read_cluster codec a n ≡ ok c
read_cluster-chunk codec a file pos cs n bytes c has e some_byte small parsed =
    let inside = get_elem?-lt cs n bytes e in
    let (start, chunk) = IsChunk-at pos cs n bytes e in
    read_cluster_steps codec a n start (length bytes) (put_le 8 start) bytes c
      (omega (arith, has.count, inside))
      (read_pointer a file (a.header.cluster_ptr_pos + n * 8) start has.reads
        (pointer_at file a.header.cluster_ptr_pos (starts pos cs) n start chunk.at has.pointers))
      (le_value-put_le 8 start (omega (arith, chunk.inside, has.small)))
      (cluster_size-chunk a file pos cs n start bytes has chunk inside) small
      (read_at-Has a.reader file start bytes has.reads some_byte (chunk.has file has.clusters))
      parsed

pub encode_cluster_some :
    (codec : Codec) (compression : ℕ) (bs : List (List ℕ)) (enc : List ℕ)
    → (compression ≡ compression_none) ⊎ (compression ≡ compression_zstd)
    → encode_cluster codec compression bs ≡ ok enc
    → 0 < length enc
unfolding encode_cluster
encode_cluster_some codec compression bs enc (inl plain) e =
    let e' : encode_cluster codec compression_none bs ≡ ok enc = rw plain at e in
    let same : encode_cluster_info (info_for compression_none bs) ∷ encode_table (width bs) bs
        ≡ enc =
      ground (arith, e') in
    omega (arith, ap (length {A = ℕ}) same)
encode_cluster_some codec compression bs enc (inr zstd) e =
    let (packed, c, made) = encode_compressed codec bs enc (rw zstd at e) in
    omega (arith, ap (length {A = ℕ}) made)

-- Each group of blobs is encoded on its own.
pub encode_clusters_at :
    (codec : Codec) (compression : ℕ) (groups : List (List (List ℕ))) (cs : List (List ℕ)) (n : ℕ)
    (bs : List (List ℕ))
    → encode_clusters codec compression groups ≡ ok cs
    → get_elem? groups n ≡ some bs
    → (enc : List ℕ) × (get_elem? cs n ≡ some enc) × (encode_cluster codec compression bs ≡ ok enc)
unfolding encode_clusters
encode_clusters_at codec compression [] cs n bs e at = cc at
encode_clusters_at codec compression (g ∷ gs) [] n bs e at =
    let (c, made, e1) = >>=-eq-ok (encode_cluster codec compression g) _ e in
    let (rest, made', e2) = >>=-eq-ok (encode_clusters codec compression gs) _ e1 in cc e2
encode_clusters_at codec compression (g ∷ gs) (x ∷ xs) zero bs e at =
    let (c, made, e1) = >>=-eq-ok (encode_cluster codec compression g) _ e in
    let (rest, made', e2) = >>=-eq-ok (encode_clusters codec compression gs) _ e1 in
    let p : c ≡ x = cc e2 in
    let q : g ≡ bs = cc at in
    (x, refl, ap (encode_cluster codec compression) (sym q) ∙ made ∙ ap ok p)
encode_clusters_at codec compression (g ∷ gs) (x ∷ xs) (suc n) bs e at =
    let (c, made, e1) = >>=-eq-ok (encode_cluster codec compression g) _ e in
    let (rest, made', e2) = >>=-eq-ok (encode_clusters codec compression gs) _ e1 in
    let p : rest ≡ xs = cc e2 in
    encode_clusters_at codec compression gs xs n bs (made' ∙ ap ok p) at
