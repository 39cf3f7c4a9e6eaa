-- ===== src/Cluster/Ranges.antt =====
-- Parts of a blob of a cluster, as `BlobRange` reads them.
use gozim.Base.{
  ℕ, ◌+◌, ◌-◌, ◌%◌, ◌^◌, ◌≤◌, ◌<◌, ◌≡◌, refl, sym, ap, ◌∙◌, List, [], ◌++◌, length, take, drop,
  get_or, le→ltb, lt→leb, length-take, length-drop, drop-drop, append-take-drop, ok, arith,
}
use gozim.Base.Slices.{drop-append_le}
use gozim.Format.{sub64}
use gozim.Cluster.{Cluster, slice_range, blob_size, blob_range, concat_blobs}
use gozim.Cluster.RoundTrip.{plain_offsets, length-plain_offsets, cluster_of}
use gozim.Cluster.Blobs.{before, offset_at, blob_at, slice_range_lem}
use mathlib.Core.List.{append_assoc}

-- The difference of two offsets that lie in order
sub64_of : (a b n : ℕ) → a ≡ b + n → a < 2 ^ 64 → sub64 a b ≡ n
sub64_of a b n e small = omega arith

pub blob_size-cluster_of :
    (compression : ℕ) (bs : List (List ℕ)) (spare : List ℕ) (i : ℕ)
    → i < length bs
    → length (concat_blobs bs) < 2 ^ 63
    → blob_size (cluster_of compression bs spare) i ≡ length (get_or bs i [])
unfolding blob_size
blob_size-cluster_of compression bs spare i h small =
    let (p, q) = offset_at 0 bs i h in
    let (rest, at, fits) = blob_at bs i spare h in
    let start = get_or (plain_offsets 0 bs) i 0 in
    let end = get_or (plain_offsets 0 bs) (i + 1) 0 in
    rw
      (
        lt→leb (length (plain_offsets 0 bs) - 1) i (omega (arith, length-plain_offsets 0 bs)),
        sub64_of end start (length (get_or bs i [])) (omega arith) (omega arith),
      )
      refl

blob_range_steps :
    (c : Cluster) (i offset size start n : ℕ) (bytes : List ℕ)
    → i < length c.blob_offsets - 1
    → get_or c.blob_offsets i 0 ≡ start
    → sub64 (get_or c.blob_offsets (i + 1) 0) start ≡ n
    → offset + size ≤ n
    → start + n < 2 ^ 63
    → slice_range c.blob_bytes (start + offset) (start + offset + size) ≡ ok bytes
    → blob_range c i offset size ≡ ok bytes
unfolding blob_range
blob_range_steps c i offset size start n bytes h at len inside small e =
    let a : (offset + size) % 2 ^ 64 ≡ offset + size = omega arith in
    let b : (start + offset) % 2 ^ 64 ≡ start + offset = omega arith in
    let d : (start + offset + size) % 2 ^ 64 ≡ start + offset + size = omega arith in
    rw
      (
        lt→leb (length c.blob_offsets - 1) i h,
        at,
        len,
        le→ltb n offset (omega arith),
        a,
        le→ltb n (offset + size) (omega arith),
        b,
        d,
      )
      e

-- The bytes of a part of a blob, at their place among the bytes of the cluster.
part_at :
    (all b rest : List ℕ) (start offset size : ℕ)
    → drop start all ≡ b ++ rest
    → offset + size ≤ length b
    → drop (start + offset) all ≡ take size (drop offset b) ++ (drop size (drop offset b) ++ rest)
part_at all b rest start offset size at h =
    sym (drop-drop offset start all)
    ∙ ap (drop offset) at
    ∙ drop-append_le offset b rest (omega arith)
    ∙ ap (λ x. x ++ rest) (sym (append-take-drop size (drop offset b)))
    ∙ append_assoc (take size (drop offset b)) (drop size (drop offset b)) rest

-- A part within a blob of the cluster made of `bs` is that part of what was put there.
pub blob_range-cluster_of :
    (compression : ℕ) (bs : List (List ℕ)) (spare : List ℕ) (i offset size : ℕ)
    → i < length bs
    → length (concat_blobs bs) < 2 ^ 63
    → offset + size ≤ length (get_or bs i [])
    → blob_range (cluster_of compression bs spare) i offset size
      ≡ ok (take size (drop offset (get_or bs i [])))
blob_range-cluster_of compression bs spare i offset size h small inside =
    let (p, q) = offset_at 0 bs i h in
    let (rest, at, fits) = blob_at bs i spare h in
    let b = get_or bs i [] in
    let part = take size (drop offset b) in
    let start = before bs i in
    let end = get_or (plain_offsets 0 bs) (i + 1) 0 in
    let n : length part ≡ size =
      omega (arith, length-take size (drop offset b), length-drop offset b) in
    blob_range_steps (cluster_of compression bs spare) i offset size start (length b) part
      (omega (arith, length-plain_offsets 0 bs)) (omega arith)
      (sub64_of end start (length b) (omega arith) (omega arith)) inside (omega arith)
      (slice_range_lem (record { bytes = concat_blobs bs; spare = spare }) (start + offset)
        (start + offset + size) part (drop size (drop offset b) ++ rest)
        (part_at (concat_blobs bs ++ spare) b rest start offset size at inside) (omega arith)
        (omega arith))
