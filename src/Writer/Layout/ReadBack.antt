-- ===== src/Writer/Layout/ReadBack.antt =====
-- The contents of a file that the writer left, as the items of the archive give them.
use gozim.Base.{
  ℕ, zero, suc, ◌*◌, ◌^◌, ◌≤◌, ◌<◌, ◌≡◌, ◌≢◌, ◌⊎◌, refl, sym, ap, List, [], ◌∷◌, length, get_or,
  get_elem?, true, some, Option-cases, inl, inr, ok, arith,
}
use mathlib.Core.Path.{subst}
use gozim.Format.{compression_none, compression_zstd}
use gozim.Header.{Header, has_checksum}
use gozim.Mime.{MimeList}
use gozim.Cluster.{Codec, encode_cluster}
use gozim.Cluster.RoundTrip.{Fits, cluster_of}
use gozim.Cluster.Blobs.{IsLossless, width, parse_encoded}
use gozim.Archive.{Reader, read_cluster}
use gozim.Writer.{Writer, group_items_into_clusters}
use gozim.Writer.Held.{look}
use gozim.Writer.Layout.{SortSlice}
use gozim.Writer.Layout.Reading.{Reads}
use gozim.Writer.Layout.Parts.{file_of, file_of-HasParts}
use gozim.Writer.Layout.Opened.{
  entries_of, plan_of, IsMade, CanOpen, plan_of-Positions, plan_of-InRange, plan_of-InOrder,
  length-encode_clusters,
}
use gozim.Writer.Layout.Archived.{archive_with}
use gozim.Writer.Layout.Contents.{
  HasClusters, read_cluster-chunk, encode_cluster_some, encode_clusters_at,
}

has_checksum_of : (h : Header) → h.mime_list_pos ≡ 80 → 0 < h.checksum_pos → has_checksum h ≡ true
unfolding has_checksum
has_checksum_of h m c = ground (arith, m, c)

plan_of-HasClusters :
    (sort : SortSlice) (w : Writer) (clusters : List (List ℕ)) (main : ℕ) (r : Reader)
    (mimes : MimeList)
    → CanOpen sort w
    → length clusters ≡ length (group_items_into_clusters w).clusters
    → (main ≢ 0xffff_ffff → main < length (entries_of sort w))
    → length (file_of (plan_of sort w clusters main).0) < 2 ^ 63
    → Reads r (file_of (plan_of sort w clusters main).0)
    → HasClusters
        (archive_with sort w r (plan_of sort w clusters main).1 mimes)
        (file_of (plan_of sort w clusters main).0)
        (plan_of sort w clusters main).0.cluster_start
        clusters
plan_of-HasClusters sort w clusters main r mimes can n m small reads =
    let (p, h) = plan_of sort w clusters main in
    let at = plan_of-Positions sort w clusters main can in
    let range = plan_of-InRange sort w clusters main can small m in
    let has = file_of-HasParts p (plan_of-InOrder sort w clusters main range n) in
    record {
      reads = reads;
      count = omega (arith, can.few_clusters);
      checksum = refl;
      has_sum = has_checksum_of h refl (omega (arith, at));
      small = omega (arith, at);
      pointers = has.cluster_ptrs;
      clusters = has.clusters;
    }

pub made-HasClusters :
    (sort : SortSlice) (codec : Codec) (w : Writer) (file : List ℕ) (h : Header) (r : Reader)
    (mimes : MimeList) (made : IsMade sort codec w file h)
    → CanOpen sort w
    → length file < 2 ^ 63
    → Reads r file
    → HasClusters
        (archive_with sort w r h mimes)
        file
        (plan_of sort w made.clusters made.main).0.cluster_start
        made.clusters
made-HasClusters sort codec w file h r mimes made can small reads =
    let (p, h0) = plan_of sort w made.clusters made.main in
    let size : length (file_of p) ≡ length file = ap (length {A = ℕ}) made.file_is in
    let n =
      length-encode_clusters codec w.compression (group_items_into_clusters w).clusters
        made.clusters made.encoded in
    let has =
      plan_of-HasClusters sort w made.clusters made.main r mimes can n made.main_in (omega arith)
        (subst (Reads r) (sym made.file_is) reads) in
    subst (λ k. HasClusters (archive_with sort w r k mimes) file p.cluster_start made.clusters)
      made.header_is
      (subst (λ f. HasClusters (archive_with sort w r h0 mimes) f p.cluster_start made.clusters)
        made.file_is has)

-- A group of blobs whose cluster the archive can read back: its offsets fit, and its encoding is
-- not over the archive's limit of 256 MiB.
pub record IsGroup (codec : Codec) (compression : ℕ) (bs : List (List ℕ)) : Type 0 where
  pub fits : Fits (width bs) bs
  pub size :
      (enc : List ℕ) → encode_cluster codec compression bs ≡ ok enc → length enc ≤ 256 * 2 ^ 20

-- The blob with a number, of the group with a number.
pub look_group :
    (groups : List (List (List ℕ))) (m n : ℕ) (content : List ℕ)
    → look groups m n ≡ some content
    → (bs : List (List ℕ)) × (get_elem? groups m ≡ some bs) × (get_elem? bs n ≡ some content)
look_group groups m n content e = elim (Option-cases (get_elem? groups m)) [
  | inl gone ↦ cc (rw (look, gone) at e)
  | inr (bs, found) ↦ (bs, found, rw (look, found) at e)
]

pub get_or_found :
    (bs : List (List ℕ)) (n : ℕ) (content : List ℕ)
    → get_elem? bs n ≡ some content
    → get_or bs n [] ≡ content
get_or_found [] n content e = cc e
get_or_found (b ∷ bs) zero content e = cc e
get_or_found (b ∷ bs) (suc n) content e = get_or_found bs n content e

-- `getCluster` on the file: the cluster of a group, read back.
pub read_cluster-made :
    (sort : SortSlice) (codec : Codec) (w : Writer) (file : List ℕ) (h : Header) (r : Reader)
    (mimes : MimeList) (m : ℕ) (bs : List (List ℕ))
    → IsMade sort codec w file h
    → CanOpen sort w
    → length file < 2 ^ 63
    → Reads r file
    → (w.compression ≡ compression_none) ⊎ (w.compression ≡ compression_zstd)
    → IsLossless codec
    → get_elem? (group_items_into_clusters w).clusters m ≡ some bs
    → IsGroup codec w.compression bs
    → (spare : List ℕ) × (read_cluster codec (archive_with sort w r h mimes) m
        ≡ ok (cluster_of w.compression bs spare))
read_cluster-made sort codec w file h r mimes m bs made can small reads kind lossless at group =
    let (enc, found, encoded) =
      encode_clusters_at codec w.compression (group_items_into_clusters w).clusters made.clusters m
        bs made.encoded at in
    let (spare, parsed) =
      parse_encoded codec w.compression bs enc kind lossless group.fits encoded in
    (
      spare,
      read_cluster-chunk codec (archive_with sort w r h mimes) file
          (plan_of sort w made.clusters made.main).0.cluster_start made.clusters m enc
          (cluster_of w.compression bs spare)
          (made-HasClusters sort codec w file h r mimes made can small reads) found
          (encode_cluster_some codec w.compression bs enc kind encoded) (group.size enc encoded)
          parsed,
    )
