-- ===== src/Writer/Layout/Items.antt =====
-- Entry.Item and Item.Data on a file that the writer left.
use gozim.Base.{
  All, zero, suc, ◌∷◌, ◌++◌, ok-injective, ℕ, ◌+◌, ◌-◌, ◌%◌, ◌^◌, ◌≤◌, ◌<◌, ◌≡◌, ◌⊎◌, refl, sym, ap,
  ◌∙◌, ◌||◌, ◌==◌, List, [], length, take, drop, get_or, get_elem?, if◌then◌else◌, le→ltb, ltb,
  some, ok, arith,
}
use mathlib.Core.Path.{subst}
use gozim.Base.Positions.{get_elem?-lt}
use gozim.Format.{compression_none, compression_zstd}
use gozim.Header.{Header}
use gozim.Mime.{MimeList, mime_type, parse_mime_list}
use gozim.Mime
use gozim.Dirent.{EntryType, is_deleted, is_redirect, is_link_target}
use gozim.Cluster.{Cluster, Codec, blob_range, blob_size, concat_blobs}
use gozim.Cluster.RoundTrip.{cluster_of}
use gozim.Cluster.Blobs.{IsLossless, blob_at}
use gozim.Cluster.Ranges.{blob_size-cluster_of, blob_range-cluster_of}
use gozim.Archive.{
  Reader, Archive, Entry, Item, read_cluster, read_item, item_direct, item_bytes, open_archive,
}
use gozim.Writer.{Writer, group_items_into_clusters}
use gozim.Writer.Held.{look}
use gozim.Writer.Layout.{SortSlice, finish_writing}
use gozim.Writer.Layout.Reading.{Reads}
use gozim.Writer.Layout.Opened.{IsMade, finish_writing-IsMade, CanOpen}
use gozim.Writer.Layout.Archived.{archive_with, open_made}
use gozim.Writer.Layout.ReadBack.{IsGroup, look_group, get_or_found, read_cluster-made}

-- How many bytes `Data` reads: a size of zero, or one that goes past the end, means the rest.
abbrev pub part_size : ℕ → ℕ → ℕ → ℕ
part_size total offset size =
    if size == 0 || ltb total ((offset + size) % 2 ^ 64) then total - offset else size

-- `Item` and `Data` where the cluster can be read.
item_direct_steps :
    (codec : Codec) (a : Archive) (e : Entry) (c : Cluster) (n : ℕ)
    → e.dirent.entry_type ≡ EntryType.content
    → read_cluster codec a e.dirent.cluster_number ≡ ok c
    → blob_size c e.dirent.blob_number ≡ n
    → item_direct codec a e
      ≡ ok (record {
        cluster_num = e.dirent.cluster_number;
        blob_num = e.dirent.blob_number;
        mime_type = mime_type a.mime_list e.dirent.mime_type_index;
        data_size = n;
      })
unfolding item_direct read_item is_deleted is_redirect is_link_target
item_direct_steps codec a e c n content at size = rw (content, at, size) refl

item_bytes_steps :
    (codec : Codec) (a : Archive) (i : Item) (c : Cluster) (offset size : ℕ) (bytes : List ℕ)
    → offset ≤ i.data_size
    → read_cluster codec a i.cluster_num ≡ ok c
    → blob_range c i.blob_num offset (part_size i.data_size offset size) ≡ ok bytes
    → item_bytes codec a i offset size ≡ ok bytes
unfolding item_bytes
item_bytes_steps codec a i c offset size bytes inside at read =
    rw (le→ltb i.data_size offset inside, at) read

part_size-le :
    (total offset size : ℕ)
    → total < 2 ^ 63
    → size < 2 ^ 63
    → offset ≤ total
    → offset + part_size total offset size ≤ total
part_size-le total offset size small small' h = ground arith

-- An item of the archive, and the bytes it gives, from the cluster of a group.
item_read :
    (codec : Codec) (a : Archive) (e : Entry) (compression : ℕ) (bs : List (List ℕ))
    (spare content : List ℕ) (offset size : ℕ)
    → e.dirent.entry_type ≡ EntryType.content
    → read_cluster codec a e.dirent.cluster_number ≡ ok (cluster_of compression bs spare)
    → length (concat_blobs bs) < 2 ^ 63
    → length content < 2 ^ 63
    → e.dirent.blob_number < length bs
    → get_or bs e.dirent.blob_number [] ≡ content
    → offset ≤ length content
    → size < 2 ^ 63
    → (i : Item) × (item_direct codec a e ≡ ok i)
      × (i.data_size ≡ length content)
      × (i.mime_type ≡ mime_type a.mime_list e.dirent.mime_type_index)
      × (item_bytes codec a i offset size
          ≡ ok (take (part_size (length content) offset size) (drop offset content)))
item_read codec a e compression bs spare content offset size type at small small' h same inside
      few =
    let n = e.dirent.blob_number in
    let i : Item = record {
      cluster_num = e.dirent.cluster_number;
      blob_num = n;
      mime_type = mime_type a.mime_list e.dirent.mime_type_index;
      data_size = length content;
    } in
    let l : length (get_or bs n []) ≡ length content = ap (length {A = ℕ}) same in
    let k = part_size (length content) offset size in
    (
      i,
      item_direct_steps codec a e (cluster_of compression bs spare) (length content) type at
          (blob_size-cluster_of compression bs spare n h small ∙ l),
      refl,
      refl,
      item_bytes_steps codec a i (cluster_of compression bs spare) offset size _ inside at (
          blob_range-cluster_of compression bs spare n offset k h small
            (omega (arith, part_size-le (length content) offset size small' few inside))
          ∙ ap (λ b. ok (take k (drop offset b))) same),
    )

-- What the writer's contents must be for the archive to read them back: no compression or a
-- lossless zstd, and groups of blobs that fit.
pub record CanRead (codec : Codec) (w : Writer) : Type 0 where
  pub compression : (w.compression ≡ compression_none) ⊎ (w.compression ≡ compression_zstd)
  pub lossless : IsLossless codec
  pub groups : All (IsGroup codec w.compression) (group_items_into_clusters w).clusters

All-get_elem? :
    (codec : Codec) (compression : ℕ) (groups : List (List (List ℕ))) (m : ℕ) (bs : List (List ℕ))
    → All (IsGroup codec compression) groups
    → get_elem? groups m ≡ some bs
    → IsGroup codec compression bs
All-get_elem? codec compression [] m bs all e = cc e
All-get_elem? codec compression (g ∷ gs) zero bs all e =
    let same : g ≡ bs = cc e in subst (IsGroup codec compression) same all.0
All-get_elem? codec compression (g ∷ gs) (suc m) bs all e =
    All-get_elem? codec compression gs m bs all.1 e

item_made :
    (sort : SortSlice) (codec : Codec) (w : Writer) (file : List ℕ) (h : Header) (r : Reader)
    (mimes : MimeList) (e : Entry) (content : List ℕ) (offset size : ℕ)
    → IsMade sort codec w file h
    → CanOpen sort w
    → CanRead codec w
    → length file < 2 ^ 63
    → Reads r file
    → e.dirent.entry_type ≡ EntryType.content
    → look (group_items_into_clusters w).clusters e.dirent.cluster_number e.dirent.blob_number
      ≡ some content
    → offset ≤ length content
    → size < 2 ^ 63
    → let a = archive_with sort w r h mimes in
      (i : Item) × (item_direct codec a e ≡ ok i)
      × (i.data_size ≡ length content)
      × (i.mime_type ≡ mime_type a.mime_list e.dirent.mime_type_index)
      × (item_bytes codec a i offset size
          ≡ ok (take (part_size (length content) offset size) (drop offset content)))
item_made sort codec w file h r mimes e content offset size made can reading small reads type at
      inside few =
    let groups = (group_items_into_clusters w).clusters in
    let (bs, found, stands) =
      look_group groups e.dirent.cluster_number e.dirent.blob_number content at in
    let group =
      All-get_elem? codec w.compression groups e.dirent.cluster_number bs reading.groups found in
    let (spare, cluster) =
      read_cluster-made sort codec w file h r mimes e.dirent.cluster_number bs made can small reads
        reading.compression reading.lossless found group in
    let n = get_elem?-lt bs e.dirent.blob_number content stands in
    let same = get_or_found bs e.dirent.blob_number content stands in
    let (rest, p, fits) = blob_at bs e.dirent.blob_number [] n in
    item_read codec (archive_with sort w r h mimes) e w.compression bs spare content offset size
      type cluster (omega (arith, group.fits.int))
      (omega (arith, group.fits.int, fits, ap (length {A = ℕ}) same)) n same inside few

-- What a writer was given is read back from the file it left: for an entry of content that points
-- to a content in the writer's clusters, the opened archive gives an item with the length of the
-- content, the MIME type at the entry's index, and, from an offset within it, the bytes of the
-- content from there on: as many as asked, or all to the end where the number is zero or goes past
-- the end. The conditions are those under which the file opens, a compression that is none or a
-- lossless zstd, groups of blobs that fit the offsets and the archive's limit of 256 MiB for an
-- encoded cluster, a reader that gives the bytes of the file, and a number below 2^63.
pub item_bytes-finish_writing :
    (sort : SortSlice) (codec : Codec) (w : Writer) (file : List ℕ) (h : Header) (r : Reader)
    (a : Archive) (e : Entry) (content : List ℕ) (offset size : ℕ)
    → CanOpen sort w
    → CanRead codec w
    → finish_writing sort codec w ≡ ok (file, h)
    → length file < 2 ^ 63
    → Reads r file
    → open_archive r ≡ ok a
    → e.dirent.entry_type ≡ EntryType.content
    → look (group_items_into_clusters w).clusters e.dirent.cluster_number e.dirent.blob_number
      ≡ some content
    → offset ≤ length content
    → size < 2 ^ 63
    → (i : Item) × (item_direct codec a e ≡ ok i)
      × (i.data_size ≡ length content)
      × (i.mime_type ≡ mime_type a.mime_list e.dirent.mime_type_index)
      × (item_bytes codec a i offset size
          ≡ ok (take (part_size (length content) offset size) (drop offset content)))
item_bytes-finish_writing sort codec w file h r a e content offset size can reading done small reads
      opened type at inside few =
    let made = finish_writing-IsMade sort codec w file h (omega (arith, can.few_entries)) done in
    let (rest, opens) = open_made sort codec w file h r can made small reads in
    let mimes = parse_mime_list (Mime.encode (group_items_into_clusters w).mimes ++ rest) in
    let same : archive_with sort w r h mimes ≡ a = ok-injective (sym opens ∙ opened) in
    subst
      (λ b.
        (i : Item) × (item_direct codec b e ≡ ok i)
        × (i.data_size ≡ length content)
        × (i.mime_type ≡ mime_type b.mime_list e.dirent.mime_type_index)
        × (item_bytes codec b i offset size
            ≡ ok (take (part_size (length content) offset size) (drop offset content))))
      same
      (item_made sort codec w file h r mimes e content offset size made can reading small reads type
        at inside few)
