-- ===== src/Writer/Layout.antt =====
-- archive/zim/writer.go, resolveRedirects and finishWriting: the file that the writer leaves, where
-- no write to it fails.
pub mod Bounds
pub mod Opens
pub mod Regions
pub mod Parts
pub mod Reading
pub mod Entries
pub mod Opened
pub mod Archived
pub mod Chunks
pub mod Contents
pub mod ReadBack
pub mod Items
pub mod Redirects
pub mod Resolved
pub mod Sorted
pub mod Gathered
use gozim.Base.{
  ℕ, zero, suc, ◌+◌, ◌-◌, ◌*◌, ◌%◌, ◌^◌, ◌≤◌, ◌<◌, Bool, true, false, not, ◌&&◌, ◌||◌, List, [],
  ◌∷◌, ◌++◌, length, take, drop, replicate, ltb, leb, ◌==◌, if◌then◌else◌, Option, none, some,
  Error, Result, ok, err, panic, ◌>>=◌, ◌>>◌, fail_if,
}
use gozim.Base.Bytes.{put_le}
use gozim.Base.Lex.{bytes_eq, lex_lt}
use gozim.Format.{header_size}
use gozim.Header.{Header, new_header, encode_header}
use gozim.Mime
use gozim.Dirent.{Dirent, EntryType, encode_dirent, is_redirect, is_content, is_link_target}
use gozim.Cluster.{Codec, encode_cluster}
use gozim.Writer.{RedirectEntry, Writer, group_items_into_clusters}

-- `sort.Slice`, which is a parameter, takes the order and the entries.
abbrev pub SortSlice : Type 0
SortSlice = (Dirent → Dirent → Bool) → List Dirent → List Dirent

-- The order that `finishWriting` sorts by: the namespace, and then the path.
unfoldable pub before_dirent : Dirent → Dirent → Bool
before_dirent d e =
    if not (d.namespace == e.namespace) then ltb d.namespace e.namespace else lex_lt d.path e.path

-- `pathToIndex[path]`: the last content entry or link target with the path.
unfoldable pub path_index : List ℕ → ℕ → List Dirent → Option ℕ
path_index path i [] = none
path_index path i (d ∷ ds) = elim (path_index path (i + 1) ds) [
  | some j ↦ some j
  | none ↦
      if (is_content d || is_link_target d) && bytes_eq d.path path then some (i % 2 ^ 32) else none
]

-- The first redirect with a path gets its target, if the target is known.
unfoldable pub set_target : List ℕ → Option ℕ → List Dirent → List Dirent
set_target path target [] = []
set_target path target (d ∷ ds) =
    let rest = d ∷ set_target path target ds in
    if is_redirect d && bytes_eq d.path path
    then elim target [ some i ↦ (record d { redirect_index = i }) ∷ ds | none ↦ d ∷ ds ]
    else rest

-- The last loop of `resolveRedirects`. It ends early only with fewer entries than redirects.
unfoldable pub resolve : List Dirent → ℕ → List RedirectEntry → List Dirent → List Dirent
unfolding path_index set_target
resolve known i [] ds = ds
resolve known i (r ∷ rs) ds =
    if leb (length ds) i
    then ds
    else resolve known (i + 1) rs (set_target r.path (path_index r.target_path 0 known) ds)

unfoldable pub resolve_redirects : List RedirectEntry → List Dirent → List Dirent
unfolding resolve
resolve_redirects rs ds = resolve ds 0 rs ds

-- A write to the file at a position: behind the end of the file, the gap is zeros.
unfoldable pub write_at : List ℕ → ℕ → List ℕ → List ℕ
write_at file pos [] = file
write_at file pos (b ∷ bs) =
    take pos (file ++ replicate (pos - length file) 0)
    ++ ((b ∷ bs) ++ drop (pos + length (b ∷ bs)) file)

-- Writes one after the other.
unfoldable pub write_all : List ℕ → ℕ → List (List ℕ) → List ℕ
unfolding write_at
write_all file pos [] = file
write_all file pos (c ∷ cs) = write_all (write_at file pos c) (pos + length c) cs

-- Where each of the chunks starts, and where the last one ends.
unfoldable pub starts : ℕ → List (List ℕ) → List ℕ
starts pos [] = []
starts pos (c ∷ cs) = pos ∷ starts (pos + length c) cs

unfoldable pub end_of_all : ℕ → List (List ℕ) → ℕ
end_of_all pos [] = pos
end_of_all pos (c ∷ cs) = end_of_all (pos + length c) cs

unfoldable pub encode_dirents : List Dirent → List (List ℕ)
encode_dirents [] = []
encode_dirents (d ∷ ds) = encode_dirent d ∷ encode_dirents ds

unfoldable pub encode_clusters : Codec → ℕ → List (List (List ℕ)) → Result (List (List ℕ))
encode_clusters codec compression [] = ok []
encode_clusters codec compression (blobs ∷ cs) = do
  c ← encode_cluster codec compression blobs
  rest ← encode_clusters codec compression cs
  ok (c ∷ rest)

-- Pointers of eight bytes
unfoldable pub pointers : List ℕ → List (List ℕ)
pointers [] = []
pointers (p ∷ ps) = put_le 8 p ∷ pointers ps

-- The first entry with the path, if there is a path.
unfoldable pub main_index : List ℕ → ℕ → List Dirent → Option ℕ
main_index path i [] = none
main_index path i (d ∷ ds) =
    let rest = main_index path (i + 1) ds in
    if bytes_eq d.path path then some (i % 2 ^ 32) else rest

unfoldable pub find_main : List ℕ → List Dirent → Option ℕ
unfolding main_index
find_main [] ds = none
find_main (b ∷ path) ds = main_index (b ∷ path) 0 ds

-- `finishWriting`: the file and the header in it. `sort.Slice` is a parameter.
unfoldable pub finish_writing : SortSlice → Codec → Writer → Result (List ℕ × Header)
unfolding resolve_redirects encode_dirents write_all starts end_of_all encode_clusters pointers
    find_main
finish_writing sort codec w =
    let g = group_items_into_clusters w in
    let dirents = resolve_redirects w.redirects (sort before_dirent g.dirents) in
    let mimes = Mime.encode g.mimes in
    let dirent_start = header_size + length mimes in
    let encoded = encode_dirents dirents in
    let url_ptr_start = end_of_all dirent_start encoded in
    let url_ptrs = pointers (starts dirent_start encoded) in
    let cluster_ptr_start = url_ptr_start + length dirents * 8 in
    let cluster_start = cluster_ptr_start + length g.clusters * 8 in
    do
      clusters ← encode_clusters codec w.compression g.clusters
      let checksum_pos = end_of_all cluster_start clusters
      let file = write_at [] header_size mimes
      let file = write_all file dirent_start encoded
      let file = write_all file url_ptr_start url_ptrs
      let file = write_all file cluster_start clusters
      let file = write_all file cluster_ptr_start (pointers (starts cluster_start clusters))
      let file = write_at file checksum_pos (replicate 16 0)
      let header = record new_header {
        uuid = w.uuid;
        entry_count = length dirents % 2 ^ 32;
        cluster_count = length g.clusters % 2 ^ 32;
        url_ptr_pos = url_ptr_start;
        cluster_ptr_pos = cluster_ptr_start;
        mime_list_pos = header_size;
        checksum_pos = checksum_pos;
        main_page = elim (find_main w.main_path dirents) [ some i ↦ i | none ↦ 0xffff_ffff ];
      }
      ok (write_at file 0 (encode_header header), header)
