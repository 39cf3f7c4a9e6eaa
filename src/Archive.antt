-- ===== src/Archive.antt =====
-- archive/zim: archive.go, entry.go and item.go, an open archive and the look-up of its entries.
pub mod Search
pub mod Lookup
pub mod Paths
pub mod Items
pub mod Listing
pub mod Titles
use gozim.Base.{
  ℕ, zero, suc, ◌+◌, ◌-◌, ◌*◌, ◌/◌, ◌%◌, ◌^◌, ◌≤◌, ◌<◌, ◌≡◌, Bool, true, false, not, ◌&&◌, ◌||◌,
  List, [], ◌∷◌, ◌++◌, length, take, drop, get_or, get_elem?, ltb, leb, ◌==◌, if◌then◌else◌, Option,
  none, some, Error, Result, ok, err, panic, ◌>>=◌, ◌>>◌, fail_if,
}
use gozim.Base.Bytes.{le_value}
use gozim.Base.Lex.{bytes_eq, lex_lt}
use gozim.Format.{
  header_size, namespace_content, namespace_article, namespace_image, namespace_script,
  namespace_layout, namespace_metadata, namespace_index, is_user_content,
}
use gozim.Header.{
  Header, parse_header, validate, has_title_index, has_new_namespace_scheme, has_main_page,
  has_checksum,
}
use gozim.Mime.{MimeList, parse_mime_list, mime_type}
use gozim.Dirent.{Dirent, parse_dirent, is_redirect, is_deleted, is_link_target}
use gozim.Cluster.{Cluster, Codec, exact, parse_cluster, blob_size, blob_range}
use gozim.Format.{sub64}

-- The interface `Reader`: the size of the file, and `ReadAt` of a number of bytes at an offset.
pub record Reader : Type 0 where
  pub size : ℕ
  pub read_at : ℕ → ℕ → Result (List ℕ)

-- `Archive`, with the fields that the operations below use.
pub record Archive : Type 0 where
  pub reader : Reader
  pub header : Header
  pub mime_list : MimeList
  pub url_ptrs : List ℕ
  pub dirents : List Dirent
  pub title_idx : Option (List ℕ)
  pub front_articles : List ℕ

-- `err` for any error with `ErrFormat` wrapped round it
abbrev as_format {ℓ} : {A : Type ℓ} → Result A → Result A
as_format (ok a) = ok a
as_format (err e) = err Error.format
as_format panic = panic

unfoldable pub load_mime_list : Reader → Header → Result MimeList
load_mime_list r h = do
  fail_if (leb h.url_ptr_pos h.mime_list_pos) Error.format
  buf ← as_format (r.read_at h.mime_list_pos (h.url_ptr_pos - h.mime_list_pos))
  ok (parse_mime_list buf)

-- `count` numbers of `w` bytes from a buffer
unfoldable pub numbers : ℕ → ℕ → List ℕ → List ℕ
numbers w zero buf = []
numbers w (suc count) buf = le_value (take w buf) ∷ numbers w count (drop w buf)

-- One round of the loop of `loadDirents`: at most 2048 bytes are read for an entry. An offset from
-- 2^63 on is a negative `int64`, at which `ReadAt` fails.
unfoldable pub load_dirent : Reader → ℕ → Result Dirent
load_dirent r offset =
    let remaining = r.size - offset in
    do
      fail_if (leb r.size offset) Error.format
      buf ← as_format (r.read_at offset (if ltb remaining 2048 then remaining else 2048))
      (d, _) ← as_format (parse_dirent buf)
      ok d

unfoldable pub load_each : Reader → List ℕ → Result (List Dirent)
unfolding load_dirent
load_each r [] = ok []
load_each r (p ∷ ps) = do d ← load_dirent r p; ds ← load_each r ps; ok (d ∷ ds)

unfoldable pub load_dirents : Reader → Header → Result (List ℕ × List Dirent)
unfolding numbers load_each
load_dirents r h = do
  ptrs ← as_format (r.read_at h.url_ptr_pos (8 * h.entry_count))
  let url_ptrs = numbers 8 h.entry_count ptrs
  dirents ← load_each r url_ptrs
  ok (url_ptrs, dirents)

-- The front articles of a title index: those in range whose namespace is user content.
unfoldable pub front_articles_of : List Dirent → List ℕ → List ℕ
front_articles_of ds [] = []
front_articles_of ds (i ∷ is) =
    let rest = front_articles_of ds is in
    elim (get_elem? ds i) [
      | none ↦ rest
      | some d ↦ if is_user_content d.namespace then i ∷ rest else rest
    ]

unfoldable pub load_title_index : Reader → Header → List Dirent → Option (List ℕ) × List ℕ
unfolding numbers front_articles_of
load_title_index r h ds = elim (r.read_at h.title_idx_pos (h.entry_count * 4)) [
  | ok buf ↦
      let title_idx = numbers 4 h.entry_count buf in
      (some title_idx, front_articles_of ds title_idx)
  | _ ↦ (none, [])
]

unfoldable pub open_archive : Reader → Result Archive
unfolding load_mime_list load_dirents load_title_index
open_archive r = do
  buf ← as_format (r.read_at 0 header_size)
  h ← parse_header buf
  validate h r.size
  mimes ← load_mime_list r h
  (url_ptrs, dirents) ← load_dirents r h
  let (title_idx, front) = if has_title_index h then load_title_index r h dirents else (none, [])
  ok (record {
    reader = r;
    header = h;
    mime_list = mimes;
    url_ptrs = url_ptrs;
    dirents = dirents;
    title_idx = title_idx;
    front_articles = front;
  })

-- Go's sort.Search: the loop on `i`, `j`, with fuel for its rounds.
unfoldable pub search_loop : ℕ → (ℕ → Bool) → ℕ → ℕ → ℕ
search_loop zero f i j = i
search_loop (suc fuel) f i j = elim (ltb i j) [
  | false ↦ i
  | true ↦
      let h = (i + j) / 2 in
      elim (f h) [ false ↦ search_loop fuel f (h + 1) j | true ↦ search_loop fuel f i h ]
]

-- The range shrinks in every round, so its length is fuel enough.
unfoldable pub sort_search : ℕ → (ℕ → Bool) → ℕ
unfolding search_loop
sort_search n f = search_loop n f 0 n

-- `string(byte(ns))`: the character with that code, in UTF-8
unfoldable pub ns_string : ℕ → List ℕ
ns_string ns = if ltb ns 128 then ns ∷ [] else (192 + ns / 64) ∷ (128 + ns % 64) ∷ []

-- `string(byte(ns)) + "\x00" + path`
unfoldable pub sort_key : ℕ → List ℕ → List ℕ
unfolding ns_string
sort_key ns path = ns_string ns ++ (0 ∷ path)

-- `dSortKey >= sortKey` at index `i`
unfoldable pub at_or_above : List Dirent → List ℕ → ℕ → Bool
at_or_above ds key i = elim (get_elem? ds i) [
  | none ↦ true
  | some d ↦ not (lex_lt (sort_key d.namespace d.path) key)
]

-- `Entry`: the entry and its index, in the archive that the operations are given.
pub record Entry : Type 0 where
  pub dirent : Dirent
  pub index : ℕ

unfoldable pub entry_by_namespace_and_path : Archive → ℕ → List ℕ → Result Entry
entry_by_namespace_and_path a ns path =
    let idx = sort_search (length a.dirents) (at_or_above a.dirents (sort_key ns path)) in
    elim (get_elem? a.dirents idx) [
      | none ↦ err Error.entry_not_found
      | some d ↦
          if d.namespace == ns && bytes_eq d.path path
          then ok (record { dirent = d; index = idx })
          else err Error.entry_not_found
    ]

-- The letters that `EntryByPath` takes for a namespace prefix.
unfoldable pub is_prefix_letter : ℕ → Bool
is_prefix_letter c =
    c == namespace_article
    || c == namespace_image
    || c == namespace_script
    || c == namespace_layout
    || c == namespace_metadata
    || c == namespace_index
    || c == namespace_content
    || c == b'W'

-- `if len(path) > 1 && path[1] == '/'`
unfoldable pub entry_by_prefix : Archive → List ℕ → Result Entry
entry_by_prefix a (c ∷ s ∷ rest) =
    if s == b'/' then entry_by_namespace_and_path a c rest else err Error.entry_not_found
entry_by_prefix a _ = err Error.entry_not_found

unfoldable pub entry_by_path : Archive → List ℕ → Result Entry
unfolding entry_by_prefix is_prefix_letter
entry_by_path a [] = err Error.entry_not_found
entry_by_path a (c ∷ path) =
    if has_new_namespace_scheme a.header && not (is_prefix_letter c)
    then entry_by_namespace_and_path a namespace_content (c ∷ path)
    else entry_by_prefix a (c ∷ path)

unfoldable pub entry_by_index : Archive → ℕ → Result Entry
entry_by_index a index = elim (get_elem? a.dirents index) [
  | none ↦ err Error.entry_not_found
  | some d ↦ ok (record { dirent = d; index = index })
]

unfoldable pub has_entry : Archive → List ℕ → Bool
has_entry a path = elim (entry_by_path a path) [ ok e ↦ true | _ ↦ false ]

unfoldable pub main_entry : Archive → Result Entry
main_entry a =
    if has_main_page a.header
    then entry_by_index a a.header.main_page
    else err Error.entry_not_found

unfoldable pub redirect_entry : Archive → Entry → Result Entry
redirect_entry a e =
    if is_redirect e.dirent
    then entry_by_index a e.dirent.redirect_index
    else err Error.invalid_type

-- `Item`; the archive is the one that the operations are given.
pub record Item : Type 0 where
  pub cluster_num : ℕ
  pub blob_num : ℕ
  pub mime_type : List ℕ
  pub data_size : ℕ

-- Where a cluster ends: `clusterSize` on uint64.
unfoldable pub cluster_size : Archive → ℕ → ℕ → Result ℕ
cluster_size a n offset =
    if ltb (n + 1) a.header.cluster_count
    then (do
      next ← a.reader.read_at (a.header.cluster_ptr_pos + n * 8 + 8) 8
      ok (sub64 (le_value next) offset))
    else if has_checksum a.header
    then ok (sub64 a.header.checksum_pos offset)
    else ok (sub64 a.reader.size offset)

-- `getCluster` where the cache does not hold the cluster: what it reads and parses.
unfoldable pub read_cluster : Codec → Archive → ℕ → Result Cluster
unfolding cluster_size
read_cluster codec a n = do
  fail_if (leb a.header.cluster_count n) Error.format
  ptr ← a.reader.read_at (a.header.cluster_ptr_pos + n * 8) 8
  let offset = le_value ptr
  size ← cluster_size a n offset
  fail_if (ltb (256 * 2 ^ 20) size) Error.format
  bytes ← a.reader.read_at offset size
  parse_cluster codec (exact bytes)

unfoldable pub read_item : Codec → Archive → Dirent → Result Item
unfolding read_cluster
read_item codec a d = do
  c ← read_cluster codec a d.cluster_number
  ok (record {
    cluster_num = d.cluster_number;
    blob_num = d.blob_number;
    mime_type = mime_type a.mime_list d.mime_type_index;
    data_size = blob_size c d.blob_number;
  })

-- `Entry.Item(false)`
unfoldable pub item_direct : Codec → Archive → Entry → Result Item
item_direct codec a e =
    if is_deleted e.dirent
    then err Error.invalid_type
    else if is_redirect e.dirent
    then err Error.invalid_type
    else if is_link_target e.dirent
    then err Error.invalid_type
    else read_item codec a e.dirent

-- `Entry.Item`: a redirect is followed once.
unfoldable pub item : Codec → Archive → Entry → Bool → Result Item
unfolding item_direct
item codec a e follow_redirect =
    if is_deleted e.dirent
    then err Error.invalid_type
    else if is_redirect e.dirent
    then (if follow_redirect
        then (do target ← redirect_entry a e; item_direct codec a target)
        else err Error.invalid_type)
    else if is_link_target e.dirent
    then err Error.invalid_type
    else read_item codec a e.dirent

-- `Item.Data`
unfoldable pub item_bytes : Codec → Archive → Item → ℕ → ℕ → Result (List ℕ)
unfolding read_cluster
item_bytes codec a i offset size = do
  fail_if (ltb i.data_size offset) Error.format
  c ← read_cluster codec a i.cluster_num
  blob_range c i.blob_num offset (
      if size == 0 || ltb i.data_size ((offset + size) % 2 ^ 64)
      then i.data_size - offset
      else size)

unfoldable pub all_bytes : Codec → Archive → Item → Result (List ℕ)
unfolding item_bytes
all_bytes codec a i = item_bytes codec a i 0 i.data_size
