-- ===== src/Archive/Titles.antt =====
-- archive/zim/archive.go: what goes by the title index, and the entries in the order of the clusters.
pub mod ByTitle
use gozim.Base.{
  ℕ, zero, suc, ◌+◌, ◌/◌, ◌%◌, ◌^◌, ◌≤◌, ◌≡◌, Bool, true, false, not, ◌||◌, ◌&&◌, List, [], ◌∷◌,
  length, get_elem?, ltb, leb, ◌==◌, if◌then◌else◌, Option, none, some, Error, Result, ok, err,
  panic, ◌>>=◌, ◌>>◌, fail_if,
}
use gozim.Base.Lex.{bytes_eq, lex_lt}
use gozim.Header.{has_new_namespace_scheme, has_checksum}
use gozim.Dirent.{Dirent, is_deleted, is_redirect}
use gozim.Cluster.{Codec}
use gozim.Archive.{
  Archive, Entry, Item, numbers, sort_search, entry_by_path, entry_by_index, has_entry, item_direct,
  all_bytes,
}

-- "X/listing/titleOrdered/v1"
abbrev v1_path : List ℕ
v1_path =
    b'X' ∷ b'/' ∷ b'l' ∷ b'i' ∷ b's' ∷ b't' ∷ b'i' ∷ b'n' ∷ b'g' ∷ b'/' ∷ b't' ∷ b'i' ∷ b't' ∷ b'l'
    ∷ b'e' ∷ b'O' ∷ b'r' ∷ b'd' ∷ b'e' ∷ b'r' ∷ b'e' ∷ b'd' ∷ b'/' ∷ b'v' ∷ b'1' ∷ []

-- "X/fulltext/xapian"
abbrev xapian_path : List ℕ
xapian_path =
    b'X' ∷ b'/' ∷ b'f' ∷ b'u' ∷ b'l' ∷ b'l' ∷ b't' ∷ b'e' ∷ b'x' ∷ b't' ∷ b'/' ∷ b'x' ∷ b'a' ∷ b'p'
    ∷ b'i' ∷ b'a' ∷ b'n' ∷ []

-- The entry of the index, read into the archive.
unfoldable read_title_index : Codec → Archive → Entry → Result Archive
unfolding numbers
read_title_index codec a e = do
  i ← item_direct codec a e
  bytes ← all_bytes codec a i
  fail_if (not (length bytes % 4 == 0)) Error.format
  let title_idx = numbers 4 (length bytes / 4) bytes
  ok (record a { title_idx = some title_idx; front_articles = title_idx })

-- `loadTitleIndexV1`: the archive as it is then. Where the entry is missing, it stays as it was.
unfoldable load_title_index_v1 : Codec → Archive → Result Archive
unfolding read_title_index
load_title_index_v1 codec a =
    if not (has_new_namespace_scheme a.header) then ok a else elim (entry_by_path a v1_path) [
      | ok e ↦ read_title_index codec a e
      | err _ ↦ ok a
      | panic ↦ panic
    ]

-- The entries of the index; nil is none.
unfoldable title_entries : Archive → List ℕ
title_entries a = elim a.title_idx [ none ↦ [] | some title_idx ↦ title_idx ]

-- `a.dirents[entryIdx].Title >= title` at a place of the index, false where that is out of range
unfoldable pub title_at_or_above : List Dirent → List ℕ → List ℕ → ℕ → Bool
title_at_or_above ds title_idx title i = elim (get_elem? title_idx i) [
  | none ↦ false
  | some entry_idx ↦ elim (get_elem? ds entry_idx) [
    | none ↦ false
    | some d ↦ not (lex_lt d.title title)
  ]
]

-- The search of `EntryByTitle` in an index.
unfoldable pub find_title : List Dirent → List ℕ → List ℕ → Result Entry
unfolding title_at_or_above
find_title ds title_idx title =
    let idx = sort_search (length title_idx) (title_at_or_above ds title_idx title) in
    elim (get_elem? title_idx idx) [
      | none ↦ err Error.entry_not_found
      | some entry_idx ↦ elim (get_elem? ds entry_idx) [
        | none ↦ err Error.entry_not_found
        | some d ↦
            if bytes_eq d.title title
            then ok (record { dirent = d; index = entry_idx })
            else err Error.entry_not_found
      ]
    ]

-- `EntryByTitle`: the archive, which may have loaded its index, and the result.
unfoldable entry_by_title : Codec → Archive → List ℕ → Archive × Result Entry
unfolding load_title_index_v1 title_entries find_title
entry_by_title codec a title = elim a.title_idx [
  | some title_idx ↦ (a, find_title a.dirents title_idx title)
  | none ↦ elim (load_title_index_v1 codec a) [
    | ok a' ↦ (a', find_title a'.dirents (title_entries a') title)
    | err _ ↦ (a, err Error.entry_not_found)
    | panic ↦ (a, panic)
  ]
]

-- `RandomEntry`, with what `rand.Intn` returns as an argument.
unfoldable random_entry : Codec → Archive → (ℕ → ℕ) → Archive × Result Entry
unfolding load_title_index_v1
random_entry codec a random =
    let pick : Archive → Result Entry = λ b.
      elim (get_elem? b.front_articles (random (length b.front_articles))) [
        | none ↦ panic
        | some idx ↦ entry_by_index b idx
      ] in
    elim a.front_articles [
      | _ ∷ _ ↦ (a, pick a)
      | [] ↦ elim (load_title_index_v1 codec a) [
        | ok a' ↦ elim a'.front_articles [
          | [] ↦ (a', err Error.entry_not_found)
          | _ ∷ _ ↦ (a', pick a')
        ]
        | err _ ↦ (a, err Error.entry_not_found)
        | panic ↦ (a, panic)
      ]
    ]

-- The loop of `IterateByTitle`.
unfoldable titled : List Dirent → List ℕ → List Entry
titled ds [] = []
titled ds (i ∷ is) =
    let rest = titled ds is in
    elim (get_elem? ds i) [
      | none ↦ rest
      | some d ↦ if is_deleted d then rest else (record { dirent = d; index = i }) ∷ rest
    ]

unfoldable iterate_by_title : Codec → Archive → Archive × Result (List Entry)
unfolding load_title_index_v1 title_entries titled
iterate_by_title codec a = elim a.title_idx [
  | some title_idx ↦ (a, ok (titled a.dirents title_idx))
  | none ↦ elim (load_title_index_v1 codec a) [
    | ok a' ↦ (a', ok (titled a'.dirents (title_entries a')))
    | err _ ↦ (a, ok [])
    | panic ↦ (a, panic)
  ]
]

-- `items` of `IterateByClusterOrder`, from an index on; the index is a uint32.
unfoldable indexed : ℕ → List Dirent → List Entry
indexed i [] = []
indexed i (d ∷ ds) =
    let rest = indexed (suc i) ds in
    if is_deleted d || is_redirect d then rest else (record { dirent = d; index = i }) ∷ rest

-- The order by cluster, then by blob
unfoldable cluster_before : Entry → Entry → Bool
cluster_before x y =
    if not (x.dirent.cluster_number == y.dirent.cluster_number)
    then ltb x.dirent.cluster_number y.dirent.cluster_number
    else ltb x.dirent.blob_number y.dirent.blob_number

-- `sort.Slice` by that order is a parameter.
unfoldable iterate_by_cluster_order :
    ((Entry → Entry → Bool) → List Entry → List Entry) → Archive → List Entry
unfolding indexed cluster_before
iterate_by_cluster_order sort a = sort cluster_before (indexed 0 a.dirents)

unfoldable has_fulltext_index : Archive → Bool
has_fulltext_index a = has_entry a xapian_path

-- `HasTitleIndex` of an archive
unfoldable knows_titles : Archive → Bool
knows_titles a = elim a.title_idx [ none ↦ false | some _ ↦ true ]
