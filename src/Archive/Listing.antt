-- ===== src/Archive/Listing.antt =====
-- archive/zim/archive.go: the listings of an archive's entries. A channel is the list of what is
-- sent on it, in order; the index of an entry is a uint32, as the number of entries is.
pub mod Listed
use gozim.Base.{
  ℕ, suc, ◌+◌, ◌-◌, ◌≤◌, ◌%◌, ◌^◌, ◌≡◌, Bool, true, false, not, ◌&&◌, List, [], ◌∷◌, length, take,
  leb, if◌then◌else◌, Option, none, some, get_elem?, Result, ok, err, ◌>>=◌,
}
use gozim.Base.Lex.{bytes_eq}
use gozim.Format.{namespace_metadata, is_metadata}
use gozim.Dirent.{Dirent, is_deleted}
use gozim.Cluster.{Codec}
use gozim.Archive.{Archive, Entry, entry_by_namespace_and_path, item_direct, all_bytes}

-- The loop of `iterateDirents`, from an index on.
unfoldable pub listed_from : ℕ → (Dirent → Bool) → List Dirent → List Entry
listed_from i filter [] = []
listed_from i filter (d ∷ ds) =
    let rest = listed_from (suc i) filter ds in
    if is_deleted d
    then rest
    else if not (filter d)
    then rest
    else (record { dirent = d; index = i }) ∷ rest

unfoldable pub iterate_dirents : Archive → (Dirent → Bool) → List Entry
unfolding listed_from
iterate_dirents a filter = listed_from 0 filter a.dirents

-- `IterateByPath`: no filter.
unfoldable pub iterate_by_path : Archive → List Entry
unfolding iterate_dirents
iterate_by_path a = iterate_dirents a (λ d. true)

-- `len(d.Path) >= len(prefix) && d.Path[:len(prefix)] == prefix`
unfoldable pub path_begins : List ℕ → Dirent → Bool
path_begins prefix d =
    leb (length prefix) (length d.path) && bytes_eq (take (length prefix) d.path) prefix

unfoldable pub find_by_path : Archive → List ℕ → List Entry
unfolding iterate_dirents path_begins
find_by_path a prefix = iterate_dirents a (path_begins prefix)

-- `MetadataKeys`
unfoldable pub keys_of : List Dirent → List (List ℕ)
unfolding is_metadata
keys_of [] = []
keys_of (d ∷ ds) = let rest = keys_of ds in if is_metadata d.namespace then d.path ∷ rest else rest

unfoldable pub metadata_keys : Archive → List (List ℕ)
unfolding keys_of
metadata_keys a = keys_of a.dirents

-- `Metadata`; any error stands for the result `"", false`.
unfoldable pub metadata : Codec → Archive → List ℕ → Result (List ℕ)
unfolding entry_by_namespace_and_path
metadata codec a key = do
  e ← entry_by_namespace_and_path a namespace_metadata key
  i ← item_direct codec a e
  all_bytes codec a i

-- `ArticleCount` and `MediaCount`, on uint32
unfoldable pub article_count : Archive → ℕ
article_count a = length a.front_articles % 2 ^ 32

unfoldable pub media_count : Archive → ℕ
unfolding article_count
media_count a = (a.header.entry_count + 2 ^ 32 - article_count a) % 2 ^ 32
