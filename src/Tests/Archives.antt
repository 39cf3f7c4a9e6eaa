-- ===== src/Tests/Archives.antt =====
-- archive/zim/archive.go and entry.go on a small archive.
use gozim.Base.{
  ℕ, zero, suc, ◌≡◌, ◌↔◌, refl, false, List, [], ◌∷◌, ◌++◌, get_elem?, leb, none, some, Error, ok,
  err, arith, replicate,
}
use gozim.Base.Lex.{lex_lt, bytes_eq}
use gozim.Header.{Header}
use gozim.Dirent.{Dirent, EntryType, is_deleted}
use gozim.Cluster.{Codec, exact}
use gozim.Archive.{
  Archive, Entry, sort_search, sort_key, ns_string, entry_by_namespace_and_path, search_loop,
  at_or_above,
}
use gozim.Archive.Listing.{find_by_path, iterate_dirents, listed_from, path_begins}
use gozim.Archive.Listing.Listed.{Listed, find_by_path_iff}
use gozim.Archive.Search.{IsFirst, sort_search-IsFirst}
use gozim.Archive.Lookup.{IsSorted, Has, entry_by_namespace_and_path_iff}

abbrev header : Header
header = record {
  magic_number = 0x044d495a;
  major = 6;
  minor = 3;
  uuid = replicate 16 0;
  entry_count = 3;
  cluster_count = 1;
  url_ptr_pos = 100;
  title_idx_pos = 0xffff_ffff_ffff_ffff;
  cluster_ptr_pos = 200;
  mime_list_pos = 80;
  main_page = 0;
  layout_page = 0xffff_ffff;
  checksum_pos = 0;
}

abbrev page : List ℕ → Dirent
page path = record {
  mime_type_index = 0;
  namespace = b'C';
  entry_type = EntryType.content;
  version = 0;
  cluster_number = 0;
  blob_number = 0;
  redirect_index = 0;
  path = path;
  title = [];
  extra = [];
}

-- "Ab", "b" and a redirect "c" to "b"
abbrev pages : List Dirent
pages =
    page (b'A' ∷ b'b' ∷ [])
    ∷ page (b'b' ∷ [])
    ∷ (record (page (b'c' ∷ [])) {
      entry_type = EntryType.redirect;
      mime_type_index = 0xffff;
      redirect_index = 1;
    })
    ∷ []

abbrev site : Archive
site = record {
  reader = record { size = 300; read_at = λ offset count. err Error.plain };
  header = header;
  mime_list = record { entries = [] };
  url_ptrs = [];
  dirents = pages;
  title_idx = none;
  front_articles = [];
}

sort_search-IsFirst_example : IsFirst 5 (leb 3) (sort_search 5 (leb 3))
sort_search-IsFirst_example = sort_search-IsFirst 5 (leb 3) (λ i j ij l t. ground arith)

pages-IsSorted : IsSorted site.dirents
unfolding IsSorted lex_lt sort_key ns_string
pages-IsSorted zero zero d e l p q = absurd (omega arith)
pages-IsSorted zero (suc zero) d e l p q = ground arith
pages-IsSorted zero (suc (suc zero)) d e l p q = ground arith
pages-IsSorted (suc zero) zero d e l p q = absurd (omega arith)
pages-IsSorted (suc zero) (suc zero) d e l p q = absurd (omega arith)
pages-IsSorted (suc zero) (suc (suc zero)) d e l p q = ground arith
pages-IsSorted (suc (suc i)) zero d e l p q = absurd (omega arith)
pages-IsSorted (suc (suc i)) (suc zero) d e l p q = absurd (omega arith)
pages-IsSorted (suc (suc i)) (suc (suc zero)) d e l p q = absurd (omega arith)
pages-IsSorted i (suc (suc (suc j))) d e l p q = absurd (ground arith)

entry_by_namespace_and_path_iff_example :
    ((i : ℕ) (d : Dirent)
      → (entry_by_namespace_and_path site b'C' (b'b' ∷ []) ≡ ok (record { dirent = d; index = i }))
        ↔ Has site b'C' (b'b' ∷ []) i d)
    × (((i : ℕ) (d : Dirent) → ¬ Has site b'C' (b'b' ∷ []) i d)
        → entry_by_namespace_and_path site b'C' (b'b' ∷ []) ≡ err Error.entry_not_found)
entry_by_namespace_and_path_iff_example =
    entry_by_namespace_and_path_iff site b'C' (b'b' ∷ []) pages-IsSorted

there :
    entry_by_namespace_and_path site b'C' (b'A' ∷ b'b' ∷ [])
    ≡ ok (record { dirent = page (b'A' ∷ b'b' ∷ []); index = 0 })
unfolding entry_by_namespace_and_path sort_search search_loop at_or_above sort_key ns_string lex_lt
    bytes_eq
there = refl

abbrev redirect : Entry
redirect = record {
  dirent = record (page (b'c' ∷ [])) {
    entry_type = EntryType.redirect;
    mime_type_index = 0xffff;
    redirect_index = 1;
  };
  index = 2;
}

abbrev codec : Codec
codec = record { compress = λ bs. ok bs; decompress = λ kind bs. ok (exact bs) }

abbrev b_page : Entry
b_page = record { dirent = page (b'b' ∷ []); index = 1 }

find_by_path_iff_example : Listed b_page (find_by_path site (b'b' ∷ [])) ↔ (
    (get_elem? site.dirents b_page.index ≡ some b_page.dirent)
    × (is_deleted b_page.dirent ≡ false)
    × ((rest : List ℕ) × (b_page.dirent.path ≡ (b'b' ∷ []) ++ rest)))
find_by_path_iff_example = find_by_path_iff site (b'b' ∷ []) b_page

b_listed : find_by_path site (b'b' ∷ []) ≡ b_page ∷ []
unfolding find_by_path iterate_dirents listed_from path_begins is_deleted bytes_eq
b_listed = refl
