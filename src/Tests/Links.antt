-- ===== src/Tests/Links.antt =====
-- The checks of the contents, on a small page and on a small archive.
use gozim.Base.{
  ℕ, ◌≡◌, refl, List, [], ◌∷◌, ◌++◌, All, take, drop, length, replicate, none, ok, arith,
}
use gozim.Base.Lex.{bytes_eq}
use gozim.Dirent.{Dirent, EntryType, is_content}
use gozim.Cluster.{
  Codec, exact, parse_cluster, blob_range, blob_size, parse_cluster_info, parse_by, slice_from,
  parse_table, offset_size, read_uint,
}
use gozim.Header.{has_checksum}
use gozim.Base.Bytes.{le_value}
use gozim.Archive.{Archive, Reader, read_item, all_bytes}
use gozim.Integrity.Links.{Link, href_attr, links_of, check_redundancy, content_of}
use gozim.Integrity.Links.Ends.{links_of-ok}
use gozim.Integrity.Links.Twins.{IsTwin, check_redundancy-IsTwin}

-- <a href="b">
abbrev page : List ℕ
page = b'<' ∷ b'a' ∷ b' ' ∷ href_attr ++ (b'"' ∷ b'b' ∷ b'"' ∷ b'>' ∷ [])

links_of-ok_example : (ls : List Link) × (links_of page href_attr ≡ ok ls)
links_of-ok_example = links_of-ok page href_attr (omega arith)

-- the pointer to the one cluster, and the cluster, with a blob of one byte
abbrev file : List ℕ
file = 8 ∷ 0 ∷ 0 ∷ 0 ∷ 0 ∷ 0 ∷ 0 ∷ 0 ∷ 1 ∷ 8 ∷ 0 ∷ 0 ∷ 0 ∷ 9 ∷ 0 ∷ 0 ∷ 0 ∷ 42 ∷ []

abbrev file_reader : Reader
file_reader = record {
  size = length file;
  read_at = λ offset count. ok (take count (drop offset file));
}

abbrev identity : Codec
identity = record { compress = λ s. ok s; decompress = λ c s. ok (exact s) }

abbrev content_at : List ℕ → Dirent
content_at path = record {
  mime_type_index = 0;
  namespace = b'C';
  entry_type = EntryType.content;
  version = 0;
  cluster_number = 0;
  blob_number = 0;
  redirect_index = 0;
  path = path;
  title = [];
  extra = [];
}

-- two entries with the same blob
abbrev twins : Archive
twins = record {
  reader = file_reader;
  header = record {
    magic_number = 0x044d495a;
    major = 6;
    minor = 3;
    uuid = replicate 16 0;
    entry_count = 2;
    cluster_count = 1;
    url_ptr_pos = 0;
    title_idx_pos = 0xffff_ffff_ffff_ffff;
    cluster_ptr_pos = 0;
    mime_list_pos = 0;
    main_page = 0;
    layout_page = 0xffff_ffff;
    checksum_pos = 0;
  };
  mime_list = record { entries = [] };
  url_ptrs = [];
  dirents = content_at (b'a' ∷ []) ∷ content_at (b'b' ∷ []) ∷ [];
  title_idx = none;
  front_articles = [];
}

-- with the bytes themselves for their hash
twins_found : check_redundancy (λ s. s) identity twins ≡ ok ((0, 1) ∷ [])
unfolding check_redundancy content_of is_content read_item all_bytes parse_cluster blob_range
    blob_size parse_cluster_info le_value has_checksum bytes_eq parse_by slice_from parse_table
    offset_size read_uint
twins_found = refl

check_redundancy-IsTwin_example : All (IsTwin (λ s. s) identity twins) ((0, 1) ∷ [])
check_redundancy-IsTwin_example =
    check_redundancy-IsTwin (λ s. s) identity twins ((0, 1) ∷ []) twins_found
