-- ===== src/Tests/Files.antt =====
-- A file that the writer leaves, opened and read.
use gozim.Base.{
  ℕ, zero, suc, Bool, true, ◌+◌, ◌^◌, get_elem?, ◌≤◌, ◌<◌, ◌≡◌, refl, inl, leb, le→leb, List, [],
  ◌∷◌, length, take, drop, All, get_or, ok-injective, some, sym, ap, ◌*◌, if◌then◌else◌, Error, ok,
  err, arith,
}
use mathlib.Core.Path.{subst}
use gozim.Writer.Held.{look}
use gozim.Base.Bytes.{put_le}
use gozim.Base.Lex.{lex_lt, bytes_eq}
use gozim.Format.{mime_deleted}
use gozim.Header.{Header, encode_header, new_header}
use gozim.Mime.{MimeList, mime_type}
use gozim.Mime
use gozim.Mime.RoundTrip.{IsName}
use gozim.Dirent.{
  Dirent, EntryType, is_redirect, is_content, is_link_target, encode_dirent, put_target, fixed_len,
}
use gozim.Dirent.RoundTrip.{length-encode_dirent}
use gozim.Dirent.Parse.{IsWellFormed}
use gozim.Cluster.{
  exact, Codec, encode_cluster, encode_table, encode_offsets, is_extended_for, offset_size,
  concat_blobs,
}
use gozim.Cluster.RoundTrip.{Fits}
use gozim.Cluster.Blobs.{width}
use gozim.Archive.{Reader, Archive, Entry, Item, open_archive, item_direct, item_bytes}
use gozim.Writer.{RedirectEntry, Writer, group_items_into_clusters}
use gozim.Writer.Layout.{SortSlice, before_dirent, finish_writing, resolve_redirects}
use gozim.Writer.Layout.Reading.{Reads}
use gozim.Writer.Layout.Entries.{IsReadable}
use gozim.Writer.Layout.Opened.{entries_of, CanOpen}
use gozim.Writer.Layout.Redirects.{At, is_target}
use gozim.Writer.Layout.Resolved.{Distinct, Leads}
use gozim.Writer.Layout.Sorted.{InOrder, Sorts, Arranged}
use mathlib.Core.List.{Permᴰ}
use gozim.Writer.Layout.Archived.{open_archive-finish_writing}
use gozim.Writer.Layout.ReadBack.{IsGroup}
use gozim.Writer.Layout.Items.{CanRead, item_bytes-finish_writing}
use gozim.Tests.Writers.{started_writer}

abbrev pub plain_codec : Codec
plain_codec = record { compress = λ bs. ok bs; decompress = λ kind bs. ok (exact bs) }

-- sorting by insertion
abbrev insert_by : (Dirent → Dirent → Bool) → Dirent → List Dirent → List Dirent
insert_by less d [] = d ∷ []
insert_by less d (e ∷ es) =
    let rest = insert_by less d es in if less e d then e ∷ rest else d ∷ e ∷ es

abbrev by_insertion : SortSlice
by_insertion less [] = []
by_insertion less (d ∷ ds) = insert_by less d (by_insertion less ds)

-- one item of three bytes, and a redirect to it
abbrev small_writer : Writer
small_writer = record started_writer {
  items =
      (record {
        item = record {
          path = 97 ∷ [];
          title = [];
          mime_type = 116 ∷ [];
          feeds = ok (1 ∷ []) ∷ ok (2 ∷ 3 ∷ []) ∷ [];
        };
        content = 1 ∷ 2 ∷ 3 ∷ [];
      })
      ∷ [];
  redirects = (record { path = 48 ∷ []; title = []; target_path = 97 ∷ [] }) ∷ [];
}

-- What the writer leaves, or nothing.
abbrev written : List ℕ × Header
written = elim (finish_writing by_insertion plain_codec small_writer) [
  | ok x ↦ x
  | _ ↦ ([], new_header)
]

pub written-ok : finish_writing by_insertion plain_codec small_writer ≡ ok written
unfolding finish_writing group_items_into_clusters encode_cluster
written-ok = refl

written-length : length written.0 ≡ 208
unfolding finish_writing group_items_into_clusters encode_cluster encode_header Mime.add
    encode_dirent encode_table is_extended_for offset_size Mime.encode put_target fixed_len
    before_dirent lex_lt bytes_eq is_redirect is_content is_link_target resolve_redirects
written-length = refl

-- the file in memory
abbrev memory : List ℕ → Reader
memory file = record {
  size = length file;
  read_at =
      λ off n. if leb (off + n) (length file) then ok (take n (drop off file)) else err Error.plain;
}

memory-Reads : (file : List ℕ) → Reads (memory file) file
memory-Reads file = record {
  size = refl;
  bytes = λ off n h. rw (le→leb (off + n) (length file) h) refl;
}

abbrev small_entry : Dirent
small_entry = record {
  mime_type_index = 0;
  namespace = 67;
  entry_type = EntryType.content;
  version = 0;
  cluster_number = 0;
  blob_number = 0;
  redirect_index = 0;
  path = 97 ∷ [];
  title = [];
  extra = [];
}

abbrev small_redirect : Dirent
small_redirect = record {
  mime_type_index = 0xffff;
  namespace = 67;
  entry_type = EntryType.redirect;
  version = 0;
  cluster_number = 0;
  blob_number = 0;
  redirect_index = 1;
  path = 48 ∷ [];
  title = [];
  extra = [];
}

-- The redirect comes first and leads to the item.
small_entries : entries_of by_insertion small_writer ≡ small_redirect ∷ small_entry ∷ []
unfolding group_items_into_clusters resolve_redirects Mime.add before_dirent lex_lt bytes_eq
    is_redirect is_content is_link_target
small_entries = refl

small_entry-IsWellFormed : IsWellFormed small_entry
small_entry-IsWellFormed = record {
  mime = omega arith;
  namespace = omega arith;
  version = omega arith;
  cluster = omega arith;
  blob = omega arith;
  redirect = omega arith;
  path = (ground arith, tt);
  title = tt;
  extra = omega arith;
  type = refl;
  unused = refl;
}

small_entry-length : length (encode_dirent small_entry) ≡ 19
unfolding fixed_len
small_entry-length = length-encode_dirent small_entry

small_entry-IsReadable : IsReadable small_entry
small_entry-IsReadable = record {
  well_formed = small_entry-IsWellFormed;
  short = omega (arith, small_entry-length);
}

small_redirect-IsWellFormed : IsWellFormed small_redirect
small_redirect-IsWellFormed = record {
  mime = omega arith;
  namespace = omega arith;
  version = omega arith;
  cluster = omega arith;
  blob = omega arith;
  redirect = omega arith;
  path = (ground arith, tt);
  title = tt;
  extra = omega arith;
  type = refl;
  unused = (refl, refl);
}

small_redirect-length : length (encode_dirent small_redirect) ≡ 15
unfolding fixed_len
small_redirect-length = length-encode_dirent small_redirect

small_redirect-IsReadable : IsReadable small_redirect
small_redirect-IsReadable = record {
  well_formed = small_redirect-IsWellFormed;
  short = omega (arith, small_redirect-length);
}

-- The redirect is gathered last and sorted to the front.
abbrev sorted_entries : List Dirent
sorted_entries = (record small_redirect { redirect_index = 0 }) ∷ small_entry ∷ []

small_sorted :
    by_insertion before_dirent (group_items_into_clusters small_writer).dirents ≡ sorted_entries
unfolding group_items_into_clusters Mime.add before_dirent lex_lt
small_sorted = refl

sorted_entries-InOrder : InOrder sorted_entries
unfolding InOrder before_dirent lex_lt
sorted_entries-InOrder zero zero d e l p q = absurd (omega arith)
sorted_entries-InOrder zero (suc zero) d e l p q = ground arith
sorted_entries-InOrder (suc i) zero d e l p q = absurd (omega arith)
sorted_entries-InOrder (suc zero) (suc zero) d e l p q = absurd (omega arith)
sorted_entries-InOrder (suc (suc i)) (suc zero) d e l p q = absurd (omega arith)
sorted_entries-InOrder i (suc (suc j)) d e l p q = absurd (cc q)

small_writer-Sorts : Sorts by_insertion (group_items_into_clusters small_writer).dirents
small_writer-Sorts = record {
  perm =
      subst (Permᴰ (group_items_into_clusters small_writer).dirents) (sym small_sorted)
        (unfold group_items_into_clusters in unfold Mime.add in Permᴰ.swap refl refl);
  ordered = subst InOrder (sym small_sorted) sorted_entries-InOrder;
}

-- The groups: the one content, written three times over.
abbrev contents : List (List ℕ)
contents = (1 ∷ 2 ∷ 3 ∷ []) ∷ []

small_groups :
    (group_items_into_clusters small_writer).clusters ≡ contents ∷ contents ∷ contents ∷ []
unfolding group_items_into_clusters
small_groups = refl

small_names : (group_items_into_clusters small_writer).mimes.entries ≡ (116 ∷ []) ∷ []
unfolding group_items_into_clusters Mime.add
small_names = refl

small_writer-CanOpen : CanOpen by_insertion small_writer
small_writer-CanOpen = record {
  uuid = refl;
  some_entry = omega (arith, ap (length {A = Dirent}) small_entries);
  few_entries = omega (arith, ap (length {A = Dirent}) small_entries);
  some_cluster = omega (arith, ap (length {A = List (List ℕ)}) small_groups);
  few_clusters = omega (arith, ap (length {A = List (List ℕ)}) small_groups);
  readable =
      subst (All IsReadable) (sym small_entries)
        (small_redirect-IsReadable, (small_entry-IsReadable, tt));
}

contents-Fits : Fits (width contents) contents
unfolding concat_blobs is_extended_for offset_size
contents-Fits = record {
  width = inl refl;
  nonempty = ground arith;
  entry = omega arith;
  int = omega arith;
}

contents-length : length (encode_table (width contents) contents) ≡ 11
unfolding encode_table is_extended_for offset_size encode_offsets put_le
contents-length = refl

contents-size :
    (enc : List ℕ) → encode_cluster plain_codec 1 contents ≡ ok enc → length enc ≤ 256 * 2 ^ 20
unfolding encode_cluster
contents-size enc e = omega (arith, contents-length, ap (length {A = ℕ}) (ok-injective e))

contents-IsGroup : IsGroup plain_codec 1 contents
contents-IsGroup = record { fits = contents-Fits; size = contents-size }

small_writer-CanRead : CanRead plain_codec small_writer
small_writer-CanRead = record {
  compression = inl refl;
  lossless = λ plain packed e. ([], ap (λ b. ok (exact b)) (sym (ok-injective e)));
  groups =
      subst (All (IsGroup plain_codec 1)) (sym small_groups)
        (contents-IsGroup, (contents-IsGroup, (contents-IsGroup, tt)));
}

small_writer-IsName : All IsName (group_items_into_clusters small_writer).mimes.entries
small_writer-IsName =
    subst (All IsName) (sym small_names)
      (record { nonempty = ground arith; no_zero = (ground arith, tt) }, tt)

small_file : length written.0 < 2 ^ 63
small_file = omega (arith, written-length)

small_writer-Distinct : Distinct small_writer.redirects
unfolding Distinct
small_writer-Distinct = (tt, tt)

open_archive-finish_writing_example :
    (a : Archive) × (open_archive (memory written.0) ≡ ok a)
    × (a.header ≡ written.1)
    × ((k : ℕ)
        → k < length (group_items_into_clusters small_writer).mimes.entries
        → k < mime_deleted
        → mime_type a.mime_list k
          ≡ get_or (group_items_into_clusters small_writer).mimes.entries k [])
    × (a.dirents ≡ entries_of by_insertion small_writer)
    × Arranged (group_items_into_clusters small_writer).dirents a.dirents
    × ((n : ℕ) (q : RedirectEntry) (m : ℕ) (t : Dirent)
        → get_elem? small_writer.redirects n ≡ some q
        → At (group_items_into_clusters small_writer).dirents m t
        → is_target q.target_path t ≡ true
        → Leads a.dirents q)
open_archive-finish_writing_example =
    open_archive-finish_writing by_insertion plain_codec small_writer written.0 written.1
      (memory written.0) small_writer-CanOpen small_writer-Sorts small_writer-Distinct
      small_writer-IsName written-ok small_file (memory-Reads written.0)

-- The archive that `Open` makes of the file.
abbrev opened : Archive
opened =
    (open_archive-finish_writing by_insertion plain_codec small_writer written.0 written.1
      (memory written.0) small_writer-CanOpen small_writer-Sorts small_writer-Distinct
      small_writer-IsName written-ok small_file (memory-Reads written.0)).0

opened-ok : open_archive (memory written.0) ≡ ok opened
opened-ok =
    (open_archive-finish_writing by_insertion plain_codec small_writer written.0 written.1
      (memory written.0) small_writer-CanOpen small_writer-Sorts small_writer-Distinct
      small_writer-IsName written-ok small_file (memory-Reads written.0)).1

abbrev first : Entry
first = record { dirent = small_entry; index = 1 }

first-look : look (group_items_into_clusters small_writer).clusters 0 0 ≡ some (1 ∷ 2 ∷ 3 ∷ [])
first-look = ap (λ g. look g 0 0) small_groups

-- one byte from offset 1
item_bytes-finish_writing_example :
    (i : Item) × (item_direct plain_codec opened first ≡ ok i)
    × (i.data_size ≡ 3)
    × (i.mime_type ≡ mime_type opened.mime_list 0)
    × (item_bytes plain_codec opened i 1 1 ≡ ok (2 ∷ []))
item_bytes-finish_writing_example =
    item_bytes-finish_writing by_insertion plain_codec small_writer written.0 written.1
      (memory written.0) opened first (1 ∷ 2 ∷ 3 ∷ []) 1 1 small_writer-CanOpen small_writer-CanRead
      written-ok small_file (memory-Reads written.0) opened-ok refl first-look (omega arith)
      (omega arith)
