-- ===== src/Writer/Layout/Archived.antt =====
-- `Open` on a file that the writer left.
use gozim.Base.{
  ℕ, ◌+◌, ◌-◌, ◌%◌, ◌^◌, ◌≤◌, ◌<◌, ◌≡◌, ◌≢◌, refl, sym, ap, ◌∙◌, inl, List, [], ◌++◌, length, take,
  drop, lt→leb, true, false, none, ok, arith, get_or, get_elem?, some, All,
}
use mathlib.Core.Path.{subst}
use gozim.Format.{mime_deleted}
use gozim.Header.{Header, encode_header, new_header, parse_header, validate, has_title_index}
use gozim.Header.RoundTrip.{parse_header-encode_header, length-encode_header}
use gozim.Mime.{MimeList, parse_mime_list, mime_type}
use gozim.Mime
use gozim.Mime.RoundTrip.{IsName}
use gozim.Mime.Prefix.{mime_type-parse_mime_list}
use gozim.Dirent.{Dirent}
use gozim.Cluster.{Codec}
use gozim.Archive.{Reader, Archive, load_mime_list, load_dirents, open_archive}
use gozim.Writer.{RedirectEntry, Writer, group_items_into_clusters}
use gozim.Writer.Layout.{
  SortSlice, before_dirent, starts, encode_dirents, finish_writing, resolve_redirects,
}
use gozim.Writer.Layout.Bounds.{length-write_at, length-resolve}
use gozim.Writer.Layout.Redirects.{At, is_target}
use gozim.Writer.Layout.Resolved.{Distinct, Leads, resolve_redirects-Leads}
use gozim.Writer.Layout.Sorted.{Sorts, Arranged, Permᴰ-In, Permᴰ-length, resolve_redirects-Arranged}
use gozim.Writer.Layout.Gathered.{group_items_into_clusters-redirects}
use gozim.Writer.Layout.Opens.{header_opens}
use gozim.Writer.Layout.Regions.{Has, drop-Has}
use gozim.Writer.Layout.Reading.{Reads, read_at-Has, take_prefix}
use gozim.Writer.Layout.Entries.{load_dirents-Has}
use gozim.Writer.Layout.Parts.{body_of, file_of, file_of-HasParts}
use gozim.Writer.Layout.Opened.{
  entries_of, plan_of, IsMade, finish_writing-IsMade, CanOpen, plan_of-Positions, plan_of-InRange,
  plan_of-InOrder, length-encode_clusters,
}

open_archive_steps :
    (r : Reader) (buf : List ℕ) (h : Header) (mimes : MimeList) (ptrs : List ℕ) (ds : List Dirent)
    → r.read_at 0 80 ≡ ok buf
    → parse_header buf ≡ ok h
    → validate h r.size ≡ ok tt
    → load_mime_list r h ≡ ok mimes
    → load_dirents r h ≡ ok (ptrs, ds)
    → has_title_index h ≡ false
    → open_archive r
      ≡ ok (record {
        reader = r;
        header = h;
        mime_list = mimes;
        url_ptrs = ptrs;
        dirents = ds;
        title_idx = none;
        front_articles = [];
      })
unfolding open_archive
open_archive_steps r buf h mimes ptrs ds at parsed valid types entries title =
    rw (at, parsed, valid, types, entries, title) refl

load_mime_list_steps :
    (r : Reader) (h : Header) (n pos : ℕ) (buf : List ℕ)
    → h.url_ptr_pos ≡ pos + n
    → h.mime_list_pos ≡ pos
    → 0 < n
    → r.read_at pos n ≡ ok buf
    → load_mime_list r h ≡ ok (parse_mime_list buf)
unfolding load_mime_list
load_mime_list_steps r h n pos buf url mime some_byte at =
    let e : pos + n - pos ≡ n = omega arith in
    rw (url, mime, lt→leb (pos + n) pos (omega arith), e, at) refl

load_mime_list-Has :
    (r : Reader) (file : List ℕ) (h : Header) (mimes : List ℕ)
    → Reads r file
    → h.mime_list_pos ≡ 80
    → 80 + length mimes ≤ h.url_ptr_pos
    → 80 < h.url_ptr_pos
    → h.url_ptr_pos ≤ length file
    → Has file 80 mimes
    → (rest : List ℕ) × (load_mime_list r h ≡ ok (parse_mime_list (mimes ++ rest)))
load_mime_list-Has r file h mimes reads pos long some_byte inside has =
    let n = h.url_ptr_pos - 80 in
    let rest = take (n - length mimes) (drop (80 + length mimes) file) in
    (
      rest,
      load_mime_list_steps r h n 80 (mimes ++ rest) (omega arith) pos (omega arith) (
          reads.bytes 80 n (omega arith)
          ∙ ap (λ a. ok (take n a)) (drop-Has file 80 mimes has)
          ∙ ap ok (
              take_prefix n (n - length mimes) mimes (drop (80 + length mimes) file)
                (omega arith))),
    )

-- The archive with the writer's header and entries, and this list of MIME types.
abbrev pub archive_with : SortSlice → Writer → Reader → Header → MimeList → Archive
archive_with sort w r h mimes = record {
  reader = r;
  header = h;
  mime_list = mimes;
  url_ptrs =
      starts (80 + length (Mime.encode (group_items_into_clusters w).mimes))
        (encode_dirents (entries_of sort w));
  dirents = entries_of sort w;
  title_idx = none;
  front_articles = [];
}

open_plan :
    (sort : SortSlice) (codec : Codec) (w : Writer) (clusters : List (List ℕ)) (main : ℕ)
    (r : Reader)
    → CanOpen sort w
    → length clusters ≡ length (group_items_into_clusters w).clusters
    → (main ≢ 0xffff_ffff → main < length (entries_of sort w))
    → length (file_of (plan_of sort w clusters main).0) < 2 ^ 63
    → Reads r (file_of (plan_of sort w clusters main).0)
    → (rest : List ℕ) × (open_archive r
        ≡ ok (
            archive_with sort w r
              (plan_of sort w clusters main).1
              (parse_mime_list (Mime.encode (group_items_into_clusters w).mimes ++ rest))))
unfolding new_header has_title_index
open_plan sort codec w clusters main r can n m small reads =
    let (p, h) = plan_of sort w clusters main in
    let file = file_of p in
    let ds = entries_of sort w in
    let at = plan_of-Positions sort w clusters main can in
    let range = plan_of-InRange sort w clusters main can small m in
    let has = file_of-HasParts p (plan_of-InOrder sort w clusters main range n) in
    let long = length-encode_header h range in
    let count : length ds % 2 ^ 32 ≡ length ds = omega (arith, can.few_entries) in
    let (parsed, valid) =
      header_opens (body_of p) w.uuid (length ds) _ p.url_ptr_start p.cluster_ptr_start
        p.checksum_pos main can.uuid can.some_entry can.few_entries can.some_cluster
        can.few_clusters (omega (arith, at)) (omega (arith, at)) (omega (arith, at)) at.end
        (omega (arith, length-write_at (body_of p) 0 (encode_header h))) m in
    let (rest, types) =
      load_mime_list-Has r file h p.mimes reads refl (omega (arith, at)) (omega (arith, at))
        (omega (arith, at)) has.mimes in
    (
      rest,
      open_archive_steps r (encode_header h) h (parse_mime_list (p.mimes ++ rest))
          (starts p.dirent_start p.entries) ds
          (ap (r.read_at 0) (sym long)
            ∙ read_at-Has r file 0 (encode_header h) reads (omega (arith, long)) has.header)
          (parse_header-encode_header h range refl (inl refl)).0
          (ap (validate h) reads.size ∙ valid) types
          (load_dirents-Has r file h p.dirent_start ds reads can.readable can.some_entry count
            (omega (arith, at)) has.entries has.url_ptrs)
          refl,
    )

-- The archive that `Open` makes of the file that `finish_writing` left.
pub open_made :
    (sort : SortSlice) (codec : Codec) (w : Writer) (file : List ℕ) (h : Header) (r : Reader)
    → CanOpen sort w
    → IsMade sort codec w file h
    → length file < 2 ^ 63
    → Reads r file
    → (rest : List ℕ) × (open_archive r
        ≡ ok (
            archive_with sort w r h
              (parse_mime_list (Mime.encode (group_items_into_clusters w).mimes ++ rest))))
open_made sort codec w file h r can made small reads =
    let plan = plan_of sort w made.clusters made.main in
    let size : length (file_of plan.0) ≡ length file = ap (length {A = ℕ}) made.file_is in
    let (rest, opened) =
      open_plan sort codec w made.clusters made.main r can
        (length-encode_clusters codec w.compression (group_items_into_clusters w).clusters
          made.clusters made.encoded)
        made.main_in (omega arith) (subst (Reads r) (sym made.file_is) reads) in
    (
      rest,
      opened
          ∙ ap
              (λ k. ok (
                archive_with sort w r k
                  (parse_mime_list (Mime.encode (group_items_into_clusters w).mimes ++ rest))))
              made.header_is,
    )

-- The writer's redirects, once they are resolved, lead to their targets.
entries_of-Leads :
    (sort : SortSlice) (w : Writer) (n : ℕ) (r : RedirectEntry) (m : ℕ) (t : Dirent)
    → length (entries_of sort w) < 2 ^ 32
    → Sorts sort (group_items_into_clusters w).dirents
    → Distinct w.redirects
    → get_elem? w.redirects n ≡ some r
    → At (group_items_into_clusters w).dirents m t
    → is_target r.target_path t ≡ true
    → Leads (entries_of sort w) r
unfolding resolve_redirects
entries_of-Leads sort w n r m t few sorts distinct there at known =
    let g = group_items_into_clusters w in
    let sorted = sort before_dirent g.dirents in
    let (fewer, gathered) = group_items_into_clusters-redirects w in
    let (k, d, at_d, is) = gathered n r there in
    let (k', there_d) = Permᴰ-In d sorts.perm (k, at_d) in
    let (m', there_t) = Permᴰ-In t sorts.perm (m, at) in
    let size = Permᴰ-length sorts.perm in
    let long = length-resolve sorted 0 w.redirects sorted in
    resolve_redirects-Leads w.redirects sorted n r k' m' d t distinct (omega (arith, fewer, size))
      (omega (arith, few, long)) there there_d is there_t known

-- `Open` succeeds on the file that a writer left, and the archive has the header that was written,
-- and at each index of the writer's MIME table the type that stands there. Its entries are those
-- that were encoded: the ones that the writer gathered, in the order of namespace and path, each as
-- it was up to the target of a redirect; and for every redirect of the writer whose target path is that of an entry of content
-- there is a redirect with its path whose index is that of an entry with the target path.
-- The reader gives the bytes of the file; the file is below 2^63 bytes; the writer has a UUID of 16
-- bytes, an entry and a cluster at least and no more than the counts can hold, well-formed entries
-- of at most 2048 bytes each, MIME types that are not empty and have no zero byte, and no two
-- redirects with the same path; `sort.Slice` gives the same entries in the order.
pub open_archive-finish_writing :
    (sort : SortSlice) (codec : Codec) (w : Writer) (file : List ℕ) (h : Header) (r : Reader)
    → CanOpen sort w
    → Sorts sort (group_items_into_clusters w).dirents
    → Distinct w.redirects
    → All IsName (group_items_into_clusters w).mimes.entries
    → finish_writing sort codec w ≡ ok (file, h)
    → length file < 2 ^ 63
    → Reads r file
    → (a : Archive) × (open_archive r ≡ ok a)
      × (a.header ≡ h)
      × ((k : ℕ)
          → k < length (group_items_into_clusters w).mimes.entries
          → k < mime_deleted
          → mime_type a.mime_list k ≡ get_or (group_items_into_clusters w).mimes.entries k [])
      × (a.dirents ≡ entries_of sort w)
      × Arranged (group_items_into_clusters w).dirents a.dirents
      × ((n : ℕ) (q : RedirectEntry) (m : ℕ) (t : Dirent)
          → get_elem? w.redirects n ≡ some q
          → At (group_items_into_clusters w).dirents m t
          → is_target q.target_path t ≡ true
          → Leads a.dirents q)
open_archive-finish_writing sort codec w file h r can sorts distinct names e small reads =
    let ml = (group_items_into_clusters w).mimes in
    let made = finish_writing-IsMade sort codec w file h (omega (arith, can.few_entries)) e in
    let (rest, opened) = open_made sort codec w file h r can made small reads in
    (
      archive_with sort w r h (parse_mime_list (Mime.encode ml ++ rest)),
      opened,
      refl,
      (λ k l m. mime_type-parse_mime_list ml rest k names l m),
      refl,
      resolve_redirects-Arranged sort w.redirects (group_items_into_clusters w).dirents sorts,
      λ n q m t there at known.
          entries_of-Leads sort w n q m t (omega (arith, can.few_entries)) sorts distinct there at
            known,
    )
