-- ===== src/Writer/Layout/Opened.antt =====
-- A file that the writer leaves, opened: `Open` finds the header, the MIME types and the entries.
use gozim.Base.{
  ℕ, suc, sym, ◌+◌, ◌-◌, ◌*◌, ◌^◌, ◌≤◌, ◌<◌, ◌≡◌, ◌≢◌, refl, ap, ◌∙◌, List, [], ◌∷◌, length,
  replicate, All, Result, ok, >>=-eq-ok, arith,
}
use gozim.Format.{header_size}
use gozim.Header.{Header, encode_header, InRange}
use gozim.Header.RoundTrip.{length-encode_header}
use gozim.Mime.{MimeList, parse_mime_list}
use gozim.Mime
use gozim.Dirent.{Dirent, encode_dirent}
use gozim.Cluster.{Codec, encode_cluster}
use gozim.Writer.{Writer, group_items_into_clusters}
use gozim.Writer.Layout.{
  SortSlice, before_dirent, resolve_redirects, starts, end_of_all, encode_dirents, encode_clusters,
  pointers, finish_writing,
}
use gozim.Writer.Layout.Bounds.{main_page_sound, end_of_all-ge, length-write_at}
use gozim.Writer.Layout.Opens.{header_of, header_of_lem}
use gozim.Writer.Layout.Regions.{end_of_all-length}
use gozim.Writer.Layout.Reading.{length-pointers}
use gozim.Writer.Layout.Entries.{IsReadable, length-starts, length-starts_of, encode_dirent_some}
use gozim.Writer.Layout.Parts.{Plan, body_of, file_of, InOrder}

-- The entries of the file: those of the groups, sorted, with the redirects' targets.
abbrev pub entries_of : SortSlice → Writer → List Dirent
entries_of sort w =
    resolve_redirects w.redirects (sort before_dirent (group_items_into_clusters w).dirents)

-- What is written for the entries and the clusters made, with this main page.
abbrev pub plan_of : SortSlice → Writer → List (List ℕ) → ℕ → Plan × Header
plan_of sort w clusters main =
    let g = group_items_into_clusters w in
    let dirents = entries_of sort w in
    let mimes = Mime.encode g.mimes in
    let dirent_start = header_size + length mimes in
    let encoded = encode_dirents dirents in
    let url = end_of_all dirent_start encoded in
    let cluster = url + length dirents * 8 in
    let start = cluster + length g.clusters * 8 in
    let checksum = end_of_all start clusters in
    let h = header_of w.uuid (length dirents) (length g.clusters) url cluster checksum main in
    (
      record {
        header = encode_header h;
        mimes = mimes;
        entries = encoded;
        url_ptrs = pointers (starts dirent_start encoded);
        clusters = clusters;
        cluster_ptrs = pointers (starts start clusters);
        checksum = replicate 16 0;
        dirent_start = dirent_start;
        url_ptr_start = url;
        cluster_ptr_start = cluster;
        cluster_start = start;
        checksum_pos = checksum;
      },
      h,
    )

-- The clusters and the main page of a file that `finish_writing` returned.
pub record IsMade (sort : SortSlice) (codec : Codec) (w : Writer) (file : List ℕ) (h : Header)
    : Type 0 where
  pub clusters : List (List ℕ)
  pub main : ℕ
  pub encoded :
      encode_clusters codec w.compression (group_items_into_clusters w).clusters ≡ ok clusters
  pub file_is : file_of (plan_of sort w clusters main).0 ≡ file
  pub header_is : (plan_of sort w clusters main).1 ≡ h
  pub main_in : main ≢ 0xffff_ffff → main < length (entries_of sort w)

IsMade-of :
    (sort : SortSlice) (codec : Codec) (w : Writer) (file : List ℕ) (h : Header)
    (clusters : List (List ℕ)) (main : ℕ)
    → encode_clusters codec w.compression (group_items_into_clusters w).clusters ≡ ok clusters
    → (main ≢ 0xffff_ffff → main < length (entries_of sort w))
    → ◌≡◌ {A = Result (List ℕ × Header)}
        (ok (file_of (plan_of sort w clusters main).0, (plan_of sort w clusters main).1))
        (ok (file, h))
    → IsMade sort codec w file h
IsMade-of sort codec w file h clusters main made m e =
    let plan = plan_of sort w clusters main in
    let x : List ℕ × Header = (file_of plan.0, plan.1) in
    let y : List ℕ × Header = (file, h) in
    let p : x ≡ y = cc e in
    record {
      clusters = clusters;
      main = main;
      encoded = made;
      file_is = ap (λ z. z.0) p;
      header_is = ap (λ z. z.1) p;
      main_in = m;
    }

pub finish_writing-IsMade :
    (sort : SortSlice) (codec : Codec) (w : Writer) (file : List ℕ) (h : Header)
    → length (entries_of sort w) < 2 ^ 32
    → finish_writing sort codec w ≡ ok (file, h)
    → IsMade sort codec w file h
unfolding finish_writing
finish_writing-IsMade sort codec w file h few e =
    let g = group_items_into_clusters w in
    let (clusters, made, e1) = >>=-eq-ok (encode_clusters codec w.compression g.clusters) _ e in
    IsMade-of sort codec w file h clusters _ made
      (main_page_sound w.main_path (entries_of sort w) _ few refl) e1

pub length-encode_clusters :
    (codec : Codec) (compression : ℕ) (groups : List (List (List ℕ))) (clusters : List (List ℕ))
    → encode_clusters codec compression groups ≡ ok clusters
    → length clusters ≡ length groups
unfolding encode_clusters
length-encode_clusters codec compression [] [] e = refl
length-encode_clusters codec compression [] (c ∷ cs) e = cc e
length-encode_clusters codec compression (g ∷ gs) clusters e =
    let (c, made, e1) = >>=-eq-ok (encode_cluster codec compression g) _ e in
    let (rest, made', e2) = >>=-eq-ok (encode_clusters codec compression gs) _ e1 in
    let p : c ∷ rest ≡ clusters = cc e2 in
    ap length (sym p) ∙ ap suc (length-encode_clusters codec compression gs rest made')

-- What a writer must have for its file to be opened: 16 bytes of UUID, at least one entry and one
-- cluster, fewer than 2^32 - 1 and 2^32 of them, and entries that can be read back.
pub record CanOpen (sort : SortSlice) (w : Writer) : Type 0 where
  pub uuid : length w.uuid ≡ 16
  pub some_entry : 0 < length (entries_of sort w)
  pub few_entries : length (entries_of sort w) < 2 ^ 32 - 1
  pub some_cluster : 0 < length (group_items_into_clusters w).clusters
  pub few_clusters : length (group_items_into_clusters w).clusters < 2 ^ 32
  pub readable : All IsReadable (entries_of sort w)

-- The positions of a plan, in order and within the file.
pub record Positions (p : Plan) : Type 0 where
  pub url : 80 + length p.mimes < p.url_ptr_start
  pub cluster : p.url_ptr_start < p.cluster_ptr_start
  pub start : p.cluster_ptr_start < p.cluster_start
  pub checksum : p.cluster_start ≤ p.checksum_pos
  pub end : p.checksum_pos + 16 ≤ length (body_of p)
  pub file : p.checksum_pos + 16 ≤ length (file_of p)

encoded-lt : (pos : ℕ) (ds : List Dirent) → 0 < length ds → pos < end_of_all pos (encode_dirents ds)
unfolding encode_dirents end_of_all
encoded-lt pos [] h = absurd (omega arith)
encoded-lt pos (d ∷ ds) h = omega (
  arith,
  encode_dirent_some d,
  end_of_all-ge (pos + length (encode_dirent d)) (encode_dirents ds),
)

pub plan_of-Positions :
    (sort : SortSlice) (w : Writer) (clusters : List (List ℕ)) (main : ℕ)
    → CanOpen sort w
    → Positions (plan_of sort w clusters main).0
plan_of-Positions sort w clusters main can =
    let (p, h) = plan_of sort w clusters main in
    let end = (length-write_at _ p.checksum_pos (replicate 16 0)).1 (omega arith) in
    record {
      url = omega (arith, encoded-lt p.dirent_start (entries_of sort w) can.some_entry);
      cluster = omega (arith, can.some_entry);
      start = omega (arith, can.some_cluster);
      checksum = end_of_all-ge p.cluster_start clusters;
      end = end;
      file = omega (arith, end, (length-write_at (body_of p) 0 p.header).0);
    }

pub plan_of-InRange :
    (sort : SortSlice) (w : Writer) (clusters : List (List ℕ)) (main : ℕ)
    → CanOpen sort w
    → length (file_of (plan_of sort w clusters main).0) < 2 ^ 63
    → (main ≢ 0xffff_ffff → main < length (entries_of sort w))
    → InRange (plan_of sort w clusters main).1
plan_of-InRange sort w clusters main can small m =
    let (p, h) = plan_of sort w clusters main in
    let at = plan_of-Positions sort w clusters main can in
    header_of_lem w.uuid _ _ p.url_ptr_start p.cluster_ptr_start p.checksum_pos main can.uuid
      (omega (arith, at)) (omega (arith, at)) (omega (arith, at)) (grind (arith, m, can))

pub plan_of-InOrder :
    (sort : SortSlice) (w : Writer) (clusters : List (List ℕ)) (main : ℕ)
    → InRange (plan_of sort w clusters main).1
    → length clusters ≡ length (group_items_into_clusters w).clusters
    → InOrder (plan_of sort w clusters main).0
plan_of-InOrder sort w clusters main r n =
    let (p, h) = plan_of sort w clusters main in
    record {
      header = length-encode_header h r;
      mimes = omega arith;
      entries = omega arith;
      url_ptrs = omega (
        arith,
        end_of_all-length p.url_ptr_start p.url_ptrs,
        length-pointers (starts p.dirent_start p.entries),
        length-starts p.dirent_start (entries_of sort w),
      );
      cluster_ptrs = omega (
        arith,
        end_of_all-length p.cluster_ptr_start p.cluster_ptrs,
        length-pointers (starts p.cluster_start clusters),
        length-starts_of p.cluster_start clusters,
      );
      clusters = omega arith;
    }
