-- ===== src/Writer/Layout/Opens.antt =====
-- The file that the writer leaves has a header that the reader accepts.
use gozim.Base.{
  ℕ, ◌+◌, ◌-◌, ◌*◌, ◌%◌, ◌^◌, ◌≤◌, ◌<◌, ◌≡◌, ◌≢◌, refl, ap, ◌∙◌, inl, List, [], ◌∷◌, ◌++◌, length,
  drop, replicate, Result, ok, >>=-eq-ok, arith,
}
use mathlib.Core.Path.{subst}
use gozim.Format.{header_size}
use gozim.Header.{Header, InRange, new_header, encode_header, parse_header, read_header, validate}
use gozim.Header.Checks.{validate_iff, parse_header-read_header}
use gozim.Header.RoundTrip.{read_header-encode_header, length-encode_header}
use gozim.Mime
use gozim.Dirent.{Dirent}
use gozim.Cluster.{Codec}
use gozim.Writer.{Writer, group_items_into_clusters}
use gozim.Writer.Layout.{
  SortSlice, before_dirent, resolve_redirects, write_at, end_of_all, encode_dirents,
  encode_clusters, finish_writing,
}
use gozim.Writer.Layout.Bounds.{
  length-write_at, end_of_all-ge, length-resolve, read_header-front, main_page_sound,
}

-- The header of a file with `n` entries and `k` clusters.
abbrev pub header_of : List ℕ → ℕ → ℕ → ℕ → ℕ → ℕ → ℕ → Header
header_of uuid n k url cluster checksum main = record new_header {
  uuid = uuid;
  entry_count = n % 2 ^ 32;
  cluster_count = k % 2 ^ 32;
  url_ptr_pos = url;
  cluster_ptr_pos = cluster;
  mime_list_pos = header_size;
  checksum_pos = checksum;
  main_page = main;
}

write_at_front :
    (body src : List ℕ) → 0 < length src → write_at body 0 src ≡ src ++ drop (length src) body
unfolding write_at
write_at_front body [] h = absurd (omega arith)
write_at_front body (b ∷ bs) h =
    let e : 0 + length (b ∷ bs) ≡ length (b ∷ bs) = omega arith in
    ap (λ k. (b ∷ bs) ++ drop k body) e

-- The header is written over the first 80 bytes.
read_header-write_at :
    (body : List ℕ) (h : Header) → InRange h → read_header (write_at body 0 (encode_header h)) ≡ h
read_header-write_at body h r =
    let n = length-encode_header h r in
    ap read_header (write_at_front body (encode_header h) (omega arith))
    ∙ read_header-front (encode_header h) (drop (length (encode_header h)) body) (omega arith)
    ∙ read_header-encode_header h r

pub header_of_lem :
    (uuid : List ℕ) (n k url cluster checksum main : ℕ)
    → length uuid ≡ 16
    → url < 2 ^ 64
    → cluster < 2 ^ 64
    → checksum < 2 ^ 64
    → main < 2 ^ 32
    → InRange (header_of uuid n k url cluster checksum main)
unfolding new_header
header_of_lem uuid n k url cluster checksum main u a b c d = record {
  magic_number = omega arith;
  major = omega arith;
  minor = omega arith;
  uuid = u;
  entry_count = omega arith;
  cluster_count = omega arith;
  url_ptr_pos = omega arith;
  title_idx_pos = omega arith;
  cluster_ptr_pos = omega arith;
  mime_list_pos = omega arith;
  main_page = omega arith;
  layout_page = omega arith;
  checksum_pos = omega arith;
}

-- A header with positions inside the file.
pub header_opens :
    (body : List ℕ) (uuid : List ℕ) (n k url cluster checksum main : ℕ)
    → length uuid ≡ 16
    → 0 < n
    → n < 2 ^ 32 - 1
    → 0 < k
    → k < 2 ^ 32
    → 80 ≤ url
    → url ≤ cluster
    → cluster ≤ checksum
    → checksum + 16 ≤ length body
    → length body < 2 ^ 63
    → (main ≢ 0xffff_ffff → main < n)
    → let h = header_of uuid n k url cluster checksum main in
      let file = write_at body 0 (encode_header h) in
      (parse_header file ≡ ok h) × (validate h (length file) ≡ ok tt)
unfolding new_header
header_opens body uuid n k url cluster checksum main u n0 n1 k0 k1 a b c d size m =
    let h = header_of uuid n k url cluster checksum main in
    let file = write_at body 0 (encode_header h) in
    let long = (length-write_at body 0 (encode_header h)).0 in
    let r : InRange h =
      header_of_lem uuid n k url cluster checksum main u (omega arith) (omega arith) (omega arith)
        (grind (arith, m)) in
    (
      parse_header-read_header file h (read_header-write_at body h r) (omega arith) refl (inl refl),
      (validate_iff h (length file)).1 record {
        entries = omega arith;
        clusters = omega arith;
        url = omega arith;
        title = λ p. absurd (p refl);
        cluster = omega arith;
        mime = omega arith;
        main = λ p. omega (arith, m p);
        layout = λ p. absurd (p refl);
        checksum = λ p q. omega arith;
      },
    )

-- The same of the pair that `finish_writing` returns.
pair_opens :
    (body uuid : List ℕ) (n k url cluster checksum main : ℕ) (file : List ℕ) (h : Header)
    → length uuid ≡ 16
    → 0 < n
    → n < 2 ^ 32 - 1
    → 0 < k
    → k < 2 ^ 32
    → 80 ≤ url
    → url ≤ cluster
    → cluster ≤ checksum
    → checksum + 16 ≤ length body
    → (main ≢ 0xffff_ffff → main < n)
    → ◌≡◌ {A = Result (List ℕ × Header)}
        (ok (
          write_at body 0 (encode_header (header_of uuid n k url cluster checksum main)),
          header_of uuid n k url cluster checksum main,
        ))
        (ok (file, h))
    → length file < 2 ^ 63
    → (parse_header file ≡ ok h) × (validate h (length file) ≡ ok tt)
pair_opens body uuid n k url cluster checksum main file h u n0 n1 k0 k1 a b c d m e size =
    let h0 = header_of uuid n k url cluster checksum main in
    let file0 = write_at body 0 (encode_header h0) in
    let x : List ℕ × Header = (file0, h0) in
    let y : List ℕ × Header = (file, h) in
    let p : x ≡ y = cc e in
    let q : length file0 ≡ length file = ap (λ z. length z.0) p in
    let long = (length-write_at body 0 (encode_header h0)).0 in
    subst (λ z. (parse_header z.0 ≡ ok z.1) × (validate z.1 (length z.0) ≡ ok tt)) p
      (header_opens body uuid n k url cluster checksum main u n0 n1 k0 k1 a b c d (omega arith) m)

-- A file whose writer returns has a header that `parse_header` reads back from the front of it and
-- that `validate` accepts for the file's size: the first two steps of `Open` succeed. There is at
-- least one entry and one cluster, and less than 2^32 of each; the file is below 2^63 bytes, and
-- sorting keeps the number of entries.
pub finish_writing-opens :
    (sort : SortSlice) (codec : Codec) (w : Writer) (file : List ℕ) (h : Header)
    → ((ds : List Dirent) → length (sort before_dirent ds) ≡ length ds)
    → length w.uuid ≡ 16
    → 0 < length (group_items_into_clusters w).dirents
    → length (group_items_into_clusters w).dirents < 2 ^ 32 - 1
    → 0 < length (group_items_into_clusters w).clusters
    → length (group_items_into_clusters w).clusters < 2 ^ 32
    → finish_writing sort codec w ≡ ok (file, h)
    → length file < 2 ^ 63
    → (parse_header file ≡ ok h) × (validate h (length file) ≡ ok tt)
unfolding finish_writing resolve_redirects
finish_writing-opens sort codec w file h keeps uuid some_entry few some_cluster few' e size =
    let g = group_items_into_clusters w in
    let dirents = resolve_redirects w.redirects (sort before_dirent g.dirents) in
    let (clusters, made, e1) = >>=-eq-ok (encode_clusters codec w.compression g.clusters) _ e in
    let mimes = Mime.encode g.mimes in
    let encoded = encode_dirents dirents in
    let url = end_of_all (header_size + length mimes) encoded in
    let cluster = url + length dirents * 8 in
    let start = cluster + length g.clusters * 8 in
    let n : length dirents ≡ length g.dirents =
      length-resolve (sort before_dirent g.dirents) 0 w.redirects (sort before_dirent g.dirents)
      ∙ keeps g.dirents in
    pair_opens _ w.uuid (length dirents) (length g.clusters) url cluster (end_of_all start clusters)
      _ file h uuid (omega arith) (omega arith) some_cluster few'
      (omega (arith, end_of_all-ge (header_size + length mimes) encoded)) (omega arith)
      (omega (arith, end_of_all-ge start clusters))
      ((length-write_at _ (end_of_all start clusters) (replicate 16 0)).1 (omega arith))
      (main_page_sound w.main_path dirents _ (omega arith) refl) e1 size
