-- ===== src/Writer/Layout/Parts.antt =====
-- The parts of the file after the writes of finishWriting: none of them overwrites another.
use gozim.Base.{ℕ, ◌+◌, ◌≤◌, ◌≡◌, List, [], ◌∷◌, length, arith}
use gozim.Cluster.{concat_blobs}
use gozim.Writer.Layout.{write_at, write_all, end_of_all}
use mathlib.Core.List.{append-nil}
use gozim.Writer.Layout.Regions.{Has, Has-before, Has-after, write_all-Has, end_of_all-length}

-- What finishWriting writes, and where.
pub record Plan : Type 0 where
  pub header : List ℕ
  pub mimes : List ℕ
  pub entries : List (List ℕ)
  pub url_ptrs : List (List ℕ)
  pub clusters : List (List ℕ)
  pub cluster_ptrs : List (List ℕ)
  pub checksum : List ℕ
  pub dirent_start : ℕ
  pub url_ptr_start : ℕ
  pub cluster_ptr_start : ℕ
  pub cluster_start : ℕ
  pub checksum_pos : ℕ

-- The writes, in their order.
abbrev pub body_of : Plan → List ℕ
body_of p =
    let file = write_at [] 80 p.mimes in
    let file = write_all file p.dirent_start p.entries in
    let file = write_all file p.url_ptr_start p.url_ptrs in
    let file = write_all file p.cluster_start p.clusters in
    let file = write_all file p.cluster_ptr_start p.cluster_ptrs in
    write_at file p.checksum_pos p.checksum

abbrev pub file_of : Plan → List ℕ
file_of p = write_at (body_of p) 0 p.header

-- The parts lie one behind the other.
pub record InOrder (p : Plan) : Type 0 where
  pub header : length p.header ≡ 80
  pub mimes : 80 + length p.mimes ≤ p.dirent_start
  pub entries : end_of_all p.dirent_start p.entries ≤ p.url_ptr_start
  pub url_ptrs : end_of_all p.url_ptr_start p.url_ptrs ≤ p.cluster_ptr_start
  pub cluster_ptrs : end_of_all p.cluster_ptr_start p.cluster_ptrs ≤ p.cluster_start
  pub clusters : end_of_all p.cluster_start p.clusters ≤ p.checksum_pos

pub record HasParts (file : List ℕ) (p : Plan) : Type 0 where
  pub header : Has file 0 p.header
  pub mimes : Has file 80 p.mimes
  pub entries : Has file p.dirent_start (concat_blobs p.entries)
  pub url_ptrs : Has file p.url_ptr_start (concat_blobs p.url_ptrs)
  pub cluster_ptrs : Has file p.cluster_ptr_start (concat_blobs p.cluster_ptrs)
  pub clusters : Has file p.cluster_start (concat_blobs p.clusters)

-- A single write
written-Has : (file : List ℕ) (pos : ℕ) (c : List ℕ) → Has (write_at file pos c) pos c
unfolding write_all concat_blobs
written-Has file pos c i b e = write_all-Has file pos (c ∷ []) i b (rw append-nil e)

-- The last two writes keep what lies between the header and the checksum.
Has-last :
    (file : List ℕ) (p : Plan) (q : ℕ) (bytes : List ℕ)
    → length p.header ≡ 80
    → 80 ≤ q
    → q + length bytes ≤ p.checksum_pos
    → Has file q bytes
    → Has (write_at (write_at file p.checksum_pos p.checksum) 0 p.header) q bytes
unfolding write_all end_of_all
Has-last file p q bytes long from to has =
    Has-after (write_at file p.checksum_pos p.checksum) 0 (p.header ∷ []) q bytes (omega arith)
      (Has-before file p.checksum_pos (p.checksum ∷ []) q bytes to has)

pub file_of-HasParts : (p : Plan) → InOrder p → HasParts (file_of p) p
file_of-HasParts p o =
    let f1 = write_at [] 80 p.mimes in
    let f2 = write_all f1 p.dirent_start p.entries in
    let f3 = write_all f2 p.url_ptr_start p.url_ptrs in
    let f4 = write_all f3 p.cluster_start p.clusters in
    let f5 = write_all f4 p.cluster_ptr_start p.cluster_ptrs in
    let a = end_of_all-length p.dirent_start p.entries in
    let b = end_of_all-length p.url_ptr_start p.url_ptrs in
    let c = end_of_all-length p.cluster_ptr_start p.cluster_ptrs in
    let d = end_of_all-length p.cluster_start p.clusters in
    record {
      header = written-Has (body_of p) 0 p.header;
      mimes = Has-last f5 p 80 p.mimes o.header (omega arith) (omega (arith, o, a, b, c, d)) (
          Has-before f4 p.cluster_ptr_start p.cluster_ptrs 80 p.mimes (omega (arith, o, a, b)) (
            Has-before f3 p.cluster_start p.clusters 80 p.mimes (omega (arith, o, a, b, c)) (
              Has-before f2 p.url_ptr_start p.url_ptrs 80 p.mimes (omega (arith, o, a)) (
                Has-before f1 p.dirent_start p.entries 80 p.mimes o.mimes
                  (written-Has [] 80 p.mimes)))));
      entries =
          let bytes = concat_blobs p.entries in
          let q = p.dirent_start in
          Has-last f5 p q bytes o.header (omega (arith, o)) (omega (arith, o, a, b, c, d)) (
            Has-before f4 p.cluster_ptr_start p.cluster_ptrs q bytes (omega (arith, o, a, b)) (
              Has-before f3 p.cluster_start p.clusters q bytes (omega (arith, o, a, b, c)) (
                Has-before f2 p.url_ptr_start p.url_ptrs q bytes (omega (arith, o, a))
                  (write_all-Has f1 q p.entries))));
      url_ptrs =
          let bytes = concat_blobs p.url_ptrs in
          let q = p.url_ptr_start in
          Has-last f5 p q bytes o.header (omega (arith, o, a)) (omega (arith, o, b, c, d)) (
            Has-before f4 p.cluster_ptr_start p.cluster_ptrs q bytes (omega (arith, o, b)) (
              Has-before f3 p.cluster_start p.clusters q bytes (omega (arith, o, b, c))
                (write_all-Has f2 q p.url_ptrs)));
      cluster_ptrs =
          let bytes = concat_blobs p.cluster_ptrs in
          let q = p.cluster_ptr_start in
          Has-last f5 p q bytes o.header (omega (arith, o, a, b)) (omega (arith, o, c, d))
            (write_all-Has f4 q p.cluster_ptrs);
      clusters =
          let bytes = concat_blobs p.clusters in
          let q = p.cluster_start in
          Has-last f5 p q bytes o.header (omega (arith, o, a, b, c)) (omega (arith, o, d)) (
            Has-after f4 p.cluster_ptr_start p.cluster_ptrs q bytes o.cluster_ptrs
              (write_all-Has f3 q p.clusters));
    }
