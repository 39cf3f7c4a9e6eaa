-- ===== src/Writer/Layout/Entries.antt =====
-- The entries that a written file has, as loadDirents reads them.
use gozim.Base.{
  ℕ, suc, ◌+◌, ◌*◌, ◌^◌, ◌≤◌, ◌<◌, ◌≡◌, refl, ap, ◌∙◌, List, [], ◌∷◌, length, All, ok, arith,
}
use gozim.Cluster.{concat_blobs}
use gozim.Header.{Header}
use gozim.Dirent.{Dirent, encode_dirent}
use gozim.Dirent.Parse.{IsWellFormed}
use gozim.Dirent.RoundTrip.{length-encode_dirent}
use gozim.Archive.{Reader, numbers, load_each, load_dirents}
use gozim.Writer.Layout.{starts, end_of_all, pointers, encode_dirents}
use gozim.Writer.Layout.Bounds.{end_of_all-ge}
use gozim.Writer.Layout.Regions.{Has, Has-append_left, Has-append_right}
use gozim.Writer.Layout.Reading.{
  Reads, read_at-Has, length-pointers, numbers-pointers, load_dirent-Has,
}

-- What `loadDirents` can read back: a well-formed entry whose encoding has at most 2048 bytes.
pub record IsReadable (d : Dirent) : Type 0 where
  pub well_formed : IsWellFormed d
  pub short : length (encode_dirent d) ≤ 2048

pub encode_dirent_some : (d : Dirent) → 0 < length (encode_dirent d)
encode_dirent_some d = omega (arith, length-encode_dirent d)

pub length-starts_of : (pos : ℕ) (cs : List (List ℕ)) → length (starts pos cs) ≡ length cs
unfolding starts
length-starts_of pos [] = refl
length-starts_of pos (c ∷ cs) = ap suc (length-starts_of (pos + length c) cs)

pub length-starts :
    (pos : ℕ) (ds : List Dirent) → length (starts pos (encode_dirents ds)) ≡ length ds
unfolding starts encode_dirents
length-starts pos [] = refl
length-starts pos (d ∷ ds) = ap suc (length-starts (pos + length (encode_dirent d)) ds)

pub starts-lt :
    (pos bound : ℕ) (cs : List (List ℕ))
    → end_of_all pos cs < bound
    → All (λ p. p < bound) (starts pos cs)
unfolding starts end_of_all
starts-lt pos bound [] h = tt
starts-lt pos bound (c ∷ cs) h =
    (omega (arith, end_of_all-ge (pos + length c) cs), starts-lt (pos + length c) bound cs h)

load_each-Has :
    (r : Reader) (file : List ℕ) (pos : ℕ) (ds : List Dirent)
    → Reads r file
    → All IsReadable ds
    → Has file pos (concat_blobs (encode_dirents ds))
    → load_each r (starts pos (encode_dirents ds)) ≡ ok ds
unfolding load_each starts encode_dirents concat_blobs
load_each-Has r file pos [] reads good has = refl
load_each-Has r file pos (d ∷ ds) reads good has =
    let enc = encode_dirent d in
    let rest = concat_blobs (encode_dirents ds) in
    rw
      (
        load_dirent-Has r file pos d reads good.0.well_formed (encode_dirent_some d) good.0.short
            (Has-append_left file pos enc rest has),
        load_each-Has r file (pos + length enc) ds reads good.1
            (Has-append_right file pos enc rest has),
      )
      refl

load_dirents_steps :
    (r : Reader) (h : Header) (n : ℕ) (buf ptrs : List ℕ) (ds : List Dirent)
    → h.entry_count ≡ n
    → r.read_at h.url_ptr_pos (8 * n) ≡ ok buf
    → numbers 8 n buf ≡ ptrs
    → load_each r ptrs ≡ ok ds
    → load_dirents r h ≡ ok (ptrs, ds)
unfolding load_dirents
load_dirents_steps r h n buf ptrs ds count at read each = rw (count, at, read, each) refl

-- `loadDirents` reads all the entries back, and where they start.
pub load_dirents-Has :
    (r : Reader) (file : List ℕ) (h : Header) (pos : ℕ) (ds : List Dirent)
    → Reads r file
    → All IsReadable ds
    → 0 < length ds
    → h.entry_count ≡ length ds
    → end_of_all pos (encode_dirents ds) < 2 ^ 64
    → Has file pos (concat_blobs (encode_dirents ds))
    → Has file h.url_ptr_pos (concat_blobs (pointers (starts pos (encode_dirents ds))))
    → load_dirents r h ≡ ok (starts pos (encode_dirents ds), ds)
load_dirents-Has r file h pos ds reads good some_entry count small has has_ptrs =
    let ptrs = starts pos (encode_dirents ds) in
    let buf = concat_blobs (pointers ptrs) in
    let n : 8 * length ds ≡ length buf =
      omega (arith, length-pointers ptrs, length-starts pos ds) in
    load_dirents_steps r h (length ds) buf ptrs ds count
      (ap (r.read_at h.url_ptr_pos) n
        ∙ read_at-Has r file h.url_ptr_pos buf reads (omega arith) has_ptrs)
      (numbers-pointers (length ds) ptrs (omega (arith, length-starts pos ds))
        (starts-lt pos (2 ^ 64) (encode_dirents ds) small))
      (load_each-Has r file pos ds reads good has)
