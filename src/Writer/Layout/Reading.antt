-- ===== src/Writer/Layout/Reading.antt =====
-- What the loaders of archive.go read from a file that has the bytes they look for.
use gozim.Base.{
  ℕ, zero, suc, ◌+◌, ◌-◌, ◌*◌, ◌^◌, ◌≤◌, ◌<◌, ◌≡◌, refl, ap, ◌∙◌, List, [], ◌∷◌, ◌++◌, length, take,
  drop, All, length-append, take-append_length, drop-append_length, if◌then◌else◌, ltb, lt→leb,
  Bool-cases, inl, inr, ok, arith,
}
use gozim.Base.Bytes.{put_le, length-put_le, le_value-put_le}
use gozim.Base.Slices.{take_split}
use gozim.Cluster.{concat_blobs}
use gozim.Dirent.{Dirent, encode_dirent, parse_dirent}
use gozim.Dirent.Parse.{IsWellFormed}
use gozim.Dirent.RoundTrip.{parse_dirent-encode_dirent}
use gozim.Archive.{Reader, numbers, load_dirent}
use gozim.Writer.Layout.{pointers}
use gozim.Writer.Layout.Regions.{Has, Has-le, drop-Has}

-- A reader of the file: `ReadAt` within the file gives the bytes there.
pub record Reads (r : Reader) (file : List ℕ) : Type 0 where
  pub size : r.size ≡ length file
  pub bytes : (off n : ℕ) → off + n ≤ length file → r.read_at off n ≡ ok (take n (drop off file))

pub take_prefix :
    (n k : ℕ) (xs ys : List ℕ) → n ≡ length xs + k → take n (xs ++ ys) ≡ xs ++ take k ys
take_prefix n k xs ys h =
    take_split (length xs) k n (xs ++ ys) h
    ∙ ap (λ a. a ++ take k (drop (length xs) (xs ++ ys)))
        (take-append_length (length xs) xs ys refl)
    ∙ ap (λ a. xs ++ take k a) (drop-append_length (length xs) xs ys refl)

pub read_at-Has :
    (r : Reader) (file : List ℕ) (pos : ℕ) (bytes : List ℕ)
    → Reads r file
    → 0 < length bytes
    → Has file pos bytes
    → r.read_at pos (length bytes) ≡ ok bytes
read_at-Has r file pos bytes reads some_byte has =
    reads.bytes pos (length bytes) (Has-le file pos bytes some_byte has)
    ∙ ap (λ a. ok (take (length bytes) a)) (drop-Has file pos bytes has)
    ∙ ap ok (take-append_length (length bytes) bytes (drop (pos + length bytes) file) refl)

pub length-pointers : (ps : List ℕ) → length (concat_blobs (pointers ps)) ≡ 8 * length ps
unfolding pointers concat_blobs
length-pointers [] = omega arith
length-pointers (p ∷ ps) = omega (
  arith,
  length-pointers ps,
  length-put_le 8 p,
  length-append (put_le 8 p) (concat_blobs (pointers ps)),
)

pub numbers-pointers :
    (n : ℕ) (ps : List ℕ)
    → n ≡ length ps
    → All (λ p. p < 2 ^ 64) ps
    → numbers 8 n (concat_blobs (pointers ps)) ≡ ps
unfolding numbers pointers concat_blobs
numbers-pointers zero [] e small = refl
numbers-pointers zero (p ∷ ps) e small = absurd (omega arith)
numbers-pointers (suc n) [] e small = absurd (omega arith)
numbers-pointers (suc n) (p ∷ ps) e small =
    rw
      (
        take-append_length 8 (put_le 8 p) (concat_blobs (pointers ps)) (length-put_le 8 p),
        drop-append_length 8 (put_le 8 p) (concat_blobs (pointers ps)) (length-put_le 8 p),
        le_value-put_le 8 p (omega (arith, small.0)),
        numbers-pointers n ps (omega arith) small.1,
      )
      refl

load_dirent_steps :
    (r : Reader) (offset n : ℕ) (buf : List ℕ) (d : Dirent) (used : ℕ)
    → offset < r.size
    → (if ltb (r.size - offset) 2048 then r.size - offset else 2048) ≡ n
    → r.read_at offset n ≡ ok buf
    → parse_dirent buf ≡ ok (d, used)
    → load_dirent r offset ≡ ok d
unfolding load_dirent
load_dirent_steps r offset n buf d used inside e at parsed =
    rw (lt→leb r.size offset inside, e, at, parsed) refl

-- The most that is read for an entry: what is left, up to 2048 bytes.
window :
    (r : Reader) (offset k : ℕ)
    → offset + k ≤ r.size
    → k ≤ 2048
    → (n : ℕ) × ((if ltb (r.size - offset) 2048 then r.size - offset else 2048) ≡ n)
      × (k ≤ n)
      × (offset + n ≤ r.size)
window r offset k inside short = elim (Bool-cases (ltb (r.size - offset) 2048)) [
  | inl few ↦ (r.size - offset, rw few, omega arith, omega arith)
  | inr many ↦ (2048, rw many, short, ground (arith, many))
]

-- An entry of at most 2048 bytes is read back.
pub load_dirent-Has :
    (r : Reader) (file : List ℕ) (pos : ℕ) (d : Dirent)
    → Reads r file
    → IsWellFormed d
    → 0 < length (encode_dirent d)
    → length (encode_dirent d) ≤ 2048
    → Has file pos (encode_dirent d)
    → load_dirent r pos ≡ ok d
load_dirent-Has r file pos d reads w some_byte short has =
    let enc = encode_dirent d in
    let inside = Has-le file pos enc some_byte has in
    let (n, e, l, in_file) = window r pos (length enc) (omega (arith, reads.size)) short in
    let rest = take (n - length enc) (drop (pos + length enc) file) in
    load_dirent_steps r pos n (enc ++ rest) d (length enc) (omega (arith, reads.size)) e
      (reads.bytes pos n (omega (arith, reads.size))
        ∙ ap (λ a. ok (take n a)) (drop-Has file pos enc has)
        ∙ ap ok (take_prefix n (n - length enc) enc (drop (pos + length enc) file) (omega arith)))
      (parse_dirent-encode_dirent d rest w)
