-- ===== src/Dirent/RoundTrip.antt =====
-- `parse_dirent` reads back what `encode_dirent` wrote.
use gozim.Base.{
  ℕ, ◌+◌, ◌≤◌, ◌≡◌, ◌≢◌, refl, sym, ap, ◌∙◌, List, [], ◌∷◌, ◌++◌, length, take, drop, length-append,
  All, drop-drop, drop-append_length, take-append_length, le→ltb, lt→ltb, Result, ok, arith,
}
use gozim.Base.Bytes.{put_le, le_value, le_value-put_le}
use gozim.Dirent.{
  EntryType, blob_target, Dirent, Target, parse_target, parse_extra, read_null_terminated,
  parse_dirent, fixed_len, encode_dirent,
}
use gozim.Dirent.Encode.{
  target_bytes, tail_bytes, head_bytes, length-head_bytes, length-target_bytes, encode_dirent_lem,
}
use gozim.Dirent.Parse.{target_as, parse_target_as, IsWellFormed, UnusedZero, parse_dirent_steps}
use native.Mathlib.Nat.{suc-add, add-zero}
use mathlib.Core.List.{append_assoc}

-- Reading a string that a zero ends.
read_null_terminated_lem :
    (s rest : List ℕ)
    → All (λ b. b ≢ 0) s
    → read_null_terminated (s ++ (0 ∷ rest)) ≡ ok (s, length s + 1)
unfolding read_null_terminated
read_null_terminated_lem [] rest h = ground arith
read_null_terminated_lem (b ∷ s) rest h = ground (arith, h.0, read_null_terminated_lem s rest h.1)

-- The strings and what follows them.
abbrev tail_wire : Dirent → List ℕ → List ℕ
tail_wire d rest = d.path ++ (0 ∷ (d.title ++ (0 ∷ (d.extra ++ rest))))

tail_bytes_append : (d : Dirent) (rest : List ℕ) → tail_bytes d ++ rest ≡ tail_wire d rest
tail_bytes_append d rest = simp append_assoc

abbrev wire : Dirent → List ℕ → List ℕ
wire d rest = (head_bytes d ++ target_bytes d d.entry_type) ++ tail_wire d rest

encode_dirent-wire : (d : Dirent) (rest : List ℕ) → encode_dirent d ++ rest ≡ wire d rest
encode_dirent-wire d rest = rw encode_dirent_lem (
    append_assoc (head_bytes d ++ target_bytes d d.entry_type) (tail_bytes d) rest
    ∙ ap (◌++◌ (head_bytes d ++ target_bytes d d.entry_type)) (tail_bytes_append d rest))

drop_string : (s rest : List ℕ) → drop (length s + 1) (s ++ (0 ∷ rest)) ≡ rest
drop_string [] rest = refl
drop_string (b ∷ s) rest = rw (suc-add, drop_string s rest)

-- What stands behind the fixed part, the path and the title.
wire_tail :
    (d : Dirent) (rest : List ℕ) → drop (fixed_len d.entry_type) (wire d rest) ≡ tail_wire d rest
wire_tail d rest =
    drop-append_length (fixed_len d.entry_type) (head_bytes d ++ target_bytes d d.entry_type)
      (tail_wire d rest)
      (omega (
        arith,
        length-append (head_bytes d) (target_bytes d d.entry_type),
        length-head_bytes d,
        length-target_bytes d d.entry_type,
      ))

wire_title :
    (d : Dirent) (rest : List ℕ)
    → drop (fixed_len d.entry_type + (length d.path + 1)) (wire d rest)
      ≡ d.title ++ (0 ∷ (d.extra ++ rest))
wire_title d rest =
    sym (drop-drop (length d.path + 1) (fixed_len d.entry_type) (wire d rest))
    ∙ ap (drop (length d.path + 1)) (wire_tail d rest)
    ∙ drop_string d.path (d.title ++ (0 ∷ (d.extra ++ rest)))

wire_extra :
    (d : Dirent) (rest : List ℕ)
    → drop (fixed_len d.entry_type + (length d.path + 1) + (length d.title + 1)) (wire d rest)
      ≡ d.extra ++ rest
wire_extra d rest =
    sym
      (drop-drop (length d.title + 1) (fixed_len d.entry_type + (length d.path + 1)) (wire d rest))
    ∙ ap (drop (length d.title + 1)) (wire_title d rest)
    ∙ drop_string d.title (d.extra ++ rest)

length-wire :
    (d : Dirent) (rest : List ℕ)
    → length (wire d rest)
      ≡ fixed_len d.entry_type
        + (length d.path + 1)
        + (length d.title + 1)
        + length d.extra
        + length rest
length-wire d rest = omega (
  arith,
  length-append (head_bytes d ++ target_bytes d d.entry_type) (tail_wire d rest),
  length-append (head_bytes d) (target_bytes d d.entry_type),
  length-head_bytes d,
  length-target_bytes d d.entry_type,
  length-append d.path (0 ∷ (d.title ++ (0 ∷ (d.extra ++ rest)))),
  length-append d.title (0 ∷ (d.extra ++ rest)),
  length-append d.extra rest,
)

abbrev target_of : Dirent → Target
target_of d = record {
  entry_type = d.entry_type;
  cluster_number = d.cluster_number;
  blob_number = d.blob_number;
  redirect_index = d.redirect_index;
  offset = fixed_len d.entry_type;
}

parse_extra_lem :
    (e buf rest : List ℕ) (offset : ℕ)
    → drop offset buf ≡ e ++ rest
    → offset + length e ≤ length buf
    → parse_extra (length e) offset buf ≡ ok (e, offset + length e)
unfolding parse_extra
parse_extra_lem [] buf rest offset h l = rw add-zero
parse_extra_lem (x ∷ e) buf rest offset h l =
    rw (lt→ltb 0 (length (x ∷ e)) (omega arith), le→ltb (length buf) (offset + length (x ∷ e)) l, h)
      (ap taken (take-append_length (length (x ∷ e)) (x ∷ e) rest refl))
  where
    taken : List ℕ → Result (List ℕ × ℕ)
    taken l = ok (l, offset + length (x ∷ e))

le_value_single : (b : ℕ) → le_value (b ∷ []) ≡ b
unfolding le_value
le_value_single b = omega arith

wire_numbers :
    (d : Dirent) (rest : List ℕ)
    → IsWellFormed d
    → (le_value (take 2 (wire d rest)) ≡ d.mime_type_index)
      × (le_value (take 1 (drop 2 (wire d rest))) ≡ length d.extra)
      × (le_value (take 1 (drop 3 (wire d rest))) ≡ d.namespace)
      × (le_value (take 4 (drop 4 (wire d rest))) ≡ d.version)
unfolding put_le
wire_numbers d rest w = (
  le_value-put_le 2 d.mime_type_index w.mime,
  le_value_single _ ∙ omega (arith, w.extra),
  le_value_single _,
  le_value-put_le 4 d.version w.version,
)

abbrev wire_as : Dirent → EntryType → List ℕ → List ℕ
wire_as d t tail = (head_bytes d ++ target_bytes d t) ++ tail

abbrev target_at : Dirent → EntryType → Target
target_at d t = record {
  entry_type = t;
  cluster_number = d.cluster_number;
  blob_number = d.blob_number;
  redirect_index = d.redirect_index;
  offset = fixed_len t;
}

blob_wire :
    (d : Dirent) (t : EntryType) (tail : List ℕ)
    → IsWellFormed d
    → d.redirect_index ≡ 0
    → blob_target t
        ((head_bytes d ++ (put_le 4 d.cluster_number ++ put_le 4 d.blob_number)) ++ tail)
      ≡ ok (record {
        entry_type = t;
        cluster_number = d.cluster_number;
        blob_number = d.blob_number;
        redirect_index = d.redirect_index;
        offset = 16;
      })
unfolding put_le
blob_wire d t tail w z =
    rw
      (le→ltb
        (length ((head_bytes d ++ (put_le 4 d.cluster_number ++ put_le 4 d.blob_number)) ++ tail))
        16 (omega arith))
      (λ i. ok (record {
        entry_type = t;
        cluster_number = le_value-put_le 4 d.cluster_number w.cluster i;
        blob_number = le_value-put_le 4 d.blob_number w.blob i;
        redirect_index = sym z i;
        offset = 16;
      }))

target_as_wire :
    (d : Dirent) (t : EntryType) (tail : List ℕ)
    → IsWellFormed d
    → UnusedZero d t
    → target_as t (wire_as d t tail) ≡ ok (target_at d t)
unfolding target_bytes fixed_len put_le
target_as_wire d EntryType.redirect tail w z =
    rw (le→ltb (length (wire_as d EntryType.redirect tail)) 12 (omega arith)) (λ i. ok (record {
      entry_type = EntryType.redirect;
      cluster_number = sym z.0 i;
      blob_number = sym z.1 i;
      redirect_index = le_value-put_le 4 d.redirect_index w.redirect i;
      offset = 12;
    }))
target_as_wire d EntryType.content tail w z = blob_wire d EntryType.content tail w z
target_as_wire d EntryType.link_target tail w z = blob_wire d EntryType.link_target tail w z
target_as_wire d EntryType.deleted tail w z = blob_wire d EntryType.deleted tail w z

parse_target-wire :
    (d : Dirent) (rest : List ℕ)
    → IsWellFormed d
    → parse_target d.mime_type_index (wire d rest) ≡ ok (target_of d)
parse_target-wire d rest w =
    parse_target_as d.mime_type_index (wire d rest)
    ∙ ap (λ t. target_as t (wire d rest)) (sym w.type)
    ∙ target_as_wire d d.entry_type (tail_wire d rest) w w.unused

fixed_len-ge : (t : EntryType) → 12 ≤ fixed_len t
unfolding fixed_len
fixed_len-ge EntryType.redirect = omega arith
fixed_len-ge _ = omega arith

parse_wire :
    (d : Dirent) (rest : List ℕ)
    → IsWellFormed d
    → parse_dirent (wire d rest)
      ≡ ok (d, fixed_len d.entry_type + (length d.path + 1) + (length d.title + 1) + length d.extra)
parse_wire d rest w =
    let (mime, extra_len, namespace, version) = wire_numbers d rest w in
    let long = length-wire d rest in
    parse_dirent_steps (wire d rest) (target_of d) d.path d.title d.extra (length d.path + 1)
      (length d.title + 1) _ (omega (arith, fixed_len-ge d.entry_type, long))
      (rw mime (parse_target-wire d rest w))
      (ap read_null_terminated (wire_tail d rest) ∙ read_null_terminated_lem d.path _ w.path)
      (ap read_null_terminated (wire_title d rest) ∙ read_null_terminated_lem d.title _ w.title)
      (rw extra_len
        (parse_extra_lem d.extra (wire d rest) rest _ (wire_extra d rest) (omega (arith, long))))
    ∙ λ i. ok (
      record d { mime_type_index = mime i; namespace = namespace i; version = version i },
      fixed_len d.entry_type + (length d.path + 1) + (length d.title + 1) + length d.extra,
    )

pub length-encode_dirent :
    (d : Dirent)
    → length (encode_dirent d)
      ≡ fixed_len d.entry_type + (length d.path + 1) + (length d.title + 1) + length d.extra
length-encode_dirent d = omega (
  arith,
  length-append (encode_dirent d) [],
  ap (length {A = ℕ}) (encode_dirent-wire d []),
  length-wire d [],
)

-- `parse_dirent` reads back a well-formed entry from its encoding, whatever follows it, and
-- consumes exactly the encoding.
pub parse_dirent-encode_dirent :
    (d : Dirent) (rest : List ℕ)
    → IsWellFormed d
    → parse_dirent (encode_dirent d ++ rest) ≡ ok (d, length (encode_dirent d))
parse_dirent-encode_dirent d rest w =
    rw (encode_dirent-wire d rest, length-encode_dirent d) (parse_wire d rest w)
