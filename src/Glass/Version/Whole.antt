-- ===== src/Glass/Version/Whole.antt =====
-- The whole version file, read back.
use gozim.Base.{
  ℕ, ◌+◌, ◌%◌, ◌^◌, ◌≤◌, ◌<◌, ◌≡◌, refl, sym, ap, ◌∙◌, List, ◌++◌, length, false, take, drop, All,
  ltb, ok, arith, length-append, drop-append_length, take-append_length,
}
use mathlib.Core.Path.{ap₂}
use mathlib.Core.List.{append_assoc}
use gozim.Format.{U32, U64}
use gozim.Base.Bytes.{put_le}
use gozim.Base.Lex.{bytes_eq}
use gozim.Glass.Varint.Packed.{packed}
use gozim.Glass.Version.{
  VersionInfo, version_magic, format_version, num_tables, uint, read_root_infos, read_rest,
  read_version, encode_statistics, encode_version,
}
use gozim.Glass.Version.RoundTrip.{InRange, uint-packed, written_all}

-- The fields' types, and a part for each table.
pub record Fits (v : VersionInfo) : Type 0 where
  pub uuid : length v.uuid ≡ 16
  pub revision : U32 v.revision
  pub tables : length v.root_infos ≡ num_tables
  pub infos : All InRange v.root_infos
  pub doc_count : U32 v.doc_count
  pub last_doc_id : U32 v.last_doc_id
  pub doc_len_lbound : U32 v.doc_len_lbound
  pub wdf_ubound : U32 v.wdf_ubound
  pub doc_len_ubound : U32 v.doc_len_ubound
  pub oldest_changeset : U32 v.oldest_changeset
  pub total_doc_len : U64 v.total_doc_len
  pub spelling : U32 v.spelling_word_freq_ubound

-- The fields cut to their widths.
abbrev as_read : VersionInfo → VersionInfo
as_read v = record v {
  revision = v.revision % 2 ^ 32;
  doc_count = v.doc_count % 2 ^ 32;
  last_doc_id = v.last_doc_id % 2 ^ 32;
  doc_len_lbound = v.doc_len_lbound % 2 ^ 32;
  wdf_ubound = v.wdf_ubound % 2 ^ 32;
  doc_len_ubound = v.doc_len_ubound % 2 ^ 32;
  oldest_changeset = v.oldest_changeset % 2 ^ 32;
  spelling_word_freq_ubound = v.spelling_word_freq_ubound % 2 ^ 32;
}

cut : (n : ℕ) → U32 n → n % 2 ^ 32 ≡ n
cut n h = omega arith

field_lem : (v : VersionInfo) → Fits v → as_read v ≡ v
field_lem v h = λ i. record v {
  revision = cut v.revision h.revision i;
  doc_count = cut v.doc_count h.doc_count i;
  last_doc_id = cut v.last_doc_id h.last_doc_id i;
  doc_len_lbound = cut v.doc_len_lbound h.doc_len_lbound i;
  wdf_ubound = cut v.wdf_ubound h.wdf_ubound i;
  doc_len_ubound = cut v.doc_len_ubound h.doc_len_ubound i;
  oldest_changeset = cut v.oldest_changeset h.oldest_changeset i;
  spelling_word_freq_ubound = cut v.spelling_word_freq_ubound h.spelling i;
}

rest_steps :
    (v : VersionInfo) (b0 b1 b2 b3 b4 b5 b6 b7 b8 b9 b10 : List ℕ)
    (o0 o1 o2 o3 o4 o5 o6 o7 o8 o9 o10 : ℕ)
    → uint b0 o0 ≡ ok (v.revision, b1, o1)
    → read_root_infos num_tables b1 o1 ≡ ok (v.root_infos, b2, o2)
    → uint b2 o2 ≡ ok (v.doc_count, b3, o3)
    → uint b3 o3 ≡ ok (v.last_doc_id, b4, o4)
    → uint b4 o4 ≡ ok (v.doc_len_lbound, b5, o5)
    → uint b5 o5 ≡ ok (v.wdf_ubound, b6, o6)
    → uint b6 o6 ≡ ok (v.doc_len_ubound, b7, o7)
    → uint b7 o7 ≡ ok (v.oldest_changeset, b8, o8)
    → uint b8 o8 ≡ ok (v.total_doc_len, b9, o9)
    → uint b9 o9 ≡ ok (v.spelling_word_freq_ubound, b10, o10)
    → read_rest v.uuid b0 o0 ≡ ok (as_read v, o10)
unfolding read_rest
rest_steps v b0 b1 b2 b3 b4 b5 b6 b7 b8 b9 b10 o0 o1 o2 o3 o4 o5 o6 o7 o8 o9 o10 e0 e1 e2 e3 e4 e5
      e6 e7 e8 e9 =
    rw (read_rest, e0, e1, e2, e3, e4, e5, e6, e7, e8, e9) refl

eight_assoc :
    (r a b c d e f g h x rest : List ℕ)
    → ((r ++ (x ++ (a ++ (b ++ (c ++ (d ++ (e ++ (f ++ (g ++ h))))))))) ++ rest)
      ≡ r ++ (x ++ (a ++ (b ++ (c ++ (d ++ (e ++ (f ++ (g ++ (h ++ rest)))))))))
eight_assoc r a b c d e f g h x rest = simp append_assoc

eight_length :
    (r a b c d e f g h x : List ℕ)
    → length (r ++ (x ++ (a ++ (b ++ (c ++ (d ++ (e ++ (f ++ (g ++ h)))))))))
      ≡ length r
        + length x
        + length a
        + length b
        + length c
        + length d
        + length e
        + length f
        + length g
        + length h
eight_length r a b c d e f g h x = simp length-append (omega arith)

-- The part behind the UUID.
record Tail (v : VersionInfo) : Type 0 where
  enc : List ℕ
  made : encode_version v ≡ ok (version_magic ++ (put_le 2 format_version ++ (v.uuid ++ enc)))
  read : (rest : List ℕ) → read_rest v.uuid (enc ++ rest) 32 ≡ ok (v, 32 + length enc)

behind_uuid : (v : VersionInfo) → Fits v → Tail v
unfolding encode_version encode_statistics
behind_uuid v h =
    let h0 = h.revision in
    let h1 = h.doc_count in
    let h2 = h.last_doc_id in
    let h3 = h.doc_len_lbound in
    let h4 = h.wdf_ubound in
    let h5 = h.doc_len_ubound in
    let h6 = h.oldest_changeset in
    let h7 = h.total_doc_len in
    let h8 = h.spelling in
    let r = packed v.revision (omega arith) in
    let x = written_all v.root_infos h.infos in
    let a = packed v.doc_count (omega arith) in
    let b = packed v.last_doc_id (omega arith) in
    let c = packed v.doc_len_lbound (omega arith) in
    let d = packed v.wdf_ubound (omega arith) in
    let e = packed v.doc_len_ubound (omega arith) in
    let f = packed v.oldest_changeset (omega arith) in
    let g = packed v.total_doc_len (omega arith) in
    let s = packed v.spelling_word_freq_ubound (omega arith) in
    let enc =
      r.enc
      ++ (x.enc
          ++ (a.enc ++ (b.enc ++ (c.enc ++ (d.enc ++ (e.enc ++ (f.enc ++ (g.enc ++ s.enc)))))))) in
    let n = eight_length r.enc a.enc b.enc c.enc d.enc e.enc f.enc g.enc s.enc x.enc in
    record {
      enc = enc;
      made =
          rw (r.made, x.made, a.made, b.made, c.made, d.made, e.made, f.made, g.made, s.made) refl;
      read = λ rest.
          let b9 = s.enc ++ rest in
          let b8 = g.enc ++ b9 in
          let b7 = f.enc ++ b8 in
          let b6 = e.enc ++ b7 in
          let b5 = d.enc ++ b6 in
          let b4 = c.enc ++ b5 in
          let b3 = b.enc ++ b4 in
          let b2 = a.enc ++ b3 in
          let b1 = x.enc ++ b2 in
          let o1 = 32 + length r.enc in
          let o2 = o1 + length x.enc in
          let o3 = o2 + length a.enc in
          let o4 = o3 + length b.enc in
          let o5 = o4 + length c.enc in
          let o6 = o5 + length d.enc in
          let o7 = o6 + length e.enc in
          let o8 = o7 + length f.enc in
          let o9 = o8 + length g.enc in
          let o10 = o9 + length s.enc in
          let tables = h.tables in
          let few : o1 + length x.enc < 2 ^ 63 = omega (arith, x.short, r.short, tables) in
          let infos = ap (λ k. read_root_infos k b1 o1) (sym tables) ∙ x.read b2 o1 few in
          let end : o10 ≡ 32 + length enc = omega (arith, n) in
          ap (λ buf. read_rest v.uuid buf 32)
            (eight_assoc r.enc a.enc b.enc c.enc d.enc e.enc f.enc g.enc s.enc x.enc rest)
          ∙ rest_steps v (r.enc ++ b1) b1 b2 b3 b4 b5 b6 b7 b8 b9 rest 32 o1 o2 o3 o4 o5 o6 o7 o8 o9
              o10 (uint-packed r b1 32) infos (uint-packed a b3 o2) (uint-packed b b4 o3)
              (uint-packed c b5 o4) (uint-packed d b6 o5) (uint-packed e b7 o6)
              (uint-packed f b8 o7) (uint-packed g b9 o8) (uint-packed s rest o9)
          ∙ ap (λ u. ok (u, o10)) (field_lem v h)
          ∙ ap (λ k. ok (v, k)) end;
    }

-- The magic bytes, the format version and the UUID.
head_steps :
    (body : List ℕ)
    → 16 ≤ length body
    → read_version (version_magic ++ (put_le 2 format_version ++ body))
      ≡ read_rest (take 16 body) (drop 16 body) 32
unfolding read_version put_le bytes_eq
head_steps body h =
    let all = version_magic ++ (put_le 2 format_version ++ body) in
    let a : ltb (length all) 16 ≡ false = ground (arith, h) in
    let b : ltb (length all) 32 ≡ false = ground (arith, h) in rw (read_version, a, b) refl

-- Any version information with a part for each of the six tables and its fields in the range of their
-- Go types, the block sizes multiples of 2048 and the free lists below 2^48 bytes, is encoded; and
-- `read_version` reads it back from the front of any bytes that begin with the encoding, with the
-- encoding's length as the offset of what follows.
pub read_version-encode_version :
    (v : VersionInfo) (rest : List ℕ)
    → Fits v
    → (enc : List ℕ) × (encode_version v ≡ ok enc)
      × (read_version (enc ++ rest) ≡ ok (v, length enc))
unfolding put_le
read_version-encode_version v rest h =
    let t = behind_uuid v h in
    let enc = version_magic ++ (put_le 2 format_version ++ (v.uuid ++ t.enc)) in
    let body = v.uuid ++ (t.enc ++ rest) in
    let n = length-append v.uuid (t.enc ++ rest) in
    let m = length-append v.uuid t.enc in
    let u = h.uuid in
    let all : 32 + length t.enc ≡ length enc = omega (arith, m) in
    (
      enc,
      t.made,
      ap (λ xs. read_version (version_magic ++ (put_le 2 format_version ++ xs)))
            (append_assoc v.uuid t.enc rest)
          ∙ head_steps body (omega (arith, n))
          ∙ ap₂ (λ xs ys. read_rest xs ys 32) (take-append_length 16 v.uuid (t.enc ++ rest) u)
              (drop-append_length 16 v.uuid (t.enc ++ rest) u)
          ∙ t.read rest
          ∙ ap (λ k. ok (v, k)) all,
    )
