-- ===== src/Glass/Version/RoundTrip.antt =====
-- `read_version` reads back what `encode_version` wrote.
use gozim.Base.{
  ℕ, suc, ◌+◌, ◌*◌, ◌/◌, ◌%◌, ◌^◌, ◌≤◌, ◌<◌, ◌≡◌, refl, ap, ◌∙◌, true, false, List, [], ◌∷◌, ◌++◌,
  length, All, ltb, leb, ok, arith, length-append, drop-append_length, take-append_length,
}
use mathlib.Core.List.{append_assoc}
use gozim.Format.{U8, U32, U64}
use gozim.Glass.Varint.Packed.{Packed, packed}
use gozim.Glass.Version.{
  RootInfo, uint, read_free_list, read_root_info, read_root_infos, encode_root_info,
  encode_root_infos,
}

-- The fields' types, blocks of a multiple of 2048 bytes and a free list below 2^48 bytes.
pub record InRange (r : RootInfo) : Type 0 where
  pub root : U32 r.root
  pub level : U8 r.level
  pub num_entries : U32 r.num_entries
  pub block_size : U32 r.block_size
  pub shifted : r.block_size % 2 ^ 11 ≡ 0
  pub compress_min : U64 r.compress_min
  pub free_list : length r.free_list < 2 ^ 48

pub uint-packed :
    {v : ℕ} (p : Packed v) (rest : List ℕ) (offset : ℕ)
    → uint (p.enc ++ rest) offset ≡ ok (v, rest, offset + length p.enc)
unfolding uint
uint-packed p rest offset = rw (uint, p.read rest, p.skip rest) refl

read_free_list-front :
    (xs rest : List ℕ) (offset : ℕ)
    → offset + length xs < 2 ^ 63
    → read_free_list (length xs) (xs ++ rest) offset ≡ ok (xs, rest, offset + length xs)
unfolding read_free_list
read_free_list-front [] rest offset h =
    let a : offset ≡ offset + 0 = omega arith in ap (λ k. ok ([], rest, k)) a
read_free_list-front (x ∷ xs) rest offset h =
    let some_byte : ltb 0 (suc (length xs)) ≡ true = ground arith in
    let small : leb (2 ^ 63) (offset + suc (length xs)) ≡ false = ground (arith, h) in
    let n = length-append xs rest in
    let there : leb (suc (length xs)) (suc (length (xs ++ rest))) ≡ true = ground (arith, n) in
    rw
      (
        read_free_list,
        some_byte,
        small,
        there,
        take-append_length (length xs) xs rest refl,
        drop-append_length (length xs) xs rest refl,
      )
      refl

root_steps :
    (b0 b1 b2 b3 b4 b5 b6 b7 : List ℕ) (o0 o1 o2 o3 o4 o5 o6 o7 x0 x1 x2 x3 x4 x5 : ℕ) (xs : List ℕ)
    → uint b0 o0 ≡ ok (x0, b1, o1)
    → uint b1 o1 ≡ ok (x1, b2, o2)
    → uint b2 o2 ≡ ok (x2, b3, o3)
    → uint b3 o3 ≡ ok (x3, b4, o4)
    → uint b4 o4 ≡ ok (x4, b5, o5)
    → uint b5 o5 ≡ ok (x5, b6, o6)
    → read_free_list x5 b6 o6 ≡ ok (xs, b7, o7)
    → read_root_info b0 o0
      ≡ ok (
        record {
          root = x0 % 2 ^ 32;
          level = x1 / 4 % 256;
          num_entries = x2 % 2 ^ 32;
          block_size = x3 * 2 ^ 11 % 2 ^ 64 % 2 ^ 32;
          compress_min = x4;
          free_list = xs;
        },
        b7,
        o7,
      )
unfolding read_root_info
root_steps b0 b1 b2 b3 b4 b5 b6 b7 o0 o1 o2 o3 o4 o5 o6 o7 x0 x1 x2 x3 x4 x5 xs e0 e1 e2 e3 e4 e5
      e6 =
    rw (read_root_info, e0, e1, e2, e3, e4, e5, e6) refl

seven_assoc :
    (a b c d e f x rest : List ℕ)
    → ((a ++ (b ++ (c ++ (d ++ (e ++ (f ++ x)))))) ++ rest)
      ≡ a ++ (b ++ (c ++ (d ++ (e ++ (f ++ (x ++ rest))))))
seven_assoc a b c d e f x rest = simp append_assoc

seven_length :
    (a b c d e f x : List ℕ)
    → length (a ++ (b ++ (c ++ (d ++ (e ++ (f ++ x))))))
      ≡ length a + length b + length c + length d + length e + length f + length x
seven_length a b c d e f x = simp length-append (omega arith)

-- The encoding of a table's part, and how it is read.
record Written (r : RootInfo) : Type 0 where
  enc : List ℕ
  made : encode_root_info r ≡ ok enc
  short : length enc ≤ 2 ^ 49
  read :
      (rest : List ℕ) (offset : ℕ)
      → offset + length enc < 2 ^ 63
      → read_root_info (enc ++ rest) offset ≡ ok (r, rest, offset + length enc)

-- The fields cut to their widths.
abbrev as_read : RootInfo → RootInfo
as_read r = record {
  root = r.root % 2 ^ 32;
  level = r.level * 4 / 4 % 256;
  num_entries = r.num_entries % 2 ^ 32;
  block_size = r.block_size / 2 ^ 11 * 2 ^ 11 % 2 ^ 64 % 2 ^ 32;
  compress_min = r.compress_min;
  free_list = r.free_list;
}

field_lem : (r : RootInfo) → InRange r → as_read r ≡ r
field_lem r h =
    let a = h.root in
    let b = h.level in
    let c = h.num_entries in
    let d = h.block_size in
    let e = h.shifted in
    let p : r.root % 2 ^ 32 ≡ r.root = omega arith in
    let q : r.level * 4 / 4 % 256 ≡ r.level = omega arith in
    let s : r.num_entries % 2 ^ 32 ≡ r.num_entries = omega arith in
    let t : r.block_size / 2 ^ 11 * 2 ^ 11 % 2 ^ 64 % 2 ^ 32 ≡ r.block_size = omega arith in
    λ i. record {
      root = p i;
      level = q i;
      num_entries = s i;
      block_size = t i;
      compress_min = r.compress_min;
      free_list = r.free_list;
    }

written : (r : RootInfo) → InRange r → Written r
unfolding encode_root_info
written r h =
    let small = h.free_list in
    let h0 = h.root in
    let h1 = h.level in
    let h2 = h.num_entries in
    let h3 = h.block_size in
    let h4 = h.compress_min in
    let a = packed r.root (omega arith) in
    let b = packed (r.level * 4) (omega arith) in
    let c = packed r.num_entries (omega arith) in
    let d = packed (r.block_size / 2 ^ 11) (omega arith) in
    let e = packed r.compress_min (omega arith) in
    let f = packed (length r.free_list) (omega arith) in
    let xs = r.free_list in
    let enc = a.enc ++ (b.enc ++ (c.enc ++ (d.enc ++ (e.enc ++ (f.enc ++ xs))))) in
    record {
      enc = enc;
      made = rw (a.made, b.made, c.made, d.made, e.made, f.made) refl;
      short = omega (
        arith,
        seven_length a.enc b.enc c.enc d.enc e.enc f.enc xs,
        a.short,
        b.short,
        c.short,
        d.short,
        e.short,
        f.short,
      );
      read = λ rest offset few.
          let after_f = xs ++ rest in
          let after_e = f.enc ++ after_f in
          let after_d = e.enc ++ after_e in
          let after_c = d.enc ++ after_d in
          let after_b = c.enc ++ after_c in
          let after_a = b.enc ++ after_b in
          let o1 = offset + length a.enc in
          let o2 = o1 + length b.enc in
          let o3 = o2 + length c.enc in
          let o4 = o3 + length d.enc in
          let o5 = o4 + length e.enc in
          let o6 = o5 + length f.enc in
          let n : length enc
              ≡ length a.enc
                + length b.enc
                + length c.enc
                + length d.enc
                + length e.enc
                + length f.enc
                + length xs =
            seven_length a.enc b.enc c.enc d.enc e.enc f.enc xs in
          let end : o6 + length xs ≡ offset + length enc = omega (arith, n) in
          ap (λ buf. read_root_info buf offset)
            (seven_assoc a.enc b.enc c.enc d.enc e.enc f.enc xs rest)
          ∙ root_steps (a.enc ++ after_a) after_a after_b after_c after_d after_e after_f rest
              offset o1 o2 o3 o4 o5 o6 (o6 + length xs) r.root (r.level * 4) r.num_entries
              (r.block_size / 2 ^ 11) r.compress_min (length xs) xs (uint-packed a after_a offset)
              (uint-packed b after_b o1) (uint-packed c after_c o2) (uint-packed d after_d o3)
              (uint-packed e after_e o4) (uint-packed f after_f o5)
              (read_free_list-front xs rest o6 (omega (arith, few, n)))
          ∙ ap (λ x. ok (x, rest, o6 + length xs)) (field_lem r h)
          ∙ ap (λ k. ok (r, rest, k)) end;
    }

infos_steps :
    (n : ℕ) (b0 b1 b2 : List ℕ) (o0 o1 o2 : ℕ) (r : RootInfo) (rs : List RootInfo)
    → read_root_info b0 o0 ≡ ok (r, b1, o1)
    → read_root_infos n b1 o1 ≡ ok (rs, b2, o2)
    → read_root_infos (suc n) b0 o0 ≡ ok (r ∷ rs, b2, o2)
unfolding read_root_infos
infos_steps n b0 b1 b2 o0 o1 o2 r rs e0 e1 = rw (read_root_infos, e0, e1) refl

-- The same of the tables' parts.
pub record WrittenAll (rs : List RootInfo) : Type 0 where
  pub enc : List ℕ
  pub made : encode_root_infos rs ≡ ok enc
  pub short : length enc ≤ length rs * 2 ^ 49
  pub read :
      (rest : List ℕ) (offset : ℕ)
      → offset + length enc < 2 ^ 63
      → read_root_infos (length rs) (enc ++ rest) offset ≡ ok (rs, rest, offset + length enc)

pub written_all : (rs : List RootInfo) → All InRange rs → WrittenAll rs
unfolding encode_root_infos read_root_infos
written_all [] h = record {
  enc = [];
  made = refl;
  short = omega arith;
  read =
      λ rest offset few. let a : offset ≡ offset + 0 = omega arith in ap (λ k. ok ([], rest, k)) a;
}
written_all (r ∷ rs) h =
    let one = written r h.0 in
    let more = written_all rs h.1 in
    let enc = one.enc ++ more.enc in
    let n = length-append one.enc more.enc in
    let small = one.short in
    let smaller = more.short in
    record {
      enc = enc;
      made = rw (one.made, more.made) refl;
      short = omega arith;
      read = λ rest offset few.
          let first = one.read (more.enc ++ rest) offset (omega arith) in
          let others = more.read rest (offset + length one.enc) (omega arith) in
          let end : offset + length one.enc + length more.enc ≡ offset + length enc = omega arith in
          ap (λ buf. read_root_infos (suc (length rs)) buf offset)
            (append_assoc one.enc more.enc rest)
          ∙ infos_steps (length rs) _ _ rest offset _ _ r rs first others
          ∙ ap (λ k. ok (r ∷ rs, rest, k)) end;
    }
