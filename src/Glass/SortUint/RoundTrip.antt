-- ===== src/Glass/SortUint/RoundTrip.antt =====
-- `unpack_sort` reads back what `pack_sort` wrote.
use gozim.Base.{
  ℕ, zero, suc, ◌+◌, ◌-◌, ◌*◌, ◌/◌, ◌%◌, ◌^◌, ◌≤◌, ◌<◌, ◌≡◌, refl, sym, ap, ◌∙◌, inl, inr, Bool,
  true, ◌&&◌, List, ◌∷◌, ◌++◌, length, take, drop, get_or, ltb, leb, ◌==◌, length-append,
  take-append_length, Bool-cases, le→ltb, lt→ltb, ok, arith,
}
use gozim.Glass.SortUint.{put_be, tagged, pack_sort, leading_ones, shift_in, unpack_sort}
use native.Mathlib.Nat.{div-div-eq-div-mul, pow-suc}

length-put_be : (w v : ℕ) → length (put_be w v) ≡ w
unfolding put_be
length-put_be zero v = refl
length-put_be (suc w) v = ap suc (length-put_be w v)

byte_in : (q : ℕ) → q < 2 ^ 64 → q / 256 * 256 % 2 ^ 64 + q % 256 ≡ q
byte_in q h = omega arith

shift_in-put_be : (w v : ℕ) → v < 2 ^ 64 → shift_in (v / 256 ^ w) (put_be w v) ≡ v
unfolding shift_in put_be
shift_in-put_be zero v h = omega arith
shift_in-put_be (suc w) v h =
    let q : v / 256 ^ suc w ≡ v / 256 ^ w / 256 =
      ap (λ t. v / t) (pow-suc 256 w) ∙ sym (div-div-eq-div-mul v (256 ^ w) 256) in
    let step : v / 256 ^ suc w * 256 % 2 ^ 64 + v / 256 ^ w % 256 ≡ v / 256 ^ w =
      rw q (byte_in (v / 256 ^ w) (omega arith)) in
    ap (λ x. shift_in x (put_be w v)) step ∙ shift_in-put_be w v h

-- A checked table: what the first bytes of a class say.
all_below : ℕ → (ℕ → Bool) → Bool
all_below zero p = true
all_below (suc n) p = p n && all_below n p

all_below_lem : (n : ℕ) (p : ℕ → Bool) (x : ℕ) → all_below n p ≡ true → x < n → p x ≡ true
unfolding all_below
all_below_lem zero p x h lt = absurd (omega arith)
all_below_lem (suc n) p x h lt = ground (arith, all_below_lem n p x)

abbrev first_ok : ℕ → ℕ → ℕ → Bool
first_ok lead ones x =
    leading_ones 8 (lead + x) == ones && (lead + x) % 2 ^ (7 - ones) == x && leb 128 (lead + x)

unpack_sort_steps :
    (buf : List ℕ) (ones : ℕ)
    → 128 ≤ get_or buf 0 0
    → leading_ones 8 (get_or buf 0 0) ≡ ones
    → ones + 2 ≤ length buf
    → unpack_sort buf
      ≡ ok (shift_in (get_or buf 0 0 % 2 ^ (7 - ones)) (take (ones + 2 - 1) (drop 1 buf)), ones + 2)
unfolding unpack_sort
unpack_sort_steps buf ones big o l = rw (
  o,
  le→ltb (length buf) 2 (omega arith),
  le→ltb (get_or buf 0 0) 128 big,
  le→ltb (length buf) (ones + 2) l,
)

-- A value behind a first byte that says how many bytes follow.
unpack_tagged :
    (lead ones w v : ℕ) (rest : List ℕ)
    → v < 2 ^ 64
    → w ≡ ones + 1
    → v / 256 ^ w < 256
    → first_ok lead ones (v / 256 ^ w) ≡ true
    → unpack_sort (tagged lead w v ++ rest) ≡ ok (v, length (tagged lead w v))
unfolding tagged
unpack_tagged lead ones w v rest h e small t =
    let x = v / 256 ^ w in
    let byte : x % 256 ≡ x = omega arith in
    let k = length-put_be w v in
    let (o, m, big) =
      split (leading_ones 8 (lead + x)) ((lead + x) % 2 ^ (7 - ones)) x ones (lead + x) t in
    let count : ones + 2 - 1 ≡ w = omega arith in
    rw byte (
      unpack_sort_steps ((lead + x) ∷ (put_be w v ++ rest)) ones big o
        (omega (arith, length-append (put_be w v) rest, k))
      ∙ rw (m, count, take-append_length w (put_be w v) rest k, shift_in-put_be w v h)
          (ap (λ n. ok (v, n)) (omega (arith, k))))
  where
    split :
        (o m x ones f : ℕ)
        → (o == ones && m == x && leb 128 f) ≡ true
        → (o ≡ ones) × (m ≡ x) × (128 ≤ f)
    split o m x ones f h = ground arith

table_ok :
    (lead ones n x : ℕ)
    → all_below n (first_ok lead ones) ≡ true
    → x < n
    → first_ok lead ones x ≡ true
table_ok lead ones n x t h = all_below_lem n (first_ok lead ones) x t h

two_bytes : (v : ℕ) (rest : List ℕ) → v < 0x8000 → unpack_sort (put_be 2 v ++ rest) ≡ ok (v, 2)
unfolding unpack_sort put_be
two_bytes v rest h =
    let first : v / 256 ^ 1 % 256 < 128 = omega arith in
    let whole : v / 256 ^ 1 % 256 * 256 + v / 256 ^ 0 % 256 ≡ v = omega arith in
    rw (
      le→ltb (suc (suc (length rest))) 2 (omega arith),
      lt→ltb (v / 256 ^ 1 % 256) 128 first,
      whole,
    )

nine_bytes :
    (v : ℕ) (rest : List ℕ) → v < 2 ^ 64 → unpack_sort ((0xfe ∷ put_be 8 v) ++ rest) ≡ ok (v, 9)
unfolding tagged
nine_bytes v rest h =
    let none : v / 256 ^ 8 ≡ 0 = omega arith in
    let lead : 0xfe + v / 256 ^ 8 % 256 ≡ 0xfe = omega arith in
    ap (λ b. unpack_sort ((b ∷ put_be 8 v) ++ rest)) (sym lead)
    ∙ unpack_tagged 0xfe 7 8 v rest h (omega arith) (omega arith)
        (ap (first_ok 0xfe 7) none ∙ unfold leading_ones in refl)
    ∙ ap (λ n. ok (v, suc n)) (length-put_be 8 v)

abbrev ReadsBack : ℕ → List ℕ → List ℕ → Type 0
ReadsBack v enc rest = unpack_sort (enc ++ rest) ≡ ok (v, length enc)

-- One class: the lead, its number of ones, and how many values its first byte takes.
class_lem :
    (lead ones n v : ℕ) (rest : List ℕ)
    → all_below n (first_ok lead ones) ≡ true
    → n ≤ 256
    → v < 2 ^ 64
    → v / 256 ^ (ones + 1) < n
    → ReadsBack v (tagged lead (ones + 1) v) rest
class_lem lead ones n v rest t big h small =
    unpack_tagged lead ones (ones + 1) v rest h refl (omega arith) (table_ok lead ones n _ t small)

-- `unpack_sort` reads back the uint64 that `pack_sort` wrote, and takes exactly its bytes, whatever
-- follows them.
pub unpack_sort-pack_sort :
    (v : ℕ) (rest : List ℕ)
    → v < 2 ^ 64
    → unpack_sort (pack_sort v ++ rest) ≡ ok (v, length (pack_sort v))
unfolding pack_sort all_below leading_ones
unpack_sort-pack_sort v rest h = elim (Bool-cases (ltb v 0x8000)) [
  | inl a ↦
      rw (a, pack_sort)
        (two_bytes v rest (ground arith) ∙ ap (λ n. ok (v, n)) (sym (length-put_be 2 v)))
  | inr a ↦ elim (Bool-cases (ltb v 0x400000)) [
    | inl b ↦ rw (a, b, pack_sort) (class_lem 0x80 1 64 v rest refl (omega arith) h (ground arith))
    | inr b ↦ elim (Bool-cases (ltb v 0x20000000)) [
      | inl c ↦
          rw (a, b, c, pack_sort) (class_lem 0xc0 2 32 v rest refl (omega arith) h (ground arith))
      | inr c ↦ elim (Bool-cases (ltb v 0x1000000000)) [
        | inl d ↦
            rw (a, b, c, d, pack_sort)
              (class_lem 0xe0 3 16 v rest refl (omega arith) h (ground arith))
        | inr d ↦ elim (Bool-cases (ltb v 0x80000000000)) [
          | inl e ↦
              rw (a, b, c, d, e, pack_sort)
                (class_lem 0xf0 4 8 v rest refl (omega arith) h (ground arith))
          | inr e ↦ elim (Bool-cases (ltb v 0x4000000000000)) [
            | inl f ↦
                rw (a, b, c, d, e, f, pack_sort)
                  (class_lem 0xf8 5 4 v rest refl (omega arith) h (ground arith))
            | inr f ↦ elim (Bool-cases (ltb v 0x200000000000000)) [
              | inl g ↦
                  rw (a, b, c, d, e, f, g, pack_sort)
                    (class_lem 0xfc 6 2 v rest refl (omega arith) h (ground arith))
              | inr g ↦
                  rw (a, b, c, d, e, f, g, pack_sort)
                    (nine_bytes v rest h ∙ ap (λ n. ok (v, suc n)) (sym (length-put_be 8 v)))
            ]
          ]
        ]
      ]
    ]
  ]
]
