-- ===== src/Glass/Varint/RoundTrip.antt =====
-- `unpack_uint` reads back what `pack_uint` wrote.
use gozim.Base.{
  ℕ, zero, suc, ◌+◌, ◌*◌, ◌/◌, ◌%◌, ◌^◌, ◌≤◌, ◌<◌, ◌≡◌, refl, ap, ◌∙◌, inl, inr, List, [], ◌∷◌,
  ◌++◌, length, ltb, leb, false, ◌==◌, Bool-cases, le→leb, lt→leb, ok, arith,
}
use mathlib.Core.Path.{ap₂}
use gozim.Base.Bits.{bit_or_shifted}
use gozim.Glass.Varint.{pack_loop, pack_uint, unpack_loop, unpack_uint}
use Prim.Native.Nat.{bit_or}
use native.Mathlib.Numerals.{towards_suc}
use native.Mathlib.Nat.{pow-suc, mod-eq_of_lt, pow-le-pow_right, div-add-mod}

shift_seven : (s : ℕ) → 2 ^ (s + 7) ≡ 128 * 2 ^ s
shift_seven s = simp towards_suc (omega arith)

-- A group of seven bits that does not pass bit 64.
group_lem :
    (acc shift g : ℕ)
    → acc < 2 ^ shift
    → acc + g * 2 ^ shift < 2 ^ 64
    → bit_or acc (g * 2 ^ shift % 2 ^ 64) ≡ acc + g * 2 ^ shift
group_lem acc shift g h k =
    let small : g * 2 ^ shift % 2 ^ 64 ≡ g * 2 ^ shift = mod-eq_of_lt (omega arith) in
    rw small (bit_or_shifted shift acc g h)

-- What a group and the rest of the value make, both shifted.
split_group : (v s : ℕ) → v * 2 ^ s ≡ v % 128 * 2 ^ s + v / 128 * 2 ^ (s + 7)
split_group v s = omega (
  arith,
  ap (λ (t : ℕ). v / 128 * t) (shift_seven s),
  ap (λ (t : ℕ). t * 2 ^ s) (div-add-mod v 128),
)

-- A value of 128 or more, shifted below 2 ^ 64, leaves room for one more group.
shift_room : (v s : ℕ) → 128 ≤ v → v * 2 ^ s < 2 ^ 64 → s + 7 < 64
shift_room v s h k = elim (Bool-cases (ltb (s + 7) 64)) [
  | inl small ↦ ground arith
  | inr big ↦
      let far : 64 ≤ s + 7 = ground arith in
      let whole : 2 ^ 64 ≤ 2 ^ (s + 7) = pow-le-pow_right (omega arith) far in
      let grows : 128 * 2 ^ s ≤ v * 2 ^ s = grind arith in absurd (omega (arith, shift_seven s))
]

last_byte :
    (v acc shift i : ℕ) (rest : List ℕ)
    → v < 128
    → acc < 2 ^ shift
    → acc + v * 2 ^ shift < 2 ^ 64
    → unpack_loop (v % 256 ∷ rest) acc shift i ≡ ok (acc + v * 2 ^ shift, i + 1)
unfolding unpack_loop
last_byte v acc shift i rest small h k =
    let byte : v % 256 ≡ v = omega arith in
    let low : v % 128 ≡ v = omega arith in
    rw (byte, lt→leb 128 v small, low) (ap (λ x. ok (x, i + 1)) (group_lem acc shift v h k))

inner_byte :
    (g acc shift i : ℕ) (rest : List ℕ)
    → g < 128
    → shift + 7 < 64
    → acc < 2 ^ shift
    → acc + g * 2 ^ shift < 2 ^ 64
    → unpack_loop ((g + 128) ∷ rest) acc shift i
      ≡ unpack_loop rest (acc + g * 2 ^ shift) (shift + 7) (i + 1)
unfolding unpack_loop
inner_byte g acc shift i rest small room h k =
    let low : (g + 128) % 128 ≡ g = omega arith in
    rw (le→leb 128 (g + 128) (omega arith), lt→leb 64 (shift + 7) room, low)
      (ap (λ x. unpack_loop rest x (shift + 7) (i + 1)) (group_lem acc shift g h k))

-- `enc` makes `unpack_loop` add `v` to what it has read so far, whatever follows.
abbrev Reads : List ℕ → ℕ → Type 0
Reads enc v =
    (acc shift i : ℕ) (rest : List ℕ)
    → acc < 2 ^ shift
    → acc + v * 2 ^ shift < 2 ^ 64
    → unpack_loop (enc ++ rest) acc shift i ≡ ok (acc + v * 2 ^ shift, i + length enc)

below_group : (g a p : ℕ) → g < 128 → a < p → a + g * p < 128 * p
below_group g a p h k = let most : g * p ≤ 127 * p = grind arith in omega arith

Reads-cons :
    (v : ℕ) (enc : List ℕ) → 128 ≤ v → Reads enc (v / 128) → Reads ((v % 128 + 128) ∷ enc) v
Reads-cons v enc big ih acc shift i rest a b =
    let whole = split_group v shift in
    inner_byte (v % 128) acc shift i (enc ++ rest) (omega arith)
      (shift_room v shift big (omega arith)) a (omega (arith, whole))
    ∙ ih (acc + v % 128 * 2 ^ shift) (shift + 7) (i + 1) rest
        (omega (arith, shift_seven shift, below_group (v % 128) acc (2 ^ shift) (omega arith) a))
        (omega (arith, whole))
    ∙ ap₂ (λ x y. ok (x, y)) (omega (arith, whole)) (omega arith)

large_byte :
    (room v : ℕ) (enc : List ℕ)
    → 128 ≤ v
    → pack_loop room (v / 128) ≡ ok enc
    → pack_loop (suc room) v ≡ ok ((v % 128 + 128) ∷ enc)
unfolding pack_loop
large_byte room v enc h e = rw (le→leb 128 v h, pack_loop, e) refl

small_byte : (room v : ℕ) → v < 128 → pack_loop (suc room) v ≡ ok (v % 256 ∷ [])
unfolding pack_loop
small_byte room v h = rw (lt→leb 128 v h, pack_loop) refl

small_packed :
    (room v : ℕ)
    → v < 128
    → (enc : List ℕ) × (pack_loop (suc room) v ≡ ok enc) × (length enc ≤ suc room) × Reads enc v
small_packed room v small = (
  v % 256 ∷ [],
  small_byte room v small,
  omega arith,
  λ acc shift i rest a b. last_byte v acc shift i rest small a b,
)

packed :
    (room v : ℕ)
    → v < 128 ^ suc room
    → (enc : List ℕ) × (pack_loop (suc room) v ≡ ok enc) × (length enc ≤ suc room) × Reads enc v
packed zero v h = small_packed zero v (omega arith)
packed (suc room) v h = elim (Bool-cases (leb 128 v)) [
  | inr small ↦ small_packed (suc room) v (ground arith)
  | inl large ↦
      let big : 128 ≤ v = ground arith in
      let (enc, made, short, reads) =
        packed room (v / 128) (omega (arith, pow-suc 128 (suc room))) in
      (
        (v % 128 + 128) ∷ enc,
        large_byte (suc room) v enc big made,
        omega (arith, short),
        Reads-cons v enc big reads,
      )
]

pack_uint-suc : (v : ℕ) → pack_uint (suc v) ≡ pack_loop 10 (suc v)
unfolding pack_uint
pack_uint-suc v = let e : (suc v == 0) ≡ false = ground arith in rw e

-- `pack_uint` packs every uint64, in at most ten bytes, and `unpack_uint` reads the value back and
-- takes exactly those bytes, whatever follows them.
pub unpack_uint-pack_uint :
    (v : ℕ)
    → v < 2 ^ 64
    → (enc : List ℕ) × (pack_uint v ≡ ok enc)
      × (length enc ≤ 10)
      × ((rest : List ℕ) → unpack_uint (enc ++ rest) ≡ ok (v, length enc))
unfolding pack_uint unpack_uint
unpack_uint-pack_uint zero h = (
  0 ∷ [],
  refl,
  omega arith,
  λ rest. last_byte 0 0 0 0 rest (omega arith) (omega arith) (omega arith),
)
unpack_uint-pack_uint (suc v) h =
    let (enc, made, short, reads) = packed 9 (suc v) (omega arith) in
    (
      enc,
      pack_uint-suc v ∙ made,
      short,
      λ rest.
          reads 0 0 0 rest (omega arith) (omega arith)
          ∙ ap₂ (λ x y. ok (x, y)) (omega arith) (omega arith),
    )
