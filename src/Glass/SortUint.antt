-- ===== src/Glass/SortUint.antt =====
-- archive/zim/glass/pack.go, packUintPreservingSort and unpackUintPreservingSort: integers whose
-- encodings are in the order of the integers.
pub mod RoundTrip
use gozim.Base.{
  ℕ, zero, suc, ◌+◌, ◌-◌, ◌*◌, ◌/◌, ◌%◌, ◌^◌, ◌≤◌, ◌<◌, ◌≡◌, Bool, true, false, List, [], ◌∷◌,
  length, take, drop, get_or, ltb, leb, if◌then◌else◌, Error, Result, ok, err, panic, ◌>>=◌, ◌>>◌,
  fail_if,
}

-- The lowest `w` bytes, highest first: `byte(value >> (8*(w-1)))`, and so on.
unfoldable pub put_be : ℕ → ℕ → List ℕ
put_be zero v = []
put_be (suc w) v = v / 256 ^ w % 256 ∷ put_be w v

-- `lead | byte(value >> (8*w))`, of which the byte has no bit of `lead`, and `w` bytes.
unfoldable pub tagged : ℕ → ℕ → ℕ → List ℕ
unfolding put_be
tagged lead w v = (lead + v / 256 ^ w % 256) ∷ put_be w v

unfoldable pub pack_sort : ℕ → List ℕ
unfolding tagged
pack_sort v =
    if ltb v 0x8000
    then put_be 2 v
    else if ltb v 0x400000
    then tagged 0x80 2 v
    else if ltb v 0x20000000
    then tagged 0xc0 3 v
    else if ltb v 0x1000000000
    then tagged 0xe0 4 v
    else if ltb v 0x80000000000
    then tagged 0xf0 5 v
    else if ltb v 0x4000000000000
    then tagged 0xf8 6 v
    else if ltb v 0x200000000000000
    then tagged 0xfc 7 v
    else 0xfe ∷ put_be 8 v

-- The loop on `temp`, a byte: after eight shifts it is zero.
unfoldable pub leading_ones : ℕ → ℕ → ℕ
leading_ones zero temp = 0
leading_ones (suc fuel) temp = elim (leb 128 temp) [
  | true ↦ suc (leading_ones fuel (temp * 2 % 256))
  | false ↦ 0
]

-- `value = (value << 8) | uint64(buf[i])` for each byte.
unfoldable pub shift_in : ℕ → List ℕ → ℕ
shift_in value [] = value
shift_in value (b ∷ bs) = shift_in (value * 256 % 2 ^ 64 + b) bs

-- `first & (0xFF >> (ones+1))`: the mask has the lowest 7 - ones bits, or none.
unfoldable pub unpack_sort : List ℕ → Result (ℕ × ℕ)
unfolding leading_ones shift_in
unpack_sort buf =
    let first = get_or buf 0 0 in
    let ones = leading_ones 8 first in
    let n = ones + 2 in
    do
      fail_if (ltb (length buf) 2) Error.plain
      if ltb first 128 then ok (first * 256 + get_or buf 1 0, 2) else (do
        fail_if (ltb (length buf) n) Error.plain
        ok (shift_in (first % 2 ^ (7 - ones)) (take (n - 1) (drop 1 buf)), n))
