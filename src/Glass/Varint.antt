-- ===== src/Glass/Varint.antt =====
-- archive/zim/glass/pack.go, packUint and unpackUint: integers in groups of seven bits.
pub mod RoundTrip
pub mod Packed
use gozim.Base.{
  ℕ, zero, suc, ◌+◌, ◌*◌, ◌/◌, ◌%◌, ◌^◌, ◌≤◌, ◌<◌, ◌≡◌, List, [], ◌∷◌, ltb, leb, ◌==◌,
  if◌then◌else◌, Error, Result, ok, err, panic, ◌>>=◌,
}
use mathlib.Core.Bool.{true, false}
use Prim.Native.Nat.{bit_or}

-- The loop, with `room` bytes of the ten-byte array left: to write past its end panics.
-- `byte(value&0x7F) | 0x80` sets a bit that is clear.
unfoldable pub pack_loop : ℕ → ℕ → Result (List ℕ)
pack_loop zero value = panic
pack_loop (suc room) value = elim (leb 128 value) [
  | true ↦ (do rest ← pack_loop room (value / 128); ok ((value % 128 + 128) ∷ rest))
  | false ↦ ok (value % 256 ∷ [])
]

unfoldable pub pack_uint : ℕ → Result (List ℕ)
unfolding pack_loop
pack_uint value = if value == 0 then ok (0 ∷ []) else pack_loop 10 value

-- The loop over the bytes at index `i`: `value |= uint64(b&0x7F) << shift`.
unfoldable pub unpack_loop : List ℕ → ℕ → ℕ → ℕ → Result (ℕ × ℕ)
unpack_loop [] value shift i = err Error.plain
unpack_loop (b ∷ bs) value shift i =
    let value' = bit_or value (b % 128 * 2 ^ shift % 2 ^ 64) in
    let rest = unpack_loop bs value' (shift + 7) (i + 1) in
    if leb 128 b then (if leb 64 (shift + 7) then err Error.plain else rest) else ok (value', i + 1)

unfoldable pub unpack_uint : List ℕ → Result (ℕ × ℕ)
unfolding unpack_loop
unpack_uint buf = unpack_loop buf 0 0 0
