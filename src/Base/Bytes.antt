-- ===== src/Base/Bytes.antt =====
-- encoding/binary's little-endian integers, and writes into a byte buffer.
use gozim.Base.Lists.{length, take, drop, replicate, All, take-append_length, drop-append_length}
use Prim.Native.Nat.{ℕ, zero, suc, ◌+◌, ◌*◌, ◌/◌, ◌%◌, ◌^◌, ◌<◌}
use mathlib.Core.Path.{◌≡◌, refl, sym, ap, ◌∙◌}
use mathlib.Core.List.{List, [], ◌∷◌, ◌++◌}
use native.Mathlib.Omega.{arith}
use native.Mathlib.Nat.{pow-suc, zero-add, suc-add}
use mathlib.Core.List.{append_assoc}

abbrev pub IsByte : ℕ → Type 0
IsByte b = b < 256

-- `w` bytes, lowest first.
unfoldable pub put_le : ℕ → ℕ → List ℕ
put_le zero v = []
put_le (suc w) v = v % 256 ∷ put_le w (v / 256)

unfoldable pub le_value : List ℕ → ℕ
le_value [] = 0
le_value (b ∷ bs) = b + 256 * le_value bs

pub length-put_le : (w v : ℕ) → length (put_le w v) ≡ w
unfolding put_le
length-put_le zero v = refl
length-put_le (suc w) v = ap suc (length-put_le w (v / 256))

pub put_le-IsByte : (w v : ℕ) → All IsByte (put_le w v)
unfolding put_le
put_le-IsByte zero v = tt
put_le-IsByte (suc w) v = (omega arith, put_le-IsByte w (v / 256))

pub le_value-put_le : (w v : ℕ) → v < 256 ^ w → le_value (put_le w v) ≡ v
unfolding put_le le_value
le_value-put_le zero v h = omega arith
le_value-put_le (suc w) v h =
    omega (arith, le_value-put_le w (v / 256) (omega (arith, pow-suc 256 w)))

pub le_value-lt : (bs : List ℕ) → All IsByte bs → le_value bs < 256 ^ length bs
unfolding le_value
le_value-lt [] h = omega arith
le_value-lt (b ∷ bs) h = omega (arith, h.0, le_value-lt bs h.1, pow-suc 256 (length bs))

-- A field of `w` bytes, or fewer where the buffer ends.
pub le_value-take-lt : (w : ℕ) (bs : List ℕ) → All IsByte bs → le_value (take w bs) < 256 ^ w
unfolding le_value
le_value-take-lt zero bs h = omega arith
le_value-take-lt (suc w) [] h = omega (arith, pow-suc 256 w, le_value-take-lt w [] tt)
le_value-take-lt (suc w) (b ∷ bs) h = omega (arith, h.0, le_value-take-lt w bs h.1, pow-suc 256 w)

pub put_le-le_value :
    (w : ℕ) (bs : List ℕ) → length bs ≡ w → All IsByte bs → put_le w (le_value bs) ≡ bs
unfolding put_le le_value
put_le-le_value zero [] e h = refl
put_le-le_value zero (b ∷ bs) e h = absurd (omega arith)
put_le-le_value (suc w) [] e h = absurd (omega arith)
put_le-le_value (suc w) (b ∷ bs) e h =
    let low : (b + 256 * le_value bs) % 256 ≡ b = omega (arith, h.0) in
    let high : (b + 256 * le_value bs) / 256 ≡ le_value bs = omega (arith, h.0) in
    rw (low, high, put_le-le_value w bs (omega arith) h.1)

-- Go's `copy(dst, src)`: as many bytes as both have.
unfoldable pub copy : List ℕ → List ℕ → List ℕ
copy dst [] = dst
copy [] (s ∷ src) = []
copy (d ∷ dst) (s ∷ src) = s ∷ copy dst src

-- `copy(buf[off:], src)`, and with it the writes of encoding/binary.
unfoldable pub put_bytes : List ℕ → ℕ → List ℕ → List ℕ
unfolding copy
put_bytes buf off src = take off buf ++ copy (drop off buf) src

pub copy_fill :
    (src : List ℕ) (m : ℕ) → copy (replicate (length src + m) 0) src ≡ src ++ replicate m 0
unfolding copy
copy_fill [] m = rw zero-add
copy_fill (s ∷ src) m = rw (suc-add, copy_fill src m)

-- Writing right behind what a buffer of zeros holds so far.
pub put_bytes_fill :
    (pre src : List ℕ) (from n m : ℕ)
    → length pre ≡ from
    → n ≡ length src + m
    → put_bytes (pre ++ replicate n 0) from src ≡ (pre ++ src) ++ replicate m 0
unfolding put_bytes
put_bytes_fill pre src from n m p e =
    rw
      (
        take-append_length from pre (replicate n 0) p,
        drop-append_length from pre (replicate n 0) p,
        e,
      )
      (ap (◌++◌ pre) (copy_fill src m) ∙ sym (append_assoc pre src (replicate m 0)))
