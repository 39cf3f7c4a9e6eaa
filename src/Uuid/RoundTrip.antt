-- ===== src/Uuid/RoundTrip.antt =====
-- `parse_uuid` reads back what `uuid_string` wrote.
use gozim.Base.{
  ℕ, ◌+◌, ◌*◌, ◌/◌, ◌%◌, ◌<◌, ◌≡◌, refl, sym, ap, ◌∙◌, false, true, List, [], ◌∷◌, ◌++◌, length,
  take, drop, All, All-take, All-drop, ◌==◌, ==_iff, some, ok, arith, length-append, length-drop,
  append-take-drop, drop-drop, take-length,
}
use mathlib.Core.List.{append-nil}
use gozim.Base.Bytes.{IsByte}
use gozim.Uuid.{hyphen, strip, hex_value, decode_hex, parse_uuid, hex_digit, hex_bytes, uuid_string}

hex_value-hex_digit : (n : ℕ) → n < 16 → hex_value (hex_digit n) ≡ some n
unfolding hex_value hex_digit
hex_value-hex_digit n h = ground arith

digit_apart : (n : ℕ) → n < 16 → (hex_digit n == hyphen) ≡ false
unfolding hex_digit
digit_apart n h = ground arith

strip-hex_bytes :
    (u rest : List ℕ) → All IsByte u → strip (hex_bytes u ++ rest) ≡ hex_bytes u ++ strip rest
unfolding strip hex_bytes
strip-hex_bytes [] rest h = refl
strip-hex_bytes (b ∷ bs) rest h =
    rw
      (
        digit_apart (b / 16) (omega (arith, h.0)),
        digit_apart (b % 16) (omega arith),
        strip-hex_bytes bs rest h.1,
      )
      refl

decode_step :
    (c d x y : ℕ) (s bytes : List ℕ)
    → hex_value c ≡ some x
    → hex_value d ≡ some y
    → decode_hex s ≡ some bytes
    → decode_hex (c ∷ d ∷ s) ≡ some ((x * 16 + y) ∷ bytes)
unfolding decode_hex
decode_step c d x y s bytes e0 e1 e2 = rw (decode_hex, e0, e1, e2) refl

decode_hex-hex_bytes : (u : List ℕ) → All IsByte u → decode_hex (hex_bytes u) ≡ some u
unfolding hex_bytes
decode_hex-hex_bytes [] h = unfold decode_hex in refl
decode_hex-hex_bytes (b ∷ bs) h =
    let e : b / 16 * 16 + b % 16 ≡ b = omega arith in
    decode_step (hex_digit (b / 16)) (hex_digit (b % 16)) (b / 16) (b % 16) (hex_bytes bs) bs
      (hex_value-hex_digit (b / 16) (omega (arith, h.0)))
      (hex_value-hex_digit (b % 16) (omega arith)) (decode_hex-hex_bytes bs h.1)
    ∙ ap (λ k. some (k ∷ bs)) e

length-hex_bytes : (u : List ℕ) → length (hex_bytes u) ≡ length u * 2
unfolding hex_bytes
length-hex_bytes [] = refl
length-hex_bytes (b ∷ bs) = omega (arith, length-hex_bytes bs)

hex_bytes-append : (u v : List ℕ) → hex_bytes (u ++ v) ≡ hex_bytes u ++ hex_bytes v
unfolding hex_bytes
hex_bytes-append [] v = refl
hex_bytes-append (b ∷ bs) v =
    ap (λ s. hex_digit (b / 16) ∷ hex_digit (b % 16) ∷ s) (hex_bytes-append bs v)

-- A part with its hyphen, before other text.
strip_part :
    (u v rest : List ℕ)
    → All IsByte u
    → strip rest ≡ hex_bytes v
    → strip (hex_bytes u ++ (hyphen ∷ rest)) ≡ hex_bytes (u ++ v)
unfolding strip
strip_part u v rest h e =
    strip-hex_bytes u (hyphen ∷ rest) h ∙ ap (λ s. hex_bytes u ++ s) e ∙ sym (hex_bytes-append u v)

strip_last : (u : List ℕ) → All IsByte u → strip (hex_bytes u) ≡ hex_bytes u
unfolding strip
strip_last u h =
    ap strip (sym (append-nil (hex_bytes u))) ∙ strip-hex_bytes u [] h ∙ append-nil (hex_bytes u)

-- A part of the bytes, before what comes behind it.
join : (n m : ℕ) (u v : List ℕ) → v ≡ drop (m + n) u → take n (drop m u) ++ v ≡ drop m u
join n m u v e =
    ap (λ r. take n (drop m u) ++ r) (e ∙ sym (drop-drop n m u)) ∙ append-take-drop n (drop m u)

strip-uuid_string :
    (u : List ℕ) → length u ≡ 16 → All IsByte u → strip (uuid_string u) ≡ hex_bytes u
unfolding uuid_string
strip-uuid_string u n h =
    let bytes = λ (k m : ℕ). All-take IsByte k (drop m u) (All-drop IsByte m u h) in
    let last = take-length 6 (drop 10 u) (omega (arith, length-drop 10 u)) in
    let p8 = join 2 8 u (take 6 (drop 10 u)) last in
    let p6 = join 2 6 u _ p8 in
    let p4 = join 2 4 u _ p6 in
    let p0 = join 4 0 u _ p4 in
    strip_part (take 4 u) _ _ (bytes 4 0) (
      strip_part (take 2 (drop 4 u)) _ _ (bytes 2 4) (
        strip_part (take 2 (drop 6 u)) _ _ (bytes 2 6) (
          strip_part (take 2 (drop 8 u)) _ _ (bytes 2 8)
            (strip_last (take 6 (drop 10 u)) (bytes 6 10)))))
    ∙ ap hex_bytes p0

uuid_string_nonempty : (u : List ℕ) → (length (uuid_string u) == 0) ≡ false
unfolding uuid_string
uuid_string_nonempty u = hyphen_inside (hex_bytes (take 4 u)) _
  where
    hyphen_inside : (a b : List ℕ) → (length (a ++ (hyphen ∷ b)) == 0) ≡ false
    hyphen_inside a b = let n = length-append a (hyphen ∷ b) in ground (arith, n)

-- The text that `String` makes of a UUID's sixteen bytes is parsed back to them.
pub parse_uuid-uuid_string :
    (u : List ℕ) → length u ≡ 16 → All IsByte u → parse_uuid (uuid_string u) ≡ ok u
unfolding parse_uuid
parse_uuid-uuid_string u n h =
    let stripped = strip-uuid_string u n h in
    let count : (length (strip (uuid_string u)) == 32) ≡ true =
      ap (λ s. length s == 32) stripped
      ∙ (==_iff _ 32).1 (length-hex_bytes u ∙ ap (λ k. k * 2) n) in
    let decoded = ap decode_hex stripped ∙ decode_hex-hex_bytes u h in
    rw (parse_uuid, uuid_string_nonempty u, count, decoded) refl
