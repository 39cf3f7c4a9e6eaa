-- ===== src/Uuid.antt =====
-- archive/zim/uuid.go: the text form of a UUID.
pub mod RoundTrip
use gozim.Base.{
  ℕ, ◌+◌, ◌-◌, ◌*◌, ◌/◌, ◌%◌, ◌≤◌, ◌<◌, Bool, true, false, not, ◌&&◌, List, [], ◌∷◌, ◌++◌, length,
  take, drop, replicate, ltb, leb, ◌==◌, if◌then◌else◌, Option, none, some, Error, Result, ok, err,
  panic, ◌>>=◌, ◌>>◌, fail_if,
}

abbrev pub hyphen : ℕ
hyphen = b'-'

-- The bytes that are not hyphens
unfoldable pub strip : List ℕ → List ℕ
strip [] = []
strip (c ∷ s) = if c == hyphen then strip s else c ∷ strip s

-- A digit of package encoding/hex: of either case.
unfoldable pub hex_value : ℕ → Option ℕ
hex_value c =
    if leb b'0' c && leb c b'9'
    then some (c - b'0')
    else if leb b'a' c && leb c b'f'
    then some (c - b'a' + 10)
    else if leb b'A' c && leb c b'F'
    then some (c - b'A' + 10)
    else none

-- `hex.Decode`: two digits for each byte, the higher first.
unfoldable pub decode_hex : List ℕ → Option (List ℕ)
unfolding hex_value
decode_hex [] = some []
decode_hex (c ∷ []) = none
decode_hex (c ∷ d ∷ s) = elim (hex_value c) [
  | none ↦ none
  | some high ↦ elim (hex_value d) [
    | none ↦ none
    | some low ↦ elim (decode_hex s) [ none ↦ none | some bytes ↦ some ((high * 16 + low) ∷ bytes) ]
  ]
]

-- `ParseUuid`
unfoldable pub parse_uuid : List ℕ → Result (List ℕ)
unfolding strip decode_hex
parse_uuid s = if length s == 0 then ok (replicate 16 0) else (do
  let stripped = strip s
  fail_if (not (length stripped == 32)) Error.plain
  elim (decode_hex stripped) [ none ↦ err Error.plain | some uuid ↦ ok uuid ])

unfoldable pub hex_digit : ℕ → ℕ
hex_digit n = if ltb n 10 then b'0' + n else b'a' + (n - 10)

-- `%x` of bytes; the widths of `String` are those of the parts.
unfoldable pub hex_bytes : List ℕ → List ℕ
unfolding hex_digit
hex_bytes [] = []
hex_bytes (b ∷ bs) = hex_digit (b / 16) ∷ hex_digit (b % 16) ∷ hex_bytes bs

-- `Uuid.String`
unfoldable pub uuid_string : List ℕ → List ℕ
unfolding hex_bytes
uuid_string u =
    hex_bytes (take 4 u)
    ++ (hyphen
        ∷ (hex_bytes (take 2 (drop 4 u))
            ++ (hyphen
                ∷ (hex_bytes (take 2 (drop 6 u))
                    ++ (hyphen
                        ∷ (hex_bytes (take 2 (drop 8 u))
                            ++ (hyphen ∷ hex_bytes (take 6 (drop 10 u)))))))))

-- `Uuid.IsZero`
unfoldable pub is_zero : List ℕ → Bool
is_zero [] = true
is_zero (b ∷ bs) = if b == 0 then is_zero bs else false
