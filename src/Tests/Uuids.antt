-- ===== src/Tests/Uuids.antt =====
-- archive/zim/uuid.go on a small input.
use gozim.Base.{ℕ, zero, suc, ◌≡◌, refl, List, ◌∷◌, replicate, ok, All, arith}
use gozim.Base.Bytes.{IsByte}
use gozim.Uuid.{parse_uuid, uuid_string}
use gozim.Uuid.RoundTrip.{parse_uuid-uuid_string}

abbrev uuid : List ℕ
uuid = 0xab ∷ 0x10 ∷ replicate 14 7

sevens-IsByte : (n : ℕ) → All IsByte (replicate n 7)
sevens-IsByte zero = tt
sevens-IsByte (suc n) = (omega arith, sevens-IsByte n)

uuid-IsByte : All IsByte uuid
uuid-IsByte = (omega arith, (omega arith, sevens-IsByte 14))

parse_uuid-uuid_string_example : parse_uuid (uuid_string uuid) ≡ ok uuid
parse_uuid-uuid_string_example = parse_uuid-uuid_string uuid refl uuid-IsByte
