-- ===== src/Tests/Layout.antt =====
-- archive/zim: header.go, mime.go and dirent.go on small inputs.
use gozim.Base.{
  ℕ, ◌<◌, ◌≡◌, ◌≢◌, ◌↔◌, refl, inl, List, [], ◌∷◌, ◌++◌, length, take, All, Error, ok, err, Bool,
  true, ltb, ◌&&◌, some, none, arith, replicate,
}
use gozim.Format.{magic}
use gozim.Header.{
  Header, InRange, parse_header, validate, encode_header, has_checksum, has_main_page,
  has_layout_page, has_title_index,
}
use gozim.Header.Checks.{IsSound, validate_iff}
use gozim.Header.RoundTrip.{parse_header-encode_header, encode_header-parse_header}
use gozim.Mime.{MimeList, mime_type, index, mime_len, add}
use gozim.Mime.RoundTrip.{IsName}
use gozim.Mime.Lookup.{add_lem}
use gozim.Dirent.{Dirent, EntryType, parse_dirent, encode_dirent, fixed_len, put_target}
use gozim.Dirent.Parse.{IsWellFormed}
use gozim.Dirent.RoundTrip.{parse_dirent-encode_dirent}
use gozim.Base.Bytes.{IsByte, put_le, le_value, put_bytes}

unfoldable all_small : List ℕ → Bool
all_small [] = true
all_small (b ∷ bs) = ltb b 256 && all_small bs

all_small-IsByte : (bs : List ℕ) → all_small bs ≡ true → All IsByte bs
unfolding all_small
all_small-IsByte [] h = tt
all_small-IsByte (b ∷ bs) h = (ground arith, all_small-IsByte bs (ground arith))

-- two entries and a cluster in a file of 300 bytes
abbrev small : Header
small = record {
  magic_number = magic;
  major = 6;
  minor = 3;
  uuid = replicate 16 7;
  entry_count = 2;
  cluster_count = 1;
  url_ptr_pos = 100;
  title_idx_pos = 116;
  cluster_ptr_pos = 124;
  mime_list_pos = 80;
  main_page = 0;
  layout_page = 0xffff_ffff;
  checksum_pos = 284;
}

small-InRange : InRange small
small-InRange = record {
  magic_number = omega arith;
  major = omega arith;
  minor = omega arith;
  uuid = refl;
  entry_count = omega arith;
  cluster_count = omega arith;
  url_ptr_pos = omega arith;
  title_idx_pos = omega arith;
  cluster_ptr_pos = omega arith;
  mime_list_pos = omega arith;
  main_page = omega arith;
  layout_page = omega arith;
  checksum_pos = omega arith;
}

parse_header-encode_header_example :
    (parse_header (encode_header small) ≡ ok small) × (length (encode_header small) ≡ 80)
parse_header-encode_header_example = parse_header-encode_header small small-InRange refl (inl refl)

small-bytes : All IsByte (encode_header small ++ (1 ∷ 2 ∷ []))
unfolding all_small encode_header put_le put_bytes
small-bytes = all_small-IsByte (encode_header small ++ (1 ∷ 2 ∷ [])) refl

small-parsed : parse_header (encode_header small ++ (1 ∷ 2 ∷ [])) ≡ ok small
unfolding parse_header encode_header put_le put_bytes le_value
small-parsed = refl

encode_header-parse_header_example :
    encode_header small ≡ take 80 (encode_header small ++ (1 ∷ 2 ∷ []))
encode_header-parse_header_example =
    encode_header-parse_header (encode_header small ++ (1 ∷ 2 ∷ [])) small small-bytes small-parsed

validate_iff_example : (validate small 300 ≡ ok tt) ↔ IsSound small 300
validate_iff_example = validate_iff small 300

small_sound : (validate small 300 ≡ ok tt) × (validate small 284 ≡ err Error.format)
unfolding validate has_checksum has_main_page has_layout_page has_title_index
small_sound = (refl, refl)

-- "ab" and "c"
abbrev names : MimeList
names = record { entries = (97 ∷ 98 ∷ []) ∷ (99 ∷ []) ∷ [] }

names-IsName : All IsName names.entries
names-IsName = (
  record { nonempty = ground arith; no_zero = (ground arith, (ground arith, tt)) },
  (record { nonempty = ground arith; no_zero = (ground arith, tt) }, tt),
)

add_lem_example :
    (mime_type (add names (100 ∷ [])).0 (add names (100 ∷ [])).1 ≡ 100 ∷ [])
    × (index (add names (100 ∷ [])).0 (100 ∷ []) ≡ some (add names (100 ∷ [])).1)
    × ((k : ℕ) → k < mime_len names → mime_type (add names (100 ∷ [])).0 k ≡ mime_type names k)
    × (index names (100 ∷ []) ≢ none → (add names (100 ∷ [])).0 ≡ names)
unfolding mime_len
add_lem_example = add_lem names (100 ∷ []) (omega arith)

-- a content entry with two extra bytes
abbrev page : Dirent
page = record {
  mime_type_index = 1;
  namespace = b'C';
  entry_type = EntryType.content;
  version = 0;
  cluster_number = 3;
  blob_number = 300;
  redirect_index = 0;
  path = 97 ∷ 98 ∷ [];
  title = [];
  extra = 0 ∷ 255 ∷ [];
}

page-IsWellFormed : IsWellFormed page
page-IsWellFormed = record {
  mime = omega arith;
  namespace = omega arith;
  version = omega arith;
  cluster = omega arith;
  blob = omega arith;
  redirect = omega arith;
  path = (ground arith, (ground arith, tt));
  title = tt;
  extra = omega arith;
  type = refl;
  unused = refl;
}

parse_dirent-encode_dirent_example :
    parse_dirent (encode_dirent page ++ (1 ∷ 2 ∷ [])) ≡ ok (page, length (encode_dirent page))
parse_dirent-encode_dirent_example = parse_dirent-encode_dirent page (1 ∷ 2 ∷ []) page-IsWellFormed

page-size : length (encode_dirent page) ≡ 22
unfolding encode_dirent put_le put_bytes fixed_len put_target
page-size = refl
