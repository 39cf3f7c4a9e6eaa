-- ===== src/Header.antt =====
-- archive/zim/header.go: the 80-byte file header.
pub mod RoundTrip
pub mod Checks
use gozim.Base.{
  ℕ, ◌+◌, ◌≤◌, ◌<◌, ◌≡◌, Bool, true, false, not, ◌||◌, ◌&&◌, List, ◌∷◌, length, take, drop,
  replicate, ltb, leb, ◌==◌, if◌then◌else◌, Error, Result, ok, err, panic, ◌>>=◌, ◌>>◌, fail_if,
}
use gozim.Base.Bytes.{put_le, le_value, put_bytes}
use gozim.Format.{
  magic, major_version, minor_version, old_major_version, header_size, U8, U16, U32, U64,
}

abbrev none32 : ℕ
none32 = 0xffff_ffff

abbrev none64 : ℕ
none64 = 0xffff_ffff_ffff_ffff

pub record Header : Type 0 where
  pub magic_number : ℕ
  pub major : ℕ
  pub minor : ℕ
  pub uuid : List ℕ
  pub entry_count : ℕ
  pub cluster_count : ℕ
  pub url_ptr_pos : ℕ
  pub title_idx_pos : ℕ
  pub cluster_ptr_pos : ℕ
  pub mime_list_pos : ℕ
  pub main_page : ℕ
  pub layout_page : ℕ
  pub checksum_pos : ℕ

-- `buf[from:to]` where `from + w` is `to`.
abbrev pub field : List ℕ → ℕ → ℕ → ℕ
field buf from w = le_value (take w (drop from buf))

abbrev pub read_header : List ℕ → Header
read_header buf = record {
  magic_number = field buf 0 4;
  major = field buf 4 2;
  minor = field buf 6 2;
  uuid = take 16 (drop 8 buf);
  entry_count = field buf 24 4;
  cluster_count = field buf 28 4;
  url_ptr_pos = field buf 32 8;
  title_idx_pos = field buf 40 8;
  cluster_ptr_pos = field buf 48 8;
  mime_list_pos = field buf 56 8;
  main_page = field buf 64 4;
  layout_page = field buf 68 4;
  checksum_pos = field buf 72 8;
}

unfoldable pub parse_header : List ℕ → Result Header
parse_header buf = do
  fail_if (ltb (length buf) header_size) Error.format
  fail_if (not (field buf 0 4 == magic)) Error.format
  let h = read_header buf
  fail_if (not (h.major == major_version) && not (h.major == old_major_version))
      Error.unsupported_version
  ok h

unfoldable pub has_checksum : Header → Bool
has_checksum h = leb header_size h.mime_list_pos && ltb 0 h.checksum_pos

unfoldable pub has_new_namespace_scheme : Header → Bool
has_new_namespace_scheme h = leb major_version h.major && leb 1 h.minor

unfoldable pub has_title_index : Header → Bool
has_title_index h = not (h.title_idx_pos == none64)

unfoldable pub has_main_page : Header → Bool
has_main_page h = not (h.main_page == none32)

unfoldable pub has_layout_page : Header → Bool
has_layout_page h = not (h.layout_page == none32)

-- `uint64(fileSize)`; the size of a file is not negative.
unfoldable pub validate : Header → ℕ → Result (Unit {0})
unfolding has_checksum has_title_index has_main_page has_layout_page
validate h file_size = do
  fail_if (h.entry_count == 0) Error.format
  fail_if (h.cluster_count == 0) Error.format
  fail_if (leb file_size h.url_ptr_pos) Error.format
  fail_if (has_title_index h && leb file_size h.title_idx_pos) Error.format
  fail_if (leb file_size h.cluster_ptr_pos) Error.format
  fail_if (leb file_size h.mime_list_pos) Error.format
  fail_if (has_main_page h && leb h.entry_count h.main_page) Error.format
  fail_if (has_layout_page h && leb h.entry_count h.layout_page) Error.format
  fail_if (has_checksum h && leb file_size h.checksum_pos) Error.format
  ok tt

-- Each line writes into `buf[from:to]` of a buffer of 80 zeros.
unfoldable pub encode_header : Header → List ℕ
unfolding put_le put_bytes
encode_header h =
    let buf = replicate header_size 0 in
    let buf = put_bytes buf 0 (put_le 4 h.magic_number) in
    let buf = put_bytes buf 4 (put_le 2 h.major) in
    let buf = put_bytes buf 6 (put_le 2 h.minor) in
    let buf = put_bytes buf 8 h.uuid in
    let buf = put_bytes buf 24 (put_le 4 h.entry_count) in
    let buf = put_bytes buf 28 (put_le 4 h.cluster_count) in
    let buf = put_bytes buf 32 (put_le 8 h.url_ptr_pos) in
    let buf = put_bytes buf 40 (put_le 8 h.title_idx_pos) in
    let buf = put_bytes buf 48 (put_le 8 h.cluster_ptr_pos) in
    let buf = put_bytes buf 56 (put_le 8 h.mime_list_pos) in
    let buf = put_bytes buf 64 (put_le 4 h.main_page) in
    let buf = put_bytes buf 68 (put_le 4 h.layout_page) in
    put_bytes buf 72 (put_le 8 h.checksum_pos)

-- What the field types of `Header` say: the unsigned widths and the 16-byte array.
pub record InRange (h : Header) : Type 0 where
  pub magic_number : U32 h.magic_number
  pub major : U16 h.major
  pub minor : U16 h.minor
  pub uuid : length h.uuid ≡ 16
  pub entry_count : U32 h.entry_count
  pub cluster_count : U32 h.cluster_count
  pub url_ptr_pos : U64 h.url_ptr_pos
  pub title_idx_pos : U64 h.title_idx_pos
  pub cluster_ptr_pos : U64 h.cluster_ptr_pos
  pub mime_list_pos : U64 h.mime_list_pos
  pub main_page : U32 h.main_page
  pub layout_page : U32 h.layout_page
  pub checksum_pos : U64 h.checksum_pos

-- A new file: version 6.3, the MIME list behind the header, all else zero or "none".
unfoldable pub new_header : Header
new_header = record {
  magic_number = magic;
  major = major_version;
  minor = minor_version;
  uuid = replicate 16 0;
  entry_count = 0;
  cluster_count = 0;
  url_ptr_pos = 0;
  title_idx_pos = none64;
  cluster_ptr_pos = 0;
  mime_list_pos = header_size;
  main_page = none32;
  layout_page = none32;
  checksum_pos = 0;
}
