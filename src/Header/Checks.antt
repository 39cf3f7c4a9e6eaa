-- ===== src/Header/Checks.antt =====
-- What `parse_header` and `validate` of header.go accept.
use gozim.Base.{
  ℕ, ◌≤◌, ◌<◌, ◌≡◌, ◌≢◌, ◌⊎◌, ◌↔◌, sym, ap, ◌∙◌, false, List, length, ok, arith, ltb, leb, ◌==◌,
  not, ◌&&◌, fail_if-eq-ok,
}
use mathlib.Core.Path.{subst}
use gozim.Format.{magic, major_version, old_major_version, header_size}
use gozim.Header.{Header, none32, none64, read_header, parse_header, validate}

abbrev KnownMajor : Header → Type 0
KnownMajor h = (h.major ≡ major_version) ⊎ (h.major ≡ old_major_version)

-- The bytes of an acceptable header.
pub record IsHeader (buf : List ℕ) : Type 0 where
  pub long : header_size ≤ length buf
  pub magic_number : (read_header buf).magic_number ≡ magic
  pub major : KnownMajor (read_header buf)

long_lem : (n k : ℕ) → (ltb n k ≡ false) ↔ (k ≤ n)
long_lem n k = ground arith

not_eq_lem : (a b : ℕ) → (not (a == b) ≡ false) ↔ (a ≡ b)
not_eq_lem a b = ground arith

major_lem : (m a b : ℕ) → ((not (m == a) && not (m == b)) ≡ false) ↔ ((m ≡ a) ⊎ (m ≡ b))
major_lem m a b = ground arith

parse_of_IsHeader : (buf : List ℕ) → IsHeader buf → parse_header buf ≡ ok (read_header buf)
unfolding parse_header
parse_of_IsHeader buf r = rw (
  (long_lem (length buf) header_size).1 r.long,
  (not_eq_lem (read_header buf).magic_number magic).1 r.magic_number,
  (major_lem (read_header buf).major major_version old_major_version).1 r.major,
)

IsHeader-of_parse :
    (buf : List ℕ) (h : Header) → parse_header buf ≡ ok h → IsHeader buf × (read_header buf ≡ h)
unfolding parse_header
IsHeader-of_parse buf h e =
    let a = fail_if-eq-ok _ _ _ e in
    let b = fail_if-eq-ok _ _ _ a.1 in
    let c = fail_if-eq-ok _ _ _ b.1 in
    (
      record {
        long = (long_lem _ _).0 a.0;
        magic_number = (not_eq_lem _ _).0 b.0;
        major = (major_lem _ _ _).0 c.0;
      },
      cc c.1,
    )

-- `parse_header` accepts exactly the byte lists of at least 80 bytes that begin with the magic
-- number and have major version 5 or 6, and what it returns are the fields read at their offsets.
pub parse_header_iff :
    (buf : List ℕ) (h : Header) → (parse_header buf ≡ ok h) ↔ (IsHeader buf × (read_header buf ≡ h))
parse_header_iff buf h = (IsHeader-of_parse buf h, λ r. rw (parse_of_IsHeader buf r.0, r.1))

pub parse_header-read_header :
    (buf : List ℕ) (h : Header)
    → read_header buf ≡ h
    → header_size ≤ length buf
    → h.magic_number ≡ magic
    → KnownMajor h
    → parse_header buf ≡ ok h
parse_header-read_header buf h e l m v = (parse_header_iff buf h).1 (
  record {
    long = l;
    magic_number = ap (λ x. x.magic_number) e ∙ m;
    major = subst KnownMajor (sym e) v;
  },
  e,
)

-- What the offsets and indices of an acceptable header satisfy in a file of `size` bytes.
pub record IsSound (h : Header) (size : ℕ) : Type 0 where
  pub entries : h.entry_count ≢ 0
  pub clusters : h.cluster_count ≢ 0
  pub url : h.url_ptr_pos < size
  pub title : h.title_idx_pos ≢ none64 → h.title_idx_pos < size
  pub cluster : h.cluster_ptr_pos < size
  pub mime : h.mime_list_pos < size
  pub main : h.main_page ≢ none32 → h.main_page < h.entry_count
  pub layout : h.layout_page ≢ none32 → h.layout_page < h.entry_count
  pub checksum : header_size ≤ h.mime_list_pos → h.checksum_pos ≢ 0 → h.checksum_pos < size

zero_lem : (a : ℕ) → ((a == 0) ≡ false) ↔ (a ≢ 0)
zero_lem a = ground arith

below_lem : (n a : ℕ) → (leb n a ≡ false) ↔ (a < n)
below_lem n a = ground arith

unless_lem :
    (a sentinel n : ℕ) → ((not (a == sentinel) && leb n a) ≡ false) ↔ (a ≢ sentinel → a < n)
unless_lem a s n = (λ h k. ground arith, λ h. ground (arith, h))

checksum_lem :
    (m c n : ℕ)
    → (((leb header_size m && ltb 0 c) && leb n c) ≡ false) ↔ (header_size ≤ m → c ≢ 0 → c < n)
checksum_lem m c n = (λ h k l. ground arith, λ h. ground (arith, h))

IsSound-of_validate : (h : Header) (n : ℕ) → validate h n ≡ ok tt → IsSound h n
unfolding validate
IsSound-of_validate h n e =
    let a = fail_if-eq-ok _ _ _ e in
    let b = fail_if-eq-ok _ _ _ a.1 in
    let c = fail_if-eq-ok _ _ _ b.1 in
    let d = fail_if-eq-ok _ _ _ c.1 in
    let f = fail_if-eq-ok _ _ _ d.1 in
    let g = fail_if-eq-ok _ _ _ f.1 in
    let i = fail_if-eq-ok _ _ _ g.1 in
    let j = fail_if-eq-ok _ _ _ i.1 in
    let k = fail_if-eq-ok _ _ _ j.1 in
    record {
      entries = (zero_lem _).0 a.0;
      clusters = (zero_lem _).0 b.0;
      url = (below_lem _ _).0 c.0;
      title = (unless_lem _ none64 _).0 d.0;
      cluster = (below_lem _ _).0 f.0;
      mime = (below_lem _ _).0 g.0;
      main = (unless_lem _ none32 _).0 i.0;
      layout = (unless_lem _ none32 _).0 j.0;
      checksum = (checksum_lem _ _ _).0 k.0;
    }

validate_of_sound : (h : Header) (n : ℕ) → IsSound h n → validate h n ≡ ok tt
unfolding validate
validate_of_sound h n s = rw (
  (zero_lem h.entry_count).1 s.entries,
  (zero_lem h.cluster_count).1 s.clusters,
  (below_lem n h.url_ptr_pos).1 s.url,
  (unless_lem h.title_idx_pos none64 n).1 s.title,
  (below_lem n h.cluster_ptr_pos).1 s.cluster,
  (below_lem n h.mime_list_pos).1 s.mime,
  (unless_lem h.main_page none32 h.entry_count).1 s.main,
  (unless_lem h.layout_page none32 h.entry_count).1 s.layout,
  (checksum_lem h.mime_list_pos h.checksum_pos n).1 s.checksum,
)

-- `validate` returns no error exactly when the counts are positive and every position and page
-- that is present lies within the file or the entries.
pub validate_iff : (h : Header) (n : ℕ) → (validate h n ≡ ok tt) ↔ IsSound h n
validate_iff h n = (IsSound-of_validate h n, validate_of_sound h n)
