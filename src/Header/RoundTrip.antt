-- ===== src/Header/RoundTrip.antt =====
-- `parse_header` and `encode_header` of header.go are inverse to one another.
use gozim.Base.{
  ℕ, zero, suc, ◌+◌, ◌≤◌, ◌≡◌, refl, sym, ap, ◌∙◌, ◌⊎◌, List, [], ◌∷◌, ◌++◌, length, take, drop,
  get_or, All, All-take, All-drop, append-take-drop, length-take, length-drop, ok, arith,
}
use mathlib.Core.Path.{subst}
use gozim.Base.Bytes.{IsByte, put_le, le_value, le_value-put_le, put_le-le_value}
use gozim.Format.{magic, major_version, old_major_version}
use gozim.Header.{Header, InRange, parse_header, encode_header, read_header}
use gozim.Header.Checks.{parse_header-read_header, parse_header_iff}

-- A list of `n` elements, spelled out.
abbrev explode : ℕ → List ℕ → List ℕ
explode zero u = []
explode (suc n) u = get_or u 0 0 ∷ explode n (drop 1 u)

explode_lem : (n : ℕ) (u : List ℕ) → length u ≡ n → explode n u ≡ u
explode_lem zero [] h = refl
explode_lem zero (x ∷ u) h = absurd (omega arith)
explode_lem (suc n) [] h = absurd (omega arith)
explode_lem (suc n) (x ∷ u) h = ap (◌∷◌ x) (explode_lem n u (omega arith))

abbrev spelled : Header → Header
spelled h = record h { uuid = explode 16 h.uuid }

spelled_lem : (h : Header) → InRange h → spelled h ≡ h
spelled_lem h r = λ i. record h { uuid = explode_lem 16 h.uuid r.uuid i }

read_spelled : (h : Header) → InRange h → read_header (encode_header (spelled h)) ≡ spelled h
unfolding encode_header
read_spelled h r = λ i. record {
  magic_number = le_value-put_le 4 h.magic_number r.magic_number i;
  major = le_value-put_le 2 h.major r.major i;
  minor = le_value-put_le 2 h.minor r.minor i;
  uuid = explode 16 h.uuid;
  entry_count = le_value-put_le 4 h.entry_count r.entry_count i;
  cluster_count = le_value-put_le 4 h.cluster_count r.cluster_count i;
  url_ptr_pos = le_value-put_le 8 h.url_ptr_pos r.url_ptr_pos i;
  title_idx_pos = le_value-put_le 8 h.title_idx_pos r.title_idx_pos i;
  cluster_ptr_pos = le_value-put_le 8 h.cluster_ptr_pos r.cluster_ptr_pos i;
  mime_list_pos = le_value-put_le 8 h.mime_list_pos r.mime_list_pos i;
  main_page = le_value-put_le 4 h.main_page r.main_page i;
  layout_page = le_value-put_le 4 h.layout_page r.layout_page i;
  checksum_pos = le_value-put_le 8 h.checksum_pos r.checksum_pos i;
}

pub read_header-encode_header : (h : Header) → InRange h → read_header (encode_header h) ≡ h
read_header-encode_header h r = rw (spelled_lem h r) at (read_spelled h r)

length-spelled : (h : Header) → length (encode_header (spelled h)) ≡ 80
unfolding encode_header
length-spelled h = refl

pub length-encode_header : (h : Header) → InRange h → length (encode_header h) ≡ 80
length-encode_header h r = rw (spelled_lem h r) at (length-spelled h)

-- A header with the magic number and a known major version, its fields in the range of their Go
-- types, is encoded in 80 bytes, and `parse_header` reads it back unchanged.
pub parse_header-encode_header :
    (h : Header)
    → InRange h
    → h.magic_number ≡ magic
    → (h.major ≡ major_version) ⊎ (h.major ≡ old_major_version)
    → (parse_header (encode_header h) ≡ ok h) × (length (encode_header h) ≡ 80)
parse_header-encode_header h r m v = (
  parse_header-read_header (encode_header h) h (read_header-encode_header h r)
      (omega (arith, length-encode_header h r)) m v,
  length-encode_header h r,
)

piece :
    (buf : List ℕ)
    → All IsByte buf
    → 80 ≤ length buf
    → (from w : ℕ) → from + w ≤ 80
    → put_le w (le_value (take w (drop from buf))) ≡ take w (drop from buf)
piece buf b h from w fits =
    put_le-le_value w _ (omega (arith, length-take w (drop from buf), length-drop from buf))
      (All-take IsByte w _ (All-drop IsByte from buf b))

-- The thirteen fields one after the other.
abbrev layout : Header → List ℕ
layout h =
    put_le 4 h.magic_number
    ++ put_le 2 h.major
    ++ put_le 2 h.minor
    ++ h.uuid
    ++ put_le 4 h.entry_count
    ++ put_le 4 h.cluster_count
    ++ put_le 8 h.url_ptr_pos
    ++ put_le 8 h.title_idx_pos
    ++ put_le 8 h.cluster_ptr_pos
    ++ put_le 8 h.mime_list_pos
    ++ put_le 4 h.main_page
    ++ put_le 4 h.layout_page
    ++ put_le 8 h.checksum_pos

encode_layout : (h : Header) → encode_header (spelled h) ≡ layout (spelled h)
unfolding encode_header
encode_layout h = refl

layout_exploded :
    (buf : List ℕ)
    → ((from w : ℕ)
        → from + w ≤ 80
        → put_le w (le_value (take w (drop from (explode 80 buf))))
          ≡ take w (drop from (explode 80 buf)))
    → layout (read_header (explode 80 buf)) ≡ explode 80 buf
layout_exploded buf p = λ i.
    p 0 4 (omega arith) i
    ++ p 4 2 (omega arith) i
    ++ p 6 2 (omega arith) i
    ++ take 16 (drop 8 (explode 80 buf))
    ++ p 24 4 (omega arith) i
    ++ p 28 4 (omega arith) i
    ++ p 32 8 (omega arith) i
    ++ p 40 8 (omega arith) i
    ++ p 48 8 (omega arith) i
    ++ p 56 8 (omega arith) i
    ++ p 64 4 (omega arith) i
    ++ p 68 4 (omega arith) i
    ++ p 72 8 (omega arith) i

explode-take : (n : ℕ) (u : List ℕ) → n ≤ length u → explode n u ≡ take n u
explode-take zero u h = refl
explode-take (suc n) [] h = absurd (omega arith)
explode-take (suc n) (x ∷ u) h = ap (◌∷◌ x) (explode-take n u (omega arith))

-- Only the first 80 bytes are read.
read_header-explode :
    (buf : List ℕ) → 80 ≤ length buf → read_header buf ≡ read_header (explode 80 buf)
read_header-explode buf h =
    ap read_header
      (sym (ap (λ l. l ++ drop 80 buf) (explode-take 80 buf h) ∙ append-take-drop 80 buf))

encode_front :
    (buf : List ℕ)
    → All IsByte buf
    → 80 ≤ length buf
    → encode_header (read_header (explode 80 buf)) ≡ take 80 buf
encode_front buf b h =
    encode_layout (read_header (explode 80 buf))
    ∙ layout_exploded buf (piece (explode 80 buf) bytes (omega arith))
    ∙ front
  where
    front : explode 80 buf ≡ take 80 buf
    front = explode-take 80 buf h

    bytes : All IsByte (explode 80 buf)
    bytes = subst (All IsByte) (sym front) (All-take IsByte 80 buf b)

-- Of any bytes that `parse_header` accepts, `encode_header` gives back the first 80.
pub encode_header-parse_header :
    (buf : List ℕ) (h : Header)
    → All IsByte buf
    → parse_header buf ≡ ok h
    → encode_header h ≡ take 80 buf
encode_header-parse_header buf h b e =
    let (r, f) = (parse_header_iff buf h).0 e in
    ap encode_header (sym f ∙ read_header-explode buf r.long) ∙ encode_front buf b r.long
