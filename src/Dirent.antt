-- ===== src/Dirent.antt =====
-- archive/zim/dirent.go: one directory entry of variable length.
pub mod RoundTrip
pub mod Parse
mod Encode
use gozim.Base.{
  ℕ, zero, suc, ◌+◌, ◌-◌, ◌%◌, ◌≤◌, ◌<◌, ◌≡◌, Bool, true, false, List, [], ◌∷◌, length, take, drop,
  replicate, ltb, ◌==◌, if◌then◌else◌, Error, Result, ok, err, panic, ◌>>=◌, ◌>>◌, fail_if, All,
}
use gozim.Base.Bytes.{IsByte, put_le, le_value, put_bytes}
use gozim.Format.{mime_redirect, mime_link_target, mime_deleted, U8, U16, U32}

pub data EntryType : Type 0 where
  content redirect link_target deleted : EntryType

pub record Dirent : Type 0 where
  pub mime_type_index : ℕ
  pub namespace : ℕ
  pub entry_type : EntryType
  pub version : ℕ
  pub cluster_number : ℕ
  pub blob_number : ℕ
  pub redirect_index : ℕ
  pub path : List ℕ
  pub title : List ℕ
  pub extra : List ℕ

unfoldable pub is_redirect : Dirent → Bool
is_redirect d = elim d.entry_type [ EntryType.redirect ↦ true | _ ↦ false ]

unfoldable pub is_link_target : Dirent → Bool
is_link_target d = elim d.entry_type [ EntryType.link_target ↦ true | _ ↦ false ]

unfoldable pub is_deleted : Dirent → Bool
is_deleted d = elim d.entry_type [ EntryType.deleted ↦ true | _ ↦ false ]

unfoldable pub is_content : Dirent → Bool
is_content d = elim d.entry_type [ EntryType.content ↦ true | _ ↦ false ]

-- `readNullTerminated`: the bytes before the first zero, and how many bytes that took.
unfoldable pub read_null_terminated : List ℕ → Result (List ℕ × ℕ)
read_null_terminated [] = err Error.format
read_null_terminated (b ∷ bs) =
    if b == 0 then ok ([], 1) else (do (s, n) ← read_null_terminated bs; ok (b ∷ s, n + 1))

-- `data[offset : offset+4]` as a number
abbrev u32_at : List ℕ → ℕ → ℕ
u32_at buf offset = le_value (take 4 (drop offset buf))

-- What the `switch` on the MIME index fills in.
pub record Target : Type 0 where
  pub entry_type : EntryType
  pub cluster_number : ℕ
  pub blob_number : ℕ
  pub redirect_index : ℕ
  pub offset : ℕ

abbrev blob_target : EntryType → List ℕ → Result Target
blob_target t buf = do
  fail_if (ltb (length buf) (8 + 8)) Error.format
  ok (record {
    entry_type = t;
    cluster_number = u32_at buf 8;
    blob_number = u32_at buf 12;
    redirect_index = 0;
    offset = 16;
  })

abbrev redirect_target : List ℕ → Result Target
redirect_target buf = do
  fail_if (ltb (length buf) (8 + 4)) Error.format
  ok (record {
    entry_type = EntryType.redirect;
    cluster_number = 0;
    blob_number = 0;
    redirect_index = u32_at buf 8;
    offset = 12;
  })

unfoldable pub parse_target : ℕ → List ℕ → Result Target
parse_target mime buf =
    if mime == mime_redirect
    then redirect_target buf
    else if mime == mime_link_target
    then blob_target EntryType.link_target buf
    else if mime == mime_deleted
    then blob_target EntryType.deleted buf
    else blob_target EntryType.content buf

-- The extra parameter bytes: what they are, and the offset behind them.
unfoldable pub parse_extra : ℕ → ℕ → List ℕ → Result (List ℕ × ℕ)
parse_extra extra_len offset buf =
    if ltb 0 extra_len
    then (do
      fail_if (ltb (length buf) (offset + extra_len)) Error.format
      ok (take extra_len (drop offset buf), offset + extra_len))
    else ok ([], offset)

-- `ParseDirent`: the entry and the number of bytes consumed.
unfoldable pub parse_dirent : List ℕ → Result (Dirent × ℕ)
parse_dirent buf = do
  fail_if (ltb (length buf) 12) Error.format
  let mime = le_value (take 2 buf)
  let extra_len = le_value (take 1 (drop 2 buf))
  t ← parse_target mime buf
  (path, path_len) ← read_null_terminated (drop t.offset buf)
  (title, title_len) ← read_null_terminated (drop (t.offset + path_len) buf)
  (extra, end) ← parse_extra extra_len (t.offset + path_len + title_len) buf
  ok (
    record {
      mime_type_index = mime;
      namespace = le_value (take 1 (drop 3 buf));
      entry_type = t.entry_type;
      version = u32_at buf 4;
      cluster_number = t.cluster_number;
      blob_number = t.blob_number;
      redirect_index = t.redirect_index;
      path = path;
      title = title;
      extra = extra;
    },
    end,
  )

-- `fixedLen`
unfoldable pub fixed_len : EntryType → ℕ
fixed_len EntryType.redirect = 12
fixed_len _ = 16

-- The second `switch` of `EncodeDirent`.
unfoldable pub put_target : List ℕ → Dirent → EntryType → List ℕ
put_target buf d EntryType.redirect = put_bytes buf 8 (put_le 4 d.redirect_index)
put_target buf d _ =
    put_bytes (put_bytes buf 8 (put_le 4 d.cluster_number)) 12 (put_le 4 d.blob_number)

unfoldable pub encode_dirent : Dirent → List ℕ
encode_dirent d =
    let total =
      fixed_len d.entry_type + (length d.path + 1) + (length d.title + 1) + length d.extra in
    let buf = replicate total 0 in
    let buf = put_bytes buf 0 (put_le 2 d.mime_type_index) in
    let buf = put_bytes buf 2 (length d.extra % 256 ∷ []) in
    let buf = put_bytes buf 3 (d.namespace ∷ []) in
    let buf = put_bytes buf 4 (put_le 4 d.version) in
    let buf = put_target buf d d.entry_type in
    let offset = fixed_len d.entry_type in
    let buf = put_bytes buf offset d.path in
    let offset = offset + length d.path in
    let buf = put_bytes buf offset (0 ∷ []) in
    let offset = offset + 1 in
    let buf = put_bytes buf offset d.title in
    let offset = offset + length d.title in
    let buf = put_bytes buf offset (0 ∷ []) in
    let offset = offset + 1 in put_bytes buf offset d.extra
