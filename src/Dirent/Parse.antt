-- ===== src/Dirent/Parse.antt =====
-- `parse_dirent` step by step, and what it accepts.
use gozim.Base.{
  ℕ, ◌+◌, ◌≤◌, ◌<◌, ◌≡◌, ◌≢◌, List, length, take, drop, All, Result, ok, if◌then◌else◌, ◌==◌,
  le→ltb, Bool-cases, inl, inr,
}
use gozim.Base.Bytes.{le_value}
use gozim.Format.{mime_redirect, mime_link_target, mime_deleted, U8, U16, U32}
use gozim.Dirent.{
  EntryType, Dirent, Target, redirect_target, blob_target, read_null_terminated, parse_target,
  parse_extra, parse_dirent,
}

-- The type that goes with a MIME index.
abbrev pub type_of : ℕ → EntryType
type_of mime =
    if mime == mime_redirect
    then EntryType.redirect
    else if mime == mime_link_target
    then EntryType.link_target
    else if mime == mime_deleted
    then EntryType.deleted
    else EntryType.content

-- The fields that an entry of the given type does not have are zero.
abbrev pub UnusedZero : Dirent → EntryType → Type 0
UnusedZero d EntryType.redirect = (d.cluster_number ≡ 0) × (d.blob_number ≡ 0)
UnusedZero d _ = d.redirect_index ≡ 0

-- An entry that the format can hold: the fields in the range of their Go types, no zero byte in a
-- string, at most 255 extra bytes, and the entry type that the MIME index says.
pub record IsWellFormed (d : Dirent) : Type 0 where
  pub mime : U16 d.mime_type_index
  pub namespace : U8 d.namespace
  pub version : U32 d.version
  pub cluster : U32 d.cluster_number
  pub blob : U32 d.blob_number
  pub redirect : U32 d.redirect_index
  pub path : All (λ b. b ≢ 0) d.path
  pub title : All (λ b. b ≢ 0) d.title
  pub extra : length d.extra < 256
  pub type : d.entry_type ≡ type_of d.mime_type_index
  pub unused : UnusedZero d d.entry_type

pub parse_dirent_steps :
    (buf : List ℕ) (t : Target) (path title extra : List ℕ) (path_len title_len end : ℕ)
    → 12 ≤ length buf
    → parse_target (le_value (take 2 buf)) buf ≡ ok t
    → read_null_terminated (drop t.offset buf) ≡ ok (path, path_len)
    → read_null_terminated (drop (t.offset + path_len) buf) ≡ ok (title, title_len)
    → parse_extra (le_value (take 1 (drop 2 buf))) (t.offset + path_len + title_len) buf
      ≡ ok (extra, end)
    → parse_dirent buf
      ≡ ok (
        record {
          mime_type_index = le_value (take 2 buf);
          namespace = le_value (take 1 (drop 3 buf));
          entry_type = t.entry_type;
          version = le_value (take 4 (drop 4 buf));
          cluster_number = t.cluster_number;
          blob_number = t.blob_number;
          redirect_index = t.redirect_index;
          path = path;
          title = title;
          extra = extra;
        },
        end,
      )
unfolding parse_dirent
parse_dirent_steps buf t path title extra path_len title_len end l a b c d =
    rw (le→ltb (length buf) 12 l, a, b, c, d)

-- The four branches of `parse_target`, by the entry type.
abbrev pub target_as : EntryType → List ℕ → Result Target
target_as EntryType.redirect buf = redirect_target buf
target_as EntryType.content buf = blob_target EntryType.content buf
target_as EntryType.link_target buf = blob_target EntryType.link_target buf
target_as EntryType.deleted buf = blob_target EntryType.deleted buf

pub parse_target_as :
    (mime : ℕ) (buf : List ℕ) → parse_target mime buf ≡ target_as (type_of mime) buf
unfolding parse_target
parse_target_as mime buf = elim (Bool-cases (mime == mime_redirect)) [
  | inl a ↦ rw a
  | inr a ↦ elim (Bool-cases (mime == mime_link_target)) [
    | inl b ↦ rw (a, b)
    | inr b ↦ elim (Bool-cases (mime == mime_deleted)) [
      | inl c ↦ rw (a, b, c)
      | inr c ↦ rw (a, b, c)
    ]
  ]
]
