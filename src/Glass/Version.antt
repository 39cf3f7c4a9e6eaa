-- ===== src/Glass/Version.antt =====
-- archive/zim/glass/version.go: the version file of a database.
pub mod RoundTrip
pub mod Whole
use gozim.Base.{
  ℕ, zero, suc, ◌+◌, ◌-◌, ◌*◌, ◌/◌, ◌%◌, ◌^◌, ◌≤◌, ◌<◌, Bool, true, false, not, List, [], ◌∷◌, ◌++◌,
  length, take, drop, ltb, leb, if◌then◌else◌, Error, Result, ok, err, panic, ◌>>=◌, ◌>>◌, fail_if,
}
use gozim.Base.Bytes.{put_le}
use gozim.Base.Lex.{bytes_eq}
use gozim.Glass.Varint.{pack_uint, unpack_uint}

abbrev pub version_magic : List ℕ
version_magic =
    0x0f ∷ 0x0d ∷ b'X' ∷ b'a' ∷ b'p' ∷ b'i' ∷ b'a' ∷ b'n' ∷ b' ' ∷ b'G' ∷ b'l' ∷ b'a' ∷ b's' ∷ b's'
    ∷ []

abbrev pub format_version : ℕ
format_version = 0x046e

abbrev pub num_tables : ℕ
num_tables = 6

-- `RootInfo`; an int is its 64 bits.
pub record RootInfo : Type 0 where
  pub root : ℕ
  pub level : ℕ
  pub num_entries : ℕ
  pub block_size : ℕ
  pub compress_min : ℕ
  pub free_list : List ℕ

pub record VersionInfo : Type 0 where
  pub uuid : List ℕ
  pub revision : ℕ
  pub root_infos : List RootInfo
  pub doc_count : ℕ
  pub last_doc_id : ℕ
  pub doc_len_lbound : ℕ
  pub wdf_ubound : ℕ
  pub doc_len_ubound : ℕ
  pub oldest_changeset : ℕ
  pub total_doc_len : ℕ
  pub spelling_word_freq_ubound : ℕ

-- `unpackUint(data[offset:])` and `offset += n`: what is read, the bytes behind it and the offset.
unfoldable pub uint : List ℕ → ℕ → Result (ℕ × List ℕ × ℕ)
uint buf offset = do (v, n) ← unpack_uint buf; ok (v, drop n buf, offset + n)

-- The free list of `n` bytes, if they are there. Where `offset+int(freeLen)` is more than an int can
-- say it is negative, and `make` panics.
unfoldable pub read_free_list : ℕ → List ℕ → ℕ → Result (List ℕ × List ℕ × ℕ)
read_free_list n buf offset =
    if ltb 0 n
    then if leb (2 ^ 63) (offset + n)
      then panic
      else if leb n (length buf)
      then ok (take n buf, drop n buf, offset + n)
      else ok ([], buf, offset)
    else ok ([], buf, offset)

-- One round of the loop over the tables
unfoldable pub read_root_info : List ℕ → ℕ → Result (RootInfo × List ℕ × ℕ)
unfolding uint read_free_list
read_root_info buf offset = do
  (root, buf, offset) ← uint buf offset
  (level_flags, buf, offset) ← uint buf offset
  (num_entries, buf, offset) ← uint buf offset
  (block_size_shift, buf, offset) ← uint buf offset
  (compress_min, buf, offset) ← uint buf offset
  (free_len, buf, offset) ← uint buf offset
  (free_list, buf, offset) ← read_free_list free_len buf offset
  ok (
    record {
      root = root % 2 ^ 32;
      level = level_flags / 4 % 256;
      num_entries = num_entries % 2 ^ 32;
      block_size = block_size_shift * 2 ^ 11 % 2 ^ 64 % 2 ^ 32;
      compress_min = compress_min;
      free_list = free_list;
    },
    buf,
    offset,
  )

unfoldable pub read_root_infos : ℕ → List ℕ → ℕ → Result (List RootInfo × List ℕ × ℕ)
unfolding read_root_info
read_root_infos zero buf offset = ok ([], buf, offset)
read_root_infos (suc n) buf offset = do
  (info, buf, offset) ← read_root_info buf offset
  (infos, buf, offset) ← read_root_infos n buf offset
  ok (info ∷ infos, buf, offset)

-- What follows the UUID
unfoldable pub read_rest : List ℕ → List ℕ → ℕ → Result (VersionInfo × ℕ)
unfolding read_root_infos
read_rest uuid buf offset = do
  (revision, buf, offset) ← uint buf offset
  (root_infos, buf, offset) ← read_root_infos num_tables buf offset
  (doc_count, buf, offset) ← uint buf offset
  (last_doc_id, buf, offset) ← uint buf offset
  (doc_len_lbound, buf, offset) ← uint buf offset
  (wdf_ubound, buf, offset) ← uint buf offset
  (doc_len_ubound, buf, offset) ← uint buf offset
  (oldest_changeset, buf, offset) ← uint buf offset
  (total_doc_len, buf, offset) ← uint buf offset
  (spelling, buf, offset) ← uint buf offset
  ok (
    record {
      uuid = uuid;
      revision = revision % 2 ^ 32;
      root_infos = root_infos;
      doc_count = doc_count % 2 ^ 32;
      last_doc_id = last_doc_id % 2 ^ 32;
      doc_len_lbound = doc_len_lbound % 2 ^ 32;
      wdf_ubound = wdf_ubound % 2 ^ 32;
      doc_len_ubound = doc_len_ubound % 2 ^ 32;
      oldest_changeset = oldest_changeset % 2 ^ 32;
      total_doc_len = total_doc_len;
      spelling_word_freq_ubound = spelling % 2 ^ 32;
    },
    offset,
  )

-- `ReadVersion`; the format version is not looked at.
unfoldable pub read_version : List ℕ → Result (VersionInfo × ℕ)
unfolding read_rest
read_version buf = do
  fail_if (ltb (length buf) (length version_magic + 2)) Error.plain
  fail_if (not (bytes_eq (take (length version_magic) buf) version_magic)) Error.plain
  let offset = length version_magic + 2
  fail_if (ltb (length buf) (offset + 16)) Error.plain
  read_rest (take 16 (drop offset buf)) (drop (offset + 16) buf) (offset + 16)

unfoldable pub encode_root_info : RootInfo → Result (List ℕ)
encode_root_info r = do
  root ← pack_uint r.root
  level ← pack_uint (r.level * 4)
  num_entries ← pack_uint r.num_entries
  block_size ← pack_uint (r.block_size / 2 ^ 11)
  compress_min ← pack_uint r.compress_min
  free_len ← pack_uint (length r.free_list)
  ok (
      root
      ++ (level ++ (num_entries ++ (block_size ++ (compress_min ++ (free_len ++ r.free_list))))))

unfoldable pub encode_root_infos : List RootInfo → Result (List ℕ)
unfolding encode_root_info
encode_root_infos [] = ok []
encode_root_infos (r ∷ rs) = do
  info ← encode_root_info r
  rest ← encode_root_infos rs
  ok (info ++ rest)

-- The eight numbers behind the tables
unfoldable pub encode_statistics : VersionInfo → Result (List ℕ)
encode_statistics v = do
  doc_count ← pack_uint v.doc_count
  last_doc_id ← pack_uint v.last_doc_id
  doc_len_lbound ← pack_uint v.doc_len_lbound
  wdf_ubound ← pack_uint v.wdf_ubound
  doc_len_ubound ← pack_uint v.doc_len_ubound
  oldest_changeset ← pack_uint v.oldest_changeset
  total_doc_len ← pack_uint v.total_doc_len
  spelling ← pack_uint v.spelling_word_freq_ubound
  ok (
      doc_count
      ++ (last_doc_id
          ++ (doc_len_lbound
              ++ (wdf_ubound
                  ++ (doc_len_ubound ++ (oldest_changeset ++ (total_doc_len ++ spelling)))))))

unfoldable pub encode_version : VersionInfo → Result (List ℕ)
unfolding encode_root_infos encode_statistics
encode_version v = do
  revision ← pack_uint v.revision
  infos ← encode_root_infos v.root_infos
  statistics ← encode_statistics v
  ok (version_magic ++ (put_le 2 format_version ++ (v.uuid ++ (revision ++ (infos ++ statistics)))))
