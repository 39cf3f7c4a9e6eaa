-- ===== src/Format.antt =====
-- archive/zim: zim.go, namespace.go and endian.go, the constants of the format, the namespaces,
-- and little-endian integers in a buffer.
use gozim.Base.{◌+◌, ℕ, ◌<◌, ◌-◌, ◌%◌, ◌^◌, Bool, ◌||◌, ◌==◌}

-- "ZIM" and 0x04
abbrev pub magic : ℕ
magic = 0x044d495a

abbrev pub major_version : ℕ
major_version = 6

abbrev pub minor_version : ℕ
minor_version = 3

abbrev pub old_major_version : ℕ
old_major_version = 5

abbrev pub header_size : ℕ
header_size = 80

abbrev pub checksum_size : ℕ
checksum_size = 16

-- `Compression`, the on-disk byte
abbrev pub compression_none : ℕ
compression_none = 1

abbrev pub compression_zstd : ℕ
compression_zstd = 5

abbrev pub compression_lzma : ℕ
compression_lzma = 4

-- `Namespace` is a byte.
abbrev pub namespace_content : ℕ
namespace_content = b'C'

abbrev pub namespace_metadata : ℕ
namespace_metadata = b'M'

abbrev pub namespace_index : ℕ
namespace_index = b'X'

abbrev pub namespace_article : ℕ
namespace_article = b'A'

abbrev pub namespace_image : ℕ
namespace_image = b'I'

abbrev pub namespace_script : ℕ
namespace_script = b'J'

abbrev pub namespace_layout : ℕ
namespace_layout = b'-'

unfoldable pub is_user_content : ℕ → Bool
is_user_content ns =
    ns == namespace_content
    || ns == namespace_article
    || ns == namespace_image
    || ns == namespace_script
    || ns == namespace_layout

unfoldable pub is_metadata : ℕ → Bool
is_metadata ns = ns == namespace_metadata

unfoldable pub is_index : ℕ → Bool
is_index ns = ns == namespace_index

-- The MIME indices that mark entries with no MIME type.
abbrev pub mime_redirect : ℕ
mime_redirect = 0xffff

abbrev pub mime_link_target : ℕ
mime_link_target = 0xfffe

abbrev pub mime_deleted : ℕ
mime_deleted = 0xfffd

abbrev pub U8 : ℕ → Type 0
U8 n = n < 256

abbrev pub U16 : ℕ → Type 0
U16 n = n < 256 ^ 2

abbrev pub U32 : ℕ → Type 0
U32 n = n < 256 ^ 4

abbrev pub U64 : ℕ → Type 0
U64 n = n < 256 ^ 8

-- Subtraction of uint32 and of uint64
abbrev pub sub32 : ℕ → ℕ → ℕ
sub32 a b = (a + (2 ^ 32 - b)) % 2 ^ 32

abbrev pub sub64 : ℕ → ℕ → ℕ
sub64 a b = (a + (2 ^ 64 - b)) % 2 ^ 64
