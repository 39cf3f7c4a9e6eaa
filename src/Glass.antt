-- ===== src/Glass.antt =====
-- archive/zim/glass: the codecs of the Glass search backend.
pub mod Varint
pub mod SortUint
pub mod SortString
pub mod Postlist
pub mod Block
pub mod Btree
pub mod Version
