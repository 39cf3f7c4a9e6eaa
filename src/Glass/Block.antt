-- ===== src/Glass/Block.antt =====
-- archive/zim/glass/block.go: the blocks of a table's B-tree.
pub mod Reading
use gozim.Base.{
  ℕ, zero, suc, ◌+◌, ◌-◌, ◌*◌, ◌/◌, ◌%◌, ◌^◌, ◌≤◌, ◌<◌, Bool, true, false, not, ◌&&◌, ◌||◌, List,
  [], ◌∷◌, ◌++◌, length, take, drop, get_or, replicate, ltb, leb, ◌==◌, if◌then◌else◌, Option, none,
  some, Error, Result, ok, err, panic, ◌>>=◌, ◌>>◌, fail_if,
}
use Prim.Native.Nat.{bit_or}
use gozim.Base.Bytes.{put_bytes}
use gozim.Base.Lex.{lex_lt}
use gozim.Glass.SortUint.{put_be}

abbrev pub block_size : ℕ
block_size = 8192

abbrev pub dir_start : ℕ
dir_start = 11

-- `BlockItem`
pub record Item : Type 0 where
  pub key : List ℕ
  pub tag : List ℕ
  pub compressed : Bool
  pub last_component : Bool
  pub first_component : Bool
  pub component_count : ℕ
  pub block_number : ℕ
  pub is_branch : Bool

-- `Block`; `Data` is the buffer that `ReadBlock` is given, or the result of `Encode`.
pub record Block : Type 0 where
  pub revision : ℕ
  pub level : ℕ
  pub max_free : ℕ
  pub total_free : ℕ
  pub dir_end : ℕ
  pub items : List Item

-- `NewBlock`
abbrev pub new_block : Block
new_block = record {
  revision = 0;
  level = 0;
  max_free = 0;
  total_free = 0;
  dir_end = 0;
  items = [];
}

-- The number that bytes make, the highest first.
unfoldable pub be_from : ℕ → List ℕ → ℕ
be_from acc [] = acc
be_from acc (b ∷ bs) = be_from (acc * 256 + b) bs

-- `buf[from:to]`, and a big-endian integer of `w` bytes at an offset. Past the length they panic;
-- what lies between the length and the capacity of the buffer is never asked for.
unfoldable pub sub_slice : List ℕ → ℕ → ℕ → Result (List ℕ)
sub_slice buf from to =
    if leb from to && leb to (length buf) then ok (take (to - from) (drop from buf)) else panic

unfoldable pub be_at : ℕ → List ℕ → ℕ → Result ℕ
unfolding be_from
be_at w buf offset =
    if leb (offset + w) (length buf) then ok (be_from 0 (take w (drop offset buf))) else panic

unfoldable pub byte_at : List ℕ → ℕ → Result ℕ
byte_at buf i = if ltb i (length buf) then ok (get_or buf i 0) else panic

-- `i2 & bit` where the bit is `2 ^ k`
abbrev pub bit_set : ℕ → ℕ → Bool
bit_set i2 k = i2 / 2 ^ k % 2 == 1

abbrev leaf : ℕ → List ℕ → List ℕ → ℕ → Item
leaf i2 key tag count = record {
  key = key;
  tag = tag;
  compressed = bit_set i2 15;
  last_component = bit_set i2 14;
  first_component = bit_set i2 13;
  component_count = count;
  block_number = 0;
  is_branch = false;
}

-- `readLeafItem`, of the bytes from the item's offset on
unfoldable pub read_leaf_item : List ℕ → Result Item
unfolding sub_slice be_at byte_at
read_leaf_item buf = do
  fail_if (ltb (length buf) 3) Error.plain
  i2 ← be_at 2 buf 0
  let item_size = i2 % 2 ^ 13 + 3
  fail_if (ltb (length buf) item_size) Error.plain
  key_len ← byte_at buf 2
  fail_if (ltb (item_size - 3) key_len) Error.plain
  key ← sub_slice buf 3 (3 + key_len)
  if bit_set i2 13
      then (do tag ← sub_slice buf (3 + key_len) item_size; ok (leaf i2 key tag 0))
      else (do
        fail_if (ltb item_size (3 + key_len + 2)) Error.plain
        count ← be_at 2 buf (3 + key_len)
        tag ← sub_slice buf (3 + key_len + 2) item_size
        ok (leaf i2 key tag count))

-- `readBranchItem`
unfoldable pub read_branch_item : List ℕ → Result Item
unfolding sub_slice be_at byte_at
read_branch_item buf = do
  fail_if (ltb (length buf) 7) Error.plain
  number ← be_at 4 buf 0
  key_len ← byte_at buf 4
  fail_if (ltb (length buf - 7) key_len) Error.plain
  key ← sub_slice buf 5 (5 + key_len)
  count ← be_at 2 buf (5 + key_len)
  ok (record {
    key = key;
    tag = [];
    compressed = false;
    last_component = false;
    first_component = false;
    component_count = count;
    block_number = number;
    is_branch = true;
  })

-- `readItem` of a block with a level
unfoldable pub read_item : ℕ → List ℕ → ℕ → Result Item
unfolding read_leaf_item read_branch_item
read_item level buf offset = do
  fail_if (ltb offset dir_start || leb (length buf) offset) Error.plain
  item ← sub_slice buf offset (length buf)
  if level == 0 then read_leaf_item item else read_branch_item item

-- The loop of `ReadBlock`: so many entries of the directory, from the `i`-th on.
unfoldable pub read_items : ℕ → ℕ → List ℕ → ℕ → Result (List Item)
unfolding be_at read_item
read_items zero level buf i = ok []
read_items (suc count) level buf i = do
  offset ← be_at 2 buf (dir_start + i * 2)
  item ← read_item level buf offset
  items ← read_items count level buf (i + 1)
  ok (item ∷ items)

-- `ReadBlock`: the number of items is `(DirEnd - DirStart) / 2` on uint16.
unfoldable pub read_block : List ℕ → Result Block
unfolding be_at byte_at read_items
read_block buf = do
  fail_if (ltb (length buf) dir_start) Error.plain
  revision ← be_at 4 buf 0
  level ← byte_at buf 4
  max_free ← be_at 2 buf 5
  total_free ← be_at 2 buf 7
  dir_end ← be_at 2 buf 9
  fail_if (ltb (length buf) dir_end) Error.plain
  items ← read_items ((dir_end + 2 ^ 16 - dir_start) % 2 ^ 16 / 2) level buf 0
  ok (record {
    revision = revision;
    level = level;
    max_free = max_free;
    total_free = total_free;
    dir_end = dir_end;
    items = items;
  })

-- `bytes.Compare(item.Key, key) >= 0`
abbrev pub at_least : Item → List ℕ → Bool
at_least item key = not (lex_lt item.key key)

-- `FindItem`
unfoldable pub find_item : List Item → List ℕ → ℕ
find_item [] key = 0
find_item (item ∷ items) key = if at_least item key then 0 else suc (find_item items key)

-- A flag of a leaf item.
abbrev flag : Bool → ℕ → ℕ
flag true k = 2 ^ k
flag false k = 0

-- `writeLeafItem`: the block's bytes and the start of the item. An item that reaches before the
-- start of the block panics; the size is or-ed to the flags.
unfoldable pub write_leaf_item : List ℕ → ℕ → Item → Result (List ℕ × ℕ)
unfolding put_bytes put_be
write_leaf_item buf end item =
    let count = if item.first_component then [] else put_be 2 item.component_count in
    let total = 3 + length item.key + length item.tag + length count in
    let flags =
      flag item.compressed 15 + flag item.last_component 14 + flag item.first_component 13 in
    let start = end - total in
    if ltb end total
    then panic
    else ok (
      put_bytes buf start (
          put_be 2 (bit_or flags ((total - 3) % 2 ^ 16))
          ++ (length item.key % 256 ∷ (item.key ++ (count ++ item.tag)))),
      start,
    )

-- `writeBranchItem`
unfoldable pub write_branch_item : List ℕ → ℕ → Item → Result (List ℕ × ℕ)
unfolding put_bytes put_be
write_branch_item buf end item =
    let total = 7 + length item.key in
    let start = end - total in
    if ltb end total
    then panic
    else ok (
      put_bytes buf start (
          put_be 4 item.block_number
          ++ (length item.key % 256 ∷ (item.key ++ put_be 2 item.component_count))),
      start,
    )

-- The loop over the items of `Encode`: the bytes, and the offsets for the directory.
unfoldable pub write_items : List ℕ → ℕ → List Item → Result (List ℕ × List ℕ)
unfolding write_leaf_item write_branch_item
write_items buf end [] = ok (buf, [])
write_items buf end (item ∷ items) = do
  (buf, start) ←
      if item.is_branch then write_branch_item buf end item else write_leaf_item buf end item
  (buf, entries) ← write_items buf start items
  ok (buf, start % 2 ^ 16 ∷ entries)

-- The directory; to write past the end of the block panics.
unfoldable pub write_directory : List ℕ → ℕ → List ℕ → Result (List ℕ)
unfolding put_bytes put_be
write_directory buf i [] = ok buf
write_directory buf i (e ∷ es) =
    if ltb (length buf) (dir_start + i * 2 + 2)
    then panic
    else write_directory (put_bytes buf (dir_start + i * 2) (put_be 2 e)) (i + 1) es

-- `Encode`: the bytes, and the block with its new `DirEnd`.
unfoldable pub encode : Block → Result (List ℕ × Block)
unfolding write_items write_directory put_bytes put_be
encode b =
    let buf = replicate block_size 0 in
    let buf = put_bytes buf 0 (put_be 4 b.revision) in
    let buf = put_bytes buf 4 (b.level ∷ []) in
    let buf = put_bytes buf 5 (put_be 2 b.max_free) in
    let buf = put_bytes buf 7 (put_be 2 b.total_free) in
    do
      (buf, entries) ← write_items buf block_size b.items
      let dir_end = (dir_start + length entries * 2) % 2 ^ 16
      buf ← write_directory buf 0 entries
      ok (put_bytes buf 9 (put_be 2 dir_end), record b { dir_end = dir_end })
