-- ===== src/Glass/Block/Reading.antt =====
-- Reading an item or a block does not run out of the buffer.
use gozim.Base.{
  ℕ, zero, suc, ◌+◌, ◌-◌, ◌*◌, ◌/◌, ◌%◌, ◌^◌, ◌≤◌, ◌<◌, ◌≡◌, ◌≢◌, inl, inr, List, length, drop,
  take, ltb, >>=-eq-ok, fail_if-eq-ok, get_or, Error, Result-cases, ◌⊎◌, ok, err, panic, arith,
}
use gozim.Glass.Block.{
  Item, Block, sub_slice, be_at, byte_at, read_leaf_item, read_branch_item, read_item, read_items,
  read_block, be_from, dir_start,
}

read_leaf_item-ne-panic : (buf : List ℕ) → read_leaf_item buf ≢ panic
unfolding read_leaf_item
read_leaf_item-ne-panic buf h = ground arith

read_branch_item-ne-panic : (buf : List ℕ) → read_branch_item buf ≢ panic
unfolding read_branch_item
read_branch_item-ne-panic buf h = ground arith

read_item-ne-panic : (level : ℕ) (buf : List ℕ) (offset : ℕ) → read_item level buf offset ≢ panic
unfolding read_item sub_slice
read_item-ne-panic level buf offset h =
    let item = take (length buf - offset) (drop offset buf) in
    ground (arith, read_leaf_item-ne-panic item, read_branch_item-ne-panic item)

be_at_inside :
    (w : ℕ) (buf : List ℕ) (offset v : ℕ) → be_at w buf offset ≡ ok v → offset + w ≤ length buf
unfolding be_at
be_at_inside w buf offset v h = ground arith

read_items-ne-panic :
    (count level : ℕ) (buf : List ℕ) (i : ℕ)
    → 11 + (i + count) * 2 ≤ length buf
    → read_items count level buf i ≢ panic
unfolding read_items be_at
read_items-ne-panic zero level buf i l h = cc
read_items-ne-panic (suc count) level buf i l h =
    let offset = be_from 0 (take 2 (drop (11 + i * 2) buf)) in
    ground (
      arith,
      read_item-ne-panic level buf offset,
      read_items-ne-panic count level buf (i + 1) (omega arith),
    )

read_items_ok :
    (count level : ℕ) (buf : List ℕ) (i : ℕ) (items : List Item)
    → read_items count level buf i ≡ ok items
    → (length items ≡ count) × (0 < count → 11 + (i + count) * 2 ≤ length buf)
unfolding read_items
read_items_ok zero level buf i items h = ground arith
read_items_ok (suc count) level buf i items h =
    let (offset, e, h1) = >>=-eq-ok (be_at 2 buf (11 + i * 2)) _ h in
    let (item, f, h2) = >>=-eq-ok (read_item level buf offset) _ h1 in
    let (rest, g, h3) = >>=-eq-ok (read_items count level buf (i + 1)) _ h2 in
    let (len, inside) = read_items_ok count level buf (i + 1) rest g in
    let here = be_at_inside 2 buf (11 + i * 2) offset e in
    (ground (arith, len, h3), λ some_item. ground (arith, inside, here))

count_lem : (d : ℕ) → dir_start ≤ d → (d + 2 ^ 16 - dir_start) % 2 ^ 16 / 2 * 2 + dir_start ≤ d
count_lem d h = omega arith

read_block-ne-panic :
    (buf : List ℕ) (d : ℕ) → be_at 2 buf 9 ≡ ok d → dir_start ≤ d → read_block buf ≢ panic
unfolding read_block be_at byte_at
read_block-ne-panic buf d e l h =
    let count = (d + 2 ^ 16 - dir_start) % 2 ^ 16 / 2 in
    ground (arith, read_items-ne-panic count (get_or buf 4 0) buf 0, count_lem d l)

read_block_accepted :
    (buf : List ℕ) (d : ℕ)
    → be_at 2 buf 9 ≡ ok d
    → (b : Block) → read_block buf ≡ ok b
    → (length b.items ≡ (d + 2 ^ 16 - dir_start) % 2 ^ 16 / 2)
      × (dir_start + length b.items * 2 ≤ length buf)
unfolding read_block
read_block_accepted buf d e b h =
    let count = (d + 2 ^ 16 - dir_start) % 2 ^ 16 / 2 in
    let (long, h1) = fail_if-eq-ok (ltb (length buf) dir_start) Error.plain _ h in
    let (revision, e1, h2) = >>=-eq-ok (be_at 4 buf 0) _ h1 in
    let (level, e2, h3) = >>=-eq-ok (byte_at buf 4) _ h2 in
    let (max_free, e3, h4) = >>=-eq-ok (be_at 2 buf 5) _ h3 in
    let (total_free, e4, h5) = >>=-eq-ok (be_at 2 buf 7) _ h4 in
    let (dir_end, e5, h6) = >>=-eq-ok (be_at 2 buf 9) _ h5 in
    let same : dir_end ≡ d = ground (arith, e, e5) in
    let (fits, h7) = fail_if-eq-ok (ltb (length buf) dir_end) Error.plain _ h6 in
    let (items, e6, h8) =
      >>=-eq-ok (read_items ((dir_end + 2 ^ 16 - dir_start) % 2 ^ 16 / 2) level buf 0) _ h7 in
    let (len, inside) = read_items_ok _ level buf 0 items e6 in
    ground (arith, same, len, inside, h8, long)

-- A block whose directory does not end before it starts is refused with an error or accepted, never
-- a panic; and of one that is accepted the whole directory lies within the buffer, with one item for
-- each entry.
pub read_block_safe :
    (buf : List ℕ) (dir_end : ℕ)
    → be_at 2 buf 9 ≡ ok dir_end
    → dir_start ≤ dir_end
    → ((x : Error) × (read_block buf ≡ err x))
      ⊎ ((b : Block) × (read_block buf ≡ ok b)
          × (length b.items ≡ (dir_end + 2 ^ 16 - dir_start) % 2 ^ 16 / 2)
          × (dir_start + length b.items * 2 ≤ length buf))
read_block_safe buf d e starts = elim (Result-cases (read_block buf)) [
  | inl (b, made) ↦ let (n, fits) = read_block_accepted buf d e b made in inr (b, made, n, fits)
  | inr (inl (x, refused)) ↦ inl (x, refused)
  | inr (inr broken) ↦ absurd (read_block-ne-panic buf d e starts broken)
]
