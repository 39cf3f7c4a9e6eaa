-- ===== src/Glass/Btree.antt =====
-- archive/zim/glass/btree.go: the B-tree of a table. A pointer to a block is the block's number in
-- `Blocks`, where every block stands that the tree works on.
pub mod Keys
pub mod Leaf
pub mod Split
use gozim.Base.{
  ℕ, zero, suc, ◌+◌, ◌-◌, ◌*◌, ◌/◌, ◌%◌, ◌^◌, ◌≤◌, ◌<◌, Bool, true, false, not, ◌&&◌, ◌||◌, List,
  [], ◌∷◌, ◌++◌, length, take, drop, set, get_elem?, ltb, leb, ◌==◌, if◌then◌else◌, Option, none,
  some, Error, Result, ok, err, panic, ◌>>=◌, ◌>>◌, fail_if,
}
use gozim.Base.Lex.{bytes_eq}
use gozim.Glass.Block.{Item, Block, new_block, block_size, dir_start, find_item}

-- `map[uint32]*Block`
abbrev pub Blocks : Type 0
Blocks = List (ℕ × Block)

unfoldable pub find_block : ℕ → Blocks → Option Block
find_block n [] = none
find_block n ((m, b) ∷ bs) = if m == n then some b else find_block n bs

abbrev pub store_block : ℕ → Block → Blocks → Blocks
store_block n b bs = (n, b) ∷ bs

-- `BTree`, without the list of free blocks, which nothing uses. The numbers stay below 2^32.
pub record Btree : Type 0 where
  pub root : ℕ
  pub level : ℕ
  pub num_entries : ℕ
  pub blocks : Blocks
  pub max_block : ℕ

-- The highest block number of `OpenBTree`
unfoldable pub max_from : ℕ → Blocks → ℕ
max_from m [] = m
max_from m ((n, b) ∷ bs) = max_from (if ltb m n then n else m) bs

unfoldable pub open_btree : ℕ → ℕ → ℕ → Blocks → Btree
unfolding max_from
open_btree root level num_entries blocks = record {
  root = root;
  level = level;
  num_entries = num_entries;
  blocks = blocks;
  max_block = max_from root blocks;
}

-- The index of the child to go down to.
abbrev pub child_of : ℕ → ℕ
child_of idx = if idx == 0 then 0 else idx - 1

-- `searchBlock`: the tag, if the key is there. The fuel is for the levels; where it runs out the
-- blocks form a cycle, and Go's stack overflows.
unfoldable pub search_block : ℕ → Blocks → Block → List ℕ → Result (Option (List ℕ))
unfolding find_item find_block
search_block zero blocks b key = panic
search_block (suc fuel) blocks b key =
    let idx = find_item b.items key in
    elim (b.level == 0) [
      | true ↦ elim (get_elem? b.items idx) [
        | none ↦ ok none
        | some item ↦ if bytes_eq item.key key then ok (some item.tag) else ok none
      ]
      | false ↦ elim (get_elem? b.items (child_of idx)) [
        | none ↦ panic
        | some item ↦ elim (find_block item.block_number blocks) [
          | none ↦ err Error.plain
          | some child ↦ search_block fuel blocks child key
        ]
      ]
    ]

-- `Get`. A path through the blocks that meets none twice is no longer than their number.
unfoldable pub get : Btree → List ℕ → Result (Option (List ℕ))
unfolding search_block
get t key =
    if t.root == 0 || length t.blocks == 0 then ok none else elim (find_block t.root t.blocks) [
      | none ↦ err Error.plain
      | some b ↦ search_block (length t.blocks) t.blocks b key
    ]

-- `blockNeedsSplit`
unfoldable pub total_size : List Item → ℕ
total_size [] = 0
total_size (item ∷ items) = length item.key + length item.tag + 5 + total_size items

unfoldable pub needs_split : List Item → Bool
unfolding total_size
needs_split items = ltb block_size (dir_start + length items * 2 + total_size items + 64)

-- `append`, `copy` and the assignment that put an item at an index; past the length it panics.
unfoldable pub insert_at : ℕ → Item → List Item → Result (List Item)
insert_at i item items =
    if leb i (length items) then ok (take i items ++ (item ∷ drop i items)) else panic

abbrev pub leaf_item : List ℕ → List ℕ → Item
leaf_item key tag = record {
  key = key;
  tag = tag;
  compressed = false;
  last_component = true;
  first_component = true;
  component_count = 0;
  block_number = 0;
  is_branch = false;
}

abbrev pub separator : List ℕ → ℕ → Item
separator key number = record {
  key = key;
  tag = [];
  compressed = false;
  last_component = false;
  first_component = false;
  component_count = 0;
  block_number = number;
  is_branch = true;
}

-- The key of a block's first item.
unfoldable pub first_key : List Item → Result (List ℕ)
first_key [] = panic
first_key (item ∷ items) = ok item.key

-- What an insertion into a block gives: the block, the new block of a split, and whether the key was
-- there.
pub record Inserted : Type 0 where
  pub left : Block
  pub right : Option Block
  pub existed : Bool

-- `sort.Slice` by the keys is a parameter.
module _ (sort : List Item → List Item) where
  -- `splitBlock`: the two halves of the sorted items.
  unfoldable pub split_block : Block → Block × Block
  split_block b =
      let items = sort b.items in
      let mid = length items / 2 in
      (
        record b { items = take mid items },
        record new_block {
          level = b.level;
          revision = (b.revision + 1) % 2 ^ 32;
          items = drop mid items;
        },
      )

  unfoldable pub split_if_full : Block → Bool → Inserted
  unfolding split_block needs_split
  split_if_full b existed =
      if needs_split b.items
      then record { left = (split_block b).0; right = some (split_block b).1; existed = existed }
      else record { left = b; right = none; existed = existed }

  -- `insertIntoLeaf`
  unfoldable pub insert_into_leaf : Block → List ℕ → List ℕ → Result Inserted
  unfolding find_item insert_at split_if_full
  insert_into_leaf b key tag =
      let idx = find_item b.items key in
      let fresh = (do
        items ← insert_at idx (leaf_item key tag) b.items
        ok (split_if_full (record b { items = items }) false)) in
      elim (get_elem? b.items idx) [
        | none ↦ fresh
        | some item ↦
            if bytes_eq item.key key
            then ok (record {
              left = record b { items = set b.items idx (record item { tag = tag }) };
              right = none;
              existed = true;
            })
            else fresh
      ]

  -- `insertBranchItem`
  unfoldable pub insert_branch_item : Block → Item → ℕ → Bool → Result Inserted
  unfolding insert_at split_if_full
  insert_branch_item b item child_idx existed = do
    items ← insert_at (child_idx + 1) item b.items
    ok (split_if_full (record b { items = items }) existed)

  -- `insertIntoBlock` at the block with a number: the tree, the new block of a split, which is not yet
  -- among the blocks, and whether the key was there. A number with no block is a nil pointer.
  unfoldable pub insert_into_block :
      ℕ → Btree → ℕ → List ℕ → List ℕ → Result (Btree × Option Block × Bool)
  unfolding find_block find_item insert_into_leaf insert_branch_item first_key
  insert_into_block zero t n key tag = panic
  insert_into_block (suc fuel) t n key tag = elim (find_block n t.blocks) [
    | none ↦ panic
    | some b ↦ elim (b.level == 0) [
      | true ↦ do
        r ← insert_into_leaf b key tag
        ok (record t { blocks = store_block n r.left t.blocks }, r.right, r.existed)
      | false ↦
          let child_idx = child_of (find_item b.items key) in
          elim (get_elem? b.items child_idx) [
            | none ↦ panic
            | some item ↦ elim (find_block item.block_number t.blocks) [
              | none ↦ err Error.plain
              | some child ↦ do
                (t, right, existed) ← insert_into_block fuel t item.block_number key tag
                elim right [
                  | none ↦ ok (t, none, existed)
                  | some new ↦ do
                    let number = t.max_block + 1
                    new_key ← first_key new.items
                    r ← insert_branch_item b (separator new_key number) child_idx existed
                    ok (
                      record t {
                        max_block = number;
                        blocks = store_block n r.left (store_block number new t.blocks);
                      },
                      r.right,
                      r.existed,
                    )
                ]
            ]
          ]
    ]
  ]

  -- `insertAtRoot`: where the root is split, a new root with two items.
  unfoldable pub insert_at_root : Btree → List ℕ → List ℕ → Result (Btree × Bool)
  unfolding insert_into_block first_key
  insert_at_root t key tag = do
    (u, right, existed) ← insert_into_block (length t.blocks) t t.root key tag
    elim right [
      | none ↦ ok (u, not existed)
      | some new ↦ do
        new_key ← first_key new.items
        let number = u.max_block + 1
        let new_root = record new_block {
          level = (u.level + 1) % 256;
          revision = 1;
          items = separator [] u.root ∷ separator new_key number ∷ [];
        }
        ok (
          record u {
            root = number + 1;
            level = (u.level + 1) % 256;
            max_block = number + 1;
            blocks = store_block (number + 1) new_root (store_block number new u.blocks);
          },
          not existed,
        )
    ]

  -- `Insert`
  unfoldable pub insert : Btree → List ℕ → List ℕ → Result (Btree × Bool)
  unfolding insert_at_root
  insert t key tag =
      if t.root == 0
      then ok (
        record t {
          root = t.max_block + 1;
          level = 0;
          num_entries = 1;
          max_block = t.max_block + 1;
          blocks =
              store_block (t.max_block + 1)
                (record new_block { revision = 1; items = leaf_item key tag ∷ [] }) t.blocks;
        },
        true,
      )
      else (do
        (u, was_new) ← insert_at_root t key tag
        ok (if was_new then record u { num_entries = u.num_entries + 1 } else u, was_new))
