-- ===== src/Tests/Tables.antt =====
-- archive/zim/glass/postlist.go, block.go and btree.go on small inputs.
use gozim.Base.{
  ℕ, ◌+◌, ◌%◌, ◌^◌, ◌-◌, ◌/◌, ◌*◌, ◌≤◌, ◌<◌, ◌≡◌, ◌⊎◌, refl, Bool, true, false, List, [], ◌∷◌,
  length, drop, replicate, if◌then◌else◌, none, some, Error, ok, err, arith,
}
use gozim.Base.Lex.{bytes_eq, lex_lt}
use gozim.Glass.Postlist.{Posting, encode_first_chunk, decode_first_chunk}
use gozim.Glass.Postlist.RoundTrip.{
  InRange, total_wdf, chunk_of, decode_first_chunk-encode_first_chunk,
}
use gozim.Glass.Block.{Item, Block, new_block, be_at, be_from, dir_start, read_block}
use gozim.Glass.Block.Reading.{read_block_safe}
use gozim.Glass.Btree.{
  Btree, find_block, get, insert, leaf_item, needs_split, total_size, split_block,
}
use gozim.Glass.Btree.Keys.{SortedKeys, lookup, put}
use gozim.Glass.Btree.Leaf.{get-insert}
use gozim.Glass.Btree.Split.{KeepsSorted, insert-loses-separator}

abbrev first_posting : Posting
first_posting = record { document_id = 3; wdf = 2 }

abbrev more_postings : List Posting
more_postings = (record { document_id = 300; wdf = 70000 }) ∷ []

postings-InRange : InRange (first_posting ∷ more_postings)
postings-InRange = ((omega arith, omega arith), ((omega arith, omega arith), tt))

postings-total : total_wdf (first_posting ∷ more_postings) < 256 ^ 8
unfolding total_wdf
postings-total = omega arith

decode_first_chunk-encode_first_chunk_example :
    (enc : List ℕ) × (encode_first_chunk 2
        (total_wdf (first_posting ∷ more_postings))
        (first_posting ∷ more_postings)
        true
      ≡ ok enc)
    × (decode_first_chunk enc ≡ ok (chunk_of 2 first_posting more_postings true, length enc))
decode_first_chunk-encode_first_chunk_example =
    decode_first_chunk-encode_first_chunk 2 first_posting more_postings true (omega arith)
      postings-InRange postings-total

-- a leaf with one item, the key 97 with the tag 5, at offset 13
abbrev leaf_bytes : List ℕ
leaf_bytes = 0 ∷ 0 ∷ 0 ∷ 1 ∷ 0 ∷ 0 ∷ 0 ∷ 0 ∷ 0 ∷ 0 ∷ 13 ∷ 0 ∷ 13 ∷ 96 ∷ 2 ∷ 1 ∷ 97 ∷ 5 ∷ []

leaf_end : be_at 2 leaf_bytes 9 ≡ ok 13
unfolding be_at be_from
leaf_end = refl

read_block_safe_example :
    ((x : Error) × (read_block leaf_bytes ≡ err x))
    ⊎ ((b : Block) × (read_block leaf_bytes ≡ ok b)
        × (length b.items ≡ (13 + 2 ^ 16 - dir_start) % 2 ^ 16 / 2)
        × (dir_start + length b.items * 2 ≤ length leaf_bytes))
read_block_safe_example = read_block_safe leaf_bytes 13 leaf_end (omega arith)

-- a tree with one leaf, which has one key
abbrev leaf_a : ℕ → Block
leaf_a size = record new_block { items = leaf_item (97 ∷ []) (replicate size 7) ∷ [] }

abbrev tree_a : ℕ → Btree
tree_a size = record {
  root = 1;
  level = 0;
  num_entries = 1;
  blocks = (1, leaf_a size) ∷ [];
  max_block = 1;
}

tree_a-root : (size : ℕ) → find_block 1 (tree_a size).blocks ≡ some (leaf_a size)
unfolding find_block
tree_a-root size = refl

small_leaf : needs_split (put (98 ∷ []) (5 ∷ []) (leaf_a 3).items) ≡ false
unfolding needs_split total_size put lex_lt bytes_eq
small_leaf = refl

get-insert_example :
    (u : Btree) × (was_new : Bool) × (insert (λ is. is) (tree_a 3) (98 ∷ []) (5 ∷ [])
      ≡ ok (u, was_new))
    × ((j : List ℕ)
        → get u j ≡ (if bytes_eq (98 ∷ []) j then ok (some (5 ∷ [])) else get (tree_a 3) j))
    × (find_block u.root u.blocks
        ≡ some (record (leaf_a 3) { items = put (98 ∷ []) (5 ∷ []) (leaf_a 3).items }))
    × SortedKeys (put (98 ∷ []) (5 ∷ []) (leaf_a 3).items)
get-insert_example =
    get-insert (λ is. is) (tree_a 3) (leaf_a 3) (98 ∷ []) (5 ∷ []) (ground arith) (tree_a-root 3)
      refl (tt, tt) small_leaf

as_they_are-KeepsSorted : KeepsSorted (λ is. is)
as_they_are-KeepsSorted is s = refl

absent_b : lookup (98 ∷ []) (leaf_a 9000).items ≡ none
unfolding lookup bytes_eq
absent_b = refl

large_leaf : needs_split (put (98 ∷ []) (5 ∷ []) (leaf_a 9000).items) ≡ true
unfolding needs_split total_size put lex_lt bytes_eq
large_leaf = refl

insert-loses-separator_example :
    (u : Btree) × (i : Item) × (rest : List Item) × (insert
        (λ is. is)
        (tree_a 9000)
        (98 ∷ [])
        (5 ∷ [])
      ≡ ok (u, true))
    × (find_block 2 u.blocks
        ≡ some
            (split_block
              (λ is. is)
              (record (leaf_a 9000) { items = put (98 ∷ []) (5 ∷ []) (leaf_a 9000).items })).1)
    × (drop
          (length (put (98 ∷ []) (5 ∷ []) (leaf_a 9000).items) / 2)
          (put (98 ∷ []) (5 ∷ []) (leaf_a 9000).items)
        ≡ i ∷ rest)
    × (get u i.key ≡ ok none)
insert-loses-separator_example =
    insert-loses-separator (λ is. is) as_they_are-KeepsSorted (tree_a 9000) (leaf_a 9000) (98 ∷ [])
      (5 ∷ []) (ground arith) (omega arith) refl (tree_a-root 9000) refl (tt, tt) absent_b
      large_leaf
