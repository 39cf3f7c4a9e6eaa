-- ===== src/Glass/Btree/Leaf.antt =====
-- The leaves of the tree as ordered maps.
use gozim.Base.{
  ℕ, zero, suc, ◌+◌, ◌-◌, ◌<◌, ◌≡◌, ◌≢◌, refl, sym, ap, ◌∙◌, inl, inr, Bool, true, false, not, List,
  [], ◌∷◌, length, get_elem?, ◌==◌, ==_iff, ◌||◌, if◌then◌else◌, Bool-cases, Option, none, some,
  Option-cases, ok, arith,
}
use gozim.Base.Lex.{bytes_eq}
use gozim.Glass.Block.{Item, Block, find_item}
use gozim.Glass.Btree.{
  Blocks, find_block, store_block, Btree, search_block, get, needs_split, Inserted, split_if_full,
  insert_into_leaf, insert_into_block, insert_at_root, insert,
}
use gozim.Glass.Btree.Keys.{
  SortedKeys, lookup, put, leaf_result, leaf_search-lookup, lookup-put, put-SortedKeys, place, old,
  fresh,
}

-- An insertion into a leaf puts the tag under the key, and splits the leaf where it gets full: it
-- returns on every leaf, sorted or not.
insert_into_leaf_lem :
    (sort : List Item → List Item) (b : Block) (key tag : List ℕ)
    → needs_split (put key tag b.items) ≡ false
    → (existed : Bool) × (insert_into_leaf sort b key tag
        ≡ ok (record {
          left = record b { items = put key tag b.items };
          right = none;
          existed = existed;
        }))
unfolding insert_into_leaf
insert_into_leaf_lem sort b key tag small = elim (place key tag b.items) [
  | old i at same eq ↦ (true, rw (at, insert_into_leaf, same, eq) refl)
  | fresh apart eq ↦ (
    false,
    elim (Option-cases (get_elem? b.items (find_item b.items key))) [
      | inl gone ↦ rw (gone, insert_into_leaf, eq) (unfold split_if_full in rw small refl)
      | inr (i, at) ↦
          rw (at, insert_into_leaf, apart i at, eq) (unfold split_if_full in rw small refl)
    ],
  )
]

pub search_block-leaf :
    (fuel : ℕ) (blocks : Blocks) (b : Block) (j : List ℕ)
    → b.level ≡ 0
    → SortedKeys b.items
    → search_block (suc fuel) blocks b j ≡ ok (lookup j b.items)
unfolding search_block
search_block-leaf fuel blocks b j leaf s =
    let is_leaf : (b.level == 0) ≡ true = ground arith in
    rw (is_leaf, search_block) (leaf_result b.items j ∙ ap ok (leaf_search-lookup b.items j s))

pub find_block-length : (n : ℕ) (bs : Blocks) (b : Block) → find_block n bs ≡ some b → 0 < length bs
unfolding find_block
find_block-length n [] b h = cc h
find_block-length n (x ∷ bs) b h = omega arith

abbrev pub with_leaf : Btree → Block → Btree
with_leaf t b = record t { blocks = store_block t.root b t.blocks }

pub insert_into_block-leaf :
    (sort : List Item → List Item) (fuel : ℕ) (t : Btree) (b : Block) (key tag : List ℕ)
    (r : Inserted)
    → 0 < fuel
    → find_block t.root t.blocks ≡ some b
    → b.level ≡ 0
    → insert_into_leaf sort b key tag ≡ ok r
    → insert_into_block sort fuel t t.root key tag ≡ ok (with_leaf t r.left, r.right, r.existed)
unfolding insert_into_block
insert_into_block-leaf sort zero t b key tag r pos at leaf e = absurd (omega arith)
insert_into_block-leaf sort (suc fuel) t b key tag r pos at leaf e =
    let is_leaf : (b.level == 0) ≡ true = ground arith in
    rw (at, insert_into_block, is_leaf, e) refl

get-leaf :
    (t : Btree) (b : Block) (j : List ℕ)
    → t.root ≢ 0
    → find_block t.root t.blocks ≡ some b
    → b.level ≡ 0
    → SortedKeys b.items
    → get t j ≡ ok (lookup j b.items)
unfolding get
get-leaf t b j root at leaf s =
    let pos = find_block-length t.root t.blocks b at in
    let fuel : length t.blocks ≡ suc (length t.blocks - 1) = omega arith in
    let some_root : (t.root == 0 || length t.blocks == 0) ≡ false = ground arith in
    rw (some_root, at, get)
      (ap (λ n. search_block n t.blocks b j) fuel
        ∙ search_block-leaf (length t.blocks - 1) t.blocks b j leaf s)

-- The tree after an insertion into its root leaf.
abbrev counted : Btree → Inserted → Btree
counted t r = record t {
  blocks = store_block t.root r.left t.blocks;
  num_entries = if r.existed then t.num_entries else t.num_entries + 1;
}

insert-leaf :
    (sort : List Item → List Item) (t : Btree) (b : Block) (key tag : List ℕ) (r : Inserted)
    → t.root ≢ 0
    → find_block t.root t.blocks ≡ some b
    → b.level ≡ 0
    → insert_into_leaf sort b key tag ≡ ok r
    → r.right ≡ none
    → insert sort t key tag ≡ ok (counted t r, not r.existed)
unfolding insert insert_at_root
insert-leaf sort t b key tag r root at leaf e whole =
    let some_root : (t.root == 0) ≡ false = ground arith in
    let step =
      insert_into_block-leaf sort (length t.blocks) t b key tag r
        (find_block-length t.root t.blocks b at) at leaf e in
    elim (Bool-cases r.existed) [
      | inl there ↦ simp (some_root, step, insert, insert_at_root, whole, there)
      | inr absent ↦ simp (some_root, step, insert, insert_at_root, whole, absent)
    ]

pub store_find : (n : ℕ) (b : Block) (bs : Blocks) → find_block n (store_block n b bs) ≡ some b
unfolding find_block
store_find n b bs = rw ((==_iff n n).1 refl, find_block) refl

some_if : (c : Bool) (x y : Option (List ℕ)) → ok (if c then x else y) ≡ (if c then ok x else ok y)
some_if true x y = refl
some_if false x y = refl

module _ (sort : List Item → List Item) (t : Btree) (b : Block) where
  -- In a tree whose root is a leaf with sorted keys, and where the insertion does not fill it, `insert`
  -- succeeds: afterwards `get` finds the new tag under the key, and under every other key what it
  -- found before; and the leaf's keys are still sorted.
  pub get-insert :
      (key tag : List ℕ)
      → t.root ≢ 0
      → find_block t.root t.blocks ≡ some b
      → b.level ≡ 0
      → SortedKeys b.items
      → needs_split (put key tag b.items) ≡ false
      → (u : Btree) × (was_new : Bool) × (insert sort t key tag ≡ ok (u, was_new))
        × ((j : List ℕ) → get u j ≡ (if bytes_eq key j then ok (some tag) else get t j))
        × (find_block u.root u.blocks ≡ some (record b { items = put key tag b.items }))
        × SortedKeys (put key tag b.items)
  get-insert key tag root at leaf s small =
      let (existed, e) = insert_into_leaf_lem sort b key tag small in
      let b' = record b { items = put key tag b.items } in
      let r : Inserted = record { left = b'; right = none; existed = existed } in
      let s' = put-SortedKeys key tag b.items s in
      let answer = λ (j : List ℕ).
        ap ok (lookup-put key tag b.items j)
        ∙ some_if (bytes_eq key j) (some tag) (lookup j b.items)
        ∙ ap (λ o. if bytes_eq key j then ok (some tag) else o)
            (sym (get-leaf t b j root at leaf s)) in
      let u = counted t r in
      let here = store_find t.root b' t.blocks in
      (
        u,
        not existed,
        insert-leaf sort t b key tag r root at leaf e refl,
        (λ j. get-leaf u b' j root here leaf s' ∙ answer j),
        here,
        s',
      )
