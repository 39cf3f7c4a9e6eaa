-- ===== src/Glass/Btree/Split.antt =====
-- What a split of the root does to the key that separates the halves.
use gozim.Base.{
  ℕ, zero, suc, ◌+◌, ◌/◌, ◌%◌, ◌≤◌, ◌<◌, ◌≡◌, ◌≢◌, refl, sym, ap, ◌∙◌, inl, inr, true, false, ◌||◌,
  List, [], ◌∷◌, length, take, drop, get_elem?, ◌⊎◌, All, All-drop, All-take, length-drop, ◌==◌,
  none, some, Option-cases, ok, arith,
}
use mathlib.Core.Path.{subst}
use gozim.Base.Lex.{lex_lt, lex_lt_irrefl}
use gozim.Glass.Block.{Item, Block, new_block, find_item}
use gozim.Glass.Btree.{
  Blocks, find_block, store_block, Btree, search_block, get, needs_split, separator, child_of,
  Inserted, split_block, split_if_full, insert_into_leaf, insert_into_block, insert_at_root, insert,
  first_key,
}
use gozim.Glass.Btree.Keys.{
  SortedKeys, lookup, put, Placed, place, lt_not_eq, leaf_search, leaf_search-lookup,
  put-SortedKeys,
}
use gozim.Glass.Btree.Leaf.{
  search_block-leaf, find_block-length, insert_into_block-leaf, with_leaf, store_find,
}

-- What sort.Slice does to items that are in order already.
abbrev pub KeepsSorted : (List Item → List Item) → Type 0
KeepsSorted sort = (is : List Item) → SortedKeys is → sort is ≡ is

All-at :
    (P : Item → Type 0) (m : ℕ) (is rest : List Item) (i : Item)
    → All P is
    → drop m is ≡ i ∷ rest
    → P i
All-at P m is rest i h e = (subst (All P) e (All-drop P m is h)).0

take-SortedKeys : (m : ℕ) (is : List Item) → SortedKeys is → SortedKeys (take m is)
take-SortedKeys zero is s = tt
take-SortedKeys (suc m) [] s = tt
take-SortedKeys (suc m) (i ∷ is) s =
    (All-take (λ (j : Item). lex_lt i.key j.key ≡ true) m is s.0, take-SortedKeys m is s.1)

-- The first key of the second half is not in the first half.
lookup-take :
    (m : ℕ) (is rest : List Item) (i : Item)
    → SortedKeys is
    → drop m is ≡ i ∷ rest
    → lookup i.key (take m is) ≡ none
unfolding lookup
lookup-take zero is rest i s e = refl
lookup-take (suc m) [] rest i s e = cc
lookup-take (suc m) (x ∷ is) rest i s e =
    rw (lt_not_eq x.key i.key (All-at (λ j. lex_lt x.key j.key ≡ true) m is rest i s.0 e))
      (lookup-take m is rest i s.1 e)

List-cases : (is : List Item) → (is ≡ []) ⊎ ((i : Item) × (rest : List Item) × (is ≡ i ∷ rest))
List-cases [] = inl refl
List-cases (i ∷ rest) = inr (i, rest, refl)

half :
    (is : List Item)
    → 0 < length is
    → (i : Item) × (rest : List Item) × (drop (length is / 2) is ≡ i ∷ rest)
half is pos = elim (List-cases (drop (length is / 2) is)) [
  | inl empty ↦ absurd (omega (arith, length-drop (length is / 2) is, ap (length {A = Item}) empty))
  | inr (i, rest, e) ↦ (i, rest, e)
]

length-put : (key tag : List ℕ) (is : List Item) → 0 < length (put key tag is)
unfolding put
length-put key tag [] = omega arith
length-put key tag (i ∷ is) = ground arith

-- The separator's own search goes to the first child.
find_item-separator :
    (k : List ℕ) (l r : ℕ) → child_of (find_item (separator [] l ∷ separator k r ∷ []) k) ≡ 0
unfolding find_item
find_item-separator k l r = ground (arith, lex_lt_irrefl k)

abbrev halves : (List Item → List Item) → Block → Inserted
halves sort b = record {
  left = (split_block sort b).0;
  right = some (split_block sort b).1;
  existed = false;
}

insert_into_leaf-split :
    (sort : List Item → List Item) (b : Block) (key tag : List ℕ)
    → SortedKeys b.items
    → lookup key b.items ≡ none
    → needs_split (put key tag b.items) ≡ true
    → insert_into_leaf sort b key tag ≡ ok (halves sort (record b { items = put key tag b.items }))
unfolding insert_into_leaf leaf_search
insert_into_leaf-split sort b key tag s absent full = elim (place key tag b.items) [
  | Placed.old i at same eq ↦
      let found : leaf_search b.items key ≡ some i.tag = rw (at, leaf_search) (rw same refl) in
      absurd (cc (leaf_search-lookup b.items key s, found, absent))
  | Placed.fresh apart eq ↦ elim (Option-cases (get_elem? b.items (find_item b.items key))) [
    | inl gone ↦ rw (gone, insert_into_leaf, eq) (unfold split_if_full in rw full refl)
    | inr (i, at) ↦ rw (at, insert_into_leaf, apart i at, eq) (unfold split_if_full in rw full refl)
  ]
]

search_block-branch :
    (fuel : ℕ) (blocks : Blocks) (b child : Block) (key : List ℕ) (item : Item)
    → (b.level == 0) ≡ false
    → get_elem? b.items (child_of (find_item b.items key)) ≡ some item
    → find_block item.block_number blocks ≡ some child
    → search_block (suc fuel) blocks b key ≡ search_block fuel blocks child key
unfolding search_block
search_block-branch fuel blocks b child key item branch at found =
    rw (branch, search_block, at, found) refl

find_skip :
    (n m : ℕ) (b : Block) (bs : Blocks)
    → (m == n) ≡ false
    → find_block n (store_block m b bs) ≡ find_block n bs
unfolding find_block
find_skip n m b bs h = rw (h, find_block) refl

-- The tree after a split of its root, with the halves and the key between them.
abbrev grown : Btree → Block → Block → List ℕ → Btree
grown t left right key = record t {
  root = t.max_block + 1 + 1;
  level = (t.level + 1) % 256;
  num_entries = t.num_entries + 1;
  blocks =
      store_block (t.max_block + 1 + 1)
        (record new_block {
          level = (t.level + 1) % 256;
          revision = 1;
          items = separator [] t.root ∷ separator key (t.max_block + 1) ∷ [];
        })
        (store_block (t.max_block + 1) right (store_block t.root left t.blocks));
  max_block = t.max_block + 1 + 1;
}

insert-split :
    (sort : List Item → List Item) (t : Btree) (b left right : Block) (key tag : List ℕ) (i : Item)
    (rest : List Item)
    → t.root ≢ 0
    → insert_into_block sort (length t.blocks) t t.root key tag
      ≡ ok (with_leaf t left, some right, false)
    → right.items ≡ i ∷ rest
    → insert sort t key tag ≡ ok (grown t left right i.key, true)
unfolding insert insert_at_root first_key
insert-split sort t b left right key tag i rest root step e =
    let some_root : (t.root == 0) ≡ false = ground arith in
    let k : first_key right.items ≡ ok i.key = ap first_key e in
    simp (some_root, step, insert, insert_at_root, k)

get-grown :
    (t : Btree) (left right : Block) (key : List ℕ)
    → t.root ≤ t.max_block
    → t.level ≡ 0
    → left.level ≡ 0
    → SortedKeys left.items
    → get (grown t left right key) key ≡ ok (lookup key left.items)
unfolding get
get-grown t left right key below level leaf s =
    let u = grown t left right key in
    let top = record new_block {
      level = (t.level + 1) % 256;
      revision = 1;
      items = separator [] t.root ∷ separator key (t.max_block + 1) ∷ [];
    } in
    let lower = store_block (t.max_block + 1) right (store_block t.root left t.blocks) in
    let found : find_block t.root u.blocks ≡ some left =
      find_skip t.root (t.max_block + 1 + 1) top lower (ground arith)
      ∙ find_skip t.root (t.max_block + 1) right (store_block t.root left t.blocks) (ground arith)
      ∙ store_find t.root left t.blocks in
    let child = find_item-separator key t.root (t.max_block + 1) in
    let some_root : (u.root == 0 || length u.blocks == 0) ≡ false = ground arith in
    rw (some_root, store_find u.root top lower, get)
      (search_block-branch (suc (suc (length t.blocks))) u.blocks top left key (separator [] t.root)
          (ground arith) (rw child refl) found
        ∙ search_block-leaf (suc (length t.blocks)) u.blocks left key leaf s)

module _ (sort : List Item → List Item) (keeps : KeepsSorted sort) (t : Btree) (b : Block) where
  -- An insertion of a new key that fills the root leaf splits it. Afterwards `get` does not find the
  -- first key of the second half, though that half holds it: the search for the key that separates
  -- the halves goes to the first half.
  pub insert-loses-separator :
      (key tag : List ℕ)
      → t.root ≢ 0
      → t.root ≤ t.max_block
      → t.level ≡ 0
      → find_block t.root t.blocks ≡ some b
      → b.level ≡ 0
      → SortedKeys b.items
      → lookup key b.items ≡ none
      → needs_split (put key tag b.items) ≡ true
      → (u : Btree) × (i : Item) × (rest : List Item) × (insert sort t key tag ≡ ok (u, true))
        × (find_block (t.max_block + 1) u.blocks
            ≡ some (split_block sort (record b { items = put key tag b.items })).1)
        × (drop (length (put key tag b.items) / 2) (put key tag b.items) ≡ i ∷ rest)
        × (get u i.key ≡ ok none)
  unfolding split_block
  insert-loses-separator key tag root below level at leaf s absent full =
      let items = put key tag b.items in
      let mid = length items / 2 in
      let s' = put-SortedKeys key tag b.items s in
      let (i, rest, e) = half items (length-put key tag b.items) in
      let b' = record b { items = items } in
      let left = (split_block sort b').0 in
      let right = (split_block sort b').1 in
      let same = keeps items s' in
      let firsts : right.items ≡ i ∷ rest =
        ap (λ (is : List Item). drop (length is / 2) is) same ∙ e in
      let lower : left.items ≡ take mid items =
        ap (λ (is : List Item). take (length is / 2) is) same in
      let step =
        insert_into_block-leaf sort (length t.blocks) t b key tag (halves sort b')
          (find_block-length t.root t.blocks b at) at leaf
          (insert_into_leaf-split sort b key tag s absent full) in
      let sorted : SortedKeys left.items =
        subst SortedKeys (sym lower) (take-SortedKeys mid items s') in
      (
        grown t left right i.key,
        i,
        rest,
        insert-split sort t b left right key tag i rest root step firsts,
        find_skip (t.max_block + 1) (t.max_block + 1 + 1) _ _ (ground arith)
            ∙ store_find (t.max_block + 1) right (store_block t.root left t.blocks),
        e,
        get-grown t left right i.key below level leaf sorted
            ∙ ap (λ is. ok (lookup i.key is)) lower
            ∙ ap ok (lookup-take mid items rest i s' e),
      )
