-- ===== src/Glass/Btree/Keys.antt =====
-- The items of a leaf as an ordered map, and the place of a key among them.
use gozim.Base.{
  ℕ, suc, ◌≡◌, refl, sym, ap, inl, inr, true, false, List, [], ◌∷◌, ◌++◌, length, take, drop, set,
  get_elem?, All, leb, le→leb, if◌then◌else◌, Bool-cases, Option, none, some, Result, ok, panic,
  arith,
}
use mathlib.Core.Path.{subst}
use gozim.Base.Lex.{
  bytes_eq, bytes_eq→eq, bytes_eq_refl, lex_lt, lex_lt_irrefl, lex_lt_trans, lex_lt_connex,
}
use gozim.Glass.Block.{Item, find_item}
use gozim.Glass.Btree.{insert_at, leaf_item}

-- The keys grow from each item to the next.
abbrev pub SortedKeys : List Item → Type 0
SortedKeys [] = Unit {0}
SortedKeys (i ∷ is) = All (λ (j : Item). lex_lt i.key j.key ≡ true) is × SortedKeys is

-- The tag under a key, by a walk over all items.
unfoldable pub lookup : List ℕ → List Item → Option (List ℕ)
lookup key [] = none
lookup key (i ∷ is) = if bytes_eq i.key key then some i.tag else lookup key is

-- The items with a tag under a key.
unfoldable pub put : List ℕ → List ℕ → List Item → List Item
put key tag [] = leaf_item key tag ∷ []
put key tag (i ∷ is) =
    if lex_lt i.key key
    then i ∷ put key tag is
    else if bytes_eq i.key key
    then (record i { tag = tag }) ∷ is
    else leaf_item key tag ∷ i ∷ is

pub lt_not_eq : (a b : List ℕ) → lex_lt a b ≡ true → bytes_eq a b ≡ false
lt_not_eq a b h = elim (Bool-cases (bytes_eq a b)) [
  | inr other ↦ other
  | inl same ↦ absurd (cc (lex_lt_irrefl a, ap (lex_lt a) (bytes_eq→eq a b same), h))
]

gt_not_eq : (a b : List ℕ) → lex_lt b a ≡ true → bytes_eq a b ≡ false
gt_not_eq a b h = elim (Bool-cases (bytes_eq a b)) [
  | inr other ↦ other
  | inl same ↦ absurd (cc (lex_lt_irrefl b, ap (lex_lt b) (bytes_eq→eq a b same), h))
]

-- Of two keys that are neither in order nor equal, the second is below the first.
above : (a b : List ℕ) → lex_lt a b ≡ false → bytes_eq a b ≡ false → lex_lt b a ≡ true
above a b h e = elim (Bool-cases (lex_lt b a)) [
  | inl lt ↦ lt
  | inr ge ↦ absurd (cc (bytes_eq_refl a, ap (bytes_eq a) (lex_lt_connex a b h ge), e))
]

lookup_above :
    (key : List ℕ) (is : List Item)
    → All (λ (j : Item). lex_lt key j.key ≡ true) is
    → lookup key is ≡ none
unfolding lookup
lookup_above key [] h = refl
lookup_above key (i ∷ is) h = rw (gt_not_eq i.key key h.0) (lookup_above key is h.1)

All-above :
    (a b : List ℕ) (is : List Item)
    → lex_lt a b ≡ true
    → All (λ (j : Item). lex_lt b j.key ≡ true) is
    → All (λ (j : Item). lex_lt a j.key ≡ true) is
All-above a b [] h s = tt
All-above a b (i ∷ is) h s = (lex_lt_trans a b i.key h s.0, All-above a b is h s.1)

-- What `search_block` does in a leaf.
unfoldable pub leaf_search : List Item → List ℕ → Option (List ℕ)
leaf_search items key = elim (get_elem? items (find_item items key)) [
  | none ↦ none
  | some item ↦ if bytes_eq item.key key then some item.tag else none
]

pub leaf_result :
    (items : List Item) (key : List ℕ)
    → (elim (get_elem? items (find_item items key)) [
      | none ↦ ok none
      | some item ↦ if bytes_eq item.key key then ok (some item.tag) else ok none
    ])
      ≡ ok (leaf_search items key)
unfolding leaf_search
leaf_result items key = ground arith

pub leaf_search-lookup :
    (items : List Item) (key : List ℕ) → SortedKeys items → leaf_search items key ≡ lookup key items
unfolding leaf_search find_item lookup
leaf_search-lookup [] key s = refl
leaf_search-lookup (i ∷ is) key s = elim (Bool-cases (lex_lt i.key key)) [
  | inl low ↦
      let ih = leaf_search-lookup is key s.1 in
      rw (low, leaf_search, find_item) (rw (lt_not_eq i.key key low) ih)
  | inr high ↦ elim (Bool-cases (bytes_eq i.key key)) [
    | inl same ↦ rw (high, same, leaf_search, find_item) refl
    | inr other ↦
        let none_left =
          lookup_above key is (All-above key i.key is (above i.key key high other) s.0) in
        rw (high, other, leaf_search, find_item) (sym none_left)
  ]
]

bytes_eq-lookup : (a b : List ℕ) (j : List ℕ) → bytes_eq a b ≡ true → bytes_eq b j ≡ bytes_eq a j
bytes_eq-lookup a b j h = ap (λ k. bytes_eq k j) (sym (bytes_eq→eq a b h))

pub lookup-put :
    (key tag : List ℕ) (is : List Item) (j : List ℕ)
    → lookup j (put key tag is) ≡ (if bytes_eq key j then some tag else lookup j is)
unfolding lookup put
lookup-put key tag [] j = refl
lookup-put key tag (i ∷ is) j = elim (Bool-cases (lex_lt i.key key)) [
  | inl low ↦ rw low (elim (Bool-cases (bytes_eq i.key j)) [
    | inr other ↦ rw other (lookup-put key tag is j)
    | inl same ↦
        let apart : bytes_eq key j ≡ false =
          gt_not_eq key j (subst (λ k. lex_lt k key ≡ true) (bytes_eq→eq i.key j same) low) in
        rw (same, apart) refl
  ])
  | inr high ↦ elim (Bool-cases (bytes_eq i.key key)) [
    | inl same ↦
        rw (high, same)
          (elim (Bool-cases (bytes_eq i.key j)) [
            | inl here ↦ rw (here, bytes_eq-lookup i.key key j same, here) refl
            | inr other ↦ rw (other, bytes_eq-lookup i.key key j same, other) refl
          ])
    | inr other ↦ rw (high, other) refl
  ]
]

All-put :
    (k key tag : List ℕ) (is : List Item)
    → lex_lt k key ≡ true
    → All (λ (j : Item). lex_lt k j.key ≡ true) is
    → All (λ (j : Item). lex_lt k j.key ≡ true) (put key tag is)
unfolding put
All-put k key tag [] h s = (h, tt)
All-put k key tag (i ∷ is) h s = elim (Bool-cases (lex_lt i.key key)) [
  | inl low ↦ rw low (s.0, All-put k key tag is h s.1)
  | inr high ↦ elim (Bool-cases (bytes_eq i.key key)) [
    | inl same ↦ rw (high, same) s
    | inr other ↦ rw (high, other) (h, s)
  ]
]

pub put-SortedKeys :
    (key tag : List ℕ) (is : List Item) → SortedKeys is → SortedKeys (put key tag is)
unfolding put
put-SortedKeys key tag [] s = (tt, tt)
put-SortedKeys key tag (i ∷ is) s = elim (Bool-cases (lex_lt i.key key)) [
  | inl low ↦ rw low (All-put i.key key tag is low s.0, put-SortedKeys key tag is s.1)
  | inr high ↦ elim (Bool-cases (bytes_eq i.key key)) [
    | inl same ↦ rw (high, same) s
    | inr other ↦
        let below = above i.key key high other in
        rw (high, other) ((below, All-above key i.key is below s.0), s)
  ]
]

-- The key stands at the index that `find_item` gives, or belongs there.
pub data Placed (key tag : List ℕ) (is : List Item) : Type 0 where
  old :
      (i : Item)
      → get_elem? is (find_item is key) ≡ some i
      → bytes_eq i.key key ≡ true
      → put key tag is ≡ set is (find_item is key) (record i { tag = tag })
      → Placed key tag is
  fresh :
      ((i : Item) → get_elem? is (find_item is key) ≡ some i → bytes_eq i.key key ≡ false)
      → insert_at (find_item is key) (leaf_item key tag) is ≡ ok (put key tag is)
      → Placed key tag is

insert_at-cons :
    (n : ℕ) (x i : Item) (is out : List Item)
    → insert_at n x is ≡ ok out
    → insert_at (suc n) x (i ∷ is) ≡ ok (i ∷ out)
unfolding insert_at
insert_at-cons n x i is out h = elim (Bool-cases (leb n (length is))) [
  | inl fits ↦
      let h' : ok (take n is ++ (x ∷ drop n is)) ≡ ok out = rw fits at h in
      let fits' : leb (suc n) (suc (length is)) ≡ true = ground arith in
      rw fits' (ground (arith, h'))
  | inr past ↦ let h' : ◌≡◌ {A = Result (List Item)} panic (ok out) = rw past at h in absurd (cc h')
]

insert_at_zero : (x : Item) (is : List Item) → insert_at 0 x is ≡ ok (x ∷ is)
unfolding insert_at
insert_at_zero x is = rw (le→leb 0 (length is) (omega arith), insert_at) refl

pub place : (key tag : List ℕ) (is : List Item) → Placed key tag is
unfolding find_item put
place key tag [] = fresh (λ i e. cc e) (insert_at_zero (leaf_item key tag) [])
place key tag (i ∷ is) = elim (Bool-cases (lex_lt i.key key)) [
  | inl low ↦ elim (place key tag is) [
    | old x at same eq ↦
        old x (rw (low, find_item) at) same (rw (low, find_item, put) (ap (◌∷◌ i) eq))
    | fresh apart eq ↦
        fresh (λ x at. apart x (rw (low, find_item) at at))
          (rw (low, find_item, put)
            (insert_at-cons (find_item is key) (leaf_item key tag) i is _ eq))
  ]
  | inr high ↦ elim (Bool-cases (bytes_eq i.key key)) [
    | inl same ↦ old i (rw (high, find_item) refl) same (rw (high, same, find_item, put) refl)
    | inr other ↦
        fresh
          (λ x e. let e' : some i ≡ some x = rw (high, find_item) at e in ground (arith, e', other))
          (rw (high, other, find_item, put) (insert_at_zero (leaf_item key tag) (i ∷ is)))
  ]
]
