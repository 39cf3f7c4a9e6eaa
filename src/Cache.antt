-- ===== src/Cache.antt =====
-- archive/zim/cache.go: one shard of the LRU cache. The map goes from keys to elements of the list,
-- which are pointers: an element has a number, and the list holds it with its value and size.
pub mod Accounting
pub mod Links
pub mod Spec
pub mod View
pub mod Linked
pub mod Order
pub mod Fitting
pub mod Refines
pub mod Storing
pub mod Runs
pub mod Sharded
pub mod Holding
pub mod Served
use gozim.Base.{
  ℕ, zero, suc, ◌+◌, ◌-◌, ◌*◌, ◌/◌, ◌%◌, ◌^◌, ◌≤◌, ◌<◌, ◌≡◌, Bool, true, false, List, [], ◌∷◌, ◌++◌,
  length, ltb, leb, ◌==◌, if◌then◌else◌, Option, none, some,
}
use gozim.Format.{sub64}
use Prim.Native.Nat.{bit_xor}

-- `list.Element` with its `cacheItem`
pub record Element (V : Type 0) : Type 0 where
  pub id : ℕ
  pub value : V
  pub size : ℕ

-- `cacheShard`; `fresh` is the number of the next element. A size is an int64, kept as its 64 bits.
pub record Shard (V : Type 0) : Type 0 where
  pub items : List (ℕ × ℕ)
  pub order : List (Element V)
  pub size : ℕ
  pub max_size : ℕ
  pub fresh : ℕ

-- `+` and `<` of int64
unfoldable pub add64 : ℕ → ℕ → ℕ
add64 a b = (a + b) % 2 ^ 64

unfoldable pub lt64 : ℕ → ℕ → Bool
lt64 a b = ltb ((a + 2 ^ 63) % 2 ^ 64) ((b + 2 ^ 63) % 2 ^ 64)

-- `items[key]`
unfoldable pub find : ℕ → List (ℕ × ℕ) → Option ℕ
find key [] = none
find key ((k, e) ∷ items) = if k == key then some e else find key items

-- `delete(items, key)`
unfoldable pub delete : ℕ → List (ℕ × ℕ) → List (ℕ × ℕ)
delete key [] = []
delete key ((k, e) ∷ items) =
    let rest = delete key items in if k == key then rest else (k, e) ∷ rest

-- The key of an element, in whatever order the map is walked.
unfoldable pub key_of : ℕ → List (ℕ × ℕ) → Option ℕ
key_of id [] = none
key_of id ((k, e) ∷ items) = if e == id then some k else key_of id items

module _ {V : Type 0} where
  -- The element with a number, in the list.
  unfoldable pub element : ℕ → List (Element V) → Option (Element V)
  element id [] = none
  element id (e ∷ es) = if e.id == id then some e else element id es

  -- `order.Remove(elem)`
  unfoldable pub unlink : ℕ → List (Element V) → List (Element V)
  unlink id [] = []
  unlink id (e ∷ es) = if e.id == id then es else e ∷ unlink id es

  -- `Get`: a hit moves to the front.
  unfoldable pub get : Shard V → ℕ → Shard V × Option V
  unfolding find element unlink
  get s key = elim (find key s.items) [
    | none ↦ (s, none)
    | some id ↦ elim (element id s.order) [
      | none ↦ (s, none)
      | some e ↦ (record s { order = e ∷ unlink id s.order }, some e.value)
    ]
  ]

  -- The last element of the list, and the list without it.
  unfoldable pub back : List (Element V) → Option (Element V × List (Element V))
  back [] = none
  back (e ∷ []) = some (e, [])
  back (e ∷ f ∷ es) = elim (back (f ∷ es)) [ none ↦ none | some (l, rest) ↦ some (l, e ∷ rest) ]

  -- `evictLocked`
  unfoldable pub evict : Shard V → Shard V
  unfolding back key_of delete
  evict s = elim (back s.order) [
    | none ↦ s
    | some (e, rest) ↦ elim (key_of e.id s.items) [
      | none ↦ record s { order = rest }
      | some k ↦ record s { order = rest; items = delete k s.items; size = sub64 s.size e.size }
    ]
  ]

  -- The loop of `Set`. Each round takes an element, so the length of the list is fuel enough.
  unfoldable pub evict_loop : ℕ → Shard V → Shard V
  unfolding evict lt64
  evict_loop zero s = s
  evict_loop (suc fuel) s = elim s.order [
    | [] ↦ s
    | _ ∷ _ ↦ elim (lt64 s.max_size s.size) [ true ↦ evict_loop fuel (evict s) | false ↦ s ]
  ]

  -- The two branches of `Set`, before the loop.
  unfoldable pub store : Shard V → ℕ → V → ℕ → Shard V
  unfolding find element unlink add64
  store s key value size = elim (find key s.items) [
    | none ↦ record s {
      items = (key, s.fresh) ∷ s.items;
      order = record { id = s.fresh; value = value; size = size } ∷ s.order;
      size = add64 s.size size;
      fresh = s.fresh + 1;
    }
    | some id ↦ elim (element id s.order) [
      | none ↦ s
      | some e ↦ record s {
        order = record { id = id; value = value; size = size } ∷ unlink id s.order;
        size = add64 s.size (sub64 size e.size);
      }
    ]
  ]

  unfoldable pub put : Shard V → ℕ → V → ℕ → Shard V
  unfolding store evict_loop
  put s key value size = let s = store s key value size in evict_loop (length s.order) s

  -- `Remove`
  unfoldable pub remove : Shard V → ℕ → Shard V
  unfolding find delete unlink
  remove s key = elim (find key s.items) [
    | none ↦ s
    | some id ↦ record s { order = unlink id s.order; items = delete key s.items }
  ]

  -- `Clear`
  unfoldable pub clear : Shard V → Shard V
  clear s = record s { items = []; order = []; size = 0 }

-- `hashKey` of a uint32, the type of the keys of the cluster cache, and the shard that it selects
unfoldable pub hash_key : ℕ → ℕ
hash_key k = k * 2654435761 % 2 ^ 32

unfoldable pub shard_index : ℕ → ℕ
unfolding hash_key
shard_index k = hash_key k % 32

-- `fnv32`
unfoldable pub fnv32_from : ℕ → List ℕ → ℕ
fnv32_from hash [] = hash
fnv32_from hash (b ∷ bs) = fnv32_from (bit_xor hash b * 16777619 % 2 ^ 32) bs

unfoldable pub fnv32 : List ℕ → ℕ
unfolding fnv32_from
fnv32 s = fnv32_from 2166136261 s
