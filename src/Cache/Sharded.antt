-- ===== src/Cache/Sharded.antt =====
-- The whole cache: 32 shards, each under a lock of its own, so that a call is one step.
use gozim.Base.{
  ℕ, ◌+◌, ◌/◌, List, [], ◌∷◌, ◌++◌, length, get_elem?, set, replicate, ltb, if◌then◌else◌, Option,
  none, some, Result, ok, panic, ◌>>=◌,
}
use gozim.Cache.{Shard, get, put, remove, clear, shard_index}
use gozim.Cache.Spec
use gozim.Cache.Spec.{Lru}

-- `Cache`; the mask is always 31.
pub record Cache (V : Type 0) : Type 0 where
  pub shards : List (Shard V)
  pub max_size : ℕ

pub data Call (V : Type 0) : Type 0 where
  get_call remove_call : ℕ → Call V
  put_call : ℕ → V → ℕ → Call V
  clear_call : Call V

-- `shardSize`
abbrev pub shard_size : ℕ → ℕ
shard_size max = if ltb (max / 32) 1 then 1 else max / 32

module _ {V : Type 0} where
  abbrev pub new_shard : ℕ → Shard V
  new_shard max = record { items = []; order = []; size = 0; max_size = max; fresh = 0 }

  -- `NewCache`, with a size that is not negative
  unfoldable pub new_cache : ℕ → Cache V
  new_cache max = record { shards = replicate 32 (new_shard (shard_size max)); max_size = max }

  -- `shardForKey`: an index into the slice of shards.
  unfoldable pub shard_for_key : Cache V → ℕ → Result (Shard V)
  shard_for_key c key = elim (get_elem? c.shards (shard_index key)) [ none ↦ panic | some s ↦ ok s ]

  -- The cache with the shard of a key changed in place.
  abbrev pub with_shard : Cache V → ℕ → Shard V → Cache V
  with_shard c key s = record c { shards = set c.shards (shard_index key) s }

  unfoldable pub get_in : Cache V → ℕ → Result (Cache V × Option V)
  unfolding shard_for_key
  get_in c key = do s ← shard_for_key c key; ok (with_shard c key (get s key).0, (get s key).1)

  unfoldable pub put_in : Cache V → ℕ → V → ℕ → Result (Cache V)
  unfolding shard_for_key
  put_in c key value size = do s ← shard_for_key c key; ok (with_shard c key (put s key value size))

  unfoldable pub remove_in : Cache V → ℕ → Result (Cache V)
  unfolding shard_for_key
  remove_in c key = do s ← shard_for_key c key; ok (with_shard c key (remove s key))

  unfoldable pub clear_all : List (Shard V) → List (Shard V)
  clear_all [] = []
  clear_all (s ∷ ss) = clear s ∷ clear_all ss

  unfoldable pub clear_in : Cache V → Cache V
  unfolding clear_all
  clear_in c = record c { shards = clear_all c.shards }

  unfoldable pub count : List (Shard V) → ℕ
  count [] = 0
  count (s ∷ ss) = length s.items + count ss

  -- `Len`
  unfoldable pub len : Cache V → ℕ
  unfolding count
  len c = count c.shards

  -- One call, with what it answers.
  unfoldable pub call : Cache V → Call V → Result (Cache V × List (Option V))
  unfolding get_in put_in remove_in clear_in
  call c (get_call key) = do (c', v) ← get_in c key; ok (c', v ∷ [])
  call c (put_call key v n) = do c' ← put_in c key v n; ok (c', [])
  call c (remove_call key) = do c' ← remove_in c key; ok (c', [])
  call c clear_call = ok (clear_in c, [])

  unfoldable pub run : Cache V → List (Call V) → Result (Cache V × List (Option V))
  unfolding call
  run c [] = ok (c, [])
  run c (x ∷ xs) = do (c', a) ← call c x; (c'', bs) ← run c' xs; ok (c'', a ++ bs)

  -- The same calls on the specification, shard by shard.
  abbrev pub at_shard :
      List (Lru V) → ℕ → (Lru V → Lru V × List (Option V)) → List (Lru V) × List (Option V)
  at_shard ls key f = elim (get_elem? ls (shard_index key)) [
    | none ↦ (ls, [])
    | some l ↦ (set ls (shard_index key) (f l).0, (f l).1)
  ]

  unfoldable pub clear_entries : List (Lru V) → List (Lru V)
  clear_entries [] = []
  clear_entries (l ∷ ls) = Spec.clear l ∷ clear_entries ls

  unfoldable pub answer : List (Lru V) → Call V → List (Lru V) × List (Option V)
  unfolding clear_entries
  answer ls (get_call key) = at_shard ls key (λ l. ((Spec.get l key).0, (Spec.get l key).1 ∷ []))
  answer ls (put_call key v n) = at_shard ls key (λ l. (Spec.put l key v n, []))
  answer ls (remove_call key) = at_shard ls key (λ l. (Spec.remove l key, []))
  answer ls clear_call = (clear_entries ls, [])

  unfoldable pub answers : List (Lru V) → List (Call V) → List (Lru V) × List (Option V)
  unfolding answer
  answers ls [] = (ls, [])
  answers ls (x ∷ xs) =
      let first = answer ls x in let rest = answers first.0 xs in (rest.0, first.1 ++ rest.1)
