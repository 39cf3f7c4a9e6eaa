-- ===== src/Tests/Caches.antt =====
-- archive/zim/cache.go on small inputs.
use gozim.Base.{ℕ, ◌<◌, ◌≡◌, refl, List, [], ◌∷◌, some, ok, arith}
use gozim.Cache
use gozim.Cache.{Element, Shard, put}
use gozim.Cache.Accounting.{total, remove_leaks}
use gozim.Cache.Sharded.{Cache, Call, get_call, put_call, remove_call, run, new_cache, len, answers}
use gozim.Cache.Holding.{AllShow}
use gozim.Cache.Served.{new_lrus, entry_count, cost, total_cost, run-new_cache}

-- the keys 5 and 6, with values of the sizes 3 and 4
abbrev five : Element ℕ
five = record { id = 0; value = 50; size = 3 }

abbrev shard : Shard ℕ
shard = record {
  items = (6, 1) ∷ (5, 0) ∷ [];
  order = (record { id = 1; value = 60; size = 4 }) ∷ five ∷ [];
  size = 7;
  max_size = 10;
  fresh = 2;
}

shard-exact : shard.size ≡ total shard.order
unfolding total
shard-exact = refl

five-there : (Cache.find 5 shard.items ≡ some 0) × (Cache.element 0 shard.order ≡ some five)
unfolding Cache.find Cache.element
five-there = (refl, refl)

remove_leaks_example : total (Cache.remove shard 5).order < (Cache.remove shard 5).size
remove_leaks_example =
    remove_leaks shard 5 0 five shard-exact five-there.0 five-there.1 (omega arith)

-- a cache whose shards have room for 10, and calls on the keys 5 and 37
abbrev calls : List (Call ℕ)
calls =
    put_call 5 50 6
    ∷ put_call 37 70 7
    ∷ get_call 5
    ∷ remove_call 37
    ∷ put_call 5 51 3
    ∷ get_call 5
    ∷ []

run-new_cache_example :
    (c : Cache ℕ) × (run (new_cache 320) calls ≡ ok (c, (answers (new_lrus 320) calls).1))
    × AllShow c.shards (answers (new_lrus 320) calls).0
    × (len c ≡ entry_count (answers (new_lrus 320) calls).0)
run-new_cache_example =
    run-new_cache 320 calls (omega arith) (unfold total_cost in unfold cost in omega arith)
