-- ===== src/Cache/Served.antt =====
-- The whole cache does what its specification says, for every sequence of calls.
use gozim.Base.{
  ℕ, ◌+◌, ◌^◌, ◌<◌, inl, inr, Option-cases, ◌≡◌, refl, sym, ap, ◌∙◌, List, [], ◌∷◌, ◌++◌, length,
  get_elem?, set, replicate, length-replicate, Option, some, Result, ok, ◌>>=◌, arith,
}
use mathlib.Core.Path.{subst}
use gozim.Cache.{Shard, find, element, get, put, remove, shard_index}
use gozim.Cache.Links.{key_of-find}
use gozim.Cache.Order.{length-view}
use gozim.Cache.Spec
use gozim.Cache.Spec.{Entry, Lru, weight}
use gozim.Cache.View.{view}
use gozim.Cache.Refines.{Shows, get-Shows}
use gozim.Cache.Runs.{put-Shows, put_grows, remove-Shows, empty-IsLinked}
use gozim.Cache.Sharded.{
  count, len, Cache, Call, get_call, put_call, remove_call, clear_call, new_shard, shard_size,
  new_cache, with_shard, shard_for_key, get_in, put_in, remove_in, clear_in, call, run, at_shard,
  answer, answers,
}
use gozim.Cache.Holding.{AllShow, AllHold-AllShow, Serves, at_key, AllHold-clear, replicate-AllHold}

module _ {V : Type 0} where
  -- What a call or a run leaves and answers agrees with the specification.
  abbrev Agrees : ℕ → Result (Cache V × List (Option V)) → List (Lru V) × List (Option V) → Type 0
  Agrees top r (ls, answers) = (c : Cache V) × (r ≡ ok (c, answers)) × Serves top c ls

  get_size :
      (s : Shard V) (key : ℕ)
      → ((get s key).0.size ≡ s.size) × ((get s key).0.max_size ≡ s.max_size)
  unfolding get
  get_size s key = elim (Option-cases (find key s.items)) [
    | inl miss ↦ rw (miss, get) (refl, refl)
    | inr (id, there) ↦ elim (Option-cases (element id s.order)) [
      | inl gone ↦ rw (there, gone, get) (refl, refl)
      | inr (e, at) ↦ rw (there, at, get) (refl, refl)
    ]
  ]

  remove_size :
      (s : Shard V) (key : ℕ)
      → ((remove s key).size ≡ s.size) × ((remove s key).max_size ≡ s.max_size)
  unfolding remove
  remove_size s key = elim (Option-cases (find key s.items)) [
    | inl miss ↦ rw (miss, remove) (refl, refl)
    | inr (id, there) ↦ rw (there, remove) (refl, refl)
  ]

  get_call_steps :
      (c : Cache V) (ls : List (Lru V)) (key : ℕ) (s : Shard V) (l : Lru V)
      → get_elem? c.shards (shard_index key) ≡ some s
      → get_elem? ls (shard_index key) ≡ some l
      → (call c (get_call key) ≡ ok (with_shard c key (get s key).0, (get s key).1 ∷ []))
        × (answer ls (get_call key)
            ≡ (set ls (shard_index key) (Spec.get l key).0, (Spec.get l key).1 ∷ []))
  unfolding call get_in shard_for_key answer
  get_call_steps c ls key s l a b =
      (rw (call, get_in, shard_for_key, a) refl, rw (answer, at_shard, b) refl)

  put_call_steps :
      (c : Cache V) (ls : List (Lru V)) (key : ℕ) (v : V) (n : ℕ) (s : Shard V) (l : Lru V)
      → get_elem? c.shards (shard_index key) ≡ some s
      → get_elem? ls (shard_index key) ≡ some l
      → (call c (put_call key v n) ≡ ok (with_shard c key (put s key v n), []))
        × (answer ls (put_call key v n) ≡ (set ls (shard_index key) (Spec.put l key v n), []))
  unfolding call put_in shard_for_key answer
  put_call_steps c ls key v n s l a b =
      (rw (call, put_in, shard_for_key, a) refl, rw (answer, at_shard, b) refl)

  remove_call_steps :
      (c : Cache V) (ls : List (Lru V)) (key : ℕ) (s : Shard V) (l : Lru V)
      → get_elem? c.shards (shard_index key) ≡ some s
      → get_elem? ls (shard_index key) ≡ some l
      → (call c (remove_call key) ≡ ok (with_shard c key (remove s key), []))
        × (answer ls (remove_call key) ≡ (set ls (shard_index key) (Spec.remove l key), []))
  unfolding call remove_in shard_for_key answer
  remove_call_steps c ls key s l a b =
      (rw (call, remove_in, shard_for_key, a) refl, rw (answer, at_shard, b) refl)

  Agrees-paths :
      (top : ℕ) (r r' : Result (Cache V × List (Option V))) (y y' : List (Lru V) × List (Option V))
      → r ≡ r'
      → y ≡ y'
      → Agrees top r' y'
      → Agrees top r y
  Agrees-paths top r r' y y' p q h =
      subst (λ a. Agrees top a y) (sym p) (subst (Agrees top r') (sym q) h)

  -- What a call may add to the size of a shard, and what a sequence of calls may.
  unfoldable pub cost : Call V → ℕ
  cost (put_call key v n) = n
  cost _ = 0

  unfoldable pub total_cost : List (Call V) → ℕ
  unfolding cost
  total_cost [] = 0
  total_cost (x ∷ xs) = cost x + total_cost xs

  call-Agrees :
      (top : ℕ) (c : Cache V) (ls : List (Lru V)) (x : Call V)
      → top + cost x < 2 ^ 63
      → Serves top c ls
      → Agrees (top + cost x) (call c x) (answer ls x)
  unfolding cost
  call-Agrees top c ls (get_call key) room serves =
      let (s, l, a, b, holds, rest) = at_key top 0 c ls key serves in
      let (p, q) = get_call_steps c ls key s l a b in
      let (shows', same) = get-Shows s l key holds.shows in
      let (size, bound) = get_size s key in
      Agrees-paths _ _ _ _ _ p q (
        with_shard c key (get s key).0,
        ap (λ v. ok (with_shard c key (get s key).0, v ∷ [])) same,
        rest (get s key).0 (Spec.get l key).0 (record {
          shows = shows';
          size = omega (arith, size, holds.size);
          bound = omega (arith, bound, holds.bound);
        }),
      )
  call-Agrees top c ls (put_call key v n) room serves =
      let (s, l, a, b, holds, rest) = at_key top n c ls key serves in
      let (p, q) = put_call_steps c ls key v n s l a b in
      let low : s.size + n < 2 ^ 63 = omega (arith, holds.size, room) in
      let (size, bound) = put_grows s l key v n low holds.bound holds.shows in
      Agrees-paths _ _ _ _ _ p q (
        with_shard c key (put s key v n),
        refl,
        rest _ _ (record {
          shows = put-Shows s l key v n low holds.bound holds.shows;
          size = omega (arith, size, holds.size);
          bound = omega (arith, bound, holds.bound);
        }),
      )
  call-Agrees top c ls (remove_call key) room serves =
      let (s, l, a, b, holds, rest) = at_key top 0 c ls key serves in
      let (p, q) = remove_call_steps c ls key s l a b in
      let (size, bound) = remove_size s key in
      Agrees-paths _ _ _ _ _ p q (
        with_shard c key (remove s key),
        refl,
        rest _ _ (record {
          shows = remove-Shows s l key holds.shows;
          size = omega (arith, size, holds.size);
          bound = omega (arith, bound, holds.bound);
        }),
      )
  call-Agrees top c ls clear_call room serves =
      let (holds, n) = AllHold-clear top 0 c.shards ls serves.shards in
      unfold call in
      unfold answer in
      unfold clear_in in (clear_in c, refl, record { shards = holds; number = n ∙ serves.number })

  run_steps :
      (c c' : Cache V) (x : Call V) (xs : List (Call V)) (a : List (Option V))
      → call c x ≡ ok (c', a)
      → run c (x ∷ xs) ≡ (run c' xs >>= λ y. ok (y.0, a ++ y.1))
  unfolding run
  run_steps c c' x xs a h = rw (run, h) refl

  run-Agrees :
      (top : ℕ) (c : Cache V) (ls : List (Lru V)) (xs : List (Call V))
      → top + total_cost xs < 2 ^ 63
      → Serves top c ls
      → (last : ℕ) × Agrees last (run c xs) (answers ls xs)
  unfolding run answers total_cost
  run-Agrees top c ls [] room serves = (top, (c, refl, serves))
  run-Agrees top c ls (x ∷ xs) room serves =
      let (c', p, serves') = call-Agrees top c ls x (omega (arith, room)) serves in
      let (last, (c'', q, serves'')) =
        run-Agrees (top + cost x) c' (answer ls x).0 xs (omega (arith, room)) serves' in
      (
        last,
        (
          c'',
          run_steps c c' x xs (answer ls x).1 p
              ∙ ap (λ y. y >>= λ z. ok (z.0, (answer ls x).1 ++ z.1)) q,
          serves'',
        ),
      )

  -- The entries of all shards.
  unfoldable pub entry_count : List (Lru V) → ℕ
  entry_count [] = 0
  entry_count (l ∷ ls) = length l.entries + entry_count ls

  Shows-length : (s : Shard V) (l : Lru V) → Shows s l → length s.items ≡ length l.entries
  Shows-length s l shows =
      let n = length-view s.items s.order shows.linked.distinct (λ id e at.
        let (k, h) = shows.linked.known id e at in
        (k, key_of-find s.items k id shows.linked.one h)) in
      omega (arith, shows.linked.count, n, ap (length {A = Entry V}) shows.entries)

  count_lem : (ss : List (Shard V)) (ls : List (Lru V)) → AllShow ss ls → count ss ≡ entry_count ls
  unfolding count entry_count
  count_lem [] [] h = refl
  count_lem [] (l ∷ ls) h = absurd h
  count_lem (s ∷ ss) [] h = absurd h
  count_lem (s ∷ ss) (l ∷ ls) h = omega (arith, Shows-length s l h.0, count_lem ss ls h.1)

  -- The specification of a new cache: 32 empty shards with an equal share of the bound.
  abbrev pub new_lrus : ℕ → List (Lru V)
  new_lrus max = replicate 32 (record { entries = []; lost = 0; bound = shard_size max })

  new_cache-Serves : (max : ℕ) → max < 2 ^ 63 → Serves 0 (new_cache max) (new_lrus max)
  unfolding new_cache
  new_cache-Serves max small =
      let s : Shard V = new_shard (shard_size max) in
      let l : Lru V = record { entries = []; lost = 0; bound = shard_size max } in
      let shows : Shows s l =
        unfold view in
        unfold weight in
        record { linked = empty-IsLinked 0; entries = refl; size = refl; bound = refl } in
      let share : shard_size max < 2 ^ 63 = ground (arith, small) in
      record {
        shards =
            replicate-AllHold 0 32 s l
              (record { shows = shows; size = omega arith; bound = share });
        number = length-replicate 32 s;
      }

  -- A new cache, after any sequence of calls, has answered every `Get` as the specification does: a
  -- list of entries for each shard, most recently used first, in which `Set` keeps the longest front
  -- part that fits the shard's share of the bound, less what `Remove` has lost. No call panics, the
  -- shards hold those entries in that order, and `Len` is their number. The bound of the cache and
  -- the sum of the sizes that the calls of `Set` name are below 2^63, so that no sum wraps.
  pub run-new_cache :
      (max : ℕ) (xs : List (Call V))
      → max < 2 ^ 63
      → total_cost xs < 2 ^ 63
      → (c : Cache V) × (run (new_cache max) xs ≡ ok (c, (answers (new_lrus max) xs).1))
        × AllShow c.shards (answers (new_lrus max) xs).0
        × (len c ≡ entry_count (answers (new_lrus max) xs).0)
  unfolding len
  run-new_cache max xs small room =
      let (last, (c, same, serves)) =
        run-Agrees 0 (new_cache max) (new_lrus max) xs (omega (arith, room))
          (new_cache-Serves max small) in
      let shows = AllHold-AllShow last c.shards (answers (new_lrus max) xs).0 serves.shards in
      (c, same, shows, count_lem c.shards (answers (new_lrus max) xs).0 shows)
