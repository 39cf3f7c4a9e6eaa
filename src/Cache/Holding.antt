-- ===== src/Cache/Holding.antt =====
-- All shards of the cache in step with the specification, and within what their sizes may add up to.
use gozim.Base.{
  ℕ, zero, suc, ◌+◌, ◌^◌, ◌≤◌, ◌<◌, ◌≡◌, refl, ap, ◌∙◌, List, [], ◌∷◌, length, get_elem?, set,
  replicate, some, arith,
}
use gozim.Cache.{Shard, clear, shard_index}
use gozim.Cache.Spec.{Lru}
use gozim.Cache.Refines.{Shows}
use gozim.Cache.Runs.{clear-Shows}
use gozim.Cache.Sharded.{Cache, with_shard, clear_all, clear_entries}

shard_index-lt : (key : ℕ) → shard_index key < 32
unfolding shard_index
shard_index-lt key = omega arith

module _ {V : Type 0} where
  -- Shard by shard.
  abbrev pub AllShow : List (Shard V) → List (Lru V) → Type 0
  AllShow [] [] = Unit {0}
  AllShow (s ∷ ss) (l ∷ ls) = Shows s l × AllShow ss ls
  AllShow _ _ = ⊥

  -- A shard in step with the specification, of a size of at most this.
  pub record Holds (top : ℕ) (s : Shard V) (l : Lru V) : Type 0 where
    pub shows : Shows s l
    pub size : s.size ≤ top
    pub bound : s.max_size < 2 ^ 63

  abbrev pub AllHold : ℕ → List (Shard V) → List (Lru V) → Type 0
  AllHold top [] [] = Unit {0}
  AllHold top (s ∷ ss) (l ∷ ls) = Holds top s l × AllHold top ss ls
  AllHold top _ _ = ⊥

  Holds-more : (top more : ℕ) (s : Shard V) (l : Lru V) → Holds top s l → Holds (top + more) s l
  Holds-more top more s l h = record {
    shows = h.shows;
    size = omega (arith, h.size);
    bound = h.bound;
  }

  AllHold-more :
      (top more : ℕ) (ss : List (Shard V)) (ls : List (Lru V))
      → AllHold top ss ls
      → AllHold (top + more) ss ls
  AllHold-more top more [] [] h = tt
  AllHold-more top more [] (l ∷ ls) h = absurd h
  AllHold-more top more (s ∷ ss) [] h = absurd h
  AllHold-more top more (s ∷ ss) (l ∷ ls) h =
      (Holds-more top more s l h.0, AllHold-more top more ss ls h.1)

  pub AllHold-AllShow :
      (top : ℕ) (ss : List (Shard V)) (ls : List (Lru V)) → AllHold top ss ls → AllShow ss ls
  AllHold-AllShow top [] [] h = tt
  AllHold-AllShow top [] (l ∷ ls) h = absurd h
  AllHold-AllShow top (s ∷ ss) [] h = absurd h
  AllHold-AllShow top (s ∷ ss) (l ∷ ls) h = (h.0.shows, AllHold-AllShow top ss ls h.1)

  -- What is found at an index of both, and what replacing it does.
  AllHold-at :
      (top more : ℕ) (ss : List (Shard V)) (ls : List (Lru V)) (i : ℕ)
      → AllHold top ss ls
      → i < length ss
      → (s : Shard V) × (l : Lru V) × (get_elem? ss i ≡ some s)
        × (get_elem? ls i ≡ some l)
        × Holds top s l
        × ((s' : Shard V) (l' : Lru V)
            → Holds (top + more) s' l'
            → AllHold (top + more) (set ss i s') (set ls i l'))
  AllHold-at top more [] ls i h inside = absurd (omega arith)
  AllHold-at top more (s ∷ ss) [] i h inside = absurd h
  AllHold-at top more (s ∷ ss) (l ∷ ls) zero h inside =
      (s, l, refl, refl, h.0, λ s' l' k. (k, AllHold-more top more ss ls h.1))
  AllHold-at top more (s ∷ ss) (l ∷ ls) (suc i) h inside =
      let (s0, l0, a, b, c, d) = AllHold-at top more ss ls i h.1 (omega arith) in
      (s0, l0, a, b, c, λ s' l' k. (Holds-more top more s l h.0, d s' l' k))

  -- A cache with its 32 shards in step with the specification.
  pub record Serves (top : ℕ) (c : Cache V) (ls : List (Lru V)) : Type 0 where
    pub shards : AllHold top c.shards ls
    pub number : length c.shards ≡ 32

  length-set : (ss : List (Shard V)) (i : ℕ) (s : Shard V) → length (set ss i s) ≡ length ss
  length-set [] i s = refl
  length-set (x ∷ ss) zero s = refl
  length-set (x ∷ ss) (suc i) s = ap suc (length-set ss i s)

  pub at_key :
      (top more : ℕ) (c : Cache V) (ls : List (Lru V)) (key : ℕ)
      → Serves top c ls
      → (s : Shard V) × (l : Lru V) × (get_elem? c.shards (shard_index key) ≡ some s)
        × (get_elem? ls (shard_index key) ≡ some l)
        × Holds top s l
        × ((s' : Shard V) (l' : Lru V)
            → Holds (top + more) s' l'
            → Serves (top + more) (with_shard c key s') (set ls (shard_index key) l'))
  at_key top more c ls key serves =
      let (s, l, a, b, holds, rest) =
        AllHold-at top more c.shards ls (shard_index key) serves.shards
          (omega (arith, shard_index-lt key, serves.number)) in
      (
        s,
        l,
        a,
        b,
        holds,
        λ s' l' k. record {
          shards = rest s' l' k;
          number = length-set c.shards (shard_index key) s' ∙ serves.number;
        },
      )

  pub AllHold-clear :
      (top more : ℕ) (ss : List (Shard V)) (ls : List (Lru V))
      → AllHold top ss ls
      → AllHold (top + more) (clear_all ss) (clear_entries ls) × (length (clear_all ss) ≡ length ss)
  unfolding clear_all clear_entries
  AllHold-clear top more [] [] h = (tt, refl)
  AllHold-clear top more [] (l ∷ ls) h = absurd h
  AllHold-clear top more (s ∷ ss) [] h = absurd h
  AllHold-clear top more (s ∷ ss) (l ∷ ls) h =
      let (rest, n) = AllHold-clear top more ss ls h.1 in
      (
        (
          record {
            shows = clear-Shows s l h.0.shows;
            size = unfold clear in omega arith;
            bound = unfold clear in h.0.bound;
          },
          rest,
        ),
        ap suc n,
      )

  pub replicate-AllHold :
      (top n : ℕ) (s : Shard V) (l : Lru V)
      → Holds top s l
      → AllHold top (replicate n s) (replicate n l)
  replicate-AllHold top zero s l h = tt
  replicate-AllHold top (suc n) s l h = (h, replicate-AllHold top n s l h)
