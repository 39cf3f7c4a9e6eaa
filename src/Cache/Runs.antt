-- ===== src/Cache/Runs.antt =====
-- Any sequence of calls on a shard does what the specification says.
use gozim.Base.{
  ℕ, zero, suc, ◌+◌, ◌%◌, ◌^◌, ◌≤◌, ◌<◌, ◌≡◌, refl, sym, ap, ◌∙◌, inl, inr, true, ltb, ltb→lt,
  Bool-cases, Option-cases, List, [], ◌∷◌, ◌++◌, length, none, some, arith,
}
use mathlib.Core.Path.{subst}
use gozim.Cache.{
  Element, Shard, find, delete, element, unlink, evict, evict_loop, lt64, store, put, remove, clear,
}
use gozim.Cache.Accounting.{List-cases, evict_loop_fits, evict_shrinks}
use gozim.Cache.Links.{OneToOne}
use gozim.Cache.Spec
use gozim.Cache.Spec.{Entry, Lru, assoc, erase, weight, kept}
use gozim.Cache.View.{
  entry_of, view, Distinct, assoc-view, assoc-view-none, view-unlink, view-delete,
}
use gozim.Cache.Linked.{IsLinked, out-IsLinked}
use gozim.Cache.Order.{element-unlink_same}
use gozim.Cache.Fitting.{
  weight-erase, weight-append, weight-kept, weight-erase_le, kept_all, kept_last, kept_nil,
}
use gozim.Cache.Refines.{Shows, hit}
use gozim.Cache.Storing.{with_entry, store-Shows, evict-Shows}

-- Sizes that an int64 has room for compare as numbers.
lt64_small : (a b : ℕ) → a < 2 ^ 63 → b < 2 ^ 63 → lt64 a b ≡ ltb a b
unfolding lt64
lt64_small a b h k =
    let p : (a + 2 ^ 63) % 2 ^ 64 ≡ a + 2 ^ 63 = omega (arith, h) in
    let q : (b + 2 ^ 63) % 2 ^ 64 ≡ b + 2 ^ 63 = omega (arith, k) in rw (p, q) (ground arith)

module _ {V : Type 0} where
  abbrev trimmed : Lru V → Lru V
  trimmed l = record l { entries = kept l.bound l.lost l.entries }

  evict_loop_nil : (fuel : ℕ) (s : Shard V) → s.order ≡ [] → evict_loop fuel s ≡ s
  unfolding evict_loop
  evict_loop_nil zero s h = refl
  evict_loop_nil (suc fuel) s h = simp (evict_loop, h)

  evict_loop_big :
      (fuel : ℕ) (s : Shard V) (f : Element V) (es : List (Element V))
      → s.order ≡ f ∷ es
      → lt64 s.max_size s.size ≡ true
      → evict_loop (suc fuel) s ≡ evict_loop fuel (evict s)
  unfolding evict_loop
  evict_loop_big fuel s f es h big = simp (evict_loop, h, big)

  -- A shard that needs no eviction already has the entries that are kept.
  Shows-trimmed :
      (s : Shard V) (l : Lru V)
      → kept l.bound l.lost l.entries ≡ l.entries
      → Shows s l
      → Shows s (trimmed l)
  Shows-trimmed s l same shows = record {
    linked = shows.linked;
    entries = shows.entries ∙ sym same;
    size = omega (arith, shows.size, ap (weight {V = V}) same);
    bound = shows.bound;
  }

  empty-Shows :
      (fuel : ℕ) (s : Shard V) (l : Lru V)
      → s.order ≡ []
      → Shows s l
      → Shows (evict_loop fuel s) (trimmed l)
  empty-Shows fuel s l empty shows =
      let none_left : l.entries ≡ [] =
        sym shows.entries ∙ ap (view s.items) empty ∙ unfold view in refl in
      subst (λ x. Shows x (trimmed l)) (sym (evict_loop_nil fuel s empty))
        (Shows-trimmed s l
          (ap (kept l.bound l.lost) none_left ∙ kept_nil l.bound l.lost ∙ sym none_left) shows)

  -- An entry too many does not change what is kept.
  kept_front :
      (s : Shard V) (l : Lru V) (front : List (Entry V)) (x : Entry V)
      → Shows s l
      → l.entries ≡ front ++ (x ∷ [])
      → ltb s.max_size s.size ≡ true
      → kept l.bound l.lost l.entries ≡ kept l.bound l.lost front
  kept_front s l front x shows split big =
      ap (kept l.bound l.lost) split
      ∙ kept_last l.bound l.lost front x (
          omega (
            arith,
            shows.size,
            shows.bound,
            weight-append front x,
            ap (weight {V = V}) split,
            ltb→lt s.max_size s.size big,
          ))

  -- The loop of `Set` leaves the longest front part that fits.
  evict_loop-Shows :
      (fuel : ℕ) (s : Shard V) (l : Lru V)
      → length s.order ≤ fuel
      → s.size < 2 ^ 63
      → s.max_size < 2 ^ 63
      → Shows s l
      → Shows (evict_loop fuel s) (trimmed l)
  evict_loop-Shows zero s l enough low top shows = elim (List-cases s.order) [
    | inl empty ↦ empty-Shows zero s l empty shows
    | inr (f, es, nonempty) ↦ absurd (omega (arith, ap (length {A = Element V}) nonempty))
  ]
  evict_loop-Shows (suc fuel) s l enough low top shows = elim (List-cases s.order) [
    | inl empty ↦ empty-Shows (suc fuel) s l empty shows
    | inr (f, es, nonempty) ↦
        let plain = lt64_small s.max_size s.size top low in
        elim (Bool-cases (ltb s.max_size s.size)) [
          | inr small ↦
              let fits : s.size ≤ s.max_size = ground (arith, small) in
              subst (λ x. Shows x (trimmed l)) (sym (evict_loop_fits (suc fuel) s (plain ∙ small)))
                (Shows-trimmed s l
                  (kept_all l.bound l.lost l.entries (omega (arith, shows.size, shows.bound)))
                  shows)
          | inl big ↦
              let (front, x, split, shows') = evict-Shows s l f es shows low nonempty in
              let (shorter, same) = evict_shrinks s f es nonempty in
              let rest =
                evict_loop-Shows fuel (evict s) (record l { entries = front })
                  (omega (arith, shorter))
                  (omega (
                    arith,
                    low,
                    shows.size,
                    shows'.size,
                    weight-append front x,
                    ap (weight {V = V}) split,
                  ))
                  (omega (arith, top, same)) shows' in
              subst (λ y. Shows y (trimmed l))
                (sym (evict_loop_big fuel s f es nonempty (plain ∙ big)))
                (subst (λ e. Shows (evict_loop fuel (evict s)) (record l { entries = e }))
                  (sym (kept_front s l front x shows split big)) rest)
        ]
  ]

  -- `Set` stores the entry as the most recent one and keeps the longest front part that fits, where
  -- the size has room in an int64.
  pub put-Shows :
      (s : Shard V) (l : Lru V) (key : ℕ) (v : V) (n : ℕ)
      → s.size + n < 2 ^ 63
      → s.max_size < 2 ^ 63
      → Shows s l
      → Shows (put s key v n) (Spec.put l key v n)
  unfolding put Spec.put
  put-Shows s l key v n low top shows =
      let stored = store-Shows s l key v n shows low in
      let grown : (store s key v n).size < 2 ^ 63 =
        unfold weight in
        omega (arith, stored.size, shows.size, low, weight-erase_le key l.entries) in
      evict_loop-Shows (length (store s key v n).order) (store s key v n) (with_entry l key v n)
        (omega arith) grown (omega (arith, stored.bound, shows.bound, top)) stored

  -- The size grows by that of the entry at most.
  pub put_grows :
      (s : Shard V) (l : Lru V) (key : ℕ) (v : V) (n : ℕ)
      → s.size + n < 2 ^ 63
      → s.max_size < 2 ^ 63
      → Shows s l
      → ((put s key v n).size ≤ s.size + n) × ((put s key v n).max_size ≡ s.max_size)
  unfolding Spec.put
  put_grows s l key v n low top shows =
      let after = put-Shows s l key v n low top shows in
      let all = record { key = key; value = v; size = n } ∷ erase key l.entries in
      (
        unfold weight in
            omega (
              arith,
              after.size,
              shows.size,
              weight-kept l.bound l.lost all,
              weight-erase_le key l.entries,
            ),
        after.bound ∙ sym shows.bound,
      )

  remove_miss : (s : Shard V) (key : ℕ) → find key s.items ≡ none → remove s key ≡ s
  unfolding remove
  remove_miss s key h = rw (remove, h) refl

  remove_hit :
      (s : Shard V) (key id : ℕ)
      → find key s.items ≡ some id
      → remove s key ≡ record s { order = unlink id s.order; items = delete key s.items }
  unfolding remove
  remove_hit s key id h = rw (remove, h) refl

  spec_out_miss : (l : Lru V) (key : ℕ) → assoc key l.entries ≡ none → Spec.remove l key ≡ l
  unfolding Spec.remove
  spec_out_miss l key h = rw (Spec.remove, h) refl

  spec_out_hit :
      (l : Lru V) (key : ℕ) (e : Entry V)
      → assoc key l.entries ≡ some e
      → Spec.remove l key ≡ record l { entries = erase key l.entries; lost = l.lost + e.size }
  unfolding Spec.remove
  spec_out_hit l key e h = rw (Spec.remove, h) refl

  Shows-paths : (s s' : Shard V) (l l' : Lru V) → s ≡ s' → l ≡ l' → Shows s' l' → Shows s l
  Shows-paths s s' l l' p q h = subst (λ a. Shows a l) (sym p) (subst (Shows s') (sym q) h)

  -- `Remove` takes the entry out; its size counts as lost.
  pub remove-Shows :
      (s : Shard V) (l : Lru V) (key : ℕ) → Shows s l → Shows (remove s key) (Spec.remove l key)
  remove-Shows s l key shows = elim (Option-cases (find key s.items)) [
    | inl miss ↦
        Shows-paths (remove s key) s (Spec.remove l key) l (remove_miss s key miss)
          (spec_out_miss l key (
            ap (assoc key) (sym shows.entries)
            ∙ assoc-view-none s.items s.order key shows.linked.one miss))
          shows
    | inr (id, there) ↦
        let (e, h, at) = hit s.items s.order s.fresh key id shows.linked there in
        let found : assoc key l.entries ≡ some (entry_of key e) =
          ap (assoc key) (sym shows.entries)
          ∙ assoc-view s.items s.order key e.id e shows.linked.one h at in
        let gone = element-unlink_same e.id s.order shows.linked.distinct in
        Shows-paths (remove s key)
          (record s { order = unlink e.id s.order; items = delete key s.items }) (Spec.remove l key)
          (record l { entries = erase key l.entries; lost = l.lost + e.size })
          (remove_hit s key e.id h) (spec_out_hit l key (entry_of key e) found)
          (record {
            linked = out-IsLinked s.items s.order s.fresh key e.id shows.linked h;
            entries =
                view-delete s.items (unlink e.id s.order) key e.id shows.linked.one h gone
                ∙ view-unlink s.items s.order key e.id shows.linked.one h
                ∙ ap (erase key) shows.entries;
            size = omega (arith, shows.size, weight-erase key l.entries (entry_of key e) found);
            bound = shows.bound;
          })
  ]

  pub empty-IsLinked : (fresh : ℕ) → IsLinked {V = V} [] [] fresh
  unfolding OneToOne Distinct find element
  empty-IsLinked fresh = record {
    one = tt;
    distinct = tt;
    present = λ k id h. cc h;
    known = λ id e h. cc h;
    old = λ k id h. cc h;
    count = refl;
  }

  pub clear-Shows : (s : Shard V) (l : Lru V) → Shows s l → Shows (clear s) (Spec.clear l)
  unfolding clear Spec.clear view weight
  clear-Shows s l shows = record {
    linked = empty-IsLinked s.fresh;
    entries = refl;
    size = omega arith;
    bound = shows.bound;
  }
