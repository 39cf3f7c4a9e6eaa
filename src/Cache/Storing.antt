-- ===== src/Cache/Storing.antt =====
-- `Set`, `Remove` and `Clear` of a shard do what its specification says.
use gozim.Base.{
  ℕ, ◌+◌, ◌^◌, ◌<◌, ◌≡◌, refl, sym, ap, ◌∙◌, inl, inr, Option-cases, List, [], ◌∷◌, ◌++◌, none,
  some, arith,
}
use mathlib.Core.Path.{subst}
use gozim.Cache.{Element, Shard, find, delete, key_of, element, unlink, back, evict, store, add64}
use gozim.Format.{sub64}
use gozim.Cache.Accounting.{back-some}
use gozim.Cache.Links.{key_of-find, find-key_of}
use gozim.Cache.Spec.{Entry, Lru, assoc, erase, weight}
use gozim.Cache.View.{
  entry_of, view, view_known, assoc-view, assoc-view-none, view-delete, view_insert,
}
use gozim.Cache.Linked.{IsLinked, front-IsLinked, push-IsLinked, out-IsLinked}
use gozim.Cache.Order.{element-unlink_same, back_lem, view-append_last}
use gozim.Cache.Fitting.{weight-erase, erase_absent, weight-append}
use gozim.Cache.Refines.{Shows, hit, view-front}

module _ {V : Type 0} where
  -- The entry stored, before anything is evicted.
  abbrev pub with_entry : Lru V → ℕ → V → ℕ → Lru V
  with_entry l key v n = record l {
    entries = record { key = key; value = v; size = n } ∷ erase key l.entries;
  }

  abbrev pushed : Shard V → ℕ → V → ℕ → Shard V
  pushed s key v n = record s {
    items = (key, s.fresh) ∷ s.items;
    order = record { id = s.fresh; value = v; size = n } ∷ s.order;
    size = add64 s.size n;
    fresh = s.fresh + 1;
  }

  abbrev renewed : Shard V → Element V → V → ℕ → Shard V
  renewed s e v n = record s {
    order = record { id = e.id; value = v; size = n } ∷ unlink e.id s.order;
    size = add64 s.size (sub64 n e.size);
  }

  store_new :
      (s : Shard V) (key : ℕ) (v : V) (n : ℕ)
      → find key s.items ≡ none
      → store s key v n ≡ pushed s key v n
  unfolding store
  store_new s key v n h = rw (store, h) refl

  store_old :
      (s : Shard V) (key : ℕ) (v : V) (n : ℕ) (e : Element V)
      → find key s.items ≡ some e.id
      → element e.id s.order ≡ some e
      → store s key v n ≡ renewed s e v n
  unfolding store
  store_old s key v n e h at = rw (store, h, at) refl

  -- The number of the next element is new.
  fresh_key :
      (items : List (ℕ × ℕ)) (order : List (Element V)) (fresh : ℕ)
      → IsLinked items order fresh
      → key_of fresh items ≡ none
  fresh_key items order fresh linked = elim (Option-cases (key_of fresh items)) [
    | inl new ↦ new
    | inr (k, known) ↦
        absurd (omega (arith, linked.old k fresh (find-key_of items k fresh linked.one known)))
  ]

  fresh_element :
      (items : List (ℕ × ℕ)) (order : List (Element V)) (fresh : ℕ)
      → IsLinked items order fresh
      → element fresh order ≡ none
  fresh_element items order fresh linked = elim (Option-cases (element fresh order)) [
    | inl new ↦ new
    | inr (e, there) ↦
        let (k, h) = linked.known fresh e there in absurd (omega (arith, linked.old k fresh h))
  ]

  pushed-Shows :
      (s : Shard V) (l : Lru V) (key : ℕ) (v : V) (n : ℕ)
      → Shows s l
      → s.size + n < 2 ^ 63
      → find key s.items ≡ none
      → Shows (pushed s key v n) (with_entry l key v n)
  unfolding add64
  pushed-Shows s l key v n shows small new =
      let e : Element V = record { id = s.fresh; value = v; size = n } in
      let absent : assoc key l.entries ≡ none =
        ap (assoc key) (sym shows.entries)
        ∙ assoc-view-none s.items s.order key shows.linked.one new in
      let unknown = fresh_key s.items s.order s.fresh shows.linked in
      let gone = fresh_element s.items s.order s.fresh shows.linked in
      let linked = push-IsLinked s.items s.order s.fresh key e shows.linked refl new gone unknown in
      let known : key_of s.fresh ((key, s.fresh) ∷ s.items) ≡ some key =
        key_of-find ((key, s.fresh) ∷ s.items) key s.fresh linked.one
          (unfold find in ground arith) in
      let same = erase_absent key l.entries absent in
      record {
        linked = linked;
        entries =
            view_known ((key, s.fresh) ∷ s.items) e s.order key known
            ∙ ap (◌∷◌ (entry_of key e))
                (view_insert s.items s.order key s.fresh gone ∙ shows.entries ∙ sym same);
        size = unfold weight in omega (arith, shows.size, ap (weight {V = V}) same);
        bound = shows.bound;
      }

  renewed-Shows :
      (s : Shard V) (l : Lru V) (key : ℕ) (v : V) (n : ℕ) (e : Element V)
      → Shows s l
      → s.size + n < 2 ^ 63
      → find key s.items ≡ some e.id
      → element e.id s.order ≡ some e
      → Shows (renewed s e v n) (with_entry l key v n)
  unfolding add64
  renewed-Shows s l key v n e shows small h at =
      let f : Element V = record { id = e.id; value = v; size = n } in
      let found : assoc key l.entries ≡ some (entry_of key e) =
        ap (assoc key) (sym shows.entries)
        ∙ assoc-view s.items s.order key e.id e shows.linked.one h at in
      record {
        linked = front-IsLinked s.items s.order s.fresh f e shows.linked at;
        entries =
            view-front s.items s.order key f shows.linked.one h
            ∙ ap (λ x. entry_of key f ∷ erase key x) shows.entries;
        size =
            unfold weight in
            omega (arith, shows.size, weight-erase key l.entries (entry_of key e) found);
        bound = shows.bound;
      }

  pub store-Shows :
      (s : Shard V) (l : Lru V) (key : ℕ) (v : V) (n : ℕ)
      → Shows s l
      → s.size + n < 2 ^ 63
      → Shows (store s key v n) (with_entry l key v n)
  store-Shows s l key v n shows small = elim (Option-cases (find key s.items)) [
    | inl new ↦
        subst (λ x. Shows x (with_entry l key v n)) (sym (store_new s key v n new))
          (pushed-Shows s l key v n shows small new)
    | inr (id, there) ↦
        let (e, h, at) = hit s.items s.order s.fresh key id shows.linked there in
        subst (λ x. Shows x (with_entry l key v n)) (sym (store_old s key v n e h at))
          (renewed-Shows s l key v n e shows small h at)
  ]

  abbrev evicted : Shard V → List (Element V) → ℕ → Element V → Shard V
  evicted s rest k e = record s {
    order = rest;
    items = delete k s.items;
    size = sub64 s.size e.size;
  }

  evict_steps :
      (s : Shard V) (rest : List (Element V)) (e : Element V) (k : ℕ)
      → back s.order ≡ some (e, rest)
      → key_of e.id s.items ≡ some k
      → evict s ≡ evicted s rest k e
  unfolding evict
  evict_steps s rest e k h known = rw (evict, h, known) refl

  -- Taking the last element out takes the last entry off.
  pub evict-Shows :
      (s : Shard V) (l : Lru V) (f : Element V) (es : List (Element V))
      → Shows s l
      → s.size < 2 ^ 63
      → s.order ≡ f ∷ es
      → (front : List (Entry V)) × (x : Entry V) × (l.entries ≡ front ++ (x ∷ []))
        × Shows (evict s) (record l { entries = front })
  evict-Shows s l f es shows small nonempty =
      let (e, rest, b) = back-some f es in
      let at : back s.order ≡ some (e, rest) = ap back nonempty ∙ b in
      let (there, unlinked, split) = back_lem s.order rest e shows.linked.distinct at in
      let (k, h) = shows.linked.known e.id e there in
      let known = key_of-find s.items k e.id shows.linked.one h in
      let gone : element e.id rest ≡ none =
        ap (element e.id) (sym unlinked) ∙ element-unlink_same e.id s.order shows.linked.distinct in
      let shown : l.entries ≡ view s.items rest ++ (entry_of k e ∷ []) =
        sym shows.entries ∙ ap (view s.items) split ∙ view-append_last s.items rest e k known in
      (
        view s.items rest,
        entry_of k e,
        shown,
        subst (λ x. Shows x (record l { entries = view s.items rest }))
            (sym (evict_steps s rest e k at known))
            (record {
              linked =
                  subst (λ r. IsLinked (delete k s.items) r s.fresh) unlinked
                    (out-IsLinked s.items s.order s.fresh k e.id shows.linked h);
              entries = view-delete s.items rest k e.id shows.linked.one h gone;
              size = omega (
                arith,
                shows.size,
                weight-append (view s.items rest) (entry_of k e),
                ap (weight {V = V}) shown,
              );
              bound = shows.bound;
            }),
      )
