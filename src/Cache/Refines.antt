-- ===== src/Cache/Refines.antt =====
-- One shard of the cache does what its specification says.
use gozim.Base.{
  ℕ, ◌+◌, ◌≡◌, refl, sym, ap, ◌∙◌, inl, inr, Option-cases, List, ◌∷◌, Option, none, some, arith,
}
use mathlib.Core.Path.{subst}
use gozim.Cache.{Element, Shard, find, element, unlink, get}
use gozim.Cache.Links.{OneToOne, key_of-find}
use gozim.Cache.Spec
use gozim.Cache.Spec.{Entry, Lru, assoc, erase, weight, kept}
use gozim.Cache.Linked.{IsLinked, front-IsLinked}
use gozim.Cache.View.{
  entry_of, view, view_known, element-id, assoc-view, assoc-view-none, view-unlink,
}
use gozim.Cache.Fitting.{weight-erase}

module _ {V : Type 0} where
  -- The shard stands for the entries of the specification.
  pub record Shows (s : Shard V) (l : Lru V) : Type 0 where
    pub linked : IsLinked s.items s.order s.fresh
    pub entries : view s.items s.order ≡ l.entries
    pub size : s.size ≡ weight l.entries + l.lost
    pub bound : s.max_size ≡ l.bound

  -- The element of a key.
  pub hit :
      (items : List (ℕ × ℕ)) (order : List (Element V)) (fresh key id : ℕ)
      → IsLinked items order fresh
      → find key items ≡ some id
      → (e : Element V) × (find key items ≡ some e.id) × (element e.id order ≡ some e)
  hit items order fresh key id linked h =
      let (e, there) = linked.present key id h in
      let same = element-id id order e there in
      (e, h ∙ ap some (sym same), ap (λ i. element i order) same ∙ there)

  get_miss : (s : Shard V) (key : ℕ) → find key s.items ≡ none → get s key ≡ (s, none)
  unfolding get
  get_miss s key h = rw (get, h) refl

  get_hit :
      (s : Shard V) (key : ℕ) (e : Element V)
      → find key s.items ≡ some e.id
      → element e.id s.order ≡ some e
      → get s key ≡ (record s { order = e ∷ unlink e.id s.order }, some e.value)
  unfolding get
  get_hit s key e h at = rw (get, h, at) refl

  spec_miss : (l : Lru V) (key : ℕ) → assoc key l.entries ≡ none → Spec.get l key ≡ (l, none)
  unfolding Spec.get
  spec_miss l key h = rw (Spec.get, h) refl

  spec_hit :
      (l : Lru V) (key : ℕ) (e : Entry V)
      → assoc key l.entries ≡ some e
      → Spec.get l key ≡ (record l { entries = e ∷ erase key l.entries }, some e.value)
  unfolding Spec.get
  spec_hit l key e h = rw (Spec.get, h) refl

  -- What an element in front, and the others without it, show.
  pub view-front :
      (items : List (ℕ × ℕ)) (order : List (Element V)) (key : ℕ) (e : Element V)
      → OneToOne items
      → find key items ≡ some e.id
      → view items (e ∷ unlink e.id order) ≡ entry_of key e ∷ erase key (view items order)
  view-front items order key e one h =
      view_known items e (unlink e.id order) key (key_of-find items key e.id one h)
      ∙ ap (◌∷◌ (entry_of key e)) (view-unlink items order key e.id one h)

  abbrev Agrees : Shard V × Option V → Lru V × Option V → Type 0
  Agrees (s, a) (l, b) = Shows s l × (a ≡ b)

  Agrees-paths :
      (x x' : Shard V × Option V) (y y' : Lru V × Option V)
      → x ≡ x'
      → y ≡ y'
      → Agrees x' y'
      → Agrees x y
  Agrees-paths x x' y y' p q h = subst (λ a. Agrees a y) (sym p) (subst (Agrees x') (sym q) h)

  -- `Get` answers what the specification says, and keeps the shard in step with it.
  pub get-Shows :
      (s : Shard V) (l : Lru V) (key : ℕ)
      → Shows s l
      → Shows (get s key).0 (Spec.get l key).0 × ((get s key).1 ≡ (Spec.get l key).1)
  get-Shows s l key shows = elim (Option-cases (find key s.items)) [
    | inl miss ↦
        Agrees-paths (get s key) (s, none) (Spec.get l key) (l, none) (get_miss s key miss)
          (spec_miss l key (
            ap (assoc key) (sym shows.entries)
            ∙ assoc-view-none s.items s.order key shows.linked.one miss))
          (shows, refl)
    | inr (id, there) ↦
        let (e, h, at) = hit s.items s.order s.fresh key id shows.linked there in
        let found : assoc key l.entries ≡ some (entry_of key e) =
          ap (assoc key) (sym shows.entries)
          ∙ assoc-view s.items s.order key e.id e shows.linked.one h at in
        Agrees-paths (get s key) (record s { order = e ∷ unlink e.id s.order }, some e.value)
          (Spec.get l key)
          (record l { entries = entry_of key e ∷ erase key l.entries }, some e.value)
          (get_hit s key e h at) (spec_hit l key (entry_of key e) found)
          (
            record {
              linked = front-IsLinked s.items s.order s.fresh e e shows.linked at;
              entries =
                  view-front s.items s.order key e shows.linked.one h
                  ∙ ap (λ x. entry_of key e ∷ erase key x) shows.entries;
              size =
                  unfold weight in
                  omega (arith, shows.size, weight-erase key l.entries (entry_of key e) found);
              bound = shows.bound;
            },
            refl,
          )
  ]
