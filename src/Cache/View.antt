-- ===== src/Cache/View.antt =====
-- The entries that the list and the map of a shard stand for.
use gozim.Base.{
  ℕ, ◌≡◌, ◌≢◌, refl, sym, ap, ◌∙◌, inl, inr, false, ◌==◌, Bool-cases, Option-cases, List, [], ◌∷◌,
  none, some, arith,
}
use gozim.Cache.{Element, find, delete, key_of, element, unlink}
use gozim.Cache.Links.{OneToOne, key_of-find, find-key_of, key_of-delete_other}
use gozim.Cache.Spec.{Entry, assoc, erase}

-- Another element has another key.
other_key :
    (items : List (ℕ × ℕ)) (k k' id id' : ℕ)
    → OneToOne items
    → find k items ≡ some id
    → key_of id' items ≡ some k'
    → id' ≢ id
    → k' ≢ k
other_key items k k' id id' one h h' other same =
    let e : find k items ≡ some id' = rw same at (find-key_of items k' id' one h') in
    other (ground (arith, e, h))

key_of_past :
    (k id id' : ℕ) (items : List (ℕ × ℕ))
    → (id' == id) ≡ false
    → key_of id' ((k, id) ∷ items) ≡ key_of id' items
unfolding key_of
key_of_past k id id' items h = ground (arith, h)

module _ {V : Type 0} where
  abbrev pub entry_of : ℕ → Element V → Entry V
  entry_of k e = record { key = k; value = e.value; size = e.size }

  -- The elements in order, each with its key.
  unfoldable pub view : List (ℕ × ℕ) → List (Element V) → List (Entry V)
  view items [] = []
  view items (e ∷ es) = elim (key_of e.id items) [
    | none ↦ view items es
    | some k ↦ entry_of k e ∷ view items es
  ]

  -- No element twice.
  unfoldable pub Distinct : List (Element V) → Type 0
  unfolding element
  Distinct [] = Unit {0}
  Distinct (e ∷ es) = (element e.id es ≡ none) × Distinct es

  pub view_known :
      (items : List (ℕ × ℕ)) (e : Element V) (es : List (Element V)) (k : ℕ)
      → key_of e.id items ≡ some k
      → view items (e ∷ es) ≡ entry_of k e ∷ view items es
  unfolding view
  view_known items e es k h = rw (view, h) refl

  pub view_unknown :
      (items : List (ℕ × ℕ)) (e : Element V) (es : List (Element V))
      → key_of e.id items ≡ none
      → view items (e ∷ es) ≡ view items es
  unfolding view
  view_unknown items e es h = rw (view, h) refl

  pub element-id :
      (id : ℕ) (es : List (Element V)) (e : Element V) → element id es ≡ some e → e.id ≡ id
  unfolding element
  element-id id [] e h = cc h
  element-id id (f ∷ es) e h = ground (arith, element-id id es e)

  assoc_here : (k : ℕ) (e : Entry V) (es : List (Entry V)) → e.key ≡ k → assoc k (e ∷ es) ≡ some e
  unfolding assoc
  assoc_here k e es h = ground (arith, h)

  assoc_there :
      (k : ℕ) (e : Entry V) (es : List (Entry V)) → e.key ≢ k → assoc k (e ∷ es) ≡ assoc k es
  unfolding assoc
  assoc_there k e es h = ground (arith, h)

  erase_here : (k : ℕ) (e : Entry V) (es : List (Entry V)) → e.key ≡ k → erase k (e ∷ es) ≡ es
  unfolding erase
  erase_here k e es h = ground (arith, h)

  erase_there :
      (k : ℕ) (e : Entry V) (es : List (Entry V)) → e.key ≢ k → erase k (e ∷ es) ≡ e ∷ erase k es
  unfolding erase
  erase_there k e es h = ground (arith, h)

  -- An element of the list is found under its key.
  pub assoc-view :
      (items : List (ℕ × ℕ)) (es : List (Element V)) (k id : ℕ) (e : Element V)
      → OneToOne items
      → find k items ≡ some id
      → element id es ≡ some e
      → assoc k (view items es) ≡ some (entry_of k e)
  unfolding element
  assoc-view items [] k id e one h at = cc at
  assoc-view items (f ∷ es) k id e one h at = elim (Bool-cases (f.id == id)) [
    | inl here ↦
        let same : f ≡ e = ground (arith, here, at) in
        let at' : f.id ≡ id = ground (arith, here) in
        let known : key_of f.id items ≡ some k =
          ap (λ i. key_of i items) at' ∙ key_of-find items k id one h in
        ap (assoc k) (view_known items f es k known)
        ∙ assoc_here k (entry_of k f) (view items es) refl
        ∙ ap (λ x. some (entry_of k x)) same
    | inr later ↦
        let rest = assoc-view items es k id e one h (ground (arith, later, at)) in
        elim (Option-cases (key_of f.id items)) [
          | inl lost ↦ ap (assoc k) (view_unknown items f es lost) ∙ rest
          | inr (k', known) ↦
              ap (assoc k) (view_known items f es k' known)
              ∙ assoc_there k (entry_of k' f) (view items es)
                  (other_key items k k' id f.id one h known (ground (arith, later)))
              ∙ rest
        ]
  ]

  pub assoc-view-none :
      (items : List (ℕ × ℕ)) (es : List (Element V)) (k : ℕ)
      → OneToOne items
      → find k items ≡ none
      → assoc k (view items es) ≡ none
  assoc-view-none items [] k one h = unfold view in unfold assoc in refl
  assoc-view-none items (f ∷ es) k one h = elim (Option-cases (key_of f.id items)) [
    | inl lost ↦ ap (assoc k) (view_unknown items f es lost) ∙ assoc-view-none items es k one h
    | inr (k', known) ↦
        let there = find-key_of items k' f.id one known in
        ap (assoc k) (view_known items f es k' known)
        ∙ assoc_there k (entry_of k' f) (view items es) (λ same. ground (arith, same, there, h))
        ∙ assoc-view-none items es k one h
  ]

  pub view-unlink :
      (items : List (ℕ × ℕ)) (es : List (Element V)) (k id : ℕ)
      → OneToOne items
      → find k items ≡ some id
      → view items (unlink id es) ≡ erase k (view items es)
  unfolding unlink
  view-unlink items [] k id one h = unfold view in unfold erase in refl
  view-unlink items (f ∷ es) k id one h = elim (Bool-cases (f.id == id)) [
    | inl here ↦
        let at' : f.id ≡ id = ground (arith, here) in
        let known : key_of f.id items ≡ some k =
          ap (λ i. key_of i items) at' ∙ key_of-find items k id one h in
        ap (view items) (rw (unlink, here) refl)
        ∙ sym (
            ap (erase k) (view_known items f es k known)
            ∙ erase_here k (entry_of k f) (view items es) refl)
    | inr later ↦
        let step : unlink id (f ∷ es) ≡ f ∷ unlink id es = rw (unlink, later) refl in
        let rest = view-unlink items es k id one h in
        elim (Option-cases (key_of f.id items)) [
          | inl lost ↦
              ap (view items) step
              ∙ view_unknown items f (unlink id es) lost
              ∙ rest
              ∙ sym (ap (erase k) (view_unknown items f es lost))
          | inr (k', known) ↦
              ap (view items) step
              ∙ view_known items f (unlink id es) k' known
              ∙ ap (◌∷◌ (entry_of k' f)) rest
              ∙ sym (
                  ap (erase k) (view_known items f es k' known)
                  ∙ erase_there k (entry_of k' f) (view items es)
                      (other_key items k k' id f.id one h known (ground (arith, later))))
        ]
  ]

  view_step :
      (items items' : List (ℕ × ℕ)) (f : Element V) (es : List (Element V))
      → key_of f.id items' ≡ key_of f.id items
      → view items' es ≡ view items es
      → view items' (f ∷ es) ≡ view items (f ∷ es)
  view_step items items' f es same rest = elim (Option-cases (key_of f.id items)) [
    | inl lost ↦ view_unknown items' f es (same ∙ lost) ∙ rest ∙ sym (view_unknown items f es lost)
    | inr (k, known) ↦
        view_known items' f es k (same ∙ known)
        ∙ ap (◌∷◌ (entry_of k f)) rest
        ∙ sym (view_known items f es k known)
  ]

  -- A key that no element of the list has does not show.
  pub view-delete :
      (items : List (ℕ × ℕ)) (es : List (Element V)) (k id : ℕ)
      → OneToOne items
      → find k items ≡ some id
      → element id es ≡ none
      → view (delete k items) es ≡ view items es
  unfolding element
  view-delete items [] k id one h gone = unfold view in refl
  view-delete items (f ∷ es) k id one h gone = elim (Bool-cases (f.id == id)) [
    | inl here ↦ absurd (ground (arith, here, gone))
    | inr later ↦
        view_step items (delete k items) f es
          (key_of-delete_other items k f.id
            (λ known. let e = find-key_of items k f.id one known in ground (arith, later, e, h)))
          (view-delete items es k id one h (ground (arith, later, gone)))
  ]

  pub view_insert :
      (items : List (ℕ × ℕ)) (es : List (Element V)) (k id : ℕ)
      → element id es ≡ none
      → view ((k, id) ∷ items) es ≡ view items es
  unfolding element
  view_insert items [] k id gone = unfold view in refl
  view_insert items (f ∷ es) k id gone = elim (Bool-cases (f.id == id)) [
    | inl here ↦ absurd (ground (arith, here, gone))
    | inr later ↦
        view_step items ((k, id) ∷ items) f es (key_of_past k id f.id items later)
          (view_insert items es k id (ground (arith, later, gone)))
  ]
