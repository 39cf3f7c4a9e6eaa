-- ===== src/Cache/Accounting.antt =====
-- The size that a shard keeps, against the sizes of its elements.
use gozim.Base.{
  ℕ, zero, suc, false, ◌+◌, ◌<◌, ◌≡◌, refl, ap, ◌∙◌, ◌⊎◌, inl, inr, List, [], ◌∷◌, length, ◌==◌,
  Bool-cases, some, Option-cases, arith,
}
use gozim.Cache.{
  Element, Shard, find, element, unlink, key_of, back, evict, evict_loop, lt64, remove,
}

module _ {V : Type 0} where
  -- The sum of the sizes of the elements.
  unfoldable pub total : List (Element V) → ℕ
  total [] = 0
  total (e ∷ es) = e.size + total es

  pub total-unlink :
      (id : ℕ) (es : List (Element V)) (e : Element V)
      → element id es ≡ some e
      → total (unlink id es) + e.size ≡ total es
  unfolding total element unlink
  total-unlink id [] e h = cc
  total-unlink id (f ∷ es) e h = elim (Bool-cases (f.id == id)) [
    | inl same ↦
        let here : f ≡ e = ground arith in
        rw same (omega (arith, ap (λ (x : Element V). x.size) here))
    | inr other ↦ rw other (omega (arith, total-unlink id es e (ground arith)))
  ]

  -- An element that `remove` takes out of a shard stays counted in its size: the shard's size is the
  -- same as before, and the sizes of what it holds are less by that of the element.
  pub remove_keeps_size :
      (s : Shard V) (key id : ℕ) (e : Element V)
      → find key s.items ≡ some id
      → element id s.order ≡ some e
      → ((remove s key).size ≡ s.size) × (total (remove s key).order + e.size ≡ total s.order)
  unfolding remove
  remove_keeps_size s key id e f h =
      (rw (f, remove) refl, rw (f, remove) (total-unlink id s.order e h))

  -- So a shard whose size was right has one that is too large, once an element of positive size is
  -- removed.
  pub remove_leaks :
      (s : Shard V) (key id : ℕ) (e : Element V)
      → s.size ≡ total s.order
      → find key s.items ≡ some id
      → element id s.order ≡ some e
      → 0 < e.size
      → total (remove s key).order < (remove s key).size
  remove_leaks s key id e exact f h pos =
      let (same, less) = remove_keeps_size s key id e f h in omega (arith, same, less)

  pub length-back :
      (es rest : List (Element V)) (e : Element V)
      → back es ≡ some (e, rest)
      → (length es ≡ length rest + 1) × (total es ≡ total rest + e.size)
  unfolding back total
  length-back [] rest e h = cc
  length-back (f ∷ []) rest e h = ground arith
  length-back (f ∷ g ∷ es) rest e h = elim (Option-cases (back (g ∷ es))) [
    | inl gone ↦ absurd (ground arith)
    | inr ((l, r), at) ↦ ground (arith, length-back (g ∷ es) r l at)
  ]

  pub back-some :
      (f : Element V) (es : List (Element V))
      → (e : Element V) × (rest : List (Element V)) × (back (f ∷ es) ≡ some (e, rest))
  unfolding back
  back-some f [] = (f, [], refl)
  back-some f (g ∷ es) = let (e, rest, at) = back-some g es in (e, f ∷ rest, rw (at, back) refl)

  -- One round takes one element off, and leaves the bound alone.
  pub evict_shrinks :
      (s : Shard V) (f : Element V) (es : List (Element V))
      → s.order ≡ f ∷ es
      → (length (evict s).order + 1 ≡ length s.order) × ((evict s).max_size ≡ s.max_size)
  unfolding evict
  evict_shrinks s f es e =
      let (l, rest, at) = back-some f es in
      let at' : back s.order ≡ some (l, rest) = ap back e ∙ at in
      let shorter = length-back s.order rest l at' in
      elim (Option-cases (key_of l.id s.items)) [
        | inl lost ↦ rw (at', lost, evict) (omega (arith, shorter), refl)
        | inr (k, known) ↦ rw (at', known, evict) (omega (arith, shorter), refl)
      ]

  pub List-cases :
      (es : List (Element V))
      → (es ≡ []) ⊎ ((f : Element V) × (r : List (Element V)) × (es ≡ f ∷ r))
  List-cases [] = inl refl
  List-cases (f ∷ r) = inr (f, r, refl)

  pub evict_loop_fits :
      (fuel : ℕ) (s : Shard V) → lt64 s.max_size s.size ≡ false → evict_loop fuel s ≡ s
  unfolding evict_loop
  evict_loop_fits zero s h = refl
  evict_loop_fits (suc fuel) s h = elim (List-cases s.order) [
    | inl empty ↦ ground (arith, empty)
    | inr (f, r, e) ↦ simp (e, evict_loop, h)
  ]
