-- ===== src/Cache/Order.antt =====
-- The list of a shard: taking an element out of it, and its last element.
use gozim.Base.{
  length, ℕ, ◌+◌, ◌≡◌, ◌≢◌, refl, sym, ap, ◌∙◌, inl, inr, true, false, ◌==◌, Bool-cases,
  Option-cases, List, [], ◌∷◌, ◌++◌, none, some, arith,
}
use mathlib.Core.Path.{subst}
use gozim.Cache.{Element, key_of, element, unlink, back}
use gozim.Cache.Spec.{Entry}
use gozim.Cache.View.{Distinct, entry_of, view, view_known, view_unknown}

module _ {V : Type 0} where
  pub unlink_here :
      (id : ℕ) (f : Element V) (es : List (Element V))
      → (f.id == id) ≡ true
      → unlink id (f ∷ es) ≡ es
  unfolding unlink
  unlink_here id f es h = rw (unlink, h) refl

  pub unlink_there :
      (id : ℕ) (f : Element V) (es : List (Element V))
      → (f.id == id) ≡ false
      → unlink id (f ∷ es) ≡ f ∷ unlink id es
  unfolding unlink
  unlink_there id f es h = rw (unlink, h) refl

  pub element-unlink_same :
      (id : ℕ) (es : List (Element V)) → Distinct es → element id (unlink id es) ≡ none
  unfolding element Distinct
  element-unlink_same id [] d = unfold unlink in refl
  element-unlink_same id (f ∷ es) d = elim (Bool-cases (f.id == id)) [
    | inl here ↦
        let same : f.id ≡ id = ground (arith, here) in
        ap (element id) (unlink_here id f es here) ∙ ap (λ i. element i es) (sym same) ∙ d.0
    | inr later ↦
        ap (element id) (unlink_there id f es later)
        ∙ rw (element, later) (element-unlink_same id es d.1)
  ]

  pub element-unlink_other :
      (id id' : ℕ) (es : List (Element V)) → id' ≢ id → element id' (unlink id es) ≡ element id' es
  unfolding element
  element-unlink_other id id' [] h = unfold unlink in refl
  element-unlink_other id id' (f ∷ es) h = elim (Bool-cases (f.id == id)) [
    | inl here ↦ ap (element id') (unlink_here id f es here) ∙ ground (arith, here, h)
    | inr later ↦
        ap (element id') (unlink_there id f es later)
        ∙ ground (arith, element-unlink_other id id' es h)
  ]

  element-unlink-none :
      (id id' : ℕ) (es : List (Element V))
      → element id' es ≡ none
      → element id' (unlink id es) ≡ none
  unfolding element
  element-unlink-none id id' [] h = unfold unlink in refl
  element-unlink-none id id' (f ∷ es) h = elim (Bool-cases (f.id == id)) [
    | inl here ↦ ap (element id') (unlink_here id f es here) ∙ ground (arith, h)
    | inr later ↦
        ap (element id') (unlink_there id f es later)
        ∙ ground (arith, h, element-unlink-none id id' es)
  ]

  pub Distinct-unlink : (id : ℕ) (es : List (Element V)) → Distinct es → Distinct (unlink id es)
  unfolding Distinct
  Distinct-unlink id [] d = unfold unlink in tt
  Distinct-unlink id (f ∷ es) d = elim (Bool-cases (f.id == id)) [
    | inl here ↦ subst Distinct (sym (unlink_here id f es here)) d.1
    | inr later ↦
        subst Distinct (sym (unlink_there id f es later))
          (element-unlink-none id f.id es d.0, Distinct-unlink id es d.1)
  ]

  pub length-unlink :
      (id : ℕ) (es : List (Element V)) (e : Element V)
      → element id es ≡ some e
      → length (unlink id es) + 1 ≡ length es
  unfolding element
  length-unlink id [] e h = cc h
  length-unlink id (f ∷ es) e h = elim (Bool-cases (f.id == id)) [
    | inl here ↦ omega (arith, ap (length {A = Element V}) (unlink_here id f es here))
    | inr later ↦ omega (
      arith,
      ap (length {A = Element V}) (unlink_there id f es later),
      length-unlink id es e (ground (arith, later, h)),
    )
  ]

  pub not_the_same :
      (a b : ℕ) (es : List (Element V)) (l : Element V)
      → element a es ≡ none
      → element b es ≡ some l
      → (a == b) ≡ false
  not_the_same a b es l gone there = elim (Bool-cases (a == b)) [
    | inl same ↦
        let e : a ≡ b = ground (arith, same) in
        let e' : none ≡ some l = sym gone ∙ ap (λ i. element i es) e ∙ there in cc e'
    | inr other ↦ other
  ]

  -- The last element is in the list, and the rest is the list without it.
  pub back_lem :
      (es rest : List (Element V)) (l : Element V)
      → Distinct es
      → back es ≡ some (l, rest)
      → (element l.id es ≡ some l) × (unlink l.id es ≡ rest) × (es ≡ rest ++ (l ∷ []))
  unfolding back Distinct element
  back_lem [] rest l d h = cc h
  back_lem (f ∷ []) rest l d h =
      let a : f ≡ l = ground arith in
      let b : [] ≡ rest = ground arith in
      let here : (f.id == l.id) ≡ true = ground (arith, ap (λ (x : Element V). x.id) a) in
      (
        rw here (ap some a),
        unlink_here l.id f [] here ∙ b,
        ap (λ x. x ∷ []) a ∙ ap (λ r. r ++ (l ∷ [])) b,
      )
  back_lem (f ∷ g ∷ es) rest l d h = elim (Option-cases (back (g ∷ es))) [
    | inl gone ↦ absurd (ground arith)
    | inr ((l', r), at) ↦
        let a : l' ≡ l = ground arith in
        let b : f ∷ r ≡ rest = ground arith in
        let (p, q, s) = back_lem (g ∷ es) r l d.1 (at ∙ ap (λ x. some (x, r)) a) in
        let other : (f.id == l.id) ≡ false = not_the_same f.id l.id (g ∷ es) l d.0 p in
        (
          rw (element, other) p,
          unlink_there l.id f (g ∷ es) other ∙ ap (◌∷◌ f) q ∙ b,
          ap (◌∷◌ f) s ∙ ap (λ x. x ++ (l ∷ [])) b,
        )
  ]

  -- The last element is shown last.
  pub view-append_last :
      (items : List (ℕ × ℕ)) (es : List (Element V)) (l : Element V) (k : ℕ)
      → key_of l.id items ≡ some k
      → view items (es ++ (l ∷ [])) ≡ view items es ++ (entry_of k l ∷ [])
  view-append_last items [] l k h = view_known items l [] k h ∙ unfold view in refl
  view-append_last items (f ∷ es) l k h = elim (Option-cases (key_of f.id items)) [
    | inl lost ↦
        view_unknown items f (es ++ (l ∷ [])) lost
        ∙ view-append_last items es l k h
        ∙ ap (λ x. x ++ (entry_of k l ∷ [])) (sym (view_unknown items f es lost))
    | inr (k', known) ↦
        view_known items f (es ++ (l ∷ [])) k' known
        ∙ ap (◌∷◌ (entry_of k' f)) (view-append_last items es l k h)
        ∙ ap (λ x. x ++ (entry_of k l ∷ [])) (sym (view_known items f es k' known))
  ]

  -- Every element with a key is shown.
  pub length-view :
      (items : List (ℕ × ℕ)) (es : List (Element V))
      → Distinct es
      → ((id : ℕ) (e : Element V) → element id es ≡ some e → (k : ℕ) × (key_of id items ≡ some k))
      → length (view items es) ≡ length es
  unfolding Distinct element
  length-view items [] d known = unfold view in refl
  length-view items (f ∷ es) d known =
      let (k, h) = known f.id f (ground arith) in
      let rest = length-view items es d.1 (λ id e at.
        let other = not_the_same f.id id es e d.0 at in known id e (ground (arith, other, at))) in
      omega (arith, rest, ap (length {A = Entry V}) (view_known items f es k h))
