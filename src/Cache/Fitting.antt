-- ===== src/Cache/Fitting.antt =====
-- The entries that fit, and what dropping the oldest one changes.
use gozim.Base.{
  ℕ, ◌+◌, ◌-◌, ◌≤◌, ◌<◌, ◌≡◌, refl, ap, inl, inr, leb, ◌==◌, Bool-cases, List, [], ◌∷◌, ◌++◌, none,
  some, arith,
}
use gozim.Cache.Spec.{Entry, assoc, erase, weight, fitting, kept}

module _ {V : Type 0} where
  pub weight-erase :
      (k : ℕ) (es : List (Entry V)) (e : Entry V)
      → assoc k es ≡ some e
      → weight (erase k es) + e.size ≡ weight es
  unfolding assoc erase weight
  weight-erase k [] e h = cc h
  weight-erase k (f ∷ es) e h = elim (Bool-cases (f.key == k)) [
    | inl here ↦
        let same : f ≡ e = ground (arith, here, h) in
        rw here (omega (arith, ap (λ (x : Entry V). x.size) same))
    | inr later ↦ rw later (omega (arith, weight-erase k es e (ground (arith, later, h))))
  ]

  pub erase_absent : (k : ℕ) (es : List (Entry V)) → assoc k es ≡ none → erase k es ≡ es
  unfolding assoc erase
  erase_absent k [] h = refl
  erase_absent k (f ∷ es) h = ground (arith, h, erase_absent k es)

  pub weight-append :
      (es : List (Entry V)) (x : Entry V) → weight (es ++ (x ∷ [])) ≡ weight es + x.size
  unfolding weight
  weight-append [] x = omega arith
  weight-append (e ∷ es) x = omega (arith, weight-append es x)

  fitting_all : (b : ℕ) (es : List (Entry V)) → weight es ≤ b → fitting b es ≡ es
  unfolding fitting weight
  fitting_all b [] h = refl
  fitting_all b (e ∷ es) h = ground (arith, fitting_all (b - e.size) es (omega arith))

  fitting_last :
      (b : ℕ) (es : List (Entry V)) (x : Entry V)
      → b < weight es + x.size
      → fitting b (es ++ (x ∷ [])) ≡ fitting b es
  unfolding fitting weight
  fitting_last b [] x h = ground (arith, h)
  fitting_last b (e ∷ es) x h = elim (Bool-cases (leb e.size b)) [
    | inl fits ↦ rw fits (ap (◌∷◌ e) (fitting_last (b - e.size) es x (ground (arith, fits, h))))
    | inr big ↦ rw big refl
  ]

  pub kept_all : (b lost : ℕ) (es : List (Entry V)) → weight es + lost ≤ b → kept b lost es ≡ es
  unfolding kept
  kept_all b lost es h = ground (arith, fitting_all (b - lost) es (omega arith))

  pub kept_last :
      (b lost : ℕ) (es : List (Entry V)) (x : Entry V)
      → b < weight es + x.size + lost
      → kept b lost (es ++ (x ∷ [])) ≡ kept b lost es
  unfolding kept
  kept_last b lost es x h = elim (Bool-cases (leb lost b)) [
    | inl some_room ↦ rw some_room (fitting_last (b - lost) es x (ground (arith, some_room, h)))
    | inr no_room ↦ rw no_room refl
  ]

  weight-fitting : (b : ℕ) (es : List (Entry V)) → weight (fitting b es) ≤ weight es
  unfolding fitting weight
  weight-fitting b [] = omega arith
  weight-fitting b (e ∷ es) = ground (arith, weight-fitting (b - e.size) es)

  pub weight-kept : (b lost : ℕ) (es : List (Entry V)) → weight (kept b lost es) ≤ weight es
  unfolding kept weight
  weight-kept b lost es = ground (arith, weight-fitting (b - lost) es)

  pub weight-erase_le : (k : ℕ) (es : List (Entry V)) → weight (erase k es) ≤ weight es
  unfolding erase weight
  weight-erase_le k [] = omega arith
  weight-erase_le k (e ∷ es) = ground (arith, weight-erase_le k es)

  pub kept_nil : (b lost : ℕ) → kept {V = V} b lost [] ≡ []
  unfolding kept fitting
  kept_nil b lost = ground arith
