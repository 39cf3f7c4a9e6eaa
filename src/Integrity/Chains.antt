-- ===== src/Integrity/Chains.antt =====
-- The entries that the redirects lead to from an entry, one after the other.
use gozim.Base.{
  ℕ, zero, suc, ◌+◌, ◌-◌, ◌*◌, ◌≤◌, ◌<◌, ◌≡◌, ◌≢◌, refl, sym, ap, ◌∙◌, ◌⊎◌, inl, inr, List, [], ◌∷◌,
  length, get_elem?, if◌then◌else◌, Option, none, some, Option-cases, arith,
}
use native.Mathlib.Nat.{zero-add, suc-add}
use gozim.Base.Repeats.{repeats}
use gozim.Dirent.{Dirent, is_redirect}
use gozim.Integrity.{next}

lt_cases : (a b : ℕ) → (a < b) ⊎ (b ≤ a)
lt_cases a b = ground arith

get_elem?-inside : (ds : List Dirent) (i : ℕ) (d : Dirent) → get_elem? ds i ≡ some d → i < length ds
get_elem?-inside [] i d e = cc e
get_elem?-inside (x ∷ ds) zero d e = omega arith
get_elem?-inside (x ∷ ds) (suc i) d e = omega (arith, get_elem?-inside ds i d e)

factor_lem : (k p : ℕ) → 0 < p → k ≤ k * p
factor_lem zero p h = omega arith
factor_lem (suc k) p h =
    let e : suc k * p ≡ k * p + p = grind arith in omega (arith, e, factor_lem k p h)

-- The first multiple above a number.
multiple : (p a : ℕ) → 0 < p → (q : ℕ) × (a < q * p) × (q * p ≤ a + p)
multiple p zero h = let e : 1 * p ≡ p = grind arith in (1, omega (arith, e), omega (arith, e))
multiple p (suc a) h =
    let (q, above, below) = multiple p a h in
    let e : suc q * p ≡ q * p + p = grind arith in
    elim (lt_cases (suc a) (q * p)) [
      | inl still ↦ (q, still, omega arith)
      | inr past ↦ (suc q, omega (arith, e), omega (arith, e))
    ]

module _ (ds : List Dirent) where
  -- The entry after so many redirects, if all of them lead on.
  unfoldable pub chain : ℕ → ℕ → Option ℕ
  chain zero i = some i
  chain (suc k) i = elim (chain k i) [ none ↦ none | some j ↦ next ds j ]

  pub chain-next : (k i j : ℕ) → chain k i ≡ some j → chain (suc k) i ≡ next ds j
  unfolding chain
  chain-next k i j e = rw e refl

  -- A chain that has ended stays so.
  pub chain_ended : (m k i : ℕ) → chain k i ≡ none → chain (m + k) i ≡ none
  unfolding chain
  chain_ended zero k i e = ap (λ j. chain j i) (zero-add k) ∙ e
  chain_ended (suc m) k i e =
      ap (λ j. chain j i) (suc-add m k) ∙ after (m + k) i (chain_ended m k i e)
    where
      after : (k i : ℕ) → chain k i ≡ none → chain (suc k) i ≡ none
      after k i e = rw e refl

  -- The chain from an entry of the chain.
  pub chain_add : (m k i j : ℕ) → chain k i ≡ some j → chain (m + k) i ≡ chain m j
  unfolding chain
  chain_add zero k i j e = rw (zero-add, e) (unfold chain in refl)
  chain_add (suc m) k i j e = rw (suc-add, chain, chain_add m k i j e) refl

  -- As long as the chain goes on, it is at an entry.
  pub next_inside : (i j : ℕ) → next ds i ≡ some j → i < length ds
  unfolding next
  next_inside i j e = elim (Option-cases (get_elem? ds i)) [
    | inl gone ↦ absurd (
        cc (
          e,
          ap
              (λ (o : Option Dirent). elim o [
                | none ↦ none
                | some d ↦ if is_redirect d then some d.redirect_index else none
              ])
              gone,
        ))
    | inr (d, at) ↦ get_elem?-inside ds i d at
  ]

  -- Two steps apart the chain has the same entry: so it has from there on.
  pub chain_period :
      (p x i : ℕ) → chain (x + p) i ≡ chain x i → (m : ℕ) → chain (m + x + p) i ≡ chain (m + x) i
  unfolding chain
  chain_period p x i e zero = rw zero-add e
  chain_period p x i e (suc m) =
      let a : suc m + x + p ≡ suc (m + x + p) = omega arith in
      let b : suc (m + x) ≡ suc m + x = omega arith in
      ap (λ k. chain k i) a
      ∙ ap (λ (o : Option ℕ). elim o [ none ↦ none | some j ↦ next ds j ]) (chain_period p x i e m)
      ∙ ap (λ k. chain k i) b

  pub chain_periods :
      (p x i : ℕ)
      → chain (x + p) i ≡ chain x i
      → (q m : ℕ) → chain (m + x + q * p) i ≡ chain (m + x) i
  chain_periods p x i e zero m =
      let a : m + x + 0 * p ≡ m + x = grind arith in ap (λ k. chain k i) a
  chain_periods p x i e (suc q) m =
      let a : m + x + suc q * p ≡ m + q * p + x + p = grind arith in
      let b : m + q * p + x ≡ m + x + q * p = omega arith in
      ap (λ k. chain k i) a
      ∙ chain_period p x i e (m + q * p)
      ∙ ap (λ k. chain k i) b
      ∙ chain_periods p x i e q m

  -- A chain that comes back to an entry does not end.
  pub cycle_endless :
      (x p i f : ℕ)
      → 0 < p
      → chain x i ≡ some f
      → chain (x + p) i ≡ some f
      → (k : ℕ) → chain k i ≢ none
  cycle_endless x p i f pos here again k e =
      let back = chain_periods p x i (again ∙ sym here) k 0 in
      let far : k ≤ k * p = factor_lem k p pos in
      let a : x + k * p - k + k ≡ 0 + x + k * p = omega arith in
      let b : 0 + x ≡ x = omega arith in
      let at = ap (λ j. chain j i) a ∙ back ∙ ap (λ j. chain j i) b ∙ here in
      cc (sym at ∙ chain_ended (x + k * p - k) k i e)

  -- The entry at a place of the chain, zero behind its end.
  abbrev place : ℕ → ℕ → ℕ
  place i k = elim (chain k i) [ none ↦ 0 | some j ↦ j ]

  at_place : (i k : ℕ) → chain k i ≢ none → chain k i ≡ some (place i k)
  at_place i k h = elim (Option-cases (chain k i)) [
    | inl gone ↦ absurd (h gone)
    | inr (j, e) ↦ e ∙ ap (λ (o : Option ℕ). some (elim o [ none ↦ 0 | some j ↦ j ])) (sym e)
  ]

  place_inside : (i k : ℕ) → chain k i ≢ none → chain (suc k) i ≢ none → place i k < length ds
  place_inside i k h g =
      let step = chain-next k i (place i k) (at_place i k h) in
      next_inside (place i k) (place i (suc k)) (sym step ∙ at_place i (suc k) g)

  -- A chain that goes on for longer than there are entries is at the same entry after some steps and
  -- after twice as many.
  pub meets :
      (i : ℕ)
      → ((k : ℕ) → k ≤ length ds + 1 → chain k i ≢ none)
      → (m : ℕ) × (0 < m) × (m ≤ length ds) × (chain (m + m) i ≡ chain m i)
  meets i h =
      let (a, b, lt, le, e) =
        repeats (length ds) (place i)
          (λ k l. place_inside i k (h k (omega arith)) (h (suc k) (omega arith))) in
      let (q, above, below) = multiple (b - a) a (omega arith) in
      let split : b ≡ a + (b - a) = omega arith in
      let same : chain (a + (b - a)) i ≡ chain a i =
        ap (λ k. chain k i) (sym split)
        ∙ at_place i b (h b (omega arith))
        ∙ ap some (sym e)
        ∙ sym (at_place i a (h a (omega arith))) in
      let m = q * (b - a) in
      let start : m - a + a ≡ m = omega arith in
      let twice : m - a + a + m ≡ m + m = omega arith in
      (
        m,
        omega arith,
        omega arith,
        ap (λ k. chain k i) (sym twice)
            ∙ chain_periods (b - a) a i same q (m - a)
            ∙ ap (λ k. chain k i) start,
      )
