-- ===== src/Integrity/Pointers.antt =====
-- What checkDirentPtrs accepts.
use gozim.Base.{
  ℕ, ◌+◌, ◌<◌, ◌≡◌, ◌↔◌, refl, Bool, true, false, List, [], ◌∷◌, ◌++◌, All, leb, if◌then◌else◌,
  some, arith,
}
use gozim.Integrity.{Problem, ptrs_from, check_dirent_ptrs}

-- Every number is below all that follow it.
abbrev pub Increasing : List ℕ → Type 0
Increasing [] = Unit {0}
Increasing (o ∷ os) = All (λ p. o < p) os × Increasing os

abbrev pub Inside : ℕ → List ℕ → Type 0
Inside size os = All (λ o. o < size) os

All-above : (p o : ℕ) (os : List ℕ) → p < o → All (λ q. o < q) os → All (λ q. p < q) os
All-above p o [] h a = tt
All-above p o (q ∷ os) h a = (omega (arith, h, a.0), All-above p o os h a.1)

no_problem :
    (b : Bool) (x : Problem) (rest : List Problem)
    → ((if b then x ∷ [] else []) ++ rest) ≡ []
    → (b ≡ false) × (rest ≡ [])
no_problem true x rest e = ground (arith, e)
no_problem false x rest e = (refl, e)

ptrs_sound :
    (size i p : ℕ) (os : List ℕ)
    → ptrs_from size i (some p) os ≡ []
    → Inside size os × All (λ o. p < o) os × Increasing os
unfolding ptrs_from
ptrs_sound size i p [] e = (tt, tt, tt)
ptrs_sound size i p (o ∷ os) e =
    let (inside, e1) = no_problem (leb size o) _ _ e in
    let (above, e2) = no_problem (leb o p) _ _ e1 in
    let (all, rising, increasing) = ptrs_sound size (i + 1) o os e2 in
    let a : o < size = ground (arith, inside) in
    let b : p < o = ground (arith, above) in
    ((a, all), (b, All-above p o os b rising), (rising, increasing))

ptrs_complete :
    (size i p : ℕ) (os : List ℕ)
    → Inside size os
    → All (λ o. p < o) os
    → Increasing os
    → ptrs_from size i (some p) os ≡ []
unfolding ptrs_from
ptrs_complete size i p [] a b c = refl
ptrs_complete size i p (o ∷ os) a b c =
    let inside : leb size o ≡ false = ground (arith, a.0) in
    let above : leb o p ≡ false = ground (arith, b.0) in
    rw (ptrs_from, inside, above) (ptrs_complete size (i + 1) o os a.1 c.0 c.1)

-- `checkDirentPtrs` reports nothing exactly when all offsets lie within the file and each is below all
-- that follow it.
pub check_dirent_ptrs_iff :
    (size : ℕ) (offsets : List ℕ)
    → (check_dirent_ptrs size offsets ≡ []) ↔ (Inside size offsets × Increasing offsets)
unfolding check_dirent_ptrs ptrs_from
check_dirent_ptrs_iff size [] = ((λ e. (tt, tt)), λ h. refl)
check_dirent_ptrs_iff size (o ∷ os) = (
  (λ e.
      let (inside, e1) = no_problem (leb size o) _ _ e in
      let (all, rising, increasing) = ptrs_sound size (0 + 1) o os e1 in
      let a : o < size = ground (arith, inside) in ((a, all), (rising, increasing))),
  λ h.
      let inside : leb size o ≡ false = ground (arith, h.0.0) in
      rw (check_dirent_ptrs, ptrs_from, inside) (ptrs_complete size (0 + 1) o os h.0.1 h.1.0 h.1.1),
)
