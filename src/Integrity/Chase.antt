-- ===== src/Integrity/Chase.antt =====
-- The two pointers that checkRedirectLoops sends along the redirects.
use gozim.Base.{
  ℕ, zero, suc, ◌+◌, ◌/◌, ◌%◌, ◌≤◌, ◌<◌, ◌≡◌, ◌≢◌, refl, sym, ap, ◌∙◌, ◌⊎◌, inl, inr, Bool, true,
  false, ◌&&◌, List, ltb, ◌==◌, if◌then◌else◌, Bool-cases, Option, none, some, Option-cases, Result,
  ok, panic, arith,
}
use mathlib.Core.Path.{subst}
use gozim.Dirent.{Dirent}
use gozim.Integrity.{next, chase}
use gozim.Integrity.Chains.{chain, chain-next}

-- What the rounds from round `r` on come to: the chain from `i` ends; or two places of it, the one
-- twice as far as the other, have the same entry; or the fuel is used up before either happens.
pub data Chased (ds : List Dirent) (i r fuel : ℕ) : Result (Option ℕ) → Type 0 where
  ended : (t : ℕ) → chain ds t i ≡ none → Chased ds i r fuel (ok none)
  met :
      (f t : ℕ)
      → 2 ≤ t
      → t ≤ r + fuel
      → chain ds t i ≡ some f
      → chain ds (t / 2) i ≡ some f
      → Chased ds i r fuel (ok (some f))
  spent :
      ((t : ℕ)
        → r < t
        → t ≤ r + fuel
        → 2 ≤ t
        → (chain ds t i ≢ none) × (chain ds t i ≢ chain ds (t / 2) i))
      → Chased ds i r fuel panic

-- Where `slow` is after round `r`.
slow_after :
    (ds : List Dirent) (i r slow : ℕ)
    → chain ds (r / 2) i ≡ some slow
    → chain ds ((r + 1) / 2) i ≡ (if r % 2 == 1 then next ds slow else some slow)
slow_after ds i r slow at = elim (Bool-cases (r % 2 == 1)) [
  | inl odd ↦
      let e : (r + 1) / 2 ≡ suc (r / 2) = ground (arith, odd) in
      rw odd (ap (λ k. chain ds k i) e ∙ chain-next ds (r / 2) i slow at)
  | inr even ↦
      let e : (r + 1) / 2 ≡ r / 2 = ground (arith, even) in rw even (ap (λ k. chain ds k i) e ∙ at)
]

-- One round that goes on.
later :
    (ds : List Dirent) (i r fuel f s : ℕ) (x : Result (Option ℕ))
    → chain ds (r + 1) i ≡ some f
    → chain ds ((r + 1) / 2) i ≡ some s
    → (f == s && ltb 0 r) ≡ false
    → Chased ds i (r + 1) fuel x
    → Chased ds i r (suc fuel) x
later ds i r fuel f s x at slow apart (ended t e) = ended t e
later ds i r fuel f s x at slow apart (met g t two far e h) = met g t two (omega arith) e h
later ds i r fuel f s x at slow apart (spent h) = spent (λ t after far two.
    elim (first_cases t r after) [
      | inr beyond ↦ h t beyond (omega arith) two
      | inl here ↦
          let a : chain ds t i ≡ some f = ap (λ k. chain ds k i) here ∙ at in
          let b : chain ds (t / 2) i ≡ some s = ap (λ k. chain ds (k / 2) i) here ∙ slow in
          (
            (λ e. cc (a, e)),
            (λ e. let same : some f ≡ some s = sym a ∙ e ∙ b in ground (arith, same, apart)),
          )
    ])
  where
    first_cases : (t r : ℕ) → r < t → (t ≡ r + 1) ⊎ (r + 1 < t)
    first_cases t r h = ground arith

abbrev slow_step : List Dirent → ℕ → ℕ → Option ℕ
slow_step ds slow r = if r % 2 == 1 then next ds slow else some slow

chase_stop :
    (ds : List Dirent) (fuel slow fast r : ℕ)
    → next ds fast ≡ none
    → chase ds (suc fuel) slow fast r ≡ ok none
unfolding chase
chase_stop ds fuel slow fast r e = rw (chase, e) refl

chase_slow_stop :
    (ds : List Dirent) (fuel slow fast r f : ℕ)
    → next ds fast ≡ some f
    → slow_step ds slow r ≡ none
    → chase ds (suc fuel) slow fast r ≡ ok none
unfolding chase
chase_slow_stop ds fuel slow fast r f e g = rw (chase, e, g) refl

chase_step :
    (ds : List Dirent) (fuel slow fast r f s : ℕ) (b : Bool)
    → next ds fast ≡ some f
    → slow_step ds slow r ≡ some s
    → (f == s && ltb 0 r) ≡ b
    → chase ds (suc fuel) slow fast r
      ≡ (elim b [ true ↦ ok (some f) | false ↦ chase ds fuel s f (r + 1) ])
unfolding chase
chase_step ds fuel slow fast r f s b e g h = rw (chase, e, g, h) refl

meet_lem : (f s r : ℕ) → (f == s && ltb 0 r) ≡ true → (f ≡ s) × (1 ≤ r)
meet_lem f s r h = ground arith

pub chase-Chased :
    (ds : List Dirent) (i fuel slow fast r : ℕ)
    → chain ds r i ≡ some fast
    → chain ds (r / 2) i ≡ some slow
    → Chased ds i r fuel (chase ds fuel slow fast r)
chase-Chased ds i zero slow fast r at behind = unfold chase in spent (λ t a b. absurd (omega arith))
chase-Chased ds i (suc fuel) slow fast r at behind =
    let moved = chain-next ds r i fast at in
    let follows = slow_after ds i r slow behind in
    elim (Option-cases (next ds fast)) [
      | inl gone ↦
          subst (Chased ds i r (suc fuel)) (sym (chase_stop ds fuel slow fast r gone))
            (ended (suc r) (moved ∙ gone))
      | inr (f, e) ↦
          let one : r + 1 ≡ suc r = omega arith in
          let at_f : chain ds (r + 1) i ≡ some f = ap (λ k. chain ds k i) one ∙ moved ∙ e in
          elim (Option-cases (slow_step ds slow r)) [
            | inl gone ↦
                subst (Chased ds i r (suc fuel))
                  (sym (chase_slow_stop ds fuel slow fast r f e gone))
                  (ended ((r + 1) / 2) (follows ∙ gone))
            | inr (s, g) ↦ elim (Bool-cases (f == s && ltb 0 r)) [
              | inl same ↦
                  subst (Chased ds i r (suc fuel))
                    (sym (chase_step ds fuel slow fast r f s true e g same))
                    (met f (r + 1) (omega (arith, (meet_lem f s r same).1)) (omega arith) at_f
                      (follows ∙ g ∙ ap some (sym (meet_lem f s r same).0)))
              | inr apart ↦
                  subst (Chased ds i r (suc fuel))
                    (sym (chase_step ds fuel slow fast r f s false e g apart))
                    (later ds i r fuel f s _ at_f (follows ∙ g) apart
                      (chase-Chased ds i fuel s f (r + 1) at_f (follows ∙ g)))
            ]
          ]
    ]
