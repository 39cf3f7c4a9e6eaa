-- ===== src/Integrity/Around.antt =====
-- The walk around a loop, and what checkRedirectLoops makes of one redirect.
use gozim.Base.{
  ℕ, zero, suc, ◌+◌, ◌-◌, ◌*◌, ◌/◌, ◌≤◌, ◌<◌, ◌≡◌, ◌≢◌, refl, sym, ap, ◌∙◌, ◌⊎◌, inl, inr, true,
  false, List, [], ◌∷◌, length, get_elem?, ◌==◌, if◌then◌else◌, Bool-cases, Option, none, some,
  Option-cases, Result, ok, arith,
}
use gozim.Dirent.{Dirent, is_redirect}
use gozim.Integrity.{next, chase, around, loop_at, redirect_loop}
use gozim.Integrity.Chains.{chain, chain-next, chain_ended, chain_add, cycle_endless, meets}
use gozim.Integrity.Chase.{Chased, ended, met, spent, chase-Chased}

elem_lem :
    (o : Option Dirent) (j : ℕ)
    → (elim o [ none ↦ none | some d ↦ if is_redirect d then some d.redirect_index else none ])
      ≡ some j
    → (d : Dirent) × (o ≡ some d) × (d.redirect_index ≡ j)
elem_lem none j e = cc e
elem_lem (some d) j e = elim (Bool-cases (is_redirect d)) [
  | inl leads ↦
      let e' : some d.redirect_index ≡ some j = rw leads at e in (d, refl, ground (arith, e'))
  | inr other ↦ let e' : ◌≡◌ {A = Option ℕ} none (some j) = rw other at e in cc e'
]

next_elem :
    (ds : List Dirent) (i j : ℕ)
    → next ds i ≡ some j
    → (d : Dirent) × (get_elem? ds i ≡ some d) × (d.redirect_index ≡ j)
unfolding next
next_elem ds i j e = elem_lem (get_elem? ds i) j e

around_stop : (ds : List Dirent) (f fuel c : ℕ) → (c == f) ≡ true → around ds (suc fuel) f c ≡ ok []
unfolding around
around_stop ds f fuel c e = rw (around, e) refl

around_step :
    (ds : List Dirent) (f fuel c : ℕ) (d : Dirent) (rest : List ℕ)
    → (c == f) ≡ false
    → get_elem? ds c ≡ some d
    → around ds fuel f d.redirect_index ≡ ok rest
    → around ds (suc fuel) f c ≡ ok (c ∷ rest)
unfolding around
around_step ds f fuel c d rest e at r = rw (around, e, at, r) refl

-- A chain that still goes on after a step has a next entry.
goes_on :
    (ds : List Dirent) (f k c j g : ℕ)
    → chain ds k f ≡ some c
    → chain ds (k + suc j) f ≡ some g
    → (c' : ℕ) × (next ds c ≡ some c')
goes_on ds f k c j g at far = elim (Option-cases (next ds c)) [
  | inr found ↦ found
  | inl gone ↦
      let a : j + suc k ≡ k + suc j = omega arith in
      let stop = chain_ended ds j (suc k) f (chain-next ds k f c at ∙ gone) in
      absurd (cc (sym (ap (λ m. chain ds m f) a) ∙ stop, far))
]

-- The walk around a loop comes back to its first entry.
around-ok :
    (ds : List Dirent) (f fuel c k j : ℕ)
    → chain ds k f ≡ some c
    → chain ds (k + j) f ≡ some f
    → j < fuel
    → (rest : List ℕ) × (around ds fuel f c ≡ ok rest) × (chain ds (k + length rest) f ≡ some f)
around-ok ds f zero c k j at back h = absurd (omega arith)
around-ok ds f (suc fuel) c k zero at back h =
    let a : k + 0 ≡ k = omega arith in
    let here : some c ≡ some f = sym at ∙ sym (ap (λ m. chain ds m f) a) ∙ back in
    ([], around_stop ds f fuel c (ground (arith, here)), back)
around-ok ds f (suc fuel) c k (suc j) at back h = elim (Bool-cases (c == f)) [
  | inl same ↦
      let e : c ≡ f = ground (arith, same) in
      let a : k + 0 ≡ k = omega arith in
      ([], around_stop ds f fuel c same, ap (λ m. chain ds m f) a ∙ at ∙ ap some e)
  | inr apart ↦
      let (c', leads) = goes_on ds f k c j f at back in
      let (d, there, e) = next_elem ds c c' leads in
      let on : chain ds (suc k) f ≡ some d.redirect_index =
        chain-next ds k f c at ∙ leads ∙ ap some (sym e) in
      let a : suc k + j ≡ k + suc j = omega arith in
      let (rest, made, closed) =
        around-ok ds f fuel d.redirect_index (suc k) j on (ap (λ m. chain ds m f) a ∙ back)
          (omega arith) in
      let b : k + length (c ∷ rest) ≡ suc k + length rest = omega arith in
      (c ∷ rest, around_step ds f fuel c d rest apart there made, ap (λ m. chain ds m f) b ∙ closed)
]

-- What one redirect gives: nothing where its chain ends, else a loop that the chain runs into.
pub data Searched (ds : List Dirent) (i : ℕ) : Type 0 where
  finite : (t : ℕ) → chain ds t i ≡ none → redirect_loop ds i ≡ ok none → Searched ds i
  endless :
      (f t : ℕ) (rest : List ℕ)
      → ((k : ℕ) → chain ds k i ≢ none)
      → chain ds t i ≡ some f
      → chain ds (length (f ∷ rest)) f ≡ some f
      → redirect_loop ds i ≡ ok (some (f ∷ rest))
      → Searched ds i

loop_stop :
    (ds : List Dirent) (i : ℕ)
    → chase ds (2 * (length ds + 1)) i i 0 ≡ ok none
    → redirect_loop ds i ≡ ok none
unfolding redirect_loop
loop_stop ds i e = rw (redirect_loop, e) refl

rolled :
    (ds : List Dirent) (f : ℕ) (d : Dirent) (rest : List ℕ)
    → get_elem? ds f ≡ some d
    → around ds (length ds + 1) f d.redirect_index ≡ ok rest
    → loop_at ds f ≡ ok (some (f ∷ rest))
unfolding loop_at
rolled ds f d rest at r = rw (loop_at, at, r) refl

stepped :
    (ds : List Dirent) (i f : ℕ) (loop : List ℕ)
    → chase ds (2 * (length ds + 1)) i i 0 ≡ ok (some f)
    → loop_at ds f ≡ ok (some loop)
    → redirect_loop ds i ≡ ok (some loop)
unfolding redirect_loop
stepped ds i f loop e r = rw (redirect_loop, e) r

loop_step :
    (ds : List Dirent) (i f : ℕ) (d : Dirent) (rest : List ℕ)
    → chase ds (2 * (length ds + 1)) i i 0 ≡ ok (some f)
    → get_elem? ds f ≡ some d
    → around ds (length ds + 1) f d.redirect_index ≡ ok rest
    → redirect_loop ds i ≡ ok (some (f ∷ rest))
loop_step ds i f d rest e at r = stepped ds i f (f ∷ rest) e (rolled ds f d rest at r)

-- The two pointers met at `f` after `t` steps of the one and `t / 2` of the other.
met_loop :
    (ds : List Dirent) (i f t : ℕ)
    → 2 ≤ t
    → t ≤ 0 + 2 * (length ds + 1)
    → chain ds t i ≡ some f
    → chain ds (t / 2) i ≡ some f
    → chase ds (2 * (length ds + 1)) i i 0 ≡ ok (some f)
    → Searched ds i
met_loop ds i f t two far at half e =
    let p = t - t / 2 in
    let a : t / 2 + p ≡ t = omega arith in
    let b : p + t / 2 ≡ t = omega arith in
    let forever =
      cycle_endless ds (t / 2) p i f (omega arith) half (ap (λ k. chain ds k i) a ∙ at) in
    let back : chain ds p f ≡ some f =
      sym (chain_add ds p (t / 2) i f half) ∙ ap (λ k. chain ds k i) b ∙ at in
    let zero_on : chain ds 0 f ≡ some f = unfold chain in refl in
    let c : 0 + suc (p - 1) ≡ p = omega arith in
    let (j, leads) = goes_on ds f 0 f (p - 1) f zero_on (ap (λ k. chain ds k f) c ∙ back) in
    let (d, there, same) = next_elem ds f j leads in
    let on : chain ds 1 f ≡ some d.redirect_index =
      chain-next ds 0 f f zero_on ∙ leads ∙ ap some (sym same) in
    let g : 1 + (p - 1) ≡ p = omega arith in
    let (rest, made, closed) =
      around-ok ds f (length ds + 1) d.redirect_index 1 (p - 1) on (ap (λ k. chain ds k f) g ∙ back)
        (omega arith) in
    let n : length (f ∷ rest) ≡ 1 + length rest = omega arith in
    endless f t rest forever at (ap (λ k. chain ds k f) n ∙ closed)
      (loop_step ds i f d rest e there made)

two_cases : (k : ℕ) → (2 ≤ k) ⊎ (k < 2)
two_cases k = ground arith

pub redirect_loop-Searched : (ds : List Dirent) (i : ℕ) → Searched ds i
redirect_loop-Searched ds i =
    go _
      (chase-Chased ds i (2 * (length ds + 1)) i i 0 (unfold chain in refl) (unfold chain in refl))
      refl
  where
    go :
        (x : Result (Option ℕ))
        → Chased ds i 0 (2 * (length ds + 1)) x
        → chase ds (2 * (length ds + 1)) i i 0 ≡ x
        → Searched ds i
    go x (ended t stop) e = finite t stop (loop_stop ds i e)
    go x (met f t two far at half) e = met_loop ds i f t two far at half e
    go x (spent h) e =
        let alive : (k : ℕ) → k ≤ length ds + 1 → chain ds k i ≢ none = λ k small gone.
          elim (two_cases k) [
            | inl many ↦ (h k (omega arith) (omega arith) many).0 gone
            | inr few ↦
                let a : 2 - k + k ≡ 2 = omega arith in
                (h 2 (omega arith) (omega arith) (omega arith)).0
                  (sym (ap (λ j. chain ds j i) a) ∙ chain_ended ds (2 - k) k i gone)
          ] in
        let (m, pos, le, same) = meets ds i alive in
        let half : (m + m) / 2 ≡ m = omega arith in
        absurd (
          (h (m + m) (omega arith) (omega arith) (omega arith)).1
            (same ∙ sym (ap (λ k. chain ds k i) half)))
