-- ===== src/Integrity/Loops.antt =====
-- The search for redirect loops ends, and finds exactly the redirects that lead round for ever.
use gozim.Base.{
  ℕ, zero, suc, ◌+◌, ◌≤◌, ◌<◌, ◌≡◌, refl, sym, ap, ◌∙◌, ◌⊎◌, ◌↔◌, inl, inr, true, false, List, [],
  ◌∷◌, length, get_elem?, Bool-cases, Option, none, some, Option-cases, ok, arith,
}
use mathlib.Core.Path.{subst}
use gozim.Dirent.{Dirent, is_redirect}
use gozim.Integrity.{next, redirect_loop, loops_from, check_redirect_loops}
use gozim.Integrity.Chains.{chain, chain-next, next_inside}
use gozim.Integrity.Around.{finite, endless, redirect_loop-Searched}

-- The redirects from an entry lead to an end.
abbrev pub Ends : List Dirent → ℕ → Type 0
Ends ds i = (t : ℕ) × (chain ds t i ≡ none)

-- What the loop over the entries comes to from the entry `i` on.
record Looked (ds : List Dirent) (i : ℕ) (left : List Dirent) : Type 0 where
  loops : List (List ℕ)
  made : loops_from ds i left ≡ ok loops
  none_found : loops ≡ [] → (k : ℕ) → k < length left → Ends ds (i + k)
  none_there : ((j : ℕ) → Ends ds j) → loops ≡ []

stays :
    (ds : List Dirent) (i : ℕ) (d : Dirent)
    → get_elem? ds i ≡ some d
    → is_redirect d ≡ false
    → next ds i ≡ none
unfolding next
stays ds i d at e = rw (next, at, e) refl

not_redirect :
    (ds : List Dirent) (i : ℕ) (d : Dirent)
    → get_elem? ds i ≡ some d
    → is_redirect d ≡ false
    → Ends ds i
not_redirect ds i d at e = (1, chain-next ds 0 i i (unfold chain in refl) ∙ stays ds i d at e)

-- The entry and those after it.
stops_from :
    (ds : List Dirent) (i n : ℕ)
    → Ends ds i
    → ((k : ℕ) → k < n → Ends ds (i + 1 + k))
    → (k : ℕ) → k < suc n
    → Ends ds (i + k)
stops_from ds i n here rest zero h = let a : i ≡ i + 0 = omega arith in subst (Ends ds) a here
stops_from ds i n here rest (suc k) h =
    let a : i + 1 + k ≡ i + suc k = omega arith in subst (Ends ds) a (rest k (omega arith))

skip :
    (ds : List Dirent) (i : ℕ) (d : Dirent) (left : List Dirent)
    → is_redirect d ≡ false
    → loops_from ds i (d ∷ left) ≡ loops_from ds (i + 1) left
unfolding loops_from
skip ds i d left e = rw (loops_from, e) refl

take_loop :
    (ds : List Dirent) (i : ℕ) (d : Dirent) (left : List Dirent) (found : Option (List ℕ))
    (loops : List (List ℕ))
    → is_redirect d ≡ true
    → redirect_loop ds i ≡ ok found
    → loops_from ds (i + 1) left ≡ ok loops
    → loops_from ds i (d ∷ left) ≡ ok (elim found [ none ↦ loops | some loop ↦ loop ∷ loops ])
unfolding loops_from
take_loop ds i d left found loops e r s = rw (loops_from, e, r, s) refl

one_on : (i k : ℕ) → i + suc k ≡ i + 1 + k
one_on i k = omega arith

look :
    (ds : List Dirent) (i : ℕ) (left : List Dirent)
    → ((k : ℕ) → get_elem? left k ≡ get_elem? ds (i + k))
    → Looked ds i left
look ds i [] same = record {
  loops = [];
  made = unfold loops_from in refl;
  none_found = λ e k h. absurd (omega arith);
  none_there = λ h. refl;
}
look ds i (d ∷ left) same =
    let on = look ds (i + 1) left (λ k. same (suc k) ∙ ap (get_elem? ds) (one_on i k)) in
    let first : i + 0 ≡ i = omega arith in
    let at : get_elem? ds i ≡ some d = sym (same 0 ∙ ap (get_elem? ds) first) in
    elim (Bool-cases (is_redirect d)) [
      | inr other ↦ record {
        loops = on.loops;
        made = skip ds i d left other ∙ on.made;
        none_found =
            λ e. stops_from ds i (length left) (not_redirect ds i d at other) (on.none_found e);
        none_there = on.none_there;
      }
      | inl leads ↦ elim (redirect_loop-Searched ds i) [
        | finite t stop r ↦ record {
          loops = on.loops;
          made = take_loop ds i d left none on.loops leads r on.made;
          none_found = λ e. stops_from ds i (length left) (t, stop) (on.none_found e);
          none_there = on.none_there;
        }
        | endless f t rest forever at closed r ↦ record {
          loops = (f ∷ rest) ∷ on.loops;
          made = take_loop ds i d left (some (f ∷ rest)) on.loops leads r on.made;
          none_found = λ e k h. ground (arith, e);
          none_there = λ h. absurd (forever (h i).0 (h i).1);
        }
      ]
    ]

outside : (ds : List Dirent) (i : ℕ) → length ds ≤ i → next ds i ≡ none
outside ds i h = elim (Option-cases (next ds i)) [
  | inl gone ↦ gone
  | inr (j, e) ↦ absurd (omega (arith, next_inside ds i j e))
]

-- `checkRedirectLoops` always returns, within the rounds that its fuel allows and without an index out
-- of range; and it reports no loop exactly when from every entry the redirects lead to an end.
pub check_redirect_loops_iff :
    (ds : List Dirent)
    → (loops : List (List ℕ)) × (check_redirect_loops ds ≡ ok loops)
      × ((loops ≡ []) ↔ ((i : ℕ) → Ends ds i))
unfolding check_redirect_loops
check_redirect_loops_iff ds =
    let all = look ds 0 ds (λ k. ap (get_elem? ds) (from_zero k)) in
    (
      all.loops,
      all.made,
      (
        (λ e i. elim (inside_cases i (length ds)) [
          | inl h ↦ subst (Ends ds) (sym (from_zero i)) (all.none_found e i h)
          | inr h ↦ (1, chain-next ds 0 i i (unfold chain in refl) ∙ outside ds i h)
        ]),
        all.none_there,
      ),
    )
  where
    from_zero : (k : ℕ) → k ≡ 0 + k
    from_zero k = omega arith

    inside_cases : (i n : ℕ) → (i < n) ⊎ (n ≤ i)
    inside_cases i n = ground arith
