-- ===== src/Writer/Layout/Redirects.antt =====
-- resolveRedirects: which entries change, and what the redirects lead to.
use gozim.Base.{
  ℕ, zero, suc, ◌+◌, ◌%◌, ◌^◌, ◌<◌, ◌≡◌, ◌≢◌, refl, sym, ap, ◌∙◌, ◌⊎◌, inl, inr, Bool, true, false,
  ◌&&◌, ◌||◌, Bool-cases, List, [], ◌∷◌, length, get_elem?, All, Option, none, some, if◌then◌else◌,
  arith,
}
use mathlib.Core.Path.{subst}
use gozim.Base.Lex.{bytes_eq}
use gozim.Dirent.{Dirent, is_redirect, is_content, is_link_target}
use gozim.Writer.Layout.{path_index, set_target}

-- An entry that a redirect can lead to, with its path.
abbrev pub is_target : List ℕ → Dirent → Bool
is_target path d = (is_content d || is_link_target d) && bytes_eq d.path path

-- A redirect with a path
abbrev pub is_redirect_at : List ℕ → Dirent → Bool
is_redirect_at path d = is_redirect d && bytes_eq d.path path

abbrev pub At : List Dirent → ℕ → Dirent → Type 0
At ds k d = get_elem? ds k ≡ some d

path_index-none :
    (path : List ℕ) (i : ℕ) (d : Dirent) (ds : List Dirent)
    → path_index path (i + 1) ds ≡ none
    → path_index path i (d ∷ ds) ≡ (if is_target path d then some (i % 2 ^ 32) else none)
unfolding path_index
path_index-none path i d ds h = rw (path_index, h) refl

path_index-some :
    (path : List ℕ) (i j : ℕ) (d : Dirent) (ds : List Dirent)
    → path_index path (i + 1) ds ≡ some j
    → path_index path i (d ∷ ds) ≡ some j
unfolding path_index
path_index-some path i j d ds h = rw (path_index, h) refl

-- The index of an entry with the path, if there is one.
path_index_lem :
    (path : List ℕ) (i : ℕ) (ds : List Dirent)
    → i + length ds < 2 ^ 32
    → ((k : ℕ) × (d : Dirent) × (path_index path i ds ≡ some (i + k))
        × At ds k d
        × (is_target path d ≡ true))
      ⊎ ((path_index path i ds ≡ none) × All (λ d. is_target path d ≡ false) ds)
path_index_lem path i [] few = inr (unfold path_index in (refl, tt))
path_index_lem path i (d ∷ ds) few = elim (path_index_lem path (i + 1) ds (omega arith)) [
  | inl (k, e, there, at, is) ↦
      let step : i + 1 + k ≡ i + suc k = omega arith in
      inl (suc k, e, path_index-some path i (i + 1 + k) d ds there ∙ ap some step, at, is)
  | inr (gone, others) ↦ elim (Bool-cases (is_target path d)) [
    | inl here ↦
        let index : i % 2 ^ 32 ≡ i + 0 = omega (arith, few) in
        inl (0, d, path_index-none path i d ds gone ∙ rw here (ap some index), refl, here)
    | inr other ↦ inr (path_index-none path i d ds gone ∙ rw other refl, (other, others))
  ]
]

All-At :
    (p : Dirent → Bool) (ds : List Dirent) (k : ℕ) (d : Dirent)
    → All (λ e. p e ≡ false) ds
    → At ds k d
    → p d ≡ false
All-At p [] k d h at = cc at
All-At p (e ∷ ds) zero d h at = let same : e ≡ d = ground (arith, at) in ap p (sym same) ∙ h.0
All-At p (e ∷ ds) (suc k) d h at = All-At p ds k d h.1 at

pub path_index-At :
    (path : List ℕ) (ds : List Dirent) (k : ℕ) (d : Dirent)
    → length ds < 2 ^ 32
    → At ds k d
    → is_target path d ≡ true
    → (j : ℕ) × (t : Dirent) × (path_index path 0 ds ≡ some j)
      × At ds j t
      × (is_target path t ≡ true)
path_index-At path ds k d few at is = elim (path_index_lem path 0 ds (omega (arith, few))) [
  | inl (j, t, found, there, good) ↦
      let e : 0 + j ≡ j = omega arith in (j, t, found ∙ ap some e, there, good)
  | inr (gone, others) ↦ absurd (cc (All-At (is_target path) ds k d others at, is))
]

set_here :
    (path : List ℕ) (i : ℕ) (d : Dirent) (ds : List Dirent)
    → is_redirect_at path d ≡ true
    → set_target path (some i) (d ∷ ds) ≡ (record d { redirect_index = i }) ∷ ds
unfolding set_target
set_here path i d ds h = rw (set_target, h) refl

set_later :
    (path : List ℕ) (i : ℕ) (d : Dirent) (ds : List Dirent)
    → is_redirect_at path d ≡ false
    → set_target path (some i) (d ∷ ds) ≡ d ∷ set_target path (some i) ds
unfolding set_target
set_later path i d ds h = rw (set_target, h) refl

set_none : (path : List ℕ) (ds : List Dirent) → set_target path none ds ≡ ds
unfolding set_target
set_none path [] = refl
set_none path (d ∷ ds) = ground (arith, set_none path ds)

-- An entry as it was, up to the target of a redirect.
pub record SameBut (d e : Dirent) : Type 0 where
  pub same : e ≡ record d { redirect_index = e.redirect_index }
  pub others : is_redirect d ≡ false → e ≡ d

pub SameBut-refl : (d : Dirent) → SameBut d d
SameBut-refl d = record { same = refl; others = λ h. refl }

pub SameBut-trans : (d e f : Dirent) → SameBut d e → SameBut e f → SameBut d f
SameBut-trans d e f p q = record {
  same = q.same ∙ ap (λ (x : Dirent). record x { redirect_index = f.redirect_index }) p.same;
  others = λ h. let back = p.others h in q.others (ap is_redirect back ∙ h) ∙ back;
}

pub SameBut-redirect :
    (path : List ℕ) (d e : Dirent) → SameBut d e → is_redirect_at path e ≡ is_redirect_at path d
unfolding is_redirect
SameBut-redirect path d e p = ap (is_redirect_at path) p.same

redirected :
    (d : Dirent) (i : ℕ) → is_redirect d ≡ true → SameBut d (record d { redirect_index = i })
redirected d i h = record { same = refl; others = λ k. absurd (cc (h, k)) }

-- What one entry becomes.
abbrev pub Becomes : List ℕ → Dirent → List Dirent → ℕ → Type 0
Becomes path d es k =
    (e : Dirent) × At es k e × SameBut d e × (is_redirect_at path d ≡ false → e ≡ d)

first_changed :
    (path : List ℕ) (i : ℕ) (x : Dirent) (ds : List Dirent) (k : ℕ) (d : Dirent)
    → At (x ∷ ds) k d
    → is_redirect_at path x ≡ true
    → Becomes path d ((record x { redirect_index = i }) ∷ ds) k
first_changed path i x ds zero d at here =
    let same : x ≡ d = ground (arith, at) in
    let is : is_redirect x ≡ true = ground (arith, here) in
    subst (λ y. Becomes path y ((record x { redirect_index = i }) ∷ ds) 0) same
      (record x { redirect_index = i }, refl, redirected x i is, λ h. absurd (cc (h, here)))
first_changed path i x ds (suc k) d at here = (d, at, SameBut-refl d, λ h. refl)

-- What `set_target` makes of the entry at an index.
set_some-At :
    (path : List ℕ) (i : ℕ) (ds : List Dirent) (k : ℕ) (d : Dirent)
    → At ds k d
    → Becomes path d (set_target path (some i) ds) k
set_some-At path i [] k d at = cc at
set_some-At path i (x ∷ ds) zero d at = elim (Bool-cases (is_redirect_at path x)) [
  | inl here ↦
      subst (λ es. Becomes path d es 0) (sym (set_here path i x ds here))
        (first_changed path i x ds 0 d at here)
  | inr later ↦
      subst (λ es. Becomes path d es 0) (sym (set_later path i x ds later))
        (d, at, SameBut-refl d, λ h. refl)
]
set_some-At path i (x ∷ ds) (suc k) d at = elim (Bool-cases (is_redirect_at path x)) [
  | inl here ↦
      subst (λ es. Becomes path d es (suc k)) (sym (set_here path i x ds here))
        (first_changed path i x ds (suc k) d at here)
  | inr later ↦
      subst (λ es. Becomes path d es (suc k)) (sym (set_later path i x ds later))
        (set_some-At path i ds k d at)
]

pub set_target-At :
    (path : List ℕ) (o : Option ℕ) (ds : List Dirent) (k : ℕ) (d : Dirent)
    → At ds k d
    → Becomes path d (set_target path o ds) k
set_target-At path none ds k d at =
    subst (λ es. Becomes path d es k) (sym (set_none path ds)) (d, at, SameBut-refl d, λ h. refl)
set_target-At path (some i) ds k d at = set_some-At path i ds k d at

-- A redirect with the path has the target.
abbrev pub Pointed : List ℕ → ℕ → List Dirent → Type 0
Pointed path j es =
    (k : ℕ) × (e : Dirent) × At es k e × (is_redirect_at path e ≡ true) × (e.redirect_index ≡ j)

past :
    (x : Dirent) (ds : List Dirent) (k : ℕ) (d : Dirent)
    → At (x ∷ ds) k d
    → x ≢ d
    → (n : ℕ) × At ds n d
past x ds zero d at h = absurd (h (ground (arith, at)))
past x ds (suc k) d at h = (k, at)

pub set_some-Pointed :
    (path : List ℕ) (j : ℕ) (ds : List Dirent) (k : ℕ) (d : Dirent)
    → At ds k d
    → is_redirect_at path d ≡ true
    → Pointed path j (set_target path (some j) ds)
unfolding is_redirect
set_some-Pointed path j [] k d at is = cc at
set_some-Pointed path j (x ∷ ds) k d at is = elim (Bool-cases (is_redirect_at path x)) [
  | inl here ↦
      subst (Pointed path j) (sym (set_here path j x ds here))
        (0, record x { redirect_index = j }, refl, here, refl)
  | inr later ↦
      let (n, rest) = past x ds k d at (λ same. cc (ap (is_redirect_at path) same, later, is)) in
      let (k', e, there, good, points) = set_some-Pointed path j ds n d rest is in
      subst (Pointed path j) (sym (set_later path j x ds later)) (suc k', e, there, good, points)
]
