-- ===== src/Writer/Layout/Resolved.antt =====
-- After resolveRedirects, every redirect whose target is known leads to it.
use gozim.Base.{
  ℕ, zero, suc, ◌+◌, ◌^◌, ◌≤◌, ◌<◌, ◌≡◌, refl, sym, ap, ◌∙◌, inl, inr, true, false, Bool-cases,
  List, [], ◌∷◌, length, get_elem?, All, leb, lt→leb, some, arith,
}
use mathlib.Core.Path.{subst}
use gozim.Base.Lex.{bytes_eq, bytes_eq→eq}
use gozim.Dirent.{Dirent, EntryType, is_redirect, is_content, is_link_target}
use gozim.Writer.{RedirectEntry}
use gozim.Writer.Layout.{path_index, set_target, resolve, resolve_redirects}
use gozim.Writer.Layout.Bounds.{length-set_target}
use gozim.Writer.Layout.Redirects.{
  is_target, is_redirect_at, At, path_index-At, SameBut, SameBut-refl, SameBut-trans,
  SameBut-redirect, set_target-At, Pointed, set_some-Pointed,
}

-- What all of the redirects make of the entry at an index: itself, if none has its path.
abbrev Ends : List RedirectEntry → Dirent → List Dirent → ℕ → Type 0
Ends rs d es k =
    (e : Dirent) × At es k e
    × SameBut d e
    × (All (λ (r : RedirectEntry). is_redirect_at r.path d ≡ false) rs → e ≡ d)

resolve_stop :
    (known : List Dirent) (i : ℕ) (r : RedirectEntry) (rs : List RedirectEntry) (ds : List Dirent)
    → leb (length ds) i ≡ true
    → resolve known i (r ∷ rs) ds ≡ ds
unfolding resolve
resolve_stop known i r rs ds h = rw (resolve, h) refl

resolve_next :
    (known : List Dirent) (i : ℕ) (r : RedirectEntry) (rs : List RedirectEntry) (ds : List Dirent)
    → leb (length ds) i ≡ false
    → resolve known i (r ∷ rs) ds
      ≡ resolve known (i + 1) rs (set_target r.path (path_index r.target_path 0 known) ds)
unfolding resolve
resolve_next known i r rs ds h = rw (resolve, h) refl

pub resolve-At :
    (known : List Dirent) (i : ℕ) (rs : List RedirectEntry) (ds : List Dirent) (k : ℕ) (d : Dirent)
    → At ds k d
    → Ends rs d (resolve known i rs ds) k
resolve-At known i [] ds k d at = unfold resolve in (d, at, SameBut-refl d, λ h. refl)
resolve-At known i (r ∷ rs) ds k d at = elim (Bool-cases (leb (length ds) i)) [
  | inl stop ↦
      subst (λ es. Ends (r ∷ rs) d es k) (sym (resolve_stop known i r rs ds stop))
        (d, at, SameBut-refl d, λ h. refl)
  | inr next ↦
      let o = path_index r.target_path 0 known in
      let (e, there, same, kept) = set_target-At r.path o ds k d at in
      let (f, last, same', kept') =
        resolve-At known (i + 1) rs (set_target r.path o ds) k e there in
      subst (λ es. Ends (r ∷ rs) d es k) (sym (resolve_next known i r rs ds next))
        (
          f,
          last,
          SameBut-trans d e f same same',
          λ h.
              let back = kept h.0 in
              kept' (
                subst (λ x. All (λ (q : RedirectEntry). is_redirect_at q.path x ≡ false) rs)
                  (sym back) h.1)
              ∙ back,
        )
]

-- No two redirects have the same path.
unfoldable pub Distinct : List RedirectEntry → Type 0
Distinct [] = Unit {0}
Distinct (r ∷ rs) = All (λ (x : RedirectEntry). bytes_eq r.path x.path ≡ false) rs × Distinct rs

-- An entry with the path of one redirect is not one of the others.
others_miss :
    (path : List ℕ) (e : Dirent) (rs : List RedirectEntry)
    → is_redirect_at path e ≡ true
    → All (λ (x : RedirectEntry). bytes_eq path x.path ≡ false) rs
    → All (λ (x : RedirectEntry). is_redirect_at x.path e ≡ false) rs
others_miss path e [] is h = tt
others_miss path e (x ∷ rs) is h =
    let same : e.path ≡ path = bytes_eq→eq e.path path (ground (arith, is)) in
    let differ : bytes_eq e.path x.path ≡ false = ap (λ p. bytes_eq p x.path) same ∙ h.0 in
    (ground (arith, differ), others_miss path e rs is h.1)

pub resolve-Pointed :
    (known : List Dirent) (i : ℕ) (rs : List RedirectEntry) (ds : List Dirent) (n : ℕ)
    (r : RedirectEntry) (j k : ℕ) (d : Dirent)
    → Distinct rs
    → i + length rs ≤ length ds
    → get_elem? rs n ≡ some r
    → path_index r.target_path 0 known ≡ some j
    → At ds k d
    → is_redirect_at r.path d ≡ true
    → Pointed r.path j (resolve known i rs ds)
unfolding Distinct
resolve-Pointed known i [] ds n r j k d distinct room is_one target at is = cc is_one
resolve-Pointed known i (x ∷ rs) ds zero r j k d distinct room is_one target at is =
    let same : x ≡ r = ground (arith, is_one) in
    let next = lt→leb (length ds) i (omega (arith, room)) in
    let o = path_index x.target_path 0 known in
    let to : o ≡ some j =
      ap (λ (y : RedirectEntry). path_index y.target_path 0 known) same ∙ target in
    let is_x : is_redirect_at x.path d ≡ true =
      ap (λ (y : RedirectEntry). is_redirect_at y.path d) same ∙ is in
    let (k', e, there, good, points) =
      subst (λ t. Pointed x.path j (set_target x.path t ds)) (sym to)
        (set_some-Pointed x.path j ds k d at is_x) in
    let (f, last, but, kept) = resolve-At known (i + 1) rs (set_target x.path o ds) k' e there in
    let back = kept (others_miss x.path e rs good distinct.0) in
    subst (λ (y : RedirectEntry). Pointed y.path j (resolve known i (x ∷ rs) ds)) same
      (subst (Pointed x.path j) (sym (resolve_next known i x rs ds next)) (
        k',
        f,
        last,
        ap (is_redirect_at x.path) back ∙ good,
        ap (λ (y : Dirent). y.redirect_index) back ∙ points,
      ))
resolve-Pointed known i (x ∷ rs) ds (suc n) r j k d distinct room is_one target at is =
    let next = lt→leb (length ds) i (omega (arith, room)) in
    let o = path_index x.target_path 0 known in
    let (e, there, but, kept) = set_target-At x.path o ds k d at in
    subst (Pointed r.path j) (sym (resolve_next known i x rs ds next)) (
      resolve-Pointed known (i + 1) rs (set_target x.path o ds) n r j k e distinct.1
        (omega (arith, room, length-set_target x.path o ds)) is_one target there
        (SameBut-redirect r.path d e but ∙ is))

-- A redirect with the path stands in the entries, and its index is that of an entry of content, or a
-- link target, with the target's path.
pub record Leads (es : List Dirent) (r : RedirectEntry) : Type 0 where
  pub index : ℕ
  pub redirect : Dirent
  pub target : Dirent
  pub at : At es index redirect
  pub is_one : is_redirect_at r.path redirect ≡ true
  pub to : At es redirect.redirect_index target
  pub is_known : is_target r.target_path target ≡ true

typed_target :
    (path : List ℕ) (d : Dirent) (t : EntryType)
    → is_target path (record d { entry_type = t }) ≡ true
    → is_redirect (record d { entry_type = t }) ≡ false
unfolding is_content is_link_target is_redirect
typed_target path d EntryType.content h = refl
typed_target path d EntryType.redirect h = cc h
typed_target path d EntryType.link_target h = refl
typed_target path d EntryType.deleted h = refl

is_target-other : (path : List ℕ) (d : Dirent) → is_target path d ≡ true → is_redirect d ≡ false
is_target-other path d h = typed_target path d d.entry_type h

pub resolve_redirects-Leads :
    (rs : List RedirectEntry) (ds : List Dirent) (n : ℕ) (r : RedirectEntry) (k m : ℕ)
    (d t : Dirent)
    → Distinct rs
    → length rs ≤ length ds
    → length ds < 2 ^ 32
    → get_elem? rs n ≡ some r
    → At ds k d
    → is_redirect_at r.path d ≡ true
    → At ds m t
    → is_target r.target_path t ≡ true
    → Leads (resolve_redirects rs ds) r
unfolding resolve_redirects
resolve_redirects-Leads rs ds n r k m d t distinct room few is_one at is there known =
    let (j, u, found, known_at, good) = path_index-At r.target_path ds m t few there known in
    let (k', e, redirect_at, redirects, points) =
      resolve-Pointed ds 0 rs ds n r j k d distinct (omega (arith, room)) is_one found at is in
    let (u', last, but, kept) = resolve-At ds 0 rs ds j u known_at in
    let same = but.others (is_target-other r.target_path u good) in
    record {
      index = k';
      redirect = e;
      target = u';
      at = redirect_at;
      is_one = redirects;
      to = subst (λ i. At (resolve ds 0 rs ds) i u') (sym points) last;
      is_known = ap (is_target r.target_path) same ∙ good;
    }
