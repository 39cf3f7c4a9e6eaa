-- ===== src/Writer/Layout/Sorted.antt =====
-- The entries in the order that finishWriting sorts by, and the redirects among them.
use gozim.Base.{
  ℕ, zero, suc, ◌<◌, ◌≡◌, refl, sym, ap, ◌∙◌, false, List, [], ◌∷◌, length, some, arith, ◌⊎◌, inl,
  inr, Bool-cases, ◌==◌,
}
use mathlib.Core.List.{Permᴰ}
use gozim.Base.Lex.{lex_lt}
use gozim.Dirent.{Dirent}
use gozim.Writer.{RedirectEntry}
use gozim.Writer.Layout.{SortSlice, before_dirent, resolve_redirects, resolve}
use gozim.Writer.Layout.Bounds.{length-resolve}
use gozim.Writer.Layout.Redirects.{At, SameBut}
use gozim.Writer.Layout.Resolved.{resolve-At}

-- No entry is before one that stands in front of it.
unfoldable pub InOrder : List Dirent → Type 0
InOrder ds = (i j : ℕ) (d e : Dirent) → i < j → At ds i d → At ds j e → before_dirent e d ≡ false

-- What package sort says of `sort.Slice` with an order: the same entries, in the order.
pub record Sorts (sort : SortSlice) (ds : List Dirent) : Type 0 where
  pub perm : Permᴰ ds (sort before_dirent ds)
  pub ordered : InOrder (sort before_dirent ds)

abbrev pub In : Dirent → List Dirent → Type 0
In d ds = (k : ℕ) × At ds k d

pub Permᴰ-In : {ds es : List Dirent} (d : Dirent) → Permᴰ ds es → In d ds → In d es
Permᴰ-In d Permᴰ.nil h = h
Permᴰ-In d (Permᴰ.cons e p) (zero, at) = (0, ap some (sym e) ∙ at)
Permᴰ-In d (Permᴰ.cons e p) (suc k, at) = let (n, there) = Permᴰ-In d p (k, at) in (suc n, there)
Permᴰ-In d (Permᴰ.swap e f) (zero, at) = (1, ap some (sym e) ∙ at)
Permᴰ-In d (Permᴰ.swap e f) (suc zero, at) = (0, ap some (sym f) ∙ at)
Permᴰ-In d (Permᴰ.swap e f) (suc (suc k), at) = (suc (suc k), at)
Permᴰ-In d (Permᴰ.trans p q) h = Permᴰ-In d q (Permᴰ-In d p h)

pub Permᴰ-length : {ds es : List Dirent} → Permᴰ ds es → length es ≡ length ds
Permᴰ-length Permᴰ.nil = refl
Permᴰ-length (Permᴰ.cons e p) = ap suc (Permᴰ-length p)
Permᴰ-length (Permᴰ.swap e f) = refl
Permᴰ-length (Permᴰ.trans p q) = Permᴰ-length q ∙ Permᴰ-length p

-- By namespace, and in a namespace by path
abbrev pub NotAfter : Dirent → Dirent → Type 0
NotAfter d e =
    (d.namespace < e.namespace) ⊎ ((d.namespace ≡ e.namespace) × (lex_lt e.path d.path ≡ false))

before_dirent-NotAfter : (d e : Dirent) → before_dirent e d ≡ false → NotAfter d e
unfolding before_dirent
before_dirent-NotAfter d e h = elim (Bool-cases (e.namespace == d.namespace)) [
  | inl same ↦ inr (ground (arith, same), ground (arith, same, h))
  | inr other ↦ inl (ground (arith, other, h))
]

-- The entries given, in another order, each as it was up to the target of a redirect.
pub record Arranged (given es : List Dirent) : Type 0 where
  pub arranged : List Dirent
  pub perm : Permᴰ given arranged
  pub number : length es ≡ length arranged
  pub entries : (k : ℕ) (d : Dirent) → At arranged k d → (e : Dirent) × At es k e × SameBut d e
  pub ordered : (i j : ℕ) (d e : Dirent) → i < j → At es i d → At es j e → NotAfter d e

before-SameBut :
    (d d' e e' : Dirent) → SameBut d d' → SameBut e e' → before_dirent e' d' ≡ before_dirent e d
unfolding before_dirent
before-SameBut d d' e e' p q = ap (before_dirent e') p.same ∙ ap (λ x. before_dirent x d) q.same

some_at : (ds : List Dirent) (k : ℕ) → k < length ds → (d : Dirent) × At ds k d
some_at [] k h = absurd (omega arith)
some_at (d ∷ ds) zero h = (d, refl)
some_at (d ∷ ds) (suc k) h = some_at ds k (omega arith)

at_lt : (ds : List Dirent) (k : ℕ) {d : Dirent} → At ds k d → k < length ds
at_lt [] k h = cc h
at_lt (x ∷ ds) zero h = omega arith
at_lt (x ∷ ds) (suc k) h = omega (arith, at_lt ds k h)

some_same : (ds : List Dirent) (k : ℕ) (d e : Dirent) → At ds k d → At ds k e → d ≡ e
some_same ds k d e p q = ground (arith, p, q)

InOrder-resolve :
    (rs : List RedirectEntry) (ds : List Dirent) → InOrder ds → InOrder (resolve_redirects rs ds)
unfolding InOrder resolve_redirects
InOrder-resolve rs ds order i j d e less at at' =
    let es = resolve ds 0 rs ds in
    let long = length-resolve ds 0 rs ds in
    let (d0, there) = some_at ds i (omega (arith, long, at_lt es i at)) in
    let (e0, there') = some_at ds j (omega (arith, long, at_lt es j at')) in
    let (d1, last, same, kept) = resolve-At ds 0 rs ds i d0 there in
    let (e1, last', same', kept') = resolve-At ds 0 rs ds j e0 there' in
    ap (before_dirent e) (some_same es i d d1 at last)
    ∙ ap (λ x. before_dirent x d1) (some_same es j e e1 at' last')
    ∙ before-SameBut d0 d1 e0 e1 same same'
    ∙ order i j d0 e0 less there there'

before_dirent-resolve :
    (rs : List RedirectEntry) (ds : List Dirent)
    → InOrder ds
    → (i j : ℕ) (d e : Dirent) → i < j
    → At (resolve_redirects rs ds) i d
    → At (resolve_redirects rs ds) j e
    → before_dirent e d ≡ false
unfolding InOrder
before_dirent-resolve rs ds order = unfold InOrder in InOrder-resolve rs ds order

pub resolve_redirects-Arranged :
    (sort : SortSlice) (rs : List RedirectEntry) (ds : List Dirent)
    → Sorts sort ds
    → Arranged ds (resolve_redirects rs (sort before_dirent ds))
unfolding resolve_redirects
resolve_redirects-Arranged sort rs ds sorts =
    let sorted = sort before_dirent ds in
    record {
      arranged = sorted;
      perm = sorts.perm;
      number = length-resolve sorted 0 rs sorted;
      entries = λ k d at.
          let (e, there, same, kept) = resolve-At sorted 0 rs sorted k d at in (e, there, same);
      ordered = λ i j d e less at at'.
          before_dirent-NotAfter d e
            (before_dirent-resolve rs sorted sorts.ordered i j d e less at at');
    }
