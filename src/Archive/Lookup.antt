-- ===== src/Archive/Lookup.antt =====
-- The look-up of an entry by namespace and path in sorted entries.
use gozim.Base.{
  ℕ, zero, suc, ◌<◌, ◌≡◌, ◌↔◌, refl, sym, ap, ◌∙◌, ◌⊎◌, inl, inr, Bool, true, false, not, ◌&&◌,
  List, [], ◌∷◌, length, get_elem?, ltb, ltb→lt, ◌==◌, ==_iff, Bool-cases, some, Option-cases,
  Error, ok, err, arith,
}
use mathlib.Core.Path.{subst, subst₂, ap₂}
use gozim.Base.Lex.{bytes_eq, bytes_eq→eq, bytes_eq_refl, lex_lt, lex_lt_irrefl, lex_lt_trans}
use gozim.Dirent.{Dirent}
use gozim.Archive.{Archive, Entry, sort_search, sort_key, at_or_above, entry_by_namespace_and_path}
use gozim.Archive.Search.{Monotone, sort_search-IsFirst}

abbrev key_of : Dirent → List ℕ
key_of d = sort_key d.namespace d.path

-- The entries are in the order of the format: by namespace and path, none twice.
unfoldable pub IsSorted : List Dirent → Type 0
IsSorted ds =
    (i j : ℕ) (d e : Dirent)
    → i < j
    → get_elem? ds i ≡ some d
    → get_elem? ds j ≡ some e
    → lex_lt (key_of d) (key_of e) ≡ true

-- There is an element at every index in range, and only there.
get_elem?-some {ℓ} :
    {A : Type ℓ} (l : List A) (i : ℕ) → i < length l → (a : A) × (get_elem? l i ≡ some a)
get_elem?-some [] i h = absurd (omega arith)
get_elem?-some (x ∷ l) zero h = (x, refl)
get_elem?-some (x ∷ l) (suc i) h = get_elem?-some l i (omega arith)

get_elem?-lt {ℓ} : {A : Type ℓ} (l : List A) (i : ℕ) {a : A} → get_elem? l i ≡ some a → i < length l
get_elem?-lt [] i e = cc
get_elem?-lt (x ∷ l) zero e = omega arith
get_elem?-lt (x ∷ l) (suc i) e = omega (arith, get_elem?-lt l i e)

at_or_above_lem :
    (ds : List Dirent) (key : List ℕ) (i : ℕ) (d : Dirent)
    → get_elem? ds i ≡ some d
    → at_or_above ds key i ≡ not (lex_lt (key_of d) key)
unfolding at_or_above
at_or_above_lem ds key i d e = rw (e, at_or_above) refl

not_lem : (b : Bool) → not b ≡ true → b ≡ false
not_lem true h = cc
not_lem false h = refl

at_or_above-Monotone :
    (ds : List Dirent) (key : List ℕ) → IsSorted ds → Monotone (length ds) (at_or_above ds key)
unfolding IsSorted
at_or_above-Monotone ds key s i j ij l t =
    let (e, je) = get_elem?-some ds j l in
    let (d, id) = get_elem?-some ds i (omega arith) in
    let low : lex_lt (key_of d) key ≡ false = not_lem _ (sym (at_or_above_lem ds key i d id) ∙ t) in
    elim (Bool-cases (ltb i j)) [
      | inr same ↦ let eq : i ≡ j = ground arith in subst (λ k. at_or_above ds key k ≡ true) eq t
      | inl less ↦ elim (Bool-cases (lex_lt (key_of e) key)) [
        | inl below ↦ absurd (cc (lex_lt_trans _ _ _ (s i j d e (ground arith) id je) below))
        | inr above ↦ rw (at_or_above_lem ds key j e je, above)
      ]
    ]

abbrev found_at : Archive → ℕ → List ℕ → ℕ
found_at a ns path = sort_search (length a.dirents) (at_or_above a.dirents (sort_key ns path))

-- In sorted entries the search ends at the entry that has the key.
found_at_key :
    (a : Archive) (j : ℕ) (d : Dirent)
    → IsSorted a.dirents
    → get_elem? a.dirents j ≡ some d
    → found_at a d.namespace d.path ≡ j
unfolding IsSorted
found_at_key a j d s e =
    let first =
      sort_search-IsFirst (length a.dirents) (at_or_above a.dirents (key_of d))
        (at_or_above-Monotone a.dirents (key_of d) s) in
    let r = found_at a d.namespace d.path in
    let here : at_or_above a.dirents (key_of d) j ≡ true =
      at_or_above_lem a.dirents (key_of d) j d e ∙ ap not (lex_lt_irrefl (key_of d)) in
    elim (Bool-cases (ltb j r)) [
      | inl early ↦ absurd (cc (first.below j (ground arith)))
      | inr late ↦ elim (Bool-cases (ltb r j)) [
        | inr no_less ↦ ground arith
        | inl less ↦
            let (x, at) =
              get_elem?-some a.dirents r
                (omega (arith, get_elem?-lt a.dirents j e, ltb→lt r j less)) in
            let lt = s r j x d (ltb→lt r j less) at e in
            let up =
              first.above r (omega arith)
                (omega (arith, get_elem?-lt a.dirents j e, ltb→lt r j less)) in
            let t = at_or_above_lem a.dirents (key_of d) r x at in absurd (cc (sym t ∙ up, lt))
      ]
    ]

accept :
    (a : Archive) (ns : ℕ) (path : List ℕ) (d : Dirent)
    → get_elem? a.dirents (found_at a ns path) ≡ some d
    → d.namespace ≡ ns
    → d.path ≡ path
    → entry_by_namespace_and_path a ns path ≡ ok (record { dirent = d; index = found_at a ns path })
unfolding entry_by_namespace_and_path
accept a ns path d at n p =
    let b : bytes_eq d.path path ≡ true =
      subst (λ q. bytes_eq d.path q ≡ true) p (bytes_eq_refl d.path) in
    rw (at, entry_by_namespace_and_path) (rw ((==_iff d.namespace ns).1 n, b))

test_true : (n m : ℕ) (p q : List ℕ) → (n == m && bytes_eq p q) ≡ true → (n ≡ m) × (p ≡ q)
test_true n m p q h = ground (arith, bytes_eq→eq p q)

-- The two outcomes.
outcome :
    (a : Archive) (ns : ℕ) (path : List ℕ)
    → ((d : Dirent) × (get_elem? a.dirents (found_at a ns path) ≡ some d)
        × (d.namespace ≡ ns)
        × (d.path ≡ path)
        × (entry_by_namespace_and_path a ns path
            ≡ ok (record { dirent = d; index = found_at a ns path })))
      ⊎ (entry_by_namespace_and_path a ns path ≡ err Error.entry_not_found)
unfolding entry_by_namespace_and_path
outcome a ns path = elim (Option-cases (get_elem? a.dirents (found_at a ns path))) [
  | inl gone ↦ inr (rw (gone, entry_by_namespace_and_path) refl)
  | inr (d, at) ↦ elim (Bool-cases (d.namespace == ns && bytes_eq d.path path)) [
    | inl t ↦
        let (n, p) = test_true d.namespace ns d.path path t in
        inl (d, at, n, p, accept a ns path d at n p)
    | inr f ↦ inr (rw (at, entry_by_namespace_and_path) (rw f))
  ]
]

abbrev pub Has : Archive → ℕ → List ℕ → ℕ → Dirent → Type 0
Has a ns path i d = (get_elem? a.dirents i ≡ some d) × (d.namespace ≡ ns) × (d.path ≡ path)

present :
    (a : Archive) (ns : ℕ) (path : List ℕ) (i : ℕ) (d : Dirent)
    → IsSorted a.dirents
    → Has a ns path i d
    → entry_by_namespace_and_path a ns path ≡ ok (record { dirent = d; index = i })
present a ns path i d s (at, n, p) =
    let there : found_at a ns path ≡ i =
      ap₂ (found_at a) (sym n) (sym p) ∙ found_at_key a i d s at in
    accept a ns path d (rw there at) n p ∙ ap (λ k. ok (record { dirent = d; index = k })) there

entry_eq : (x y : Entry) → ok x ≡ ok y → (x.dirent ≡ y.dirent) × (x.index ≡ y.index)
entry_eq x y e = ground arith

-- In sorted entries the binary search returns an entry exactly when one has the namespace and the
-- path, with its index; and where none has them, the error is that the entry is not found.
pub entry_by_namespace_and_path_iff :
    (a : Archive) (ns : ℕ) (path : List ℕ)
    → IsSorted a.dirents
    → ((i : ℕ) (d : Dirent)
        → (entry_by_namespace_and_path a ns path ≡ ok (record { dirent = d; index = i }))
          ↔ Has a ns path i d)
      × (((i : ℕ) (d : Dirent) → ¬ Has a ns path i d)
          → entry_by_namespace_and_path a ns path ≡ err Error.entry_not_found)
entry_by_namespace_and_path_iff a ns path s = (
  (λ i d. (
    (λ e. elim (outcome a ns path) [
      | inl (x, at, n, p, found) ↦
          let (same, here) = entry_eq _ _ (sym found ∙ e) in
          subst₂ (Has a ns path) here same (at, n, p)
      | inr missing ↦ absurd (ground (arith, missing))
    ]),
    present a ns path i d s,
  )),
  λ no_entry. elim (outcome a ns path) [
    | inl (x, at, n, p, found) ↦ absurd (no_entry (found_at a ns path) x (at, n, p))
    | inr missing ↦ missing
  ],
)
