-- ===== src/Mime/Lookup.antt =====
-- The operations of the MIME table on its indices and names.
use gozim.Base.{
  ℕ, zero, suc, ◌+◌, ◌-◌, ◌%◌, ◌^◌, ◌≤◌, ◌<◌, ◌≡◌, ◌≢◌, ◌⊎◌, ◌↔◌, inl, inr, refl, sym, ap, ◌∙◌,
  List, [], ◌∷◌, ◌++◌, length, length-append, get_or, none, some, Option-cases, Bool-cases, ok,
  arith,
}
use native.Mathlib.Nat.{sub-zero}
use gozim.Base.Lex.{bytes_eq, bytes_eq→eq, bytes_eq_refl}
use gozim.Format.{mime_redirect, mime_link_target, mime_deleted}
use gozim.Mime.{MimeList, mime_type, index_from, index, mime_len, add, validate}

pub get_or-append_left :
    (es fs : List (List ℕ)) (k : ℕ) → k < length es → get_or (es ++ fs) k [] ≡ get_or es k []
get_or-append_left [] fs k h = absurd (omega arith)
get_or-append_left (e ∷ es) fs zero h = refl
get_or-append_left (e ∷ es) fs (suc k) h = get_or-append_left es fs k (omega arith)

get_or-append_length :
    (es : List (List ℕ)) (f : List ℕ) → get_or (es ++ (f ∷ [])) (length es) [] ≡ f
get_or-append_length [] f = refl
get_or-append_length (e ∷ es) f = get_or-append_length es f

get_or_after :
    (x : List ℕ) (es : List (List ℕ)) (i k : ℕ)
    → i + 1 ≤ k
    → get_or (x ∷ es) (k - i) [] ≡ get_or es (k - (i + 1)) []
get_or_after x es i k h = let e : k - i ≡ suc (k - (i + 1)) = omega arith in rw e

-- What `index_from` finds, counted from `i`, if no index wraps.
index_from_found :
    (i : ℕ) (name : List ℕ) (es : List (List ℕ)) (k : ℕ)
    → i + length es ≤ 2 ^ 16
    → index_from i name es ≡ some k
    → (i ≤ k) × (k < i + length es) × (get_or es (k - i) [] ≡ name)
unfolding index_from
index_from_found i name [] k h e = cc
index_from_found i name (x ∷ es) k h e = elim (Bool-cases (bytes_eq x name)) [
  | inl same ↦
      let at : k ≡ i = ground arith in
      let here : k - i ≡ 0 = omega arith in
      (omega arith, omega arith, rw here (bytes_eq→eq x name same))
  | inr other ↦
      let (lo, hi, at) = index_from_found (i + 1) name es k (omega arith) (ground arith) in
      (omega arith, omega arith, get_or_after x es i k lo ∙ at)
]

index_from_append :
    (i : ℕ) (name : List ℕ) (es : List (List ℕ))
    → index_from i name es ≡ none
    → index_from i name (es ++ (name ∷ [])) ≡ some ((i + length es) % 2 ^ 16)
unfolding index_from
index_from_append i name [] e = ground (arith, bytes_eq_refl name)
index_from_append i name (x ∷ es) e = ground (arith, index_from_append (i + 1) name es)

mime_type_below :
    (ml : MimeList) (k : ℕ)
    → k < length ml.entries
    → length ml.entries ≤ mime_deleted
    → mime_type ml k ≡ get_or ml.entries k []
unfolding mime_type
mime_type_below ml k h l = ground arith

wrap : (n : ℕ) → n < mime_deleted → (0 + n) % 2 ^ 16 ≡ n
wrap n h = omega arith

abbrev with_name : MimeList → List ℕ → MimeList
with_name ml name = record { entries = ml.entries ++ (name ∷ []) }

add_new :
    (ml : MimeList) (name : List ℕ)
    → length ml.entries < mime_deleted
    → index_from 0 name ml.entries ≡ none
    → add ml name ≡ (with_name ml name, length ml.entries)
unfolding add
add_new ml name h new = ground (arith, length-append ml.entries (name ∷ []))

add_old :
    (ml : MimeList) (name : List ℕ) {i : ℕ}
    → index_from 0 name ml.entries ≡ some i
    → add ml name ≡ (ml, i)
unfolding add
add_old ml name old = ground arith

-- `add` on a table below the sentinels returns an index at which the new table has the name and
-- at which `index` finds it; it keeps the entries below, and a name that is there adds nothing.
pub add_lem :
    (ml : MimeList) (name : List ℕ)
    → mime_len ml < mime_deleted
    → (mime_type (add ml name).0 (add ml name).1 ≡ name)
      × (index (add ml name).0 name ≡ some (add ml name).1)
      × ((k : ℕ) → k < mime_len ml → mime_type (add ml name).0 k ≡ mime_type ml k)
      × (index ml name ≢ none → (add ml name).0 ≡ ml)
unfolding index mime_len
add_lem ml name h = elim (Option-cases (index_from 0 name ml.entries)) [
  | inl new ↦
      let grown = with_name ml name in
      let longer = length-append ml.entries (name ∷ []) in
      rw (add_new ml name h new) (
        mime_type_below grown _ (omega (arith, longer)) (omega (arith, longer))
            ∙ get_or-append_length ml.entries name,
        index_from_append 0 name ml.entries new ∙ ap some (wrap (length ml.entries) h),
        (λ k l.
            mime_type_below grown k (omega (arith, longer)) (omega (arith, longer))
            ∙ get_or-append_left ml.entries (name ∷ []) k l
            ∙ sym (mime_type_below ml k l (omega arith))),
        λ old. absurd (old new),
      )
  | inr (i, old) ↦
      let (lo, hi, at) = index_from_found 0 name ml.entries i (omega arith) old in
      rw (add_old ml name old) (
        mime_type_below ml i (omega arith) (omega arith) ∙ rw sub-zero at at,
        old,
        (λ k l. refl),
        λ _. refl,
      )
]

-- An index is valid exactly when it is one of the three sentinels or lies below the length.
pub mime_validate_iff :
    (ml : MimeList) (i : ℕ)
    → (validate ml i ≡ ok tt)
      ↔ ((i ≡ mime_redirect) ⊎ ((i ≡ mime_link_target) ⊎ ((i ≡ mime_deleted) ⊎ (i < mime_len ml))))
unfolding validate mime_len
mime_validate_iff ml i = ground arith
