-- ===== src/Cache/Links.antt =====
-- The map of a shard, from keys to elements and back.
use gozim.Base.{
  length, ◌+◌, ℕ, ◌≡◌, ◌≢◌, refl, sym, ap, ◌∙◌, inl, inr, true, false, ◌==◌, Bool-cases, List, [],
  ◌∷◌, none, some, arith,
}
use mathlib.Core.Path.{subst}
use gozim.Cache.{find, delete, key_of}

-- No key twice, and no element under two keys.
unfoldable pub OneToOne : List (ℕ × ℕ) → Type 0
OneToOne [] = Unit {0}
OneToOne ((k, e) ∷ items) = (find k items ≡ none) × (key_of e items ≡ none) × OneToOne items

pub key_of-find :
    (items : List (ℕ × ℕ)) (k id : ℕ)
    → OneToOne items
    → find k items ≡ some id
    → key_of id items ≡ some k
unfolding find key_of OneToOne
key_of-find [] k id one e = cc e
key_of-find ((k', id') ∷ items) k id one e = ground (arith, key_of-find items k id one.2)

pub find-key_of :
    (items : List (ℕ × ℕ)) (k id : ℕ)
    → OneToOne items
    → key_of id items ≡ some k
    → find k items ≡ some id
unfolding find key_of OneToOne
find-key_of [] k id one e = cc e
find-key_of ((k', id') ∷ items) k id one e = ground (arith, find-key_of items k id one.2)

pub find-delete_same : (items : List (ℕ × ℕ)) (k : ℕ) → find k (delete k items) ≡ none
unfolding find delete
find-delete_same [] k = refl
find-delete_same ((k', id') ∷ items) k = ground (arith, find-delete_same items k)

pub find-delete_other :
    (items : List (ℕ × ℕ)) (k k' : ℕ) → k ≢ k' → find k' (delete k items) ≡ find k' items
unfolding find delete
find-delete_other [] k k' h = refl
find-delete_other ((q, id) ∷ items) k k' h = ground (arith, find-delete_other items k k' h)

-- The key of an element that is not deleted.
pub key_of-delete_other :
    (items : List (ℕ × ℕ)) (k id : ℕ)
    → key_of id items ≢ some k
    → key_of id (delete k items) ≡ key_of id items
unfolding key_of delete
key_of-delete_other [] k id h = refl
key_of-delete_other ((q, id') ∷ items) k id h = ground (arith, key_of-delete_other items k id)

pub key_of-delete-none :
    (items : List (ℕ × ℕ)) (k id : ℕ) → key_of id items ≡ none → key_of id (delete k items) ≡ none
unfolding key_of delete
key_of-delete-none [] k id h = refl
key_of-delete-none ((q, id') ∷ items) k id h = ground (arith, key_of-delete-none items k id)

find-delete-none :
    (items : List (ℕ × ℕ)) (k k' : ℕ) → find k' items ≡ none → find k' (delete k items) ≡ none
unfolding find delete
find-delete-none [] k k' h = refl
find-delete-none ((q, id') ∷ items) k k' h = ground (arith, find-delete-none items k k')

delete_gone :
    (q id k : ℕ) (items : List (ℕ × ℕ))
    → (q == k) ≡ true
    → delete k ((q, id) ∷ items) ≡ delete k items
unfolding delete
delete_gone q id k items h = ground (arith, h)

delete_kept :
    (q id k : ℕ) (items : List (ℕ × ℕ))
    → (q == k) ≡ false
    → delete k ((q, id) ∷ items) ≡ (q, id) ∷ delete k items
unfolding delete
delete_kept q id k items h = ground (arith, h)

pub OneToOne-delete : (items : List (ℕ × ℕ)) (k : ℕ) → OneToOne items → OneToOne (delete k items)
unfolding OneToOne
OneToOne-delete [] k one = unfold delete in tt
OneToOne-delete ((q, id) ∷ items) k one = elim (Bool-cases (q == k)) [
  | inl gone ↦ subst OneToOne (sym (delete_gone q id k items gone)) (OneToOne-delete items k one.2)
  | inr kept ↦ subst OneToOne (sym (delete_kept q id k items kept)) (
    find-delete-none items k q one.0,
    key_of-delete-none items k id one.1,
    OneToOne-delete items k one.2,
  )
]

delete_absent : (items : List (ℕ × ℕ)) (k : ℕ) → find k items ≡ none → delete k items ≡ items
unfolding find delete
delete_absent [] k h = refl
delete_absent ((q, id) ∷ items) k h = ground (arith, h, delete_absent items k)

-- A key that is there stands for one pair.
pub length-delete :
    (items : List (ℕ × ℕ)) (k id : ℕ)
    → OneToOne items
    → find k items ≡ some id
    → length (delete k items) + 1 ≡ length items
unfolding find OneToOne
length-delete [] k id one h = cc h
length-delete ((q, id') ∷ items) k id one h = elim (Bool-cases (q == k)) [
  | inl here ↦
      let same : q ≡ k = ground (arith, here) in
      let e : delete k ((q, id') ∷ items) ≡ items =
        delete_gone q id' k items here
        ∙ delete_absent items k (ap (λ x. find x items) (sym same) ∙ one.0) in
      omega (arith, ap (length {A = ℕ × ℕ}) e)
  | inr there ↦ omega (
    arith,
    length-delete items k id one.2 (ground (arith, there, h)),
    ap (length {A = ℕ × ℕ}) (delete_kept q id' k items there),
  )
]
