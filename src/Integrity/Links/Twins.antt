-- ===== src/Integrity/Links/Twins.antt =====
-- What checkRedundancy reports.
use gozim.Base.{
  ℕ, suc, ◌+◌, ◌<◌, ◌≡◌, refl, sym, ap, ◌∙◌, inl, inr, true, false, Bool-cases, Option-cases, List,
  [], ◌∷◌, get_elem?, All, none, some, Result-cases, Error, ok-injective, ◌>>=◌, ok, err, panic,
  >>=-eq-ok, arith,
}
use mathlib.Core.Path.{subst}
use gozim.Base.Lex.{bytes_eq, bytes_eq→eq}
use gozim.Dirent.{Dirent, is_content}
use gozim.Cluster.{Codec}
use gozim.Archive.{Archive}
use gozim.Integrity.Links.{content_of, first_with, redundancy_from, check_redundancy}
use native.Mathlib.Nat.{add-zero}

module _ (md5 : List ℕ → List ℕ) (codec : Codec) (a : Archive) where
  -- The entry with an index is one of content, and its content has this hash.
  pub record HasHash (i : ℕ) (hash : List ℕ) : Type 0 where
    pub dirent : Dirent
    pub content : List ℕ
    pub at : get_elem? a.dirents i ≡ some dirent
    pub is_one : is_content dirent ≡ true
    pub read : content_of codec a dirent ≡ ok content
    pub hash_is : md5 content ≡ hash

  -- Two entries of content, the first before the second, with the same hash.
  pub record IsTwin (pair : ℕ × ℕ) : Type 0 where
    pub hash : List ℕ
    pub first : HasHash pair.0 hash
    pub second : HasHash pair.1 hash
    pub before : pair.0 < pair.1

  abbrev Known : ℕ → List ℕ × ℕ → Type 0
  Known i (hash, k) = HasHash k hash × (k < i)

  Known-later :
      (i : ℕ) (hashes : List (List ℕ × ℕ)) → All (Known i) hashes → All (Known (i + 1)) hashes
  Known-later i [] h = tt
  Known-later i ((hash, k) ∷ hashes) h = ((h.0.0, omega (arith, h.0.1)), Known-later i hashes h.1)

  first_with-Known :
      (i : ℕ) (hash : List ℕ) (hashes : List (List ℕ × ℕ)) (k : ℕ)
      → All (Known i) hashes
      → first_with hash hashes ≡ some k
      → HasHash k hash × (k < i)
  unfolding first_with
  first_with-Known i hash [] k h e = absurd (cc e)
  first_with-Known i hash ((x, j) ∷ hashes) k h e = elim (Bool-cases (bytes_eq x hash)) [
    | inl same ↦
        let p : x ≡ hash = bytes_eq→eq x hash same in
        let q : j ≡ k = ground (arith, same, e) in
        subst (λ n. HasHash n hash × (n < i)) q (subst (λ z. HasHash j z × (j < i)) p h.0)
    | inr other ↦ first_with-Known i hash hashes k h.1 (ground (arith, other, e))
  ]

  skip_other :
      (hashes : List (List ℕ × ℕ)) (i : ℕ) (d : Dirent) (ds : List Dirent)
      → is_content d ≡ false
      → redundancy_from md5 codec a hashes i (d ∷ ds)
        ≡ redundancy_from md5 codec a hashes (i + 1) ds
  unfolding redundancy_from
  skip_other hashes i d ds h = rw (redundancy_from, h) refl

  skip_unread :
      (hashes : List (List ℕ × ℕ)) (i : ℕ) (d : Dirent) (ds : List Dirent) {e : Error}
      → is_content d ≡ true
      → content_of codec a d ≡ err e
      → redundancy_from md5 codec a hashes i (d ∷ ds)
        ≡ redundancy_from md5 codec a hashes (i + 1) ds
  unfolding redundancy_from
  skip_unread hashes i d ds h r = rw (redundancy_from, h, r) refl

  stop_panic :
      (hashes : List (List ℕ × ℕ)) (i : ℕ) (d : Dirent) (ds : List Dirent)
      → is_content d ≡ true
      → content_of codec a d ≡ panic
      → redundancy_from md5 codec a hashes i (d ∷ ds) ≡ panic
  unfolding redundancy_from
  stop_panic hashes i d ds h r = rw (redundancy_from, h, r) refl

  take_new :
      (hashes : List (List ℕ × ℕ)) (i : ℕ) (d : Dirent) (ds : List Dirent) (c : List ℕ)
      → is_content d ≡ true
      → content_of codec a d ≡ ok c
      → first_with (md5 c) hashes ≡ none
      → redundancy_from md5 codec a hashes i (d ∷ ds)
        ≡ redundancy_from md5 codec a ((md5 c, i) ∷ hashes) (i + 1) ds
  unfolding redundancy_from
  take_new hashes i d ds c h r f = rw (redundancy_from, h, r, f) refl

  report :
      (hashes : List (List ℕ × ℕ)) (i : ℕ) (d : Dirent) (ds : List Dirent) (c : List ℕ) (k : ℕ)
      → is_content d ≡ true
      → content_of codec a d ≡ ok c
      → first_with (md5 c) hashes ≡ some k
      → redundancy_from md5 codec a hashes i (d ∷ ds)
        ≡ (redundancy_from md5 codec a hashes (i + 1) ds >>= λ more. ok ((k, i) ∷ more))
  unfolding redundancy_from
  report hashes i d ds c k h r f = rw (redundancy_from, h, r, f) refl

  at_end : (hashes : List (List ℕ × ℕ)) (i : ℕ) → redundancy_from md5 codec a hashes i [] ≡ ok []
  unfolding redundancy_from
  at_end hashes i = refl

  redundancy_from-IsTwin :
      (hashes : List (List ℕ × ℕ)) (i : ℕ) (ds : List Dirent) (pairs : List (ℕ × ℕ))
      → ((j : ℕ) → get_elem? a.dirents (i + j) ≡ get_elem? ds j)
      → All (Known i) hashes
      → redundancy_from md5 codec a hashes i ds ≡ ok pairs
      → All IsTwin pairs
  redundancy_from-IsTwin hashes i [] pairs at h e =
      let p : [] ≡ pairs = ok-injective (sym (at_end hashes i) ∙ e) in subst (All IsTwin) p tt
  redundancy_from-IsTwin hashes i (d ∷ ds) pairs at h e =
      let later : (j : ℕ) → get_elem? a.dirents (i + 1 + j) ≡ get_elem? ds j = λ j.
        let k : i + 1 + j ≡ i + suc j = omega arith in ap (get_elem? a.dirents) k ∙ at (suc j) in
      let here : get_elem? a.dirents i ≡ some d =
        ap (get_elem? a.dirents) (sym (add-zero i)) ∙ at 0 in
      elim (Bool-cases (is_content d)) [
        | inr other ↦
            redundancy_from-IsTwin hashes (i + 1) ds pairs later (Known-later i hashes h)
              (sym (skip_other hashes i d ds other) ∙ e)
        | inl one ↦ elim (Result-cases (content_of codec a d)) [
          | inr (inl (x, failed)) ↦
              redundancy_from-IsTwin hashes (i + 1) ds pairs later (Known-later i hashes h)
                (sym (skip_unread hashes i d ds one failed) ∙ e)
          | inr (inr panics) ↦ absurd (cc (sym (stop_panic hashes i d ds one panics) ∙ e))
          | inl (c, read) ↦
              let mine : HasHash i (md5 c) = record {
                dirent = d;
                content = c;
                at = here;
                is_one = one;
                read = read;
                hash_is = refl;
              } in
              elim (Option-cases (first_with (md5 c) hashes)) [
                | inl new ↦
                    redundancy_from-IsTwin ((md5 c, i) ∷ hashes) (i + 1) ds pairs later
                      ((mine, omega arith), Known-later i hashes h)
                      (sym (take_new hashes i d ds c one read new) ∙ e)
                | inr (k, old) ↦
                    let (more, rest, same) =
                      >>=-eq-ok (redundancy_from md5 codec a hashes (i + 1) ds)
                        (λ more. ok ((k, i) ∷ more))
                        (sym (report hashes i d ds c k one read old) ∙ e) in
                    let (first, before) = first_with-Known i (md5 c) hashes k h old in
                    let twin : IsTwin (k, i) = record {
                      hash = md5 c;
                      first = first;
                      second = mine;
                      before = before;
                    } in
                    subst (All IsTwin) (ok-injective same) (
                      twin,
                      redundancy_from-IsTwin hashes (i + 1) ds more later (Known-later i hashes h)
                          rest,
                    )
              ]
        ]
      ]

  -- Every pair that `checkRedundancy` reports is one of two entries of content, the first before the
  -- second, whose contents were read and have the same hash.
  pub check_redundancy-IsTwin :
      (pairs : List (ℕ × ℕ)) → check_redundancy md5 codec a ≡ ok pairs → All IsTwin pairs
  unfolding check_redundancy
  check_redundancy-IsTwin pairs e =
      redundancy_from-IsTwin [] 0 a.dirents pairs
        (λ j. let k : 0 + j ≡ j = omega arith in ap (get_elem? a.dirents) k) tt e
