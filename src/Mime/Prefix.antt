-- ===== src/Mime/Prefix.antt =====
-- `parse_mime_list` on a table with anything behind it, as the archive reads it.
use gozim.Base.{
  ℕ, zero, suc, ◌<◌, ◌≡◌, ◌⊎◌, inl, inr, refl, sym, ap, ◌∙◌, true, false, ◌==◌, Bool-cases, List,
  [], ◌∷◌, ◌++◌, length, length-append, get_or, All, arith,
}
use gozim.Format.{mime_deleted}
use gozim.Mime.{
  MimeList, push_entry, next_is_zero, parse_loop, parse_mime_list, encode_entries, encode,
  mime_type,
}
use gozim.Mime.Lookup.{get_or-append_left}
use gozim.Mime.RoundTrip.{
  IsName, Ends, at_end, zero_byte, next_of_name, parse_loop-entry, parse_loop-encode,
}
use mathlib.Core.Path.{subst}
use mathlib.Core.List.{append-nil, append_assoc}

-- The entries found so far stay in front.
abbrev Extends : List (List ℕ) → List (List ℕ) → Type 0
Extends es fs = (more : List (List ℕ)) × (fs ≡ es ++ more)

push_entry-Extends : (es : List (List ℕ)) (cur : List ℕ) → Extends es (push_entry es cur)
push_entry-Extends es [] = ([], sym (append-nil _))
push_entry-Extends es (c ∷ cs) = ((c ∷ cs) ∷ [], refl)

Extends-trans : (es fs gs : List (List ℕ)) → Extends es fs → Extends fs gs → Extends es gs
Extends-trans es fs gs (a, p) (b, q) = (a ++ b, q ∙ ap (λ x. x ++ b) p ∙ append_assoc es a b)

parse_loop_letter :
    (es : List (List ℕ)) (cur : List ℕ) (b : ℕ) (bs : List ℕ)
    → (b == 0) ≡ false
    → parse_loop es cur (b ∷ bs) ≡ parse_loop es (cur ++ (b ∷ [])) bs
unfolding parse_loop
parse_loop_letter es cur b bs h = rw (parse_loop, h) refl

parse_loop_last :
    (es : List (List ℕ)) (cur : List ℕ) (b : ℕ) (bs : List ℕ)
    → (b == 0) ≡ true
    → next_is_zero bs ≡ true
    → parse_loop es cur (b ∷ bs) ≡ push_entry es cur
unfolding parse_loop
parse_loop_last es cur b bs h l = rw (parse_loop, h, l) refl

parse_loop_next :
    (es : List (List ℕ)) (cur : List ℕ) (b : ℕ) (bs : List ℕ)
    → (b == 0) ≡ true
    → next_is_zero bs ≡ false
    → parse_loop es cur (b ∷ bs) ≡ parse_loop (push_entry es cur) [] bs
unfolding parse_loop
parse_loop_next es cur b bs h l = rw (parse_loop, h, l) refl

parse_loop-Extends : (es : List (List ℕ)) (cur buf : List ℕ) → Extends es (parse_loop es cur buf)
unfolding parse_loop
parse_loop-Extends es cur [] = push_entry-Extends es cur
parse_loop-Extends es cur (b ∷ bs) = elim (Bool-cases (b == 0)) [
  | inr letter ↦
      subst (Extends es) (sym (parse_loop_letter es cur b bs letter))
        (parse_loop-Extends es (cur ++ (b ∷ [])) bs)
  | inl ends ↦ elim (Bool-cases (next_is_zero bs)) [
    | inl last ↦
        subst (Extends es) (sym (parse_loop_last es cur b bs ends last)) (push_entry-Extends es cur)
    | inr more ↦ subst (Extends es) (sym (parse_loop_next es cur b bs ends more)) (
        Extends-trans es (push_entry es cur) (parse_loop (push_entry es cur) [] bs)
          (push_entry-Extends es cur) (parse_loop-Extends (push_entry es cur) [] bs))
  ]
]

-- A zero byte ends the table, and nothing else does.
Ends-cases : (rest : List ℕ) → Ends rest ⊎ (next_is_zero rest ≡ false)
Ends-cases [] = inl at_end
Ends-cases (zero ∷ rest) = inl (zero_byte rest)
Ends-cases (suc b ∷ rest) = inr (ground arith)

parse_loop-names :
    (es : List (List ℕ)) (e : List ℕ) (more : List (List ℕ)) (rest : List ℕ)
    → IsName e
    → All IsName more
    → next_is_zero rest ≡ false
    → parse_loop es [] (encode_entries (e ∷ more) ++ rest) ≡ parse_loop (es ++ (e ∷ more)) [] rest
unfolding encode_entries
parse_loop-names es e [] rest n ns h =
    ap (parse_loop es []) (append_assoc e (0 ∷ []) rest) ∙ parse_loop-entry es e rest n h
parse_loop-names es e (f ∷ more) rest n ns h =
    ap (parse_loop es []) (append_assoc e (0 ∷ encode_entries (f ∷ more)) rest)
    ∙ parse_loop-entry es e (encode_entries (f ∷ more) ++ rest) n
        (ap next_is_zero (append_assoc f (0 ∷ encode_entries more) rest) ∙ next_of_name f _ ns.0)
    ∙ parse_loop-names (es ++ (e ∷ [])) f more rest ns.0 ns.1 h
    ∙ ap (λ l. parse_loop l [] rest) (append_assoc es (e ∷ []) (f ∷ more))

parse_entries-Extends :
    (es : List (List ℕ)) (rest : List ℕ)
    → All IsName es
    → Extends es (parse_loop [] [] (encode_entries es ++ rest))
parse_entries-Extends [] rest ns = (parse_loop [] [] (encode_entries [] ++ rest), refl)
parse_entries-Extends (e ∷ es) rest ns = elim (Ends-cases rest) [
  | inl ends ↦ ([], parse_loop-encode [] e es rest ns.0 ns.1 ends ∙ sym (append-nil _))
  | inr goes_on ↦
      subst (Extends (e ∷ es)) (sym (parse_loop-names [] e es rest ns.0 ns.1 goes_on))
        (parse_loop-Extends (e ∷ es) [] rest)
]

mime_type_in :
    (es more : List (List ℕ)) (k : ℕ)
    → k < length es
    → k < mime_deleted
    → mime_type (record { entries = es ++ more }) k ≡ get_or es k []
unfolding mime_type
mime_type_in es more k h l = grind (arith, get_or-append_left es more k h, length-append es more)

-- Whatever follows the table, every index below the table's length has the name it had.
pub mime_type-parse_mime_list :
    (ml : MimeList) (rest : List ℕ) (k : ℕ)
    → All IsName ml.entries
    → k < length ml.entries
    → k < mime_deleted
    → mime_type (parse_mime_list (encode ml ++ rest)) k ≡ get_or ml.entries k []
unfolding parse_mime_list encode
mime_type-parse_mime_list ml rest k ns h l =
    let (more, e) = parse_entries-Extends ml.entries rest ns in
    ap (λ es. mime_type (record { entries = es }) k) e ∙ mime_type_in ml.entries more k h l
