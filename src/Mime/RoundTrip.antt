-- ===== src/Mime/RoundTrip.antt =====
-- `parse_mime_list` reads back what `encode` wrote.
use gozim.Base.{ℕ, ◌≡◌, ◌≢◌, refl, ap, ◌∙◌, false, List, [], ◌∷◌, ◌++◌, All, arith}
use gozim.Mime.{
  MimeList, push_entry, next_is_zero, parse_loop, parse_mime_list, encode_entries, encode,
}
use mathlib.Core.List.{append-nil, append_assoc}

-- A name that the table can hold: not empty, with no zero byte.
pub record IsName (e : List ℕ) : Type 0 where
  pub nonempty : e ≢ []
  pub no_zero : All (λ b. b ≢ 0) e

-- What may follow the table: nothing, or a zero byte.
pub data Ends : List ℕ → Type 0 where
  at_end : Ends []
  zero_byte : (rest : List ℕ) → Ends (0 ∷ rest)

parse_loop-name :
    (entries : List (List ℕ)) (cur e rest : List ℕ)
    → All (λ b. b ≢ 0) e
    → parse_loop entries cur (e ++ rest) ≡ parse_loop entries (cur ++ e) rest
unfolding parse_loop
parse_loop-name entries cur [] rest h = rw append-nil
parse_loop-name entries cur (b ∷ e) rest h =
    ground (
      arith,
      h.0,
      parse_loop-name entries (cur ++ (b ∷ [])) e rest h.1,
      append_assoc cur (b ∷ []) e,
    )

push_entry_lem :
    (entries : List (List ℕ)) (e : List ℕ) → e ≢ [] → push_entry entries e ≡ entries ++ (e ∷ [])
push_entry_lem entries [] h = absurd (h refl)
push_entry_lem entries (x ∷ e) h = refl

pub next_of_name : (e rest : List ℕ) → IsName e → next_is_zero (e ++ rest) ≡ false
next_of_name [] rest n = absurd (n.nonempty refl)
next_of_name (b ∷ e) rest n = ground (arith, n.no_zero.0)

zero_step :
    (entries : List (List ℕ)) (cur rest : List ℕ)
    → next_is_zero rest ≡ false
    → parse_loop entries cur (0 ∷ rest) ≡ parse_loop (push_entry entries cur) [] rest
unfolding parse_loop
zero_step entries cur rest h = ground arith

-- One entry with its zero byte, before something that is not a zero byte.
pub parse_loop-entry :
    (entries : List (List ℕ)) (e rest : List ℕ)
    → IsName e
    → next_is_zero rest ≡ false
    → parse_loop entries [] (e ++ (0 ∷ rest)) ≡ parse_loop (entries ++ (e ∷ [])) [] rest
parse_loop-entry entries e rest n h =
    parse_loop-name entries [] e (0 ∷ rest) n.no_zero
    ∙ zero_step entries e rest h
    ∙ ap (λ l. parse_loop l [] rest) (push_entry_lem entries e n.nonempty)

parse_loop-last :
    (entries : List (List ℕ)) (e rest : List ℕ)
    → IsName e
    → Ends rest
    → parse_loop entries [] (e ++ (0 ∷ rest)) ≡ entries ++ (e ∷ [])
unfolding parse_loop
parse_loop-last entries e rest n at_end =
    parse_loop-name entries [] e (0 ∷ []) n.no_zero ∙ push_entry_lem entries e n.nonempty
parse_loop-last entries e rest n (zero_byte r) =
    parse_loop-name entries [] e (0 ∷ 0 ∷ r) n.no_zero ∙ push_entry_lem entries e n.nonempty

pub parse_loop-encode :
    (entries : List (List ℕ)) (e : List ℕ) (es : List (List ℕ)) (rest : List ℕ)
    → IsName e
    → All IsName es
    → Ends rest
    → parse_loop entries [] (encode_entries (e ∷ es) ++ rest) ≡ entries ++ (e ∷ es)
unfolding encode_entries
parse_loop-encode entries e [] rest n ns t = rw append_assoc (parse_loop-last entries e rest n t)
parse_loop-encode entries e (f ∷ es) rest n ns t =
    ap (parse_loop entries []) (append_assoc e (0 ∷ encode_entries (f ∷ es)) rest)
    ∙ parse_loop-entry entries e (encode_entries (f ∷ es) ++ rest) n
        (ap next_is_zero (append_assoc f (0 ∷ encode_entries es) rest) ∙ next_of_name f _ ns.0)
    ∙ parse_loop-encode (entries ++ (e ∷ [])) f es rest ns.0 ns.1 t
    ∙ append_assoc entries (e ∷ []) (f ∷ es)

parse_encode_entries :
    (es : List (List ℕ)) (rest : List ℕ)
    → es ≢ []
    → All IsName es
    → Ends rest
    → parse_loop [] [] (encode_entries es ++ rest) ≡ es
parse_encode_entries [] rest h n t = absurd (h refl)
parse_encode_entries (e ∷ es) rest h n t = parse_loop-encode [] e es rest n.0 n.1 t

-- A table of at least one name, encoded and followed by nothing or by a zero byte, is read back.
-- A name is not empty and holds no zero byte.
parse_mime_list-encode :
    (ml : MimeList) (rest : List ℕ)
    → ml.entries ≢ []
    → All IsName ml.entries
    → Ends rest
    → parse_mime_list (encode ml ++ rest) ≡ ml
unfolding parse_mime_list encode
parse_mime_list-encode ml rest h n t =
    λ i. record { entries = parse_encode_entries ml.entries rest h n t i }
