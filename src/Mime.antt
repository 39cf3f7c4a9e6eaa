-- ===== src/Mime.antt =====
-- archive/zim/mime.go: the MIME type table. A string is a list of bytes.
pub mod RoundTrip
pub mod Lookup
pub mod Prefix
use gozim.Base.{
  ℕ, zero, suc, ◌+◌, ◌-◌, ◌%◌, ◌^◌, ◌≤◌, ◌<◌, ◌≡◌, Bool, true, false, not, ◌||◌, ◌&&◌, List, [],
  ◌∷◌, ◌++◌, length, get_or, ltb, leb, ◌==◌, if◌then◌else◌, Option, none, some, Error, Result, ok,
  err,
}
use gozim.Base.Lex.{bytes_eq}
use gozim.Format.{mime_redirect, mime_link_target, mime_deleted}

-- `MimeList`
pub record MimeList : Type 0 where
  pub entries : List (List ℕ)

-- `if i > start { entry := …; if entry != "" { append } }`, where `cur` is `data[start:i]`
abbrev pub push_entry : List (List ℕ) → List ℕ → List (List ℕ)
push_entry entries [] = entries
push_entry entries (c ∷ cs) = entries ++ ((c ∷ cs) ∷ [])

abbrev pub next_is_zero : List ℕ → Bool
next_is_zero [] = false
next_is_zero (b ∷ bs) = b == 0

-- The loop over `data`. `cur` is `data[start:i]`, and the list is `data[i:]`.
unfoldable pub parse_loop : List (List ℕ) → List ℕ → List ℕ → List (List ℕ)
parse_loop entries cur [] = push_entry entries cur
parse_loop entries cur (b ∷ bs) = elim (b == 0) [
  | true ↦ elim (next_is_zero bs) [
    | true ↦ push_entry entries cur
    | false ↦ parse_loop (push_entry entries cur) [] bs
  ]
  | false ↦ parse_loop entries (cur ++ (b ∷ [])) bs
]

-- `ParseMimeList`; its error is always nil.
unfoldable pub parse_mime_list : List ℕ → MimeList
parse_mime_list buf = record { entries = parse_loop [] [] buf }

unfoldable pub encode_entries : List (List ℕ) → List ℕ
encode_entries [] = []
encode_entries (e ∷ es) = e ++ (0 ∷ encode_entries es)

unfoldable pub encode : MimeList → List ℕ
unfolding encode_entries
encode ml = encode_entries ml.entries

-- The three sentinels have names of their own; an index out of range has the empty string.
unfoldable pub mime_type : MimeList → ℕ → List ℕ
mime_type ml index =
    if index == mime_redirect
    then b'r' ∷ b'e' ∷ b'd' ∷ b'i' ∷ b'r' ∷ b'e' ∷ b'c' ∷ b't' ∷ []
    else if index == mime_link_target
    then b'l' ∷ b'i' ∷ b'n' ∷ b'k' ∷ b't' ∷ b'a' ∷ b'r' ∷ b'g' ∷ b'e' ∷ b't' ∷ []
    else if index == mime_deleted
    then b'd' ∷ b'e' ∷ b'l' ∷ b'e' ∷ b't' ∷ b'e' ∷ b'd' ∷ []
    else if leb (length ml.entries) index
    then []
    else get_or ml.entries index []

-- The loop of `Index` and of `Add`: the position of the first entry that equals the name.
unfoldable pub index_from : ℕ → List ℕ → List (List ℕ) → Option ℕ
index_from i name [] = none
index_from i name (e ∷ es) =
    if bytes_eq e name then some (i % 2 ^ 16) else index_from (i + 1) name es

unfoldable pub index : MimeList → List ℕ → Option ℕ
unfolding index_from
index ml name = index_from 0 name ml.entries

unfoldable pub mime_len : MimeList → ℕ
mime_len ml = length ml.entries

unfoldable pub add : MimeList → List ℕ → MimeList × ℕ
unfolding index_from
add ml name = elim (index_from 0 name ml.entries) [
  | some i ↦ (ml, i)
  | none ↦
      let entries = ml.entries ++ (name ∷ []) in
      (record { entries = entries }, (length entries - 1) % 2 ^ 16)
]

unfoldable pub validate : MimeList → ℕ → Result (Unit {0})
validate ml index =
    if index == mime_redirect || index == mime_link_target || index == mime_deleted
    then ok tt
    else if leb (length ml.entries) index
    then err Error.plain
    else ok tt
