-- ===== src/Integrity/Links.antt =====
-- archive/zim/integrity.go: the checks that read the contents of the entries: the links of HTML pages,
-- empty entries, and entries with the same content.
pub mod Ends
pub mod Twins
use gozim.Base.{
  ℕ, zero, suc, ◌+◌, ◌%◌, ◌^◌, ◌≤◌, Bool, true, false, not, ◌&&◌, ◌||◌, List, [], ◌∷◌, ◌++◌, length,
  take, drop, ltb, leb, ◌==◌, if◌then◌else◌, Option, none, some, Result, ok, err, panic, ◌>>=◌,
}
use gozim.Base.Lex.{bytes_eq}
use gozim.Base.Strings.{begins, index_of}
use gozim.Mime.{mime_type}
use gozim.Dirent.{Dirent, is_redirect, is_deleted, is_content}
use gozim.Cluster.{Codec}
use gozim.Archive.{Archive, Item, read_item, all_bytes, has_entry}

-- `strings.IndexByte` and `strings.IndexAny`: where the first such byte stands
unfoldable pub index_where : (ℕ → Bool) → List ℕ → Option ℕ
index_where p [] = none
index_where p (c ∷ cs) =
    let rest = index_where p cs in
    if p c then some 0 else elim rest [ none ↦ none | some i ↦ some (suc i) ]

-- " \t\n\r>"
unfoldable pub ends_link : ℕ → Bool
ends_link c = c == b' ' || c == 9 || c == 10 || c == 13 || c == b'>'

unfoldable pub is_quote : ℕ → Bool
is_quote c = c == b'"' || c == 39

pub record Link : Type 0 where
  pub target : List ℕ
  pub in_quotes : Bool

-- What a round finds behind the attribute, where `rest` is `content[pos:]`: nothing where the loop
-- breaks off, and otherwise the link and how far the position goes on.
unfoldable pub link_at : List ℕ → Option (Link × ℕ)
unfolding index_where ends_link is_quote
link_at [] = none
link_at (c ∷ []) = none
link_at (c ∷ d ∷ rest) = elim (is_quote c) [
  | true ↦ elim (index_where (λ b. b == c) (d ∷ rest)) [
    | none ↦ none
    | some closing ↦
        some (record { target = take closing (d ∷ rest); in_quotes = true }, closing + 1)
  ]
  | false ↦
      let len : ℕ = elim (index_where ends_link (c ∷ d ∷ rest)) [
        | none ↦ length (c ∷ d ∷ rest)
        | some i ↦ i
      ] in
      some (record { target = take len (c ∷ d ∷ rest); in_quotes = false }, len)
]

abbrev pub link_then : Link → Option (Result (List Link)) → Option (Result (List Link))
link_then l none = none
link_then l (some (ok ls)) = some (ok (l ∷ ls))
link_then l (some (err e)) = some (err e)
link_then l (some panic) = some panic

-- The loop over the places of an attribute, from a position on: nothing where the rounds do not
-- suffice. Both slices `content[pos:]` panic where the position is past the end.
unfoldable pub links_from : ℕ → List ℕ → List ℕ → ℕ → Option (Result (List Link))
unfolding index_of link_at
links_from zero content attr pos = none
links_from (suc rounds) content attr pos = elim (leb pos (length content)) [
  | false ↦ some panic
  | true ↦ elim (index_of (drop pos content) attr) [
    | none ↦ some (ok [])
    | some idx ↦ elim (leb (pos + idx + length attr) (length content)) [
      | false ↦ some panic
      | true ↦ elim (link_at (drop (pos + idx + length attr) content)) [
        | none ↦ some (ok [])
        | some (l, on) ↦ link_then l (links_from rounds content attr (pos + idx + length attr + on))
      ]
    ]
  ]
]

-- "http://", "https://", "mailto:", "tel:", "javascript:", "data:", "//" and "#"
abbrev external_prefixes : List (List ℕ)
external_prefixes =
    (b'h' ∷ b't' ∷ b't' ∷ b'p' ∷ b':' ∷ b'/' ∷ b'/' ∷ [])
    ∷ (b'h' ∷ b't' ∷ b't' ∷ b'p' ∷ b's' ∷ b':' ∷ b'/' ∷ b'/' ∷ [])
    ∷ (b'm' ∷ b'a' ∷ b'i' ∷ b'l' ∷ b't' ∷ b'o' ∷ b':' ∷ [])
    ∷ (b't' ∷ b'e' ∷ b'l' ∷ b':' ∷ [])
    ∷ (b'j' ∷ b'a' ∷ b'v' ∷ b'a' ∷ b's' ∷ b'c' ∷ b'r' ∷ b'i' ∷ b'p' ∷ b't' ∷ b':' ∷ [])
    ∷ (b'd' ∷ b'a' ∷ b't' ∷ b'a' ∷ b':' ∷ [])
    ∷ (b'/' ∷ b'/' ∷ [])
    ∷ (b'#' ∷ [])
    ∷ []

unfoldable begins_with_one : List (List ℕ) → List ℕ → Bool
unfolding begins
begins_with_one [] url = false
begins_with_one (p ∷ ps) url = begins url p || begins_with_one ps url

-- `isExternalURL`
unfoldable is_external_url : List ℕ → Bool
unfolding begins_with_one
is_external_url url = begins_with_one external_prefixes url

-- `BrokenLink`; the reason is always the same.
pub record BrokenLink : Type 0 where
  pub source_entry : List ℕ
  pub target_link : List ℕ

-- The condition of each of the two reports
unfoldable is_broken : Archive → Link → Bool
unfolding is_external_url
is_broken a l =
    not (is_external_url l.target)
    && (not l.in_quotes || not (bytes_eq l.target []))
    && not (has_entry a l.target)

unfoldable broken_of : Archive → Dirent → List Link → List BrokenLink
unfolding is_broken
broken_of a d [] = []
broken_of a d (l ∷ ls) =
    let rest = broken_of a d ls in
    if is_broken a l
    then (record { source_entry = d.path; target_link = l.target }) ∷ rest
    else rest

-- "href=" and "src="
abbrev pub href_attr : List ℕ
href_attr = b'h' ∷ b'r' ∷ b'e' ∷ b'f' ∷ b'=' ∷ []

abbrev src_attr : List ℕ
src_attr = b's' ∷ b'r' ∷ b'c' ∷ b'=' ∷ []

-- The links of one attribute; one round more than the content has bytes is enough.
unfoldable pub links_of : List ℕ → List ℕ → Result (List Link)
unfolding links_from
links_of content attr = elim (links_from (suc (length content)) content attr 0) [
  | none ↦ panic
  | some r ↦ r
]

unfoldable pub content_of : Codec → Archive → Dirent → Result (List ℕ)
content_of codec a d = do i ← read_item codec a d; all_bytes codec a i

-- "text/html"
abbrev text_html : List ℕ
text_html = b't' ∷ b'e' ∷ b'x' ∷ b't' ∷ b'/' ∷ b'h' ∷ b't' ∷ b'm' ∷ b'l' ∷ []

unfoldable links_in : Codec → Archive → Dirent → Result (List BrokenLink)
unfolding content_of links_of broken_of
links_in codec a d = elim (content_of codec a d) [
  | err _ ↦ ok []
  | panic ↦ panic
  | ok content ↦ do
    hrefs ← links_of content href_attr
    srcs ← links_of content src_attr
    ok (broken_of a d hrefs ++ broken_of a d srcs)
]

-- `checkLinks`
unfoldable check_links : Codec → Archive → List Dirent → Result (List BrokenLink)
unfolding links_in begins
check_links codec a [] = ok []
check_links codec a (d ∷ ds) =
    let rest = check_links codec a ds in
    if is_redirect d || is_deleted d
    then rest
    else if not (begins (mime_type a.mime_list d.mime_type_index) text_html)
    then rest
    else (do found ← links_in codec a d; more ← rest; ok (found ++ more))

-- `checkEmptyEntries`, from an index on: the indices of the entries reported
unfoldable check_empty : Codec → Archive → ℕ → List Dirent → Result (List ℕ)
check_empty codec a i [] = ok []
check_empty codec a i (d ∷ ds) =
    let rest = check_empty codec a (i + 1) ds in
    if is_content d
    then (elim (read_item codec a d) [
      | err _ ↦ rest
      | panic ↦ panic
      | ok item ↦ if item.data_size == 0 then (do more ← rest; ok (i ∷ more)) else rest
    ])
    else rest

-- `hashes[hash]`
unfoldable pub first_with : List ℕ → List (List ℕ × ℕ) → Option ℕ
first_with hash [] = none
first_with hash ((h, i) ∷ hashes) = if bytes_eq h hash then some i else first_with hash hashes

-- `checkRedundancy`, from an index on, with the hashes so far: `RedundantPair`s. `md5.Sum` is a
-- parameter.
unfoldable pub redundancy_from :
    (List ℕ → List ℕ)
    → Codec
    → Archive
    → List (List ℕ × ℕ)
    → ℕ
    → List Dirent
    → Result (List (ℕ × ℕ))
unfolding content_of first_with
redundancy_from md5 codec a hashes i [] = ok []
redundancy_from md5 codec a hashes i (d ∷ ds) = elim (is_content d) [
  | false ↦ redundancy_from md5 codec a hashes (i + 1) ds
  | true ↦ elim (content_of codec a d) [
    | err _ ↦ redundancy_from md5 codec a hashes (i + 1) ds
    | panic ↦ panic
    | ok content ↦ elim (first_with (md5 content) hashes) [
      | none ↦ redundancy_from md5 codec a ((md5 content, i) ∷ hashes) (i + 1) ds
      | some first ↦ do more ← redundancy_from md5 codec a hashes (i + 1) ds; ok ((first, i) ∷ more)
    ]
  ]
]

unfoldable pub check_redundancy : (List ℕ → List ℕ) → Codec → Archive → Result (List (ℕ × ℕ))
unfolding redundancy_from
check_redundancy md5 codec a = redundancy_from md5 codec a [] 0 a.dirents
