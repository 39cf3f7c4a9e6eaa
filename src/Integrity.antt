-- ===== src/Integrity.antt =====
-- archive/zim/integrity.go: the checks over the directory entries of an open archive.
pub mod Chains
pub mod Chase
pub mod Around
pub mod Loops
pub mod Pointers
pub mod Links
use gozim.Base.{
  ℕ, zero, suc, ◌+◌, ◌*◌, ◌%◌, ◌≤◌, ◌<◌, Bool, true, false, not, ◌&&◌, List, [], ◌∷◌, ◌++◌, length,
  get_elem?, ltb, leb, ◌==◌, if◌then◌else◌, Option, none, some, Result, ok, err, panic, ◌>>=◌,
}
use gozim.Base.Lex.{lex_lt}
use gozim.Mime
use gozim.Mime.{MimeList}
use gozim.Dirent.{Dirent, is_redirect}

-- An entry of `Errors`, with the index that it names.
pub data Problem : Type 0 where
  beyond_file not_increasing out_of_order bad_mime_type : ℕ → Problem

-- `checkDirentPtrs` from the index `i` on, behind the offset before it.
unfoldable pub ptrs_from : ℕ → ℕ → Option ℕ → List ℕ → List Problem
ptrs_from size i before [] = []
ptrs_from size i before (offset ∷ offsets) =
    (if leb size offset then Problem.beyond_file i ∷ [] else [])
    ++ ((elim before [
      | none ↦ []
      | some p ↦ if leb offset p then Problem.not_increasing i ∷ [] else []
    ])
        ++ ptrs_from size (i + 1) (some offset) offsets)

unfoldable pub check_dirent_ptrs : ℕ → List ℕ → List Problem
unfolding ptrs_from
check_dirent_ptrs size offsets = ptrs_from size 0 none offsets

-- `checkDirentOrder`
unfoldable pub order_from : ℕ → Dirent → List Dirent → List Problem
order_from i before [] = []
order_from i before (d ∷ ds) =
    (if lex_lt d.path before.path then Problem.out_of_order i ∷ [] else [])
    ++ order_from (i + 1) d ds

unfoldable pub check_dirent_order : List Dirent → List Problem
unfolding order_from
check_dirent_order [] = []
check_dirent_order (d ∷ ds) = order_from 1 d ds

-- `checkMimeTypes` from the index `i` on
unfoldable pub mime_types_from : MimeList → ℕ → List Dirent → List Problem
mime_types_from ml i [] = []
mime_types_from ml i (d ∷ ds) =
    let rest = mime_types_from ml (i + 1) ds in
    elim (Mime.validate ml d.mime_type_index) [
      | ok done ↦ rest
      | _ ↦ Problem.bad_mime_type i ∷ rest
    ]

unfoldable pub check_mime_types : MimeList → List Dirent → List Problem
unfolding mime_types_from
check_mime_types ml ds = mime_types_from ml 0 ds

-- Where a redirect leads: nowhere from an index out of range or from another entry.
unfoldable pub next : List Dirent → ℕ → Option ℕ
next ds i = elim (get_elem? ds i) [
  | none ↦ none
  | some d ↦ if is_redirect d then some d.redirect_index else none
]

-- The rounds of `checkRedirectLoops` for one entry: `fast` moves in each, `slow` in every second.
-- Where they meet there is a loop. The fuel is for the rounds.
unfoldable pub chase : List Dirent → ℕ → ℕ → ℕ → ℕ → Result (Option ℕ)
unfolding next
chase ds zero slow fast round = panic
chase ds (suc fuel) slow fast round = elim (next ds fast) [
  | none ↦ ok none
  | some f ↦ elim (if round % 2 == 1 then next ds slow else some slow) [
    | none ↦ ok none
    | some s ↦ elim (f == s && ltb 0 round) [
      | true ↦ ok (some f)
      | false ↦ chase ds fuel s f (round + 1)
    ]
  ]
]

-- The loop's other entries, from `curr` until the first comes again. An index out of range panics.
unfoldable pub around : List Dirent → ℕ → ℕ → ℕ → Result (List ℕ)
around ds zero first curr = panic
around ds (suc fuel) first curr = elim (curr == first) [
  | true ↦ ok []
  | false ↦ elim (get_elem? ds curr) [
    | none ↦ panic
    | some d ↦ (do rest ← around ds fuel first d.redirect_index; ok (curr ∷ rest))
  ]
]

-- `a.dirents[fast].RedirectIndex`, and the loop from there.
unfoldable pub loop_at : List Dirent → ℕ → Result (Option (List ℕ))
unfolding around
loop_at ds f = elim (get_elem? ds f) [
  | none ↦ panic
  | some d ↦ (do rest ← around ds (length ds + 1) f d.redirect_index; ok (some (f ∷ rest)))
]

-- What `checkRedirectLoops` does from one redirect.
unfoldable pub redirect_loop : List Dirent → ℕ → Result (Option (List ℕ))
unfolding chase loop_at
redirect_loop ds i = do
  met ← chase ds (2 * (length ds + 1)) i i 0
  elim met [ none ↦ ok none | some f ↦ loop_at ds f ]

unfoldable pub loops_from : List Dirent → ℕ → List Dirent → Result (List (List ℕ))
unfolding redirect_loop
loops_from ds i [] = ok []
loops_from ds i (d ∷ left) = elim (is_redirect d) [
  | false ↦ loops_from ds (i + 1) left
  | true ↦ (do
    found ← redirect_loop ds i
    rest ← loops_from ds (i + 1) left
    ok (elim found [ none ↦ rest | some loop ↦ loop ∷ rest ]))
]

-- `checkRedirectLoops`
unfoldable pub check_redirect_loops : List Dirent → Result (List (List ℕ))
unfolding loops_from
check_redirect_loops ds = loops_from ds 0 ds
