-- ===== src/Search/Snippet.antt =====
-- archive/zim/bm25/snippet.go: where the terms of a query stand in a text, and the window of the text
-- that has the most of them. The text, with its letters lowered, is a list of bytes.
pub mod Matches
pub mod Window
use gozim.Base.Strings.{index_of}
use gozim.Base.{
  ℕ, zero, suc, ◌+◌, ◌-◌, ◌≤◌, Bool, true, false, ◌&&◌, List, [], ◌∷◌, ◌++◌, length, drop, ltb, leb,
  ◌==◌, if◌then◌else◌, Option, none, some, Result, ok, err, panic, ◌>>=◌,
}

pub record Match : Type 0 where
  pub start : ℕ
  pub end : ℕ

-- A match in front of those that the further rounds find.
abbrev pub and_then : Match → Option (Result (List Match)) → Option (Result (List Match))
and_then m none = none
and_then m (some (ok ms)) = some (ok (m ∷ ms))
and_then m (some (err e)) = some (err e)
and_then m (some panic) = some panic

-- The loop over the places of one term, from a position on: nothing where the rounds do not suffice.
-- `pos` goes on by the length of the term, not of its lowered form.
unfoldable pub matches_from : ℕ → List ℕ → List ℕ → List ℕ → ℕ → Option (Result (List Match))
unfolding index_of
matches_from zero lower term term_lower pos = none
matches_from (suc rounds) lower term term_lower pos = elim (leb pos (length lower)) [
  | false ↦ some panic
  | true ↦ elim (index_of (drop pos lower) term_lower) [
    | none ↦ some (ok [])
    | some idx ↦
        and_then (record { start = pos + idx; end = pos + idx + length term })
          (matches_from rounds lower term term_lower (pos + idx + length term))
  ]
]

-- The matches that begin in a window.
unfoldable pub count_in : ℕ → ℕ → List Match → ℕ
count_in start end [] = 0
count_in start end (m ∷ ms) =
    let rest = count_in start end ms in
    if leb start m.start && ltb m.start end then rest + 1 else rest

-- `end := start + maxLen`, cut to the length of the text
unfoldable pub window_end : ℕ → ℕ → ℕ → ℕ
window_end max_len content_len start =
    if ltb content_len (start + max_len) then content_len else start + max_len

-- The loop over the starts of windows, with the best start and its count so far; the first number
-- says how many starts are left.
unfoldable pub best_from : ℕ → ℕ → ℕ → List Match → ℕ → ℕ → ℕ → ℕ
unfolding count_in window_end
best_from zero max_len content_len ms start best best_count = best
best_from (suc left) max_len content_len ms start best best_count =
    let count = count_in start (window_end max_len content_len start) ms in
    elim (ltb best_count count) [
      | true ↦ best_from left max_len content_len ms (start + 1) start count
      | false ↦ best_from left max_len content_len ms (start + 1) best best_count
    ]

unfoldable pub best_start : ℕ → ℕ → List Match → ℕ
unfolding best_from
best_start max_len content_len ms = best_from content_len max_len content_len ms 0 0 0
