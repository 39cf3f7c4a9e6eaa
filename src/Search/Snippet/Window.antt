-- ===== src/Search/Snippet/Window.antt =====
-- The window that is chosen has as many matches as any.
use gozim.Base.{
  ℕ, zero, suc, ◌+◌, ◌≤◌, ◌<◌, ◌≡◌, refl, sym, ap, inl, inr, true, false, ltb, ltb→lt, Bool-cases,
  List, [], ◌∷◌, leb, ◌&&◌, if◌then◌else◌, arith,
}
use mathlib.Core.Path.{subst}
use gozim.Search.Snippet.{Match, count_in, window_end, best_from, best_start}

-- The matches that begin in the window with a start.
abbrev pub matches_at : ℕ → ℕ → List Match → ℕ → ℕ
matches_at max_len content_len ms start = count_in start (window_end max_len content_len start) ms

best_from_better :
    (left max_len content_len : ℕ) (ms : List Match) (start best best_count : ℕ)
    → ltb best_count (matches_at max_len content_len ms start) ≡ true
    → best_from (suc left) max_len content_len ms start best best_count
      ≡ best_from left max_len content_len ms
          (start + 1)
          start
          (matches_at max_len content_len ms start)
unfolding best_from
best_from_better left max_len content_len ms start best best_count h = rw (best_from, h) refl

best_from_worse :
    (left max_len content_len : ℕ) (ms : List Match) (start best best_count : ℕ)
    → ltb best_count (matches_at max_len content_len ms start) ≡ false
    → best_from (suc left) max_len content_len ms start best best_count
      ≡ best_from left max_len content_len ms (start + 1) best best_count
unfolding best_from
best_from_worse left max_len content_len ms start best best_count h = rw (best_from, h) refl

module _ (max_len content_len : ℕ) (ms : List Match) where
  -- One start more is compared.
  seen_next :
      (start c other : ℕ)
      → (other < start → matches_at max_len content_len ms other ≤ c)
      → matches_at max_len content_len ms start ≤ c
      → other < start + 1
      → matches_at max_len content_len ms other ≤ c
  seen_next start c other h le l = elim (Bool-cases (ltb other start)) [
    | inl before ↦ h (ltb→lt other start before)
    | inr now ↦
        let e : other ≡ start = ground (arith, l, now) in
        omega (arith, le, ap (matches_at max_len content_len ms) e)
  ]

  -- No start up to the end of the loop has more matches than the one it returns, and no start before
  -- that one has as many.
  best_from-ge :
      (left start best best_count other : ℕ)
      → best_count ≤ matches_at max_len content_len ms best
      → (other < start → matches_at max_len content_len ms other ≤ best_count)
      → (other < best → matches_at max_len content_len ms other < best_count)
      → other < start + left
      → let r = best_from left max_len content_len ms start best best_count in
        (matches_at max_len content_len ms other ≤ matches_at max_len content_len ms r)
        × (other < r
            → matches_at max_len content_len ms other < matches_at max_len content_len ms r)
  best_from-ge zero start best best_count other b h k inside =
      unfold best_from in (omega (arith, h (omega arith), b), λ l. omega (arith, k l, b))
  best_from-ge (suc left) start best best_count other b h k inside =
      let here = matches_at max_len content_len ms start in
      let Good : ℕ → Type 0 = λ r.
        (matches_at max_len content_len ms other ≤ matches_at max_len content_len ms r)
        × (other < r
            → matches_at max_len content_len ms other < matches_at max_len content_len ms r) in
      elim (Bool-cases (ltb best_count here)) [
        | inl better ↦
            let more = ltb→lt best_count here better in
            subst Good
              (sym (best_from_better left max_len content_len ms start best best_count better))
              (best_from-ge left (start + 1) start here other (omega arith)
                (seen_next start here other (λ l. omega (arith, h l, more)) (omega arith))
                (λ l. omega (arith, h l, more)) (omega arith))
        | inr worse ↦
            let le : here ≤ best_count = ground (arith, worse) in
            subst Good
              (sym (best_from_worse left max_len content_len ms start best best_count worse))
              (best_from-ge left (start + 1) best best_count other b
                (seen_next start best_count other h le) k (omega arith))
      ]

-- The matches that begin at a start or behind it, less than `max_len` further on and before the end
-- of the text.
unfoldable pub hits : ℕ → ℕ → List Match → ℕ → ℕ
hits max_len content_len [] start = 0
hits max_len content_len (m ∷ ms) start =
    let rest = hits max_len content_len ms start in
    if leb start m.start && ltb m.start (start + max_len) && ltb m.start content_len
    then suc rest
    else rest

hits_lem :
    (max_len content_len : ℕ) (ms : List Match) (start : ℕ)
    → matches_at max_len content_len ms start ≡ hits max_len content_len ms start
unfolding hits count_in window_end
hits_lem max_len content_len [] start = refl
hits_lem max_len content_len (m ∷ ms) start = ground (arith, hits_lem max_len content_len ms start)

-- The start that is chosen is the first one with the most matches: no other start has more matches
-- that begin in its window, and none before it has as many. A window goes on for `max_len` from its
-- start, or to the end of the text if that comes first. As in the code, where a match begins and
-- where a window starts are compared as plain numbers, though the first counts bytes of the lowered
-- text and the second counts characters; the two agree where every character is one byte.
pub best_start-ge :
    (max_len content_len : ℕ) (ms : List Match) (other : ℕ)
    → other < content_len
    → let best = best_start max_len content_len ms in
      (hits max_len content_len ms other ≤ hits max_len content_len ms best)
      × (other < best → hits max_len content_len ms other < hits max_len content_len ms best)
unfolding best_start
best_start-ge max_len content_len ms other inside =
    let best = best_from content_len max_len content_len ms 0 0 0 in
    let (le, first) =
      best_from-ge max_len content_len ms content_len 0 0 0 other (omega arith)
        (λ l. absurd (omega (arith, l))) (λ l. absurd (omega (arith, l))) (omega arith) in
    let a = hits_lem max_len content_len ms other in
    let b = hits_lem max_len content_len ms best in
    (omega (arith, le, a, b), λ l. omega (arith, first l, a, b))
