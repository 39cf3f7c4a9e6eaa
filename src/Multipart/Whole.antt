-- ===== src/Multipart/Whole.antt =====
-- Reading through the parts is reading the file that they make up.
use gozim.Base.{
  ℕ, zero, suc, ◌+◌, ◌-◌, ◌≤◌, ◌<◌, ◌≡◌, refl, sym, ap, ◌∙◌, ◌⊎◌, ◌↔◌, inl, inr, Bool, true, false,
  ◌&&◌, List, [], ◌∷◌, ◌++◌, length, take, drop, ltb, leb, if◌then◌else◌, Bool-cases, some, min,
  arith, length-append, length-take, length-drop, drop-drop,
}
use gozim.Multipart.{Part, find_part, read_loop, read_at}
use mathlib.Core.Path.{subst}
use mathlib.Core.List.{append_assoc, append-nil}
use gozim.Base.Slices.{
  drop-length, take-nil, drop-append_le, drop-append_past, take-append_le, take_split,
}

-- The parts lie one behind the other from an offset on, part by part over the given contents, and a
-- read within a part gives its bytes with no error.
pub data Covers : ℕ → List Part → List (List ℕ) → Type 0 where
  nothing : {from : ℕ} → Covers from [] []
  part :
      {from : ℕ} {p : Part} {ps : List Part} {c : List ℕ} {cs : List (List ℕ)}
      → p.start ≡ from
      → p.end ≡ from + length c
      → ((o n : ℕ) → o + n ≤ length c → p.read o n ≡ (take n (drop o c), false))
      → Covers (from + length c) ps cs
      → Covers from (p ∷ ps) (c ∷ cs)

-- The whole file.
unfoldable pub whole : List (List ℕ) → List ℕ
whole [] = []
whole (c ∷ cs) = c ++ whole cs

-- The part that holds an offset, with its content and what the file has from the offset on.
record Holds (from off : ℕ) (ps : List Part) (all : List ℕ) : Type 0 where
  p : Part
  c : List ℕ
  found : find_part ps off ≡ some p
  low : p.start ≤ off
  high : off < p.end
  len : p.end ≡ p.start + length c
  reads : (o n : ℕ) → o + n ≤ length c → p.read o n ≡ (take n (drop o c), false)
  rest : List ℕ
  here : drop (off - from) all ≡ drop (off - p.start) c ++ rest

le_leb : (a b : ℕ) → (leb a b ≡ true) ↔ (a ≤ b)
le_leb a b = ground arith

ge_ltb : (a b : ℕ) → (ltb a b ≡ false) ↔ (b ≤ a)
ge_ltb a b = ground arith

and_false : (b : Bool) → (b && false) ≡ false
and_false true = refl
and_false false = refl

start_lem :
    (from start off : ℕ) (c rest : List ℕ)
    → start ≡ from
    → off - from ≤ length c
    → drop (off - from) (c ++ rest) ≡ drop (off - start) c ++ rest
start_lem from start off c rest e h =
    drop-append_le (off - from) c rest h ∙ ap (λ k. drop (off - k) c ++ rest) (sym e)

find_part-Holds :
    {from : ℕ} {ps : List Part} {cs : List (List ℕ)} (off : ℕ)
    → Covers from ps cs
    → from ≤ off
    → off < from + length (whole cs)
    → Holds from off ps (whole cs)
unfolding find_part whole
find_part-Holds off nothing lo hi = absurd (omega arith)
find_part-Holds {from} off (part {p = p} {ps = ps} {c = c} {cs = cs} s e r more) lo hi =
    elim (Bool-cases (ltb off p.end)) [
      | inl inside ↦ record {
        p = p;
        c = c;
        found = rw ((le_leb p.start off).1 (omega arith), inside) refl;
        low = omega arith;
        high = ground arith;
        len = omega arith;
        reads = r;
        rest = whole cs;
        here = start_lem from p.start off c (whole cs) s (ground arith);
      }
      | inr past ↦
          let after : p.end ≤ off = ground arith in
          let size = length-append c (whole cs) in
          let h = find_part-Holds off more (omega arith) (omega arith) in
          record {
            p = h.p;
            c = h.c;
            found = rw ((ge_ltb off p.end).1 after, and_false) h.found;
            low = h.low;
            high = h.high;
            len = h.len;
            reads = h.reads;
            rest = h.rest;
            here =
                drop-append_past (off - from) (off - (from + length c)) c (whole cs) (omega arith)
                ∙ h.here;
          }
    ]

-- The bytes that one round reads.
round_lem :
    (n m : ℕ) (c rest all : List ℕ) (o : ℕ)
    → m ≤ n
    → o + m ≤ length c
    → all ≡ drop o c ++ rest
    → take n all ≡ take m (drop o c) ++ take (n - m) (drop m all)
round_lem n m c rest all o small fits e =
    let d = length-drop o c in
    take_split m (n - m) n all (omega arith)
    ∙ ap (λ xs. xs ++ take (n - m) (drop m all))
        (ap (take m) e ∙ take-append_le m (drop o c) rest (omega (arith, d)))

nothing_left :
    (remaining off : ℕ) (out all : List ℕ)
    → (remaining ≡ 0) ⊎ (length all ≤ off)
    → (out ++ take remaining (drop off all)) ≡ out
nothing_left remaining off out all (inl e) =
    ap (λ k. out ++ take k (drop off all)) e ∙ append-nil out
nothing_left remaining off out all (inr e) =
    ap (λ xs. out ++ take remaining xs) (drop-length off all e)
    ∙ ap (λ xs. out ++ xs) (take-nil remaining)
    ∙ append-nil out

read_step :
    (fuel : ℕ) (parts : List Part) (size off remaining : ℕ) (out bytes : List ℕ) (p : Part)
    → (ltb 0 remaining && ltb off size) ≡ true
    → find_part parts off ≡ some p
    → p.read (off - p.start) (min (p.end - p.start - (off - p.start)) remaining) ≡ (bytes, false)
    → read_loop (suc fuel) parts size off remaining out
      ≡ read_loop fuel parts size (off + length bytes) (remaining - length bytes) (out ++ bytes)
unfolding read_loop
read_step fuel parts size off remaining out bytes p go found r =
    rw (read_loop, go, found, ap (λ x. x.1) r, ap (λ x. x.0) r) refl

stop_lem : (r off size : ℕ) → (ltb 0 r && ltb off size) ≡ false → (r ≡ 0) ⊎ (size ≤ off)
stop_lem zero off size h = inl refl
stop_lem (suc r) off size h = inr (ground arith)

read_stop :
    (fuel : ℕ) (parts : List Part) (size off remaining : ℕ) (out : List ℕ)
    → (ltb 0 remaining && ltb off size) ≡ false
    → read_loop (suc fuel) parts size off remaining out ≡ (out, false)
unfolding read_loop
read_stop fuel parts size off remaining out stop = rw (read_loop, stop) refl

-- One round, and the rest after it.
loop_round :
    (fuel : ℕ) (parts : List Part) (all : List ℕ) (size off remaining : ℕ) (out : List ℕ)
    → Holds 0 off parts all
    → (ltb 0 remaining && ltb off size) ≡ true
    → remaining ≤ suc fuel
    → ((next left : ℕ) (so_far : List ℕ)
        → left ≤ fuel
        → read_loop fuel parts size next left so_far ≡ (so_far ++ take left (drop next all), false))
    → read_loop (suc fuel) parts size off remaining out
      ≡ (out ++ take remaining (drop off all), false)
loop_round fuel parts all size off remaining out g more h rest =
    let o = off - g.p.start in
    let m = min (g.p.end - g.p.start - o) remaining in
    let bytes = take m (drop o g.c) in
    let d = length-drop o g.c in
    let t = length-take m (drop o g.c) in
    let low = g.low in
    let high = g.high in
    let len = g.len in
    let positive : 0 < remaining = ground (arith, more) in
    let fits : o + m ≤ length g.c = omega arith in
    let n : length bytes ≡ m = omega arith in
    let from_start : off ≡ off - 0 = omega arith in
    let here = ap (λ k. drop k all) from_start ∙ g.here in
    let split = round_lem remaining m g.c g.rest (drop off all) o (omega arith) fits here in
    let after : out ++ take remaining (drop off all)
        ≡ (out ++ bytes) ++ take (remaining - m) (drop (off + m) all) =
      ap (λ xs. out ++ xs) split
      ∙ ap (λ xs. out ++ (bytes ++ take (remaining - m) xs)) (drop-drop m off all)
      ∙ sym (append_assoc out bytes (take (remaining - m) (drop (off + m) all))) in
    read_step fuel parts size off remaining out bytes g.p more g.found (g.reads o m fits)
    ∙ rest (off + length bytes) (remaining - length bytes) (out ++ bytes) (omega arith)
    ∙ ap (λ k. ((out ++ bytes) ++ take (remaining - k) (drop (off + k) all), false)) n
    ∙ ap (λ xs. (xs, false)) (sym after)

loop_whole :
    (fuel : ℕ) (parts : List Part) (cs : List (List ℕ)) (size off remaining : ℕ) (out : List ℕ)
    → Covers 0 parts cs
    → size ≡ length (whole cs)
    → remaining ≤ fuel
    → read_loop fuel parts size off remaining out
      ≡ (out ++ take remaining (drop off (whole cs)), false)
loop_whole zero parts cs size off remaining out v s h =
    unfold read_loop in
    ap (λ xs. (xs, false)) (sym (nothing_left remaining off out (whole cs) (inl (omega arith))))
loop_whole (suc fuel) parts cs size off remaining out v s h =
    elim (Bool-cases (ltb 0 remaining && ltb off size)) [
      | inr done ↦
          let idle : (remaining ≡ 0) ⊎ (length (whole cs) ≤ off) =
            subst (λ k. (remaining ≡ 0) ⊎ (k ≤ off)) s (stop_lem remaining off size done) in
          read_stop fuel parts size off remaining out done
          ∙ ap (λ xs. (xs, false)) (sym (nothing_left remaining off out (whole cs) idle))
      | inl more ↦
          loop_round fuel parts (whole cs) size off remaining out
            (find_part-Holds off v (omega arith) (ground (arith, s, more))) more h
            (λ next left so_far small. loop_whole fuel parts cs size next left so_far v s small)
    ]

-- Where the parts lie one behind the other and the reads within a part succeed, reading `n` bytes at
-- an offset inside the whole file returns, with no error, the bytes that the parts' contents, put
-- together, have there: `n` of them, or those up to the end. At or behind the end it is an error.
pub read_at-whole :
    (parts : List Part) (cs : List (List ℕ)) (n off : ℕ)
    → Covers 0 parts cs
    → read_at parts (length (whole cs)) n off
      ≡ (if ltb off (length (whole cs)) then (take n (drop off (whole cs)), false) else ([], true))
unfolding read_at
read_at-whole parts cs n off v = elim (Bool-cases (ltb off (length (whole cs)))) [
  | inl inside ↦
      let before : leb (length (whole cs)) off ≡ false = ground (arith, inside) in
      rw (before, inside) (loop_whole n parts cs (length (whole cs)) off n [] v refl (omega arith))
  | inr past ↦
      let behind : leb (length (whole cs)) off ≡ true = ground (arith, past) in
      rw (behind, past) refl
]
