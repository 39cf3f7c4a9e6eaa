-- ===== src/Writer/Layout/Regions.antt =====
-- What a write leaves in the file: the bytes written, and every byte before and behind them.
use gozim.Base.{
  ℕ, zero, suc, ◌+◌, ◌-◌, ◌≤◌, ◌<◌, ◌≡◌, refl, sym, ap, ◌∙◌, List, [], ◌∷◌, ◌++◌, length, take,
  drop, replicate, get_elem?, length-append, length-take, length-replicate, some, arith,
}
use gozim.Base.Positions.{
  get_elem?-lt, get_elem?-append, get_elem?-append_past, get_elem?-take, get_elem?-drop,
  drop-get_elem?,
}
use gozim.Cluster.{concat_blobs}
use gozim.Writer.Layout.{write_at, write_all, end_of_all}

-- The file has these bytes at the position.
abbrev pub Has : List ℕ → ℕ → List ℕ → Type 0
Has file pos bytes = (i b : ℕ) → get_elem? bytes i ≡ some b → get_elem? file (pos + i) ≡ some b

-- The part of the padded file in front of the position.
abbrev padded : List ℕ → ℕ → List ℕ
padded file pos = file ++ replicate (pos - length file) 0

length-front : (file : List ℕ) (pos : ℕ) → length (take pos (padded file pos)) ≡ pos
length-front file pos = omega (
  arith,
  length-take pos (padded file pos),
  length-append file (replicate (pos - length file) 0),
  length-replicate {A = ℕ} (pos - length file) 0,
)

write_at-before :
    (file : List ℕ) (pos : ℕ) (bytes : List ℕ) (j b : ℕ)
    → j < pos
    → get_elem? file j ≡ some b
    → get_elem? (write_at file pos bytes) j ≡ some b
unfolding write_at
write_at-before file pos [] j b h e = e
write_at-before file pos (x ∷ xs) j b h e = get_elem?-append (take pos (padded file pos)) _ j b (
    get_elem?-take pos (padded file pos) j h
    ∙ get_elem?-append file (replicate (pos - length file) 0) j b e)

-- A byte from the position on.
write_at-behind :
    (file : List ℕ) (pos x : ℕ) (xs : List ℕ) (i : ℕ)
    → get_elem? (write_at file pos (x ∷ xs)) (pos + i)
      ≡ get_elem? ((x ∷ xs) ++ drop (pos + length (x ∷ xs)) file) i
unfolding write_at
write_at-behind file pos x xs i =
    let front = take pos (padded file pos) in
    let rest = (x ∷ xs) ++ drop (pos + length (x ∷ xs)) file in
    ap (λ k. get_elem? (front ++ rest) (k + i)) (sym (length-front file pos))
    ∙ get_elem?-append_past front rest i

write_at-Has : (file : List ℕ) (pos : ℕ) (bytes : List ℕ) → Has (write_at file pos bytes) pos bytes
write_at-Has file pos [] i b e = cc e
write_at-Has file pos (x ∷ xs) i b e =
    write_at-behind file pos x xs i ∙ get_elem?-append (x ∷ xs) _ i b e

write_at-after :
    (file : List ℕ) (pos : ℕ) (bytes : List ℕ) (j b : ℕ)
    → pos + length bytes ≤ j
    → get_elem? file j ≡ some b
    → get_elem? (write_at file pos bytes) j ≡ some b
unfolding write_at
write_at-after file pos [] j b h e = e
write_at-after file pos (x ∷ xs) j b h e =
    let bytes = x ∷ xs in
    let k = j - (pos + length bytes) in
    let at : pos + (length bytes + k) ≡ j = omega arith in
    let at' : pos + length bytes + k ≡ j = omega arith in
    ap (get_elem? (write_at file pos bytes)) (sym at)
    ∙ write_at-behind file pos x xs (length bytes + k)
    ∙ get_elem?-append_past bytes (drop (pos + length bytes) file) k
    ∙ get_elem?-drop (pos + length bytes) file k
    ∙ ap (get_elem? file) at'
    ∙ e

pub end_of_all-length :
    (pos : ℕ) (cs : List (List ℕ)) → end_of_all pos cs ≡ pos + length (concat_blobs cs)
unfolding end_of_all concat_blobs
end_of_all-length pos [] = omega arith
end_of_all-length pos (c ∷ cs) =
    omega (arith, end_of_all-length (pos + length c) cs, length-append c (concat_blobs cs))

write_all-before :
    (file : List ℕ) (pos : ℕ) (cs : List (List ℕ)) (j b : ℕ)
    → j < pos
    → get_elem? file j ≡ some b
    → get_elem? (write_all file pos cs) j ≡ some b
unfolding write_all
write_all-before file pos [] j b h e = e
write_all-before file pos (c ∷ cs) j b h e =
    write_all-before (write_at file pos c) (pos + length c) cs j b (omega arith)
      (write_at-before file pos c j b h e)

write_all-after :
    (file : List ℕ) (pos : ℕ) (cs : List (List ℕ)) (j b : ℕ)
    → end_of_all pos cs ≤ j
    → get_elem? file j ≡ some b
    → get_elem? (write_all file pos cs) j ≡ some b
unfolding write_all end_of_all
write_all-after file pos [] j b h e = e
write_all-after file pos (c ∷ cs) j b h e =
    write_all-after (write_at file pos c) (pos + length c) cs j b h
      (write_at-after file pos c j b (omega (arith, end_of_all-length (pos + length c) cs)) e)

-- What the file has in front of a run of writes, or behind it, stays.
pub Has-before :
    (file : List ℕ) (pos : ℕ) (cs : List (List ℕ)) (q : ℕ) (bytes : List ℕ)
    → q + length bytes ≤ pos
    → Has file q bytes
    → Has (write_all file pos cs) q bytes
Has-before file pos cs q bytes h has i b e =
    write_all-before file pos cs (q + i) b (omega (arith, get_elem?-lt bytes i b e)) (has i b e)

pub Has-after :
    (file : List ℕ) (pos : ℕ) (cs : List (List ℕ)) (q : ℕ) (bytes : List ℕ)
    → end_of_all pos cs ≤ q
    → Has file q bytes
    → Has (write_all file pos cs) q bytes
Has-after file pos cs q bytes h has i b e =
    write_all-after file pos cs (q + i) b (omega arith) (has i b e)

Has-at : (file bytes : List ℕ) (p q : ℕ) → p ≡ q → Has file p bytes → Has file q bytes
Has-at file bytes p q e has i b at = ap (λ k. get_elem? file (k + i)) (sym e) ∙ has i b at

-- Behind the first byte.
Has-tail : (file : List ℕ) (pos x : ℕ) (xs : List ℕ) → Has file pos (x ∷ xs) → Has file (pos + 1) xs
Has-tail file pos x xs has i b e =
    let at : pos + 1 + i ≡ pos + suc i = omega arith in ap (get_elem? file) at ∙ has (suc i) b e

pub Has-append :
    (file : List ℕ) (pos : ℕ) (xs ys : List ℕ)
    → Has file pos xs
    → Has file (pos + length xs) ys
    → Has file pos (xs ++ ys)
Has-append file pos [] ys h k i b e =
    Has-at file ys (pos + length {A = ℕ} []) pos (omega arith) k i b e
Has-append file pos (x ∷ xs) ys h k zero b e = h zero b e
Has-append file pos (x ∷ xs) ys h k (suc i) b e =
    let at : pos + suc i ≡ pos + 1 + i = omega arith in
    ap (get_elem? file) at
    ∙ Has-append file (pos + 1) xs ys (Has-tail file pos x xs h)
        (Has-at file ys (pos + length (x ∷ xs)) (pos + 1 + length xs) (omega arith) k) i b e

pub Has-append_left :
    (file : List ℕ) (pos : ℕ) (xs ys : List ℕ) → Has file pos (xs ++ ys) → Has file pos xs
Has-append_left file pos xs ys h i b e = h i b (get_elem?-append xs ys i b e)

pub Has-append_right :
    (file : List ℕ) (pos : ℕ) (xs ys : List ℕ)
    → Has file pos (xs ++ ys)
    → Has file (pos + length xs) ys
Has-append_right file pos xs ys h i b e =
    let at : pos + length xs + i ≡ pos + (length xs + i) = omega arith in
    ap (get_elem? file) at ∙ h (length xs + i) b (get_elem?-append_past xs ys i ∙ e)

-- A run of writes leaves its chunks one behind the other.
pub write_all-Has :
    (file : List ℕ) (pos : ℕ) (cs : List (List ℕ))
    → Has (write_all file pos cs) pos (concat_blobs cs)
unfolding write_all concat_blobs
write_all-Has file pos [] i b e = cc e
write_all-Has file pos (c ∷ cs) i b e =
    let file' = write_at file pos c in
    Has-append _ pos c (concat_blobs cs)
      (Has-before file' (pos + length c) cs pos c (omega arith) (write_at-Has file pos c))
      (write_all-Has file' (pos + length c) cs) i b e

pub drop-Has :
    (file : List ℕ) (pos : ℕ) (bytes : List ℕ)
    → Has file pos bytes
    → drop pos file ≡ bytes ++ drop (pos + length bytes) file
drop-Has file pos [] has = let e : pos ≡ pos + 0 = omega arith in ap (λ k. drop k file) e
drop-Has file pos (x ∷ xs) has =
    let e : pos ≡ pos + 0 = omega arith in
    let e' : pos + 1 + length xs ≡ pos + length (x ∷ xs) = omega arith in
    drop-get_elem? file pos x (ap (get_elem? file) e ∙ has 0 x refl)
    ∙ ap (◌∷◌ x)
        (drop-Has file (pos + 1) xs (Has-tail file pos x xs has) ∙ ap (λ k. xs ++ drop k file) e')

-- Bytes that the file has lie within it.
pub Has-le :
    (file : List ℕ) (pos : ℕ) (bytes : List ℕ)
    → 0 < length bytes
    → Has file pos bytes
    → pos + length bytes ≤ length file
Has-le file pos [] h has = absurd (omega arith)
Has-le file pos (x ∷ []) h has = omega (arith, get_elem?-lt file (pos + 0) x (has 0 x refl))
Has-le file pos (x ∷ y ∷ ys) h has =
    omega (arith, Has-le file (pos + 1) (y ∷ ys) (omega arith) (Has-tail file pos x (y ∷ ys) has))
