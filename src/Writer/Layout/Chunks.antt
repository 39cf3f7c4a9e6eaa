-- ===== src/Writer/Layout/Chunks.antt =====
-- One of the chunks written in a row: where it starts, what follows it, and its pointer.
use gozim.Base.{
  ℕ, zero, suc, ◌+◌, ◌*◌, ◌≤◌, ◌<◌, ◌≡◌, refl, ap, List, [], ◌∷◌, length, get_elem?, some, arith,
}
use mathlib.Core.Path.{subst}
use gozim.Base.Bytes.{put_le, length-put_le}
use gozim.Cluster.{concat_blobs}
use gozim.Writer.Layout.{starts, end_of_all, pointers}
use gozim.Writer.Layout.Bounds.{end_of_all-ge}
use gozim.Writer.Layout.Regions.{Has, Has-append_left, Has-append_right}

-- Chunk `n` starts here and ends where the next one starts, or the whole row ends.
pub record IsChunk (pos : ℕ) (cs : List (List ℕ)) (n : ℕ) (c : List ℕ) (start : ℕ) : Type 0 where
  pub at : get_elem? (starts pos cs) n ≡ some start
  pub next : suc n < length cs → get_elem? (starts pos cs) (suc n) ≡ some (start + length c)
  pub last : suc n ≡ length cs → end_of_all pos cs ≡ start + length c
  pub inside : start + length c ≤ end_of_all pos cs
  pub has : (file : List ℕ) → Has file pos (concat_blobs cs) → Has file start c

pub IsChunk-at :
    (pos : ℕ) (cs : List (List ℕ)) (n : ℕ) (c : List ℕ)
    → get_elem? cs n ≡ some c
    → (start : ℕ) × IsChunk pos cs n c start
unfolding starts end_of_all concat_blobs
IsChunk-at pos [] n c e = cc e
IsChunk-at pos (x ∷ []) zero c e =
    let p : x ≡ c = cc e in
    let l : length x ≡ length c = ap (length {A = ℕ}) p in
    (
      pos,
      record {
        at = refl;
        next = λ h. absurd (omega (arith, h));
        last = λ h. omega arith;
        inside = omega arith;
        has = λ file h. subst (Has file pos) p (Has-append_left file pos x [] h);
      },
    )
IsChunk-at pos (x ∷ y ∷ ys) zero c e =
    let p : x ≡ c = cc e in
    let l : length x ≡ length c = ap (length {A = ℕ}) p in
    (
      pos,
      record {
        at = refl;
        next = λ h. ap (λ k. some (pos + k)) l;
        last = λ h. absurd (omega (arith, h));
        inside = omega (arith, end_of_all-ge (pos + length x) (y ∷ ys));
        has =
            λ file h. subst (Has file pos) p (Has-append_left file pos x (concat_blobs (y ∷ ys)) h);
      },
    )
IsChunk-at pos (x ∷ cs) (suc n) c e =
    let (start, chunk) = IsChunk-at (pos + length x) cs n c e in
    (
      start,
      record {
        at = chunk.at;
        next = λ h. chunk.next (omega (arith, h));
        last = λ h. chunk.last (omega (arith, h));
        inside = chunk.inside;
        has = λ file h. chunk.has file (Has-append_right file pos x (concat_blobs cs) h);
      },
    )

-- Pointer `n` stands eight bytes further for each one before it.
pub pointer_at :
    (file : List ℕ) (pos : ℕ) (ps : List ℕ) (n p : ℕ)
    → get_elem? ps n ≡ some p
    → Has file pos (concat_blobs (pointers ps))
    → Has file (pos + n * 8) (put_le 8 p)
unfolding pointers concat_blobs
pointer_at file pos [] n p e has = cc e
pointer_at file pos (x ∷ ps) zero p e has =
    let same : x ≡ p = cc e in
    let at : pos ≡ pos + 0 * 8 = omega arith in
    subst (λ k. Has file k (put_le 8 p)) at
      (subst (λ k. Has file pos (put_le 8 k)) same
        (Has-append_left file pos (put_le 8 x) (concat_blobs (pointers ps)) has))
pointer_at file pos (x ∷ ps) (suc n) p e has =
    let l : pos + length (put_le 8 x) + n * 8 ≡ pos + suc n * 8 =
      omega (arith, length-put_le 8 x) in
    subst (λ k. Has file k (put_le 8 p)) l
      (pointer_at file (pos + length (put_le 8 x)) ps n p e
        (Has-append_right file pos (put_le 8 x) (concat_blobs (pointers ps)) has))
