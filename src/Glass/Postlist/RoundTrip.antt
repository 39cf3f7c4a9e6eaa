-- ===== src/Glass/Postlist/RoundTrip.antt =====
-- `decode_first_chunk` reads back what `encode_first_chunk` wrote.
use gozim.Base.{
  ℕ, zero, suc, ◌+◌, ◌-◌, ◌%◌, ◌^◌, ◌≤◌, ◌<◌, ◌≡◌, refl, ap, ◌∙◌, Bool, true, false, List, [], ◌∷◌,
  ◌++◌, length, drop, All, ltb, lt→ltb, if◌then◌else◌, Result, ok, arith, length-append,
}
use mathlib.Core.Path.{ap₂}
use native.Mathlib.Nat.{sub-zero, add-zero}
use gozim.Format.{U32, U64, sub32, sub64}
use gozim.Glass.Varint.{unpack_uint}
use gozim.Glass.Varint.Packed.{Packed, packed}
use gozim.Glass.SortString.{pack_bool, unpack_bool}
use gozim.Glass.Postlist.{
  Posting, Chunk, encode_postings, last_id, encode_first_chunk, Decoded, before, decode_postings,
  decoded_chunk, decode_first_chunk,
}

-- The ids and frequencies are uint32.
abbrev pub InRange : List Posting → Type 0
InRange ps = All (λ (p : Posting). U32 p.document_id × U32 p.wdf) ps

-- The sum of the frequencies.
unfoldable pub total_wdf : List Posting → ℕ
total_wdf [] = 0
total_wdf (p ∷ ps) = p.wdf + total_wdf ps

-- The postings after a document, encoded, and what the loop of the decoder makes of them.
record Later (prev : ℕ) (ps : List Posting) : Type 0 where
  enc : List ℕ
  made : encode_postings prev ps ≡ ok enc
  read :
      (fuel first offset : ℕ)
      → length enc ≤ fuel
      → first < 2 ^ 64
      → total_wdf ps ≤ first
      → decode_postings fuel enc prev first offset
        ≡ record { later = ps; first_wdf = first - total_wdf ps; offset = offset + length enc }

delta_lem :
    (prev id : ℕ) → U32 prev → U32 id → (prev + sub32 (sub32 id prev) 1 % 2 ^ 32 + 1) % 2 ^ 32 ≡ id
delta_lem prev id p q = omega arith

decode_nil :
    (fuel prev first offset : ℕ)
    → decode_postings fuel [] prev first offset
      ≡ record { later = []; first_wdf = first - 0; offset = offset + 0 }
unfolding decode_postings
decode_nil zero prev first offset = rw (sub-zero, add-zero) refl
decode_nil (suc fuel) prev first offset = rw (sub-zero, add-zero) refl

decode_cons :
    (fuel prev first offset : ℕ) (buf rest : List ℕ) (delta n wdf m : ℕ)
    → 0 < length buf
    → unpack_uint buf ≡ ok (delta, n)
    → unpack_uint (drop n buf) ≡ ok (wdf, m)
    → drop m (drop n buf) ≡ rest
    → decode_postings (suc fuel) buf prev first offset
      ≡ before
          (record { document_id = (prev + delta % 2 ^ 32 + 1) % 2 ^ 32; wdf = wdf % 2 ^ 32 })
          (decode_postings fuel rest
            ((prev + delta % 2 ^ 32 + 1) % 2 ^ 32)
            (sub64 first wdf)
            (offset + n + m))
unfolding decode_postings
decode_cons fuel prev first offset buf rest delta n wdf m some_byte one two left =
    rw (lt→ltb 0 (length buf) some_byte, decode_postings, one, two, left) refl

abbrev decoded : List Posting → ℕ → ℕ → Decoded
decoded ps first offset = record { later = ps; first_wdf = first; offset = offset }

abbrev posting : ℕ → ℕ → Posting
posting id wdf = record { document_id = id; wdf = wdf }

read_cons :
    (prev : ℕ) (p : Posting) (ps : List Posting) (d : Packed (sub32 (sub32 p.document_id prev) 1))
    (w : Packed p.wdf) (more : Later p.document_id ps) (fuel first offset : ℕ)
    → U32 prev
    → U32 p.document_id
    → U32 p.wdf
    → length (d.enc ++ (w.enc ++ more.enc)) ≤ fuel
    → first < 2 ^ 64
    → p.wdf + total_wdf ps ≤ first
    → decode_postings fuel (d.enc ++ (w.enc ++ more.enc)) prev first offset
      ≡ decoded
          (p ∷ ps)
          (first - (p.wdf + total_wdf ps))
          (offset + length (d.enc ++ (w.enc ++ more.enc)))
read_cons prev p ps d w more zero first offset hp hi hw l f t =
    absurd (omega (arith, d.some_byte, length-append d.enc (w.enc ++ more.enc)))
read_cons prev p ps d w more (suc fuel) first offset hp hi hw l f t =
    let n = length d.enc in
    let m = length w.enc in
    let long = length-append d.enc (w.enc ++ more.enc) in
    let long' = length-append w.enc more.enc in
    let id : (prev + sub32 (sub32 p.document_id prev) 1 % 2 ^ 32 + 1) % 2 ^ 32 ≡ p.document_id =
      delta_lem prev p.document_id hp hi in
    let wdf : p.wdf % 2 ^ 32 ≡ p.wdf = omega arith in
    let left : sub64 first p.wdf ≡ first - p.wdf = omega arith in
    let next =
      more.read fuel (first - p.wdf) (offset + n + m) (omega (arith, long, long', d.some_byte))
        (omega arith) (omega arith) in
    decode_cons fuel prev first offset (d.enc ++ (w.enc ++ more.enc)) more.enc
      (sub32 (sub32 p.document_id prev) 1) n p.wdf m (omega (arith, d.some_byte, long))
      (d.read (w.enc ++ more.enc)) (ap unpack_uint (d.skip (w.enc ++ more.enc)) ∙ w.read more.enc)
      (ap (drop m) (d.skip (w.enc ++ more.enc)) ∙ w.skip more.enc)
    ∙ ap₂
        (λ i v.
          before (posting i v)
            (decode_postings fuel more.enc i (sub64 first p.wdf) (offset + n + m)))
        id wdf
    ∙ ap (λ k. before p (decode_postings fuel more.enc p.document_id k (offset + n + m))) left
    ∙ ap (before p) next
    ∙ ap₂ (decoded (p ∷ ps)) (omega arith) (omega (arith, long, long'))

later : (prev : ℕ) (ps : List Posting) → U32 prev → InRange ps → Later prev ps
unfolding encode_postings total_wdf
later prev [] h r = record {
  enc = [];
  made = refl;
  read = λ fuel first offset l f t. decode_nil fuel prev first offset;
}
later prev (p ∷ ps) h r =
    let d = packed (sub32 (sub32 p.document_id prev) 1) (omega arith) in
    let w = packed p.wdf (omega (arith, r.0.1)) in
    let more = later p.document_id ps r.0.0 r.1 in
    record {
      enc = d.enc ++ (w.enc ++ more.enc);
      made = rw (d.made, w.made, more.made) refl;
      read = λ fuel first offset. read_cons prev p ps d w more fuel first offset h r.0.0 r.0.1;
    }

last_id-U32 : (p : Posting) (ps : List Posting) → InRange (p ∷ ps) → U32 (last_id p ps)
unfolding last_id
last_id-U32 p [] r = r.0.0
last_id-U32 p (q ∷ ps) r = last_id-U32 q ps r.1

unpack_bool-pack_bool : (b : Bool) → unpack_bool (pack_bool b) ≡ b
unfolding unpack_bool pack_bool
unpack_bool-pack_bool true = refl
unpack_bool-pack_bool false = refl

-- The chunk that a posting list stands for.
abbrev pub chunk_of : ℕ → Posting → List Posting → Bool → Chunk
chunk_of term_freq p ps is_last = record {
  term_freq = term_freq;
  coll_freq = total_wdf (p ∷ ps);
  first_doc_id = p.document_id;
  last_doc_id = last_id p ps;
  is_last_chunk = is_last;
  postings = p ∷ ps;
}

decode_first_steps :
    (buf : List ℕ) (tf cf first span flag n1 n2 n3 n5 : ℕ) (buf1 buf2 buf4 buf5 : List ℕ)
    → unpack_uint buf ≡ ok (tf, n1)
    → drop n1 buf ≡ buf1
    → unpack_uint buf1 ≡ ok (cf, n2)
    → drop n2 buf1 ≡ buf2
    → unpack_uint buf2 ≡ ok (first, n3)
    → drop n3 buf2 ≡ flag ∷ buf4
    → unpack_uint buf4 ≡ ok (span, n5)
    → drop n5 buf4 ≡ buf5
    → decode_first_chunk buf
      ≡ ok (
          decoded_chunk tf cf
            ((first + 1) % 2 ^ 32)
            flag
            span
            (decode_postings (length buf5) buf5 ((first + 1) % 2 ^ 32) cf (n1 + n2 + n3 + 1 + n5)))
unfolding decode_first_chunk
decode_first_steps buf tf cf first span flag n1 n2 n3 n5 buf1 buf2 buf4 buf5 a a' b b' c c' e e' =
    rw (a, decode_first_chunk, a', b, b', c, c', e, e') refl

abbrev chunk : ℕ → ℕ → ℕ → ℕ → Bool → ℕ → List Posting → ℕ → Result (Chunk × ℕ)
chunk tf cf id last flag wdf ps offset = ok (
  record {
    term_freq = tf;
    coll_freq = cf;
    first_doc_id = id;
    last_doc_id = last;
    is_last_chunk = flag;
    postings = posting id wdf ∷ ps;
  },
  offset,
)

chunk_eq :
    (tf cf id : ℕ) (ps : List Posting) {last last' : ℕ} {flag flag' : Bool}
    {wdf wdf' offset offset' : ℕ}
    → last ≡ last'
    → flag ≡ flag'
    → wdf ≡ wdf'
    → offset ≡ offset'
    → chunk tf cf id last flag wdf ps offset ≡ chunk tf cf id last' flag' wdf' ps offset'
chunk_eq tf cf id ps a b c d = rw (a, b, c, d) refl

wdf_lem : (w : ℕ) → U32 w → (if ltb 0 w then w % 2 ^ 32 else 0) ≡ w
wdf_lem w h = ground arith

-- A posting list of uint32 document ids and frequencies, with the sum of the frequencies as its
-- collection frequency, is encoded, and `decode_first_chunk` reads all of it back and takes every
-- byte. The first posting's frequency, which is not stored, is the sum less those of the others.
pub decode_first_chunk-encode_first_chunk :
    (term_freq : ℕ) (p : Posting) (ps : List Posting) (is_last : Bool)
    → U64 term_freq
    → InRange (p ∷ ps)
    → U64 (total_wdf (p ∷ ps))
    → (enc : List ℕ) × (encode_first_chunk term_freq (total_wdf (p ∷ ps)) (p ∷ ps) is_last ≡ ok enc)
      × (decode_first_chunk enc ≡ ok (chunk_of term_freq p ps is_last, length enc))
unfolding encode_first_chunk total_wdf
decode_first_chunk-encode_first_chunk term_freq p ps is_last ht r hc =
    let id = p.document_id in
    let hl = last_id-U32 p ps r in
    let a = packed term_freq (omega arith) in
    let b = packed (total_wdf (p ∷ ps)) (omega arith) in
    let c = packed (sub32 id 1) (omega arith) in
    let e = packed (sub32 (last_id p ps) id) (omega arith) in
    let more = later id ps r.0.0 r.1 in
    let tail = pack_bool is_last ∷ (e.enc ++ more.enc) in
    let enc = a.enc ++ (b.enc ++ (c.enc ++ tail)) in
    let first : (sub32 id 1 + 1) % 2 ^ 32 ≡ id = omega (arith, r.0.0) in
    let offset = length a.enc + length b.enc + length c.enc + 1 + length e.enc in
    let read =
      more.read (length more.enc) (total_wdf (p ∷ ps)) offset (omega arith) (omega arith)
        (omega arith) in
    let wdf_left : total_wdf (p ∷ ps) - total_wdf ps ≡ p.wdf = omega arith in
    let all : offset + length more.enc ≡ length enc = omega (
      arith,
      length-append a.enc (b.enc ++ (c.enc ++ tail)),
      length-append b.enc (c.enc ++ tail),
      length-append c.enc tail,
      length-append e.enc more.enc,
    ) in
    let steps =
      decode_first_steps enc term_freq (total_wdf (p ∷ ps)) (sub32 id 1) (sub32 (last_id p ps) id)
        (pack_bool is_last) (length a.enc) (length b.enc) (length c.enc) (length e.enc)
        (b.enc ++ (c.enc ++ tail)) (c.enc ++ tail) (e.enc ++ more.enc) more.enc
        (a.read (b.enc ++ (c.enc ++ tail))) (a.skip (b.enc ++ (c.enc ++ tail)))
        (b.read (c.enc ++ tail)) (b.skip (c.enc ++ tail)) (c.read tail) (c.skip tail)
        (e.read more.enc) (e.skip more.enc) in
    (
      enc,
      rw (a.made, b.made, c.made, e.made, more.made) refl,
      steps
          ∙ ap
              (λ i. ok (
                decoded_chunk term_freq (total_wdf (p ∷ ps)) i (pack_bool is_last)
                  (sub32 (last_id p ps) id)
                  (decode_postings (length more.enc) more.enc i (total_wdf (p ∷ ps)) offset)))
              first
          ∙ ap
              (λ d. ok (
                decoded_chunk term_freq (total_wdf (p ∷ ps)) id (pack_bool is_last)
                  (sub32 (last_id p ps) id) d))
              read
          ∙ chunk_eq term_freq (total_wdf (p ∷ ps)) id ps (omega (arith, r.0.0))
              (unpack_bool-pack_bool is_last)
              (ap (λ w. if ltb 0 w then w % 2 ^ 32 else 0) wdf_left ∙ wdf_lem p.wdf r.0.1) all,
    )
