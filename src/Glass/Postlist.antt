-- ===== src/Glass/Postlist.antt =====
-- archive/zim/glass/postlist.go: the chunks of a posting list.
pub mod RoundTrip
use gozim.Base.{
  ℕ, zero, suc, ◌+◌, ◌-◌, ◌*◌, ◌%◌, ◌^◌, ◌≤◌, ◌<◌, Bool, true, false, not, List, [], ◌∷◌, ◌++◌,
  length, drop, ltb, ◌==◌, if◌then◌else◌, Option, none, some, Error, Result, ok, err, panic, ◌>>=◌,
}
use gozim.Format.{sub32, sub64}
use gozim.Glass.Varint.{pack_uint, unpack_uint}
use gozim.Glass.SortUint.{pack_sort}
use gozim.Glass.SortString.{pack_bool, unpack_bool}

-- `Posting`
pub record Posting : Type 0 where
  pub document_id : ℕ
  pub wdf : ℕ

-- `PostingListChunk`
pub record Chunk : Type 0 where
  pub term_freq : ℕ
  pub coll_freq : ℕ
  pub first_doc_id : ℕ
  pub last_doc_id : ℕ
  pub is_last_chunk : Bool
  pub postings : List Posting

-- The loop over `postings[1:]`, after a document.
unfoldable pub encode_postings : ℕ → List Posting → Result (List ℕ)
encode_postings prev [] = ok []
encode_postings prev (p ∷ ps) = do
  delta ← pack_uint (sub32 (sub32 p.document_id prev) 1)
  wdf ← pack_uint p.wdf
  rest ← encode_postings p.document_id ps
  ok (delta ++ (wdf ++ rest))

-- `postings[len(postings)-1].DocumentID`
unfoldable pub last_id : Posting → List Posting → ℕ
last_id p [] = p.document_id
last_id p (q ∷ ps) = last_id q ps

unfoldable pub encode_first_chunk : ℕ → ℕ → List Posting → Bool → Result (List ℕ)
unfolding encode_postings last_id
encode_first_chunk term_freq coll_freq [] is_last = err Error.plain
encode_first_chunk term_freq coll_freq (p ∷ ps) is_last = do
  tf ← pack_uint term_freq
  cf ← pack_uint coll_freq
  first ← pack_uint (sub32 p.document_id 1)
  span ← pack_uint (sub32 (last_id p ps) p.document_id)
  rest ← encode_postings p.document_id ps
  ok (tf ++ (cf ++ (first ++ (pack_bool is_last ∷ (span ++ rest)))))

unfoldable pub encode_subsequent_chunk : List Posting → Bool → Result (List ℕ)
unfolding encode_postings last_id
encode_subsequent_chunk [] is_last = err Error.plain
encode_subsequent_chunk (p ∷ ps) is_last = do
  span ← pack_uint (sub32 (last_id p ps) p.document_id)
  rest ← encode_postings p.document_id ps
  ok (pack_bool is_last ∷ (span ++ rest))

-- What the loop of `DecodeFirstChunk` ends with: the postings, `firstWDF` and `offset`.
pub record Decoded : Type 0 where
  pub later : List Posting
  pub first_wdf : ℕ
  pub offset : ℕ

abbrev pub before : Posting → Decoded → Decoded
before p d = record d { later = p ∷ d.later }

-- The loop, on the bytes from the offset on. A round that does not break takes bytes, so the number
-- of bytes is fuel enough.
unfoldable pub decode_postings : ℕ → List ℕ → ℕ → ℕ → ℕ → Decoded
decode_postings zero buf prev first_wdf offset = record {
  later = [];
  first_wdf = first_wdf;
  offset = offset;
}
decode_postings (suc fuel) buf prev first_wdf offset = elim (ltb 0 (length buf)) [
  | false ↦ record { later = []; first_wdf = first_wdf; offset = offset }
  | true ↦ elim (unpack_uint buf) [
    | ok (delta, n) ↦ elim (unpack_uint (drop n buf)) [
      | ok (wdf, m) ↦
          let id = (prev + delta % 2 ^ 32 + 1) % 2 ^ 32 in
          before (record { document_id = id; wdf = wdf % 2 ^ 32 })
            (decode_postings fuel (drop m (drop n buf)) id (sub64 first_wdf wdf) (offset + n + m))
      | _ ↦ record { later = []; first_wdf = first_wdf; offset = offset + n }
    ]
    | _ ↦ record { later = []; first_wdf = first_wdf; offset = offset }
  ]
]

-- The flag of the last chunk, where there is a byte for it.
abbrev flag_byte : List ℕ → Result (ℕ × List ℕ)
flag_byte [] = err Error.plain
flag_byte (b ∷ bs) = ok (b, bs)

-- The fields of the chunk, and the offset that goes with it.
abbrev pub decoded_chunk : ℕ → ℕ → ℕ → ℕ → ℕ → Decoded → Chunk × ℕ
decoded_chunk tf cf first_id flag span d = (
  record {
    term_freq = tf;
    coll_freq = cf;
    first_doc_id = first_id;
    last_doc_id = (first_id + span % 2 ^ 32) % 2 ^ 32;
    is_last_chunk = unpack_bool flag;
    postings =
        record {
          document_id = first_id;
          wdf = if ltb 0 d.first_wdf then d.first_wdf % 2 ^ 32 else 0;
        }
        ∷ d.later;
  },
  d.offset,
)

unfoldable pub decode_first_chunk : List ℕ → Result (Chunk × ℕ)
unfolding decode_postings
decode_first_chunk buf = do
  (tf, n1) ← unpack_uint buf
  let buf1 = drop n1 buf
  (cf, n2) ← unpack_uint buf1
  let buf2 = drop n2 buf1
  (first, n3) ← unpack_uint buf2
  let first_id = (first + 1) % 2 ^ 32
  (flag, buf4) ← flag_byte (drop n3 buf2)
  (span, n5) ← unpack_uint buf4
  let buf5 = drop n5 buf4
  ok (
      decoded_chunk tf cf first_id flag span
        (decode_postings (length buf5) buf5 first_id cf (n1 + n2 + n3 + 1 + n5)))
