-- ===== src/Search/Index/Postings.antt =====
-- What the index holds under a term after a document is added.
use gozim.Base.{
  ℕ, suc, ◌+◌, ◌%◌, ◌^◌, ◌≡◌, refl, sym, ap, ◌∙◌, inl, inr, true, false, Bool-cases, List, [], ◌∷◌,
  ◌++◌, length, if◌then◌else◌, Option, none, some, arith,
}
use gozim.Base.Lex.{bytes_eq, bytes_eq→eq, bytes_eq_refl}
use gozim.Search.Index.{
  Token, PostingEntry, PostingList, DocumentInfo, Index, at_text, set_text, seen, count_terms,
  list_of, with_posting, add_postings, add_document,
}
use mathlib.Core.Path.{subst}
use mathlib.Core.List.{append_assoc}

bytes_eq_sym : (a b : List ℕ) → bytes_eq a b ≡ false → bytes_eq b a ≡ false
bytes_eq_sym a b h = elim (Bool-cases (bytes_eq b a)) [
  | inl same ↦
      let e : bytes_eq a b ≡ true = ap (bytes_eq a) (bytes_eq→eq b a same) ∙ bytes_eq_refl a in
      absurd (cc (e, h))
  | inr differ ↦ differ
]

-- The keys of a map are distinct.
module _ {V : Type 0} where
  unfoldable pub Keyed : List (List ℕ × V) → Type 0
  unfolding at_text
  Keyed [] = Unit {0}
  Keyed ((k, v) ∷ m) = (at_text k m ≡ none) × Keyed m

  pub at_text-set_text_same :
      (key : List ℕ) (v : V) (m : List (List ℕ × V)) → at_text key (set_text key v m) ≡ some v
  unfolding at_text set_text
  at_text-set_text_same key v [] = ground (arith, bytes_eq_refl key)
  at_text-set_text_same key v ((k, w) ∷ m) = ground (arith, at_text-set_text_same key v m)

  pub at_text-set_text_other :
      (key other : List ℕ) (v : V) (m : List (List ℕ × V))
      → bytes_eq key other ≡ false
      → at_text other (set_text key v m) ≡ at_text other m
  unfolding at_text set_text
  at_text-set_text_other key other v [] h = ground (arith, h)
  at_text-set_text_other key other v ((k, w) ∷ m) h = elim (Bool-cases (bytes_eq k key)) [
    | inl here ↦
        let h' : bytes_eq k other ≡ false =
          ap (λ x. bytes_eq x other) (bytes_eq→eq k key here) ∙ h in
        ground (arith, here, h')
    | inr there ↦ ground (arith, there, at_text-set_text_other key other v m h)
  ]

  at_text-set_text :
      (key other : List ℕ) (v : V) (m : List (List ℕ × V))
      → at_text other (set_text key v m) ≡ (if bytes_eq key other then some v else at_text other m)
  at_text-set_text key other v m = elim (Bool-cases (bytes_eq key other)) [
    | inl same ↦
        ap (λ x. at_text x (set_text key v m)) (sym (bytes_eq→eq key other same))
        ∙ at_text-set_text_same key v m
        ∙ rw same refl
    | inr differ ↦ at_text-set_text_other key other v m differ ∙ rw differ refl
  ]

  set_text_first :
      (key k : List ℕ) (v w : V) (m : List (List ℕ × V))
      → bytes_eq k key ≡ true
      → set_text key v ((k, w) ∷ m) ≡ (k, v) ∷ m
  unfolding set_text
  set_text_first key k v w m h = rw (set_text, h) refl

  set_text_past :
      (key k : List ℕ) (v w : V) (m : List (List ℕ × V))
      → bytes_eq k key ≡ false
      → set_text key v ((k, w) ∷ m) ≡ (k, w) ∷ set_text key v m
  unfolding set_text
  set_text_past key k v w m h = rw (set_text, h) refl

  pub Keyed-set_text :
      (key : List ℕ) (v : V) (m : List (List ℕ × V)) → Keyed m → Keyed (set_text key v m)
  unfolding Keyed
  Keyed-set_text key v [] h = unfold set_text in unfold at_text in (refl, tt)
  Keyed-set_text key v ((k, w) ∷ m) h = elim (Bool-cases (bytes_eq k key)) [
    | inl here ↦ subst Keyed (sym (set_text_first key k v w m here)) h
    | inr there ↦ subst Keyed (sym (set_text_past key k v w m there)) (
      at_text-set_text_other key k v m (bytes_eq_sym k key there) ∙ h.0,
      Keyed-set_text key v m h.1,
    )
  ]

-- The positions of the tokens with a text, in order.
unfoldable pub positions_of : List ℕ → List Token → List ℕ
positions_of term [] = []
positions_of term (t ∷ ts) =
    let rest = positions_of term ts in if bytes_eq t.text term then t.position ∷ rest else rest

-- What the counting makes of the entry of one term.
abbrev counted_from : ℕ × List ℕ → List ℕ → ℕ × List ℕ
counted_from old ps = ((old.0 + length ps) % 2 ^ 32, old.1 ++ ps)

abbrev zero_or : Option (ℕ × List ℕ) → ℕ × List ℕ
zero_or o = elim o [ none ↦ (0, []) | some x ↦ x ]

abbrev counted : Option (ℕ × List ℕ) → List ℕ → Option (ℕ × List ℕ)
counted o [] = o
counted o (p ∷ ps) = some (counted_from (zero_or o) (p ∷ ps))

-- One more position in front.
counted_more :
    (o : Option (ℕ × List ℕ)) (p : ℕ) (ps : List ℕ)
    → counted (some (counted_from (zero_or o) (p ∷ []))) ps ≡ counted o (p ∷ ps)
counted_more o p [] = refl
counted_more o p (q ∷ ps) =
    let old = zero_or o in
    let a : ((old.0 + 1) % 2 ^ 32 + suc (length ps)) % 2 ^ 32
        ≡ (old.0 + suc (suc (length ps))) % 2 ^ 32 =
      omega arith in
    let b : (old.1 ++ (p ∷ [])) ++ (q ∷ ps) ≡ old.1 ++ (p ∷ q ∷ ps) =
      append_assoc old.1 (p ∷ []) (q ∷ ps) in
    λ i. some (a i, b i)

positions_here :
    (term : List ℕ) (t : Token) (ts : List Token)
    → bytes_eq t.text term ≡ true
    → positions_of term (t ∷ ts) ≡ t.position ∷ positions_of term ts
unfolding positions_of
positions_here term t ts h = rw (positions_of, h) refl

positions_past :
    (term : List ℕ) (t : Token) (ts : List Token)
    → bytes_eq t.text term ≡ false
    → positions_of term (t ∷ ts) ≡ positions_of term ts
unfolding positions_of
positions_past term t ts h = rw (positions_of, h) refl

abbrev one_more : ℕ × List ℕ → ℕ → ℕ × List ℕ
one_more old p = ((old.0 + 1) % 2 ^ 32, old.1 ++ (p ∷ []))

at_text-count_terms :
    (m : List (List ℕ × (ℕ × List ℕ))) (tokens : List Token) (term : List ℕ)
    → at_text term (count_terms m tokens) ≡ counted (at_text term m) (positions_of term tokens)
unfolding count_terms
at_text-count_terms m [] term = unfold positions_of in refl
at_text-count_terms m (t ∷ ts) term =
    let new = one_more (seen t.text m) t.position in
    let ps = positions_of term ts in
    let rest = at_text-count_terms (set_text t.text new m) ts term in
    let stored = at_text-set_text t.text term new m in
    elim (Bool-cases (bytes_eq t.text term)) [
      | inl same ↦
          let here : at_text term (set_text t.text new m) ≡ some new = stored ∙ rw same refl in
          let old : some new ≡ some (one_more (zero_or (at_text term m)) t.position) =
            ap (λ k. some (one_more (seen k m) t.position)) (bytes_eq→eq t.text term same) in
          rest
          ∙ ap (λ o. counted o ps) (here ∙ old)
          ∙ counted_more (at_text term m) t.position ps
          ∙ sym (ap (counted (at_text term m)) (positions_here term t ts same))
      | inr differ ↦
          let there : at_text term (set_text t.text new m) ≡ at_text term m =
            stored ∙ rw differ refl in
          rest
          ∙ ap (λ o. counted o ps) there
          ∙ sym (ap (counted (at_text term m)) (positions_past term t ts differ))
    ]

Keyed-count_terms :
    (m : List (List ℕ × (ℕ × List ℕ))) (tokens : List Token)
    → Keyed m
    → Keyed (count_terms m tokens)
unfolding count_terms
Keyed-count_terms m [] h = h
Keyed-count_terms m (t ∷ ts) h =
    Keyed-count_terms (set_text t.text (one_more (seen t.text m) t.position) m) ts
      (Keyed-set_text t.text (one_more (seen t.text m) t.position) m h)

-- What a document adds under a term, from the entry that was counted for it.
abbrev added : ℕ → List (List ℕ × PostingList) → List ℕ → Option (ℕ × List ℕ) → Option PostingList
added doc_id terms term none = at_text term terms
added doc_id terms term (some (freq, positions)) = some (
    with_posting (list_of term terms)
      (record { document_id = doc_id; frequency = freq; positions = positions }))

at_text_first :
    {V : Type 0} (k term : List ℕ) (v : V) (m : List (List ℕ × V))
    → bytes_eq k term ≡ true
    → at_text term ((k, v) ∷ m) ≡ some v
unfolding at_text
at_text_first k term v m h = rw (at_text, h) refl

at_text_past :
    {V : Type 0} (k term : List ℕ) (v : V) (m : List (List ℕ × V))
    → bytes_eq k term ≡ false
    → at_text term ((k, v) ∷ m) ≡ at_text term m
unfolding at_text
at_text_past k term v m h = rw (at_text, h) refl

-- Only the list of the term counts.
added_there :
    (doc_id : ℕ) (terms terms' : List (List ℕ × PostingList)) (term : List ℕ)
    (o : Option (ℕ × List ℕ))
    → at_text term terms ≡ at_text term terms'
    → added doc_id terms term o ≡ added doc_id terms' term o
added_there doc_id terms terms' term none e = e
added_there doc_id terms terms' term (some (freq, positions)) e =
    let default : Option PostingList → PostingList =
      λ o. elim o [ none ↦ record { term = term; doc_freq = 0; postings = [] } | some pl ↦ pl ] in
    ap
      (λ o. some (
        with_posting (default o)
          (record { document_id = doc_id; frequency = freq; positions = positions })))
      e

at_text-add_postings :
    (doc_id : ℕ) (terms : List (List ℕ × PostingList)) (m : List (List ℕ × (ℕ × List ℕ)))
    (term : List ℕ)
    → Keyed m
    → at_text term (add_postings doc_id terms m) ≡ added doc_id terms term (at_text term m)
unfolding add_postings Keyed
at_text-add_postings doc_id terms [] term h = unfold at_text in refl
at_text-add_postings doc_id terms ((k, (freq, positions)) ∷ m) term h =
    let p : PostingEntry = record {
      document_id = doc_id;
      frequency = freq;
      positions = positions;
    } in
    let pl = with_posting (list_of k terms) p in
    let rest = at_text-add_postings doc_id (set_text k pl terms) m term h.1 in
    let stored = at_text-set_text k term pl terms in
    elim (Bool-cases (bytes_eq k term)) [
      | inl same ↦
          let e : k ≡ term = bytes_eq→eq k term same in
          let no_more : at_text term m ≡ none = ap (λ x. at_text x m) (sym e) ∙ h.0 in
          let here : at_text term (set_text k pl terms) ≡ some pl = stored ∙ rw same refl in
          rest
          ∙ ap (added doc_id (set_text k pl terms) term) no_more
          ∙ here
          ∙ ap (λ x. some (with_posting (list_of x terms) p)) e
          ∙ sym (ap (added doc_id terms term) (at_text_first k term (freq, positions) m same))
      | inr differ ↦
          let there : at_text term (set_text k pl terms) ≡ at_text term terms =
            stored ∙ rw differ refl in
          rest
          ∙ added_there doc_id (set_text k pl terms) terms term (at_text term m) there
          ∙ sym (ap (added doc_id terms term) (at_text_past k term (freq, positions) m differ))
    ]

added-counted :
    (doc_id : ℕ) (terms : List (List ℕ × PostingList)) (term : List ℕ) (ps : List ℕ)
    → added doc_id terms term (counted none ps) ≡ (elim ps [
      | [] ↦ at_text term terms
      | q ∷ qs ↦ some (
          with_posting (list_of term terms) (record {
            document_id = doc_id;
            frequency = suc (length qs) % 2 ^ 32;
            positions = q ∷ qs;
          }))
    ])
added-counted doc_id terms term [] = refl
added-counted doc_id terms term (q ∷ qs) =
    let e : (0 + suc (length qs)) % 2 ^ 32 ≡ suc (length qs) % 2 ^ 32 = omega arith in
    ap
      (λ n. some (
        with_posting (list_of term terms)
          (record { document_id = doc_id; frequency = n; positions = q ∷ qs })))
      e

-- A posting list with one posting more; the list of a term that had none has this posting alone.
unfoldable pub grown : List ℕ → Option PostingList → PostingEntry → PostingList
grown term none p = record { term = term; doc_freq = 1; postings = p ∷ [] }
grown term (some pl) p = record {
  term = pl.term;
  doc_freq = (pl.doc_freq + 1) % 2 ^ 32;
  postings = pl.postings ++ (p ∷ []);
}

with_posting-grown :
    (term : List ℕ) (o : Option PostingList) (p : PostingEntry)
    → with_posting
        (elim o [ none ↦ record { term = term; doc_freq = 0; postings = [] } | some pl ↦ pl ])
        p
      ≡ grown term o p
unfolding grown
with_posting-grown term none p =
    let one : (0 + 1) % 2 ^ 32 ≡ 1 = omega arith in
    ap (λ n. record { term = term; doc_freq = n; postings = p ∷ [] }) one
with_posting-grown term (some pl) p = refl

posting-grown :
    (doc_id : ℕ) (terms : List (List ℕ × PostingList)) (term ps : List ℕ)
    → (elim ps [
      | [] ↦ at_text term terms
      | q ∷ qs ↦ some (
          with_posting (list_of term terms) (record {
            document_id = doc_id;
            frequency = suc (length qs) % 2 ^ 32;
            positions = q ∷ qs;
          }))
    ])
      ≡ (elim ps [
        | [] ↦ at_text term terms
        | q ∷ qs ↦ some (
            grown term (at_text term terms) (record {
              document_id = doc_id;
              frequency = suc (length qs) % 2 ^ 32;
              positions = q ∷ qs;
            }))
      ])
posting-grown doc_id terms term [] = refl
posting-grown doc_id terms term (q ∷ qs) = ap some (with_posting-grown term (at_text term terms) _)

-- The posting list of a term after a document: unchanged where no token of the document has the
-- term. Otherwise it has all postings that it had, and behind them one of the document, which counts
-- the tokens that have the term and lists their positions in order; the list's count of documents is
-- one more (modulo 2^32), and 1 for a term that is new.
pub at_text-add_document :
    (idx : Index) (doc_id : ℕ) (tokens : List Token) (info : Option DocumentInfo) (term : List ℕ)
    → at_text term (add_document idx doc_id tokens info).terms ≡ (elim (positions_of term tokens) [
      | [] ↦ at_text term idx.terms
      | p ∷ ps ↦ some (
          grown term (at_text term idx.terms) (record {
            document_id = doc_id;
            frequency = suc (length ps) % 2 ^ 32;
            positions = p ∷ ps;
          }))
    ])
unfolding add_document
at_text-add_document idx doc_id tokens info term =
    at_text-add_postings doc_id idx.terms (count_terms [] tokens) term
      (Keyed-count_terms [] tokens (unfold Keyed in tt))
    ∙ ap (added doc_id idx.terms term) (
        at_text-count_terms [] tokens term
        ∙ ap (λ o. counted o (positions_of term tokens)) (unfold at_text in refl))
    ∙ added-counted doc_id idx.terms term (positions_of term tokens)
    ∙ posting-grown doc_id idx.terms term (positions_of term tokens)
