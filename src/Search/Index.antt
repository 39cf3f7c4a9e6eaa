-- ===== src/Search/Index.antt =====
-- archive/zim/bm25/index.go: the inverted index. A map is an association list; the order in which
-- Go walks a map does not show in what the index holds under a key.
pub mod Postings
use gozim.Base.{
  ℕ, suc, ◌+◌, ◌%◌, ◌^◌, Bool, List, [], ◌∷◌, ◌++◌, length, ◌==◌, if◌then◌else◌, Option, none, some,
}
use gozim.Base.Lex.{bytes_eq}

-- `Token`
pub record Token : Type 0 where
  pub text : List ℕ
  pub position : ℕ

pub record PostingEntry : Type 0 where
  pub document_id : ℕ
  pub frequency : ℕ
  pub positions : List ℕ

pub record PostingList : Type 0 where
  pub term : List ℕ
  pub doc_freq : ℕ
  pub postings : List PostingEntry

pub record DocumentInfo : Type 0 where
  pub id : ℕ
  pub path : List ℕ
  pub title : List ℕ
  pub content : List ℕ
  pub word_count : ℕ

pub record Index : Type 0 where
  pub terms : List (List ℕ × PostingList)
  pub doc_count : ℕ
  pub total_len : ℕ
  pub doc_lengths : List (ℕ × ℕ)
  pub documents : List (ℕ × DocumentInfo)

unfoldable pub new_index : Index
new_index = record { terms = []; doc_count = 0; total_len = 0; doc_lengths = []; documents = [] }

module _ {V : Type 0} where
  -- `m[key]` and `m[key] = v` of a map with strings as keys
  unfoldable pub at_text : List ℕ → List (List ℕ × V) → Option V
  at_text key [] = none
  at_text key ((k, v) ∷ m) = if bytes_eq k key then some v else at_text key m

  unfoldable pub set_text : List ℕ → V → List (List ℕ × V) → List (List ℕ × V)
  set_text key v [] = (key, v) ∷ []
  set_text key v ((k, w) ∷ m) = if bytes_eq k key then (k, v) ∷ m else (k, w) ∷ set_text key v m

  -- The same with numbers as keys
  unfoldable pub at_number : ℕ → List (ℕ × V) → Option V
  at_number key [] = none
  at_number key ((k, v) ∷ m) = if k == key then some v else at_number key m

  unfoldable pub set_number : ℕ → V → List (ℕ × V) → List (ℕ × V)
  set_number key v [] = (key, v) ∷ []
  set_number key v ((k, w) ∷ m) = if k == key then (k, v) ∷ m else (k, w) ∷ set_number key v m

-- `termFreqs[term]` and `termPositions[term]`, zero values where the term is missing
abbrev pub seen : List ℕ → List (List ℕ × (ℕ × List ℕ)) → ℕ × List ℕ
seen term m = elim (at_text term m) [ none ↦ (0, []) | some x ↦ x ]

-- The loop over the tokens. The two maps have the same keys and are kept as one.
unfoldable pub count_terms :
    List (List ℕ × (ℕ × List ℕ)) → List Token → List (List ℕ × (ℕ × List ℕ))
unfolding at_text set_text
count_terms m [] = m
count_terms m (t ∷ ts) =
    let old = seen t.text m in
    count_terms (set_text t.text ((old.0 + 1) % 2 ^ 32, old.1 ++ (t.position ∷ [])) m) ts

-- The posting list of a term, a new one where the index has none
abbrev pub list_of : List ℕ → List (List ℕ × PostingList) → PostingList
list_of term m = elim (at_text term m) [
  | none ↦ record { term = term; doc_freq = 0; postings = [] }
  | some pl ↦ pl
]

abbrev pub with_posting : PostingList → PostingEntry → PostingList
with_posting pl p = record pl {
  postings = pl.postings ++ (p ∷ []);
  doc_freq = (pl.doc_freq + 1) % 2 ^ 32;
}

-- The loop over the terms of the document.
unfoldable pub add_postings :
    ℕ → List (List ℕ × PostingList) → List (List ℕ × (ℕ × List ℕ)) → List (List ℕ × PostingList)
unfolding at_text set_text
add_postings doc_id terms [] = terms
add_postings doc_id terms ((term, (freq, positions)) ∷ m) =
    let pl =
      with_posting (list_of term terms)
        (record { document_id = doc_id; frequency = freq; positions = positions }) in
    add_postings doc_id (set_text term pl terms) m

-- `AddDocument`
unfoldable pub add_document : Index → ℕ → List Token → Option DocumentInfo → Index
unfolding count_terms add_postings set_number
add_document idx doc_id tokens info =
    let doc_len = length tokens % 2 ^ 32 in
    record {
      terms = add_postings doc_id idx.terms (count_terms [] tokens);
      doc_count = (idx.doc_count + 1) % 2 ^ 32;
      total_len = (idx.total_len + doc_len) % 2 ^ 64;
      doc_lengths = set_number doc_id doc_len idx.doc_lengths;
      documents = elim info [
        | none ↦ idx.documents
        | some i ↦ set_number doc_id (record i { id = doc_id }) idx.documents
      ];
    }

unfoldable get_document : Index → ℕ → Option DocumentInfo
unfolding at_number
get_document idx doc_id = at_number doc_id idx.documents
