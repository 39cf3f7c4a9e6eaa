-- ===== src/Cache/Linked.antt =====
-- The map and the list of a shard belong together, and every change of them keeps it so.
use gozim.Base.{
  length, suc, ℕ, ◌+◌, ◌<◌, ◌≡◌, ◌≢◌, sym, ap, ◌∙◌, inl, inr, true, false, ◌==◌, Bool-cases, List,
  ◌∷◌, none, some, arith,
}
use gozim.Cache.{Element, find, delete, key_of, element, unlink}
use gozim.Cache.Links.{
  OneToOne, key_of-find, find-delete_same, find-delete_other, OneToOne-delete, length-delete,
}
use gozim.Cache.View.{Distinct}
use gozim.Cache.Order.{element-unlink_same, element-unlink_other, Distinct-unlink, length-unlink}

find_first :
    (k id k' : ℕ) (items : List (ℕ × ℕ)) → (k == k') ≡ true → find k' ((k, id) ∷ items) ≡ some id
unfolding find
find_first k id k' items h = ground (arith, h)

find_past :
    (k id k' : ℕ) (items : List (ℕ × ℕ))
    → (k == k') ≡ false
    → find k' ((k, id) ∷ items) ≡ find k' items
unfolding find
find_past k id k' items h = ground (arith, h)

-- What is left of a map after a key is deleted.
still_there :
    (items : List (ℕ × ℕ)) (k k' id id' : ℕ)
    → OneToOne items
    → find k items ≡ some id
    → find k' (delete k items) ≡ some id'
    → (find k' items ≡ some id') × (id' ≢ id)
still_there items k k' id id' one h h' = elim (Bool-cases (k == k')) [
  | inl same ↦
      let e : k ≡ k' = ground (arith, same) in
      let gone : find k' (delete k items) ≡ none =
        ap (λ q. find q (delete k items)) (sym e) ∙ find-delete_same items k in
      absurd (ground (arith, gone, h'))
  | inr other ↦
      let h0 : find k' items ≡ some id' =
        sym (find-delete_other items k k' (ground (arith, other))) ∙ h' in
      (
        h0,
        λ same.
            let p = key_of-find items k' id' one h0 in
            let q : key_of id' items ≡ some k =
              ap (λ i. key_of i items) same ∙ key_of-find items k id one h in
            ground (arith, other, p, q),
      )
]

module _ {V : Type 0} where
  -- The map and the list belong together, and elements to come have new numbers.
  pub record IsLinked (items : List (ℕ × ℕ)) (order : List (Element V)) (fresh : ℕ) : Type 0 where
    pub one : OneToOne items
    pub distinct : Distinct order
    pub present :
        (k id : ℕ) → find k items ≡ some id → (e : Element V) × (element id order ≡ some e)
    pub known :
        (id : ℕ) (e : Element V) → element id order ≡ some e → (k : ℕ) × (find k items ≡ some id)
    pub old : (k id : ℕ) → find k items ≡ some id → id < fresh
    pub count : length items ≡ length order

  element_first :
      (id : ℕ) (e : Element V) (es : List (Element V))
      → (e.id == id) ≡ true
      → element id (e ∷ es) ≡ some e
  unfolding element
  element_first id e es h = ground (arith, h)

  element_past :
      (id : ℕ) (e : Element V) (es : List (Element V))
      → (e.id == id) ≡ false
      → element id (e ∷ es) ≡ element id es
  unfolding element
  element_past id e es h = ground (arith, h)

  -- An element of another number is where it was.
  element_front :
      (id : ℕ) (e : Element V) (order : List (Element V))
      → (e.id == id) ≡ false
      → element id (e ∷ unlink e.id order) ≡ element id order
  element_front id e order h =
      element_past id e (unlink e.id order) h
      ∙ element-unlink_other e.id id order (ground (arith, h))

  -- An element moved to the front, with the value and size it has then.
  pub front-IsLinked :
      (items : List (ℕ × ℕ)) (order : List (Element V)) (fresh : ℕ) (e e' : Element V)
      → IsLinked items order fresh
      → element e.id order ≡ some e'
      → IsLinked items (e ∷ unlink e.id order) fresh
  unfolding Distinct
  front-IsLinked items order fresh e e' linked at = record {
    one = linked.one;
    distinct = (
      element-unlink_same e.id order linked.distinct,
      Distinct-unlink e.id order linked.distinct,
    );
    present = λ k id h. elim (Bool-cases (e.id == id)) [
      | inl same ↦ (e, element_first id e (unlink e.id order) same)
      | inr other ↦
          let (f, there) = linked.present k id h in (f, element_front id e order other ∙ there)
    ];
    known = λ id f h. elim (Bool-cases (e.id == id)) [
      | inl same ↦
          let e : e.id ≡ id = ground (arith, same) in
          linked.known id e' (ap (λ i. element i order) (sym e) ∙ at)
      | inr other ↦ linked.known id f (sym (element_front id e order other) ∙ h)
    ];
    old = linked.old;
    count = omega (arith, linked.count, length-unlink e.id order e' at);
  }

  -- A new element in front, under a key that the map does not have.
  pub push-IsLinked :
      (items : List (ℕ × ℕ)) (order : List (Element V)) (fresh k : ℕ) (e : Element V)
      → IsLinked items order fresh
      → e.id ≡ fresh
      → find k items ≡ none
      → element e.id order ≡ none
      → key_of e.id items ≡ none
      → IsLinked ((k, e.id) ∷ items) (e ∷ order) (fresh + 1)
  unfolding Distinct OneToOne
  push-IsLinked items order fresh k e linked at new gone unknown = record {
    one = (new, unknown, linked.one);
    distinct = (gone, linked.distinct);
    present = λ k' id h. elim (Bool-cases (k == k')) [
      | inl same ↦
          let i : e.id ≡ id = ground (arith, find_first k e.id k' items same, h) in
          (e, element_first id e order (ground (arith, i)))
      | inr other ↦
          let h' : find k' items ≡ some id = sym (find_past k e.id k' items other) ∙ h in
          let (f, there) = linked.present k' id h' in
          let young = linked.old k' id h' in
          (f, element_past id e order (ground (arith, young, at)) ∙ there)
    ];
    known = λ id f h. elim (Bool-cases (e.id == id)) [
      | inl same ↦ (k, find_first k e.id k items (ground arith) ∙ ground (arith, same))
      | inr other ↦
          let (k', there) = linked.known id f (sym (element_past id e order other) ∙ h) in
          (k', find_past k e.id k' items (ground (arith, new, there)) ∙ there)
    ];
    old = λ k' id h. elim (Bool-cases (k == k')) [
      | inl same ↦
          let i : e.id ≡ id = ground (arith, find_first k e.id k' items same, h) in omega arith
      | inr other ↦ omega (arith, linked.old k' id (sym (find_past k e.id k' items other) ∙ h))
    ];
    count = ap suc linked.count;
  }

  -- A key deleted, and its element taken out of the list.
  pub out-IsLinked :
      (items : List (ℕ × ℕ)) (order : List (Element V)) (fresh k id : ℕ)
      → IsLinked items order fresh
      → find k items ≡ some id
      → IsLinked (delete k items) (unlink id order) fresh
  out-IsLinked items order fresh k id linked h = record {
    one = OneToOne-delete items k linked.one;
    distinct = Distinct-unlink id order linked.distinct;
    present = λ k' id' h'.
        let (h0, other) = still_there items k k' id id' linked.one h h' in
        let (f, there) = linked.present k' id' h0 in
        (f, element-unlink_other id id' order other ∙ there);
    known = λ id' f h'.
        let other : id' ≢ id = λ same.
          let gone =
            ap (λ i. element i (unlink id order)) same
            ∙ element-unlink_same id order linked.distinct in
          ground (arith, gone, h') in
        let (k', h0) = linked.known id' f (sym (element-unlink_other id id' order other) ∙ h') in
        (
          k',
          find-delete_other items k k' (λ same.
                let e : find k items ≡ some id' = ap (λ q. find q items) same ∙ h0 in
                other (ground (arith, e, h)))
              ∙ h0,
        );
    old = λ k' id' h'. linked.old k' id' (still_there items k k' id id' linked.one h h').0;
    count =
        let (f, there) = linked.present k id h in
        omega (
          arith,
          linked.count,
          length-delete items k id linked.one h,
          length-unlink id order f there,
        );
  }
