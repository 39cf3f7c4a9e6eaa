-- ===== src/Writer/States.antt =====
-- The life of a writer: new, started, finished.
use gozim.Base.{ℕ, ◌≡◌, ◌≢◌, true, false, List, [], Error, ok, err, arith}
use gozim.Writer.{
  ItemWriter, RedirectEntry, IllustrationEntry, Writer, create, add_item, add_metadata,
  add_redirection, add_illustration, start_finish,
}

-- A call that succeeds.
pub data Step (w u : Writer) : Type 0 where
  create_file : create w ≡ ok u → Step w u
  item : (i : ItemWriter) → add_item w i ≡ ok u → Step w u
  metadata : (key value : List ℕ) → add_metadata w key value ≡ ok u → Step w u
  redirection : (r : RedirectEntry) → add_redirection w r ≡ ok u → Step w u
  illustration : (i : IllustrationEntry) → add_illustration w i ≡ ok u → Step w u
  finish : start_finish w ≡ ok u → Step w u

pub data Reach (w : Writer) : Writer → Type 0 where
  here : Reach w w
  next : {u v : Writer} → Reach w u → Step u v → Reach w v

-- `NewWriter` and the setters, which leave these fields.
pub record IsNew (w : Writer) : Type 0 where
  pub started : w.started ≡ false
  pub finished : w.finished ≡ false
  pub items : w.items ≡ []

-- Content and the end come after the start.
record IsValid (w : Writer) : Type 0 where
  finished : w.finished ≡ true → w.started ≡ true
  items : w.items ≢ [] → w.started ≡ true

add_item_ok :
    (w u : Writer) (i : ItemWriter)
    → add_item w i ≡ ok u
    → (w.started ≡ true) × (w.finished ≡ false) × (u.started ≡ true) × (u.finished ≡ false)
unfolding add_item
add_item_ok w u i e = ground (arith, e)

Step-IsValid : (w u : Writer) → Step w u → IsValid w → IsValid u
unfolding create add_metadata add_redirection add_illustration start_finish
Step-IsValid w u (create_file e) v = record {
  finished = λ f. ground (arith, e);
  items = λ i. ground (arith, e);
}
Step-IsValid w u (item i e) v =
    let (started, finished, started', finished') = add_item_ok w u i e in
    record { finished = λ f. started'; items = λ i. started' }
Step-IsValid w u (metadata key value e) v = record {
  finished = λ f. ground (arith, e, v.finished);
  items = λ i. ground (arith, e, v.items);
}
Step-IsValid w u (redirection r e) v = record {
  finished = λ f. ground (arith, e, v.finished);
  items = λ i. ground (arith, e, v.items);
}
Step-IsValid w u (illustration i e) v = record {
  finished = λ f. ground (arith, e, v.finished);
  items = λ i. ground (arith, e, v.items);
}
Step-IsValid w u (finish e) v = record {
  finished = λ f. ground (arith, e);
  items = λ i. ground (arith, e, v.items);
}

Reach-IsValid : (w u : Writer) → IsValid w → Reach w u → IsValid u
Reach-IsValid w w' v here = v
Reach-IsValid w u v (next {u = t} r st) = Step-IsValid t u st (Reach-IsValid w t v r)

new-IsValid : (w : Writer) → IsNew w → IsValid w
new-IsValid w n = record {
  finished = λ f. absurd (cc (n.finished, f));
  items = λ i. absurd (i n.items);
}

stuck : (u v : Writer) → u.finished ≡ true → u.started ≡ true → ¬ Step u v
unfolding create add_metadata add_redirection add_illustration start_finish
stuck u v f s (create_file e) = ground (arith, e)
stuck u v f s (item i e) = cc ((add_item_ok u v i e).1, f)
stuck u v f s (metadata key value e) = ground (arith, e)
stuck u v f s (redirection r e) = ground (arith, e)
stuck u v f s (illustration i e) = ground (arith, e)
stuck u v f s (finish e) = ground (arith, e)

-- However a new writer got to its end: it was started before, no call succeeds on it any more, and
-- more items and a second end are refused as coming after the end.
pub finished_for_good :
    (w u : Writer)
    → IsNew w
    → Reach w u
    → u.finished ≡ true
    → (u.started ≡ true)
      × ((v : Writer) → ¬ Step u v)
      × ((i : ItemWriter) → add_item u i ≡ err Error.writer_closed)
      × (start_finish u ≡ err Error.writer_closed)
unfolding create add_item add_metadata add_redirection add_illustration start_finish
finished_for_good w u n r f =
    let v = Reach-IsValid w u (new-IsValid w n) r in
    (
      v.finished f,
      (λ t st. stuck u t f (v.finished f) st),
      (λ i. rw (f, add_item)),
      rw (f, start_finish),
    )
