-- ===== src/Tests/Writers.antt =====
-- archive/zim/writer.go on small inputs.
use gozim.Base.{ℕ, ◌≡◌, refl, false, true, List, [], ◌∷◌, replicate, Error, ok, err, arith}
use gozim.Writer.{
  ItemWriter, WriterItem, Writer, create, add_item, start_finish, group_items_into_clusters,
}
use gozim.Writer.States.{IsNew, Step, create_file, finish, Reach, here, next, finished_for_good}
use gozim.Writer.Held.{AllHeld}
use gozim.Writer.Grouping.{expected, group_items_into_clusters-AllHeld}

abbrev new_writer : Writer
new_writer = record {
  cluster_size = 10;
  compression = 1;
  uuid = replicate 16 3;
  main_path = 97 ∷ [];
  started = false;
  finished = false;
  mime_list = record { entries = [] };
  items = [];
  metadata = [];
  redirects = [];
  illustrations = [];
}

new_writer-IsNew : IsNew new_writer
new_writer-IsNew = record { started = refl; finished = refl; items = refl }

abbrev pub started_writer : Writer
started_writer = record new_writer { started = true }

abbrev finished_writer : Writer
finished_writer = record started_writer { finished = true }

new_writer-create : create new_writer ≡ ok started_writer
unfolding create
new_writer-create = refl

started_writer-finish : start_finish started_writer ≡ ok finished_writer
unfolding start_finish
started_writer-finish = refl

finished_writer-Reach : Reach new_writer finished_writer
finished_writer-Reach =
    next (next here (create_file new_writer-create)) (finish started_writer-finish)

finished_for_good_example :
    (finished_writer.started ≡ true)
    × ((v : Writer) → ¬ Step finished_writer v)
    × ((i : ItemWriter) → add_item finished_writer i ≡ err Error.writer_closed)
    × (start_finish finished_writer ≡ err Error.writer_closed)
finished_for_good_example =
    finished_for_good new_writer finished_writer new_writer-IsNew finished_writer-Reach refl

-- two items of six bytes, which do not fit into one cluster of ten, and a metadata value
abbrev item : List ℕ → WriterItem
item path = record {
  item = record {
    path = path;
    title = path;
    mime_type = 116 ∷ [];
    feeds = ok (replicate 6 1) ∷ [];
  };
  content = replicate 6 1;
}

abbrev full_writer : Writer
full_writer = record started_writer {
  items = item (97 ∷ []) ∷ item (98 ∷ []) ∷ [];
  metadata = (77 ∷ [], 5 ∷ []) ∷ [];
}

group_items_into_clusters-AllHeld_example :
    AllHeld
      (group_items_into_clusters full_writer).clusters
      (group_items_into_clusters full_writer).dirents
      (expected full_writer)
group_items_into_clusters-AllHeld_example =
    group_items_into_clusters-AllHeld full_writer (omega arith)
