-- ===== src/Writer.antt =====
-- archive/zim/writer.go: the writer of an archive, its state and what it does with the pending items.
pub mod Held
pub mod Grouping
pub mod States
pub mod Layout
use gozim.Base.{
  ℕ, zero, suc, ◌+◌, ◌-◌, ◌*◌, ◌/◌, ◌%◌, ◌^◌, ◌≤◌, ◌<◌, Bool, true, false, not, ◌&&◌, ◌||◌, List,
  [], ◌∷◌, ◌++◌, length, take, drop, get_elem?, ltb, leb, ◌==◌, if◌then◌else◌, Option, none, some,
  Error, Result, ok, err, panic, ◌>>=◌, ◌>>◌, fail_if,
}
use gozim.Base.Lex.{bytes_eq}
use gozim.Format.{namespace_content, namespace_metadata, mime_redirect}
use gozim.Mime.{MimeList, add}
use gozim.Dirent.{Dirent, EntryType}

-- An `ItemWriter`: its names, and what the calls of `Feed` on its content provider return, in order,
-- before the provider has no more.
pub record ItemWriter : Type 0 where
  pub path : List ℕ
  pub title : List ℕ
  pub mime_type : List ℕ
  pub feeds : List (Result (List ℕ))

-- `writerItem`
pub record WriterItem : Type 0 where
  pub item : ItemWriter
  pub content : List ℕ

-- `redirectEntry`, without the hints, which nothing reads.
pub record RedirectEntry : Type 0 where
  pub path : List ℕ
  pub title : List ℕ
  pub target_path : List ℕ

-- `illustrationEntry`
pub record IllustrationEntry : Type 0 where
  pub size : ℕ
  pub image : List ℕ

-- `Writer`, with the fields that the operations below use. The metadata stand in the order in which
-- the map is walked.
pub record Writer : Type 0 where
  pub cluster_size : ℕ
  pub compression : ℕ
  pub uuid : List ℕ
  pub main_path : List ℕ
  pub started : Bool
  pub finished : Bool
  pub mime_list : MimeList
  pub items : List WriterItem
  pub metadata : List (List ℕ × List ℕ)
  pub redirects : List RedirectEntry
  pub illustrations : List IllustrationEntry

-- The loop over `Feed`: an empty chunk ends it.
unfoldable pub read_feeds : List ℕ → List (Result (List ℕ)) → Result (List ℕ)
read_feeds content [] = ok content
read_feeds content (ok [] ∷ feeds) = ok content
read_feeds content (ok (b ∷ bs) ∷ feeds) = read_feeds (content ++ (b ∷ bs)) feeds
read_feeds content (err e ∷ feeds) = err e
read_feeds content (panic ∷ feeds) = panic

-- `Create`, where the file can be made.
unfoldable pub create : Writer → Result Writer
create w = if w.started then err Error.writer_closed else ok (record w { started = true })

-- `AddItem`: what it works out about compression is dropped.
unfoldable pub add_item : Writer → ItemWriter → Result Writer
unfolding read_feeds
add_item w i = do
  fail_if w.finished Error.writer_closed
  fail_if (not w.started) Error.plain
  content ← read_feeds [] i.feeds
  ok (record w {
    mime_list = (add w.mime_list i.mime_type).0;
    items = w.items ++ ((record { item = i; content = content }) ∷ []);
  })

-- `w.metadata[key] = value`
unfoldable pub set_metadata : List ℕ → List ℕ → List (List ℕ × List ℕ) → List (List ℕ × List ℕ)
set_metadata key value [] = (key, value) ∷ []
set_metadata key value ((k, v) ∷ ms) =
    if bytes_eq k key then (key, value) ∷ ms else (k, v) ∷ set_metadata key value ms

unfoldable pub add_metadata : Writer → List ℕ → List ℕ → Result Writer
unfolding set_metadata
add_metadata w key value = do
  fail_if w.finished Error.writer_closed
  ok (record w { metadata = set_metadata key value w.metadata })

unfoldable pub add_redirection : Writer → RedirectEntry → Result Writer
add_redirection w r = do
  fail_if w.finished Error.writer_closed
  ok (record w { redirects = w.redirects ++ (r ∷ []) })

unfoldable pub add_illustration : Writer → IllustrationEntry → Result Writer
add_illustration w i = do
  fail_if w.finished Error.writer_closed
  ok (record w { illustrations = w.illustrations ++ (i ∷ []) })

-- `Finish` up to `finishWriting`
unfoldable pub start_finish : Writer → Result Writer
start_finish w = do
  fail_if w.finished Error.writer_closed
  fail_if (not w.started) Error.plain
  ok (record w { finished = true })

-- The local variables of `groupItemsIntoClusters`, with the MIME list and the entries.
pub record Groups : Type 0 where
  pub mimes : MimeList
  pub clusters : List (List (List ℕ))
  pub blobs : List (List ℕ)
  pub size : ℕ
  pub dirents : List Dirent

-- A new entry; the fields not named are zero.
abbrev pub new_dirent : ℕ → ℕ → EntryType → List ℕ → List ℕ → ℕ → ℕ → Dirent
new_dirent mime ns type path title cluster blob = record {
  mime_type_index = mime;
  namespace = ns;
  entry_type = type;
  version = 0;
  cluster_number = cluster;
  blob_number = blob;
  redirect_index = 0;
  path = path;
  title = title;
  extra = [];
}

-- A blob put into the current group, with an entry that points to it.
unfoldable pub place_blob : Groups → List ℕ → ℕ → List ℕ → List ℕ → List ℕ → Groups
place_blob g mime ns path title content = record {
  mimes = (add g.mimes mime).0;
  clusters = g.clusters;
  blobs = g.blobs ++ (content ∷ []);
  size = (g.size + length content) % 2 ^ 64;
  dirents =
      g.dirents
      ++ (new_dirent (add g.mimes mime).1 ns EntryType.content path title
            (length g.clusters % 2 ^ 32) (length g.blobs % 2 ^ 32)
          ∷ []);
}

-- The current group closed where the next content would make it too large.
unfoldable pub close_full : ℕ → Groups → List ℕ → Groups
close_full cluster_size g content =
    if ltb cluster_size ((g.size + length content) % 2 ^ 64) && ltb 0 (length g.blobs)
    then record g { clusters = g.clusters ++ (g.blobs ∷ []); blobs = []; size = 0 }
    else g

-- The loop over the items
unfoldable pub group_items : ℕ → Groups → List WriterItem → Groups
unfolding place_blob close_full
group_items cluster_size g [] = g
group_items cluster_size g (w ∷ ws) =
    group_items cluster_size
      (place_blob (close_full cluster_size g w.content) w.item.mime_type namespace_content
        w.item.path w.item.title w.content)
      ws

-- `if len(currentBlobs) > 0 { clusters = append(clusters, currentBlobs) }`: the blobs stay current.
unfoldable pub append_current : Groups → Groups
append_current g =
    if ltb 0 (length g.blobs) then record g { clusters = g.clusters ++ (g.blobs ∷ []) } else g

-- The loop over the redirects
unfoldable pub group_redirects : Groups → List RedirectEntry → Groups
group_redirects g [] = g
group_redirects g (r ∷ rs) =
    group_redirects
      (record g {
        dirents =
            g.dirents
            ++ (new_dirent mime_redirect namespace_content EntryType.redirect r.path r.title 0 0
                ∷ []);
      })
      rs

-- "text/plain" and "image/png"
abbrev pub text_plain : List ℕ
text_plain = b't' ∷ b'e' ∷ b'x' ∷ b't' ∷ b'/' ∷ b'p' ∷ b'l' ∷ b'a' ∷ b'i' ∷ b'n' ∷ []

abbrev pub image_png : List ℕ
image_png = b'i' ∷ b'm' ∷ b'a' ∷ b'g' ∷ b'e' ∷ b'/' ∷ b'p' ∷ b'n' ∷ b'g' ∷ []

unfoldable pub group_metadata : Groups → List (List ℕ × List ℕ) → Groups
unfolding place_blob
group_metadata g [] = g
group_metadata g ((key, value) ∷ ms) =
    group_metadata (place_blob g text_plain namespace_metadata key key value) ms

-- `%d`, with fuel for the digits
unfoldable pub decimal : ℕ → ℕ → List ℕ
decimal zero n = []
decimal (suc fuel) n =
    let rest = decimal fuel (n / 10) in (if ltb n 10 then [] else rest) ++ ((48 + n % 10) ∷ [])

-- `Illustration_%dx%d@1`; a size is an int, and has at most 19 digits.
unfoldable pub illustration_path : ℕ → List ℕ
unfolding decimal
illustration_path size =
    (b'I' ∷ b'l' ∷ b'l' ∷ b'u' ∷ b's' ∷ b't' ∷ b'r' ∷ b'a' ∷ b't' ∷ b'i' ∷ b'o' ∷ b'n' ∷ b'_' ∷ [])
    ++ (decimal 19 size ++ (b'x' ∷ (decimal 19 size ++ (b'@' ∷ b'1' ∷ []))))

unfoldable pub group_illustrations : Groups → List IllustrationEntry → Groups
unfolding place_blob illustration_path
group_illustrations g [] = g
group_illustrations g (i ∷ is) =
    group_illustrations
      (place_blob g image_png namespace_metadata (illustration_path i.size)
        (illustration_path i.size) i.image)
      is

-- `groupItemsIntoClusters`
unfoldable pub group_items_into_clusters : Writer → Groups
unfolding group_items append_current group_redirects group_metadata group_illustrations
group_items_into_clusters w =
    let start : Groups = record {
      mimes = w.mime_list;
      clusters = [];
      blobs = [];
      size = 0;
      dirents = [];
    } in
    let g = append_current (group_items w.cluster_size start w.items) in
    let g = append_current (group_metadata (group_redirects g w.redirects) w.metadata) in
    append_current (group_illustrations g w.illustrations)
