-- ===== src/Archive/Items.antt =====
-- What `item` gives for each type of entry.
use gozim.Base.{◌≡◌, ◌≢◌, Bool, true, false, none, some, get_elem?, Error, err, arith}
use gozim.Dirent.{Dirent, EntryType, is_redirect, is_deleted, is_link_target}
use gozim.Cluster.{Codec}
use gozim.Archive.{Archive, Entry, entry_by_index, redirect_entry, item, read_item}

-- A content entry has its blob as the item; a deleted entry and a link target have none; a redirect
-- has the item of its target, if redirects are followed and the target is in range and itself has an
-- item, and a redirect to a redirect has none.
item_cases :
    (codec : Codec) (a : Archive) (e : Entry) (follow : Bool)
    → (e.dirent.entry_type ≡ EntryType.content → item codec a e follow ≡ read_item codec a e.dirent)
      × (e.dirent.entry_type ≡ EntryType.deleted → item codec a e follow ≡ err Error.invalid_type)
      × (e.dirent.entry_type ≡ EntryType.link_target
          → item codec a e follow ≡ err Error.invalid_type)
      × (e.dirent.entry_type ≡ EntryType.redirect → item codec a e false ≡ err Error.invalid_type)
      × (e.dirent.entry_type ≡ EntryType.redirect
          → get_elem? a.dirents e.dirent.redirect_index ≡ none
          → item codec a e true ≡ err Error.entry_not_found)
      × ((d : Dirent)
          → e.dirent.entry_type ≡ EntryType.redirect
          → get_elem? a.dirents e.dirent.redirect_index ≡ some d
          → (d.entry_type ≡ EntryType.content → item codec a e true ≡ read_item codec a d)
            × (d.entry_type ≢ EntryType.content → item codec a e true ≡ err Error.invalid_type))
unfolding item redirect_entry entry_by_index is_redirect is_deleted is_link_target
item_cases codec a e follow = (
  (λ t. ground arith),
  (λ t. ground arith),
  (λ t. ground arith),
  (λ t. ground arith),
  (λ t g. ground arith),
  λ d t g. ((λ u. ground arith), λ u. ground arith),
)
