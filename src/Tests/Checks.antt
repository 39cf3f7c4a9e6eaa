-- ===== src/Tests/Checks.antt =====
-- archive/zim/integrity.go on small inputs.
use gozim.Base.{ℕ, ◌≡◌, ◌↔◌, refl, List, [], ◌∷◌, ok}
use gozim.Dirent.{Dirent, EntryType, is_redirect}
use gozim.Integrity.{Problem, check_redirect_loops, check_dirent_ptrs}
use gozim.Integrity.Loops.{Ends, check_redirect_loops_iff}

abbrev redirect_to : ℕ → Dirent
redirect_to i = record {
  mime_type_index = 0xffff;
  namespace = 67;
  entry_type = EntryType.redirect;
  version = 0;
  cluster_number = 0;
  blob_number = 0;
  redirect_index = i;
  path = [];
  title = [];
  extra = [];
}

-- 0 leads to 1, 1 to 2 and 2 to 1; 3 leads out of the archive.
abbrev round_entries : List Dirent
round_entries = redirect_to 1 ∷ redirect_to 2 ∷ redirect_to 1 ∷ redirect_to 9 ∷ []

check_redirect_loops_iff_example :
    (loops : List (List ℕ)) × (check_redirect_loops round_entries ≡ ok loops)
    × ((loops ≡ []) ↔ ((i : ℕ) → Ends round_entries i))
check_redirect_loops_iff_example = check_redirect_loops_iff round_entries

three_reports :
    check_redirect_loops round_entries ≡ ok ((1 ∷ 2 ∷ []) ∷ (2 ∷ 1 ∷ []) ∷ (1 ∷ 2 ∷ []) ∷ [])
unfolding check_redirect_loops is_redirect
three_reports = refl

-- 90 stands twice.

one_report : check_dirent_ptrs 100 (80 ∷ 90 ∷ 90 ∷ []) ≡ Problem.not_increasing 2 ∷ []
unfolding check_dirent_ptrs
one_report = refl
