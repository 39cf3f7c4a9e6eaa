-- ===== src/Archive/Paths.antt =====
-- What `entry_by_path` does with the first letter of a path.
use gozim.Base.{ℕ, ◌≡◌, true, false, List, ◌∷◌, arith}
use gozim.Dirent.{Dirent}
use gozim.Format.{namespace_content}
use gozim.Header.{has_new_namespace_scheme}
use gozim.Archive.{
  Archive, entry_by_namespace_and_path, entry_by_prefix, entry_by_path, is_prefix_letter,
}

-- A path that does not begin with a namespace letter is looked up among the content entries, in an
-- archive of the new scheme; and a path `N/rest` in namespace `N`, in any archive if `N` is a
-- namespace letter, and in every archive of the old scheme.
entry_by_path_cases :
    (a : Archive) (c : ℕ) (rest : List ℕ)
    → (has_new_namespace_scheme a.header ≡ true
        → is_prefix_letter c ≡ false
        → entry_by_path a (c ∷ rest) ≡ entry_by_namespace_and_path a namespace_content (c ∷ rest))
      × (is_prefix_letter c ≡ true
          → entry_by_path a (c ∷ b'/' ∷ rest) ≡ entry_by_namespace_and_path a c rest)
      × (has_new_namespace_scheme a.header ≡ false
          → entry_by_path a (c ∷ b'/' ∷ rest) ≡ entry_by_namespace_and_path a c rest)
unfolding entry_by_path entry_by_prefix
entry_by_path_cases a c rest = ((λ n l. ground arith), (λ l. ground arith), λ n. ground arith)
