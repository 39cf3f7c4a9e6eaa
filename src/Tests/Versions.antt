-- ===== src/Tests/Versions.antt =====
-- archive/zim/glass/version.go on a small input.
use gozim.Base.{ℕ, ◌≡◌, refl, List, [], ◌∷◌, ◌++◌, length, replicate, ok, arith}
use gozim.Glass.Version.{RootInfo, VersionInfo, encode_version, read_version}
use gozim.Glass.Version.RoundTrip.{InRange}
use gozim.Glass.Version.Whole.{Fits, read_version-encode_version}

abbrev info : RootInfo
info = record {
  root = 5;
  level = 1;
  num_entries = 300;
  block_size = 8192;
  compress_min = 4;
  free_list = 7 ∷ 8 ∷ [];
}

info-InRange : InRange info
info-InRange = record {
  root = omega arith;
  level = omega arith;
  num_entries = omega arith;
  block_size = omega arith;
  shifted = refl;
  compress_min = omega arith;
  free_list = omega arith;
}

abbrev version_info : VersionInfo
version_info = record {
  uuid = replicate 16 9;
  revision = 3;
  root_infos = replicate 6 info;
  doc_count = 10;
  last_doc_id = 12;
  doc_len_lbound = 1;
  wdf_ubound = 70000;
  doc_len_ubound = 500;
  oldest_changeset = 0;
  total_doc_len = 4000;
  spelling_word_freq_ubound = 0;
}

version_info-Fits : Fits version_info
version_info-Fits = record {
  uuid = refl;
  revision = omega arith;
  tables = refl;
  infos = (
    info-InRange,
    (info-InRange, (info-InRange, (info-InRange, (info-InRange, (info-InRange, tt))))),
  );
  doc_count = omega arith;
  last_doc_id = omega arith;
  doc_len_lbound = omega arith;
  wdf_ubound = omega arith;
  doc_len_ubound = omega arith;
  oldest_changeset = omega arith;
  total_doc_len = omega arith;
  spelling = omega arith;
}

read_version-encode_version_example :
    (enc : List ℕ) × (encode_version version_info ≡ ok enc)
    × (read_version (enc ++ (1 ∷ [])) ≡ ok (version_info, length enc))
read_version-encode_version_example =
    read_version-encode_version version_info (1 ∷ []) version_info-Fits
