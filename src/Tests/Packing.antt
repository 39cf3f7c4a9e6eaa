-- ===== src/Tests/Packing.antt =====
-- archive/zim/glass/pack.go on small inputs.
use gozim.Base.{ℕ, ◌≤◌, ◌≡◌, refl, List, [], ◌∷◌, ◌++◌, length, ok, arith}
use gozim.Base.Lex.{lex_lt}
use gozim.Glass.Varint.{pack_uint, unpack_uint, pack_loop}
use gozim.Glass.Varint.RoundTrip.{unpack_uint-pack_uint}
use gozim.Glass.SortUint.{pack_sort, unpack_sort, tagged, put_be}
use gozim.Glass.SortUint.RoundTrip.{unpack_sort-pack_sort}
use gozim.Glass.SortString.{
  pack_string, pack_string_terminated, unpack_string, unpack_string-pack_string, lex_lt-pack_string,
}

unpack_uint-pack_uint_example :
    (enc : List ℕ) × (pack_uint 300 ≡ ok enc)
    × (length enc ≤ 10)
    × ((rest : List ℕ) → unpack_uint (enc ++ rest) ≡ ok (300, length enc))
unpack_uint-pack_uint_example = unpack_uint-pack_uint 300 (omega arith)

pack_300 : pack_uint 300 ≡ ok (172 ∷ 2 ∷ [])
unfolding pack_uint pack_loop
pack_300 = refl

unpack_sort-pack_sort_example :
    unpack_sort (pack_sort 70000 ++ (5 ∷ [])) ≡ ok (70000, length (pack_sort 70000))
unpack_sort-pack_sort_example = unpack_sort-pack_sort 70000 (5 ∷ []) (omega arith)

pack_70000 : pack_sort 70000 ≡ 129 ∷ 17 ∷ 112 ∷ []
unfolding pack_sort tagged put_be
pack_70000 = refl

unpack_string-pack_string_example :
    (unpack_string (pack_string_terminated (1 ∷ 0 ∷ 2 ∷ []) ++ (3 ∷ []))
      ≡ (1 ∷ 0 ∷ 2 ∷ [], length (pack_string_terminated (1 ∷ 0 ∷ 2 ∷ []))))
    × (unpack_string (pack_string (1 ∷ 0 ∷ 2 ∷ []))
        ≡ (1 ∷ 0 ∷ 2 ∷ [], length (pack_string (1 ∷ 0 ∷ 2 ∷ []))))
unpack_string-pack_string_example =
    unpack_string-pack_string (1 ∷ 0 ∷ 2 ∷ []) (3 ∷ []) (ground arith)

lex_lt-pack_string_example :
    lex_lt (pack_string_terminated (1 ∷ [])) (pack_string_terminated (1 ∷ 0 ∷ []))
    ≡ lex_lt (1 ∷ []) (1 ∷ 0 ∷ [])
lex_lt-pack_string_example = lex_lt-pack_string (1 ∷ []) (1 ∷ 0 ∷ [])
