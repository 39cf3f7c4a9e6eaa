-- ===== src/Glass/Varint/Packed.antt =====
-- A packed integer in front of other bytes.
use gozim.Base.{
  ℕ, ◌^◌, ◌≤◌, ◌<◌, ◌≡◌, refl, List, [], ◌∷◌, ◌++◌, length, drop, ok, arith, drop-append_length,
}
use gozim.Glass.Varint.{pack_uint, unpack_uint}
use gozim.Glass.Varint.RoundTrip.{unpack_uint-pack_uint}

-- A packed integer and how it is read off the front of a buffer.
pub record Packed (v : ℕ) : Type 0 where
  pub enc : List ℕ
  pub made : pack_uint v ≡ ok enc
  pub short : length enc ≤ 10
  pub some_byte : 0 < length enc
  pub read : (rest : List ℕ) → unpack_uint (enc ++ rest) ≡ ok (v, length enc)
  pub skip : (rest : List ℕ) → drop (length enc) (enc ++ rest) ≡ rest

not_empty :
    (v : ℕ) (enc : List ℕ)
    → ((rest : List ℕ) → unpack_uint (enc ++ rest) ≡ ok (v, length enc))
    → 0 < length enc
unfolding unpack_uint
not_empty v [] h = cc (h [])
not_empty v (b ∷ bs) h = omega arith

pub packed : (v : ℕ) → v < 2 ^ 64 → Packed v
packed v h =
    let (enc, made, short, read) = unpack_uint-pack_uint v h in
    record {
      enc = enc;
      made = made;
      short = short;
      some_byte = not_empty v enc read;
      read = read;
      skip = λ rest. drop-append_length (length enc) enc rest refl;
    }
