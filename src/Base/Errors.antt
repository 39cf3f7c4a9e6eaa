-- ===== src/Base/Errors.antt =====
-- The error values of errors.go, and what a Go call can come to.
use mathlib.Core.Path.{◌≡◌, refl}
use mathlib.Core.Bool.{Bool, true, false}
use mathlib.Core.Logic.{◌⊎◌, inl, inr}

-- The `Err…` variables that the modelled code returns; `plain` stands for an error with none of
-- them wrapped inside.
pub data Error : Type 0 where
  format entry_not_found invalid_type checksum unsupported_version unsupported_compression
        writer_closed plain :
      Error

-- What a Go call comes to: a run-time panic (an index or a slice out of range), an error, or a value.
pub data Result {ℓ} (V : Type ℓ) : Type ℓ where
  panic : Result V
  err : (cause : Error) → Result V
  ok : (value : V) → Result V

-- The early returns `if err != nil { return …, err }`.
infixl 5 ◌>>=◌
abbrev pub ◌>>=◌ {ℓ κ} :
    {V : Type ℓ} {W : Type κ} (call : Result V) (rest : (value : V) → Result W) → Result W
panic >>= rest = panic
err cause >>= rest = err cause
ok value >>= rest = rest value

infixl 5 ◌>>◌
abbrev pub ◌>>◌ {κ} : {W : Type κ} (check : Result (Unit {0})) (rest : Result W) → Result W
check >> rest = check >>= (λ done. rest)

-- `if bad { return …, e }`
abbrev pub fail_if : Bool → Error → Result (Unit {0})
fail_if true e = err e
fail_if false e = ok tt

-- Where a chain of calls has a value, its first call has one.
pub >>=-eq-ok {ℓ κ} :
    {V : Type ℓ} {W : Type κ} {w : W} (call : Result V) (rest : (value : V) → Result W)
    → (call >>= rest) ≡ ok w
    → (v : V) × (call ≡ ok v) × (rest v ≡ ok w)
>>=-eq-ok panic rest e = cc
>>=-eq-ok (err cause) rest e = cc
>>=-eq-ok (ok v) rest e = (v, refl, e)

-- A check that lets the rest run has not failed.
pub fail_if-eq-ok {ℓ} :
    {B : Type ℓ} (b : Bool) (e : Error) (k : Result B) {x : B}
    → (fail_if b e >> k) ≡ ok x
    → (b ≡ false) × (k ≡ ok x)
fail_if-eq-ok true e k h = cc
fail_if-eq-ok false e k h = (refl, h)

pub fail_if_pass {ℓ} :
    {B : Type ℓ} {b : Bool} (e : Error) (k : Result B) → b ≡ false → (fail_if b e >> k) ≡ k
fail_if_pass e k h = rw h

pub Result-cases {ℓ} :
    {V : Type ℓ} (r : Result V) → ((v : V) × (r ≡ ok v)) ⊎ ((e : Error) × (r ≡ err e)) ⊎ (r ≡ panic)
Result-cases (ok v) = inl (v, refl)
Result-cases (err e) = inr (inl (e, refl))
Result-cases panic = inr (inr refl)

pub ok-injective {ℓ} : {V : Type ℓ} {a b : V} → ok a ≡ ok b → a ≡ b
ok-injective e = cc e
