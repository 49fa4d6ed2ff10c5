-- ===== src/Base/Results.antt =====
-- What a call returns or throws. A throw site of the source is a constructor of `Error`; `fault`
-- stands for a memory access outside a buffer, which C++ leaves undefined, and `out_of_fuel` for a
-- loop that did not end within its fuel.
use Prim.Native.Nat.{ℕ}
use mathlib.Core.Path.{◌≡◌, refl}
use mathlib.Core.Bool.{Bool, true, false}

pub data Error : Type 0 where
  fault truncated wrong_type hash_count closed eof : Error
  bad_version unknown_type too_long io_error bad_status : ℕ → Error
  out_of_range unexpected_message index_mismatch : Error
  file_missing file_empty open_failed empty_path resize_failed map_failed out_of_fuel : Error
  logic_error invalid_argument : Error
  no_stream pump_failed short_datagram bad_fragment ring_full wait_failed unexpected_tag
        ack_mismatch connection_failed setup_failed token_not_found stat_failed malformed_response
        no_home :
      Error

pub data Result {ℓ} (A : Type ℓ) : Type ℓ where
  ok : A → Result A
  err : Error → Result A

module _ {ℓ κ} {A : Type ℓ} {B : Type κ} where
  infixl 5 ◌>>=◌
  abbrev pub ◌>>=◌ : Result A → (A → Result B) → Result B
  ◌>>=◌ (err e) next = err e
  ◌>>=◌ (ok a) next = next a

  -- Inversion of a successful bind.
  pub >>=-eq-ok :
      (r : Result A) (next : A → Result B) {b : B}
      → (r >>= next) ≡ ok b
      → (a : A) × (r ≡ ok a) × (next a ≡ ok b)
  >>=-eq-ok (err e) next returned = cc
  >>=-eq-ok (ok a) next returned = (a, refl, returned)

-- Go on only if the test holds.
abbrev pub guard : (test : Bool) (otherwise : Error) → Result (Unit {0})
guard false e = err e
guard true e = ok tt

infixl 5 ◌>>◌
abbrev pub ◌>>◌ {ℓ} : {A : Type ℓ} (check : Result (Unit {0})) (next : Result A) → Result A
check >> next = check >>= (λ _. next)
