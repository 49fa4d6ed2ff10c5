-- ===== src/Cli.antt =====
-- The command line, src/main.cpp and src/cli: the flags that push, pull and tracker share, and the
-- exit code. What is printed is left out.
pub mod Config
pub mod Push
pub mod Pull
pub mod Trust
pub mod Token
pub mod Meeting
use Prim.Native.String.{String}
use embr.Base.{
  Bool, Error, List, Result, [], err, false, fault, if◌then◌else◌, ok, out_of_fuel, set, true, ℕ,
  ◌%◌, ◌-◌, ◌||◌, ◌∷◌,
}
use embr.Exec.{Exec}
use embr.Protocol.{Bytes, code}
use embr.Text.{codes, negsuc, pos, ℤ}
use embr.World.Files.{same_bytes}

-- What a loop over flags comes to: the options, or an exit code.
pub data FlagStep (O : Type 0) : Type 0 where
  next : O → FlagStep O
  exit : ℕ → FlagStep O

abbrev pub is_flag : Bytes → String → Bool
is_flag flag name = same_bytes flag (codes name)

-- for (int i = ...; i < argc; i++): a flag with its value, if there is a value. A last flag without
-- one is --help, or unknown.
unfoldable pub parse_flags :
    {O : Type 0} → (Bytes → Bytes → O → Result (FlagStep O)) → List Bytes → O → Result (FlagStep O)
parse_flags take_flag [] o = ok (next o)
parse_flags take_flag (flag ∷ []) o = ok (exit (if is_flag flag "--help" then 0 else 1))
parse_flags take_flag (flag ∷ value ∷ rest) o = elim (take_flag flag value o) [
  | ok (next o') ↦ parse_flags take_flag rest o'
  | ok (exit code) ↦ ok (exit code)
  | err e ↦ err e
]

-- static_cast<uint16_t>(n).
abbrev pub to_u16 : ℤ → ℕ
to_u16 (pos n) = n % 65536
to_u16 (negsuc n) = 65535 - n % 65536

abbrev pub with_u16 : {O : Type 0} → Result ℤ → (ℕ → O) → Result (FlagStep O)
with_u16 (ok n) set = ok (next (set (to_u16 n)))
with_u16 (err e) set = err e

-- catch (const std::exception&): all that the code throws. A fault is no exception.
abbrev pub is_exception : Error → Bool
is_exception fault = false
is_exception out_of_fuel = false
is_exception _ = true

abbrev pub catch_code : {S : Type 0} → Result ℕ × S → Result ℕ × S
catch_code (ok code, s) = (ok code, s)
catch_code (err e, s) = if is_exception e then (ok 1, s) else (err e, s)

abbrev pub catch_exception : {S : Type 0} → Exec S ℕ → Exec S ℕ
catch_exception m s = catch_code (m s)

abbrev pub is_transport : Bytes → Bool
is_transport transport = is_flag transport "tcp" || is_flag transport "quic"

-- main: the verb and what follows it.
pub data Verb : Type 0 where
  push pull tracker trust : List Bytes → Verb
  usage : Verb

unfoldable pub verb_of : List Bytes → Verb
verb_of [] = usage
verb_of (verb ∷ args) =
    if is_flag verb "push"
    then push args
    else if is_flag verb "pull"
    then pull args
    else if is_flag verb "tracker"
    then tracker args
    else if is_flag verb "trust"
    then trust args
    else usage
