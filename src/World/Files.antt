-- ===== src/World/Files.antt =====
-- The file operations that the code calls: open, stat, read and write of whole byte ranges, and
-- unlink. A read or write of a regular file that is open does not fail but by the end of the file.
use mathlib.Core.Path.{fun_ext}
use embr.Base.{
  ==_refl, Bool, Bool-cases, Error, Option, Result, [], ap, ap₂, arith, drop, eof, err, false,
  fault, if◌then◌else◌, inl, inr, invalid_argument, length, logic_error, ltb, none, ok, open_failed,
  out_of_range, refl, some, take, true, ℕ, ◌&&◌, ◌++◌, ◌==◌, ◌∷◌, ◌≡◌, ◌≢◌,
}
use embr.Exec.{Exec}
use embr.Protocol.{Bytes}
use embr.World.{World}

unfoldable pub same_bytes : Bytes → Bytes → Bool
same_bytes [] [] = true
same_bytes (a ∷ cs) (b ∷ bs) = (a == b) && same_bytes cs bs
same_bytes _ _ = false

abbrev pub put_file : Bytes → Bytes → World → World
put_file path content w = record w {
  disk = λ p. if same_bytes p path then some content else w.disk p;
}

abbrev pub drop_file : Bytes → World → World
drop_file path w = record w { disk = λ p. if same_bytes p path then none else w.disk p }

abbrev pub content : Bytes → World → Bytes
content path w = elim (w.disk path) [ none ↦ [] | some bytes ↦ bytes ]

-- ::open with O_WRONLY | O_CREAT | O_TRUNC.
unfoldable pub open_truncate : Bytes → Exec World (Unit {0})
open_truncate path w =
    if w.may_write path then (ok tt, put_file path [] w) else (err open_failed, w)

-- write_exact at the end of a file that is open.
unfoldable pub append_file : Bytes → Bytes → Exec World (Unit {0})
append_file path bytes w = (ok tt, put_file path (content path w ++ bytes) w)

unfoldable pub unlink : Bytes → Exec World (Unit {0})
unlink path w = (ok tt, drop_file path w)

-- read_exact at the head of what is left of a file: the bytes, and what is left then.
unfoldable pub read_exact : ℕ → Bytes → Result (Bytes × Bytes)
read_exact n left = if ltb (length left) n then err eof else ok (take n left, drop n left)

-- What `catch (const std::runtime_error&)` does not catch: a fault is no exception, and
-- std::out_of_range and std::invalid_argument are logic_errors.
abbrev pub is_runtime_error : Error → Bool
is_runtime_error fault = false
is_runtime_error out_of_range = false
is_runtime_error logic_error = false
is_runtime_error invalid_argument = false
is_runtime_error _ = true

abbrev pub catch_runtime_error {ℓ} : {A : Type ℓ} → Result A → A → Result A
catch_runtime_error (ok a) d = ok a
catch_runtime_error (err e) d = if is_runtime_error e then ok d else err e

pub same_bytes_refl : (p : Bytes) → same_bytes p p ≡ true
unfolding same_bytes
same_bytes_refl [] = refl
same_bytes_refl (a ∷ p) = rw (==_refl a) (same_bytes_refl p)

pub same_bytes_sound : (p q : Bytes) → same_bytes p q ≡ true → p ≡ q
unfolding same_bytes
same_bytes_sound [] [] h = refl
same_bytes_sound [] (b ∷ q) h = absurd (cc)
same_bytes_sound (a ∷ p) [] h = absurd (cc)
same_bytes_sound (a ∷ p) (b ∷ q) h =
    ap₂ (λ (x : ℕ) (y : Bytes). x ∷ y) (ground arith) (same_bytes_sound p q (ground arith))

pub same_bytes_ne : (p q : Bytes) → p ≢ q → same_bytes p q ≡ false
same_bytes_ne p q h = elim (Bool-cases (same_bytes p q)) [
  | inl same ↦ absurd (h (same_bytes_sound p q same))
  | inr apart ↦ apart
]

pub disk-put_file_self :
    (path bytes : Bytes) (w : World) → (put_file path bytes w).disk path ≡ some bytes
disk-put_file_self path bytes w = rw (same_bytes_refl path)

pub disk-put_file_ne :
    (path bytes other : Bytes) (w : World)
    → other ≢ path
    → (put_file path bytes w).disk other ≡ w.disk other
disk-put_file_ne path bytes other w h = rw (same_bytes_ne other path h)

pub content-put_file :
    (path bytes : Bytes) (w : World) → content path (put_file path bytes w) ≡ bytes
content-put_file path bytes w = rw (same_bytes_refl path, content)

-- The last write is what counts.
pub put_file-put_file :
    (path a b : Bytes) (w : World) → put_file path b (put_file path a w) ≡ put_file path b w
put_file-put_file path a b w =
    ap (λ (d : Bytes → Option Bytes). record w { disk = d }) (fun_ext λ p. overwritten p)
  where
    overwritten :
        (p : Bytes)
        → (if same_bytes p path then some b else if same_bytes p path then some a else w.disk p)
          ≡ (if same_bytes p path then some b else w.disk p)
    overwritten p = elim (Bool-cases (same_bytes p path)) [ inl e ↦ rw e | inr e ↦ rw e ]
