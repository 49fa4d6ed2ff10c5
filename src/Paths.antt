-- ===== src/Paths.antt =====
-- The names of the files that the program keeps beside a user's file: PartialFile::path_for of
-- src/core/partial_file.cpp and hash_cache_path_for of src/core/hash.cpp. A path is its bytes.
pub mod Names
use embr.Base.{
  Bool, Option, Result, [], drop, empty_path, err, false, none, ok, some, suc, take, true, ℕ, ◌++◌,
  ◌+◌, ◌==◌, ◌∷◌,
}
use embr.Protocol.{Bytes}

abbrev later : Bool → Option ℕ → Option ℕ
later hit (some k) = some (suc k)
later true none = some 0
later false none = none

-- std::string::rfind of a character; `none` is npos.
unfoldable pub rfind : ℕ → Bytes → Option ℕ
rfind c [] = none
rfind c (b ∷ bs) = later (b == c) (rfind c bs)

abbrev pub dot : Bytes
dot = b'.' ∷ []

-- ".embr.partial"
abbrev pub partial_suffix : Bytes
partial_suffix =
    b'.' ∷ b'e' ∷ b'm' ∷ b'b' ∷ b'r' ∷ b'.' ∷ b'p' ∷ b'a' ∷ b'r' ∷ b't' ∷ b'i' ∷ b'a' ∷ b'l' ∷ []

-- ".embr.hash"
abbrev pub hash_suffix : Bytes
hash_suffix = b'.' ∷ b'e' ∷ b'm' ∷ b'b' ∷ b'r' ∷ b'.' ∷ b'h' ∷ b'a' ∷ b's' ∷ b'h' ∷ []

unfoldable pub path_for : Bytes → Bytes
path_for output_path = elim (rfind b'/' output_path) [
  | none ↦ dot ++ (output_path ++ partial_suffix)
  | some slash_pos ↦
      take (slash_pos + 1) output_path
      ++ (dot ++ (drop (slash_pos + 1) output_path ++ partial_suffix))
]

unfoldable pub hash_cache_path_for : Bytes → Result Bytes
hash_cache_path_for [] = err empty_path
hash_cache_path_for (b ∷ bs) = elim (rfind b'/' (b ∷ bs)) [
  | none ↦ ok (dot ++ ((b ∷ bs) ++ hash_suffix))
  | some slash_pos ↦
      ok (take (slash_pos + 1) (b ∷ bs) ++ (dot ++ (drop (slash_pos + 1) (b ∷ bs) ++ hash_suffix)))
]
