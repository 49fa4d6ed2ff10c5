-- ===== src/Protocol/RoundTrip.antt =====
-- The builders and the parsers of src/core/protocol.cpp against the wire layouts: a built payload
-- has the documented layout, and a parser reads it back.
use embr.Base.{
  ==_iff, All, List, [], ap, append-nil, append_assoc, arith, concat, length, length-append, ok,
  refl, subst, ℕ, ◌%◌, ◌*◌, ◌++◌, ◌+◌, ◌<◌, ◌∙◌, ◌∷◌, ◌≡◌, ◌≤◌,
}
use embr.Protocol.{
  Bytes, FileMeta, file_meta, file_size_bytes, hash_size, len_prefix_bytes, u32_mod, u64_mod,
}
use embr.Protocol.Build.{make_filemeta}
use embr.Protocol.Parse.{get_hashes, parse_filemeta, reader}
use embr.Protocol.Reader.{
  Left, Reader, advance, advance-Left, after_str-Left, after_u64-Left, ensure-ok, get_bytes-Left,
  get_str-Left, get_u32-Left, get_u64-Left,
}
use embr.Protocol.Words.{be32}
use embr.Protocol.Writer.{
  be64, put_hashes-written, put_str-written, put_u32-written, put_u64-written, str_bytes,
}

-- What the C++ types of the fields give, and a name that its length prefix can describe.
pub record IsFileMeta (m : FileMeta) : Type 0 where
  pub size_u64 : m.file_size < u64_mod
  pub name_short : length m.file_name < u32_mod
  pub chunk_size_u32 : m.chunk_size < u32_mod
  pub count_u32 : m.chunk_count < u32_mod
  pub hashes_sized : All (λ h. length h ≡ hash_size) m.chunk_hashes

-- [file_size:u64][filename_len:u32][filename][chunk_size:u32][chunk_count:u32][hashes]
unfoldable pub layout : FileMeta → Bytes
layout m =
    be64 m.file_size
    ++ (str_bytes m.file_name
        ++ (be32 m.chunk_size ++ (be32 m.chunk_count ++ concat m.chunk_hashes)))

pub length-concat :
    (hs : List Bytes)
    → All (λ h. length h ≡ hash_size) hs
    → length (concat hs) ≡ length hs * hash_size
length-concat [] a = refl
length-concat (h ∷ hs) a = omega (arith, length-append h (concat hs), length-concat hs a.1, a.0)

module _ (m : FileMeta) (v : IsFileMeta m) (counted : length m.chunk_hashes ≡ m.chunk_count) where
  hash_room : ℕ
  hash_room = length (concat m.chunk_hashes)

  room_lem :
      (file_size_bytes + len_prefix_bytes + length m.file_name + 4 + 4 + m.chunk_count * hash_size)
        % u64_mod
      ≡ 8 + (4 + length m.file_name + (4 + (4 + (hash_room + 0))))
  unfolding hash_room
  room_lem =
      omega (arith, length-concat m.chunk_hashes v.hashes_sized, v.name_short, v.count_u32, counted)

  layout_assoc : (a b c d e : Bytes) → (((a ++ b) ++ c) ++ d) ++ e ≡ a ++ (b ++ (c ++ (d ++ e)))
  layout_assoc a b c d e = simp append_assoc

  -- For metadata whose fields fit their types and that has as many hashes as it counts,
  -- make_filemeta stays inside its buffer, fills it, and leaves the documented layout.
  pub make_filemeta-layout : make_filemeta m ≡ ok (record { type = file_meta; payload = layout m })
  unfolding make_filemeta layout hash_room
  make_filemeta-layout =
      let a : Bytes = be64 m.file_size in
      let b : Bytes = str_bytes m.file_name in
      let c : Bytes = be32 m.chunk_size in
      let d : Bytes = be32 m.chunk_count in
      let e : Bytes = concat m.chunk_hashes in
      rw
        (
          (==_iff (length m.chunk_hashes) m.chunk_count).1 counted,
          room_lem,
          put_u64-written [] m.file_size _ (4 + length m.file_name + (4 + (4 + (length e + 0))))
              refl,
          put_str-written a m.file_name _ (4 + (4 + (length e + 0))) refl,
          put_u32-written (a ++ b) m.chunk_size _ (4 + (length e + 0)) refl,
          put_u32-written ((a ++ b) ++ c) m.chunk_count _ (length e + 0) refl,
          put_hashes-written (((a ++ b) ++ c) ++ d) m.chunk_hashes _ 0 refl,
        )
        (ap (λ (p : Bytes). ok (record { type = file_meta; payload = p }))
          (append-nil _ ∙ layout_assoc a b c d e))

-- The loop over the hashes reads as many as there are, and stands behind them.
get_hashes-Left :
    (hs : List Bytes) (rest : Bytes) {r : Reader}
    → All (λ h. length h ≡ hash_size) hs
    → Left r (concat hs ++ rest)
    → (r' : Reader) × (get_hashes (length hs) r ≡ ok (hs, r')) × Left r' rest
unfolding get_hashes
get_hashes-Left [] rest {r} a l = (r, refl, l)
get_hashes-Left (h ∷ hs) rest {r} a l =
    let here : Left r (h ++ (concat hs ++ rest)) =
      subst (Left r) (append_assoc h (concat hs) rest) l in
    let (r', e, l') = get_hashes-Left hs rest a.1 (advance-Left h (concat hs ++ rest) here) in
    (r', rw (← a.0, get_bytes-Left h (concat hs ++ rest) here, e), l')

module _ (m : FileMeta) (v : IsFileMeta m) (counted : length m.chunk_hashes ≡ m.chunk_count) where
  tail₂ : Bytes → Bytes
  tail₂ rest = be32 m.chunk_count ++ (concat m.chunk_hashes ++ rest)

  tail₁ : Bytes → Bytes
  tail₁ rest = str_bytes m.file_name ++ (be32 m.chunk_size ++ tail₂ rest)

  -- For metadata whose fields fit their types and that has as many hashes as it counts,
  -- parse_filemeta reads it back from a payload that starts with its documented layout, whatever
  -- follows.
  pub parse_filemeta-layout :
      (rest : Bytes)
      → parse_filemeta (record { type = file_meta; payload = layout m ++ rest }) ≡ ok m
  unfolding parse_filemeta layout tail₁ tail₂
  parse_filemeta-layout rest =
      let r₀ : Reader = reader (record { type = file_meta; payload = layout m ++ rest }) in
      let l₀ : Left r₀ (be64 m.file_size ++ tail₁ rest) = record {
        at = simp append_assoc;
        fits = omega arith;
        whole = refl;
      } in
      let l₁ = after_u64-Left m.file_size (tail₁ rest) l₀ in
      let l₂ = after_str-Left m.file_name (be32 m.chunk_size ++ tail₂ rest) l₁ in
      let l₃ = advance-Left (be32 m.chunk_size) (tail₂ rest) l₂ in
      let l₄ = advance-Left (be32 m.chunk_count) (concat m.chunk_hashes ++ rest) l₃ in
      let (r₅, e₅, l₅) = get_hashes-Left m.chunk_hashes rest v.hashes_sized l₄ in
      let counted_read =
        subst
          (λ (n : ℕ).
            get_hashes n (
              advance
                (advance (advance (advance (advance (advance r₀ 4) 4) 4) (length m.file_name)) 4) 4)
            ≡ ok (m.chunk_hashes, r₅))
          counted e₅ in
      let hash_fits : m.chunk_count * hash_size ≤ length (concat m.chunk_hashes ++ rest) = omega (
        arith,
        length-append (concat m.chunk_hashes) rest,
        length-concat m.chunk_hashes v.hashes_sized,
        counted,
      ) in
      rw
        (
          get_u64-Left m.file_size (tail₁ rest) l₀ v.size_u64,
          get_str-Left m.file_name (be32 m.chunk_size ++ tail₂ rest) l₁ v.name_short,
          get_u32-Left m.chunk_size (tail₂ rest) l₂ v.chunk_size_u32,
          get_u32-Left m.chunk_count (concat m.chunk_hashes ++ rest) l₃ v.count_u32,
          ensure-ok (m.chunk_count * hash_size) l₄ hash_fits,
          counted_read,
        )
        refl
