-- ===== src/Udp/Header.antt =====
-- Completions and fragment headers of src/transport/udp_transport.cpp read back as written.
use embr.Base.{
  ap, ap₂, arith, bit_and, bit_and-mask, bit_or, bit_or-sum, refl, ℕ, ◌%◌, ◌*◌, ◌++◌, ◌+◌, ◌<◌, ◌^◌,
  ◌∙◌, ◌≡◌, ◌≤◌,
}
use embr.Protocol.{Bytes, u32_mod, u64_mod}
use embr.Udp.{
  SqeTag, get_index, get_tag, idx_mask, make_user_data, parse_frag_hdr, tag_shift, tag_value,
  write_frag_hdr,
}

tag_value-le : (tag : SqeTag) → tag_value tag ≤ 4
tag_value-le tag = ground arith

make_user_data-sum :
    (tag : SqeTag) (idx : ℕ)
    → idx < 2 ^ tag_shift
    → make_user_data tag idx ≡ tag_value tag * 2 ^ tag_shift + idx
unfolding make_user_data
make_user_data-sum tag idx h =
    ap₂ bit_or {x = tag_value tag * 2 ^ tag_shift % u64_mod} {y = tag_value tag * 2 ^ tag_shift}
      {u = idx % u64_mod} {v = idx} (omega (arith, tag_value-le tag)) (omega arith)
    ∙ bit_or-sum tag_shift (tag_value tag) idx h

-- The user data that is made from a tag and an index below 2^56 give back the tag and the index.
pub get_tag-make_user_data :
    (tag : SqeTag) (idx : ℕ)
    → idx < 2 ^ tag_shift
    → (get_tag (make_user_data tag idx) ≡ tag_value tag)
      × (get_index (make_user_data tag idx) ≡ idx)
unfolding get_tag get_index
get_tag-make_user_data tag idx h =
    let packed = make_user_data-sum tag idx h in
    (
      omega (arith, packed, tag_value-le tag),
      ap (λ (ud : ℕ). bit_and ud idx_mask) packed
          ∙ bit_and-mask tag_shift (tag_value tag) idx idx_mask h refl,
    )

-- A fragment header that is written from values in the range of its fields is read back as those
-- values, whatever stands behind it.
pub parse_frag_hdr-write :
    (chunk_index frag_index frag_len : ℕ) (rest : Bytes)
    → chunk_index < u32_mod
    → frag_index < u32_mod
    → frag_len < 2 ^ 16
    → parse_frag_hdr (write_frag_hdr chunk_index frag_index frag_len ++ rest)
      ≡ record { hdr_chunk = chunk_index; frag_index = frag_index; frag_len = frag_len }
unfolding parse_frag_hdr write_frag_hdr
parse_frag_hdr-write chunk_index frag_index frag_len rest hc hi hl = ground arith
