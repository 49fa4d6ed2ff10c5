-- ===== src/Udp/Fragments.antt =====
-- The fragments of a chunk, and what the datagram of one leaves in a buffer
-- (src/transport/udp_transport.cpp).
use embr.Base.{
  [], ap, append_assoc, arith, drop, get_or, length, length-drop, length-take, refl, suc, sym, take,
  take_all, zero, ℕ, ◌%◌, ◌*◌, ◌++◌, ◌+◌, ◌/◌, ◌<◌, ◌∙◌, ◌∷◌, ◌≡◌, ◌≤◌,
}
use embr.Protocol.{Bytes, chunk_size_const, u32_mod}
use embr.Udp.{
  frag_count_of, frag_hdr_size, frag_len_of, parse_frag_hdr, udp_mtu, udp_payload_size,
  write_frag_hdr,
}
use embr.Udp.Header.{parse_frag_hdr-write}
use embr.Udp.Recv.{fill_buffer}

abbrev pub frag_bytes : Bytes → ℕ → Bytes
frag_bytes chunk j = take (frag_len_of (length chunk) j) (drop (j * udp_payload_size) chunk)

-- The datagram that carries fragment j of chunk k.
abbrev pub packet : Bytes → ℕ → ℕ → Bytes
packet chunk k j = write_frag_hdr k j (frag_len_of (length chunk) j) ++ frag_bytes chunk j

get_or-take :
    (n q : ℕ) (xs ys : Bytes) → q < n → q < length xs → get_or (take n xs ++ ys) q 0 ≡ get_or xs q 0
get_or-take zero q xs ys h l = absurd (omega arith)
get_or-take (suc n) q [] ys h l = absurd (omega arith)
get_or-take (suc n) zero (x ∷ xs) ys h l = refl
get_or-take (suc n) (suc q) (x ∷ xs) ys h l = get_or-take n q xs ys (omega arith) (omega arith)

get_or_nil : (q : ℕ) → get_or {A = ℕ} [] q 0 ≡ 0
get_or_nil zero = refl
get_or_nil (suc q) = refl

get_or-drop : (m q : ℕ) (xs : Bytes) → get_or (drop m xs) q 0 ≡ get_or xs (m + q) 0
get_or-drop zero q xs = ap (λ (n : ℕ). get_or xs n 0) (omega arith)
get_or-drop (suc m) q [] = get_or_nil q ∙ sym (get_or_nil (suc m + q))
get_or-drop (suc m) q (x ∷ xs) =
    get_or-drop m q xs ∙ ap (λ (n : ℕ). get_or (x ∷ xs) n 0) {x = suc (m + q)} (omega arith)

-- Each fragment of a chunk, as far as the count goes, ends inside the chunk and is no longer than
-- UDP_PAYLOAD_SIZE.
pub frag_inside :
    (len j : ℕ)
    → j < frag_count_of len
    → (j * udp_payload_size + frag_len_of len j ≤ len) × (frag_len_of len j ≤ udp_payload_size)
frag_inside len j h = ground arith

-- Every offset of a chunk is in a fragment.
pub frag_covers :
    (len p : ℕ)
    → p < len
    → (p / udp_payload_size < frag_count_of len)
      × (p % udp_payload_size < frag_len_of len (p / udp_payload_size))
frag_covers len p h = ground arith

module _ (chunk : Bytes) (k j : ℕ) (inside : j < frag_count_of (length chunk)) where
  pub length-frag_bytes : length (frag_bytes chunk j) ≡ frag_len_of (length chunk) j
  length-frag_bytes = omega (
    arith,
    length-take (frag_len_of (length chunk) j) (drop (j * udp_payload_size) chunk),
    length-drop (j * udp_payload_size) chunk,
    (frag_inside (length chunk) j inside).0,
  )

  pub length-packet : length (packet chunk k j) ≡ frag_hdr_size + frag_len_of (length chunk) j
  unfolding write_frag_hdr
  length-packet = omega (arith, length-frag_bytes)

  -- The buffer holds the packet, and what stood behind it.
  pub fill_buffer-packet :
      (buf : Bytes)
      → fill_buffer (packet chunk k j) buf
        ≡ packet chunk k j ++ drop (length (packet chunk k j)) buf
  fill_buffer-packet buf =
      ap (λ (x : Bytes). x ++ drop (length x) buf)
        (take_all udp_mtu (packet chunk k j)
          (omega (arith, length-packet, (frag_inside (length chunk) j inside).1)))

  pub parse_frag_hdr-packet :
      (buf : Bytes)
      → length chunk ≤ chunk_size_const
      → k < u32_mod
      → parse_frag_hdr (fill_buffer (packet chunk k j) buf)
        ≡ record { hdr_chunk = k; frag_index = j; frag_len = frag_len_of (length chunk) j }
  parse_frag_hdr-packet buf short small =
      let n = frag_len_of (length chunk) j in
      let rest = frag_bytes chunk j ++ drop (length (packet chunk k j)) buf in
      ap parse_frag_hdr
        (fill_buffer-packet buf ∙ append_assoc (write_frag_hdr k j n) (frag_bytes chunk j) _)
      ∙ parse_frag_hdr-write k j n rest small (omega arith)
          (omega (arith, (frag_inside (length chunk) j inside).1))

  -- What the write of the fragment takes from the buffer.
  pub get_or-fill_buffer :
      (buf : Bytes) (q : ℕ)
      → q < frag_len_of (length chunk) j
      → get_or (drop frag_hdr_size (fill_buffer (packet chunk k j) buf)) q 0
        ≡ get_or chunk (j * udp_payload_size + q) 0
  unfolding write_frag_hdr
  get_or-fill_buffer buf q h =
      ap (λ (x : Bytes). get_or (drop frag_hdr_size x) q 0) (fill_buffer-packet buf)
      ∙ get_or-take (frag_len_of (length chunk) j) q (drop (j * udp_payload_size) chunk)
          (drop (length (packet chunk k j)) buf) h
          (omega (
            arith,
            length-drop (j * udp_payload_size) chunk,
            (frag_inside (length chunk) j inside).0,
          ))
      ∙ get_or-drop (j * udp_payload_size) q chunk
