-- ===== src/Quic/Acked.antt =====
-- Which blocks src/transport/quic_transport.cpp lets go when the peer acknowledges data.
-- The blocks in the order of their ends.
use embr.Base.{
  All, Bool-cases, List, [], ap, arith, if◌then◌else◌, inl, inr, leb, leb→le, le→ltb, ltb, lt→ltb,
  mod-eq_of_lt, refl, sym, ℕ, ◌+◌, ◌<◌, ◌∙◌, ◌∷◌, ◌≡◌, ◌≤◌,
}
use embr.Protocol.{u64_mod}
use embr.Quic.{QuicTransport, Unacked, on_acked, pop_acked}

abbrev pub Ordered : List Unacked → Type 0
Ordered [] = Unit {0}
Ordered (u ∷ us) = All (λ v. u.end_offset ≤ v.end_offset) us × Ordered us

-- The blocks that end behind an offset.
abbrev pub ending_after : ℕ → List Unacked → List Unacked
ending_after n [] = []
ending_after n (u ∷ us) = if ltb n u.end_offset then u ∷ ending_after n us else ending_after n us

ending_after_lem :
    (n m : ℕ) (us : List Unacked) → n < m → All (λ v. m ≤ v.end_offset) us → ending_after n us ≡ us
ending_after_lem n m [] lt h = refl
ending_after_lem n m (u ∷ us) lt (h, hs) =
    rw (lt→ltb n u.end_offset (omega arith))
      (ap (λ (vs : List Unacked). u ∷ vs) (ending_after_lem n m us lt hs))

pub pop_acked-ending_after :
    (n : ℕ) (us : List Unacked) → Ordered us → pop_acked n us ≡ ending_after n us
unfolding pop_acked
pop_acked-ending_after n [] o = refl
pop_acked-ending_after n (u ∷ us) (first, o) = elim (Bool-cases (leb u.end_offset n)) [
  | inl acked ↦
      rw (acked, le→ltb n u.end_offset (leb→le u.end_offset n acked))
        (pop_acked-ending_after n us o)
  | inr kept ↦
      let later : n < u.end_offset = ground arith in
      rw (kept, lt→ltb n u.end_offset later)
        (ap (λ (vs : List Unacked). u ∷ vs) (sym (ending_after_lem n u.end_offset us later first)))
]

-- For blocks in the order of their ends, an acknowledgement below 2^64 leaves exactly the blocks
-- that end behind it.
pub on_acked-ending_after :
    (offset datalen : ℕ) (q : QuicTransport)
    → Ordered q.unacked
    → offset + datalen < u64_mod
    → (on_acked offset datalen q).unacked ≡ ending_after (offset + datalen) q.unacked
unfolding on_acked
on_acked-ending_after offset datalen q o small =
    ap (λ (n : ℕ). pop_acked n q.unacked) (mod-eq_of_lt small)
    ∙ pop_acked-ending_after (offset + datalen) q.unacked o
