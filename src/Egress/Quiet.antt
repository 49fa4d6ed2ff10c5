-- ===== src/Egress/Quiet.antt =====
-- When drain and the destructor of src/transport/quic_egress.cpp find that nothing is in flight.
use embr.Base.{
  ==_iff, Bool-cases, List, Option, [], ap, arith, inl, inr, length, ltb, ltb→lt, lt→ltb, none,
  one_if, refl, some, sym, total, total-add, total-none, total-one_if, total-ones, total-zero, true,
  ℕ, ◌+◌, ◌<◌, ◌==◌, ◌∙◌, ◌∷◌, ◌≡◌, ◌≤◌,
}
use embr.Egress.{Flushed, ZcEgress, flush}
use embr.Egress.Calls.{drain, drain_loop, inflight_count, reserved_count}
use embr.Egress.Slots.{IsOwned, Keeps, Keeps-refl, Keeps-trans, count, flush-Keeps, held, here}
use embr.Protocol.{u32_mod}

total-count :
    (xs : List ℕ) (n : ℕ)
    → ((i : ℕ) → n ≤ i → count i xs ≡ 0)
    → total (λ i. count i xs) n ≡ length xs
total-count [] n h = total-none n
total-count (x ∷ xs) n h = omega (
  arith,
  total-add (λ i. one_if (x == i)) (λ i. count i xs) n,
  total-one_if x n,
  total-count xs n (λ i le. omega (arith, h i le)),
  inside,
)
  where
    inside : one_if (ltb x n) ≡ 1
    inside = elim (Bool-cases (ltb x n)) [ inl lt ↦ rw lt | inr ge ↦ absurd (ground (arith, h x)) ]

total-here :
    (o : Option ℕ) (n : ℕ)
    → ((i : ℕ) → o ≡ some i → i < n)
    → total (λ i. here i o) n ≡ reserved_count o
total-here none n h = total-none n
total-here (some j) n h = omega (arith, total-one_if j n, ap one_if (lt→ltb j n (h j refl)))

-- All slots of the pool are free, reserved or in flight.
owners-total :
    (e : ZcEgress)
    → IsOwned e
    → length e.free + total (λ i. held (e.inflight i)) e.slots + reserved_count e.reserved ≡ e.slots
owners-total e o =
    let frees : ℕ → ℕ = λ i. count i e.free in
    let flights : ℕ → ℕ = λ i. held (e.inflight i) in
    let heres : ℕ → ℕ = λ i. here i e.reserved in
    omega (
      arith,
      total-ones (λ i. frees i + flights i + heres i) e.slots (λ i lt. ground (arith, o.once i)),
      total-add (λ i. frees i + flights i) heres e.slots,
      total-add frees flights e.slots,
      total-count e.free e.slots (λ i le. ground (arith, o.once i)),
      total-here e.reserved e.slots (λ i r. ground (arith, o.once i)),
    )

-- inflight() counts the slots in flight.
pub inflight_count-total :
    (e : ZcEgress)
    → IsOwned e
    → e.slots < u32_mod
    → inflight_count e ≡ total (λ i. held (e.inflight i)) e.slots
inflight_count-total e o small = omega (arith, owners-total e o)

none_in_flight :
    (e : ZcEgress) (i : ℕ)
    → IsOwned e
    → e.slots < u32_mod
    → inflight_count e ≡ 0
    → e.inflight i ≡ none
none_in_flight e i o small quiet = elim (Bool-cases (ltb i e.slots)) [
  | inl inside ↦ ground (
    arith,
    total-zero (λ j. held (e.inflight j)) e.slots i (sym (inflight_count-total e o small) ∙ quiet)
        (ltb→lt i e.slots inside),
  )
  | inr beyond ↦ ground (arith, o.once i)
]

drain_loop-Keeps : (fs : List Flushed) (e : ZcEgress) → Keeps e (drain_loop fs e)
unfolding drain_loop
drain_loop-Keeps [] e = Keeps-refl e
drain_loop-Keeps (f ∷ fs) e = elim (Bool-cases (inflight_count e == 0)) [
  | inl quiet ↦ rw quiet (Keeps-refl e)
  | inr busy ↦ rw busy (Keeps-trans (flush-Keeps f e) (drain_loop-Keeps fs (flush f e)))
]

pub drain-Keeps : (f : Flushed) (fs : List Flushed) (e : ZcEgress) → Keeps e (drain f fs e).1
unfolding drain
drain-Keeps f fs e = Keeps-trans (flush-Keeps f e) (drain_loop-Keeps fs (flush f e))

counted :
    (f : Flushed) (fs : List Flushed) (e : ZcEgress)
    → (drain f fs e).0 ≡ true
    → inflight_count (drain f fs e).1 ≡ 0
unfolding drain
counted f fs e q = (==_iff (inflight_count (drain_loop fs (flush f e))) 0).0 q

-- In a pool of fewer than 2^32 slots in which each slot has one owner, if drain returns true, then
-- no slot is in flight after it.
pub drain-quiet :
    (f : Flushed) (fs : List Flushed) (e : ZcEgress) (i : ℕ)
    → IsOwned e
    → e.slots < u32_mod
    → (drain f fs e).0 ≡ true
    → (drain f fs e).1.inflight i ≡ none
drain-quiet f fs e i o small quiet =
    let k = drain-Keeps f fs e in
    none_in_flight (drain f fs e).1 i (k.owned o) (omega (arith, k.slots_same))
      (counted f fs e quiet)
