-- ===== src/Egress/Pool.antt =====
-- The calls of the egress pool (src/transport/quic_egress.cpp) keep one owner for each slot.
-- What reserve may return.
use embr.Base.{
  Bool, Bool-cases, List, List-cases, Option, Option-cases, Result, [], ap, arith, err, false, inl,
  inr, invalid_argument, ltb, none, ok, out_of_fuel, refl, some, subst, true, ℕ, ◌<◌, ◌==◌, ◌||◌,
  ◌∙◌, ◌∷◌, ◌≡◌,
}
use embr.Egress.{ZcEgress, flush}
use embr.Egress.Calls.{
  Entry, Turn, after_flush, after_reap, at_once, before_entry, commit, commit_slot, has_entry,
  has_free, next_slot, no_entry, pop_or, reserve, submit_slot, take_turn,
}
use embr.Egress.Slots.{IsOwned, Keeps, Keeps-refl, Keeps-trans, count, flush-Keeps, reap_wait-Keeps}

abbrev pub Handed : Result (Option ℕ) × ZcEgress → Type 0
Handed (ok (some i), e) = (e.reserved ≡ some i) × (i < e.slots) × (e.inflight i ≡ none)
Handed _ = Unit {0}

take_turn-Keeps : (t : Turn) (e : ZcEgress) → Keeps e (take_turn t e)
unfolding take_turn
take_turn-Keeps t e =
    let flushed = flush-Keeps t.flushed e in
    elim (Bool-cases (has_free (flush t.flushed e))) [
      | inl one ↦ rw one flushed
      | inr full ↦ rw full (Keeps-trans flushed (reap_wait-Keeps t.waited (flush t.flushed e)))
    ]

reserved_owner :
    (e : ZcEgress) (i : ℕ) → IsOwned e → e.reserved ≡ some i → (i < e.slots) × (e.inflight i ≡ none)
reserved_owner e i o r = ground (arith, o.once i)

popped-IsOwned :
    (e : ZcEgress) (i : ℕ) (is : List ℕ)
    → e.reserved ≡ none
    → e.free ≡ i ∷ is
    → IsOwned e
    → IsOwned (record e { free = is; reserved = some i })
popped-IsOwned e i is idle f o = record { once = λ j. ground (arith, o.once j, ap (count j) f) }

abbrev IsHanded : Result (Option ℕ) × ZcEgress → Type 0
IsHanded r = Handed r × IsOwned r.1

pop_or-IsHanded :
    (more : Result (Option ℕ) × ZcEgress) (e : ZcEgress)
    → e.reserved ≡ none
    → IsOwned e
    → IsHanded more
    → IsHanded (pop_or more e)
pop_or-IsHanded more e idle o m = elim (List-cases e.free) [
  | inl none_free ↦ elim (Bool-cases (e.err == 0)) [
    | inl fine ↦ subst IsHanded {x = more} {y = pop_or more e} (ground arith) m
    | inr stuck ↦ subst IsHanded {x = (ok none, e)} {y = pop_or more e} (ground arith) (tt, o)
  ]
  | inr (i, is, f) ↦
      let e' = record e { free = is; reserved = some i } in
      let o' = popped-IsOwned e i is idle f o in
      let (inside, idle') = reserved_owner e' i o' refl in
      subst IsHanded {x = (ok (some i), e')} {y = pop_or more e} (ground arith)
        ((refl, inside, idle'), o')
]

next_slot-IsHanded :
    (turns : List Turn) (e : ZcEgress)
    → e.reserved ≡ none
    → IsOwned e
    → IsHanded (next_slot turns e)
unfolding next_slot
next_slot-IsHanded [] e idle o = pop_or-IsHanded (err out_of_fuel, e) e idle o (tt, o)
next_slot-IsHanded (t ∷ ts) e idle o =
    let k = take_turn-Keeps t e in
    pop_or-IsHanded (next_slot ts (take_turn t e)) e idle o
      (next_slot-IsHanded ts (take_turn t e) (k.reserved_same ∙ idle) (k.owned o))

-- In a pool in which each slot has one owner, that holds after reserve too, and a slot that it
-- returns is the reserved one, inside the pool and not in flight.
pub reserve-Handed :
    (turns : List Turn) (e : ZcEgress)
    → IsOwned e
    → Handed (reserve turns e) × IsOwned (reserve turns e).1
unfolding reserve
reserve-Handed turns e o = elim (Option-cases e.reserved) [
  | inl idle ↦
      subst IsHanded {x = next_slot turns e} {y = reserve turns e} (ground arith)
        (next_slot-IsHanded turns e idle o)
  | inr (i, r) ↦
      let (inside, idle') = reserved_owner e i o r in
      subst IsHanded {x = (ok (some i), e)} {y = reserve turns e} (ground arith)
        ((r, inside, idle'), o)
]

before_entry-Keeps : (entry : Entry) (e : ZcEgress) → Keeps e (before_entry entry e)
before_entry-Keeps at_once e = Keeps-refl e
before_entry-Keeps (after_flush f) e = flush-Keeps f e
before_entry-Keeps (after_reap f r) e =
    Keeps-trans (flush-Keeps f e) (reap_wait-Keeps r (flush f e))
before_entry-Keeps (no_entry f r) e = Keeps-trans (flush-Keeps f e) (reap_wait-Keeps r (flush f e))

submit_slot-IsOwned :
    (i n : ℕ) (e : ZcEgress) → e.reserved ≡ some i → IsOwned e → IsOwned (submit_slot i n e)
unfolding submit_slot
submit_slot-IsOwned i n e r o = record { once = λ j. ground (arith, o.once j, o.once i) }

-- What commit leaves: on success the slot is in flight and nothing is reserved, and otherwise
-- the slot stays reserved.
abbrev pub Committed : ℕ → ℕ → Result Bool × ZcEgress → Type 0
Committed i n (ok true, e) = (e.inflight i ≡ some n) × (e.reserved ≡ none)
Committed i n (_, e) = e.reserved ≡ some i

abbrev IsCommitted : ℕ → ℕ → Result Bool × ZcEgress → Type 0
IsCommitted i n r = Committed i n r × IsOwned r.1

commit_slot-IsCommitted :
    (i n : ℕ) (entry : Entry) (e : ZcEgress)
    → e.reserved ≡ some i
    → IsOwned e
    → IsCommitted i n (commit_slot i n entry e)
unfolding commit_slot submit_slot
commit_slot-IsCommitted i n entry e r o =
    let k = before_entry-Keeps entry e in
    let r' = k.reserved_same ∙ r in
    elim (Bool-cases (has_entry entry)) [
      | inl one ↦
          rw one
            ((ground arith, refl), submit_slot-IsOwned i n (before_entry entry e) r' (k.owned o))
      | inr full ↦ rw full (r', record { once = (k.owned o).once })
    ]

-- In a pool in which each slot has one owner, one of them reserved, that holds after commit too;
-- if commit returns true, the slot is in flight with its length and nothing is reserved, and
-- otherwise the slot stays reserved.
pub commit-Committed :
    (i n : ℕ) (entry : Entry) (e : ZcEgress)
    → e.reserved ≡ some i
    → IsOwned e
    → Committed i n (commit n entry e) × IsOwned (commit n entry e).1
unfolding commit
commit-Committed i n entry e r o = elim (Bool-cases (n == 0 || ltb e.slot_size n)) [
  | inl bad ↦
      subst (IsCommitted i n) {x = (err invalid_argument, e)} {y = commit n entry e} (ground arith)
        (r, o)
  | inr good ↦ elim (Bool-cases (e.err == 0)) [
    | inl fine ↦
        subst (IsCommitted i n) {x = commit_slot i n entry e} {y = commit n entry e} (ground arith)
          (commit_slot-IsCommitted i n entry e r o)
    | inr stuck ↦
        subst (IsCommitted i n) {x = (ok false, e)} {y = commit n entry e} (ground arith) (r, o)
  ]
]
