-- ===== src/Egress/Calls.antt =====
-- What the users of ZcEgress call (src/transport/quic_egress.cpp): reserve, commit, drain and the
-- destructor. A call that waits for good is `out_of_fuel`.
-- One turn of the loop of reserve: a flush, and a reap that waits if no slot came free.
use embr.Base.{
  Bool, List, Option, Result, [], err, false, if◌then◌else◌, invalid_argument, length, logic_error,
  ltb, none, ok, out_of_fuel, some, true, ℕ, ◌%◌, ◌+◌, ◌-◌, ◌==◌, ◌||◌, ◌∷◌,
}
use embr.Egress.{Flushed, Waited, ZcEgress, assign_buffer, count_up, flush, reap_wait}
use embr.Errno.{errno_again}
use embr.Protocol.{u32_mod}

pub record Turn : Type 0 where
  pub flushed : Flushed
  pub waited : Waited

abbrev pub pop_free : ZcEgress → Option (ℕ × ZcEgress)
pop_free e = elim e.free [
  | [] ↦ none
  | i ∷ is ↦ some (i, record e { free = is; reserved = some i })
]

abbrev pub has_free : ZcEgress → Bool
has_free e = elim e.free [ [] ↦ false | i ∷ is ↦ true ]

unfoldable pub take_turn : Turn → ZcEgress → ZcEgress
take_turn t e = let e' = flush t.flushed e in if has_free e' then e' else reap_wait t.waited e'

-- The slot that is free, or else: the null pointer `none` after an error, or another turn.
abbrev pub pop_or : Result (Option ℕ) × ZcEgress → ZcEgress → Result (Option ℕ) × ZcEgress
pop_or more e = elim (pop_free e) [
  | some (i, e') ↦ (ok (some i), e')
  | none ↦ if e.err == 0 then more else (ok none, e)
]

unfoldable pub next_slot : List Turn → ZcEgress → Result (Option ℕ) × ZcEgress
next_slot [] e = pop_or (err out_of_fuel, e) e
next_slot (t ∷ ts) e = let more = next_slot ts (take_turn t e) in pop_or more e

unfoldable pub reserve : List Turn → ZcEgress → Result (Option ℕ) × ZcEgress
reserve turns e = elim e.reserved [ some i ↦ (ok (some i), e) | none ↦ next_slot turns e ]

-- How commit comes to a submission entry.
pub data Entry : Type 0 where
  at_once : Entry
  after_flush : Flushed → Entry
  after_reap : Flushed → Waited → Entry
  no_entry : Flushed → Waited → Entry

abbrev pub before_entry : Entry → ZcEgress → ZcEgress
before_entry at_once e = e
before_entry (after_flush f) e = flush f e
before_entry (after_reap f r) e = reap_wait r (flush f e)
before_entry (no_entry f r) e = reap_wait r (flush f e)

abbrev pub has_entry : Entry → Bool
has_entry (no_entry f r) = false
has_entry _ = true

unfoldable pub submit_slot : ℕ → ℕ → ZcEgress → ZcEgress
submit_slot i n e =
    let e' = assign_buffer i (some n) e in
    record e' { reserved = none; stats = record e.stats { sends = count_up e.stats.sends } }

unfoldable pub commit_slot : ℕ → ℕ → Entry → ZcEgress → Result Bool × ZcEgress
commit_slot i n entry e =
    let e' = before_entry entry e in
    if has_entry entry
    then (ok true, submit_slot i n e')
    else (ok false, record e' { err = errno_again })

unfoldable pub commit : ℕ → Entry → ZcEgress → Result Bool × ZcEgress
commit n entry e = elim e.reserved [
  | none ↦ (err logic_error, e)
  | some i ↦
      if n == 0 || ltb e.slot_size n
      then (err invalid_argument, e)
      else if e.err == 0
      then commit_slot i n entry e
      else (ok false, e)
]

abbrev pub reserved_count : Option ℕ → ℕ
reserved_count none = 0
reserved_count (some i) = 1

-- inflight(), in unsigned.
abbrev pub inflight_count : ZcEgress → ℕ
inflight_count e =
    (e.slots + u32_mod + u32_mod - length e.free % u32_mod - reserved_count e.reserved) % u32_mod

-- The rounds of drain before the deadline; each ends with a flush.
unfoldable pub drain_loop : List Flushed → ZcEgress → ZcEgress
drain_loop [] e = e
drain_loop (f ∷ fs) e =
    let rest = drain_loop fs (flush f e) in if inflight_count e == 0 then e else rest

unfoldable pub drain : Flushed → List Flushed → ZcEgress → Bool × ZcEgress
drain f fs e = let e' = drain_loop fs (flush f e) in (inflight_count e' == 0, e')

-- The destructor: whether the slab is freed. If not, it is leaked, since the kernel may read it.
unfoldable pub destroy : Flushed → List Flushed → ZcEgress → Bool
destroy f fs e = (drain f fs e).0
