-- ===== src/Egress/Retention.antt =====
-- How long a slot of src/transport/quic_egress.cpp stays in flight: until its last completion.
-- Whether a completion is the last one for slot i: a notification, or a send with none to follow.
use embr.Base.{
  All, Bool, Bool-cases, List, List-cases, Option, Option-cases, Result, [], ap, arith, err, false,
  if◌then◌else◌, inl, inr, none, not, ok, out_of_fuel, refl, some, subst, ℕ, ◌&&◌, ◌==◌, ◌||◌, ◌∙◌,
  ◌∷◌, ◌≡◌, ◌≢◌,
}
use embr.Egress.{
  Completion, Flushed, Submitted, ZcEgress, failed_with, flush, flush_if, on_completion, on_send,
  queued, reap, reap_if, reap_wait, retry, submit_all,
}
use embr.Egress.Calls.{Turn, has_free, next_slot, pop_or, reserve, take_turn}
use embr.Egress.Pool.{Handed, reserve-Handed}
use embr.Egress.Slots.{IsOwned}

abbrev pub is_last : ℕ → Completion → Bool
is_last i c = c.slot == i && (c.is_notif || not c.has_more)

abbrev pub NoneLast : ℕ → List Completion → Type 0
NoneLast i cs = All (λ c. is_last i c ≡ false) cs

on_send-inflight :
    (f c : Option ℕ) (e : ZcEgress) (i : ℕ) → (on_send f c e).inflight i ≡ e.inflight i
on_send-inflight none c e i = refl
on_send-inflight (some x) none e i = ground arith
on_send-inflight (some x) (some y) e i = ground arith

on_completion-inflight :
    (c : Completion) (e : ZcEgress) (i : ℕ)
    → (on_completion c e).inflight i ≡ (if is_last i c then none else e.inflight i)
unfolding on_completion
on_completion-inflight c e i = ground (arith, on_send-inflight c.failure c.copy_failure e i)

-- reap.
pub reap-inflight :
    (cs : List Completion) (e : ZcEgress) (i : ℕ)
    → NoneLast i cs
    → (reap cs e).inflight i ≡ e.inflight i
unfolding reap
reap-inflight [] e i h = refl
reap-inflight (c ∷ cs) e i (h, hs) =
    reap-inflight cs (on_completion c e) i hs ∙ on_completion-inflight c e i ∙ rw h

submit_all-inflight :
    (ss : List Submitted) (e : ZcEgress) (i : ℕ) → (submit_all ss e).inflight i ≡ e.inflight i
unfolding submit_all
submit_all-inflight [] e i = refl
submit_all-inflight (queued ∷ ss) e i = submit_all-inflight ss e i
submit_all-inflight (retry ∷ ss) e i = refl
submit_all-inflight (failed_with x ∷ ss) e i = ground arith

flush-inflight :
    (f : Flushed) (e : ZcEgress) (i : ℕ)
    → NoneLast i f.found
    → (flush f e).inflight i ≡ e.inflight i
unfolding flush
flush-inflight f e i h =
    reap-inflight f.found (submit_all f.submits e) i h ∙ submit_all-inflight f.submits e i

abbrev found_if : Option Flushed → List Completion
found_if none = []
found_if (some f) = f.found

abbrev woken_if : Option (List Completion) → List Completion
woken_if none = []
woken_if (some cs) = cs

-- All completions that a turn of the loop of reserve may find.
abbrev pub QuietFor : ℕ → Turn → Type 0
QuietFor i t =
    NoneLast i t.flushed.found
    × NoneLast i (found_if t.waited.pending)
    × NoneLast i (woken_if t.waited.woken)

flush_if-inflight :
    (f : Option Flushed) (e : ZcEgress) (i : ℕ)
    → NoneLast i (found_if f)
    → (flush_if f e).inflight i ≡ e.inflight i
flush_if-inflight none e i h = refl
flush_if-inflight (some f) e i h = flush-inflight f e i h

reap_if-inflight :
    (cs : Option (List Completion)) (e : ZcEgress) (i : ℕ)
    → NoneLast i (woken_if cs)
    → (reap_if cs e).inflight i ≡ e.inflight i
reap_if-inflight none e i h = refl
reap_if-inflight (some cs) e i h = reap-inflight cs e i h

take_turn-inflight :
    (t : Turn) (e : ZcEgress) (i : ℕ) → QuietFor i t → (take_turn t e).inflight i ≡ e.inflight i
unfolding take_turn reap_wait
take_turn-inflight t e i (h, p, w) =
    let flushed = flush-inflight t.flushed e i h in
    elim (Bool-cases (has_free (flush t.flushed e))) [
      | inl one ↦ rw one flushed
      | inr full ↦ rw full (
          reap_if-inflight t.waited.woken (flush_if t.waited.pending (flush t.flushed e)) i w
          ∙ flush_if-inflight t.waited.pending (flush t.flushed e) i p
          ∙ flushed)
    ]

pop_or-inflight :
    (more : Result (Option ℕ) × ZcEgress) (e : ZcEgress) (i : ℕ)
    → more.1.inflight i ≡ e.inflight i
    → (pop_or more e).1.inflight i ≡ e.inflight i
pop_or-inflight more e i h = elim (List-cases e.free) [
  | inl none_free ↦ ground arith
  | inr (j, is, f) ↦ ground arith
]

next_slot-inflight :
    (turns : List Turn) (e : ZcEgress) (i : ℕ)
    → All (QuietFor i) turns
    → (next_slot turns e).1.inflight i ≡ e.inflight i
unfolding next_slot
next_slot-inflight [] e i h = pop_or-inflight (err out_of_fuel, e) e i refl
next_slot-inflight (t ∷ ts) e i (h, hs) =
    pop_or-inflight (next_slot ts (take_turn t e)) e i
      (next_slot-inflight ts (take_turn t e) i hs ∙ take_turn-inflight t e i h)

reserve-inflight :
    (turns : List Turn) (e : ZcEgress) (i : ℕ)
    → All (QuietFor i) turns
    → (reserve turns e).1.inflight i ≡ e.inflight i
unfolding reserve
reserve-inflight turns e i h = elim (Option-cases e.reserved) [
  | inl idle ↦ ground (arith, next_slot-inflight turns e i h)
  | inr (j, r) ↦ rw r refl
]

-- In a pool in which each slot has one owner, while a slot is in flight and none of the
-- completions that reserve finds is its last one, a slot that reserve returns is another one, and
-- the slot stays in flight with its length.
pub reserve_other :
    (turns : List Turn) (e : ZcEgress) (i n : ℕ) {j : ℕ} {e' : ZcEgress}
    → IsOwned e
    → e.inflight i ≡ some n
    → All (QuietFor i) turns
    → reserve turns e ≡ (ok (some j), e')
    → (e'.inflight i ≡ some n) × (j ≢ i)
reserve_other turns e i n {j} {e'} o flying quiet got =
    let kept : e'.inflight i ≡ some n =
      subst (λ (r : Result (Option ℕ) × ZcEgress). r.1.inflight i ≡ some n) got
        (reserve-inflight turns e i quiet ∙ flying) in
    let handed : Handed (ok (some j), e') = subst Handed got (reserve-Handed turns e o).0 in
    (kept, λ same. ground (arith, handed.2, same, ap (λ (k : ℕ). e'.inflight k) same))
