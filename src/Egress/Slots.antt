-- ===== src/Egress/Slots.antt =====
-- Who owns each slot of src/transport/quic_egress.cpp: it is free, or reserved, or in flight.
use embr.Base.{
  Bool, Bool-cases, List, Option, [], ap, arith, inl, inr, leb, ltb, none, ok, one_if, refl, some,
  subst, suc, sym, zero, ℕ, ◌&&◌, ◌+◌, ◌==◌, ◌∙◌, ◌∷◌, ◌≡◌, ◌≢◌, ◌⊎◌,
}
use embr.Egress.{
  Completion, Flushed, Submitted, Waited, ZcEgress, assign_buffer, count_notif, failed_with, flush,
  flush_if, latch, new_egress, on_completion, on_send, queued, reap, reap_if, reap_wait, retry,
  slots_from, submit_all,
}

abbrev pub count : ℕ → List ℕ → ℕ
count i [] = 0
count i (x ∷ xs) = one_if (x == i) + count i xs

abbrev pub held : Option ℕ → ℕ
held none = 0
held (some n) = 1

abbrev pub here : ℕ → Option ℕ → ℕ
here i none = 0
here i (some j) = one_if (j == i)

-- Each slot of the pool has one owner, and no number beyond the pool has any.
pub record IsOwned (e : ZcEgress) : Type 0 where
  pub once :
      (i : ℕ) → count i e.free + held (e.inflight i) + here i e.reserved ≡ one_if (ltb i e.slots)

count-slots_from : (i j n : ℕ) → count i (slots_from j n) ≡ one_if (leb j i && ltb i (j + n))
count-slots_from i j zero = ground arith
count-slots_from i j (suc n) = ground (arith, count-slots_from i (j + 1) n)

pub new_egress-IsOwned :
    (slot_size slots : ℕ) (registered : Bool) {e : ZcEgress}
    → new_egress slot_size slots registered ≡ ok e
    → IsOwned e
unfolding new_egress
new_egress-IsOwned slot_size slots registered made = record {
  once = λ i. ground (arith, count-slots_from i 0 slots);
}

-- What the completions and the submissions leave: one owner for each slot, the reserved slot, the
-- pool, and an error that has been latched.
pub record Keeps (e e' : ZcEgress) : Type 0 where
  pub owned : IsOwned e → IsOwned e'
  pub reserved_same : e'.reserved ≡ e.reserved
  pub slots_same : e'.slots ≡ e.slots
  pub size_same : e'.slot_size ≡ e.slot_size
  pub latched : e.err ≢ 0 → e'.err ≡ e.err

pub Keeps-refl : (e : ZcEgress) → Keeps e e
Keeps-refl e = record {
  owned = λ o. o;
  reserved_same = refl;
  slots_same = refl;
  size_same = refl;
  latched = λ _. refl;
}

pub Keeps-trans : {d e f : ZcEgress} → Keeps d e → Keeps e f → Keeps d f
Keeps-trans {d} {e} {f} k l = record {
  owned = λ o. l.owned (k.owned o);
  reserved_same = l.reserved_same ∙ k.reserved_same;
  slots_same = l.slots_same ∙ k.slots_same;
  size_same = l.size_same ∙ k.size_same;
  latched = λ nz. l.latched (subst (λ (x : ℕ). x ≢ 0) (sym (k.latched nz)) nz) ∙ k.latched nz;
}

-- A change of the statistics and the error alone.
record SameOwners (e e' : ZcEgress) : Type 0 where
  free_same : e'.free ≡ e.free
  inflight_same : e'.inflight ≡ e.inflight
  reserved_same : e'.reserved ≡ e.reserved
  slots_same : e'.slots ≡ e.slots
  size_same : e'.slot_size ≡ e.slot_size
  err_same : (e.err ≡ 0) ⊎ (e'.err ≡ e.err)

SameOwners-Keeps : {e e' : ZcEgress} → SameOwners e e' → Keeps e e'
SameOwners-Keeps {e} {e'} s = record {
  owned = λ o. record {
    once = λ i. ground (arith, o.once i, ap (λ (f : ℕ → Option ℕ). f i) s.inflight_same);
  };
  reserved_same = s.reserved_same;
  slots_same = s.slots_same;
  size_same = s.size_same;
  latched = λ nz. elim s.err_same [ inl z ↦ absurd (nz z) | inr same ↦ same ];
}

pub latch-Keeps : (x : ℕ) (e : ZcEgress) → Keeps e (latch x e)
latch-Keeps x e = SameOwners-Keeps (ground arith)

pub on_send-Keeps : (f c : Option ℕ) (e : ZcEgress) → Keeps e (on_send f c e)
on_send-Keeps none c e = Keeps-refl e
on_send-Keeps (some x) none e = SameOwners-Keeps (ground arith)
on_send-Keeps (some x) (some y) e = SameOwners-Keeps (ground arith)

-- A slot that is released goes back to the free list.
pub assign_buffer-Keeps : (i : ℕ) (e : ZcEgress) → Keeps e (assign_buffer i none e)
assign_buffer-Keeps i e = record {
  owned = λ o. record { once = λ j. ground (arith, o.once j, o.once i) };
  reserved_same = ground arith;
  slots_same = ground arith;
  size_same = ground arith;
  latched = λ nz. ground arith;
}

pub on_completion-Keeps : (c : Completion) (e : ZcEgress) → Keeps e (on_completion c e)
unfolding on_completion
on_completion-Keeps c e =
    let sent = on_send-Keeps c.failure c.copy_failure e in
    elim (Bool-cases c.is_notif) [
      | inl notif ↦ rw notif (
          Keeps-trans (SameOwners-Keeps (ground arith))
            (assign_buffer-Keeps c.slot (count_notif c.was_copied e)))
      | inr send ↦ elim (Bool-cases c.has_more) [
        | inl more ↦ rw (send, more) sent
        | inr last ↦
            rw (send, last)
              (Keeps-trans sent (assign_buffer-Keeps c.slot (on_send c.failure c.copy_failure e)))
      ]
    ]

pub reap-Keeps : (cs : List Completion) (e : ZcEgress) → Keeps e (reap cs e)
unfolding reap
reap-Keeps [] e = Keeps-refl e
reap-Keeps (c ∷ cs) e = Keeps-trans (on_completion-Keeps c e) (reap-Keeps cs (on_completion c e))

submit_all-Keeps : (ss : List Submitted) (e : ZcEgress) → Keeps e (submit_all ss e)
unfolding submit_all
submit_all-Keeps [] e = Keeps-refl e
submit_all-Keeps (queued ∷ ss) e = submit_all-Keeps ss e
submit_all-Keeps (retry ∷ ss) e = Keeps-refl e
submit_all-Keeps (failed_with x ∷ ss) e = latch-Keeps x e

pub flush-Keeps : (f : Flushed) (e : ZcEgress) → Keeps e (flush f e)
unfolding flush
flush-Keeps f e =
    Keeps-trans (submit_all-Keeps f.submits e) (reap-Keeps f.found (submit_all f.submits e))

flush_if-Keeps : (f : Option Flushed) (e : ZcEgress) → Keeps e (flush_if f e)
flush_if-Keeps none e = Keeps-refl e
flush_if-Keeps (some f) e = flush-Keeps f e

reap_if-Keeps : (cs : Option (List Completion)) (e : ZcEgress) → Keeps e (reap_if cs e)
reap_if-Keeps none e = Keeps-refl e
reap_if-Keeps (some cs) e = reap-Keeps cs e

pub reap_wait-Keeps : (r : Waited) (e : ZcEgress) → Keeps e (reap_wait r e)
unfolding reap_wait
reap_wait-Keeps r e =
    Keeps-trans (flush_if-Keeps r.pending e) (reap_if-Keeps r.woken (flush_if r.pending e))
