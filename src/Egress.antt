-- ===== src/Egress.antt =====
-- src/transport/quic_egress.cpp: the pool of packet slots that are sent by io_uring SEND_ZC. What
-- the calls of liburing return, and the completions that they hand over, are arguments.
pub mod Calls
pub mod Slots
pub mod Pool
pub mod Quiet
pub mod Retention
use embr.Base.{
  Bool, List, Option, Result, [], err, false, guard, if◌then◌else◌, invalid_argument, none, not, ok,
  some, suc, zero, ℕ, ◌%◌, ◌+◌, ◌==◌, ◌>>=◌, ◌>>◌, ◌||◌, ◌∷◌,
}
use embr.Errno.{errno_again, errno_inval, errno_nobufs, errno_nomem, errno_opnotsupp}
use embr.Protocol.{reserved, u64_mod}

pub record Stats : Type 0 where
  pub sends : ℕ
  pub notifs : ℕ
  pub copied : ℕ
  pub fallback : ℕ
  pub errors : ℕ

-- A field `inflight i` is `some n` while inflight_[i] owns slot i, with n bytes to send. The head of
-- `free` is the back of free_.
pub record ZcEgress : Type 0 where
  pub slot_size : ℕ
  pub slots : ℕ
  pub registered : Bool
  pub unsupported : Bool
  pub free : List ℕ
  pub inflight : ℕ → Option ℕ
  pub reserved : Option ℕ
  pub err : ℕ
  pub stats : Stats

-- A completion: the slot is the user data of the submission, `failure` the errno of a negative
-- result. `copy_failure` is the errno of the send of a copy that follows a refusal, if it fails.
pub record Completion : Type 0 where
  pub slot : ℕ
  pub failure : Option ℕ
  pub is_notif : Bool
  pub has_more : Bool
  pub was_copied : Bool
  pub copy_failure : Option ℕ

abbrev pub count_up : ℕ → ℕ
count_up n = (n + 1) % u64_mod

abbrev pub slots_from : ℕ → ℕ → List ℕ
slots_from i zero = []
slots_from i (suc n) = i ∷ slots_from (i + 1) n

-- The constructor, once the ring is set up.
unfoldable pub new_egress : ℕ → ℕ → Bool → Result ZcEgress
new_egress slot_size slots registered = do
  guard (not (slots == 0 || slot_size == 0)) invalid_argument
  ok (record {
    slot_size = slot_size;
    slots = slots;
    registered = registered;
    unsupported = false;
    free = slots_from 0 slots;
    inflight = λ i. none;
    reserved = none;
    err = 0;
    stats = record { sends = 0; notifs = 0; copied = 0; fallback = 0; errors = 0 };
  })

abbrev pub release : ℕ → ZcEgress → ZcEgress
release i e = record e { free = i ∷ e.free }

-- inflight_[i] = b: the Buffer that was there releases its slot.
abbrev pub assign_buffer : ℕ → Option ℕ → ZcEgress → ZcEgress
assign_buffer i b e =
    let e' : ZcEgress = elim (e.inflight i) [ none ↦ e | some n ↦ release i e ] in
    record e' { inflight = λ j. if j == i then b else e.inflight j }

-- The first error stays.
abbrev pub latch : ℕ → ZcEgress → ZcEgress
latch x e = if e.err == 0 then record e { err = x } else e

abbrev pub count_error : ℕ → ZcEgress → ZcEgress
count_error x e = latch x (record e { stats = record e.stats { errors = count_up e.stats.errors } })

abbrev pub is_refusal : ℕ → Bool
is_refusal x =
    x == errno_nomem
    || (x == errno_nobufs || (x == errno_again || (x == errno_inval || x == errno_opnotsupp)))

abbrev pub is_transient : ℕ → Bool
is_transient x = x == errno_again || (x == errno_nobufs || x == errno_nomem)

-- The copy that is sent in place of a refused datagram.
abbrev pub send_copy : Option ℕ → ZcEgress → ZcEgress
send_copy none e = e
send_copy (some x) e = if is_transient x then e else count_error x e

-- A negative result of a send.
abbrev pub on_failure : ℕ → Option ℕ → ZcEgress → ZcEgress
on_failure x copy_failure e =
    let e' = record e {
      unsupported = (x == errno_inval || x == errno_opnotsupp) || e.unsupported;
    } in
    if is_refusal x
    then send_copy copy_failure
        (record e' { stats = record e.stats { fallback = count_up e.stats.fallback } })
    else count_error x e'

abbrev pub on_send : Option ℕ → Option ℕ → ZcEgress → ZcEgress
on_send none copy_failure e = e
on_send (some x) copy_failure e = on_failure x copy_failure e

abbrev pub count_notif : Bool → ZcEgress → ZcEgress
count_notif was_copied e = record e {
  stats = record e.stats {
    notifs = count_up e.stats.notifs;
    copied = if was_copied then count_up e.stats.copied else e.stats.copied;
  };
}

-- One round of the loop of reap.
unfoldable pub on_completion : Completion → ZcEgress → ZcEgress
on_completion c e =
    if c.is_notif
    then assign_buffer c.slot none (count_notif c.was_copied e)
    else if c.has_more
    then on_send c.failure c.copy_failure e
    else assign_buffer c.slot none (on_send c.failure c.copy_failure e)

-- The completions that reap finds, in order.
unfoldable pub reap : List Completion → ZcEgress → ZcEgress
reap [] e = e
reap (c ∷ cs) e = reap cs (on_completion c e)

-- What io_uring_submit returns while the submission queue is not empty.
pub data Submitted : Type 0 where
  queued : Submitted
  retry : Submitted
  failed_with : ℕ → Submitted

unfoldable pub submit_all : List Submitted → ZcEgress → ZcEgress
submit_all [] e = e
submit_all (queued ∷ ss) e = submit_all ss e
submit_all (retry ∷ ss) e = e
submit_all (failed_with x ∷ ss) e = latch x e

pub record Flushed : Type 0 where
  pub submits : List Submitted
  pub found : List Completion

unfoldable pub flush : Flushed → ZcEgress → ZcEgress
flush f e = reap f.found (submit_all f.submits e)

-- A reap that waits: a flush if something is queued, and `none` if the wait fails.
pub record Waited : Type 0 where
  pub pending : Option Flushed
  pub woken : Option (List Completion)

abbrev pub flush_if : Option Flushed → ZcEgress → ZcEgress
flush_if none e = e
flush_if (some f) e = flush f e

abbrev pub reap_if : Option (List Completion) → ZcEgress → ZcEgress
reap_if none e = e
reap_if (some cs) e = reap cs e

unfoldable pub reap_wait : Waited → ZcEgress → ZcEgress
reap_wait r e = reap_if r.woken (flush_if r.pending e)
