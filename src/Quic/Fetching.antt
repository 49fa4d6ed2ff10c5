-- ===== src/Quic/Fetching.antt =====
-- recv_file of src/transport/quic_transport.cpp puts the next bytes of the stream into the file.
use embr.Base.{
  Bool, Bool-cases, List, Option, Result, [], ap, append-nil, arith, closed, err, false,
  if◌then◌else◌, inl, inr, leb, leb→le, length, length-take, none, ok, out_of_fuel, pump_failed,
  refl, some, sym, take-append-drop, true, ℕ, ◌++◌, ◌<◌, ◌==◌, ◌||◌, ◌∙◌, ◌∷◌, ◌≡◌, ◌≤◌,
}
use embr.Exec.{Exec, bind-eq-ok, throw, ◌>>=◌}
use embr.Protocol.{Bytes, u64_mod}
use embr.Quic.{Dest, QuicTransport}
use embr.Quic.Cycle.{pump_once-Grows}
use embr.Quic.Grows.{
  Always, Always-bind, Always-choose, Always-if, DestFits, Grows, Grows-refl, len_of,
}
use embr.Quic.Pump.{Pump, pump_once}
use embr.Quic.Stream.{begin_dest, dest_loop, end_dest, got_of, landed_in, quic_recv_file}

pub dest_loop-Grows : (ps : List Pump) (len : ℕ) → Always (dest_loop ps len)
unfolding dest_loop
dest_loop-Grows [] len q =
    Always-if (leb len (got_of q.recv_dest)) (λ s. (ok tt, s))
      (λ s. if q.stream_fin_received || q.closed_ then (err closed, s) else (err out_of_fuel, s))
      Grows-refl
      (Always-if (q.stream_fin_received || q.closed_) (λ s. (err closed, s))
        (λ s. (err out_of_fuel, s)) Grows-refl Grows-refl)
      q
dest_loop-Grows (p ∷ ps) len q =
    let next : Bool → Exec QuicTransport (Unit {0}) =
      λ b. if b then dest_loop ps len else throw pump_failed in
    Always-if (leb len (got_of q.recv_dest)) (λ s. (ok tt, s))
      (λ s.
        if q.stream_fin_received || q.closed_ then (err closed, s) else (pump_once p >>= next) s)
      Grows-refl
      (Always-if (q.stream_fin_received || q.closed_) (λ s. (err closed, s)) (pump_once p >>= next)
        Grows-refl
        (Always-bind (pump_once p) next (pump_once-Grows p) (
          Always-choose (dest_loop ps len) (throw pump_failed) (dest_loop-Grows ps len)
            Grows-refl)))
      q

full_after :
    (loop : Exec QuicTransport (Unit {0})) (len : ℕ) (b : Bool) (u s : QuicTransport)
    → (loop u ≡ (ok tt, s) → len ≤ got_of s.recv_dest)
    → (if b then loop else throw pump_failed) u ≡ (ok tt, s)
    → len ≤ got_of s.recv_dest
full_after loop len true u s ih rest = ih rest
full_after loop len false u s ih rest = absurd (cc)

-- It returns once the bytes are there.
dest_loop-full :
    (ps : List Pump) (len : ℕ) (q s : QuicTransport)
    → dest_loop ps len q ≡ (ok tt, s)
    → len ≤ got_of s.recv_dest
unfolding dest_loop
dest_loop-full [] len q s e = elim (Bool-cases (leb len (got_of q.recv_dest))) [
  | inl full ↦ ground (arith, leb→le len (got_of q.recv_dest) full)
  | inr short ↦ absurd (ground arith)
]
dest_loop-full (p ∷ ps) len q s e =
    let next : Bool → Exec QuicTransport (Unit {0}) =
      λ b. if b then dest_loop ps len else throw pump_failed in
    elim (Bool-cases (leb len (got_of q.recv_dest))) [
      | inl full ↦ ground (arith, leb→le len (got_of q.recv_dest) full)
      | inr short ↦ elim (Bool-cases (q.stream_fin_received || q.closed_)) [
        | inl over ↦ absurd (ground arith)
        | inr going ↦
            let stepped : dest_loop (p ∷ ps) len q ≡ (pump_once p >>= next) q =
              rw (short, going) refl in
            let (b, u, pumped, rest) = bind-eq-ok (pump_once p) next q (sym stepped ∙ e) in
            full_after (λ v. dest_loop ps len v) len b u s (dest_loop-full ps len u s) rest
      ]
    ]

-- What a call leaves: its bytes and the buffered ones are those that were there and that came.
pub record FileInOrder (len : ℕ) (q : QuicTransport) (r : Result (Unit {0})) (bytes : Bytes)
    (q' : QuicTransport) : Type 0 where
  pub more : Bytes
  pub delivered_is : q'.delivered ≡ q.delivered ++ more
  pub split : bytes ++ q'.recv_buf ≡ q.recv_buf ++ more
  pub inside : length bytes ≤ len
  pub all_if_ok : r ≡ ok tt → length bytes ≡ len

fits_inside :
    (len : ℕ) (d : Option Dest)
    → len_of d ≡ some len
    → DestFits d
    → (length (landed_in d) ≤ len) × (got_of d ≡ length (landed_in d))
fits_inside len none e f = absurd (cc)
fits_inside len (some d) e (f, g) = (ground arith, refl)

module _ (len : ℕ) (q : QuicTransport) (small : len < u64_mod) where
  fetched-FileInOrder :
      (r : Result (Unit {0})) (s : QuicTransport)
      → Grows (begin_dest len q) s
      → (r ≡ ok tt → len ≤ got_of s.recv_dest)
      → FileInOrder len q r (landed_in s.recv_dest) (record s { recv_dest = none })
  fetched-FileInOrder r s g full =
      let (inside, counted) =
        fits_inside len s.recv_dest g.dest_same
          (g.dest_fits (omega (arith, length-take len q.recv_buf), small)) in
      record {
        more = g.more;
        delivered_is = g.delivered_is;
        split = g.waiting_is ∙ ap (λ (x : Bytes). x ++ g.more) (take-append-drop len q.recv_buf);
        inside = inside;
        all_if_ok = λ e. omega (arith, inside, counted, full e);
      }

  run-FileInOrder :
      (r : Result (Unit {0}) × QuicTransport)
      → Grows (begin_dest len q) r.1
      → (r.0 ≡ ok tt → len ≤ got_of r.1.recv_dest)
      → (let (a, (bytes, q')) = end_dest len r in FileInOrder len q a bytes q')
  run-FileInOrder (r, s) g full = fetched-FileInOrder r s g full

-- For a length below 2^64 and a file that can be mapped, whatever the pumps meet: the bytes that
-- recv_file has put into the mapping, followed by the buffered bytes that it leaves, are the bytes
-- that were buffered followed by those delivered meanwhile; they never reach past the length, and
-- fill it if the call returns.
pub quic_recv_file-FileInOrder :
    (ps : List Pump) (len : ℕ) (q : QuicTransport)
    → len < u64_mod
    → (let (r, (bytes, q')) = quic_recv_file true ps len q in FileInOrder len q r bytes q')
unfolding quic_recv_file
quic_recv_file-FileInOrder ps len q small = elim (Bool-cases (len == 0)) [
  | inl zero_len ↦ rw zero_len (record {
    more = [];
    delivered_is = sym (append-nil q.delivered);
    split = sym (append-nil q.recv_buf);
    inside = omega arith;
    all_if_ok = λ _. ground arith;
  })
  | inr some_len ↦ rw some_len (
      run-FileInOrder len q small (dest_loop ps len (begin_dest len q))
        (dest_loop-Grows ps len (begin_dest len q))
        (λ e.
          dest_loop-full ps len (begin_dest len q) (dest_loop ps len (begin_dest len q)).1
            (ap (λ (x : Result (Unit {0})). (x, (dest_loop ps len (begin_dest len q)).1)) e)))
]
