-- ===== src/World/Stream.antt =====
-- Exact I/O on a world: what a caller needs to know of the connection.
use embr.Base.{
  List, [], ap, append_assoc, arith, drop, drop-append, length, length-append, ok, refl, take,
  take-append, ℕ, ◌++◌, ◌+◌, ◌∙◌, ◌≡◌, ◌≤◌,
}
use embr.Exec.{Exec, bind-ok, pure, ◌>>=◌, ◌>>◌}
use embr.Protocol.{Bytes}
use embr.Transport.{Acceptance, Arrival}
use embr.Transport.Exact.{IsOpen, IsReady, recv_loop-Received, rounds, send_loop-SentAll, stream}
use embr.World.{World, recv_exact, send_exact}

-- The connection will deliver `bs`.
pub record Incoming (w : World) (bs : Bytes) : Type 0 where
  pub is_open : IsOpen w.arrivals
  pub delivers : stream w.arrivals ≡ bs

-- The action returns `a`, has taken the bytes before `rest`, and changed nothing else.
pub record Takes {A : Type 0} (m : Exec World A) (a : A) (rest : Bytes) (w : World) : Type 0 where
  pub after : List Arrival
  pub runs : m w ≡ (ok a, record w { arrivals = after })
  pub is_open : IsOpen after
  pub delivers : stream after ≡ rest

pub Takes-Incoming :
    {A : Type 0} {m : Exec World A} {a : A} {rest : Bytes} {w : World}
    → (t : Takes m a rest w) → Incoming (record w { arrivals = t.after }) rest
Takes-Incoming t = record { is_open = t.is_open; delivers = t.delivers }

-- The bytes at the head of what will be delivered are received.
pub recv_exact-Takes :
    {w : World} (bs rest : Bytes)
    → Incoming w (bs ++ rest)
    → Takes (recv_exact (length bs)) bs rest w
unfolding recv_exact
recv_exact-Takes {w} bs rest i =
    let r =
      recv_loop-Received w.arrivals [] (length bs) i.is_open
        (omega (arith, ap length i.delivers, length-append bs rest)) in
    record {
      after = r.rest;
      runs = rw r.runs (
          ap (λ (x : Bytes). (ok x, record w { arrivals = r.rest }))
            (ap (take (length bs)) i.delivers ∙ take-append bs rest));
      is_open = r.open_rest;
      delivers = r.behind ∙ ap (drop (length bs)) i.delivers ∙ drop-append bs rest;
    }

-- The connection takes n more bytes.
pub record Ready (w : World) (n : ℕ) : Type 0 where
  pub is_ready : IsReady w.acceptances
  pub has_room : n ≤ rounds w.acceptances

-- The action returns, has sent `bs`, and changed nothing else; n more bytes can be sent.
pub record Sends (m : Exec World (Unit {0})) (bs : Bytes) (n : ℕ) (w : World) : Type 0 where
  pub after : List Acceptance
  pub runs : m w ≡ (ok tt, record w { acceptances = after; wire = w.wire ++ bs })
  pub is_ready : IsReady after
  pub has_room : n ≤ rounds after

pub send_exact-Sends :
    {w : World} (bs : Bytes) (n : ℕ) → Ready w (length bs + n) → Sends (send_exact bs) bs n w
unfolding send_exact
send_exact-Sends {w} bs n r =
    let s = send_loop-SentAll w.acceptances bs r.is_ready (omega (arith, r.has_room)) in
    record {
      after = s.rest;
      runs = rw s.runs;
      is_ready = s.ready_rest;
      has_room = omega (arith, s.enough_rest, r.has_room);
    }

-- One action after another.
pub Takes-bind :
    {A B : Type 0} {m : Exec World A} (f : A → Exec World B) {a : A} {b : B} {mid rest : Bytes}
    {w : World}
    → (t : Takes m a mid w) → Takes (f a) b rest (record w { arrivals = t.after })
    → Takes (m >>= f) b rest w
Takes-bind {m} f t u = record {
  after = u.after;
  runs = bind-ok m f t.runs ∙ u.runs;
  is_open = u.is_open;
  delivers = u.delivers;
}

pub Takes-pure :
    {A : Type 0} {a : A} {rest : Bytes} {w : World} → Incoming w rest → Takes (pure a) a rest w
Takes-pure {w} i = record {
  after = w.arrivals;
  runs = refl;
  is_open = i.is_open;
  delivers = i.delivers;
}

pub Sends-Ready :
    {m : Exec World (Unit {0})} {bs : Bytes} {n : ℕ} {w : World}
    → (s : Sends m bs n w) → Ready (record w { acceptances = s.after; wire = w.wire ++ bs }) n
Sends-Ready s = record { is_ready = s.is_ready; has_room = s.has_room }

pub Sends-then :
    {m m' : Exec World (Unit {0})} {bs bs' : Bytes} {n n' : ℕ} {w : World}
    → (s : Sends m bs n' w)
    → Sends m' bs' n (record w { acceptances = s.after; wire = w.wire ++ bs })
    → Sends (m >> m') (bs ++ bs') n w
Sends-then {m} {m'} {bs} {bs'} {w = w} s u = record {
  after = u.after;
  runs =
      bind-ok m (λ _. m') s.runs
      ∙ u.runs
      ∙ ap (λ (x : Bytes). (ok tt, record w { acceptances = u.after; wire = x }))
          (append_assoc w.wire bs bs');
  is_ready = u.is_ready;
  has_room = u.has_room;
}
