-- ===== src/World/Talk.antt =====
-- Actions that receive and send on the connection of a world, and change nothing else.
use embr.Base.{
  Bool, Error, List, Result, [], ap, append-nil, append_assoc, arith, false, ok, sym, true, ℕ, ◌++◌,
  ◌∙◌, ◌≡◌, ◌≤◌,
}
use embr.Exec.{Exec, bind-ok, lift, pure, require, ◌>>=◌, ◌>>◌}
use embr.Protocol.{Bytes}
use embr.Transport.{Acceptance, Arrival}
use embr.Transport.Exact.{IsOpen, IsReady, rounds, stream}
use embr.World.{World}
use embr.World.Stream.{Incoming, Ready, Sends, Takes, Takes-pure}

-- What the peer will deliver, and how much it takes.
pub record Peer (w : World) (bs : Bytes) (n : ℕ) : Type 0 where
  pub incoming : Incoming w bs
  pub ready : Ready w n

-- The action returns `a`, has received what stood before `rest`, and has sent `out`.
pub record Talks {A : Type 0} (m : Exec World A) (a : A) (rest out : Bytes) (n : ℕ) (w : World)
    : Type 0 where
  pub heard : List Arrival
  pub room : List Acceptance
  pub runs : m w ≡ (ok a, record w { arrivals = heard; acceptances = room; wire = w.wire ++ out })
  pub is_open : IsOpen heard
  pub delivers : stream heard ≡ rest
  pub is_ready : IsReady room
  pub has_room : n ≤ rounds room

module _ {A : Type 0} {m : Exec World A} {a : A} {rest out : Bytes} {n : ℕ} {w : World} where
  pub Talks-Peer :
      (t : Talks m a rest out n w)
      → Peer (record w { arrivals = t.heard; acceptances = t.room; wire = w.wire ++ out }) rest n
  Talks-Peer t = record {
    incoming = record { is_open = t.is_open; delivers = t.delivers };
    ready = record { is_ready = t.is_ready; has_room = t.has_room };
  }

pub Talks-Takes :
    {A : Type 0} {m : Exec World A} {a : A} {rest : Bytes} {n : ℕ} {w : World}
    → Takes m a rest w
    → Ready w n
    → Talks m a rest [] n w
Talks-Takes {a} {w} t r = record {
  heard = t.after;
  room = w.acceptances;
  runs =
      t.runs
      ∙ ap (λ (x : Bytes). (ok a, record w { arrivals = t.after; wire = x }))
          (sym (append-nil w.wire));
  is_open = t.is_open;
  delivers = t.delivers;
  is_ready = r.is_ready;
  has_room = r.has_room;
}

pub Talks-Sends :
    {m : Exec World (Unit {0})} {rest out : Bytes} {n : ℕ} {w : World}
    → Sends m out n w
    → Incoming w rest
    → Talks m tt rest out n w
Talks-Sends {w = w} s i = record {
  heard = w.arrivals;
  room = s.after;
  runs = s.runs;
  is_open = i.is_open;
  delivers = i.delivers;
  is_ready = s.is_ready;
  has_room = s.has_room;
}

pub Talks-pure :
    {A : Type 0} {a : A} {rest : Bytes} {n : ℕ} {w : World}
    → Peer w rest n
    → Talks (pure a) a rest [] n w
Talks-pure p = Talks-Takes (Takes-pure p.incoming) p.ready

-- One action after another: the second begins where the first ends.
pub Talks-bind :
    {A B : Type 0} {m : Exec World A} (f : A → Exec World B) {a : A} {b : B}
    {mid rest out out' : Bytes} {n n' : ℕ} {w : World}
    → (t : Talks m a mid out n' w)
    → Talks
        (f a)
        b
        rest
        out'
        n
        (record w { arrivals = t.heard; acceptances = t.room; wire = w.wire ++ out })
    → Talks (m >>= f) b rest (out ++ out') n w
Talks-bind {m} f {b = b} {out = out} {out' = out'} {w = w} t u = record {
  heard = u.heard;
  room = u.room;
  runs =
      bind-ok m f t.runs
      ∙ u.runs
      ∙ ap (λ (x : Bytes). (ok b, record w { arrivals = u.heard; acceptances = u.room; wire = x }))
          (append_assoc w.wire out out');
  is_open = u.is_open;
  delivers = u.delivers;
  is_ready = u.is_ready;
  has_room = u.has_room;
}

-- More room than is needed.
pub Peer-mono : {w : World} {bs : Bytes} (m n : ℕ) → n ≤ m → Peer w bs m → Peer w bs n
Peer-mono m n h p = record {
  incoming = p.incoming;
  ready = record { is_ready = p.ready.is_ready; has_room = omega (arith, p.ready.has_room) };
}

module _ {A B : Type 0} {rest out : Bytes} {n : ℕ} {w : World} {b : B} where
  -- A pure computation that returns.
  pub Talks-lift :
      (r : Result A) (f : A → Exec World B) {a : A}
      → r ≡ ok a
      → Talks (f a) b rest out n w
      → Talks (lift r >>= f) b rest out n w
  Talks-lift r f e t = record {
    heard = t.heard;
    room = t.room;
    runs = rw e t.runs;
    is_open = t.is_open;
    delivers = t.delivers;
    is_ready = t.is_ready;
    has_room = t.has_room;
  }

module _ {B : Type 0} {rest out : Bytes} {n : ℕ} {w : World} {b : B} where
  -- A guard that passes.
  pub Talks-require :
      (test : Bool) (x : Error) (m : Exec World B)
      → test ≡ true
      → Talks m b rest out n w
      → Talks (require test x >> m) b rest out n w
  Talks-require true x m e t = record {
    heard = t.heard;
    room = t.room;
    runs = t.runs;
    is_open = t.is_open;
    delivers = t.delivers;
    is_ready = t.is_ready;
    has_room = t.has_room;
  }
  Talks-require false x m e t = absurd (cc)

-- A conversation about the same bytes, bracketed otherwise.
pub Peer-regroup :
    {w : World} {n : ℕ} (a b c : Bytes) → Peer w ((a ++ b) ++ c) n → Peer w (a ++ (b ++ c)) n
Peer-regroup a b c p = record {
  incoming = record {
    is_open = p.incoming.is_open;
    delivers = p.incoming.delivers ∙ append_assoc a b c;
  };
  ready = p.ready;
}
