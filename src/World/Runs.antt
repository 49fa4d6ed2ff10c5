-- ===== src/World/Runs.antt =====
-- Actions that receive and send on the connection of a world, and write files.
use embr.Base.{
  Bool, Error, List, Option, Result, [], ap, append-nil, append_assoc, ok, sym, true, ℕ, ◌++◌, ◌∙◌,
  ◌≡◌, ◌≤◌,
}
use embr.Exec.{Exec, bind-ok, lift, pure, require, ◌>>=◌, ◌>>◌}
use embr.Protocol.{Bytes}
use embr.Transport.{Acceptance, Arrival}
use embr.Transport.Exact.{IsOpen, IsReady, rounds, stream}
use embr.World.{World}
use embr.World.Talk.{Peer, Talks, Talks-pure}

-- The action returns `a`, has received what stood before `rest`, has sent `out`, and leaves the
-- files `d`.
pub record Runs {A : Type 0} (m : Exec World A) (a : A) (d : Bytes → Option Bytes)
    (rest out : Bytes) (n : ℕ) (w : World) : Type 0 where
  pub heard : List Arrival
  pub room : List Acceptance
  pub runs :
      m w
      ≡ (ok a, record w { arrivals = heard; acceptances = room; wire = w.wire ++ out; disk = d })
  pub is_open : IsOpen heard
  pub delivers : stream heard ≡ rest
  pub is_ready : IsReady room
  pub has_room : n ≤ rounds room

module _ {A : Type 0} {m : Exec World A} {a : A} {rest out : Bytes} {n : ℕ} {w : World} where
  pub Runs-Peer :
      {d : Bytes → Option Bytes} (t : Runs m a d rest out n w)
      → Peer
          (record w { arrivals = t.heard; acceptances = t.room; wire = w.wire ++ out; disk = d })
          rest
          n
  Runs-Peer t = record {
    incoming = record { is_open = t.is_open; delivers = t.delivers };
    ready = record { is_ready = t.is_ready; has_room = t.has_room };
  }

  -- A conversation leaves the files.
  pub Talks-Runs : Talks m a rest out n w → Runs m a w.disk rest out n w
  Talks-Runs t = record {
    heard = t.heard;
    room = t.room;
    runs = t.runs;
    is_open = t.is_open;
    delivers = t.delivers;
    is_ready = t.is_ready;
    has_room = t.has_room;
  }

-- An action on the files alone.
pub Runs-files :
    {A : Type 0} {m : Exec World A} {a : A} {rest : Bytes} {n : ℕ} {w : World}
    (d : Bytes → Option Bytes)
    → m w ≡ (ok a, record w { disk = d })
    → Peer w rest n
    → Runs m a d rest [] n w
Runs-files {a} {w} d e p = record {
  heard = w.arrivals;
  room = w.acceptances;
  runs = e ∙ ap (λ (x : Bytes). (ok a, record w { wire = x; disk = d })) (sym (append-nil w.wire));
  is_open = p.incoming.is_open;
  delivers = p.incoming.delivers;
  is_ready = p.ready.is_ready;
  has_room = p.ready.has_room;
}

pub Runs-pure :
    {A : Type 0} {a : A} {rest : Bytes} {n : ℕ} {w : World}
    → Peer w rest n
    → Runs (pure a) a w.disk rest [] n w
Runs-pure p = Talks-Runs (Talks-pure p)

-- One action after another: the second begins where the first ends.
pub Runs-bind :
    {A B : Type 0} {m : Exec World A} (f : A → Exec World B) {a : A} {b : B}
    {d e : Bytes → Option Bytes} {mid rest out out' : Bytes} {n n' : ℕ} {w : World}
    → (t : Runs m a d mid out n' w)
    → Runs
        (f a)
        b
        e
        rest
        out'
        n
        (record w { arrivals = t.heard; acceptances = t.room; wire = w.wire ++ out; disk = d })
    → Runs (m >>= f) b e rest (out ++ out') n w
Runs-bind {m} f {b = b} {e = e} {out = out} {out' = out'} {w = w} t u = record {
  heard = u.heard;
  room = u.room;
  runs =
      bind-ok m f t.runs
      ∙ u.runs
      ∙ ap
          (λ (x : Bytes).
            (ok b, record w { arrivals = u.heard; acceptances = u.room; wire = x; disk = e }))
          (append_assoc w.wire out out');
  is_open = u.is_open;
  delivers = u.delivers;
  is_ready = u.is_ready;
  has_room = u.has_room;
}

module _ {B : Type 0} {d : Bytes → Option Bytes} {rest out : Bytes} {n : ℕ} {w : World}
    {b : B} where
  -- The action is another's at this world.
  pub Runs-as :
      (m m' : Exec World B) → m w ≡ m' w → Runs m' b d rest out n w → Runs m b d rest out n w
  Runs-as m m' e t = record {
    heard = t.heard;
    room = t.room;
    runs = e ∙ t.runs;
    is_open = t.is_open;
    delivers = t.delivers;
    is_ready = t.is_ready;
    has_room = t.has_room;
  }

  -- A guard that passes.
  pub Runs-require :
      (test : Bool) (x : Error) (m : Exec World B)
      → test ≡ true
      → Runs m b d rest out n w
      → Runs (require test x >> m) b d rest out n w
  Runs-require test x m e t = Runs-as (require test x >> m) m (rw e) t

module _ {A B : Type 0} {d : Bytes → Option Bytes} {rest out : Bytes} {n : ℕ} {w : World}
    {b : B} where
  -- A pure computation that returns.
  pub Runs-lift :
      (r : Result A) (f : A → Exec World B) {a : A}
      → r ≡ ok a
      → Runs (f a) b d rest out n w
      → Runs (lift r >>= f) b d rest out n w
  Runs-lift r f e t = Runs-as (lift r >>= f) (f _) (rw e) t
