-- ===== src/Quic/Grows.antt =====
-- What any cycle of src/transport/quic_transport.cpp leaves of the receiving side: the bytes that
-- ngtcp2 delivers come behind those that are there.
use embr.Base.{
  Bool, Option, Result, [], ap, append-nil, append_assoc, ap₂, arith, drop, err, false,
  if◌then◌else◌, length, length-append, length-take, none, not, ok, one_if, refl, some, subst, sym,
  take, take-append-drop, true, ℕ, ◌++◌, ◌+◌, ◌<◌, ◌∙◌, ◌∷◌, ◌≡◌, ◌≤◌,
}
use embr.Exec.{Exec, continue, ◌>>=◌}
use embr.Protocol.{Bytes, u64_mod}
use embr.Quic.{Dest, QuicTransport, land, on_recv_stream_data, taken_by}
use embr.Quic.Stream.{landed_in, stream_missing}

-- The bytes that have not been returned yet, in the order of the stream.
abbrev pub waiting : QuicTransport → Bytes
waiting q = landed_in q.recv_dest ++ q.recv_buf

abbrev pub len_of : Option Dest → Option ℕ
len_of none = none
len_of (some d) = some d.dest_len

-- The bytes that have been put into the mapping are inside it.
abbrev pub DestFits : Option Dest → Type 0
DestFits none = Unit {0}
DestFits (some d) = (length d.landed ≤ d.dest_len) × (d.dest_len < u64_mod)

pub record Grows (q q' : QuicTransport) : Type 0 where
  pub more : Bytes
  pub delivered_is : q'.delivered ≡ q.delivered ++ more
  pub waiting_is : waiting q' ≡ waiting q ++ more
  pub dest_same : len_of q'.recv_dest ≡ len_of q.recv_dest
  pub dest_fits : DestFits q.recv_dest → DestFits q'.recv_dest
  pub accepted_same : q'.accepted_bytes ≡ q.accepted_bytes
  pub offset_same : q'.stream_offset ≡ q.stream_offset
  pub stream_stays : stream_missing q.stream_id ≡ false → stream_missing q'.stream_id ≡ false
  pub stays_closed : q.closed_ ≡ true → q'.closed_ ≡ true
  pub closes_once : q'.closes + one_if (not q'.closed_) ≤ q.closes + one_if (not q.closed_)

pub Grows-refl : (q : QuicTransport) → Grows q q
Grows-refl q = record {
  more = [];
  delivered_is = sym (append-nil q.delivered);
  waiting_is = sym (append-nil (waiting q));
  dest_same = refl;
  dest_fits = λ h. h;
  accepted_same = refl;
  offset_same = refl;
  stream_stays = λ h. h;
  stays_closed = λ h. h;
  closes_once = omega arith;
}

pub Grows-trans : {q r s : QuicTransport} → Grows q r → Grows r s → Grows q s
Grows-trans {q} g h = record {
  more = g.more ++ h.more;
  delivered_is =
      h.delivered_is
      ∙ ap (λ (x : Bytes). x ++ h.more) g.delivered_is
      ∙ append_assoc q.delivered g.more h.more;
  waiting_is =
      h.waiting_is
      ∙ ap (λ (x : Bytes). x ++ h.more) g.waiting_is
      ∙ append_assoc (waiting q) g.more h.more;
  dest_same = h.dest_same ∙ g.dest_same;
  dest_fits = λ f. h.dest_fits (g.dest_fits f);
  accepted_same = h.accepted_same ∙ g.accepted_same;
  offset_same = h.offset_same ∙ g.offset_same;
  stream_stays = λ c. h.stream_stays (g.stream_stays c);
  stays_closed = λ c. h.stays_closed (g.stays_closed c);
  closes_once = omega (arith, g.closes_once, h.closes_once);
}

-- A change of the egress, the stream's number, the kept blocks and the flags alone.
pub record SameStream (q q' : QuicTransport) : Type 0 where
  pub delivered_same : q'.delivered ≡ q.delivered
  pub buf_same : q'.recv_buf ≡ q.recv_buf
  pub dest_same : q'.recv_dest ≡ q.recv_dest
  pub accepted_same : q'.accepted_bytes ≡ q.accepted_bytes
  pub offset_same : q'.stream_offset ≡ q.stream_offset
  pub stream_stays : stream_missing q.stream_id ≡ false → stream_missing q'.stream_id ≡ false
  pub stays_closed : q.closed_ ≡ true → q'.closed_ ≡ true
  pub closes_once : q'.closes + one_if (not q'.closed_) ≤ q.closes + one_if (not q.closed_)

pub SameStream-Grows : {q q' : QuicTransport} → SameStream q q' → Grows q q'
SameStream-Grows {q} {q'} s = record {
  more = [];
  delivered_is = s.delivered_same ∙ sym (append-nil q.delivered);
  waiting_is =
      ap₂ (λ (d : Option Dest) (b : Bytes). landed_in d ++ b) s.dest_same s.buf_same
      ∙ sym (append-nil (waiting q));
  dest_same = ap len_of s.dest_same;
  dest_fits = λ f. subst DestFits (sym s.dest_same) f;
  accepted_same = s.accepted_same;
  offset_same = s.offset_same;
  stream_stays = s.stream_stays;
  stays_closed = s.stays_closed;
  closes_once = s.closes_once;
}

-- The rules by which an action is followed.
abbrev pub Always : {A : Type 0} → Exec QuicTransport A → Type 0
Always m = (q : QuicTransport) → Grows q (m q).1

Grows-continue :
    {A B : Type 0} {q : QuicTransport} (r : Result A × QuicTransport) (f : A → Exec QuicTransport B)
    → Grows q r.1
    → ((a : A) → Always (f a))
    → Grows q (continue r f).1
Grows-continue (ok a, q') f g h = Grows-trans g (h a q')
Grows-continue (err x, q') f g h = g

pub Always-bind :
    {A B : Type 0} (m : Exec QuicTransport A) (f : A → Exec QuicTransport B)
    → Always m
    → ((a : A) → Always (f a))
    → Always (m >>= f)
Always-bind m f g h q = Grows-continue (m q) f (g q) h

pub Always-if :
    {A : Type 0} (b : Bool) (m n : Exec QuicTransport A)
    → Always m
    → Always n
    → (q : QuicTransport) → Grows q (if b then m q else n q).1
Always-if true m n g h q = g q
Always-if false m n g h q = h q

pub Always-choose :
    {A : Type 0} (m n : Exec QuicTransport A)
    → Always m
    → Always n
    → (b : Bool) → Always (if b then m else n)
Always-choose m n g h true = g
Always-choose m n g h false = h

waiting-land :
    (d : Option Dest) (buf bytes : Bytes)
    → landed_in (land (taken_by d buf (length bytes)) bytes d)
        ++ (buf ++ drop (taken_by d buf (length bytes)) bytes)
      ≡ (landed_in d ++ buf) ++ bytes
waiting-land none buf bytes = refl
waiting-land (some d) (b ∷ bs) bytes =
    rw (append-nil d.landed) (sym (append_assoc d.landed (b ∷ bs) bytes))
waiting-land (some d) [] bytes =
    let n = taken_by (some d) [] (length bytes) in
    append_assoc d.landed (take n bytes) (drop n bytes)
    ∙ ap (λ (x : Bytes). d.landed ++ x) (take-append-drop n bytes)
    ∙ ap (λ (x : Bytes). x ++ bytes) (sym (append-nil d.landed))

len_of-land : (n : ℕ) (bytes : Bytes) (d : Option Dest) → len_of (land n bytes d) ≡ len_of d
len_of-land n bytes none = refl
len_of-land n bytes (some d) = refl

DestFits-land :
    (d : Option Dest) (buf bytes : Bytes)
    → DestFits d
    → DestFits (land (taken_by d buf (length bytes)) bytes d)
DestFits-land none buf bytes f = tt
DestFits-land (some d) (b ∷ bs) bytes (f, g) =
    (omega (arith, length-append d.landed (take 0 bytes), f), g)
DestFits-land (some d) [] bytes (f, g) =
    let n = taken_by (some d) [] (length bytes) in
    (omega (arith, length-append d.landed (take n bytes), length-take n bytes, f, g), g)

pub on_recv_stream_data-Grows :
    (fin : Bool) (bytes : Bytes) (q : QuicTransport) → Grows q (on_recv_stream_data fin bytes q)
unfolding on_recv_stream_data
on_recv_stream_data-Grows fin bytes q = record {
  more = bytes;
  delivered_is = refl;
  waiting_is = waiting-land q.recv_dest q.recv_buf bytes;
  dest_fits = DestFits-land q.recv_dest q.recv_buf bytes;
  dest_same = len_of-land (taken_by q.recv_dest q.recv_buf (length bytes)) bytes q.recv_dest;
  accepted_same = refl;
  offset_same = refl;
  stream_stays = λ h. h;
  stays_closed = λ h. h;
  closes_once = omega arith;
}
