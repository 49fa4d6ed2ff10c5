-- ===== src/Setup/Settled.antt =====
-- What it is for nothing to be left held, and for the socket to be closed once: the predicates on
-- what src/transport/quic_client.cpp, quic_server.cpp and the other factories did.
use embr.Base.{Bool, List, Result, [], err, false, ok, refl, true, ◌&&◌, ◌==◌, ◌∷◌, ◌≡◌}
use embr.Setup.{
  Ledger, Resource, Standing, chunk_memory, egress_ring, frag_memory, gone, is_settled, kept,
  quic_conn, release_all, releases, ring, socket, standing, tls_context, tls_session,
}
use embr.Setup.Egress.{PoolState, QuicCall, destructor, held_by}

abbrev pub every : (Standing → Bool) → Ledger → Bool
every p l =
    p (standing socket l)
    && (p (standing tls_context l)
        && (p (standing tls_session l)
            && (p (standing quic_conn l)
                && (p (standing egress_ring l)
                    && (p (standing ring l)
                        && (p (standing chunk_memory l) && p (standing frag_memory l)))))))

abbrev is_held : Standing → Bool
is_held kept = true
is_held _ = false

abbrev pub all_held : List Resource → Ledger → Bool
all_held [] l = true
all_held (r ∷ rs) l = is_held (standing r l) && all_held rs l

-- After an error nothing is held; after a return exactly `owned` is, so that its release settles
-- all. Nothing is released that is not held.
abbrev pub is_tidy {ℓ} : {A : Type ℓ} → List Resource → Result A × Ledger → Bool
is_tidy owned (err e, l) = every is_settled l
is_tidy owned (ok a, l) = all_held owned l && every is_settled (release_all owned l)

-- The same of a factory of QuicTransport, whose destructor may make and drop the pool before it
-- releases what is held.
abbrev pub is_tidy_quic : (QuicCall → Bool) → Result PoolState × Ledger → Bool
is_tidy_quic works (err e, l) = every is_settled l
is_tidy_quic works (ok e, l) =
    all_held (held_by true e) l
    && (every is_settled (release_all (held_by true e) l)
        && every is_settled (destructor works true e l))

abbrev is_gone : Standing → Bool
is_gone gone = true
is_gone _ = false

-- Nothing is held, and the socket was closed exactly once.
abbrev pub is_over : Ledger → Bool
is_over l = every is_settled l && (is_gone (standing socket l) && (releases socket l == 1))

-- What is_tidy_quic says, of a socket that was acquired.
abbrev pub is_over_quic : (QuicCall → Bool) → Result PoolState × Ledger → Bool
is_over_quic works (err e, l) = is_over l
is_over_quic works (ok e, l) =
    all_held (held_by true e) l
    && (is_over (release_all (held_by true e) l) && is_over (destructor works true e l))

pub both : (a : Bool) {b : Bool} → a && b ≡ true → (a ≡ true) × (b ≡ true)
both true h = (refl, h)
both false h = absurd (cc)

pub is_over_quic-tidy :
    (works : QuicCall → Bool) (r : Result PoolState × Ledger)
    → is_over_quic works r ≡ true
    → is_tidy_quic works r ≡ true
is_over_quic-tidy works (ok e, l) h =
    let (there, rest) = both (all_held (held_by true e) l) h in
    let (freed, destroyed) = both (is_over (release_all (held_by true e) l)) rest in
    let settled = (both (every is_settled (release_all (held_by true e) l)) freed).0 in
    let over = (both (every is_settled (destructor works true e l)) destroyed).0 in
    rw (there, settled, over) refl
is_over_quic-tidy works (err x, l) h = (both (every is_settled l) h).0
