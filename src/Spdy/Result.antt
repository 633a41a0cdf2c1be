-- ===== src/Spdy/Result.antt =====
-- The session that comes out, and what the scheduler does with one that has no tunnel.
use Prim.Native.String.{String}
use gbalancer.Prelude.Dict.{lookup}
use gbalancer.Scheduler.Invariant.{Inv}
use gbalancer.Scheduler.Ready.{on_ready-Inv, Enlisted}
use gbalancer.Prelude.{ℕ, true, false, ◌<◌, ◌≡◌, refl, ap, ◌∙◌, List, [], ◌∷◌, ◌++◌, none, some}
use gbalancer.Prelude.Lists.{get_elem?}
use gbalancer.Backend.{Backend, ConnTunnel, GoError, connected, refused, switch_spdy_conn}
use gbalancer.State.{Session, Scheduler, Env, Ends, died}
use gbalancer.Scheduler.{closing, on_ready}
use gbalancer.Spdy.{
  Remote, new_spdy_session, new_conn_tunnel, new_stream_conn, host, create_spdy_session,
}

-- the dial fails in each of these seconds
abbrev pub AllRefused : String → String → List Remote → Type 0
AllRefused addr port [] = Unit {0}
AllRefused addr port (net ∷ rest) =
    ((e : GoError) × (net.dial addr port ≡ refused e)) × AllRefused addr port rest

new_stream_conn_connected :
    (net : Remote) (addr port : String) (c : ℕ)
    → net.dial addr port ≡ connected c
    → new_stream_conn net addr port ≡ (new_conn_tunnel net (some c), none)
unfolding new_stream_conn
new_stream_conn_connected net addr port c dialled = rw (new_stream_conn, dialled) refl

new_stream_conn_refused :
    (net : Remote) (addr port : String) (e : GoError)
    → net.dial addr port ≡ refused e
    → new_stream_conn net addr port ≡ (none, some e)
unfolding new_stream_conn
new_stream_conn_refused net addr port e away = rw (new_stream_conn, away) refl

-- CreateSpdySession, where some second's dial succeeds, ends in the first such second, and hands over whatever
-- NewConnTunnel makes of that connection, nil included.
create_spdy_session-first :
    (port address : String) (x : Session) (before later : List Remote) (net : Remote) (c : ℕ)
    → AllRefused (host address) port before
    → net.dial (host address) port ≡ connected c
    → create_spdy_session port address x (before ++ net ∷ later)
      ≡ (some (record x { spdy = new_conn_tunnel net (some c) }), later)
unfolding create_spdy_session
create_spdy_session-first port address x [] later net c h dialled =
    let made = new_stream_conn_connected net (host address) port c dialled in
    rw (create_spdy_session, made) (ap (λ p. (some (record x { spdy = p.0 }), later)) made)
create_spdy_session-first port address x (n ∷ before) later net c ((e, away), h) dialled =
    rw (create_spdy_session, new_stream_conn_refused n (host address) port e away)
      (create_spdy_session-first port address x before later net c h dialled)

switch_to_nil :
    (b : Backend) (index : ℕ) (from : ConnTunnel)
    → get_elem? b.tunnel index ≡ some from
    → switch_spdy_conn b index none ≡ (from.conn, none)
unfolding switch_spdy_conn
switch_to_nil b index from there = rw (switch_spdy_conn, there) refl

-- If no tunnel comes of the connection, the session of CreateSpdySession makes the case of newTunnelChan
-- panic, after it has closed the connection that the backend had and goes on having.
pub failed_handshake :
    (env : Env) (s : Scheduler) (port address : String) (x : Session) (later : List Remote)
    (net : Remote) (c : ℕ) (from : ConnTunnel)
    → net.dial (host address) port ≡ connected c
    → new_conn_tunnel net (some c) ≡ none
    → get_elem? (s.pool.mem x.backend).tunnel x.connindex ≡ some from
    → (create_spdy_session port address x (net ∷ later) ≡ (some (record x { spdy = none }), later))
      × (on_ready env s (record x { spdy = none })
          ≡ died (record s { effects = s.effects ++ closing from.conn }))
unfolding on_ready
failed_handshake env s port address x later net c from dialled lost there = (
  create_spdy_session-first port address x [] later net c tt dialled
      ∙ ap (λ o. (some (record x { spdy = o }), later)) lost,
  (let switched = switch_to_nil (s.pool.mem x.backend) x.connindex from there in
      rw (on_ready, switched)
        (ap (λ p. died (record s { effects = s.effects ++ closing p.0 })) switched)),
)

-- If the state satisfies the invariant, has room on the heap and the backend has the tunnel's place,
-- then the first second in which the dial succeeds and, on that connection, spdystream works and
-- answers a ping, gives a session that makes the case of newTunnelChan return: the invariant is
-- kept, and if the backend's address was not registered, it is then, and no request waits any longer.
pub session-Enlisted :
    (env : Env) (s : Scheduler) (port address : String) (b index : ℕ) (before later : List Remote)
    (net : Remote) (c spdy : ℕ) (tcpaddr : String) (from : ConnTunnel)
    → AllRefused (host address) port before
    → net.dial (host address) port ≡ connected c
    → net.local_addr c ≡ some tcpaddr
    → net.new_connection c ≡ some spdy
    → net.ping spdy ≡ true
    → Inv s
    → b < s.next_backend
    → s.pool.len < s.pool.cap
    → get_elem? (s.pool.mem b).tunnel index ≡ some from
    → (x : Session) × (create_spdy_session port address
          (new_spdy_session b index)
          (before ++ net ∷ later)
        ≡ (some x, later))
      × Ends
          (λ t.
            Inv t
            × (lookup (s.pool.mem b).address s.backends ≡ none → t.pending ≡ [])
            × Enlisted s b t)
          (on_ready env s x)
unfolding new_conn_tunnel
session-Enlisted env s port address b index before later net c spdy tcpaddr from h dialled local
      made pinged i old room there =
    let to : ConnTunnel = record { conn = some spdy; tcp_addr = some tcpaddr; switching = false } in
    let tunnel : new_conn_tunnel net (some c) ≡ some to =
      rw (local, new_conn_tunnel, made, pinged) refl in
    let x : Session = record { backend = b; spdy = some to; connindex = index } in
    (
      x,
      create_spdy_session-first port address (new_spdy_session b index) before later net c h dialled
          ∙ ap (λ o. (some (record (new_spdy_session b index) { spdy = o }), later)) tunnel,
      on_ready-Inv env s i x to from refl there old room,
    )
