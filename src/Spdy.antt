-- ===== src/Spdy.antt =====
-- engine/native/spdy.go: the goroutine that makes a session for a tunnel.
pub mod Result
use Prim.Native.String.{String}
use gbalancer.Prelude.{ℕ, Bool, false, List, [], ◌∷◌, Option, none, some, if◌then◌else◌}
use gbalancer.Texts.{split}
use gbalancer.Backend.{ConnTunnel, GoError, Dialed, connected, refused}
use gbalancer.State.{Session}

-- What the goroutine calls: net.DialTimeout with a host and a port, the connection's local address if
-- it is a TCP address, and spdystream's NewConnection and Ping.
pub record Remote : Type 0 where
  pub dial : String → String → Dialed
  pub local_addr : ℕ → Option String
  pub new_connection : ℕ → Option ℕ
  pub ping : ℕ → Bool

-- NewSpdySession
abbrev pub new_spdy_session : (backend index : ℕ) → Session
new_spdy_session backend index = record { backend = backend; spdy = none; connindex = index }

-- NewConnTunnel
unfoldable pub new_conn_tunnel : Remote → Option ℕ → Option ConnTunnel
new_conn_tunnel net none = none
new_conn_tunnel net (some conn) = elim (net.local_addr conn) [
  | none ↦ none
  | some tcpaddr ↦ elim (net.new_connection conn) [
    | none ↦ none
    | some spdy ↦
        if net.ping spdy
        then some (record { conn = some spdy; tcp_addr = some tcpaddr; switching = false })
        else none
  ]
]

-- NewStreamConn, which reports no error for a connection that gives no tunnel
unfoldable pub new_stream_conn : Remote → String → String → Option ConnTunnel × Option GoError
unfolding new_conn_tunnel
new_stream_conn net addr port = elim (net.dial addr port) [
  | refused e ↦ (none, some e)
  | connected c ↦ (new_conn_tunnel net (some c), none)
]

-- `addrs[0]`; strings.Split gives at least one part
abbrev pub host : String → String
host address = elim (split b':' address) [ [] ↦ "" | a ∷ rest ↦ a ]

-- CreateSpdySession for a backend's address, second by second: the session that is sent on the channel
-- `ready`, and the seconds that are left
unfoldable pub create_spdy_session :
    String → String → Session → List Remote → Option Session × List Remote
unfolding new_stream_conn
create_spdy_session port address request [] = (none, [])
create_spdy_session port address request (net ∷ later) =
    let rest = create_spdy_session port address request later in
    let (conn, err) = new_stream_conn net (host address) port in
    elim err [ none ↦ (some (record request { spdy = conn }), later) | some e ↦ rest ]
