-- ===== src/Backend.antt =====
-- engine/native/backend.go: the backend object and its tunnels, which engine/native/spdy.go makes.
-- A time is a number of nanoseconds, a connection of spdystream or of net a number, and nil `none`.

pub mod Check
pub mod Forward
pub mod Race
use Prim.Native.String.{String}
use gbalancer.Prelude.{
  ℕ, zero, suc, ◌+◌, ◌-◌, ◌*◌, ◌%◌, ◌^◌, Bool, true, false, not, ◌&&◌, ◌||◌, List, [], ◌∷◌, ◌++◌,
  Option, none, some, ltb, ◌==◌, if◌then◌else◌,
}
use gbalancer.Prelude.Lists.{get_elem?, set, replicate}

pub record ConnTunnel : Type 0 where
  pub conn : Option ℕ
  pub tcp_addr : Option String
  pub switching : Bool

-- `index` is `none` for -1; the zero value of a Go int is `some 0`. `fail_chan` says whether the
-- channel of failed sessions was set.
pub record Backend : Type 0 where
  pub tunnel : List ConnTunnel
  pub address : String
  pub index : Option ℕ
  pub ongoing : ℕ
  pub weight : ℕ
  pub flags : ℕ
  pub fail_chan : Bool
  pub tunnels : ℕ
  pub count : ℕ
  pub rx_bytes : ℕ
  pub tx_bytes : ℕ

abbrev pub flag_init : ℕ
flag_init = 1

abbrev pub thresh_stream_id : ℕ
thresh_stream_id = 0x7fffffff - 2 ^ 20

abbrev pub no_tunnel : ConnTunnel
no_tunnel = record { conn = none; tcp_addr = none; switching = false }

-- NewBackend
unfoldable pub new_backend : String → ℕ → ℕ → Backend
new_backend addr tunnels weight = record {
  tunnel = replicate tunnels no_tunnel;
  address = addr;
  index = some 0;
  ongoing = 0;
  weight = weight;
  flags = flag_init;
  fail_chan = false;
  tunnels = tunnels;
  count = 0;
  rx_bytes = 0;
  tx_bytes = 0;
}

-- FailChan: the channel is set; there is one for all backends
abbrev pub set_fail_chan : Backend → Backend
set_fail_chan b = record b { fail_chan = true }

-- SwitchSpdyConn: the connection that is closed first, and the backend unless the call panics,
-- as it does for an index out of range and for a nil tunnel.
unfoldable pub switch_spdy_conn : Backend → ℕ → Option ConnTunnel → Option ℕ × Option Backend
switch_spdy_conn b index to = elim (get_elem? b.tunnel index) [
  | none ↦ (none, none)
  | some from ↦ (
    from.conn,
    elim to [
      | none ↦ none
      | some t ↦ some (record b { tunnel = set b.tunnel index (record t { switching = false }) })
    ],
  )
]

-- the tests of SpdyCheckStreamId: there is a session, no switch is under way, and the next stream
-- identifier is past the threshold
unfoldable pub is_worn : (ℕ → ℕ) → ConnTunnel → Bool
is_worn peek t = elim t.conn [
  | none ↦ false
  | some c ↦ not t.switching && ltb thresh_stream_id (peek c % 2 ^ 32)
]

-- the loop of SpdyCheckStreamId over the tunnels from `index` on, with the indices to renew
unfoldable pub precreate : (ℕ → ℕ) → ℕ → List ConnTunnel → List ConnTunnel × List ℕ
precreate peek index [] = ([], [])
precreate peek index (t ∷ ts) =
    let (ts', renewed) = precreate peek (index + 1) ts in
    if is_worn peek t
    then (record t { switching = true } ∷ ts', index ∷ renewed)
    else (t ∷ ts', renewed)

abbrev pub five_seconds : ℕ
five_seconds = 5 * 10 ^ 9

-- SpdyCheckStreamId at time `now`, with spdyCheckTime before and after and the indices of the
-- tunnels for which a new session is started. NewBackend makes as many tunnels as it counts.
unfoldable pub spdy_check_stream_id : (ℕ → ℕ) → ℕ → ℕ → Backend → Backend × ℕ × List ℕ
unfolding precreate is_worn
spdy_check_stream_id peek now check_time b =
    let counted = record b { count = (b.count + 1) % 2 ^ 64 } in
    let (ts, renewed) = precreate peek 0 b.tunnel in
    if b.tunnels == 0 || ltb (now - check_time) five_seconds
    then (counted, check_time, [])
    else (record counted { tunnel = ts }, now, renewed)

-- an error of Go: a *net.OpError with its Op, or any other
pub data GoError : Type 0 where
  op_error : String → GoError
  other_error : GoError

-- what net.Dial returns
pub data Dialed : Type 0 where
  connected : ℕ → Dialed
  refused : GoError → Dialed

-- What ForwarderNewConnection does: the stream that it made, the backend, and the tunnels that it
-- took off, each with its closed connection, in the order in which they go to the fail channel.
pub record Forwarded : Type 0 where
  pub stream : Option ℕ
  pub backend : Backend
  pub failed : List (ℕ × ℕ)

-- The loop of ForwarderNewConnection with its rounds left. `create` is spdystream's CreateStream.
-- Nothing else writes the tunnels during the call, so the compare-and-swap succeeds.
unfoldable pub forward_loop : (ℕ → Option ℕ) → ℕ → ℕ → ℕ → Backend → List (ℕ × ℕ) → Forwarded
forward_loop create zero i cnt b failed = record { stream = none; backend = b; failed = failed }
forward_loop create (suc k) i cnt b failed =
    let index = (cnt + i) % 2 ^ 64 % b.tunnels in
    elim (get_elem? b.tunnel index) [
      | none ↦ forward_loop create k (i + 1) cnt b failed
      | some t ↦ elim t.conn [
        | none ↦ forward_loop create k (i + 1) cnt b failed
        | some c ↦ elim (create c) [
          | some s ↦ record { stream = some s; backend = b; failed = failed }
          | none ↦
              forward_loop create k (i + 1) cnt
                (record b { tunnel = set b.tunnel index (record t { conn = none }) })
                (failed ++ (index, c) ∷ [])
        ]
      ]
    ]

-- ForwarderNewConnection: a stream of a tunnel, or else a new TCP connection
unfoldable pub forwarder_new_connection :
    (ℕ → Option ℕ) → (String → Dialed) → Backend → Dialed × Backend × List (ℕ × ℕ)
unfolding forward_loop
forwarder_new_connection create dial b =
    if b.tunnels == 0
    then (dial b.address, b, [])
    else (let f = forward_loop create b.tunnels 0 b.count b [] in
        (elim f.stream [ none ↦ dial b.address | some s ↦ connected s ], f.backend, f.failed))
