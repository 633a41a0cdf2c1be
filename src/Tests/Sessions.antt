-- ===== src/Tests/Sessions.antt =====
-- The theorems on the sessions at a network whose second dial succeeds and whose handshakes fail.
use gbalancer.Scheduler.Invariant.{Inv}
use gbalancer.Scheduler.Ready.{Enlisted}
use gbalancer.Prelude.{arith, ◌≡◌, refl, false, true, [], ◌∷◌, ◌++◌, none, some}
use gbalancer.Backend.{
  ConnTunnel, no_tunnel, connected, refused, op_error, new_backend, switch_spdy_conn,
  spdy_check_stream_id,
}
use gbalancer.Heap.{add, up, down, take_top}
use gbalancer.Pool.{push, pop, less, swap}
use gbalancer.Shuffle.{sort_strings}
use gbalancer.State.{Session, Scheduler, Ends, died, close_spdy}
use gbalancer.Scheduler.{new_scheduler, dispatch, on_status, on_ready}
use gbalancer.Scheduler.Serve.{on_job}
use gbalancer.Prelude.Dict.{lookup}
use gbalancer.Spdy.{Remote, new_spdy_session, new_conn_tunnel, create_spdy_session}
use gbalancer.Spdy.Result.{session-Enlisted, failed_handshake}
use gbalancer.Tests.States.{env, one_waiting, one_waiting-Inv, state_of}

abbrev away : Remote
away = record {
  dial = λ h p. refused (op_error "dial");
  local_addr = λ c. none;
  new_connection = λ c. none;
  ping = λ c. true;
}

abbrev mute : Remote
mute = record {
  dial = λ h p. connected 3;
  local_addr = λ c. some "10.0.0.9:41000";
  new_connection = λ c. none;
  ping = λ c. true;
}

abbrev asked : Session
asked = record { backend = 0; spdy = none; connindex = 0 }

abbrev able : Remote
able = record {
  dial = λ h p. connected 3;
  local_addr = λ c. some "10.0.0.9:41000";
  new_connection = λ c. some 8;
  ping = λ c. true;
}

session-Enlisted_example :
    (x : Session) × (create_spdy_session "6900" "10.0.0.1:3306"
        (new_spdy_session 0 0)
        (away ∷ able ∷ [])
      ≡ (some x, []))
    × Ends
        (λ t.
          Inv t
          × (lookup (one_waiting.pool.mem 0).address one_waiting.backends ≡ none → t.pending ≡ [])
          × Enlisted one_waiting 0 t)
        (on_ready env one_waiting x)
unfolding on_job dispatch on_status new_scheduler sort_strings add push up less new_backend take_top
    swap down pop
session-Enlisted_example =
    session-Enlisted env one_waiting "6900" "10.0.0.1:3306" 0 0 (away ∷ []) [] able 3 8
      "10.0.0.9:41000" no_tunnel ((op_error "dial", refl), tt) refl refl refl refl one_waiting-Inv
      (omega arith) (omega arith) refl

abbrev live : ConnTunnel
live = record { conn = some 5; tcp_addr = none; switching = false }

-- a backend has a session
abbrev connected_one : Scheduler
connected_one = state_of (on_ready env one_waiting (record asked { spdy = some live }))

failed_handshake_example :
    (create_spdy_session "6900" "10.0.0.1:3306" asked (mute ∷ []) ≡ (some asked, []))
    × (on_ready env connected_one asked
        ≡ died (record connected_one { effects = connected_one.effects ++ close_spdy 5 ∷ [] }))
unfolding new_conn_tunnel lookup spdy_check_stream_id on_ready switch_spdy_conn on_job dispatch
    on_status new_scheduler sort_strings add push up less new_backend take_top swap down pop
failed_handshake_example =
    failed_handshake env connected_one "6900" "10.0.0.1:3306" asked [] mute 3 live refl refl refl
