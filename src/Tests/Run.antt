-- ===== src/Tests/Run.antt =====
-- The scheduler's theorems at the concrete states.
use gbalancer.Prelude.{ℕ, ◌≤◌, ◌≡◌, refl, false, true, [], ◌∷◌, none, some, arith}
use gbalancer.Prelude.Dict.{lookup, insert}
use gbalancer.Backend.{
  new_backend, connected, spdy_check_stream_id, op_error, no_tunnel, ConnTunnel,
  forwarder_new_connection,
}
use gbalancer.Heap.{add, up, down, take_top}
use gbalancer.Heap.Contract.{InPool, IsOrdered}
use gbalancer.Pool.{push, pop, less, swap}
use gbalancer.Shuffle.{sort_strings}
use gbalancer.State.{Scheduler, Ends, Session, max_forwarders_per_backend}
use gbalancer.Scheduler.Retry.{run-finish}
use gbalancer.Scheduler.Refused.{HasFailed, IsTried}
use gbalancer.Scheduler.{is_dial, new_scheduler, finish, dispatch, on_status, on_ready}
use gbalancer.Scheduler.Drained.{onto, on_ready-starts}
use gbalancer.Scheduler.Invariant.{Inv, load}
use gbalancer.Scheduler.Finish.{finish-Inv}
use gbalancer.Scheduler.Status.{on_status-Inv}
use gbalancer.Scheduler.Serve.{on_job}
use gbalancer.Scheduler.Ready.{on_ready-Inv, Enlisted}
use gbalancer.Scheduler.Running.{run}
use gbalancer.Scheduler.Reach.{reached, job, status, here, later}
use gbalancer.Tests.States.{
  env, fair, objects, no_requests, two, two-Distinct, one_running, one_running-Inv, one_ended,
  one_ended-Inv, one_waiting, one_waiting-Inv,
}

reached_example :
    ((b : ℕ)
      → ((one_running.pool.mem b).ongoing ≡ load one_running b)
        × (load one_running b ≤ max_forwarders_per_backend))
    × IsOrdered one_running.pool
    × ((b : ℕ)
        → InPool one_running.pool b
        → lookup (one_running.pool.mem b).address one_running.backends ≡ some b)
unfolding on_job dispatch on_status new_scheduler sort_strings add push up less new_backend take_top
    swap down pop
reached_example =
    reached false 0 objects no_requests one_running (λ b. (refl, refl))
      (later (later here (status env two fair two-Distinct (omega arith) refl)) (job env 7 refl))

finish-Inv_example : Ends Inv (finish env (record one_ended { finished = [] }) 0)
unfolding run spdy_check_stream_id forwarder_new_connection on_job dispatch on_status new_scheduler
    sort_strings add push up less new_backend take_top swap down pop
finish-Inv_example = finish-Inv env one_ended 0 [] one_ended-Inv refl

on_status-Inv_example :
    Ends
      (λ t. Inv t × (t.pending ≡ []) × (t.running ≡ 0 ∷ []))
      (on_status env one_running (("10.0.0.1:3306", 1) ∷ []))
unfolding lookup insert on_job dispatch on_status new_scheduler sort_strings add push up less
    new_backend take_top swap down pop
on_status-Inv_example =
    on_status-Inv env one_running (("10.0.0.1:3306", 1) ∷ []) fair one_running-Inv (refl, tt)
      (omega arith)

abbrev made : ConnTunnel
made = record { conn = some 5; tcp_addr = none; switching = false }

abbrev session : Session
session = record { backend = 0; spdy = some made; connindex = 0 }

on_ready-Inv_example :
    Ends
      (λ t.
        Inv t
        × (lookup (one_waiting.pool.mem 0).address one_waiting.backends ≡ none → t.pending ≡ [])
        × Enlisted one_waiting 0 t)
      (on_ready env one_waiting session)
unfolding on_job dispatch on_status new_scheduler sort_strings add push up less new_backend take_top
    swap down pop
on_ready-Inv_example =
    on_ready-Inv env one_waiting one_waiting-Inv session made no_tunnel refl refl (omega arith)
      (omega arith)

on_ready-starts_example :
    Ends
      (λ t. (t.running ≡ onto one_waiting.pending one_waiting.running) × (t.pending ≡ []))
      (on_ready env one_waiting session)
unfolding lookup on_job dispatch on_status new_scheduler sort_strings add push up less new_backend
    take_top swap down pop
on_ready-starts_example =
    on_ready-starts env one_waiting session made no_tunnel one_waiting-Inv refl refl (omega arith)
      refl (omega arith) refl (omega arith)

-- the request that runs has come from a backend that could not be dialled
abbrev sent_again : Scheduler
sent_again = record one_running {
  requests = λ r. record (one_running.requests r) { err = some (op_error "dial") };
}

sent_again-Inv : Inv sent_again
unfolding on_job dispatch on_status new_scheduler sort_strings add push up less new_backend take_top
    swap down pop
sent_again-Inv = record {
  places = one_running-Inv.places;
  books = record {
    busy = one_running-Inv.books.busy;
    bounded = one_running-Inv.books.bounded;
    idle = one_running-Inv.books.idle;
    once = one_running-Inv.books.once;
    unborn = one_running-Inv.books.unborn;
    assigned = one_running-Inv.books.assigned;
  };
}

run-finish_example :
    Ends
      (λ t.
        HasFailed 0 sent_again 0 (op_error "dial") t
        × Ends (IsTried 0 0 sent_again) (finish env (record t { finished = [] }) 0))
      (run (λ c. none) (λ a. connected 9) (some true) sent_again 0)
unfolding on_job dispatch on_status new_scheduler sort_strings add push up less new_backend take_top
    swap down pop is_dial forwarder_new_connection spdy_check_stream_id
run-finish_example =
    run-finish env (λ c. none) (λ a. connected 9) sent_again 0 0 9 (op_error "dial")
      (record {
        inv = sent_again-Inv;
        empty = refl;
        running = ground arith;
        backend = refl;
        inside = (1, omega arith, refl);
      })
      refl refl refl
