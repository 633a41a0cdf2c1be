-- ===== src/Tests/Splices.antt =====
-- The theorems on the copies of a connection at a run of them.
use gbalancer.Prelude.{◌+◌, ◌≡◌, ◌⊎◌, refl, true, false, not, ◌||◌, [], none, some, arith}
use gbalancer.Backend.{GoError, op_error, connected}
use gbalancer.Scheduler.Running.{outcome}
use gbalancer.Scheduler.Copies.{
  Splice, Step, start, receive, Reaches, here, later, client_copied, client_closed, client_sent,
  backend_copied, backend_closed, backend_sent, received, finished,
}
use gbalancer.Scheduler.Copies.Laws.{has_failed, finished-closed}
use gbalancer.Scheduler.Copies.Ends.{left, steps, splice-ends}

abbrev dial_error : GoError
dial_error = op_error "dial"

-- the copy to the backend fails while the other one is at work, and ends first
run_ended :
    (t : Splice) × ((r : Reaches (start (some dial_error)) t) × (t.is_sent ≡ true) × (steps r ≡ 9))
unfolding receive
run_ended = (
  _,
  (
    later
        (later
          (later
            (later
              (later
                (later
                  (later
                    (later (later here (backend_copied (some dial_error) refl refl))
                      (client_copied none refl refl))
                    (backend_closed (some dial_error) refl refl))
                  (backend_sent (some dial_error) refl (omega arith) refl))
                (received (some dial_error) [] refl (omega arith) refl))
              (client_closed none refl refl))
            (client_sent none refl (omega arith) refl))
          (received none [] refl (omega arith) refl))
        (finished refl refl refl),
    refl,
    refl,
  ),
)

abbrev ended : Splice
ended = run_ended.0

abbrev by_run : Reaches (start (some dial_error)) ended
by_run = run_ended.1.0

finished-closed_example :
    (ended.client_open ≡ false)
    × (ended.backend_open ≡ false)
    × (ended.c ≡ [])
    × (ended.err
        ≡ outcome
            (connected 7)
            (not (has_failed ended.to_client || has_failed ended.to_backend))
            (some dial_error))
finished-closed_example = finished-closed (some dial_error) ended 7 by_run run_ended.1.1

splice-ends_example :
    (steps by_run + left ended ≡ 9) × ((ended.is_sent ≡ true) ⊎ ((u : Splice) × Step ended u))
splice-ends_example = splice-ends (some dial_error) ended by_run
