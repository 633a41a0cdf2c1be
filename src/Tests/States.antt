-- ===== src/Tests/States.antt =====
-- Concrete states of the scheduler, each reached from a new one.
use gbalancer.Prelude.{
  ℕ, zero, suc, List, if◌then◌else◌, ltb, false, true, [], ◌∷◌, none, some, ◌≡◌, refl, arith, ◌^◌,
}
use gbalancer.Prelude.Dict.{Dict, Distinct, lookup}
use gbalancer.Prelude.Lists.{length, mult}
use gbalancer.Backend.{Backend, new_backend, refused, op_error, forwarder_new_connection}
use gbalancer.State.{Request, Scheduler, Env, Exec, done, died, stuck}
use gbalancer.Scheduler.{new_scheduler, dispatch, on_status}
use gbalancer.Heap.{add, up, down, take_top}
use gbalancer.Pool.{push, pop, less, swap}
use gbalancer.Shuffle.{sort_strings}
use gbalancer.Scheduler.Names.{IsFair}
use gbalancer.Scheduler.Invariant.{Inv}
use gbalancer.Scheduler.Serve.{new_scheduler-Inv, on_job, on_job-Inv}
use gbalancer.Scheduler.Status.{on_status-Inv}
use gbalancer.Scheduler.Running.{run}
use gbalancer.Scheduler.Running.Laws.{run-Inv}
use gbalancer.Scheduler.Reach.{Ends-at}

-- the numbers below `n`, downwards
abbrev pub below : ℕ → List ℕ
below zero = []
below (suc n) = n ∷ below n

length-below : (n : ℕ) → length (below n) ≡ n
length-below zero = refl
length-below (suc n) = omega (arith, length-below n)

mult-below : (j n : ℕ) → mult j (below n) ≡ (if ltb j n then 1 else 0)
mult-below j zero = ground arith
mult-below j (suc n) = ground (arith, mult-below j n)

abbrev pub env : Env
env = record { now = 10 ^ 10; peek_next_stream_id = λ c. 1; perm = below; shuffled = false }

pub fair : IsFair env
fair = record { permutes = λ n. record { size = length-below n; each = λ j. mult-below j n } }

abbrev pub objects : ℕ → Backend
objects b = record {
  tunnel = [];
  address = "";
  index = none;
  ongoing = 0;
  weight = 0;
  flags = 0;
  fail_chan = false;
  tunnels = 0;
  count = 0;
  rx_bytes = 0;
  tx_bytes = 0;
}

abbrev pub no_requests : ℕ → Request
no_requests r = record { conn = 0; backend = none; err = none }

abbrev pub two : Dict ℕ
two = ("10.0.0.1:3306", 1) ∷ ("10.0.0.2:3306", 1) ∷ []

pub two-Distinct : Distinct two
unfolding lookup
two-Distinct = (refl, (refl, tt))

abbrev pub state_of : Exec → Scheduler
state_of (done t) = t
state_of (died t) = t
state_of stuck = new_scheduler false 0 objects no_requests

-- nothing has happened, with and without tunnels
abbrev pub fresh : ℕ → Scheduler
fresh tunnels = new_scheduler false tunnels objects no_requests

pub fresh-Inv : (tunnels : ℕ) → Inv (fresh tunnels)
fresh-Inv tunnels = new_scheduler-Inv false tunnels objects no_requests (λ b. (refl, refl))

-- two backends are up
abbrev pub two_up : Scheduler
two_up = state_of (on_status env (fresh 0) two)

pub two_up-Inv : Inv two_up
unfolding on_job dispatch on_status new_scheduler sort_strings add push up less new_backend take_top
    swap down pop
two_up-Inv =
    (Ends-at two_up (on_status-Inv env (fresh 0) two fair (fresh-Inv 0) two-Distinct (omega arith))
      refl).0

-- a client has come, and its request is running on one of them
abbrev pub one_running : Scheduler
one_running = state_of (on_job env two_up 7)

pub one_running-Inv : Inv one_running
unfolding on_job dispatch on_status new_scheduler sort_strings add push up less new_backend take_top
    swap down pop
one_running-Inv = Ends-at one_running (on_job-Inv env two_up 7 two_up-Inv) refl

-- it has ended
abbrev pub one_ended : Scheduler
one_ended = state_of (run (λ c. none) (λ a. refused (op_error "dial")) (some true) one_running 0)

pub one_ended-Inv : Inv one_ended
unfolding run forwarder_new_connection on_job dispatch on_status new_scheduler sort_strings add push
    up less new_backend take_top swap down pop
one_ended-Inv =
    Ends-at one_ended
      (run-Inv (λ c. none) (λ a. refused (op_error "dial")) (some true) one_running 0
        one_running-Inv (ground arith))
      refl

-- the same with tunnels: two backends without a session, and a client that waits
abbrev pub two_known : Scheduler
two_known = state_of (on_status env (fresh 1) two)

abbrev pub one_waiting : Scheduler
one_waiting = state_of (on_job env two_known 7)

pub one_waiting-Inv : Inv one_waiting
unfolding on_job dispatch on_status new_scheduler sort_strings add push up less new_backend take_top
    swap down pop
one_waiting-Inv =
    Ends-at one_waiting
      (on_job-Inv env two_known 7
        (Ends-at two_known
          (on_status-Inv env (fresh 1) two fair (fresh-Inv 1) two-Distinct (omega arith)) refl).0)
      refl
