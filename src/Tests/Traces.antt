-- ===== src/Tests/Traces.antt =====
-- The theorems on several steps of the scheduler at concrete ones.
use Prim.Native.String.{String}
use gbalancer.Prelude.{
  ℕ, zero, suc, ◌+◌, ◌%◌, ◌^◌, ◌<◌, true, List, Option, some, none, Bool-cases, Option-cases, inl,
  inr, ◌==◌, ◌≡◌, refl, false, [], arith,
}
use gbalancer.Prelude.Dict.{lookup, has}
use gbalancer.Backend.{
  Backend, Dialed, connected, refused, op_error, new_backend, forward_loop,
  forwarder_new_connection,
}
use gbalancer.Heap.{add, up, down, take_top}
use gbalancer.Pool.{push, pop, less, swap}
use gbalancer.Shuffle.{sort_strings}
use gbalancer.State.{Scheduler, Ends}
use gbalancer.Scheduler.{is_dial, new_scheduler, dispatch, on_status}
use gbalancer.Scheduler.Serve.{on_job}
use gbalancer.Scheduler.Reach.{Reaches, job, status, here, later}
use gbalancer.Scheduler.Trace.{expected, registry_follows}
use gbalancer.Scheduler.Invariant.{Inv}
use gbalancer.Scheduler.Whereabouts.{closings}
use gbalancer.Scheduler.Whereabouts.Accounted.{ended, accounted}
use gbalancer.Prelude.Lists.{mult, get_elem?}
use gbalancer.Scheduler.Client.{Connects}
use gbalancer.Scheduler.Refused.{Refuses, IsOver, retry, retry-IsOver}
use gbalancer.Scheduler.Whole.{serve_client, serve_client-Served}
use gbalancer.Tests.States.{
  one_running-Inv, env, fair, objects, no_requests, two, two-Distinct, two_up, two_up-Inv,
  one_running,
}

-- a message and a client
abbrev two_steps : Reaches (new_scheduler false 0 objects no_requests) one_running
unfolding on_job dispatch on_status new_scheduler sort_strings add push up less new_backend take_top
    swap down pop
two_steps =
    later (later here (status env two fair two-Distinct (omega arith) refl)) (job env 7 refl)

registry_follows_example :
    has (lookup "10.0.0.2:3306" one_running.backends) ≡ expected two_steps "10.0.0.2:3306"
registry_follows_example =
    registry_follows false 0 objects no_requests one_running (λ b. (refl, refl)) two_steps
      "10.0.0.2:3306"

abbrev with_tunnels : Scheduler
with_tunnels = new_scheduler false 2 objects no_requests

-- no tunnel works, and every address can be dialled
abbrev broken : ℕ → Option ℕ
broken c = none

abbrev dials : String → Dialed
dials address = connected 9

dials-Connects : Connects broken dials
unfolding forwarder_new_connection
dials-Connects v = elim (Bool-cases (v.tunnels == 0)) [
  | inl plain ↦ (9, rw plain refl)
  | inr tunnelled ↦ elim (Option-cases (forward_loop broken v.tunnels 0 v.count v []).stream) [
    | inl nobody ↦ (9, rw (tunnelled, nobody) refl)
    | inr (c, made) ↦ (c, rw (tunnelled, made) refl)
  ]
]

serve_client-Served_example :
    Ends
      (λ w.
        Inv w
        × (w.running ≡ [])
        × (w.pending ≡ [])
        × (w.finished ≡ [])
        × (w.backends ≡ two_up.backends)
        × ((b : ℕ) → (w.pool.mem b).ongoing ≡ (two_up.pool.mem b).ongoing))
      (serve_client env env broken dials two_up 7)
unfolding on_job dispatch on_status new_scheduler sort_strings add push up less new_backend take_top
    swap down pop
serve_client-Served_example =
    serve_client-Served env env broken dials two_up 7 0 two_up-Inv refl refl (0, omega arith, refl)
      (omega arith) dials-Connects

-- the client's request runs
accounted_example :
    0
    < mult 0 one_running.pending
      + mult 0 one_running.running
      + mult 0 one_running.finished
      + closings (one_running.requests 0).conn one_running.effects
      + mult 0 (ended two_steps)
unfolding on_job dispatch on_status new_scheduler sort_strings add push up less new_backend take_top
    swap down pop
accounted_example =
    accounted false 0 objects no_requests one_running 0 (λ b. (refl, refl)) two_steps (omega arith)

-- no backend can be dialled
abbrev refuses : String → Dialed
refuses address = refused (op_error "dial")

no_stream :
    (k i cnt : ℕ) (v : Backend) (failed : List (ℕ × ℕ))
    → (forward_loop broken k i cnt v failed).stream ≡ none
unfolding forward_loop
no_stream zero i cnt v failed = refl
no_stream (suc k) i cnt v failed =
    elim (Option-cases (get_elem? v.tunnel ((cnt + i) % 2 ^ 64 % v.tunnels))) [
      | inl out ↦ rw (forward_loop, out) (no_stream k (i + 1) cnt v failed)
      | inr (t, there) ↦ elim (Option-cases t.conn) [
        | inl nothing ↦ rw (forward_loop, there, nothing) (no_stream k (i + 1) cnt v failed)
        | inr (c, conn) ↦ rw (forward_loop, there, conn) (no_stream k (i + 1) cnt _ _)
      ]
    ]

refuses-Refuses : Refuses broken refuses (op_error "dial")
unfolding forwarder_new_connection
refuses-Refuses v = elim (Bool-cases (v.tunnels == 0)) [
  | inl plain ↦ rw plain refl
  | inr tunnelled ↦ rw (tunnelled, no_stream v.tunnels 0 v.count v []) refl
]

retry-IsOver_example :
    Ends (IsOver 0) (retry broken refuses (some true) env 0 one_running.pool.len one_running)
unfolding on_job dispatch on_status new_scheduler sort_strings add push up less new_backend take_top
    swap down pop is_dial
retry-IsOver_example =
    retry-IsOver broken refuses (some true) env 0 (op_error "dial") one_running 0 refuses-Refuses
      refl
      (record {
        inv = one_running-Inv;
        empty = refl;
        running = ground arith;
        backend = refl;
        inside = (1, omega arith, refl);
      })
