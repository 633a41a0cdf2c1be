-- ===== src/Tests/Engines.antt =====
-- The theorems on the registry without tunnels and on the waiting requests at concrete steps.
use gbalancer.Prelude.{ℕ, List, [], ◌∷◌, ◌++◌, ◌≡◌, refl, arith, false}
use gbalancer.Prelude.Dict.{Dict, lookup, has, insert, delete}
use gbalancer.Backend.{new_backend}
use gbalancer.Heap.{add, up, down, take_top, remove}
use gbalancer.Pool.{push, pop, less, swap}
use gbalancer.Shuffle.{sort_strings}
use gbalancer.State.{Scheduler}
use gbalancer.Scheduler.{new_scheduler, dispatch, on_status, remove_backend}
use gbalancer.Scheduler.Serve.{on_job}
use gbalancer.Scheduler.Reach.{Reaches, job, status, here, later}
use gbalancer.Scheduler.Stranded.{waiting_forever}
use gbalancer.Scheduler.Latest.{all_heard}
use gbalancer.Wrangler.{World, new_wrangler, add_director, monitor}
use gbalancer.Wrangler.Probe.{add_ext, new_ext, build_ext}
use gbalancer.Ipvs.{new_ipvs, event_loop}
use gbalancer.Ipvs.Kernel.{run_all}
use gbalancer.Pipeline.{in_order}
use gbalancer.Pipeline.Native.{monitor-registry, engines_agree}
use gbalancer.Tests.Tools.{tables, empty_table, settings, world, wrangler}
use gbalancer.Tests.States.{
  env, fair, objects, no_requests, two, two-Distinct, state_of, fresh, one_running,
}

-- a client comes before the first message
abbrev one_early : Scheduler
one_early = state_of (on_job env (fresh 0) 7)

abbrev one_left : Scheduler
one_left = state_of (on_status env one_early two)

waiting_forever_example : (since : List ℕ) × (one_left.pending ≡ one_early.pending ++ since)
unfolding on_job dispatch on_status new_scheduler sort_strings add push up less new_backend take_top
    swap down pop
waiting_forever_example =
    waiting_forever false objects no_requests one_early one_left (λ b. refl)
      (later here (job env 7 refl))
      (later here (status env two fair two-Distinct (omega arith) refl))

-- a message and a client
abbrev served : Reaches (new_scheduler false 0 objects no_requests) one_running
unfolding on_job dispatch on_status new_scheduler sort_strings add push up less new_backend take_top
    swap down pop
served = later (later here (status env two fair two-Distinct (omega arith) refl)) (job env 7 refl)

engines_agree_example :
    run_all tables
      (event_loop (in_order (all_heard served)) (new_ipvs "vip" "80" "wlc")).commands
      empty_table
      "vip:80"
      "10.0.0.2:3306"
    ≡ has (lookup "10.0.0.2:3306" one_running.backends)
unfolding served on_job dispatch on_status new_scheduler sort_strings add push up less new_backend
    take_top swap down pop new_ipvs
engines_agree_example =
    engines_agree tables "vip" "80" "wlc" empty_table false objects no_requests one_running served
      two [] "10.0.0.2:3306" (λ b. (refl, refl)) (λ b. refl) refl refl (λ x. refl)

abbrev worlds : List World
worlds = world "10.0.0.2:80" ∷ world "10.0.0.1:80" ∷ []

abbrev first_only : Dict ℕ
first_only = ("10.0.0.1:80", 1) ∷ []

abbrev second_only : Dict ℕ
second_only = ("10.0.0.2:80", 1) ∷ []

abbrev first_up : Scheduler
first_up = state_of (on_status env (fresh 0) first_only)

abbrev second_up : Scheduler
second_up = state_of (on_status env first_up second_only)

-- the first backend fails and the second one comes up
abbrev both_heard : Reaches (new_scheduler false 0 objects no_requests) second_up
unfolding on_status new_scheduler sort_strings add push up less new_backend take_top swap down pop
    remove_backend remove lookup insert
both_heard =
    later (later here (status env first_only fair (refl, tt) (omega arith) refl))
      (status env second_only fair (refl, tt) (omega arith) refl)

monitor-registry_example :
    has (lookup "10.0.0.1:80" second_up.backends)
    ≡ has (lookup "10.0.0.1:80" (monitor worlds wrangler).backends)
unfolding both_heard on_status new_scheduler sort_strings add push up less new_backend take_top swap
    down pop remove_backend remove lookup insert delete new_wrangler add_director monitor add_ext
    new_ext build_ext
monitor-registry_example =
    monitor-registry settings wrangler worlds false objects no_requests second_up both_heard
      "10.0.0.1:80" "10.0.0.2:80" refl (λ b. (refl, refl)) (λ b. refl) refl refl
