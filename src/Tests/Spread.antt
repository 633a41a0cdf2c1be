-- ===== src/Tests/Spread.antt =====
-- The theorems on how clients are spread over the backends at concrete ones.
use gbalancer.Prelude.{
  ℕ, zero, suc, subst, ◌<◌, ◌==◌, ◌≡◌, ◌↔◌, refl, true, false, List, [], ◌∷◌, arith, if◌then◌else◌,
}
use gbalancer.Backend.{new_backend}
use gbalancer.Heap.{add, up, down, take_top}
use gbalancer.Heap.Contract.{InPool}
use gbalancer.Pool.{push, pop, less, swap}
use gbalancer.Shuffle.{sort_strings}
use gbalancer.State.{Scheduler, Env, Ends}
use gbalancer.Scheduler.{new_scheduler, dispatch, on_status}
use gbalancer.Scheduler.Invariant.{Inv}
use gbalancer.Scheduler.Reach.{Ends-at}
use gbalancer.Scheduler.Serve.{new_scheduler-Inv, on_job}
use gbalancer.Scheduler.Status.{on_status-Inv}
use gbalancer.Scheduler.Balance.{clients}
use gbalancer.Scheduler.Balance.Fewest.{IsBalanced, clients-IsBalanced}
use gbalancer.Scheduler.Balance.Failover.{clients-filled}
use gbalancer.Tests.States.{
  env, fair, objects, no_requests, two, two-Distinct, state_of, two_up, two_up-Inv,
}

abbrev three : List (Env × ℕ)
three = (env, 7) ∷ (env, 8) ∷ (env, 9) ∷ []

clients-IsBalanced_example :
    Ends
      (λ t. Inv t × IsBalanced t.pool × ((d : ℕ) → InPool t.pool d ↔ InPool two_up.pool d))
      (clients three two_up)
unfolding on_job dispatch on_status new_scheduler sort_strings add push up less new_backend take_top
    swap down pop
clients-IsBalanced_example =
    clients-IsBalanced three two_up two_up-Inv refl
      (λ c d at_c at_d. omega (arith, two_up-Inv.books.busy c))

-- two backends for failover
abbrev master_up : Scheduler
master_up = state_of (on_status env (new_scheduler true 0 objects no_requests) two)

master_up-Inv : Inv master_up
unfolding on_job dispatch on_status new_scheduler sort_strings add push up less new_backend take_top
    swap down pop
master_up-Inv =
    (Ends-at master_up
      (on_status-Inv env (new_scheduler true 0 objects no_requests) two fair
        (new_scheduler-Inv true 0 objects no_requests (λ b. (refl, refl))) two-Distinct
        (omega arith))
      refl).0

heavier :
    (d i : ℕ)
    → i < 2
    → master_up.pool.slots i ≡ d
    → (0 == d) ≡ false
    → (master_up.pool.mem 0).weight < (master_up.pool.mem d).weight
unfolding on_job dispatch on_status new_scheduler sort_strings add push up less new_backend take_top
    swap down pop
heavier d zero below here other = absurd (ground (arith, here, other))
heavier d (suc zero) below here other =
    subst (λ x. (master_up.pool.mem 0).weight < (master_up.pool.mem x).weight) here (omega arith)
heavier d (suc (suc i)) below here other = absurd (omega (arith, below))

clients-filled_example :
    Ends
      (λ t.
        Inv t
        × ((d : ℕ)
            → (t.pool.mem d).ongoing ≡ (if 0 == d then 3 else (master_up.pool.mem d).ongoing)))
      (clients three master_up)
unfolding on_job dispatch on_status new_scheduler sort_strings add push up less new_backend take_top
    swap down pop
clients-filled_example = clients-filled three master_up 0 master_up-Inv (record {
  mode = refl;
  inside = (0, omega arith, refl);
  least = λ d (i, below, here) other. heavier d i below here other;
})
