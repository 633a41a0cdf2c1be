-- ===== src/Scheduler/Room.antt =====
-- When dispatch finds a backend for a request.
use gbalancer.Prelude.{ℕ, ◌≤◌, ◌<◌, ◌≡◌, refl, true, false, ◌∷◌, some, arith, ◌==◌}
use gbalancer.Heap.Contract.{InPool, IsOrdered}
use gbalancer.State.{Scheduler, Env, Ends, max_forwarders_per_backend}
use gbalancer.Scheduler.{start, dispatch}
use gbalancer.Scheduler.Dispatch.{Dispatched, waits, sheds, starts, dispatch-Dispatched}

-- In the mode of the fewest connections and with the heap in order, dispatch starts the request as
-- long as some backend on the heap has room, on a backend with the fewest connections of those on the
-- heap, and the requests that wait stay the same.
dispatch-starts :
    (env : Env) (s : Scheduler) (r c : ℕ)
    → IsOrdered s.pool
    → s.pool.leastweight ≡ false
    → InPool s.pool c
    → (s.pool.mem c).ongoing < max_forwarders_per_backend
    → Ends
        (λ t.
          (t.running ≡ r ∷ s.running)
          × (t.pending ≡ s.pending)
          × ((b : ℕ) × ((t.requests r).backend ≡ some b)
              × ((d : ℕ) → InPool s.pool d → (s.pool.mem b).ongoing ≤ (s.pool.mem d).ongoing)))
        (dispatch env s r)
dispatch-starts env s r c w fewest inside room =
    let (t, run, d) = dispatch-Dispatched env s r w in (t, run, served t d)
  where
    served :
        (t : Scheduler)
        → Dispatched env s r t
        → (t.running ≡ r ∷ s.running)
          × (t.pending ≡ s.pending)
          × ((b : ℕ) × ((t.requests r).backend ≡ some b)
              × ((d : ℕ) → InPool s.pool d → (s.pool.mem b).ongoing ≤ (s.pool.mem d).ongoing))
    served t (waits empty e) = absurd (let (i, hi, _) = inside in omega (arith, hi, empty))
    served t (sheds b q best full _ e) = absurd (ground (arith, best.least c inside))
    served t (starts b q best free _ e) = rw e (
        unfold start in
        (
          refl,
          refl,
          (
            b,
            (let self : (r == r) ≡ true = ground arith in rw self refl),
            λ d there. ground (arith, best.least d there),
          ),
        ))
