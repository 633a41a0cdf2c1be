-- ===== src/Scheduler/Balance.antt =====
-- dispatch of engine/native/scheduler.go over clients that come one after another.
pub mod Fewest
pub mod Failover
use gbalancer.Prelude.{
  ℕ, ◌+◌, ◌≤◌, ◌<◌, ◌==◌, ◌≡◌, ◌⊎◌, ◌↔◌, refl, ap, inl, inr, Bool, List, [], ◌∷◌, arith, leb,
  if◌then◌else◌,
}
use gbalancer.Pool.{Pool, rank}
use gbalancer.Backend.Check.{check-SameEntry}
use gbalancer.Heap.Contract.{InPool}
use gbalancer.State.{Scheduler, Env, Exec, done, Ends, ◌>>◌, max_forwarders_per_backend}
use gbalancer.Scheduler.{start}
use gbalancer.Scheduler.Dispatch.{IsBest, Dispatched, waits, sheds, starts, dispatch-Dispatched}
use gbalancer.Scheduler.Invariant.{Inv}
use gbalancer.Scheduler.Reach.{Ends-at, after}
use gbalancer.Scheduler.Serve.{accept, on_job, on_job-Inv}

-- one client after another, each with what the scheduler reads when it handles the request
abbrev pub clients : List (Env × ℕ) → Scheduler → Exec
clients [] s = done s
clients ((env, conn) ∷ later) s = on_job env s conn >> clients later

-- one connection more, up to the limit
abbrev pub one_more : ℕ → ℕ
one_more n = if leb max_forwarders_per_backend n then n else n + 1

-- only the count of `b` has changed
pub record Counts (p : Pool) (b : ℕ) (q : Pool) : Type 0 where
  pub best : IsBest p b
  pub count :
      (d : ℕ)
      → (q.mem d).ongoing ≡ (if b == d then one_more (p.mem b).ongoing else (p.mem d).ongoing)
  pub weight : (d : ℕ) → (q.mem d).weight ≡ (p.mem d).weight
  pub entries : (d : ℕ) → InPool q d ↔ InPool p d
  pub mode : q.leastweight ≡ p.leastweight

-- nothing has changed, for want of a backend, or one count
abbrev pub Spread : Pool → Pool → Type 0
Spread p q = ((p.len ≡ 0) × (q ≡ p)) ⊎ ((b : ℕ) × Counts p b q)

pub Dispatched-Spread :
    (env : Env) (s : Scheduler) (r : ℕ) (t : Scheduler)
    → Dispatched env s r t
    → Spread s.pool t.pool
unfolding start
Dispatched-Spread env s r t (waits empty e) = inl (empty, ap (λ u. u.pool) e)
Dispatched-Spread env s r t (sheds b q best full c e) = inr (
  b,
  rw e (record {
    best = best;
    count = λ d. ground (arith, c.body d, full);
    weight = λ d. ground (arith, c.body d);
    entries = c.entries;
    mode = c.same_mode;
  }),
)
Dispatched-Spread env s r t (starts b q best room c e) =
    let same = check-SameEntry env.peek_next_stream_id env.now s.check_time (q.mem b) in
    inr (
      b,
      rw e (record {
        best = best;
        count = λ d. ground (arith, c.body d, c.body b, room, same.ongoing);
        weight = λ d. ground (arith, c.body d, c.body b, same.weight);
        entries = c.entries;
        mode = c.same_mode;
      }),
    )

-- a client's request is handled
pub on_job-Spread :
    (env : Env) (s : Scheduler) (conn : ℕ)
    → Inv s
    → Ends (λ t. Inv t × Spread s.pool t.pool) (on_job env s conn)
unfolding on_job accept
on_job-Spread env s conn i =
    let (t, went, d) = dispatch-Dispatched env (accept s conn) s.next_request i.places.ordered in
    (
      t,
      went,
      (
        Ends-at {P = Inv} t (on_job-Inv env s conn i) (ap after went),
        Dispatched-Spread env (accept s conn) s.next_request t d,
      ),
    )
