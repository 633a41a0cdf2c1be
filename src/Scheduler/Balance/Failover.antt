-- ===== src/Scheduler/Balance/Failover.antt =====
-- Clients one after another in the mode of the least weight of engine/native/pool.go.
use gbalancer.Prelude.{
  ℕ, ◌+◌, ◌<◌, ◌==◌, ◌≡◌, refl, ◌∙◌, inl, inr, true, false, List, [], ◌∷◌, arith, leb, Bool-cases,
  if◌then◌else◌,
}
use gbalancer.Prelude.Lists.{length}
use gbalancer.Pool.{Pool}
use gbalancer.Heap.Contract.{InPool}
use gbalancer.State.{Scheduler, Env, Ends, max_forwarders_per_backend}
use gbalancer.Scheduler.Invariant.{Inv}
use gbalancer.Scheduler.Balance.{clients, Spread, on_job-Spread, one_more}

-- on the heap, in the mode of the least weight, and with a lower weight than all others
pub record IsMaster (p : Pool) (b : ℕ) : Type 0 where
  pub mode : p.leastweight ≡ true
  pub inside : InPool p b
  pub least : (d : ℕ) → InPool p d → (b == d) ≡ false → (p.mem b).weight < (p.mem d).weight

-- `n` connections more, up to the limit
abbrev pub filled : ℕ → ℕ → ℕ
filled n k = if leb max_forwarders_per_backend (n + k) then max_forwarders_per_backend else n + k

-- the master goes on to be one, and has one connection more
record IsTaken (p : Pool) (b : ℕ) (q : Pool) : Type 0 where
  master : IsMaster q b
  count :
      (d : ℕ)
      → (q.mem d).ongoing ≡ (if b == d then one_more (p.mem b).ongoing else (p.mem d).ongoing)

Spread-IsTaken : (p q : Pool) (b : ℕ) → IsMaster p b → Spread p q → IsTaken p b q
Spread-IsTaken p q b m (inl (empty, same)) =
    absurd (let (i, below, e) = m.inside in omega (arith, below, empty))
Spread-IsTaken p q b m (inr (c, k)) =
    let self : b ≡ c = elim (Bool-cases (b == c)) [
      | inl same ↦ ground (arith, same)
      | inr other ↦
          absurd (ground (arith, m.least c k.best.inside other, k.best.least b m.inside, m.mode))
    ] in
    record {
      master = record {
        mode = k.mode ∙ m.mode;
        inside = (k.entries b).1 m.inside;
        least = λ d inside other.
            omega (arith, k.weight b, k.weight d, m.least d ((k.entries d).0 inside) other);
      };
      count = λ d. rw self (k.count d);
    }

-- In a state that satisfies the invariant, in the mode of the least weight, with one backend on the
-- heap that has a lower weight than all others there: clients that come one after another are all
-- handled, that backend gets as many connections more as it has room for, no other backend gets any,
-- and the invariant is kept.
pub clients-filled :
    (cs : List (Env × ℕ)) (s : Scheduler) (b : ℕ)
    → Inv s
    → IsMaster s.pool b
    → Ends
        (λ t.
          Inv t
          × ((d : ℕ)
              → (t.pool.mem d).ongoing ≡ (
                  if b == d
                  then filled (s.pool.mem b).ongoing (length cs)
                  else (s.pool.mem d).ongoing)))
        (clients cs s)
clients-filled [] s b i m = (s, refl, (i, λ d. ground (arith, i.books.bounded b)))
clients-filled ((env, conn) ∷ later) s b i m =
    let (t, went, (j, spread)) = on_job-Spread env s conn i in
    let k = Spread-IsTaken s.pool t.pool b m spread in
    let (u, ended, (l, counts)) = clients-filled later t b j k.master in
    rw went (u, ended, (l, λ d. ground (arith, counts d, k.count b, k.count d, i.books.bounded b)))
