-- ===== src/Scheduler/Balance/Fewest.antt =====
-- Clients one after another in the mode of the fewest connections of engine/native/pool.go.
use gbalancer.Prelude.{ℕ, ◌+◌, ◌≤◌, ◌≡◌, ◌↔◌, refl, ◌∙◌, inl, inr, false, List, [], ◌∷◌, arith}
use gbalancer.Pool.{Pool}
use gbalancer.Heap.Contract.{InPool}
use gbalancer.State.{Scheduler, Env, Ends}
use gbalancer.Scheduler.Invariant.{Inv}
use gbalancer.Scheduler.Balance.{clients, Spread, on_job-Spread}

-- the counts of any two backends on the heap differ by at most one
abbrev pub IsBalanced : Pool → Type 0
IsBalanced p = (c d : ℕ) → InPool p c → InPool p d → (p.mem c).ongoing ≤ (p.mem d).ongoing + 1

-- balanced as before, with the same backends, and in the same mode
record IsSpread (p q : Pool) : Type 0 where
  balanced : IsBalanced q
  entries : (d : ℕ) → InPool q d ↔ InPool p d
  mode : q.leastweight ≡ p.leastweight

Spread-IsSpread : (p q : Pool) → p.leastweight ≡ false → IsBalanced p → Spread p q → IsSpread p q
Spread-IsSpread p q fewest h (inl (empty, same)) =
    rw same (record { balanced = h; entries = λ d. (λ i. i, λ i. i); mode = refl })
Spread-IsSpread p q fewest h (inr (b, k)) = record {
  balanced = λ c d at_c at_d.
      let in_c = (k.entries c).0 at_c in
      let in_d = (k.entries d).0 at_d in
      ground (
        arith,
        k.count c,
        k.count d,
        k.best.least d in_d,
        h c d in_c in_d,
        h c b in_c k.best.inside,
        fewest,
      );
  entries = k.entries;
  mode = k.mode;
}

-- In a state that satisfies the invariant, in the mode of the fewest connections, if the counts of any
-- two backends on the heap differ by at most one, then clients that come one after another are all
-- handled, and leave it so, with the same backends on the heap and the invariant kept.
pub clients-IsBalanced :
    (cs : List (Env × ℕ)) (s : Scheduler)
    → Inv s
    → s.pool.leastweight ≡ false
    → IsBalanced s.pool
    → Ends
        (λ t. Inv t × IsBalanced t.pool × ((d : ℕ) → InPool t.pool d ↔ InPool s.pool d))
        (clients cs s)
clients-IsBalanced [] s i fewest h = (s, refl, (i, h, λ d. (λ e. e, λ e. e)))
clients-IsBalanced ((env, conn) ∷ later) s i fewest h =
    let (t, went, (j, spread)) = on_job-Spread env s conn i in
    let k = Spread-IsSpread s.pool t.pool fewest h spread in
    let (u, ended, (l, balanced, same)) =
      clients-IsBalanced later t j (k.mode ∙ fewest) k.balanced in
    rw went (
      u,
      ended,
      (
        l,
        balanced,
        λ d. (λ e. (k.entries d).0 ((same d).0 e), λ e. (same d).1 ((k.entries d).1 e)),
      ),
    )
