-- ===== src/Scheduler/OffHeap.antt =====
-- A backend that is taken off the heap, if it is there.
use gbalancer.Prelude.{
  ℕ, ◌≤◌, ◌≡◌, refl, ◌∙◌, subst, inl, inr, none, some, arith, Option-cases, ℕ_discrete,
}
use gbalancer.Prelude.Dict.{Dict}
use gbalancer.Backend.{Backend}
use gbalancer.Pool.{Pool}
use gbalancer.Heap.Contract.{InPool, IsOrdered, Taken}
use gbalancer.Heap.Remove.{remove-Taken}
use gbalancer.State.{Scheduler, Ends, done}
use gbalancer.Scheduler.{set_pool, take_off}
use gbalancer.Scheduler.Places.{
  IsPlaced, InPool-index, unplaced_out, Taken-IsPlaced, assign, replaced_out,
}
use gbalancer.Scheduler.Invariant.{IsTracked, Places}

-- the pool `q` is `p` without the entry `b`, if that was one
pub record Without (p : Pool) (b : ℕ) (q : Pool) : Type 0 where
  pub ordered : IsOrdered q
  pub unplaced : (q.mem b).index ≡ none
  pub same_cap : q.cap ≡ p.cap
  pub no_longer : q.len ≤ p.len
  pub body : (d : ℕ) → q.mem d ≡ record (p.mem d) { index = (q.mem d).index }
  pub within : (d : ℕ) → InPool q d → InPool p d
  pub placed : (d : ℕ) → IsPlaced p d → IsPlaced q d

pub Taken-Without : (p q : Pool) (b : ℕ) → IsOrdered p → Taken p b q → Without p b q
Taken-Without p q b w t = record {
  ordered = t.ordered;
  unplaced = t.unplaced;
  same_cap = t.keeps.same_cap;
  no_longer = omega (arith, t.shorter);
  body = t.keeps.body;
  within = λ d i. (t.entries d).1 (inr i);
  placed = λ d. Taken-IsPlaced p q b d w t;
}

module _ (s : Scheduler) (b : ℕ) (h : Places s.pool s.backends s.next_backend)
    (use_of : IsTracked s.pool s.backends b) where
  pub take_off-none :
      (s.pool.mem b).index ≡ none → (take_off s b ≡ done s) × Without s.pool b s.pool
  take_off-none e = (
    rw (e, take_off),
    record {
      ordered = h.ordered;
      unplaced = e;
      same_cap = refl;
      no_longer = omega arith;
      body = λ d. refl;
      within = λ d i. i;
      placed = λ d p. p;
    },
  )

  pub take_off-some :
      (i : ℕ)
      → (s.pool.mem b).index ≡ some i
      → Ends (λ t. (q : Pool) × (t ≡ set_pool s q) × Taken s.pool b q) (take_off s b)
  take_off-some i e =
      let (hi, at) = InPool-index s.pool b i h.ordered (h.placed b use_of i e) e in
      let ((b', q), run, (b'-at, t)) = remove-Taken s.pool i h.ordered hi in
      rw (e, take_off, run) (_, refl, (q, refl, subst (λ x. Taken s.pool x q) (b'-at ∙ at) t))

  -- the call returns, and takes off no more than the backend
  pub take_off-Without :
      Ends (λ t. (q : Pool) × (t ≡ set_pool s q) × Without s.pool b q) (take_off s b)
  take_off-Without = elim (Option-cases (s.pool.mem b).index) [
    | inl e ↦ let (run, w) = take_off-none e in (s, run, (s.pool, refl, w))
    | inr (i, e) ↦
        let (t, run, (q, at, taken)) = take_off-some i e in
        (t, run, (q, at, Taken-Without s.pool q b h.ordered taken))
  ]

-- once it is off the heap, its object may change but for place and address
pub Without-Places :
    (p q : Pool) (names : Dict ℕ) (next b : ℕ) (v : Backend)
    → Places p names next
    → Without p b q
    → v.index ≡ none
    → v.address ≡ (p.mem b).address
    → Places (assign q b v) names next
Without-Places p q names next b v h w off same = record {
  ordered = replaced_out q b v w.ordered (unplaced_out q b w.ordered w.unplaced);
  placed = λ d tracked i e. elim (ℕ_discrete b d) [
    | yes self ↦ absurd (ground arith)
    | no other ↦ w.placed d (h.placed d (ground (arith, w.body d))) i (ground arith)
  ];
  listed = λ d i. ground (arith, w.body d, h.listed d (w.within d i));
  named = λ a d e. ground (arith, w.body d, h.named a d e);
  born = h.born;
  distinct = h.distinct;
}
