-- ===== src/Heap/Down.antt =====
-- `down`: an entry that may be greater than its children sinks to its place.
use gbalancer.Prelude.{
  ℕ, zero, suc, ◌+◌, ◌*◌, ◌≤◌, ◌<◌, ◌≡◌, refl, ◌⊎◌, inl, inr, arith, Returns, Bool-cases, ltb,
}
use gbalancer.Pool.{Pool, exchange}
use gbalancer.Heap.{parent, smaller_child, down, down_loop}
use gbalancer.Heap.Order.{key, IsIndexed, Risen, Sunk, swap-ok, less-ok, key-exchange}
use gbalancer.Heap.Sift.{Sift, Sift-refl, Sift-trans, exchange-Sift}

-- the child that `down` picks: no child is smaller
pub record Least (n i j : ℕ) (p : Pool) : Type 0 where
  pub child : parent j ≡ i
  pub later : i < j
  pub inside : j < n
  pub least : (c : ℕ) → 0 < c → c < n → parent c ≡ i → key p j ≤ key p c

child_cases : (c i : ℕ) → 0 < c → parent c ≡ i → (c ≡ 2 * i + 1) ⊎ (c ≡ 2 * i + 1 + 1)
child_cases c i h0 e = omega arith

smaller_child-Least :
    (p : Pool) (i n : ℕ)
    → n ≤ p.len
    → 2 * i + 1 < n
    → Returns (λ j. Least n i j p) (smaller_child p i n)
unfolding smaller_child
smaller_child-Least p i n hn h = elim (Bool-cases (ltb (2 * i + 1 + 1) n)) [
  | inl two ↦
      rw (two, less-ok p (2 * i + 1) (2 * i + 1 + 1) (ground arith) (ground arith))
        (elim (Bool-cases (ltb (key p (2 * i + 1)) (key p (2 * i + 1 + 1)))) [
          | inl left ↦ rw left (
            2 * i + 1,
            refl,
            record {
              child = omega arith;
              later = omega arith;
              inside = h;
              least = λ c h0 hc e. ground (arith, child_cases c i h0 e);
            },
          )
          | inr right ↦ rw right (
            2 * i + 1 + 1,
            refl,
            record {
              child = omega arith;
              later = omega arith;
              inside = ground arith;
              least = λ c h0 hc e. ground (arith, child_cases c i h0 e);
            },
          )
        ])
  | inr one ↦ rw one (
    2 * i + 1,
    refl,
    record {
      child = omega arith;
      later = omega arith;
      inside = h;
      least = λ c h0 hc e. ground (arith, child_cases c i h0 e);
    },
  )
]

module _ (n i k : ℕ) (p : Pool) (s : Sunk n i k p) where
  -- the entry stops
  settled : i ≤ k → ((c : ℕ) → 0 < c → c < n → parent c ≡ k → key p k ≤ key p c) → Risen n i p
  settled hik stop = record {
    edges = λ c h0 hc ne. ground (arith, s.edges c h0 hc, stop c h0 hc);
    bridge = λ c h0 hc e i0.
        ground (arith, s.edges c h0 hc, s.bridge c h0 hc, stop c h0 hc, s.edges i i0);
  }

  -- the entry sinks by one level
  sinks :
      (j : ℕ) → i ≤ k → n ≤ p.len → Least n k j p → key p j < key p k → Sunk n i j (exchange p k j)
  sinks j hik hn l below = record {
    edges = λ c h0 hc np ni. ground (
      arith,
      key-exchange p k j c,
      key-exchange p k j (parent c),
      s.edges c h0 hc,
      s.bridge j,
      l.least c h0 hc,
    );
    bridge = λ c h0 hc e j0.
        ground (arith, key-exchange p k j c, key-exchange p k j (parent j), s.edges c h0 hc);
  }

down_loop_sorts :
    (f : ℕ) (n i k : ℕ) (p : Pool)
    → n < f + k
    → i ≤ k
    → k < n
    → n ≤ p.len
    → IsIndexed p
    → Sunk n i k p
    → Returns (λ q. Sift n p q × Risen n i q) (down_loop f p k n)
unfolding down_loop
down_loop_sorts zero n i k p hf hik hk hn x s = absurd (omega arith)
down_loop_sorts (suc f) n i k p hf hik hk hn x s = elim (Bool-cases (ltb (2 * k + 1) n)) [
  | inl more ↦
      let (j, picked, l) = smaller_child-Least p k n hn (ground arith) in
      let hj : j < p.len = omega (arith, l.inside) in
      rw (more, picked, less-ok p j k hj (omega arith))
        (elim (Bool-cases (ltb (key p j) (key p k))) [
          | inl below ↦
              let sift = exchange-Sift n p k j hk l.inside hn x in
              let (q, run, (s', r)) =
                down_loop_sorts f n i j (exchange p k j) (omega (arith, l.later))
                  (omega (arith, l.later)) l.inside hn sift.indexed
                  (sinks n i k p s j hik hn l (ground arith)) in
              rw (below, swap-ok p k j (omega arith) hj) (q, run, (Sift-trans sift s', r))
          | inr above ↦ rw above (
            p,
            refl,
            (Sift-refl n p x, settled n i k p s hik (λ c h0 hc e. ground (arith, l.least c h0 hc))),
          )
        ])
  | inr leaf ↦
      rw leaf
        (p, refl, (Sift-refl n p x, settled n i k p s hik (λ c h0 hc e. absurd (ground arith))))
]

-- `down` from `i` leaves a heap in which only `i` may be less than its parent.
pub down_sorts :
    (n i : ℕ) (p : Pool)
    → i < n
    → n ≤ p.len
    → IsIndexed p
    → Sunk n i i p
    → Returns (λ q. Sift n p q × Risen n i q) (down p i n)
unfolding down
down_sorts n i p hi hn x s = down_loop_sorts (n + 1) n i i p (omega arith) (omega arith) hi hn x s
