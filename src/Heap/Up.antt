-- ===== src/Heap/Up.antt =====
-- `up`: an entry that may be less than its parent rises to its place.
use gbalancer.Prelude.{
  ℕ, zero, suc, ◌+◌, ◌≤◌, ◌<◌, ◌≡◌, refl, ◌⊎◌, inl, inr, arith, Returns, Bool-cases, ltb, ◌==◌,
}
use gbalancer.Pool.{Pool, exchange}
use gbalancer.Heap.{parent, up, up_loop}
use gbalancer.Heap.Order.{key, IsIndexed, IsHeapTo, Risen, swap-ok, less-ok, key-exchange}
use gbalancer.Heap.Sift.{Sift, Sift-refl, Sift-trans, exchange-Sift}

module _ (n : ℕ) (p : Pool) (j : ℕ) (hj : j < n) (r : Risen n j p) where
  -- the entry stops
  settled : (parent j ≡ j) ⊎ (key p (parent j) ≤ key p j) → IsHeapTo n p
  settled stop c h0 hc = ground (arith, r.edges c h0 hc)

  -- the entry rises by one level
  rises : 0 < j → key p j < key p (parent j) → Risen n (parent j) (exchange p (parent j) j)
  rises h0 below = record {
    edges = λ c c0 hc ne. ground (
      arith,
      key-exchange p (parent j) j c,
      key-exchange p (parent j) j (parent c),
      r.edges c c0 hc,
      r.bridge c c0 hc,
      r.edges (parent j),
    );
    bridge = λ c c0 hc e k0. ground (
      arith,
      key-exchange p (parent j) j c,
      key-exchange p (parent j) j (parent (parent j)),
      r.edges c c0 hc,
      r.edges (parent j),
    );
  }

up_loop_sorts :
    (k n : ℕ) (p : Pool) (j : ℕ)
    → j < k
    → j < n
    → n ≤ p.len
    → IsIndexed p
    → Risen n j p
    → Returns (λ q. Sift n p q × IsHeapTo n q) (up_loop k p j)
unfolding up_loop
up_loop_sorts zero n p j hk hj hn x r = absurd (omega arith)
up_loop_sorts (suc k) n p j hk hj hn x r = elim (Bool-cases (parent j == j)) [
  | inl root ↦ rw root (p, refl, (Sift-refl n p x, settled n p j hj r (ground arith)))
  | inr inner ↦
      rw (inner, less-ok p j (parent j) (omega arith) (ground arith))
        (elim (Bool-cases (ltb (key p j) (key p (parent j)))) [
          | inl below ↦
              let sift = exchange-Sift n p (parent j) j (ground arith) hj hn x in
              let r' = rises n p j hj r (ground arith) (ground arith) in
              let (q, run, (s, h)) =
                up_loop_sorts k n (exchange p (parent j) j) (parent j) (ground arith) (ground arith)
                  hn sift.indexed r' in
              rw (below, swap-ok p (parent j) j (ground arith) (omega arith))
                (q, run, (Sift-trans sift s, h))
          | inr above ↦ rw above (p, refl, (Sift-refl n p x, settled n p j hj r (ground arith)))
        ])
]

-- `up` puts a heap in order where only `j` may be less than its parent.
pub up_sorts :
    (n : ℕ) (p : Pool) (j : ℕ)
    → j < n
    → n ≤ p.len
    → IsIndexed p
    → Risen n j p
    → Returns (λ q. Sift n p q × IsHeapTo n q) (up p j)
unfolding up
up_sorts n p j hj hn x r = up_loop_sorts (j + 1) n p j (omega arith) hj hn x r
