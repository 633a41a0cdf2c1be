-- ===== src/Heap/Order.antt =====
-- The order that container/heap keeps, and what one swap does to it.
use gbalancer.Prelude.{ℕ, ◌≤◌, ◌<◌, ◌≡◌, ◌≢◌, some, arith, ◌==◌, if◌then◌else◌, ok, ltb}
use gbalancer.Pool.{Pool, rank, less, exchange, swap}
use gbalancer.Heap.{parent}

abbrev pub key : Pool → ℕ → ℕ
key p i = rank p (p.slots i)

-- every entry knows its place
abbrev pub IsIndexed : Pool → Type 0
IsIndexed p = (i : ℕ) → i < p.len → (p.mem (p.slots i)).index ≡ some i

-- none of the first `n` entries is less than its parent
abbrev pub IsHeapTo : ℕ → Pool → Type 0
IsHeapTo n p = (c : ℕ) → 0 < c → c < n → key p (parent c) ≤ key p c

-- Among the first `n` entries only `j` may be less than its parent, which is at most its children.
pub record Risen (n j : ℕ) (p : Pool) : Type 0 where
  pub edges : (c : ℕ) → 0 < c → c < n → c ≢ j → key p (parent c) ≤ key p c
  pub bridge : (c : ℕ) → 0 < c → c < n → parent c ≡ j → 0 < j → key p (parent j) ≤ key p c

-- Among the first `n` entries only `k` may be greater than its children. While `k` is the place
-- `i` where the descent began it may be less than its parent too.
pub record Sunk (n i k : ℕ) (p : Pool) : Type 0 where
  pub edges : (c : ℕ) → 0 < c → c < n → parent c ≢ k → (c ≡ i → k ≢ i) → key p (parent c) ≤ key p c
  pub bridge : (c : ℕ) → 0 < c → c < n → parent c ≡ k → 0 < k → key p (parent k) ≤ key p c

pub swap-ok : (p : Pool) (i j : ℕ) → i < p.len → j < p.len → swap p i j ≡ ok (exchange p i j)
unfolding swap
swap-ok p i j hi hj = ground arith

pub less-ok :
    (p : Pool) (i j : ℕ) → i < p.len → j < p.len → less p i j ≡ ok (ltb (key p i) (key p j))
unfolding less
less-ok p i j hi hj = ground arith

pub rank-exchange : (p : Pool) (i j b : ℕ) → rank (exchange p i j) b ≡ rank p b
rank-exchange p i j b = ground arith

pub key-exchange :
    (p : Pool) (i j c : ℕ)
    → key (exchange p i j) c ≡ (if j == c then key p i else if i == c then key p j else key p c)
key-exchange p i j c = ground (
  arith,
  rank-exchange p i j (p.slots i),
  rank-exchange p i j (p.slots j),
  rank-exchange p i j (p.slots c),
)
