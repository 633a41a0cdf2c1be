-- ===== src/Heap/Contract.antt =====
-- What heap.Push, heap.Pop and heap.Remove promise: the entries, their places and their order.
use gbalancer.Prelude.{ℕ, ◌+◌, ◌≤◌, ◌<◌, ◌≡◌, ◌≢◌, ◌⊎◌, ◌↔◌, none}
use gbalancer.Pool.{Pool}
use gbalancer.Heap.Order.{IsIndexed, IsHeapTo}

-- the pointers of the pool
abbrev pub InPool : Pool → ℕ → Type 0
InPool p b = (i : ℕ) × (i < p.len) × (p.slots i ≡ b)

-- The pool between two calls: within its capacity, in order, and every entry knows its place.
pub record IsOrdered (p : Pool) : Type 0 where
  pub fits : p.len ≤ p.cap
  pub indexed : IsIndexed p
  pub heap : IsHeapTo p.len p

-- what every call leaves alone: of the objects at most the places change
pub record Keeps (p q : Pool) : Type 0 where
  pub same_cap : q.cap ≡ p.cap
  pub same_mode : q.leastweight ≡ p.leastweight
  pub body : (b : ℕ) → q.mem b ≡ record (p.mem b) { index = (q.mem b).index }

-- the pool `q` is `p` with the entry `b` added
pub record Added (p : Pool) (b : ℕ) (q : Pool) : Type 0 where
  pub ordered : IsOrdered q
  pub keeps : Keeps p q
  pub longer : q.len ≡ p.len + 1
  pub entries : (c : ℕ) → InPool q c ↔ ((c ≡ b) ⊎ InPool p c)
  pub others : (c : ℕ) → c ≢ b → ¬ InPool p c → q.mem c ≡ p.mem c

-- the pool `q` is `p` with the entry `b` taken out
pub record Taken (p : Pool) (b : ℕ) (q : Pool) : Type 0 where
  pub ordered : IsOrdered q
  pub keeps : Keeps p q
  pub shorter : q.len + 1 ≡ p.len
  pub was_in : InPool p b
  pub is_out : ¬ InPool q b
  pub unplaced : (q.mem b).index ≡ none
  pub entries : (c : ℕ) → InPool p c ↔ ((c ≡ b) ⊎ InPool q c)
  pub others : (c : ℕ) → ¬ InPool p c → q.mem c ≡ p.mem c
