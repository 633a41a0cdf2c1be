-- ===== src/Heap.antt =====
-- Go's container/heap as the scheduler calls it, over the methods of Pool: `Pop` of the root is
-- `take_top`, `Push` is `add` and `Remove` is `remove`. Pool never holds more than `cap` entries,
-- 8192 for the scheduler, so the indices do not overflow.
pub mod Order
pub mod Sift
pub mod Up
pub mod Down
pub mod Contract
pub mod Add
pub mod Remove
pub mod View
pub mod Frame
use gbalancer.Prelude.{
  ℕ, zero, suc, ◌+◌, ◌-◌, ◌*◌, ◌/◌, not, Run, ok, panic, exhausted, ◌>>=◌, ltb, ◌==◌, if◌then◌else◌,
}
use gbalancer.Pool.{Pool, less, swap, push, pop}

abbrev pub parent : ℕ → ℕ
parent c = (c - 1) / 2

-- One round for each level, so `j + 1` rounds are enough.
pub up_loop : ℕ → Pool → ℕ → Run Pool
up_loop zero p j = exhausted
up_loop (suc k) p j =
    let rise = swap p (parent j) j >>= λ q. up_loop k q (parent j) in
    let step = less p j (parent j) >>= λ below. if below then rise else ok p in
    if parent j == j then ok p else step

unfoldable pub up : Pool → ℕ → Run Pool
unfolding up_loop
up p j = up_loop (j + 1) p j

-- the smaller child of `i` among the first `n` entries, the right one if they are equal
pub smaller_child : Pool → ℕ → ℕ → Run ℕ
smaller_child p i n =
    let left = 2 * i + 1 in
    let right = left + 1 in
    if ltb right n
    then (less p left right >>= λ below. ok (if not below then right else left))
    else ok left

pub down_loop : ℕ → Pool → ℕ → ℕ → Run Pool
down_loop zero p i n = exhausted
down_loop (suc k) p i n =
    let step = smaller_child p i n >>= λ j. less p j i >>= λ below.
    let sink = swap p i j >>= λ q. down_loop k q j n in if below then sink else ok p in
    if ltb (2 * i + 1) n then step else ok p

unfoldable pub down : Pool → ℕ → ℕ → Run Pool
unfolding down_loop smaller_child
down p i n = down_loop (n + 1) p i n

-- heap.Push
unfoldable pub add : Pool → ℕ → Run Pool
add p b = push p b >>= λ q. up q (q.len - 1)

-- heap.Pop
unfoldable pub take_top : Pool → Run (ℕ × Pool)
take_top p =
    let n = p.len - 1 in
    let rest = swap p 0 n >>= λ q. down q 0 n >>= λ r. pop r in if p.len == 0 then panic else rest

-- heap.Remove
unfoldable pub remove : Pool → ℕ → Run (ℕ × Pool)
remove p i =
    let n = p.len - 1 in
    let sifted = swap p i n >>= λ q. down q i n >>= λ r. up r i in
    if p.len == 0 then panic else ((if n == i then ok p else sifted) >>= λ q. pop q)
