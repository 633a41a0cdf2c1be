-- ===== src/Pool.antt =====
-- engine/native/pool.go: the methods of Pool, which container/heap calls.
use gbalancer.Prelude.{
  ℕ, ◌+◌, ◌-◌, Bool, ◌&&◌, Option, none, some, Run, ok, panic, ltb, update, if◌then◌else◌,
}
use gbalancer.Backend.{Backend}

-- A Pool with the objects that its pointers lead to. `slots` is the array behind the slice
-- `backends`, of which the slice shows the first `len` of `cap` entries. A pointer is a number.
pub record Pool : Type 0 where
  pub slots : ℕ → ℕ
  pub len : ℕ
  pub cap : ℕ
  pub leastweight : Bool
  pub mem : ℕ → Backend

-- what the heap is ordered by
abbrev pub rank : Pool → ℕ → ℕ
rank p b = if p.leastweight then (p.mem b).weight else (p.mem b).ongoing

-- `b.index = i`
abbrev pub set_index : (ℕ → Backend) → ℕ → Option ℕ → ℕ → Backend
set_index mem b i = update mem b (record (mem b) { index = i })

unfoldable pub less : Pool → ℕ → ℕ → Run Bool
less p i j =
    if ltb i p.len && ltb j p.len then ok (ltb (rank p (p.slots i)) (rank p (p.slots j))) else panic

-- the assignments of Swap, in range
abbrev pub exchange : Pool → ℕ → ℕ → Pool
exchange p i j =
    let n = update (update p.slots i (p.slots j)) j (p.slots i) in
    record p { slots = n; mem = set_index (set_index p.mem (n i) (some i)) (n j) (some j) }

unfoldable pub swap : Pool → ℕ → ℕ → Run Pool
swap p i j = if ltb i p.len && ltb j p.len then ok (exchange p i j) else panic

-- `n[0 : l+1]` panics past the capacity
unfoldable pub push : Pool → ℕ → Run Pool
push p b =
    if ltb p.len p.cap
    then ok (record p {
      slots = update p.slots p.len b;
      len = p.len + 1;
      mem = set_index p.mem b (some p.len);
    })
    else panic

unfoldable pub pop : Pool → Run (ℕ × Pool)
pop p =
    if ltb 0 p.len
    then (let b = p.slots (p.len - 1) in
        ok (b, record p { len = p.len - 1; mem = set_index p.mem b none }))
    else panic
