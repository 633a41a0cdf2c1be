-- ===== src/Scheduler/Invariant.antt =====
-- The invariant of the scheduler: its places and its books.
use Prim.Native.String.{String}
use gbalancer.Prelude.{
  ℕ, ◌+◌, ◌≤◌, ◌<◌, ◌≡◌, refl, ◌⊎◌, Bool, true, false, List, [], ◌∷◌, ◌++◌, none, some, arith, ◌==◌,
  update, if◌then◌else◌,
}
use gbalancer.Prelude.Dict.{Dict, lookup, Distinct}
use gbalancer.Prelude.Lists.{mult}
use gbalancer.Pool.{Pool}
use gbalancer.Heap.Contract.{InPool, IsOrdered}
use gbalancer.State.{Request, Scheduler, max_forwarders_per_backend}
use gbalancer.Scheduler.Places.{IsPlaced}

abbrev pub serves : (ℕ → Request) → ℕ → ℕ → Bool
serves reqs b r = elim (reqs r).backend [ none ↦ false | some c ↦ c == b ]

-- how many requests of a list are assigned to a backend
abbrev pub tally : (ℕ → Request) → ℕ → List ℕ → ℕ
tally reqs b [] = 0
tally reqs b (x ∷ xs) = (if serves reqs b x then 1 else 0) + tally reqs b xs

pub mult-append : (r : ℕ) (xs ys : List ℕ) → mult r (xs ++ ys) ≡ mult r xs + mult r ys
mult-append r [] ys = omega arith
mult-append r (x ∷ xs) ys = omega (arith, mult-append r xs ys)

pub tally-append :
    (reqs : ℕ → Request) (b : ℕ) (xs ys : List ℕ)
    → tally reqs b (xs ++ ys) ≡ tally reqs b xs + tally reqs b ys
tally-append reqs b [] ys = omega arith
tally-append reqs b (x ∷ xs) ys = omega (arith, tally-append reqs b xs ys)

serves-update :
    (reqs : ℕ → Request) (b r x : ℕ) (v : Request)
    → (r == x) ≡ false
    → serves (update reqs r v) b x ≡ serves reqs b x
serves-update reqs b r x v e = rw (e, serves)

-- a write to a request that is not in the list changes no tally
pub tally-update :
    (reqs : ℕ → Request) (b r : ℕ) (v : Request) (xs : List ℕ)
    → mult r xs ≡ 0
    → tally (update reqs r v) b xs ≡ tally reqs b xs
tally-update reqs b r v [] h = refl
tally-update reqs b r v (x ∷ xs) h =
    let apart : (r == x) ≡ false = ground arith in
    let rest : mult r xs ≡ 0 = omega arith in
    rw (serves-update reqs b r x v apart, tally-update reqs b r v xs rest)

-- a request that is started for `b` counts for `b` alone
pub tally-start :
    (reqs : ℕ → Request) (b c r : ℕ) (xs : List ℕ)
    → mult r xs ≡ 0
    → tally (update reqs r (record (reqs r) { backend = some b })) c (r ∷ xs)
      ≡ (if b == c then 1 else 0) + tally reqs c xs
tally-start reqs b c r xs h =
    let self : (r == r) ≡ true = ground arith in
    rw (tally-update reqs c r (record (reqs r) { backend = some b }) xs h, self, serves)

-- in use: with requests, or the registered backend of its address
abbrev pub IsTracked : Pool → Dict ℕ → ℕ → Type 0
IsTracked p names b = (0 < (p.mem b).ongoing) ⊎ (lookup (p.mem b).address names ≡ some b)

-- The heap is in order, a backend in use with a place is in the pool, and the pool's backends are
-- the ones registered under their addresses.
pub record Places (p : Pool) (names : Dict ℕ) (next : ℕ) : Type 0 where
  pub ordered : IsOrdered p
  pub placed : (b : ℕ) → IsTracked p names b → IsPlaced p b
  pub listed : (b : ℕ) → InPool p b → lookup (p.mem b).address names ≡ some b
  pub named : (a : String) (b : ℕ) → lookup a names ≡ some b → (p.mem b).address ≡ a
  pub born : (a : String) (b : ℕ) → lookup a names ≡ some b → b < next
  pub distinct : Distinct names

-- the requests that are under way, and those of them that are assigned to a backend
abbrev pub held : Scheduler → ℕ → ℕ
held s r = mult r s.running + mult r s.finished + mult r s.pending

abbrev pub load : Scheduler → ℕ → ℕ
load s b = tally s.requests b s.running + tally s.requests b s.finished

-- A backend's count is the number of its requests and within the limit, no request is under way
-- twice, and each that was dispatched has a backend.
pub record Books (s : Scheduler) : Type 0 where
  pub busy : (b : ℕ) → (s.pool.mem b).ongoing ≡ load s b
  pub bounded : (b : ℕ) → (s.pool.mem b).ongoing ≤ max_forwarders_per_backend
  pub idle : (b : ℕ) → s.next_backend ≤ b → (s.pool.mem b).ongoing ≡ 0
  pub once : (r : ℕ) → held s r ≤ 1
  pub unborn : (r : ℕ) → s.next_request ≤ r → held s r ≡ 0
  pub assigned :
      (r : ℕ)
      → 0 < mult r s.running + mult r s.finished
      → (b : ℕ) × ((s.requests r).backend ≡ some b)

pub record Inv (s : Scheduler) : Type 0 where
  pub places : Places s.pool s.backends s.next_backend
  pub books : Books s
