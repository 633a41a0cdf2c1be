-- ===== src/Daemon/Loop.antt =====
-- The loops that start something again: supervise, and runLoop of daemon/daemon.go.
use Prim.Native.String.{String}
use gbalancer.Prelude.Lists.{length}
use gbalancer.Prelude.{
  ℕ, zero, suc, ap, Option, none, some, ◌++◌, ◌+◌, ◌*◌, ◌≤◌, ◌<◌, ◌≡◌, refl, ◌⊎◌, inl, inr, Bool,
  true, false, List, [], ◌∷◌, arith, Bool-cases, ltb, ◌-◌,
}
use gbalancer.Daemon.Supervisor.{
  Watch, worker_ended, waits, gives_up, start_worker, second, pause, Round, supervise,
}

-- what recover returns: the panic that is under way in a deferred function, and nil elsewhere
abbrev pub recover : (deferred : Bool) → Option String → Option String
recover true under_way = under_way
recover false under_way = none

-- RunWait of a handler that panics with a value, or returns: the panics that it logs, and how it ends.
-- It calls recover before the handler, and not in a deferred function.
unfoldable pub run_wait : Option String → List String × Option String
run_wait handler = (elim (recover false none) [ none ↦ [] | some p ↦ p ∷ [] ], handler)

-- What runLoop does: the times at which it calls the handler, the panics that are logged, and the one
-- that ends the process.
pub record Loop : Type 0 where
  pub calls : List ℕ
  pub logged : List String
  pub ended : Option String

-- runLoop over the runs of the handler, of which each panics or not and takes its time
unfoldable pub run_loop : ℕ → List (Option String × ℕ) → Loop
unfolding run_wait
run_loop now [] = record { calls = []; logged = []; ended = none }
run_loop now ((handler, takes) ∷ runs) =
    let later = run_loop (pause 6 now (now + takes)) runs in
    let (logged, result) = run_wait handler in
    elim result [
      | some p ↦ record { calls = now ∷ []; logged = logged; ended = some p }
      | none ↦ record {
        calls = now ∷ later.calls;
        logged = logged ++ later.logged;
        ended = later.ended;
      }
    ]

-- RunForever returns at once; this is what its goroutine does
unfoldable pub run_forever : ℕ → List (Option String × ℕ) → Loop
unfolding run_loop
run_forever now runs = run_loop now runs

-- RunOnce, likewise
unfoldable pub run_once : ℕ → Option String → Loop
unfolding run_wait
run_once now handler =
    let (logged, result) = run_wait handler in
    record { calls = now ∷ []; logged = logged; ended = result }

pause_long :
    (k start now : ℕ)
    → start + 5 * second < now + k * second
    → start + 5 * second < pause k start now
unfolding pause
pause_long zero start now h = omega arith
pause_long (suc k) start now h = elim (Bool-cases (ltb (5 * second) (now - start))) [
  | inl over ↦ rw (over, pause) (ground arith)
  | inr early ↦ rw (early, pause) (pause_long k start (now + second) (omega arith))
]

pause_short :
    (k start now : ℕ)
    → start ≤ now
    → (pause k start now ≡ now) ⊎ (pause k start now ≤ start + 6 * second)
unfolding pause
pause_short zero start now h = inl refl
pause_short (suc k) start now h = elim (Bool-cases (ltb (5 * second) (now - start))) [
  | inl over ↦ inl (rw (over, pause) refl)
  | inr early ↦
      rw (early, pause)
        (elim (pause_short k start (now + second) (omega arith)) [
          | inl at ↦ inr (ground arith)
          | inr soon ↦ inr soon
        ])
]

-- Six sleeps are enough: the wait after a worker ends at once if that has lived for more than five
-- seconds, and otherwise between five and six seconds after the start.
pause_bounds :
    (start lives : ℕ)
    → (start + 5 * second < pause 6 start (start + lives))
      × ((pause 6 start (start + lives) ≡ start + lives)
          ⊎ (pause 6 start (start + lives) ≤ start + 6 * second))
pause_bounds start lives = (
  pause_long 6 start (start + lives) (omega arith),
  pause_short 6 start (start + lives) (omega arith),
)

-- none of the times is before `t`, and each is more than five seconds after the one before
abbrev pub IsSpaced : ℕ → List ℕ → Type 0
IsSpaced t [] = Unit {0}
IsSpaced t (a ∷ rest) = (t ≤ a) × IsSpaced (a + 5 * second + 1) rest

supervise_from : (rounds : List Round) (t now : ℕ) → t ≤ now → IsSpaced t (supervise now rounds).0
unfolding supervise
supervise_from [] t now h = tt
supervise_from (r ∷ rounds) t now h =
    let later =
      supervise_from rounds (now + 5 * second + 1) (pause 6 now (now + r.lives))
        (omega (arith, (pause_bounds now r.lives).0)) in
    each (start_worker r.can_start r.signals) refl later
  where
    each :
        (w : Watch)
        → start_worker r.can_start r.signals ≡ w
        → IsSpaced (now + 5 * second + 1) (supervise (pause 6 now (now + r.lives)) rounds).0
        → IsSpaced t (supervise now (r ∷ rounds)).0
    each worker_ended e later = rw (e, supervise) (h, later)
    each waits e later = rw (e, supervise) (h, tt)
    each (gives_up code sent) e later = rw (e, supervise) (h, tt)

-- The supervisor never tries to start a worker twice within five seconds, whatever the workers and
-- the signals do.
supervise-IsSpaced : (now : ℕ) (rounds : List Round) → IsSpaced now (supervise now rounds).0
supervise-IsSpaced now rounds = supervise_from rounds now now (omega arith)

-- the runs up to the first that panics, and that panic
abbrev pub runs_until : List (Option String × ℕ) → List (Option String × ℕ)
runs_until [] = []
runs_until ((some p, takes) ∷ runs) = (some p, takes) ∷ []
runs_until ((none, takes) ∷ runs) = (none, takes) ∷ runs_until runs

abbrev pub first_panic : List (Option String × ℕ) → Option String
first_panic [] = none
first_panic ((some p, takes) ∷ runs) = some p
first_panic ((none, takes) ∷ runs) = first_panic runs

run_loop_from :
    (runs : List (Option String × ℕ)) (t now : ℕ) → t ≤ now → IsSpaced t (run_loop now runs).calls
unfolding run_loop
run_loop_from [] t now h = tt
run_loop_from ((some p, takes) ∷ runs) t now h = (h, tt)
run_loop_from ((none, takes) ∷ runs) t now h = (
  h,
  run_loop_from runs (now + 5 * second + 1) (pause 6 now (now + takes))
      (omega (arith, (pause_bounds now takes).0)),
)

run_loop_calls :
    (runs : List (Option String × ℕ)) (now : ℕ)
    → length (run_loop now runs).calls ≡ length (runs_until runs)
unfolding run_loop
run_loop_calls [] now = refl
run_loop_calls ((some p, takes) ∷ runs) now = refl
run_loop_calls ((none, takes) ∷ runs) now = ap suc (run_loop_calls runs (pause 6 now (now + takes)))

run_loop_ended :
    (runs : List (Option String × ℕ)) (now : ℕ)
    → ((run_loop now runs).ended ≡ first_panic runs) × ((run_loop now runs).logged ≡ [])
unfolding run_loop
run_loop_ended [] now = (refl, refl)
run_loop_ended ((some p, takes) ∷ runs) now = (refl, refl)
run_loop_ended ((none, takes) ∷ runs) now = run_loop_ended runs (pause 6 now (now + takes))

-- The goroutine of RunForever calls its handler at times that are more than five seconds apart, up to
-- and including the first run that panics and not again after it; that panic ends the process, and none
-- is ever logged.
pub run_loop_lem :
    (now : ℕ) (runs : List (Option String × ℕ))
    → let l = run_forever now runs in
      IsSpaced now l.calls
      × (length l.calls ≡ length (runs_until runs))
      × (l.ended ≡ first_panic runs)
      × (l.logged ≡ [])
unfolding run_forever
run_loop_lem now runs =
    let (ended, quiet) = run_loop_ended runs now in
    (run_loop_from runs now now (omega arith), run_loop_calls runs now, ended, quiet)
