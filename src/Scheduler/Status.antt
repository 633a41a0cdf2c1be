-- ===== src/Scheduler/Status.antt =====
-- The status case keeps the invariant and the waiting requests, and follows the message.
use Prim.Native.String.{String}
use gbalancer.Prelude.{ℕ, ◌+◌, ◌≤◌, ◌≡◌, Bool, not, ◌&&◌, ◌||◌, ltb, arith}
use gbalancer.Prelude.Dict.{Dict, lookup, has, Distinct}
use gbalancer.Prelude.Lists.{length}
use gbalancer.State.{Scheduler, Env, Ends}
use gbalancer.Scheduler.{ordered_names, on_status}
use gbalancer.Scheduler.Moves.{Moved, Moved-trans, Apart-Books}
use gbalancer.Scheduler.Names.{
  AllNew-of, IsFair, tally-ordered_names, Registered-self, length-ordered_names,
}
use gbalancer.Scheduler.Invariant.{Inv}
use gbalancer.Scheduler.BringUp.{bring_up_all-Moved}
use gbalancer.Scheduler.Review.{review-Reviewed}

-- whether an address is registered after a message
abbrev pub followed : Scheduler → Dict ℕ → String → Bool
followed s active a = has (lookup a active) && (not (ltb 0 s.tunnels) || has (lookup a s.backends))

pub on_status-Moved :
    (env : Env) (s : Scheduler) (active : Dict ℕ)
    → IsFair env
    → Inv s
    → Distinct active
    → s.pool.len + length s.backends + length active ≤ s.pool.cap
    → Ends
        (λ t.
          ((k : ℕ) × Moved k s t)
          × ((a : String) → has (lookup a t.backends) ≡ followed s active a))
        (on_status env s active)
unfolding on_status
on_status-Moved env s active f i d room =
    review-Reviewed _ _ s.backends active s i.places (Registered-self s.backends i.places.distinct)
      d (omega arith)
      λ t rest r.
        let known : Distinct rest = r.distinct in
        let new =
          AllNew-of t.backends (ordered_names env rest)
            (λ a. ground (arith, tally-ordered_names env rest a f known))
            (λ a n. ground (arith, r.kept a, tally-ordered_names env rest a f known, r.left a)) in
        let (u, run, (m, more)) =
          bring_up_all-Moved env (ordered_names env rest) t r.moved.places
            (λ b n. ground (arith, r.moved.apart.counts b, i.books.idle b, r.moved.apart.later)) new
            (omega (
              arith,
              length-ordered_names env rest,
              r.shorter,
              r.moved.grows,
              r.moved.apart.cap,
            )) in
        (
          u,
          run,
          (
            (_, Moved-trans (length s.backends) _ s t u r.moved m),
            λ a. ground (
              arith,
              more a,
              r.kept a,
              r.left a,
              r.moved.apart.tunnels,
              tally-ordered_names env rest a f known,
            ),
          ),
        )

-- In a state that satisfies the invariant, with a rand.Perm that returns permutations, and for a map
-- of active backends without a repeated key that leaves room on the heap, the status case returns and
-- keeps the invariant; and the waiting and the running requests are the same as before.
pub on_status-Inv :
    (env : Env) (s : Scheduler) (active : Dict ℕ)
    → IsFair env
    → Inv s
    → Distinct active
    → s.pool.len + length s.backends + length active ≤ s.pool.cap
    → Ends (λ t. Inv t × (t.pending ≡ s.pending) × (t.running ≡ s.running)) (on_status env s active)
on_status-Inv env s active f i d room =
    let (t, run, ((k, m), _)) = on_status-Moved env s active f i d room in
    (
      t,
      run,
      (
        record { places = m.places; books = Apart-Books s t m.apart i.books },
        m.apart.pending,
        m.apart.running,
      ),
    )

-- In a state that satisfies the invariant, with a rand.Perm that returns permutations, and for a map
-- of active backends without a repeated key that leaves room on the heap: after the status case an
-- address is registered if it is in the message and, with tunnels, was registered before. So none that
-- the message does not list stays, and without tunnels the registered ones are exactly those of the
-- message.
on_status_registry :
    (env : Env) (s : Scheduler) (active : Dict ℕ)
    → IsFair env
    → Inv s
    → Distinct active
    → s.pool.len + length s.backends + length active ≤ s.pool.cap
    → Ends
        (λ t.
          (a : String)
          → has (lookup a t.backends)
            ≡ (has (lookup a active) && (not (ltb 0 s.tunnels) || has (lookup a s.backends))))
        (on_status env s active)
on_status_registry env s active f i d room =
    let (t, run, (_, same)) = on_status-Moved env s active f i d room in (t, run, same)
