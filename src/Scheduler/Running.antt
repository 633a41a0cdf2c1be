-- ===== src/Scheduler/Running.antt =====
-- engine/native/scheduler.go: the goroutine `run`, from its start to the send on `done`.
pub mod Laws
use Prim.Native.String.{String}
use gbalancer.Prelude.{
  ℕ, zero, suc, ◌+◌, ◌<◌, ◌≡◌, refl, Bool, true, false, List, [], ◌∷◌, ◌++◌, Option, none, some,
  arith, ◌==◌, ==_iff, update, if◌then◌else◌, Option-cases, Bool-cases, inl, inr, ap, ℕ_discrete,
  ◌%◌, ◌^◌,
}
use gbalancer.Prelude.Lists.{mult, get_elem?}
use gbalancer.Backend.{
  Backend, GoError, Dialed, connected, refused, forward_loop, forwarder_new_connection,
}
use gbalancer.Backend.Check.{SameEntry}
use gbalancer.State.{
  Request, Effect, close_spdy, fail_session, Scheduler, Exec, done, died, Ends, ◌>>◌,
}
use gbalancer.Scheduler.{set_backend}
use gbalancer.Scheduler.Invariant.{serves, tally, mult-append, tally-append, Inv}
use gbalancer.Scheduler.Ready.{replace-Inv}

-- a goroutine ends
unfoldable pub drop_one : ℕ → List ℕ → List ℕ
drop_one r [] = []
drop_one r (x ∷ xs) = if r == x then xs else x ∷ drop_one r xs

-- what ForwarderNewConnection does with the tunnels that fail
abbrev pub given_up : ℕ → List (ℕ × ℕ) → List Effect
given_up b [] = []
given_up b ((index, c) ∷ rest) = close_spdy c ∷ fail_session b index ∷ given_up b rest

-- `req.err` at the end of run. The error of a copy is not what is assigned: `err` is nil there.
unfoldable pub outcome : Dialed → Bool → Option GoError → Option GoError
outcome (refused e) copied before = some e
outcome (connected c) true before = before
outcome (connected c) false before = none

-- the first half of run, where `create` and `dial` are CreateStream and net.Dial
unfoldable pub forward : (ℕ → Option ℕ) → (String → Dialed) → Scheduler → ℕ → Exec
forward create dial s r = elim (s.requests r).backend [
  | none ↦ died s
  | some b ↦
      let (dialed, v, failed) = forwarder_new_connection create dial (s.pool.mem b) in
      done (record (set_backend s b v) {
        upstream = update s.upstream r (some dialed);
        effects = s.effects ++ given_up b failed;
      })
]

-- the other half, where `copied` says whether both copies end without an error
unfoldable pub complete : Dialed → Bool → Scheduler → ℕ → Scheduler
unfolding drop_one outcome
complete dialed copied s r = record s {
  requests =
      update s.requests r
        (record (s.requests r) { err = outcome dialed copied (s.requests r).err });
  running = drop_one r s.running;
  finished = s.finished ++ r ∷ [];
}

-- The other half after a dial or a stream. `copied` says whether the copies end without an error; it is
-- `none` as long as one of them blocks, and then run waits. Without a connection nothing is copied.
unfoldable pub settle : Dialed → Option Bool → Scheduler → ℕ → Scheduler
unfolding complete
settle (refused e) copied s r = complete (refused e) false s r
settle (connected c) none s r = s
settle (connected c) (some good) s r = complete (connected c) good s r

-- run, with nothing in between, as far as it comes
unfoldable pub run : (ℕ → Option ℕ) → (String → Dialed) → Option Bool → Scheduler → ℕ → Exec
unfolding forward settle
run create dial copied s r = forward create dial s r >> λ t. elim (t.upstream r) [
  | none ↦ died t
  | some dialed ↦ done (settle dialed copied t r)
]
