-- ===== src/Scheduler/Retry.antt =====
-- engine/native/scheduler.go: a request that is dispatched a second time goes on with the error of
-- the first.
use Prim.Native.String.{String}
use gbalancer.Prelude.{ℕ, ◌≡◌, refl, true, [], Option, some}
use gbalancer.Backend.{Dialed, GoError, connected, forwarder_new_connection}
use gbalancer.State.{Scheduler, Env, Ends}
use gbalancer.Scheduler.{is_dial, finish}
use gbalancer.Scheduler.Running.{run, settle, outcome}
use gbalancer.Scheduler.Refused.{IsRunning, HasFailed, IsTried, run-HasFailed, finish-IsTried}

-- A request runs on a backend of the heap, no request waits in the channel done, and the request still
-- holds the error of a failed dial from an earlier backend. This backend serves it, and both copies end
-- without an error. Then finish returns all the same with the backend off the heap, which has one entry
-- less, and the request waits, or its client was closed, or it runs again on a backend of the heap; the
-- invariant is kept.
pub run-finish :
    (env : Env) (create : ℕ → Option ℕ) (dial : String → Dialed) (s : Scheduler) (r b c : ℕ)
    (e : GoError)
    → IsRunning r s b
    → (s.requests r).err ≡ some e
    → is_dial e ≡ true
    → (forwarder_new_connection create dial (s.pool.mem b)).0 ≡ connected c
    → Ends
        (λ t.
          HasFailed r s b e t × Ends (IsTried r b s) (finish env (record t { finished = [] }) r))
        (run create dial (some true) s r)
run-finish env create dial s r b c e h failed dialled served =
    let (t, went, over) =
      run-HasFailed create dial (some true) e (connected c) true r s b served
        (λ t. unfold settle in refl) (unfold outcome in failed) h in
    (t, went, (over, finish-IsTried env e dialled r s b t over))
