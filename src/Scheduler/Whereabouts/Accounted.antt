-- ===== src/Scheduler/Whereabouts/Accounted.antt =====
-- What has become of each client's request after any steps of engine/native/scheduler.go.
use gbalancer.Prelude.{
  ℕ, ◌+◌, ◌≤◌, ◌<◌, ◌==◌, ◌≡◌, refl, ap, Bool, Bool-cases, inl, inr, List, [], ◌∷◌, ◌++◌, none,
  some, arith, if◌then◌else◌,
}
use gbalancer.Prelude.Lists.{mult}
use gbalancer.Backend.{Backend}
use gbalancer.State.{Scheduler, Request, Env}
use gbalancer.Scheduler.{new_scheduler, on_status}
use gbalancer.Scheduler.Invariant.{Inv, mult-append}
use gbalancer.Scheduler.Serve.{accept, on_job, on_job-Inv, new_scheduler-Inv}
use gbalancer.Scheduler.Status.{on_status-Inv}
use gbalancer.Scheduler.Reach.{
  Step, job, forwarding, completing, finishing, status, failing, ready, Reaches, here, later, after,
  Reaches-Inv,
}
use gbalancer.Scheduler.Whereabouts.{closings, elsewhere, retries, IsAt, IsIn}
use gbalancer.Scheduler.Whereabouts.Requests.{dispatch-IsIn}
use gbalancer.Scheduler.Whereabouts.Backends.{on_status-IsAt}
use gbalancer.Scheduler.Whereabouts.Steps.{
  places, connection, Stays, OnDone-at, IsAt-self, IsAt-Stays, forward-Stays, complete-Stays,
  finish-Stays, on_failed-Stays, on_ready-Stays,
}

-- the request whose end a step handles, unless it is dispatched again
abbrev pub ends : {s t : Scheduler} → Step s t → List ℕ
ends (job env conn e) = []
ends (forwarding create dial r h new e) = []
ends (completing dialed copied r h noted e) = []
ends {s} (finishing env r rest head e) = if retries (s.requests r).err then [] else r ∷ []
ends (status env active f d room e) = []
ends (failing x e) = []
ends (ready env x old room e) = []

-- the requests whose end the steps have handled
abbrev pub ended : {s t : Scheduler} → Reaches s t → List ℕ
ended here = []
ended (later before step) = ends step ++ ended before

-- a request that was somewhere, or had ended, is so after the step, and a new one is somewhere
abbrev Accounts : ℕ → ℕ → ℕ → Scheduler → Scheduler → Type 0
Accounts r z z' s t =
    (r < s.next_request → 0 < places r s + z) → r < t.next_request → 0 < places r t + z'

Stays-Accounts : (r lost z : ℕ) (s t : Scheduler) → Stays r lost s t → Accounts r z (lost + z) s t
Stays-Accounts r lost z s t (next, bound) known made =
    omega (arith, next, bound, known (omega (arith, next, made)), made)

on_job-Accounts :
    (r z : ℕ) (env : Env) (s t : Scheduler) (conn : ℕ)
    → Inv s
    → after (on_job env s conn) ≡ some t
    → Accounts r z (0 + z) s t
unfolding on_job accept
on_job-Accounts r z env s t conn i at known made =
    let u = accept s conn in
    let c = connection r u in
    let h =
      OnDone-at
        (IsIn r c u.next_request
          (mult r u.pending + (mult r (s.next_request ∷ []) + elsewhere r c u)))
        (on_job env s conn) t (on_job-Inv env s conn i)
        (dispatch-IsIn r c u.next_request (elsewhere r c u) u.pending env u s.next_request
          (IsAt-self r u))
        at in
    let there : mult r u.pending + (mult r (s.next_request ∷ []) + elsewhere r c u) ≤ places r t =
      omega (arith, h.least, ap (λ d. closings d t.effects) h.conn) in
    elim (Bool-cases (s.next_request == r)) [
      | inl new ↦ ground (arith, there, new)
      | inr old ↦
          let same : c ≡ connection r s = rw (connection, old) refl in
          let before = known (ground (arith, made, h.next, old)) in
          omega (arith, there, ap (λ d. closings d s.effects) same, before)
    ]

Step-Accounts :
    (r z : ℕ) (s t : Scheduler)
    → Inv s
    → (step : Step s t) → Accounts r z (mult r (ends step) + z) s t
Step-Accounts r z s t i (job env conn e) = on_job-Accounts r z env s t conn i e
Step-Accounts r z s t i (forwarding create dial x running new e) =
    Stays-Accounts r 0 z s t (forward-Stays r s t create dial x i running e)
Step-Accounts r z s t i (completing dialed copied x running noted e) =
    Stays-Accounts r 0 z s t (complete-Stays r s t dialed copied x e)
Step-Accounts r z s t i (finishing env x rest head e) =
    Stays-Accounts r _ z s t (finish-Stays r s t env x rest i head e)
Step-Accounts r z s t i (status env active f d room e) = Stays-Accounts r 0 z s t (
    IsAt-Stays r s t (
      OnDone-at (IsAt r (connection r s) s.next_request _ s.pending) (on_status env s active) t
        (on_status-Inv env s active f i d room)
        (on_status-IsAt r (connection r s) s.next_request _ s.pending env s active (IsAt-self r s))
        e))
Step-Accounts r z s t i (failing x e) = Stays-Accounts r 0 z s t (on_failed-Stays r s t x e)
Step-Accounts r z s t i (ready env x old room e) =
    Stays-Accounts r 0 z s t (on_ready-Stays r s t env x i old room e)

Reaches-Accounts :
    (r : ℕ) (s t : Scheduler)
    → Inv s
    → s.next_request ≡ 0
    → (steps : Reaches s t) → r < t.next_request
    → 0 < places r t + mult r (ended steps)
Reaches-Accounts r s t i new here made = absurd (omega (arith, new, made))
Reaches-Accounts r s t i new (later {t = u} before step) made =
    let known =
      Step-Accounts r (mult r (ended before)) u t (Reaches-Inv s u i before) step
        (λ old. Reaches-Accounts r s u i new before old) made in
    omega (arith, known, mult-append r (ends step) (ended before))

-- A new scheduler is given objects that hold no requests and are off the heap. After any steps each
-- client's request is still in the list of those that wait, in a goroutine or in the channel done, or
-- dispatch has closed the client's connection, or finish has handled its end without dispatching it
-- again.
pub accounted :
    (lw : Bool) (tunnels : ℕ) (mem : ℕ → Backend) (requests : ℕ → Request) (t : Scheduler) (r : ℕ)
    → ((b : ℕ) → ((mem b).ongoing ≡ 0) × ((mem b).index ≡ none))
    → (steps : Reaches (new_scheduler lw tunnels mem requests) t) → r < t.next_request
    → 0
      < mult r t.pending
        + mult r t.running
        + mult r t.finished
        + closings (t.requests r).conn t.effects
        + mult r (ended steps)
unfolding new_scheduler
accounted lw tunnels mem requests t r h steps made =
    Reaches-Accounts r _ t (new_scheduler-Inv lw tunnels mem requests h) refl steps made
