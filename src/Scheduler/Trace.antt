-- ===== src/Scheduler/Trace.antt =====
-- The registry after any steps, as the messages of the wrangler and the sessions determine it.
use Prim.Native.String.{String}
use mathlib.Core.Option.{some-injective}
use text.Mathlib.Text.{◌==◌ as str_eq}
use gbalancer.Prelude.{
  ℕ, ◌<◌, ◌≡◌, refl, ap, subst, ◌∙◌, Bool, false, not, ◌&&◌, ◌||◌, ltb, inl, inr, [], Option, none,
  some, arith, Option-cases,
}
use gbalancer.Prelude.Dict.{lookup, has}
use gbalancer.Prelude.Lists.{get_elem?}
use gbalancer.Backend.{Dialed, Backend, switch_spdy_conn}
use gbalancer.State.{Request, Session, Scheduler, Env, Exec, done, died, stuck}
use gbalancer.Scheduler.{new_scheduler, on_ready}
use gbalancer.Scheduler.Invariant.{Inv}
use gbalancer.Scheduler.Serve.{accept, on_job, new_scheduler-Inv}
use gbalancer.Scheduler.Status.{on_status-Moved}
use gbalancer.Scheduler.Ready.{on_ready-Inv}
use gbalancer.Scheduler.Running.{forward, complete}
use gbalancer.Scheduler.Waiting.{Kept}
use gbalancer.Scheduler.Kept.{Keeps, Keeps-dispatch, Keeps-finish, Keeps-on_failed}
use gbalancer.Scheduler.Reach.{
  Step, job, forwarding, completing, finishing, status, failing, ready, Reaches, here, later, after,
  Ends-at, Step-Inv,
}

-- a session is for a tunnel that the backend has, and has a tunnel to put there
abbrev pub brings : Scheduler → Session → Bool
brings s x = has (get_elem? (s.pool.mem x.backend).tunnel x.connindex) && has x.spdy

-- Whether an address is registered after a step, if it was `known` before. A message drops what it
-- does not list, and adds what it lists if backends need no tunnel; a session adds its backend.
abbrev pub seen : {s t : Scheduler} → Step s t → String → Bool → Bool
seen (job env conn e) a known = known
seen (forwarding create dial r h new e) a known = known
seen (completing dialed copied r h noted e) a known = known
seen (finishing env r rest head e) a known = known
seen {s} (status env active f d room e) a known =
    has (lookup a active) && (not (ltb 0 s.tunnels) || known)
seen (failing x e) a known = known
seen {s} (ready env x old room e) a known =
    known || (brings s x && str_eq (s.pool.mem x.backend).address a)

-- what the steps so far say of an address
abbrev pub expected : {s t : Scheduler} → Reaches s t → String → Bool
expected here a = false
expected (later before step) a = seen step a (expected before a)

-- what a step makes of the registry
abbrev Follows : (s t : Scheduler) → (String → Bool → Bool) → Type 0
Follows s t f =
    ((a : String) → has (lookup a t.backends) ≡ f a (has (lookup a s.backends)))
    × (t.tunnels ≡ s.tunnels)

Kept-Follows : (s t u : Scheduler) → Kept s u → some u ≡ some t → Follows s t (λ a known. known)
Kept-Follows s t u (same, tunnels) at =
    subst (λ v. Follows s v (λ a known. known)) (some-injective _ _ at)
      ((λ a. ap (λ m. has (lookup a m)) same), tunnels)

Keeps-at :
    (s t : Scheduler) (e : Exec) → Keeps s e → after e ≡ some t → Follows s t (λ a known. known)
Keeps-at s t (done u) kept at = Kept-Follows s t u kept at
Keeps-at s t (died u) kept at = Kept-Follows s t u kept at
Keeps-at s t stuck h at = cc

Keeps-forward :
    (create : ℕ → Option ℕ) (dial : String → Dialed) (s : Scheduler) (r : ℕ)
    → Keeps s (forward create dial s r)
unfolding forward
Keeps-forward create dial s r = elim (Option-cases (s.requests r).backend) [
  | inl nobody ↦ rw (nobody, forward) (refl, refl)
  | inr (b, at) ↦ rw (at, forward) (refl, refl)
]

on_ready-Follows :
    (env : Env) (s t : Scheduler) (x : Session)
    → Inv s
    → x.backend < s.next_backend
    → s.pool.len < s.pool.cap
    → after (on_ready env s x) ≡ some t
    → Follows s t (λ a known. known || (brings s x && str_eq (s.pool.mem x.backend).address a))
unfolding on_ready switch_spdy_conn
on_ready-Follows env s t x i old room at =
    elim (Option-cases (get_elem? (s.pool.mem x.backend).tunnel x.connindex)) [
      | inl out ↦
          let lost : (switch_spdy_conn (s.pool.mem x.backend) x.connindex x.spdy).1 ≡ none =
            rw (switch_spdy_conn, out) refl in
          let (same, tunnels) =
            Keeps-at s t (on_ready env s x) (rw (on_ready, lost) (refl, refl)) at in
          ((λ a. ground (arith, same a, out)), tunnels)
      | inr (from, there) ↦ elim (Option-cases x.spdy) [
        | inl nobody ↦
            let lost : (switch_spdy_conn (s.pool.mem x.backend) x.connindex x.spdy).1 ≡ none =
              rw (switch_spdy_conn, there, nobody) refl in
            let (same, tunnels) =
              Keeps-at s t (on_ready env s x) (rw (on_ready, lost) (refl, refl)) at in
            ((λ a. ground (arith, same a, nobody)), tunnels)
        | inr (to, made) ↦
            let (j, empty, listed) =
              Ends-at t (on_ready-Inv env s i x to from made there old room) at in
            (λ a. ground (arith, listed.keys a, there, made), listed.tunnels)
      ]
    ]

Step-Follows : (s t : Scheduler) → Inv s → (step : Step s t) → Follows s t (seen step)
unfolding on_job accept complete
Step-Follows s t i (job env conn e) =
    Keeps-at s t (on_job env s conn)
      (Keeps-dispatch env s (accept s conn) s.next_request (refl, refl)) e
Step-Follows s t i (forwarding create dial r h new e) =
    Keeps-at s t (forward create dial s r) (Keeps-forward create dial s r) e
Step-Follows s t i (completing dialed copied r h noted e) = rw e ((λ a. refl), refl)
Step-Follows s t i (finishing env r rest head e) =
    Keeps-at s t _ (Keeps-finish env (record s { finished = rest }) r) e
Step-Follows s t i (status env active f d room e) =
    let ((k, m), same) = Ends-at t (on_status-Moved env s active f i d room) e in
    (same, m.apart.tunnels)
Step-Follows s t i (failing x e) = Keeps-at s t _ (Keeps-on_failed s x) e
Step-Follows s t i (ready env x old room e) = on_ready-Follows env s t x i old room e

Reaches-registry :
    (s t : Scheduler)
    → Inv s
    → s.backends ≡ []
    → (steps : Reaches s t)
    → Inv t
      × ((a : String) → has (lookup a t.backends) ≡ expected steps a)
      × (t.tunnels ≡ s.tunnels)
unfolding lookup
Reaches-registry s t i none_yet here = (i, (λ a. rw none_yet refl), refl)
Reaches-registry s t i none_yet (later {t = u} before step) =
    let (j, known, tunnels) = Reaches-registry s u i none_yet before in
    let (follows, tunnels') = Step-Follows u t j step in
    (Step-Inv u t j step, λ a. follows a ∙ ap (seen step a) (known a), tunnels' ∙ tunnels)

-- A new scheduler is given objects that hold no requests and are off the heap. After any steps of its
-- select's cases and its goroutines, the registered addresses are those that the wrangler's messages
-- and the sessions say, whatever happened to the requests in between: a message drops every address
-- that it does not list, and with no tunnels adds those that it lists; a session that brings a tunnel
-- for one that its backend has adds the address of that backend.
pub registry_follows :
    (lw : Bool) (tunnels : ℕ) (mem : ℕ → Backend) (requests : ℕ → Request) (t : Scheduler)
    → ((b : ℕ) → ((mem b).ongoing ≡ 0) × ((mem b).index ≡ none))
    → (steps : Reaches (new_scheduler lw tunnels mem requests) t) → (a : String)
    → has (lookup a t.backends) ≡ expected steps a
unfolding new_scheduler
registry_follows lw tunnels mem requests t h steps =
    (Reaches-registry _ t (new_scheduler-Inv lw tunnels mem requests h) refl steps).1
