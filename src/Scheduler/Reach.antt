-- ===== src/Scheduler/Reach.antt =====
-- The cases of Schedule's select and the goroutines as steps, and the states that they reach.
use Prim.Native.String.{String}
use gbalancer.Prelude.{
  ℕ, ◌+◌, ◌≤◌, ◌<◌, ◌≡◌, refl, sym, ap, subst, ◌∙◌, Bool, List, [], ◌∷◌, ◌++◌, true, Option, none,
  some, arith, Option-cases, Bool-cases, inl, inr,
}
use mathlib.Core.Option.{some-injective}
use gbalancer.Prelude.Dict.{Dict, Distinct, lookup}
use gbalancer.Heap.Contract.{InPool, IsOrdered}
use gbalancer.Prelude.Lists.{length, get_elem?, mult, set}
use gbalancer.Backend.{Backend, Dialed, switch_spdy_conn}
use gbalancer.State.{
  Request, Session, Scheduler, Env, Exec, done, died, Ends, max_forwarders_per_backend,
  create_session, Effect, stuck,
}
use gbalancer.Scheduler.{
  new_scheduler, set_backend, closing, finish, on_status, on_failed, on_ready,
}
use gbalancer.Scheduler.Invariant.{Inv, load}
use gbalancer.Scheduler.Names.{IsFair}
use gbalancer.Scheduler.Finish.{finish-Inv}
use gbalancer.Scheduler.Status.{on_status-Inv}
use gbalancer.Scheduler.Serve.{on_job, on_job-Inv, new_scheduler-Inv}
use gbalancer.Scheduler.Ready.{replace-Inv, on_ready-Inv}
use gbalancer.Scheduler.Running.{forward, complete}
use gbalancer.Scheduler.Running.Laws.{forward-Inv, complete-Inv}

-- the state in which the next case finds the scheduler: EventLoop goes on after a panic
abbrev pub after : Exec → Option Scheduler
after (done t) = some t
after (died t) = some t
after stuck = none

-- One step: a case of the select, or one half of a goroutine `run`. The heap has room for the
-- backends of a message and of a session, and a session is for a backend that was allocated.
pub data Step (s t : Scheduler) : Type 0 where
  job : (env : Env) (conn : ℕ) → after (on_job env s conn) ≡ some t → Step s t
  forwarding :
      (create : ℕ → Option ℕ) (dial : String → Dialed) (r : ℕ)
      → 0 < mult r s.running
      → s.upstream r ≡ none
      → after (forward create dial s r) ≡ some t
      → Step s t
  completing :
      (dialed : Dialed) (copied : Bool) (r : ℕ)
      → 0 < mult r s.running
      → s.upstream r ≡ some dialed
      → t ≡ complete dialed copied s r
      → Step s t
  finishing :
      (env : Env) (r : ℕ) (rest : List ℕ)
      → s.finished ≡ r ∷ rest
      → after (finish env (record s { finished = rest }) r) ≡ some t
      → Step s t
  status :
      (env : Env) (active : Dict ℕ)
      → IsFair env
      → Distinct active
      → s.pool.len + length s.backends + length active ≤ s.pool.cap
      → after (on_status env s active) ≡ some t
      → Step s t
  failing : (x : Session) → after (on_failed s x) ≡ some t → Step s t
  ready :
      (env : Env) (x : Session)
      → x.backend < s.next_backend
      → s.pool.len < s.pool.cap
      → after (on_ready env s x) ≡ some t
      → Step s t

-- what a scheduler that starts as `s` reaches
pub data Reaches (s : Scheduler) : Scheduler → Type 0 where
  here : Reaches s s
  later : {t u : Scheduler} → Reaches s t → Step t u → Reaches s u

pub Ends-at :
    {P : Scheduler → Type 0} {e : Exec} (t : Scheduler) → Ends P e → after e ≡ some t → P t
Ends-at {P} {e} t (u, ended, h) at =
    let same : some u ≡ some t = sym (ap after ended) ∙ at in subst P (some-injective _ _ same) h

-- a handler that changes nothing but the effects, and then panics
died-at :
    {e : Exec} (s t : Scheduler) (f : List Effect)
    → Inv s
    → e ≡ died (record s { effects = f })
    → after e ≡ some t
    → Inv t
died-at s t f i died_so at =
    let same : some (record s { effects = f }) ≡ some t = sym (ap after died_so) ∙ at in
    subst Inv (some-injective _ _ same) (record {
      places = i.places;
      books = record {
        busy = i.books.busy;
        bounded = i.books.bounded;
        idle = i.books.idle;
        once = i.books.once;
        unborn = i.books.unborn;
        assigned = i.books.assigned;
      };
    })

on_failed-after : (s t : Scheduler) (x : Session) → Inv s → after (on_failed s x) ≡ some t → Inv t
unfolding on_failed
on_failed-after s t x i at =
    elim (Option-cases (get_elem? (s.pool.mem x.backend).tunnel x.connindex)) [
      | inl out ↦ died-at s t s.effects i (rw (out, on_failed) refl) at
      | inr (c, there) ↦ elim (Bool-cases c.switching) [
        | inl switching ↦ Ends-at {P = Inv} t (s, rw (there, on_failed, switching) refl, i) at
        | inr free ↦
            let v : Backend = record (s.pool.mem x.backend) {
              tunnel =
                  set (s.pool.mem x.backend).tunnel x.connindex (record c { switching = true });
            } in
            let f = s.effects ++ create_session x.backend x.connindex ∷ [] in
            let j =
              replace-Inv s x.backend v f i
                (record { index = refl; ongoing = refl; weight = refl; address = refl }) in
            Ends-at {P = Inv} t
              (
                set_backend (record s { effects = f }) x.backend v,
                rw (there, on_failed, free) refl,
                j,
              )
              at
      ]
    ]

on_ready-after :
    (env : Env) (s t : Scheduler) (x : Session)
    → Inv s
    → x.backend < s.next_backend
    → s.pool.len < s.pool.cap
    → after (on_ready env s x) ≡ some t
    → Inv t
unfolding on_ready switch_spdy_conn
on_ready-after env s t x i old room at =
    let f = s.effects ++ closing (switch_spdy_conn (s.pool.mem x.backend) x.connindex x.spdy).0 in
    elim (Option-cases (get_elem? (s.pool.mem x.backend).tunnel x.connindex)) [
      | inl out ↦
          let lost : (switch_spdy_conn (s.pool.mem x.backend) x.connindex x.spdy).1 ≡ none =
            rw (switch_spdy_conn, out) refl in
          died-at s t f i (rw (on_ready, lost) refl) at
      | inr (from, there) ↦ elim (Option-cases x.spdy) [
        | inl nobody ↦
            let lost : (switch_spdy_conn (s.pool.mem x.backend) x.connindex x.spdy).1 ≡ none =
              rw (switch_spdy_conn, there, nobody) refl in
            died-at s t f i (rw (on_ready, lost) refl) at
        | inr (to, made) ↦ (Ends-at t (on_ready-Inv env s i x to from made there old room) at).0
      ]
    ]

-- Every step keeps the invariant.
pub Step-Inv : (s t : Scheduler) → Inv s → Step s t → Inv t
Step-Inv s t i (job env conn e) = Ends-at t (on_job-Inv env s conn i) e
Step-Inv s t i (forwarding create dial r h new e) =
    (Ends-at t (forward-Inv create dial s r i h) e).0
Step-Inv s t i (completing dialed copied r h noted e) =
    subst Inv (sym e) (complete-Inv dialed copied s r i h)
Step-Inv s t i (finishing env r rest head e) = Ends-at t (finish-Inv env s r rest i head) e
Step-Inv s t i (status env active f d room e) =
    (Ends-at t (on_status-Inv env s active f i d room) e).0
Step-Inv s t i (failing x e) = on_failed-after s t x i e
Step-Inv s t i (ready env x old room e) = on_ready-after env s t x i old room e

pub Reaches-Inv : (s t : Scheduler) → Inv s → Reaches s t → Inv t
Reaches-Inv s t i here = i
Reaches-Inv s t i (later before step) = Step-Inv _ t (Reaches-Inv s _ i before) step

-- A new scheduler is given objects that hold no requests and are off the heap. A message of the
-- wrangler names each address once, its maps are walked in any order, a session is of a backend that the
-- scheduler has made, and messages and sessions come only while the heap has room for what they may add
-- (the conditions of Step). In every state that it then reaches, each backend counts exactly the requests
-- that were dispatched to it and are not finished, at most 4096 of them; the heap is in order; and each
-- entry of the heap is the backend that is registered under its address.
pub reached :
    (lw : Bool) (tunnels : ℕ) (mem : ℕ → Backend) (requests : ℕ → Request) (t : Scheduler)
    → ((b : ℕ) → ((mem b).ongoing ≡ 0) × ((mem b).index ≡ none))
    → Reaches (new_scheduler lw tunnels mem requests) t
    → ((b : ℕ) → ((t.pool.mem b).ongoing ≡ load t b) × (load t b ≤ max_forwarders_per_backend))
      × IsOrdered t.pool
      × ((b : ℕ) → InPool t.pool b → lookup (t.pool.mem b).address t.backends ≡ some b)
reached lw tunnels mem requests t h r =
    let i = Reaches-Inv _ t (new_scheduler-Inv lw tunnels mem requests h) r in
    (
      λ b. (i.books.busy b, omega (arith, i.books.busy b, i.books.bounded b)),
      i.places.ordered,
      i.places.listed,
    )
