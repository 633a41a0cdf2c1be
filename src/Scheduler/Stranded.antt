-- ===== src/Scheduler/Stranded.antt =====
-- engine/native/scheduler.go without tunnels: the other handlers, and the requests that wait.
use Prim.Native.String.{String}
use mathlib.Core.Option.{some-injective}
use mathlib.Core.List.{append-nil}
use gbalancer.Prelude.{
  ℕ, ◌≡◌, refl, sym, ap, subst, Bool, false, Option-cases, inl, inr, List, [], ◌∷◌, ◌++◌, Option,
  none, some, ltb, if◌then◌else◌,
}
use gbalancer.Prelude.Dict.{Dict, lookup, insert, delete}
use gbalancer.Prelude.Lists.{get_elem?, replicate}
use gbalancer.Backend.{Dialed, no_tunnel, new_backend, set_fail_chan, switch_spdy_conn}
use gbalancer.Backend.{Backend}
use gbalancer.State.{Scheduler, Request, Env, Exec, Session, done, died, stuck}
use gbalancer.Scheduler.{
  new_scheduler, take_off, put_on, finish, add_backend, remove_backend, review, allocate, bring_up,
  bring_up_all, ordered_names, next_backend_sequence, on_status, on_failed, on_ready,
}
use gbalancer.Scheduler.Serve.{accept, on_job}
use gbalancer.Scheduler.Running.{forward, complete}
use gbalancer.Scheduler.Reach.{
  Step, job, forwarding, completing, finishing, status, failing, ready, Reaches, here, later, after,
}
use gbalancer.Scheduler.Kept.{Always, Always->>}
use gbalancer.Scheduler.Plain.{
  update-HasNone, IsPlain, forwarder_new_connection-HasNone, dispatch-IsPlain, take_off-IsPlain,
  put_on-IsPlain, finish-IsPlain,
}

pub Always-after {ℓ} :
    (P : Scheduler → Type ℓ) (e : Exec) (t : Scheduler) → Always P e → after e ≡ some t → P t
Always-after P (done u) t h at = subst P (some-injective _ _ at) h
Always-after P (died u) t h at = subst P (some-injective _ _ at) h
Always-after P stuck t h at = cc

module _ (waiting : List ℕ) where
  -- another registry
  IsPlain-register :
      (t : Scheduler) (d : Dict ℕ) → IsPlain waiting t → IsPlain waiting (record t { backends = d })
  IsPlain-register t d h = record {
    tunnels = h.tunnels;
    untunnelled = h.untunnelled;
    waits = h.waits;
  }

  add_backend-IsPlain :
      (t : Scheduler) (b : ℕ) → IsPlain waiting t → Always (IsPlain waiting) (add_backend t b)
  unfolding add_backend
  add_backend-IsPlain t b h =
      put_on-IsPlain waiting (record t { backends = insert (t.pool.mem b).address b t.backends }) b
        (IsPlain-register t _ h)

  remove_backend-IsPlain :
      (t : Scheduler) (a : String)
      → IsPlain waiting t
      → Always (IsPlain waiting) (remove_backend t a)
  unfolding remove_backend
  remove_backend-IsPlain t a h = elim (Option-cases (lookup a t.backends)) [
    | inl unknown ↦ rw (unknown, remove_backend) h
    | inr (b, known) ↦
        rw (known, remove_backend)
          (Always->> (IsPlain waiting) (take_off t b) _ (take_off-IsPlain waiting t b h)
            (λ u k. IsPlain-register u _ k))
  ]

  review-IsPlain :
      (known active : Dict ℕ) (t : Scheduler) (k : Dict ℕ → Scheduler → Exec)
      → IsPlain waiting t
      → ((rest : Dict ℕ) (u : Scheduler) → IsPlain waiting u → Always (IsPlain waiting) (k rest u))
      → Always (IsPlain waiting) (review known active t k)
  unfolding review
  review-IsPlain [] active t k h more = more active t h
  review-IsPlain ((a, b) ∷ known) active t k h more = elim (Option-cases (lookup a active)) [
    | inl gone ↦
        rw (gone, review)
          (Always->> (IsPlain waiting) (remove_backend t a) _ (remove_backend-IsPlain t a h)
            (λ u i. review-IsPlain known active u k i more))
    | inr (v, listed) ↦ elim (Option-cases (t.pool.mem b).index) [
      | inl off ↦
          rw (listed, review, off)
            (Always->> (IsPlain waiting) (put_on t b) _ (put_on-IsPlain waiting t b h)
              (λ u i. review-IsPlain known (delete a active) u k i more))
      | inr (i, on) ↦ rw (listed, review, on) (review-IsPlain known (delete a active) t k h more)
    ]
  ]

  allocate-IsPlain :
      (env : Env) (t : Scheduler) (a : String)
      → IsPlain waiting t
      → IsPlain waiting (allocate env t a)
  unfolding allocate new_backend
  allocate-IsPlain env t a h =
      let seq = if env.shuffled then t.backend_seq else next_backend_sequence t in
      let fresh = set_fail_chan (new_backend a t.tunnels (if env.shuffled then 0 else seq)) in
      record {
        tunnels = h.tunnels;
        untunnelled =
            update-HasNone t.pool.mem t.next_backend fresh h.untunnelled
              (ap (λ n. replicate n no_tunnel) h.tunnels);
        waits = h.waits;
      }

  bring_up_all-IsPlain :
      (env : Env) (addrs : List String) (t : Scheduler)
      → IsPlain waiting t
      → Always (IsPlain waiting) (bring_up_all env addrs t)
  unfolding bring_up_all bring_up
  bring_up_all-IsPlain env [] t h = h
  bring_up_all-IsPlain env (a ∷ addrs) t h =
      let plain : ltb 0 t.tunnels ≡ false = rw h.tunnels refl in
      rw plain (
        Always->> (IsPlain waiting) (add_backend (allocate env t a) t.next_backend)
          (bring_up_all env addrs)
          (add_backend-IsPlain (allocate env t a) t.next_backend (allocate-IsPlain env t a h))
          (λ u k. bring_up_all-IsPlain env addrs u k))

  on_status-IsPlain :
      (env : Env) (t : Scheduler) (active : Dict ℕ)
      → IsPlain waiting t
      → Always (IsPlain waiting) (on_status env t active)
  unfolding on_status
  on_status-IsPlain env t active h =
      review-IsPlain t.backends active t _ h
        (λ rest u k. bring_up_all-IsPlain env (ordered_names env rest) u k)

  -- the tunnel that a session is for is not there
  no_tunnel_at :
      (t : Scheduler) (x : Session)
      → IsPlain waiting t
      → get_elem? (t.pool.mem x.backend).tunnel x.connindex ≡ none
  no_tunnel_at t x h = ap (λ l. get_elem? l x.connindex) (h.untunnelled x.backend)

  on_failed-IsPlain :
      (t : Scheduler) (x : Session) → IsPlain waiting t → Always (IsPlain waiting) (on_failed t x)
  unfolding on_failed
  on_failed-IsPlain t x h = rw (no_tunnel_at t x h, on_failed) h

  on_ready-IsPlain :
      (env : Env) (t : Scheduler) (x : Session)
      → IsPlain waiting t
      → Always (IsPlain waiting) (on_ready env t x)
  unfolding on_ready switch_spdy_conn
  on_ready-IsPlain env t x h =
      let lost : (switch_spdy_conn (t.pool.mem x.backend) x.connindex x.spdy).1 ≡ none =
        rw (switch_spdy_conn, no_tunnel_at t x h) refl in
      rw (on_ready, lost)
        (record { tunnels = h.tunnels; untunnelled = h.untunnelled; waits = h.waits })

  forward-IsPlain :
      (create : ℕ → Option ℕ) (dial : String → Dialed) (t : Scheduler) (r : ℕ)
      → IsPlain waiting t
      → Always (IsPlain waiting) (forward create dial t r)
  unfolding forward
  forward-IsPlain create dial t r h = elim (Option-cases (t.requests r).backend) [
    | inl nobody ↦ rw (nobody, forward) h
    | inr (b, at) ↦
        rw (at, forward)
          (record {
            tunnels = h.tunnels;
            untunnelled =
                update-HasNone t.pool.mem b _ h.untunnelled
                  (forwarder_new_connection-HasNone create dial (t.pool.mem b) (h.untunnelled b));
            waits = h.waits;
          })
  ]

  Step-IsPlain : (s t : Scheduler) → IsPlain waiting s → Step s t → IsPlain waiting t
  unfolding on_job accept complete
  Step-IsPlain s t h (job env conn e) =
      Always-after (IsPlain waiting) (on_job env s conn) t
        (dispatch-IsPlain waiting env (accept s conn) s.next_request
          (record { tunnels = h.tunnels; untunnelled = h.untunnelled; waits = h.waits }))
        e
  Step-IsPlain s t h (forwarding create dial r running new e) =
      Always-after (IsPlain waiting) (forward create dial s r) t (forward-IsPlain create dial s r h)
        e
  Step-IsPlain s t h (completing dialed copied r running noted e) =
      rw e (record { tunnels = h.tunnels; untunnelled = h.untunnelled; waits = h.waits })
  Step-IsPlain s t h (finishing env r rest head e) =
      Always-after (IsPlain waiting) (finish env (record s { finished = rest }) r) t
        (finish-IsPlain waiting env (record s { finished = rest }) r
          (record { tunnels = h.tunnels; untunnelled = h.untunnelled; waits = h.waits }))
        e
  Step-IsPlain s t h (status env active f d room e) =
      Always-after (IsPlain waiting) (on_status env s active) t (on_status-IsPlain env s active h) e
  Step-IsPlain s t h (failing x e) =
      Always-after (IsPlain waiting) (on_failed s x) t (on_failed-IsPlain s x h) e
  Step-IsPlain s t h (ready env x old room e) =
      Always-after (IsPlain waiting) (on_ready env s x) t (on_ready-IsPlain env s x h) e

  pub Reaches-IsPlain : (s t : Scheduler) → IsPlain waiting s → Reaches s t → IsPlain waiting t
  Reaches-IsPlain s t h here = h
  Reaches-IsPlain s t h (later {t = u} before step) =
      Step-IsPlain u t (Reaches-IsPlain s u h before) step

pub new_scheduler-IsPlain :
    (lw : Bool) (mem : ℕ → Backend) (requests : ℕ → Request)
    → ((b : ℕ) → (mem b).tunnel ≡ [])
    → IsPlain [] (new_scheduler lw 0 mem requests)
unfolding new_scheduler
new_scheduler-IsPlain lw mem requests none_yet = record {
  tunnels = refl;
  untunnelled = none_yet;
  waits = ([], refl);
}

-- A new scheduler without tunnels is given objects that have none. A request that waits in a state
-- that it reaches is never dispatched: in every state that follows, the requests that waited wait
-- still, in front of those that came since.
pub waiting_forever :
    (lw : Bool) (mem : ℕ → Backend) (requests : ℕ → Request) (t u : Scheduler)
    → ((b : ℕ) → (mem b).tunnel ≡ [])
    → Reaches (new_scheduler lw 0 mem requests) t
    → Reaches t u
    → (since : List ℕ) × (u.pending ≡ t.pending ++ since)
waiting_forever lw mem requests t u none_yet before more =
    let from = Reaches-IsPlain [] _ t (new_scheduler-IsPlain lw mem requests none_yet) before in
    (Reaches-IsPlain t.pending t u
      (record {
        tunnels = from.tunnels;
        untunnelled = from.untunnelled;
        waits = ([], sym (append-nil t.pending));
      })
      more).waits
