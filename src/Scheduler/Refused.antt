-- ===== src/Scheduler/Refused.antt =====
-- A client whose connections to the backends are all refused, in engine/native/scheduler.go.
use Prim.Native.String.{String}
use gbalancer.Prelude.{
  ℕ, zero, suc, ◌+◌, ◌≤◌, ◌<◌, ◌==◌, ◌≡◌, ◌⊎◌, refl, sym, ap, subst, ◌∙◌, inl, inr, Bool, true,
  false, [], ◌∷◌, ◌++◌, Option, some, arith, if◌then◌else◌, ==_iff,
}
use gbalancer.Prelude.Lists.{mult}
use gbalancer.Backend.{Backend, Dialed, GoError, refused, forwarder_new_connection}
use gbalancer.Heap.Contract.{InPool}
use gbalancer.State.{close_client, Scheduler, Env, Exec, Ends, done, ◌>>◌}
use gbalancer.Scheduler.{set_pool, start, leave, take_off, is_dial, dispatch, finish}
use gbalancer.Scheduler.Invariant.{Inv, mult-append}
use gbalancer.Scheduler.OffHeap.{take_off-some, Taken-Without}
use gbalancer.Scheduler.Dispatch.{Dispatched, waits, sheds, starts, dispatch-Dispatched}
use gbalancer.Scheduler.Finish.{off-Inv, taken, finish-Inv}
use gbalancer.Scheduler.Running.{drop_one, outcome, forward, complete, settle, run}
use gbalancer.Scheduler.Running.Laws.{run-Inv, mult-drop_one}
use gbalancer.Scheduler.Whereabouts.{closings, closings-append}
use gbalancer.Scheduler.Reach.{Ends-at, after}

-- the request `r` runs on a backend of the heap
pub record IsRunning (r : ℕ) (s : Scheduler) (b : ℕ) : Type 0 where
  pub inv : Inv s
  pub empty : s.finished ≡ []
  pub running : 0 < mult r s.running
  pub backend : (s.requests r).backend ≡ some b
  pub inside : InPool s.pool b

-- run has sent it on `done` with the error `e`, on the same backend
pub record HasFailed (r : ℕ) (s : Scheduler) (b : ℕ) (e : GoError) (t : Scheduler) : Type 0 where
  pub inv : Inv t
  pub finished : t.finished ≡ r ∷ []
  pub stopped : mult r t.running ≡ 0
  pub backend : (t.requests r).backend ≡ some b
  pub err : (t.requests r).err ≡ some e
  pub inside : InPool t.pool b
  pub same_len : t.pool.len ≡ s.pool.len

-- it waits, or its client was closed
pub record IsOver (r : ℕ) (t : Scheduler) : Type 0 where
  pub inv : Inv t
  pub stopped : (mult r t.running ≡ 0) × (t.finished ≡ [])
  pub place : 0 < mult r t.pending + closings (t.requests r).conn t.effects

-- a round is over: its backend is off the heap, and the request is no longer running, or it runs on another backend
pub record IsTried (r b : ℕ) (s t : Scheduler) : Type 0 where
  pub gone : ¬ InPool t.pool b
  pub shorter : t.pool.len + 1 ≡ s.pool.len
  pub next : IsOver r t ⊎ ((c : ℕ) × IsRunning r t c)

-- every connection is refused with an error of the dial
abbrev pub Refuses : (ℕ → Option ℕ) → (String → Dialed) → GoError → Type 0
Refuses create dial e = (v : Backend) → (forwarder_new_connection create dial v).0 ≡ refused e

-- run of a request that it ends with the error `e`, over the connection `d`
pub run-HasFailed :
    (create : ℕ → Option ℕ) (dial : String → Dialed) (copied : Option Bool) (e : GoError)
    (d : Dialed) (good : Bool) (r : ℕ) (s : Scheduler) (b : ℕ)
    → (forwarder_new_connection create dial (s.pool.mem b)).0 ≡ d
    → ((t : Scheduler) → settle d copied t r ≡ complete d good t r)
    → outcome d good (s.requests r).err ≡ some e
    → IsRunning r s b
    → Ends (HasFailed r s b e) (run create dial copied s r)
unfolding run forward complete
run-HasFailed create dial copied e d good r s b gets ends failed h =
    let (t, went, (finished, running, backend, err, inside, len)) = ended in
    let i = Ends-at {P = Inv} t (run-Inv create dial copied s r h.inv h.running) (ap after went) in
    (
      t,
      went,
      record {
        inv = i;
        finished = finished ∙ ap (λ l. l ++ r ∷ []) h.empty;
        stopped = ground (
          arith,
          ap (mult r) running,
          mult-drop_one r r s.running h.running,
          h.inv.books.once r,
          self,
        );
        backend = backend;
        err = err;
        inside = inside;
        same_len = len;
      },
    )
  where
    self : (r == r) ≡ true
    self = (==_iff r r).1 refl

    ended :
        Ends
          (λ t.
            (t.finished ≡ s.finished ++ r ∷ [])
            × (t.running ≡ drop_one r s.running)
            × ((t.requests r).backend ≡ some b)
            × ((t.requests r).err ≡ some e)
            × InPool t.pool b
            × (t.pool.len ≡ s.pool.len))
          (run create dial copied s r)
    ended =
        rw (run, forward, h.backend, ◌>>◌, self, gets, ends)
          (_, refl, (refl, refl, rw self h.backend, rw self failed, h.inside, refl))

finish_dial :
    (env : Env) (s : Scheduler) (r b : ℕ) (e : GoError)
    → (s.requests r).backend ≡ some b
    → (s.requests r).err ≡ some e
    → is_dial e ≡ true
    → finish env s r ≡ (take_off s b >> λ u. dispatch env (leave u b) r)
unfolding finish
finish_dial env s r b e on failed dialled = rw (on, finish, failed, dialled) refl

dispatch-IsTried :
    (env : Env) (r b : ℕ) (s u t : Scheduler)
    → u.pool.len + 1 ≡ s.pool.len
    → u.finished ≡ []
    → mult r u.running ≡ 0
    → Inv t
    → ¬ InPool u.pool b
    → Dispatched env u r t
    → IsTried r b s t
unfolding start
dispatch-IsTried env r b s u t shorter empty stopped i off (waits nobody e) = record {
  gone = λ at. off (subst (λ x. InPool x.pool b) e at);
  shorter = ap (λ x. x.pool.len + 1) e ∙ shorter;
  next = inl (record {
    inv = i;
    stopped = (ap (λ x. mult r x.running) e ∙ stopped, ap (λ x. x.finished) e ∙ empty);
    place =
        let self : (r == r) ≡ true = (==_iff r r).1 refl in
        ground (arith, ap (λ x. mult r x.pending) e, mult-append r u.pending (r ∷ []), self);
  });
}
dispatch-IsTried env r b s u t shorter empty stopped i off (sheds d q best full c e) = record {
  gone = λ at. off ((c.entries b).0 (subst (λ x. InPool x.pool b) e at));
  shorter = ap (λ x. x.pool.len + 1) e ∙ ap (λ n. n + 1) c.same_len ∙ shorter;
  next = inl (record {
    inv = i;
    stopped = (ap (λ x. mult r x.running) e ∙ stopped, ap (λ x. x.finished) e ∙ empty);
    place =
        let conn = (u.requests r).conn in
        let self : (conn == conn) ≡ true = (==_iff conn conn).1 refl in
        ground (
          arith,
          ap (λ x. closings (x.requests r).conn x.effects) e,
          closings-append conn u.effects (close_client conn ∷ []),
          self,
        );
  });
}
dispatch-IsTried env r b s u t shorter empty stopped i off (starts d q best room c e) =
    let self : (r == r) ≡ true = (==_iff r r).1 refl in
    record {
      gone = λ at. off ((c.entries b).0 (subst (λ x. InPool x.pool b) e at));
      shorter = ap (λ x. x.pool.len + 1) e ∙ ap (λ n. n + 1) c.same_len ∙ shorter;
      next = inr (
        d,
        record {
          inv = i;
          empty = ap (λ x. x.finished) e ∙ empty;
          running = ground (arith, ap (λ x. mult r x.running) e, self);
          backend = ap (λ x. (x.requests r).backend) e ∙ rw self refl;
          inside = subst (λ x. InPool x.pool d) (sym e) ((c.entries d).1 best.inside);
        },
      );
    }

module _ (env : Env) (e : GoError) (dialled : is_dial e ≡ true) where
  pub finish-IsTried :
      (r : ℕ) (s : Scheduler) (b : ℕ) (t : Scheduler)
      → HasFailed r s b e t
      → Ends (IsTried r b s) (finish env (record t { finished = [] }) r)
  finish-IsTried r s b t h =
      let u = taken env t r b [] h.inv h.finished h.backend in
      let (k, below, here) = h.inside in
      let index : (t.pool.mem b).index ≡ some k =
        ap (λ x. (t.pool.mem x).index) (sym here) ∙ h.inv.places.ordered.indexed k below in
      let (v, off, (q, at, w)) =
        take_off-some u b h.inv.places (inr (h.inv.places.listed b h.inside)) k index in
      let out = Taken-Without t.pool q b h.inv.places.ordered w in
      let j = off-Inv env t r b [] h.inv h.finished h.backend q out in
      let (x, went, d) = dispatch-Dispatched env (leave (set_pool u q) b) r j.places.ordered in
      let ended =
        finish_dial env u r b e h.backend h.err dialled
        ∙ ap (λ z. z >> λ y. dispatch env (leave y b) r) (off ∙ ap done at)
        ∙ went in
      let i = Ends-at {P = Inv} x (finish-Inv env t r [] h.inv h.finished) (ap after ended) in
      (
        x,
        ended,
        dispatch-IsTried env r b s (leave (set_pool u q) b) x (omega (arith, w.shorter, h.same_len))
            refl h.stopped i w.is_out d,
      )

-- run and finish of the request, round by round, as long as it is running
abbrev pub retry : (ℕ → Option ℕ) → (String → Dialed) → Option Bool → Env → ℕ → ℕ → Scheduler → Exec
retry create dial copied env r zero s = done s
retry create dial copied env r (suc k) s =
    let rest = run create dial copied s r >> λ t.
    finish env (record t { finished = [] }) r >> retry create dial copied env r k in
    if mult r s.running == 0 then done s else rest

module _ (create : ℕ → Option ℕ) (dial : String → Dialed) (copied : Option Bool) (env : Env)
    (r : ℕ) where
  retry-done :
      (k : ℕ) (s : Scheduler) → mult r s.running ≡ 0 → retry create dial copied env r k s ≡ done s
  retry-done zero s stopped = refl
  retry-done (suc k) s stopped =
      let over : (mult r s.running == 0) ≡ true = ground (arith, stopped) in rw (retry, over) refl

  retry_for :
      (e : GoError)
      → Refuses create dial e
      → is_dial e ≡ true
      → (k : ℕ) (s : Scheduler) (b : ℕ) → IsRunning r s b
      → s.pool.len ≤ k
      → Ends (IsOver r) (retry create dial copied env r k s)
  retry_for e no_one dialled zero s b h enough =
      absurd (let (i, below, here) = h.inside in omega (arith, below, enough))
  retry_for e no_one dialled (suc k) s b h enough =
      let (t, went, failed) =
        run-HasFailed create dial copied e (refused e) false r s b (no_one (s.pool.mem b))
          (λ t. unfold settle in refl) (unfold outcome in refl) h in
      let (u, ended, tried) = finish-IsTried env e dialled r s b t failed in
      let goes_on : (mult r s.running == 0) ≡ false = ground (arith, h.running) in
      rw (retry, goes_on, went, ended)
        (elim tried.next [
          | inl over ↦ (u, retry-done k u over.stopped.0, over)
          | inr (c, again) ↦
              retry_for e no_one dialled k u c again (omega (arith, tried.shorter, enough))
        ])

  -- A request runs on a backend of the heap, no request waits in the channel done, and every backend
  -- refuses its connection with an error of the dial. Then run and finish of that request, round by
  -- round, come to an end after at most as many rounds as the heap has backends: the request waits, or
  -- its client was closed; the invariant is kept.
  pub retry-IsOver :
      (e : GoError) (s : Scheduler) (b : ℕ)
      → Refuses create dial e
      → is_dial e ≡ true
      → IsRunning r s b
      → Ends (IsOver r) (retry create dial copied env r s.pool.len s)
  retry-IsOver e s b no_one dialled h = retry_for e no_one dialled s.pool.len s b h (omega arith)
